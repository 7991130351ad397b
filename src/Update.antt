-- ===== src/Update.antt =====
-- update.go: RFC 2136 dynamic updates. Prerequisites arrive in `req.answer`, updates in `req.ns`.
mod Checks
pub mod Prerequisites
pub mod Atomic
pub mod Concurrent
pub mod Effects
pub mod Delta
unfoldable pub use Checks.*
use contractdb.Base.{
  ℕ, zero, suc, ◌+◌, Bool, true, false, ◌&&◌, ◌||◌, not, Option, none, some, List, [], ◌∷◌, ◌++◌,
  Bytes, bytes_eq, ◌==◌, length, if◌then◌else◌,
}
use contractdb.Assoc.{lookup, insert, bytes_key}
use contractdb.Text.{to_lower, has_suffix, equal_fold}
use contractdb.Txt.{decode_txt_strings}
use contractdb.Dns.{Rr, Body, Header, Question, Msg, DnsLib, new_msg}
use contractdb.Dns.Kind
use contractdb.Dns.Class
use contractdb.Dns.Rcode
use contractdb.Item.{Item, Json}
use contractdb.Store.{Result, ok, failed, Writer, Store}
use contractdb.Names.{dot, parse_key}
use contractdb.Handler.{
  Config, Handler, Env, ResponseWriter, item_rrs, soa, tsig_valid, setup_reply_tsig, commit_write,
  count_refused,
}

-- A step of an update, or the rcode that it returns.
pub data Step {ℓ} (A : Type ℓ) : Type ℓ where
  go_on : A → Step A
  rcode : ℕ → Step A

infixl 5 ◌>>=◌
abbrev pub ◌>>=◌ {ℓ κ} : {A : Type ℓ} {B : Type κ} → Step A → (A → Step B) → Step B
go_on a >>= f = f a
rcode c >>= f = rcode c

abbrev pub or_rcode : {A : Type 0} → ℕ → Option A → Step A
or_rcode c none = rcode c
or_rcode c (some a) = go_on a

-- The variables of the first pass: keys to delete, and the character strings of each inserted
-- owner name, the names in order of arrival.
pub record Collected : Type 0 where
  pub deletes : List Bytes
  pub order : List Bytes
  pub tx_blobs : List (Bytes × List Bytes)

abbrev pub is_deletion : Header → Bool
is_deletion hdr =
    hdr.class == Class.any && (hdr.rrtype == Kind.any || hdr.rrtype == Kind.txt)
    || hdr.class == Class.none_ && (hdr.rrtype == Kind.any || hdr.rrtype == Kind.txt)

-- `txBlobs[name] = append(txBlobs[name], strings...)`, and `order` if the name is new
unfoldable pub add_strings : Bytes → List Bytes → Collected → Collected
add_strings name strings c = elim (lookup name c.tx_blobs) [
  | none ↦ record c { order = c.order ++ name ∷ []; tx_blobs = insert name strings c.tx_blobs }
  | some old ↦ record c { tx_blobs = insert name (old ++ strings) c.tx_blobs }
]

unfoldable pub collect_strings : Bytes → Bytes → List Bytes → Collected → Step Collected
unfolding add_strings
collect_strings zone name strings c =
    if not (has_suffix name (dot ∷ zone))
    then rcode Rcode.not_zone
    else go_on (add_strings name strings c)

unfoldable pub collect_rr : Bytes → Rr → Collected → Step Collected
unfolding collect_strings
collect_rr zone rr c =
    let name = to_lower rr.hdr.name in
    if is_deletion rr.hdr
    then (or_rcode Rcode.not_zone (parse_key zone name) >>= λ key.
        go_on (record c { deletes = c.deletes ++ key ∷ [] }))
    else if is_kind rr.hdr Class.inet Kind.txt
    then (or_rcode Rcode.refused (txt_of rr.body) >>= λ strings.
        collect_strings zone name strings c)
    else rcode Rcode.refused

unfoldable pub collect : Bytes → List Rr → Collected → Step Collected
unfolding collect_rr
collect zone [] c = go_on c
collect zone (rr ∷ rrs) c = do c' ← collect_rr zone rr c; collect zone rrs c'

abbrev pub no_updates : Collected
no_updates = record { deletes = []; order = []; tx_blobs = [] }

pub record Insertion : Type 0 where
  pub pk : Bytes
  pub item : Item

abbrev pub strings_of : List (Bytes × List Bytes) → Bytes → List Bytes
strings_of blobs name = elim (lookup name blobs) [ none ↦ [] | some strings ↦ strings ]

unfoldable pub insertion_of : Json → Bytes → List (Bytes × List Bytes) → Bytes → Step Insertion
insertion_of json zone blobs name = do
  key ← or_rcode Rcode.refused (parse_key zone name)
  payload ← or_rcode Rcode.format_error (decode_txt_strings (strings_of blobs name))
  if not (json.valid payload) then rcode Rcode.format_error else do
    item ← or_rcode Rcode.format_error (json.unmarshal payload)
    go_on (record { pk = key; item = item })

unfoldable pub insertions :
    Json → Bytes → List (Bytes × List Bytes) → List Bytes → Step (List Insertion)
unfolding insertion_of
insertions json zone blobs [] = go_on []
insertions json zone blobs (name ∷ names) = do
  ins ← insertion_of json zone blobs name
  rest ← insertions json zone blobs names
  go_on (ins ∷ rest)

-- The keys of the affected set, each once.
unfoldable pub contains : Bytes → List Bytes → Bool
contains k [] = false
contains k (j ∷ ks) = bytes_eq j k || contains k ks

unfoldable pub key_set : List Bytes → List Bytes
unfolding contains
key_set [] = []
key_set (k ∷ ks) = let rest = key_set ks in if contains k rest then rest else k ∷ rest

abbrev pub pks : List Insertion → List Bytes
pks [] = []
pks (ins ∷ rest) = ins.pk ∷ pks rest

-- The zone section is one question of type SOA and class IN that names the zone.
abbrev pub is_zone_section : Bytes → Question → List Question → Bool
is_zone_section zone q [] =
    equal_fold q.name zone && (q.qtype == Kind.soa && q.qclass == Class.inet)
is_zone_section zone q (q' ∷ qs) = false

-- What an update leaves: its rcode, the handler, and the addresses that are notified.
pub record Updated (S : Type 0) : Type 0 where
  pub code : ℕ
  pub handler : Handler S
  pub notified : List Bytes

-- The records of the insertions, without those that cannot be marshalled.
unfoldable pub insertion_rrs : Json → Config → List Insertion → List Rr
insertion_rrs json cfg [] = []
insertion_rrs json cfg (ins ∷ rest) =
    let more = insertion_rrs json cfg rest in
    elim (item_rrs json cfg ins.pk ins.item) [ none ↦ more | some rrs ↦ rrs ++ more ]

unfoldable pub old_rrs : Json → Config → Bytes → Item → List Rr
old_rrs json cfg key none = []
old_rrs json cfg key (some fs) = elim (item_rrs json cfg key (some fs)) [
  | none ↦ []
  | some rrs ↦ rrs
]

module _ {S : Type 0} (env : Env) (ops : Store S) where
  -- The put of the first insertion, or the delete of the affected key.
  unfoldable pub write : Writer S → S → Bytes → List Insertion → Bool × S
  write writer s key [] = writer.delete s key
  write writer s key (ins ∷ rest) = writer.put s ins.pk ins.item

  -- After a successful write: the counter, the serial and the journal, the notifications.
  unfoldable pub finish : Handler S → S → Bytes → Item → List Insertion → Updated S
  unfolding insertion_rrs old_rrs
  finish h s key old inserts =
      let counted = record h {
        store = s;
        metrics = record h.metrics { updates = h.metrics.updates + 1 };
      } in
      record {
        code = Rcode.success;
        handler =
            commit_write counted (old_rrs env.json h.cfg key old)
              (insertion_rrs env.json h.cfg inserts);
        notified = h.notifiees;
      }

  abbrev pub stopped : Handler S → ℕ → Updated S
  stopped h c = record { code = c; handler = h; notified = [] }

  unfoldable pub apply_one : Handler S → Writer S → Bytes → List Insertion → Updated S
  apply_one h writer key inserts = elim (ops.get h.store key) [
    | failed ↦ stopped h Rcode.server_failure
    | ok old ↦
        let (done, s) = write writer h.store key inserts in
        if done
        then finish h s key old inserts
        else stopped (record h { store = s }) Rcode.server_failure
  ]

  -- From the affected set on: it holds the keys of the deletions and of the insertions.
  unfoldable pub apply : Handler S → Writer S → List Bytes → List Insertion → Updated S
  apply h writer [] inserts = stopped h Rcode.success
  apply h writer (key ∷ []) inserts = apply_one h writer key inserts
  apply h writer (key ∷ key' ∷ keys) inserts = stopped h Rcode.refused

  -- The checks and the two passes: the deletions and the insertions of a valid packet.
  unfoldable pub plan : Handler S → Msg → Step (List Bytes × List Insertion)
  plan h req = elim req.question [
    | [] ↦ rcode Rcode.format_error
    | q ∷ qs ↦
        if not (is_zone_section h.cfg.zone q qs)
        then rcode Rcode.format_error
        else let code = eval_prerequisites env.json ops h.store h.cfg.zone req.answer in
          if not (code == Rcode.success)
          then rcode code
          else collect h.cfg.zone req.ns no_updates >>= λ c.
              insertions env.json h.cfg.zone c.tx_blobs c.order >>= λ ins. go_on (c.deletes, ins)
  ]

  unfoldable pub apply_plan : Handler S → Writer S → Step (List Bytes × List Insertion) → Updated S
  apply_plan h writer (rcode c) = stopped h c
  apply_plan h writer (go_on (deletes, inserts)) =
      apply h writer (key_set (deletes ++ pks inserts)) inserts

  -- The type assertion `h.store.(Writer)`, and what follows.
  unfoldable pub process_with : Handler S → Msg → Option (Writer S) → Updated S
  process_with h req none = stopped h Rcode.refused
  process_with h req (some writer) = apply_plan h writer (plan h req)

  unfoldable pub process_update : Handler S → Msg → Updated S
  process_update h req = process_with h req ops.writer

  -- The reply to an update that was processed.
  unfoldable pub update_reply : Handler S → Msg → ℕ → Msg
  update_reply h req code =
      let m = record (env.lib.set_rcode new_msg req code) { authoritative = true } in
      let full = record m { answer = m.answer ++ soa h ∷ [] } in
      setup_reply_tsig env.lib h req (if code == Rcode.success then full else m)

  -- The handler, the message written, and the addresses that are notified.
  unfoldable pub handle_update : Handler S → ResponseWriter → Msg → Handler S × Msg × List Bytes
  handle_update h w req =
      if not (tsig_valid env.lib h w req)
      then (count_refused h, env.lib.set_rcode new_msg req Rcode.refused, [])
      else let u = process_update h req in
        (u.handler, update_reply u.handler req u.code, u.notified)
