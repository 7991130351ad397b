-- ===== src/Transfer.antt =====
-- transfer.go: zone transfers. A stream is the list of the messages whose write was tried, and
-- whether the last write succeeded.
pub mod Batches
pub mod Streams
pub mod Table
use Prim.Native.Nat.{min}
use contractdb.Base.{
  ℕ, zero, suc, ◌+◌, ◌-◌, ◌^◌, Bool, true, false, ◌&&◌, ◌||◌, not, Option, none, some, List, [],
  ◌∷◌, ◌++◌, ltb, leb, ◌==◌, is_empty, length, if◌then◌else◌,
}
use contractdb.Text.{equal_fold}
use contractdb.Dns.{Rr, Body, Soa, Question, Msg, DnsLib, new_msg}
use contractdb.Dns.Kind
use contractdb.Dns.Rcode
use contractdb.Item.{Entry}
use contractdb.Store.{Pages, Reader, Store}
use contractdb.Journal.{Delta, log_deltas, pred32}
use contractdb.Handler.{
  Config, Handler, Env, Network, udp, tcp, ResponseWriter, item_rrs, soa, soa_with_serial,
  tsig_valid, setup_reply_tsig, count_refused,
}

abbrev pub axfr_max_rrs_per_msg : ℕ
axfr_max_rrs_per_msg = 500

abbrev pub axfr_max_bytes : ℕ
axfr_max_bytes = 2 ^ 16

abbrev pub overhead_per_msg : ℕ
overhead_per_msg = 512

abbrev pub udp_default_size : ℕ
udp_default_size = 512

abbrev pub is_tcp : Network → Bool
is_tcp udp = false
is_tcp tcp = true

-- The batch that is being filled, with its length so far.
pub record Batch : Type 0 where
  pub rrs : List Rr
  pub len : ℕ

abbrev pub empty_batch : Batch
empty_batch = record { rrs = []; len = overhead_per_msg }

-- `len(cur) > 0 && (len(cur)+1 > axfrMaxRRsPerMsg || curLen+l > capBytes)`
abbrev pub is_full : ℕ → Batch → ℕ → Bool
is_full cap b l =
    not (is_empty b.rrs) && (ltb axfr_max_rrs_per_msg (length b.rrs + 1) || ltb cap (b.len + l))

abbrev pub add_rr : Batch → Rr → ℕ → Batch
add_rr b rr l = record { rrs = b.rrs ++ rr ∷ []; len = b.len + l }

module _ (rr_len : Rr → ℕ) (cap : ℕ) where
  -- The loop of batchRRs, the finished batches in `out`.
  unfoldable pub batch_loop : List Rr → Batch → List (List Rr) → List (List Rr)
  batch_loop [] b out = if is_empty b.rrs then out else out ++ b.rrs ∷ []
  batch_loop (rr ∷ rrs) b out =
      let l = rr_len rr in
      let full = is_full cap b l in
      batch_loop rrs (add_rr (if full then empty_batch else b) rr l)
        (if full then out ++ b.rrs ∷ [] else out)

  unfoldable pub batch_rrs : List Rr → List (List Rr)
  unfolding batch_loop
  batch_rrs rrs = batch_loop rrs empty_batch []

-- The messages so far, whether the stream goes on.
pub record Stream : Type 0 where
  pub sent : List Msg
  pub alive : Bool

abbrev pub soa_body : Body → Option Soa
soa_body (Body.soa s) = some s
soa_body _ = none

-- `len(req.Ns) != 1`, and the type assertion
abbrev pub client_soa : List Rr → Option Soa
client_soa [] = none
client_soa (rr ∷ []) = soa_body rr.body
client_soa (rr ∷ rr' ∷ rrs) = none

-- `deltas, _ = h.changelog.Deltas(...)`: without history the slice is nil.
abbrev pub deltas_since : {S : Type 0} → Handler S → ℕ → Option (List Delta)
deltas_since h since = elim h.changelog [ none ↦ none | some c ↦ log_deltas c since ]

module _ {S : Type 0} (env : Env) (ops : Store S) where
  -- refuse: the message and the counter.
  unfoldable pub refuse : Handler S → ResponseWriter → Msg → Handler S × List Msg
  refuse h w req =
      let m = env.lib.set_rcode new_msg req Rcode.refused in
      (
        count_refused h,
        (if tsig_valid env.lib h w req then setup_reply_tsig env.lib h req m else m) ∷ [],
      )

  -- A message of a transfer.
  unfoldable pub transfer_msg : Handler S → Msg → List Rr → Msg
  transfer_msg h req rrs =
      setup_reply_tsig env.lib h req
        (record (env.lib.set_reply new_msg req) { authoritative = true; answer = rrs })

  -- `send`, on a stream that is alive; on one that is not, the source has returned.
  unfoldable pub send : Handler S → ResponseWriter → Msg → List Rr → Stream → Stream
  send h w req rrs s = if not s.alive || is_empty rrs then s else record {
    sent = s.sent ++ transfer_msg h req rrs ∷ [];
    alive = w.write_ok (length s.sent);
  }

  unfoldable pub send_all : Handler S → ResponseWriter → Msg → List (List Rr) → Stream → Stream
  unfolding send
  send_all h w req [] s = s
  send_all h w req (b ∷ bs) s = send_all h w req bs (send h w req b s)

  -- RFC 1995 difference sequence: old SOA, deletions, new SOA, additions.
  unfoldable pub difference : Handler S → Delta → List Rr
  difference h d =
      soa_with_serial h (pred32 d.serial) ∷ (d.removed ++ soa_with_serial h d.serial ∷ d.added)

  unfoldable pub send_deltas : Handler S → ResponseWriter → Msg → ℕ → List Delta → Stream → Stream
  send_deltas h w req cap [] s = s
  send_deltas h w req cap (d ∷ ds) s =
      send_deltas h w req cap ds
        (send_all h w req (batch_rrs env.lib.rr_len cap (difference h d)) s)

  -- The buffer and the stream, over one record of a full transfer.
  unfoldable pub buffer_rr :
      Handler S → ResponseWriter → Msg → ℕ → Rr → Batch × Stream → Batch × Stream
  unfolding send
  buffer_rr h w req cap rr (b, s) =
      let l = env.lib.rr_len rr in
      if is_full cap b l
      then (add_rr empty_batch rr l, send h w req b.rrs s)
      else (add_rr b rr l, s)

  unfoldable pub buffer_rrs :
      Handler S → ResponseWriter → Msg → ℕ → List Rr → Batch × Stream → Batch × Stream
  unfolding buffer_rr
  buffer_rrs h w req cap [] bs = bs
  buffer_rrs h w req cap (rr ∷ rrs) bs = buffer_rrs h w req cap rrs (buffer_rr h w req cap rr bs)

  -- The records of a page, without the items that cannot be marshalled.
  unfoldable pub page_rrs : Config → List Entry → List Rr
  page_rrs cfg [] = []
  page_rrs cfg (e ∷ es) =
      let rest = page_rrs cfg es in
      elim (item_rrs env.json cfg e.key e.item) [ none ↦ rest | some rrs ↦ rrs ++ rest ]

  unfoldable pub pages_rrs : Config → List (List Entry) → List Rr
  unfolding page_rrs
  pages_rrs cfg [] = []
  pages_rrs cfg (p ∷ ps) = page_rrs cfg p ++ pages_rrs cfg ps

  -- The full transfer between the two SOAs. A failed write or a failed listing ends it.
  unfoldable pub send_items : Handler S → ResponseWriter → Msg → ℕ → Reader S → Stream → Stream
  send_items h w req cap reader s =
      let (b, s') =
        buffer_rrs h w req cap (pages_rrs h.cfg (reader.list h.store).pages) (empty_batch, s) in
      if (reader.list h.store).broken then record s' { alive = false } else send h w req b.rrs s'

  unfoldable pub udp_cap : Msg → ℕ
  udp_cap req = elim (env.lib.is_edns0 req) [
    | none ↦ udp_default_size
    | some opt ↦ if ltb udp_default_size opt.udp_size then opt.udp_size else udp_default_size
  ]

  -- `min(h.udpCap(req)-overheadPerMsg, axfrMaxBytes)`: the cap is never below the overhead.
  unfoldable pub cap_bytes : ResponseWriter → Msg → ℕ
  cap_bytes w req =
      if is_tcp w.network
      then axfr_max_bytes
      else min (udp_cap req - overhead_per_msg) axfr_max_bytes

  abbrev pub count_transfer : Handler S → Handler S
  count_transfer h = record h { metrics = record h.metrics { transfers = h.metrics.transfers + 1 } }

  -- The SOA, the body, the SOA.
  unfoldable pub framed :
      Handler S → ResponseWriter → Msg → (Stream → Stream) → Handler S × List Msg
  framed h w req body =
      let opened = send h w req (soa h ∷ []) (record { sent = []; alive = true }) in
      let closed = send h w req (soa h ∷ []) (body opened) in
      (if closed.alive then count_transfer h else h, closed.sent)

  -- `none` is the nil slice of deltas.
  unfoldable pub stream_zone :
      Handler S → ResponseWriter → Msg → Question → Option (List Delta) → Handler S × List Msg
  stream_zone h w req q deltas =
      if q.qtype == Kind.axfr && not (is_tcp w.network) then refuse h w req else elim deltas [
        | some ds ↦ framed h w req (send_deltas h w req (cap_bytes w req) ds)
        | none ↦ elim ops.reader [
          | none ↦ refuse h w req
          | some reader ↦ framed h w req (send_items h w req (cap_bytes w req) reader)
        ]
      ]

  unfoldable pub handle_axfr : Handler S → ResponseWriter → Msg → Question → Handler S × List Msg
  handle_axfr h w req q =
      if not (equal_fold q.name h.cfg.zone) then refuse h w req else stream_zone h w req q none

  -- The reply of one SOA: the client is up to date, or has to come back over TCP.
  unfoldable pub soa_reply : Handler S → Msg → Msg
  soa_reply h req = transfer_msg h req (soa h ∷ [])

  unfoldable pub handle_ixfr : Handler S → ResponseWriter → Msg → Question → Handler S × List Msg
  handle_ixfr h w req q = elim (client_soa req.ns) [
    | none ↦ refuse h w req
    | some soa_of ↦
        if not (equal_fold q.name h.cfg.zone)
        then refuse h w req
        else if leb h.serial soa_of.serial
        then (h, soa_reply h req ∷ [])
        else if not (is_tcp w.network)
        then (h, soa_reply h req ∷ [])
        else stream_zone h w req q (deltas_since h soa_of.serial)
  ]
