-- ===== src/Serve/Reachable.antt =====
-- The handlers that ServeDNS leads to, message after message.
use mathlib.Core.Option
use contractdb.Base.{
  ℕ, suc, ◌+◌, ◌≤◌, ◌<◌, true, some, List, [], ◌∷◌, ◌++◌, ◌≡◌, inl, inr, refl, arith, length,
  length-append, append_assoc, append-nil, Bool-cases, ◌==◌, ◌∙◌, ap, sym, Bytes,
}
use contractdb.Dns.{Msg, Question, Rr}
use contractdb.Dns.Opcode
use contractdb.Store.{Store, Writer}
use contractdb.Journal.{Delta, MemChangeLog, u32_mod, succ32, log_record}
use contractdb.Journal.Window.{Journals, Journals-log_record, delta_at}
use contractdb.Handler.{Handler, Env, ResponseWriter, tsig_valid, count_refused}
use contractdb.Update.{
  Updated, go_on, plan, Insertion, pks, key_set, write, old_rrs, insertion_rrs, process_update,
  handle_update,
}
use contractdb.Update.Atomic.{
  FailsClean, Applied, Atomically, untouched, applied, process_update-Atomically,
}
use contractdb.Serve.{serve_dns, serve_question, count_query}
use contractdb.Serve.Policy.{serve_dns_query}
use contractdb.Serve.Chronicle.{Chronicle, quiet, wrote, onwards, write-Writes}

-- The handler has a journal, which keeps the end of the history `hist`, and its serial is that of
-- the last delta.
pub record Journaled {S : Type 0} (base : ℕ) (hist : List Delta) (h : Handler S) : Type 0 where
  pub journal : MemChangeLog
  pub has : h.changelog ≡ some journal
  pub serial : h.serial ≡ base + length hist
  pub keeps : Journals base hist journal

-- The handlers that `n` messages lead to.
pub data Reaches {S : Type 0} (env : Env) (ops : Store S) : Handler S → ℕ → Handler S → Type 0 where
  start : (h : Handler S) → Reaches env ops h 0 h
  serve :
      (h h' : Handler S) (n : ℕ) (w : ResponseWriter) (req : Msg)
      → Reaches env ops h n h'
      → Reaches env ops h (suc n) (serve_dns env ops h' w req).handler

pub same-Journaled :
    {S : Type 0} (base : ℕ) (hist : List Delta) (h h' : Handler S)
    → h'.serial ≡ h.serial
    → h'.changelog ≡ h.changelog
    → Journaled base hist h
    → Journaled base hist h'
same-Journaled base hist h h' s c j = record {
  journal = j.journal;
  has = c ∙ j.has;
  serial = s ∙ j.serial;
  keeps = j.keeps;
}

-- A write that is committed takes the history one delta further.
pub applied-Journaled :
    {S : Type 0} (base : ℕ) (hist : List Delta) (h h' : Handler S) (removed added : List Rr)
    → Journaled base hist h
    → base + length hist + 2 < u32_mod
    → h'.serial ≡ succ32 h.serial
    → h'.changelog ≡ Option.map (λ c. log_record c (succ32 h.serial) removed added) h.changelog
    → Journaled base (hist ++ delta_at base hist removed added ∷ []) h'
applied-Journaled base hist h h' removed added j room s c =
    let next : succ32 h.serial ≡ base + length hist + 1 = omega (arith, j.serial) in
    record {
      journal = log_record j.journal (base + length hist + 1) removed added;
      has = c ∙ rw (j.has, next) refl;
      serial = omega (arith, length-append hist (delta_at base hist removed added ∷ []));
      keeps = Journals-log_record base hist j.journal removed added j.keeps room;
    }

-- The histories that a message may lead to: the same, or one delta longer.
abbrev Grows : {S : Type 0} → Env → Store S → ℕ → List Delta → Handler S → Handler S → Type 0
Grows env ops base hist h h' =
    (more : List Delta) × (length more ≤ 1)
    × Journaled base (hist ++ more) h'
    × Chronicle env ops h more h'

module _ {S : Type 0} (env : Env) (ops : Store S)
    (clean : (writer : Writer S) → ops.writer ≡ some writer → FailsClean writer) where
  unchanged-Grows :
      (base : ℕ) (hist : List Delta) (h h' : Handler S)
      → h'.store ≡ h.store
      → h'.serial ≡ h.serial
      → h'.changelog ≡ h.changelog
      → Journaled base hist h
      → Grows env ops base hist h h'
  unchanged-Grows base hist h h' store s c j =
      ([], omega arith, rw append-nil (same-Journaled base hist h h' s c j), quiet h h' store)

  Applied-Grows :
      (base : ℕ) (hist : List Delta) (h : Handler S) (req : Msg) (u : Updated S) (writer : Writer S)
      (deletes : List Bytes) (key : Bytes) (inserts : List Insertion)
      → Journaled base hist h
      → base + length hist + 2 < u32_mod
      → ops.writer ≡ some writer
      → plan env ops h req ≡ go_on (deletes, inserts)
      → key_set (deletes ++ pks inserts) ≡ key ∷ []
      → Applied env ops h writer key inserts u
      → Grows env ops base hist h u.handler
  Applied-Grows base hist h req u writer deletes key inserts j room w p one done =
      let removed = old_rrs env.json h.cfg key done.old in
      let added = insertion_rrs env.json h.cfg inserts in
      let stored : write env ops writer h.store key inserts ≡ (true, u.handler.store) =
        λ i. (done.succeeds i, sym done.store i) in
      (
        delta_at base hist removed added ∷ [],
        omega arith,
        applied-Journaled base hist h u.handler removed added j room done.serial done.changelog,
        wrote h u.handler (delta_at base hist removed added) (omega (arith, j.serial, done.serial))
            (write-Writes env ops h writer req deletes key done.old u.handler.store inserts w p one
              done.was stored),
      )

  Atomically-Grows :
      (base : ℕ) (hist : List Delta) (h : Handler S) (req : Msg) (u : Updated S)
      → Journaled base hist h
      → base + length hist + 2 < u32_mod
      → Atomically env ops h req u
      → Grows env ops base hist h u.handler
  Atomically-Grows base hist h req u j room (untouched same) =
      unchanged-Grows base hist h u.handler (ap (λ (g : Handler S). g.store) same.handler)
        (ap (λ (g : Handler S). g.serial) same.handler)
        (ap (λ (g : Handler S). g.changelog) same.handler) j
  Atomically-Grows base hist h req u j room (applied writer deletes inserts key w p k done) =
      Applied-Grows base hist h req u writer deletes key inserts j room w p k done

  update-Grows :
      (base : ℕ) (hist : List Delta) (h : Handler S) (w : ResponseWriter) (req : Msg)
      → Journaled base hist h
      → base + length hist + 2 < u32_mod
      → Grows env ops base hist h (handle_update env ops h w req).0
  unfolding handle_update count_refused
  update-Grows base hist h w req j room = elim (Bool-cases (tsig_valid env.lib h w req)) [
    | inl valid ↦ rw valid (
        Atomically-Grows base hist h req (process_update env ops h req) j room
          (process_update-Atomically env ops h req clean))
    | inr invalid ↦ rw invalid (unchanged-Grows base hist h (count_refused h) refl refl refl j)
  ]

  pub serve_question-update :
      (h : Handler S) (w : ResponseWriter) (req : Msg) (q : Question)
      → req.opcode ≡ Opcode.update
      → (serve_question env ops h w req q).handler ≡ (handle_update env ops h w req).0
  unfolding serve_question
  serve_question-update h w req q up = ground arith

  counted-Grows :
      (base : ℕ) (hist : List Delta) (h h' : Handler S)
      → Grows env ops base hist (count_query h) h'
      → Grows env ops base hist h h'
  counted-Grows base hist h h' (more, few, j, told) =
      (more, few, j, onwards h (count_query h) h' [] more (quiet h (count_query h) refl) told)

  serve_cases-Grows :
      (base : ℕ) (hist : List Delta) (h : Handler S) (w : ResponseWriter) (req : Msg)
      (qs : List Question)
      → req.question ≡ qs
      → req.opcode ≡ Opcode.update
      → Journaled base hist h
      → base + length hist + 2 < u32_mod
      → Grows env ops base hist h (serve_dns env ops h w req).handler
  unfolding serve_dns
  serve_cases-Grows base hist h w req [] e up j room =
      rw (e, serve_dns) (unchanged-Grows base hist h (count_query h) refl refl refl j)
  serve_cases-Grows base hist h w req (q ∷ qs) e up j room =
      rw (e, serve_dns, serve_question-update (count_query h) w req q up)
        (counted-Grows base hist h (handle_update env ops (count_query h) w req).0 (
          update-Grows base hist (count_query h) w req
            (same-Journaled base hist h (count_query h) refl refl j) room))

  serve_dns-Grows :
      (base : ℕ) (hist : List Delta) (h : Handler S) (w : ResponseWriter) (req : Msg)
      → Journaled base hist h
      → base + length hist + 2 < u32_mod
      → Grows env ops base hist h (serve_dns env ops h w req).handler
  serve_dns-Grows base hist h w req j room = elim (Bool-cases (req.opcode == Opcode.update)) [
    | inl up ↦ serve_cases-Grows base hist h w req req.question refl (ground arith) j room
    | inr other ↦
        let (same, _) = serve_dns_query env ops h w req (ground arith) in
        unchanged-Grows base hist h (serve_dns env ops h w req).handler same.store same.serial
          same.changelog j
  ]

  -- With a store whose failed writes change nothing, and as long as the serials do not wrap: from a
  -- handler with a journal of a history, `n` messages lead to a handler with a journal of that
  -- history and at most `n` more deltas, and with the serial of the last one. These deltas tell the
  -- writes that the messages made in the store: for each successful Put or Delete, in order, one
  -- delta, which removes the records of the item that Get found and adds the records of all the
  -- insertions of the update, and none for anything else.
  pub Reaches-Journaled :
      (base : ℕ) (hist : List Delta) (h h' : Handler S) (n : ℕ)
      → Reaches env ops h n h'
      → Journaled base hist h
      → base + length hist + n + 1 < u32_mod
      → (more : List Delta) × (length more ≤ n)
        × Journaled base (hist ++ more) h'
        × Chronicle env ops h more h'
  Reaches-Journaled base hist h h' n (start _) j room =
      ([], omega arith, rw append-nil j, quiet h h refl)
  Reaches-Journaled base hist h h' n (serve _ h'' n' w req r) j room =
      let (more, few, j', told) = Reaches-Journaled base hist h h'' n' r j (omega arith) in
      let sized = length-append hist more in
      let (one, least, j'', last) =
        serve_dns-Grows base (hist ++ more) h'' w req j' (omega arith) in
      (
        more ++ one,
        omega (arith, length-append more one),
        rw (← append_assoc hist more one) j'',
        onwards h h'' (serve_dns env ops h'' w req).handler more one told last,
      )
