-- ===== src/Update/Concurrent.antt =====
-- processUpdate of update.go from the affected set on, with commitWrite, as the steps of goroutines that
-- share a handler: each call of the store, of an atomic counter and of the journal is one step.
pub mod Defs
pub mod Entries
pub mod Numbers
pub mod Logged
pub mod Scheduled
pub mod Together
pub mod Progress
pub mod Step
pub mod Balance
use mathlib.Core.Option
use contractdb.Base.{
  ℕ, zero, suc, ◌+◌, Bool, true, false, Option, none, some, List, [], ◌∷◌, Bytes, if◌then◌else◌,
}
use contractdb.Dns.Rcode
use contractdb.Item.{Item}
use contractdb.Journal.{succ32, log_record}
use contractdb.Handler.{Handler, Env}
use contractdb.Store.{Store, Writer, ok, failed}
use contractdb.Update.{Insertion, write, old_rrs, insertion_rrs}

-- What a packet with one affected key asks for.
pub record Job : Type 0 where
  pub deletes : List Bytes
  pub key : Bytes
  pub inserts : List Insertion

-- Where a goroutine stands, with its variables: `old` as read, `s` of commitWrite, the code returned.
pub data Stage : Type 0 where
  reading : Stage
  writing : Item → Stage
  counting : Item → Stage
  numbering : Item → Stage
  recording : Item → ℕ → Stage
  finished : Item → ℕ → Stage
  given_up : ℕ → Stage

pub record Thread : Type 0 where
  pub job : Job
  pub stage : Stage

module _ {S : Type 0} (env : Env) (ops : Store S) (writer : Writer S) where
  unfoldable pub advance : Handler S → Job → Stage → Handler S × Stage
  advance h job reading = elim (ops.get h.store job.key) [
    | failed ↦ (h, given_up Rcode.server_failure)
    | ok old ↦ (h, writing old)
  ]
  advance h job (writing old) =
      let (done, s) = write env ops writer h.store job.key job.inserts in
      (record h { store = s }, if done then counting old else given_up Rcode.server_failure)
  advance h job (counting old) =
      (record h { metrics = record h.metrics { updates = h.metrics.updates + 1 } }, numbering old)
  advance h job (numbering old) =
      (record h { serial = succ32 h.serial }, recording old (succ32 h.serial))
  advance h job (recording old s) = (
    record h {
      changelog =
          Option.map
            (λ c.
              log_record c s (old_rrs env.json h.cfg job.key old)
                (insertion_rrs env.json h.cfg job.inserts))
            h.changelog;
    },
    finished old s,
  )
  advance h job (finished old s) = (h, finished old s)
  advance h job (given_up code) = (h, given_up code)

  -- A step of the thread at an index; none beyond the last
  unfoldable pub advance_at : Handler S → List Thread → ℕ → Handler S × List Thread
  unfolding advance
  advance_at h [] i = (h, [])
  advance_at h (t ∷ ts) zero =
      let (h', stage) = advance h t.job t.stage in (h', record t { stage = stage } ∷ ts)
  advance_at h (t ∷ ts) (suc i) = let (h', ts') = advance_at h ts i in (h', t ∷ ts')

  -- A schedule: whose step is next
  unfoldable pub run : Handler S → List Thread → List ℕ → Handler S × List Thread
  unfolding advance_at
  run h ts [] = (h, ts)
  run h ts (i ∷ schedule) = let (h', ts') = advance_at h ts i in run h' ts' schedule

abbrev pub started : Job → Thread
started job = record { job = job; stage = reading }
