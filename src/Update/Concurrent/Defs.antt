-- ===== src/Update/Concurrent/Defs.antt =====
-- What the goroutines of several updates have done so far.
use contractdb.Base.{
  Bool, true, false, ◌&&◌, ℕ, ◌≤◌, Option, none, some, List, [], ◌∷◌, ◌++◌, Bytes, length, map, All,
  ◌≡◌, ◌≢◌,
}
use contractdb.Assoc.{bytes_key}
use contractdb.Dns.{Rr}
use contractdb.Item.{Item}
use contractdb.Journal.{Delta}
use contractdb.Handler.{Config, Env}
use contractdb.Store.{ok}
use contractdb.Store.Sample.{SampleStore, sample_get}
use contractdb.Update.{Insertion, pks, key_set, old_rrs, insertion_rrs}
use contractdb.Update.Concurrent.{
  Job, Stage, writing, counting, numbering, recording, finished, given_up, Thread,
}

-- The job of a packet with one affected key, of one insertion at most, and none of a nil item
abbrev pub IsJob : Job → Type 0
IsJob job =
    (key_set (job.deletes ++ pks job.inserts) ≡ job.key ∷ [])
    × (length job.inserts ≤ 1)
    × All (λ (ins : Insertion). ins.item ≢ none) job.inserts

abbrev pub jobs_of : List Thread → List Job
jobs_of ts = map (λ (t : Thread). t.job) ts

-- The keys of jobs differ.
abbrev pub Apart : List Job → Type 0
Apart [] = Unit
Apart (job ∷ jobs) = All (λ (other : Job). job.key ≢ other.key) jobs × Apart jobs

-- The item read by a goroutine that has written
abbrev pub wrote : Stage → Option Item
wrote (counting old) = some old
wrote (numbering old) = some old
wrote (recording old s) = some old
wrote (finished old s) = some old
wrote _ = none

abbrev pub removed_by : Env → Config → Bytes → Option Item → List Rr
removed_by env cfg key none = []
removed_by env cfg key (some old) = old_rrs env.json cfg key old

abbrev pub added_by : Env → Config → List Insertion → Option Item → List Rr
added_by env cfg inserts none = []
added_by env cfg inserts (some old) = insertion_rrs env.json cfg inserts

-- The removals and the additions that the goroutines which have written journal, or will
abbrev pub removals : Env → Config → List Thread → List Rr
removals env cfg [] = []
removals env cfg (t ∷ ts) = removed_by env cfg t.job.key (wrote t.stage) ++ removals env cfg ts

abbrev pub additions : Env → Config → List Thread → List Rr
additions env cfg [] = []
additions env cfg (t ∷ ts) = added_by env cfg t.job.inserts (wrote t.stage) ++ additions env cfg ts

-- A goroutine that is about to write has read what is there.
abbrev pub ReadsStage : SampleStore → Bytes → Stage → Type 0
ReadsStage s key (writing old) = sample_get s key ≡ ok old
ReadsStage s key _ = Unit

abbrev pub Reads : SampleStore → Thread → Type 0
Reads s t = ReadsStage s t.job.key t.stage

-- The entry that a goroutine has numbered and not recorded
abbrev pub pending_of : Env → Config → Job → Stage → List (ℕ × Delta)
pending_of env cfg job (recording old s) =
    (
      s,
      record {
        serial = s;
        removed = old_rrs env.json cfg job.key old;
        added = insertion_rrs env.json cfg job.inserts;
      },
    )
    ∷ []
pending_of env cfg job _ = []

-- What a goroutine exchanges, and has written and not numbered
abbrev pub change_by : Env → Config → Job → Item → List Rr × List Rr
change_by env cfg job old =
    (old_rrs env.json cfg job.key old, insertion_rrs env.json cfg job.inserts)

abbrev pub waiting_of : Env → Config → Job → Stage → List (List Rr × List Rr)
waiting_of env cfg job (counting old) = change_by env cfg job old ∷ []
waiting_of env cfg job (numbering old) = change_by env cfg job old ∷ []
waiting_of env cfg job _ = []

abbrev pub changed_by : Env → Config → Job → Option Item → List (List Rr × List Rr)
changed_by env cfg job none = []
changed_by env cfg job (some old) = change_by env cfg job old ∷ []

abbrev pub changes_of : Env → Config → Job → Stage → List (List Rr × List Rr)
changes_of env cfg job stage = changed_by env cfg job (wrote stage)

abbrev pub all_pending : Env → Config → List Thread → List (ℕ × Delta)
all_pending env cfg [] = []
all_pending env cfg (t ∷ ts) = pending_of env cfg t.job t.stage ++ all_pending env cfg ts

abbrev pub all_waiting : Env → Config → List Thread → List (List Rr × List Rr)
all_waiting env cfg [] = []
all_waiting env cfg (t ∷ ts) = waiting_of env cfg t.job t.stage ++ all_waiting env cfg ts

abbrev pub all_changes : Env → Config → List Thread → List (List Rr × List Rr)
all_changes env cfg [] = []
all_changes env cfg (t ∷ ts) = changes_of env cfg t.job t.stage ++ all_changes env cfg ts

-- A goroutine has returned.
abbrev pub has_ended : Stage → Bool
has_ended (finished old s) = true
has_ended (given_up code) = true
has_ended _ = false

abbrev pub all_ended : List Thread → Bool
all_ended [] = true
all_ended (t ∷ ts) = has_ended t.stage && all_ended ts
