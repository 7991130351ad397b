-- ===== src/Tests/Concurrent.antt =====
-- Updates that are carried out at the same time.
use mathlib.Core.List.{Perm}
use contractdb.Base.{
  ℕ, ◌≤◌, ◌≢◌, true, List, [], ◌∷◌, ◌++◌, codes, bytes_eq, bytes_eq_iff, length, All, ◌≡◌, refl,
  arith,
}
use contractdb.Journal.{Delta}
use contractdb.Handler.{Handler}
use contractdb.Store.Sample.{SampleStore, sample_ops, sample_writer}
use contractdb.Serve.Reachable.{Journaled}
use contractdb.Update.Delta.{table_rrs}
use contractdb.Update.Concurrent.{Job, Thread, finished, run}
use contractdb.Update.Concurrent.Defs.{IsJob, Apart, all_ended}
use contractdb.Update.Concurrent.Together.{threads_of, all_removed, all_added, run-Journaled}
use contractdb.Tests.Setup.{env, item, handler, config, stored}
use contractdb.Tests.Updates.{one_insertion, program}
use contractdb.Tests.Tables.{stored-Distinct}
use contractdb.Tests.Following.{handler-Journaled, handler-HasItems}

abbrev put_job : Job
put_job = record { deletes = []; key = codes "a"; inserts = one_insertion }

abbrev delete_job : Job
delete_job = record { deletes = codes "b" ∷ []; key = codes "b"; inserts = [] }

-- The goroutines take turns, and the second overtakes the first.
abbrev schedule : List ℕ
schedule = 0 ∷ 1 ∷ 0 ∷ 1 ∷ 0 ∷ 0 ∷ 1 ∷ 1 ∷ 1 ∷ 0 ∷ []

abbrev together : Handler SampleStore × List Thread
together =
    run env sample_ops sample_writer handler (threads_of (put_job ∷ delete_job ∷ [])) schedule

jobs-IsJob : All IsJob (put_job ∷ delete_job ∷ [])
unfolding program
jobs-IsJob = ((refl, omega arith, ((λ e. absurd (cc)), tt)), ((refl, omega arith, tt), tt))

apart_ab : bytes_eq (codes "a") (codes "b") ≢ true
unfolding program
apart_ab e = absurd (cc)

jobs-Apart : Apart (put_job ∷ delete_job ∷ [])
jobs-Apart = (((λ e. apart_ab ((bytes_eq_iff (codes "a") (codes "b")).1 e)), tt), (tt, tt))

together_ended : all_ended together.1 ≡ true
unfolding program run
together_ended = refl

run-Journaled_example :
    (more : List Delta) × (length more ≤ 2)
    × Journaled 7 ([] ++ more) together.0
    × Perm
        (all_removed more ++ table_rrs env config together.0.store.items)
        (all_added more ++ table_rrs env config stored.items)
run-Journaled_example =
    run-Journaled env 7 [] handler (put_job ∷ delete_job ∷ []) schedule jobs-IsJob jobs-Apart
      (stored-Distinct, handler-HasItems) handler-Journaled (omega arith) (omega arith)
      together_ended

-- Two deletions of one key, the second of which reads before the first writes: both have read the item that
-- was there, so that both journal its removal.
twice_removed :
    (run env sample_ops sample_writer handler
      (threads_of (delete_job ∷ delete_job ∷ []))
      (0 ∷ 1 ∷ 0 ∷ 0 ∷ 0 ∷ 0 ∷ 1 ∷ 1 ∷ 1 ∷ 1 ∷ [])).1
    ≡ record { job = delete_job; stage = finished (item (codes "y")) 8 }
      ∷ record { job = delete_job; stage = finished (item (codes "y")) 9 }
      ∷ []
unfolding program run
twice_removed = refl
