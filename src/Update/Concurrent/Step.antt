-- ===== src/Update/Concurrent/Step.antt =====
-- One step of a goroutine: what it changes and what it will journal.
use mathlib.Core.List.{Perm}
use mathlib.Core.List.Perm
use contractdb.Base.{
  true, none, some, List, [], ◌∷◌, ◌++◌, Bytes, bytes_eq_iff, All, ◌≡◌, ◌≢◌, refl, sym, ap, arith,
  append-nil,
}
use contractdb.Assoc.{
  lookup, bytes_key, Distinct, lookup-insert, lookup-remove, insert-Distinct, remove-Distinct,
}
use contractdb.Dns.{Rr}
use contractdb.Handler.{Handler, Config, Env}
use contractdb.Store.Sample.{
  SampleStore, sample_ops, sample_writer, sample_get, sample_put, sample_delete,
}
use contractdb.Update.{Insertion, pks, key_set, write, old_rrs, insertion_rrs}
use contractdb.Update.Effects.{insertion_key}
use contractdb.Update.Delta.{table_rrs, write-Perm}
use contractdb.Update.Concurrent.{
  Job, Stage, reading, writing, counting, numbering, recording, finished, given_up, Thread, advance,
}
use contractdb.Update.Concurrent.Defs.{IsJob, wrote, removed_by, added_by, ReadsStage}

-- Each key stands once in the table, and holds an item.
abbrev pub IsSound : SampleStore → Type 0
IsSound s = Distinct s.items × ((k : Bytes) → lookup k s.items ≢ some none)

module _ (env : Env) (cfg : Config) where
  abbrev written : SampleStore → Bytes → List Insertion → SampleStore
  written s key inserts = (write env sample_ops sample_writer s key inserts).1

  pub write_done :
      (s : SampleStore) (key : Bytes) (inserts : List Insertion)
      → (write env sample_ops sample_writer s key inserts).0 ≡ true
  unfolding write sample_put sample_delete
  write_done s key [] = refl
  write_done s key (ins ∷ rest) = refl

  write-IsSound :
      (s : SampleStore) (key : Bytes) (inserts : List Insertion)
      → All (λ (ins : Insertion). ins.item ≢ none) inserts
      → IsSound s
      → IsSound (written s key inserts)
  unfolding write sample_put sample_delete
  write-IsSound s key [] solid (table, items) = (
    remove-Distinct key s.items table,
    λ k e. ground (arith, lookup-remove key k s.items, items k),
  )
  write-IsSound s key (ins ∷ rest) (solid, _) (table, items) = (
    insert-Distinct ins.pk ins.item s.items table,
    λ k e. ground (arith, lookup-insert ins.pk k ins.item s.items, items k, solid),
  )

  write-frame :
      (s : SampleStore) (deletes : List Bytes) (key : Bytes) (inserts : List Insertion) (k : Bytes)
      → key_set (deletes ++ pks inserts) ≡ key ∷ []
      → key ≢ k
      → sample_get (written s key inserts) k ≡ sample_get s k
  unfolding write sample_put sample_delete sample_get
  write-frame s deletes key [] k one other =
      ground (arith, lookup-remove key k s.items, bytes_eq_iff key k)
  write-frame s deletes key (ins ∷ rest) k one other = ground (
    arith,
    lookup-insert ins.pk k ins.item s.items,
    bytes_eq_iff ins.pk k,
    insertion_key deletes ins rest key one,
  )

  -- What a step of a goroutine does: the store stays sound, other keys keep their items, and the records
  -- `r` and `a` that it writes off and on are the difference of the zones.
  pub record Advanced (s s' : SampleStore) (t : Thread) (stage : Stage) : Type 0 where
    pub sound : IsSound s'
    pub frame : (k : Bytes) → t.job.key ≢ k → sample_get s' k ≡ sample_get s k
    pub reads : ReadsStage s' t.job.key stage
    pub r : List Rr
    pub a : List Rr
    pub exact : Perm (r ++ table_rrs env cfg s'.items) (a ++ table_rrs env cfg s.items)
    pub removed :
        removed_by env cfg t.job.key (wrote stage)
        ≡ r ++ removed_by env cfg t.job.key (wrote t.stage)
    pub added :
        added_by env cfg t.job.inserts (wrote stage)
        ≡ a ++ added_by env cfg t.job.inserts (wrote t.stage)

  stays :
      (s : SampleStore) (job : Job) (before after : Stage)
      → wrote after ≡ wrote before
      → IsSound s
      → ReadsStage s job.key after
      → Advanced s s (record { job = job; stage = before }) after
  stays s job before after same sound reads = record {
    sound = sound;
    frame = λ k other. refl;
    reads = reads;
    r = [];
    a = [];
    exact = Perm.refl (table_rrs env cfg s.items);
    removed = ap (removed_by env cfg job.key) same;
    added = ap (added_by env cfg job.inserts) same;
  }

  pub advance-Advanced :
      (h : Handler SampleStore) (job : Job) (stage : Stage)
      → IsJob job
      → IsSound h.store
      → ReadsStage h.store job.key stage
      → Advanced h.store
          (advance env sample_ops sample_writer h job stage).0.store
          (record { job = job; stage = stage })
          (advance env sample_ops sample_writer h job stage).1
  unfolding advance sample_get
  advance-Advanced h job reading j sound reads =
      stays h.store job reading (advance env sample_ops sample_writer h job reading).1 refl sound
        refl
  advance-Advanced h job (writing old) (one, few, solid) sound reads =
      rw (write_done h.store job.key job.inserts) (record {
        sound = write-IsSound h.store job.key job.inserts solid sound;
        frame = λ k other. write-frame h.store job.deletes job.key job.inserts k one other;
        reads = tt;
        r = old_rrs env.json cfg job.key old;
        a = insertion_rrs env.json cfg job.inserts;
        exact =
            write-Perm env cfg h.store job.deletes job.key job.inserts old one few sound.0
              (sound.1 job.key) reads;
        removed = sym (append-nil (old_rrs env.json cfg job.key old));
        added = sym (append-nil (insertion_rrs env.json cfg job.inserts));
      })
  advance-Advanced h job (counting old) j sound reads =
      stays h.store job (counting old) (numbering old) refl sound tt
  advance-Advanced h job (numbering old) j sound reads =
      stays h.store job (numbering old)
        (recording old (advance env sample_ops sample_writer h job (numbering old)).0.serial) refl
        sound tt
  advance-Advanced h job (recording old s) j sound reads =
      stays h.store job (recording old s) (finished old s) refl sound tt
  advance-Advanced h job (finished old s) j sound reads =
      stays h.store job (finished old s) (finished old s) refl sound tt
  advance-Advanced h job (given_up code) j sound reads =
      stays h.store job (given_up code) (given_up code) refl sound tt
