-- ===== src/Update/Concurrent/Balance.antt =====
-- Interleaved updates of different keys: what they journal against what they change.
use mathlib.Core.List.{Perm}
use mathlib.Core.List.Perm
use contractdb.Base.{
  ℕ, zero, suc, List, [], ◌∷◌, ◌++◌, Bytes, All, ◌≡◌, ◌≢◌, refl, sym, ap, subst, ◌∙◌, append_assoc,
}
use contractdb.Assoc.{bytes_key}
use contractdb.Dns.{Rr}
use contractdb.Handler.{Handler, Config, Env}
use contractdb.Store.Sample.{SampleStore, sample_ops, sample_writer, sample_get}
use contractdb.Update.Delta.{table_rrs, Perm-front}
use contractdb.Update.Concurrent.{
  Job, Stage, reading, writing, counting, numbering, recording, finished, given_up, Thread, advance,
  advance_at, run,
}
use contractdb.Update.Concurrent.Defs.{
  IsJob, jobs_of, Apart, wrote, removed_by, added_by, removals, additions, ReadsStage, Reads,
}
use contractdb.Update.Concurrent.Step.{IsSound, advance-Advanced}

module _ (env : Env) (cfg : Config) where
  -- The same for a step of one of several goroutines.
  pub record Stepped (s s' : SampleStore) (ts ts' : List Thread) : Type 0 where
    pub jobs : jobs_of ts' ≡ jobs_of ts
    pub sound : IsSound s'
    pub frame :
        (k : Bytes)
        → All (λ (job : Job). job.key ≢ k) (jobs_of ts)
        → sample_get s' k ≡ sample_get s k
    pub reads : All (Reads s') ts'
    pub r : List Rr
    pub a : List Rr
    pub exact : Perm (r ++ table_rrs env cfg s'.items) (a ++ table_rrs env cfg s.items)
    pub removed : Perm (removals env cfg ts') (r ++ removals env cfg ts)
    pub added : Perm (additions env cfg ts') (a ++ additions env cfg ts)

  ReadsStage-frame :
      (s s' : SampleStore) (key : Bytes) (stage : Stage)
      → sample_get s' key ≡ sample_get s key
      → ReadsStage s key stage
      → ReadsStage s' key stage
  ReadsStage-frame s s' key (writing old) same reads = same ∙ reads
  ReadsStage-frame s s' key reading same reads = tt
  ReadsStage-frame s s' key (counting old) same reads = tt
  ReadsStage-frame s s' key (numbering old) same reads = tt
  ReadsStage-frame s s' key (recording old n) same reads = tt
  ReadsStage-frame s s' key (finished old n) same reads = tt
  ReadsStage-frame s s' key (given_up code) same reads = tt

  -- what a goroutine has read stays true where its key keeps its item
  Reads-frame :
      (s s' : SampleStore) (t : Thread)
      → sample_get s' t.job.key ≡ sample_get s t.job.key
      → Reads s t
      → Reads s' t
  Reads-frame s s' t same reads = ReadsStage-frame s s' t.job.key t.stage same reads

  All-Reads-frame :
      (s s' : SampleStore) (key : Bytes) (ts : List Thread)
      → ((k : Bytes) → key ≢ k → sample_get s' k ≡ sample_get s k)
      → All (λ (other : Job). key ≢ other.key) (jobs_of ts)
      → All (Reads s) ts
      → All (Reads s') ts
  All-Reads-frame s s' key [] frame apart reads = tt
  All-Reads-frame s s' key (t ∷ ts) frame (other, apart) (reads, more) = (
    Reads-frame s s' t (frame t.job.key other) reads,
    All-Reads-frame s s' key ts frame apart more,
  )

  apart_sym :
      (key : Bytes) (jobs : List Job)
      → All (λ (other : Job). key ≢ other.key) jobs
      → All (λ (job : Job). job.key ≢ key) jobs
  apart_sym key [] a = tt
  apart_sym key (job ∷ jobs) (other, a) = ((λ e. other (sym e)), apart_sym key jobs a)

  advance_at-Stepped :
      (h : Handler SampleStore) (ts : List Thread) (i : ℕ)
      → All IsJob (jobs_of ts)
      → Apart (jobs_of ts)
      → IsSound h.store
      → All (Reads h.store) ts
      → Stepped h.store
          (advance_at env sample_ops sample_writer h ts i).0.store
          ts
          (advance_at env sample_ops sample_writer h ts i).1
  unfolding advance_at
  advance_at-Stepped h [] i j apart sound reads = record {
    jobs = refl;
    sound = sound;
    frame = λ k a. refl;
    reads = tt;
    r = [];
    a = [];
    exact = Perm.refl (table_rrs env cfg h.store.items);
    removed = Perm.refl [];
    added = Perm.refl [];
  }
  advance_at-Stepped h (t ∷ ts) zero (one, more) (others, apart) sound (own, reads) =
      let step = advance-Advanced env cfg h t.job t.stage one sound own in
      record {
        jobs = refl;
        sound = step.sound;
        frame = λ k a. step.frame k a.0;
        reads = (
          step.reads,
          All-Reads-frame h.store (advance env sample_ops sample_writer h t.job t.stage).0.store
              t.job.key ts step.frame others reads,
        );
        r = step.r;
        a = step.a;
        exact = step.exact;
        removed =
            rw
              (
                step.removed,
                append_assoc step.r (removed_by env cfg t.job.key (wrote t.stage))
                    (removals env cfg ts),
              )
              (Perm.refl
                (step.r ++ (removed_by env cfg t.job.key (wrote t.stage) ++ removals env cfg ts)));
        added =
            rw
              (
                step.added,
                append_assoc step.a (added_by env cfg t.job.inserts (wrote t.stage))
                    (additions env cfg ts),
              )
              (Perm.refl (
                step.a
                ++ (added_by env cfg t.job.inserts (wrote t.stage) ++ additions env cfg ts)));
      }
  advance_at-Stepped h (t ∷ ts) (suc i) (one, more) (others, apart) sound (own, reads) =
      let step = advance_at-Stepped h ts i more apart sound reads in
      record {
        jobs = ap (λ jobs. t.job ∷ jobs) step.jobs;
        sound = step.sound;
        frame = λ k a. step.frame k a.1;
        reads = (
          Reads-frame h.store (advance_at env sample_ops sample_writer h ts i).0.store t
              (step.frame t.job.key (apart_sym t.job.key (jobs_of ts) others)) own,
          step.reads,
        );
        r = step.r;
        a = step.a;
        exact = step.exact;
        removed =
            Perm.trans
              (Perm.append_left (removed_by env cfg t.job.key (wrote t.stage)) step.removed)
              (Perm-front env cfg (removed_by env cfg t.job.key (wrote t.stage)) step.r
                (removals env cfg ts));
        added =
            Perm.trans
              (Perm.append_left (added_by env cfg t.job.inserts (wrote t.stage)) step.added)
              (Perm-front env cfg (added_by env cfg t.job.inserts (wrote t.stage)) step.a
                (additions env cfg ts));
      }

  stays_all :
      (s : SampleStore) (ts : List Thread) → IsSound s → All (Reads s) ts → Stepped s s ts ts
  stays_all s ts sound reads = record {
    jobs = refl;
    sound = sound;
    frame = λ k a. refl;
    reads = reads;
    r = [];
    a = [];
    exact = Perm.refl (table_rrs env cfg s.items);
    removed = Perm.refl (removals env cfg ts);
    added = Perm.refl (additions env cfg ts);
  }

  -- two differences in a row
  Perm-compose :
      (r r' a a' x y z : List Rr)
      → Perm (r ++ y) (a ++ x)
      → Perm (r' ++ z) (a' ++ y)
      → Perm ((r' ++ r) ++ z) ((a' ++ a) ++ x)
  Perm-compose r r' a a' x y z p q =
      rw (append_assoc r' r z, append_assoc a' a x)
        (Perm.trans (Perm-front env cfg r' r z) (
          Perm.trans (Perm.append_left r q)
            (Perm.trans (Perm-front env cfg r a' y) (Perm.append_left a' p))))

  Perm-after : (r r' x y z : List Rr) → Perm y (r ++ x) → Perm z (r' ++ y) → Perm z ((r' ++ r) ++ x)
  Perm-after r r' x y z p q = rw (append_assoc r' r x) (Perm.trans q (Perm.append_left r' p))

  Stepped-trans :
      (s s' s'' : SampleStore) (ts ts' ts'' : List Thread)
      → Stepped s s' ts ts'
      → Stepped s' s'' ts' ts''
      → Stepped s s'' ts ts''
  Stepped-trans s s' s'' ts ts' ts'' p q = record {
    jobs = q.jobs ∙ p.jobs;
    sound = q.sound;
    frame =
        λ k a. q.frame k (subst (All (λ (job : Job). job.key ≢ k)) (sym p.jobs) a) ∙ p.frame k a;
    reads = q.reads;
    r = q.r ++ p.r;
    a = q.a ++ p.a;
    exact =
        Perm-compose p.r q.r p.a q.a (table_rrs env cfg s.items) (table_rrs env cfg s'.items)
          (table_rrs env cfg s''.items) p.exact q.exact;
    removed =
        Perm-after p.r q.r (removals env cfg ts) (removals env cfg ts') (removals env cfg ts'')
          p.removed q.removed;
    added =
        Perm-after p.a q.a (additions env cfg ts) (additions env cfg ts') (additions env cfg ts'')
          p.added q.added;
  }

  pub run-Stepped :
      (h : Handler SampleStore) (ts : List Thread) (schedule : List ℕ)
      → All IsJob (jobs_of ts)
      → Apart (jobs_of ts)
      → IsSound h.store
      → All (Reads h.store) ts
      → Stepped h.store
          (run env sample_ops sample_writer h ts schedule).0.store
          ts
          (run env sample_ops sample_writer h ts schedule).1
  unfolding run
  run-Stepped h ts [] j apart sound reads = stays_all h.store ts sound reads
  run-Stepped h ts (i ∷ schedule) j apart sound reads =
      let next = advance_at env sample_ops sample_writer h ts i in
      let step = advance_at-Stepped h ts i j apart sound reads in
      Stepped-trans h.store next.0.store
        (run env sample_ops sample_writer next.0 next.1 schedule).0.store ts next.1
        (run env sample_ops sample_writer next.0 next.1 schedule).1 step
        (run-Stepped next.0 next.1 schedule (subst (All IsJob) (sym step.jobs) j)
          (subst Apart (sym step.jobs) apart) step.sound step.reads)
