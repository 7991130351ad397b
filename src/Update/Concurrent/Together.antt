-- ===== src/Update/Concurrent/Together.antt =====
-- Updates of different keys that are carried out at the same time.
use mathlib.Core.List.{Perm, Permᴰ}
use mathlib.Core.List.Perm
use mathlib.Core.List.Permᴰ
use contractdb.Base.{
  ℕ, suc, length-append, ◌+◌, ◌≤◌, ◌<◌, true, Option, none, some, List, [], ◌∷◌, ◌++◌, length, map,
  All, ◌≡◌, refl, sym, ap, subst, ◌∙◌, arith, append-nil,
}
use contractdb.Assoc.{bytes_key}
use contractdb.Dns.{Rr}
use contractdb.Item.{Item}
use contractdb.Journal.{Delta, mem_change_log_cap, u32_mod}
use contractdb.Handler.{Handler, Config, Env}
use contractdb.Store.Sample.{SampleStore, sample_ops, sample_writer}
use contractdb.Serve.Reachable.{Journaled}
use contractdb.Update.Delta.{table_rrs, Perm-front}
use contractdb.Update.Concurrent.{
  Job, Stage, reading, writing, counting, numbering, recording, finished, given_up, Thread, started,
  run,
}
use contractdb.Update.Concurrent.Defs.{
  has_ended, all_ended, IsJob, jobs_of, Apart, wrote, removals, additions, Reads, pending_of,
  waiting_of, changed_by, removed_by, added_by, all_pending, all_waiting, all_changes,
}
use contractdb.Update.Concurrent.Step.{IsSound}
use contractdb.Update.Concurrent.Balance.{Stepped, run-Stepped}
use contractdb.Update.Concurrent.Numbers.{Numbered, Numbered-Journaled, Journaled-Numbered}
use contractdb.Update.Concurrent.Logged.{Logged, change_of, length-map}
use contractdb.Update.Concurrent.Scheduled.{run-Logged, length-all_changes}
use contractdb.Update.Concurrent.Entries.{length-Perm}

abbrev pub threads_of : List Job → List Thread
threads_of jobs = map started jobs

abbrev firsts : List (List Rr × List Rr) → List Rr
firsts [] = []
firsts (c ∷ cs) = c.0 ++ firsts cs

abbrev seconds : List (List Rr × List Rr) → List Rr
seconds [] = []
seconds (c ∷ cs) = c.1 ++ seconds cs

-- All that deltas remove, and all that they add
abbrev pub all_removed : List Delta → List Rr
all_removed [] = []
all_removed (d ∷ ds) = d.removed ++ all_removed ds

abbrev pub all_added : List Delta → List Rr
all_added [] = []
all_added (d ∷ ds) = d.added ++ all_added ds

module _ (env : Env) (cfg : Config) where
  firsts-Perm : (xs ys : List (List Rr × List Rr)) → Permᴰ xs ys → Perm (firsts xs) (firsts ys)
  firsts-Perm xs ys (Permᴰ.nil) = Perm.refl []
  firsts-Perm xs ys (Permᴰ.cons {a} {b} {l₁} {l₂} same p) =
      rw same (Perm.append_left b.0 (firsts-Perm l₁ l₂ p))
  firsts-Perm xs ys (Permᴰ.swap {a} {b} {a'} {b'} {l} p q) =
      rw (p, q) (Perm-front env cfg b'.0 a'.0 (firsts l))
  firsts-Perm xs ys (Permᴰ.trans {l₁} {l₂} {l₃} p q) =
      Perm.trans (firsts-Perm l₁ l₂ p) (firsts-Perm l₂ l₃ q)

  seconds-Perm : (xs ys : List (List Rr × List Rr)) → Permᴰ xs ys → Perm (seconds xs) (seconds ys)
  seconds-Perm xs ys (Permᴰ.nil) = Perm.refl []
  seconds-Perm xs ys (Permᴰ.cons {a} {b} {l₁} {l₂} same p) =
      rw same (Perm.append_left b.1 (seconds-Perm l₁ l₂ p))
  seconds-Perm xs ys (Permᴰ.swap {a} {b} {a'} {b'} {l} p q) =
      rw (p, q) (Perm-front env cfg b'.1 a'.1 (seconds l))
  seconds-Perm xs ys (Permᴰ.trans {l₁} {l₂} {l₃} p q) =
      Perm.trans (seconds-Perm l₁ l₂ p) (seconds-Perm l₂ l₃ q)

  firsts-changed :
      (job : Job) (old : Option Item) (cs : List (List Rr × List Rr))
      → (firsts (changed_by env cfg job old ++ cs) ≡ removed_by env cfg job.key old ++ firsts cs)
        × (seconds (changed_by env cfg job old ++ cs)
            ≡ added_by env cfg job.inserts old ++ seconds cs)
  firsts-changed job none cs = (refl, refl)
  firsts-changed job (some old) cs = (refl, refl)

  firsts-changes : (ts : List Thread) → firsts (all_changes env cfg ts) ≡ removals env cfg ts
  firsts-changes [] = refl
  firsts-changes (t ∷ ts) =
      (firsts-changed t.job (wrote t.stage) (all_changes env cfg ts)).0
      ∙ ap (λ l. removed_by env cfg t.job.key (wrote t.stage) ++ l) (firsts-changes ts)

  seconds-changes : (ts : List Thread) → seconds (all_changes env cfg ts) ≡ additions env cfg ts
  seconds-changes [] = refl
  seconds-changes (t ∷ ts) =
      (firsts-changed t.job (wrote t.stage) (all_changes env cfg ts)).1
      ∙ ap (λ l. added_by env cfg t.job.inserts (wrote t.stage) ++ l) (seconds-changes ts)

  firsts-deltas : (ds : List Delta) → firsts (map change_of ds) ≡ all_removed ds
  firsts-deltas [] = refl
  firsts-deltas (d ∷ ds) = ap (λ l. d.removed ++ l) (firsts-deltas ds)

  seconds-deltas : (ds : List Delta) → seconds (map change_of ds) ≡ all_added ds
  seconds-deltas [] = refl
  seconds-deltas (d ∷ ds) = ap (λ l. d.added ++ l) (seconds-deltas ds)

  stage_nothing :
      (job : Job) (stage : Stage)
      → has_ended stage ≡ true
      → (pending_of env cfg job stage ≡ []) × (waiting_of env cfg job stage ≡ [])
  stage_nothing job reading e = absurd (cc)
  stage_nothing job (writing old) e = absurd (cc)
  stage_nothing job (counting old) e = absurd (cc)
  stage_nothing job (numbering old) e = absurd (cc)
  stage_nothing job (recording old s) e = absurd (cc)
  stage_nothing job (finished old s) e = (refl, refl)
  stage_nothing job (given_up code) e = (refl, refl)

  -- nothing is pending where all have ended, nor at the start
  ended-pending :
      (ts : List Thread)
      → all_ended ts ≡ true
      → (all_pending env cfg ts ≡ []) × (all_waiting env cfg ts ≡ [])
  ended-pending [] e = (refl, refl)
  ended-pending (t ∷ ts) e =
      let (p, w) = stage_nothing t.job t.stage (ground (arith, e)) in
      let (ps, ws) = ended-pending ts (ground (arith, e)) in (rw (p, ps) refl, rw (w, ws) refl)

  start_nothing :
      (jobs : List Job)
      → (all_pending env cfg (threads_of jobs) ≡ [])
        × (all_waiting env cfg (threads_of jobs) ≡ [])
        × (all_changes env cfg (threads_of jobs) ≡ [])
        × (removals env cfg (threads_of jobs) ≡ [])
        × (additions env cfg (threads_of jobs) ≡ [])
        × (jobs_of (threads_of jobs) ≡ jobs)
        × (length (threads_of jobs) ≡ length jobs)
  start_nothing [] = (refl, refl, refl, refl, refl, refl, refl)
  start_nothing (job ∷ jobs) =
      let (p, w, c, r, a, j, l) = start_nothing jobs in
      (p, w, c, r, a, ap (λ js. job ∷ js) j, ap suc l)

  start-Reads : (s : SampleStore) (jobs : List Job) → All (Reads s) (threads_of jobs)
  start-Reads s [] = tt
  start-Reads s (job ∷ jobs) = (tt, start-Reads s jobs)

length-jobs_of : (ts : List Thread) → length (jobs_of ts) ≡ length ts
length-jobs_of [] = refl
length-jobs_of (t ∷ ts) = ap suc (length-jobs_of ts)

-- Where nothing is pending, the deltas are the changes.
Logged-changes :
    (cfg : Config) (base : ℕ) (hist more : List Delta) (h : Handler SampleStore)
    (pend : List (ℕ × Delta)) (wait changes : List (List Rr × List Rr))
    → pend ≡ []
    → wait ≡ []
    → Logged cfg base hist more h (pend ++ []) (wait ++ []) (changes ++ [])
    → Numbered base (hist ++ more) h [] × Permᴰ (map change_of more) changes
Logged-changes cfg base hist more h pend wait changes p w l = (
  subst (λ x. Numbered base (hist ++ more) h (x ++ [])) p l.numbered,
  Permᴰ.trans (Permᴰ.symm (Permᴰ.append-nil (map change_of more))) (
      Permᴰ.trans (subst (λ x. Permᴰ (map change_of more ++ (x ++ [])) (changes ++ [])) w l.changed)
        (Permᴰ.append-nil changes)),
)

-- The difference of the zones, by the deltas
deltas-Perm :
    (env : Env) (cfg : Config) (more : List Delta) (ts ts' : List Thread) (s s' : SampleStore)
    → Permᴰ (map change_of more) (all_changes env cfg ts')
    → removals env cfg ts ≡ []
    → additions env cfg ts ≡ []
    → Stepped env cfg s s' ts ts'
    → Perm
        (all_removed more ++ table_rrs env cfg s'.items)
        (all_added more ++ table_rrs env cfg s.items)
deltas-Perm env cfg more ts ts' s s' changed gone put step =
    let removed : Perm (all_removed more) step.r =
      subst (λ l. Perm l step.r) (firsts-deltas env cfg more)
        (Perm.trans (firsts-Perm env cfg (map change_of more) (all_changes env cfg ts') changed) (
          rw (firsts-changes env cfg ts') (
            subst (λ l. Perm (removals env cfg ts') l) (append-nil step.r)
              (subst (λ l. Perm (removals env cfg ts') (step.r ++ l)) gone step.removed)))) in
    let added : Perm (all_added more) step.a =
      subst (λ l. Perm l step.a) (seconds-deltas env cfg more)
        (Perm.trans (seconds-Perm env cfg (map change_of more) (all_changes env cfg ts') changed) (
          rw (seconds-changes env cfg ts') (
            subst (λ l. Perm (additions env cfg ts') l) (append-nil step.a)
              (subst (λ l. Perm (additions env cfg ts') (step.a ++ l)) put step.added)))) in
    Perm.trans (Perm.append_right (table_rrs env cfg s'.items) removed)
      (Perm.trans step.exact (Perm.append_right (table_rrs env cfg s.items) (Perm.symm added)))

-- Updates of one insertion at most and of different keys, which store no nil item, are carried out at the
-- same time, in any interleaving of their steps, on a handler with a journal of its history. When all have
-- returned, the journal has at most one more delta for each of them, the serial is that of the last, and
-- the deltas together are the exact difference of the zones: the zone behind them with all that they remove is
-- the zone before them with all that they add, in some order. Every key stands once in the table and
-- holds an item, and the history with the updates fits the journal and the serials.
pub run-Journaled :
    (env : Env) (base : ℕ) (hist : List Delta) (h : Handler SampleStore) (jobs : List Job)
    (schedule : List ℕ)
    → All IsJob jobs
    → Apart jobs
    → IsSound h.store
    → Journaled base hist h
    → length hist + length jobs ≤ mem_change_log_cap
    → base + length hist + length jobs + 1 < u32_mod
    → all_ended (run env sample_ops sample_writer h (threads_of jobs) schedule).1 ≡ true
    → (more : List Delta) × (length more ≤ length jobs)
      × Journaled base
          (hist ++ more)
          (run env sample_ops sample_writer h (threads_of jobs) schedule).0
      × Perm
          (all_removed more
            ++ table_rrs env h.cfg
                (run env sample_ops sample_writer h (threads_of jobs) schedule).0.store.items)
          (all_added more ++ table_rrs env h.cfg h.store.items)
run-Journaled env base hist h jobs schedule each apart sound journal fits room ended =
    let cfg = h.cfg in
    let r = run env sample_ops sample_writer h (threads_of jobs) schedule in
    let (p, w, c, gone, put, js, ls) = start_nothing env cfg jobs in
    let start : Logged cfg base hist [] h (all_pending env cfg (threads_of jobs) ++ [])
        (all_waiting env cfg (threads_of jobs) ++ [])
        (all_changes env cfg (threads_of jobs) ++ []) =
      rw (p, w, c)
        (record {
          config = refl;
          numbered = rw (append-nil hist) (Journaled-Numbered base hist h (omega arith) journal);
          changed = Permᴰ.nil;
        }) in
    let (more, l) =
      run-Logged env cfg base hist (length jobs) fits room h (threads_of jobs) schedule []
        (omega (arith, ls)) start in
    let s =
      run-Stepped env cfg h (threads_of jobs) schedule (subst (All IsJob) (sym js) each)
        (subst Apart (sym js) apart) sound (start-Reads env cfg h.store jobs) in
    let (pend, wait) = ended-pending env cfg r.1 ended in
    let (numbered, changed) =
      Logged-changes cfg base hist more r.0 (all_pending env cfg r.1) (all_waiting env cfg r.1)
        (all_changes env cfg r.1) pend wait l in
    let few : length more ≤ length jobs = omega (
      arith,
      length-map more,
      length-Perm (map change_of more) (all_changes env cfg r.1) changed,
      length-all_changes env cfg r.1,
      length-jobs_of r.1,
      ap length s.jobs,
      ap length js,
    ) in
    (
      more,
      few,
      Numbered-Journaled base (hist ++ more) r.0 (omega (arith, few, length-append hist more))
          (omega (arith, few, length-append hist more)) numbered,
      deltas-Perm env cfg more (threads_of jobs) r.1 h.store r.0.store changed gone put s,
    )
