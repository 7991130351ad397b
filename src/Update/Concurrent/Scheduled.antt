-- ===== src/Update/Concurrent/Scheduled.antt =====
-- What goroutines journal along a schedule.
use mathlib.Core.List.{Permᴰ}
use mathlib.Core.List.Permᴰ
use contractdb.Base.{
  ℕ, zero, suc, ◌+◌, ◌≤◌, ◌<◌, List, [], ◌∷◌, ◌++◌, length, length-append, map, refl, arith,
  append_assoc,
}
use contractdb.Dns.{Rr}
use contractdb.Journal.{Delta, mem_change_log_cap, u32_mod}
use contractdb.Handler.{Handler, Config, Env}
use contractdb.Store.Sample.{SampleStore, sample_ops, sample_writer}
use contractdb.Update.Concurrent.{
  Job, Stage, reading, writing, counting, numbering, recording, finished, given_up, Thread, advance,
  advance_at, run,
}
use contractdb.Update.Concurrent.Defs.{
  pending_of, waiting_of, changes_of, all_pending, all_waiting, all_changes,
}
use contractdb.Update.Concurrent.Progress.{length-advance_at}
use contractdb.Update.Concurrent.Numbers.{Numbered-Perm}
use contractdb.Update.Concurrent.Logged.{change_of, Logged, LoggedNext, advance-Logged}

Perm-rotate : {A : Type 0} (xs ys zs : List A) → Permᴰ ((xs ++ ys) ++ zs) (ys ++ (xs ++ zs))
Perm-rotate [] ys zs = Permᴰ.refl (ys ++ zs)
Perm-rotate (x ∷ xs) ys zs =
    Permᴰ.trans (Permᴰ.cons refl (Perm-rotate xs ys zs)) (Permᴰ.symm (Permᴰ.middle x ys (xs ++ zs)))

Logged-Perm :
    (cfg : Config) (base : ℕ) (hist more : List Delta) (h : Handler SampleStore)
    (pend pend' : List (ℕ × Delta)) (wait wait' changes changes' : List (List Rr × List Rr))
    → Permᴰ pend' pend
    → Permᴰ wait' wait
    → Permᴰ changes changes'
    → Logged cfg base hist more h pend wait changes
    → Logged cfg base hist more h pend' wait' changes'
Logged-Perm cfg base hist more h pend pend' wait wait' changes changes' p w c l = record {
  config = l.config;
  numbered = Numbered-Perm base (hist ++ more) h pend pend' p l.numbered;
  changed = Permᴰ.trans (Permᴰ.append_left (map change_of more) w) (Permᴰ.trans l.changed c);
}

module _ (env : Env) (cfg : Config) where
  few_changes : (job : Job) (stage : Stage) → length (changes_of env cfg job stage) ≤ 1
  few_changes job reading = omega arith
  few_changes job (writing old) = omega arith
  few_changes job (counting old) = omega arith
  few_changes job (numbering old) = omega arith
  few_changes job (recording old s) = omega arith
  few_changes job (finished old s) = omega arith
  few_changes job (given_up code) = omega arith

  pub length-all_changes : (ts : List Thread) → length (all_changes env cfg ts) ≤ length ts
  length-all_changes [] = omega arith
  length-all_changes (t ∷ ts) = omega (
    arith,
    length-append (changes_of env cfg t.job t.stage) (all_changes env cfg ts),
    few_changes t.job t.stage,
    length-all_changes ts,
  )

module _ (env : Env) (cfg : Config) (base : ℕ) (hist : List Delta) (n : ℕ)
    (fits : length hist + n ≤ mem_change_log_cap)
    (room : base + length hist + n + 1 < u32_mod) where
  -- a step of one of several, beside what others have done
  advance_at-Logged :
      (h : Handler SampleStore) (ts : List Thread) (i : ℕ) (more : List Delta)
      (pend : List (ℕ × Delta)) (wait changes : List (List Rr × List Rr))
      → length ts + length changes ≤ n
      → Logged cfg base hist more h
          (all_pending env cfg ts ++ pend)
          (all_waiting env cfg ts ++ wait)
          (all_changes env cfg ts ++ changes)
      → LoggedNext cfg base hist
          (advance_at env sample_ops sample_writer h ts i).0
          (all_pending env cfg (advance_at env sample_ops sample_writer h ts i).1 ++ pend)
          (all_waiting env cfg (advance_at env sample_ops sample_writer h ts i).1 ++ wait)
          (all_changes env cfg (advance_at env sample_ops sample_writer h ts i).1 ++ changes)
  unfolding advance_at
  advance_at-Logged h [] i more pend wait changes few l = (more, l)
  advance_at-Logged h (t ∷ ts) zero more pend wait changes few l =
      let step = advance env sample_ops sample_writer h t.job t.stage in
      let p = pending_of env cfg t.job in
      let w = waiting_of env cfg t.job in
      let c = changes_of env cfg t.job in
      let (more', l') =
        advance-Logged env cfg base hist n fits room h t.job t.stage more
          (all_pending env cfg ts ++ pend) (all_waiting env cfg ts ++ wait)
          (all_changes env cfg ts ++ changes)
          (omega
            (arith, length-append (all_changes env cfg ts) changes, length-all_changes env cfg ts))
          (rw
            (
              ← append_assoc (p t.stage) (all_pending env cfg ts) pend,
              ← append_assoc (w t.stage) (all_waiting env cfg ts) wait,
              ← append_assoc (c t.stage) (all_changes env cfg ts) changes,
            )
            l) in
      (
        more',
        rw
            (
              append_assoc (p step.1) (all_pending env cfg ts) pend,
              append_assoc (w step.1) (all_waiting env cfg ts) wait,
              append_assoc (c step.1) (all_changes env cfg ts) changes,
            )
            l',
      )
  advance_at-Logged h (t ∷ ts) (suc i) more pend wait changes few l =
      let next = advance_at env sample_ops sample_writer h ts i in
      let p = pending_of env cfg t.job t.stage in
      let w = waiting_of env cfg t.job t.stage in
      let c = changes_of env cfg t.job t.stage in
      let (more', l') =
        advance_at-Logged h ts i more (p ++ pend) (w ++ wait) (c ++ changes)
          (omega (arith, few_changes env cfg t.job t.stage, length-append c changes))
          (Logged-Perm cfg base hist more h ((p ++ all_pending env cfg ts) ++ pend)
            (all_pending env cfg ts ++ (p ++ pend)) ((w ++ all_waiting env cfg ts) ++ wait)
            (all_waiting env cfg ts ++ (w ++ wait)) ((c ++ all_changes env cfg ts) ++ changes)
            (all_changes env cfg ts ++ (c ++ changes))
            (Permᴰ.symm (Perm-rotate p (all_pending env cfg ts) pend))
            (Permᴰ.symm (Perm-rotate w (all_waiting env cfg ts) wait))
            (Perm-rotate c (all_changes env cfg ts) changes) l) in
      (
        more',
        Logged-Perm cfg base hist more' next.0 (all_pending env cfg next.1 ++ (p ++ pend))
            ((p ++ all_pending env cfg next.1) ++ pend) (all_waiting env cfg next.1 ++ (w ++ wait))
            ((w ++ all_waiting env cfg next.1) ++ wait)
            (all_changes env cfg next.1 ++ (c ++ changes))
            ((c ++ all_changes env cfg next.1) ++ changes)
            (Perm-rotate p (all_pending env cfg next.1) pend)
            (Perm-rotate w (all_waiting env cfg next.1) wait)
            (Permᴰ.symm (Perm-rotate c (all_changes env cfg next.1) changes)) l',
      )

  pub run-Logged :
      (h : Handler SampleStore) (ts : List Thread) (schedule : List ℕ) (more : List Delta)
      → length ts ≤ n
      → Logged cfg base hist more h
          (all_pending env cfg ts ++ [])
          (all_waiting env cfg ts ++ [])
          (all_changes env cfg ts ++ [])
      → LoggedNext cfg base hist
          (run env sample_ops sample_writer h ts schedule).0
          (all_pending env cfg (run env sample_ops sample_writer h ts schedule).1 ++ [])
          (all_waiting env cfg (run env sample_ops sample_writer h ts schedule).1 ++ [])
          (all_changes env cfg (run env sample_ops sample_writer h ts schedule).1 ++ [])
  unfolding run
  run-Logged h ts [] more few l = (more, l)
  run-Logged h ts (i ∷ schedule) more few l =
      let next = advance_at env sample_ops sample_writer h ts i in
      let (more', l') = advance_at-Logged h ts i more [] [] [] (omega arith) l in
      run-Logged next.0 next.1 schedule more'
        (omega (arith, length-advance_at env sample_ops sample_writer h ts i)) l'
