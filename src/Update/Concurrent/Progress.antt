-- ===== src/Update/Concurrent/Progress.antt =====
-- Every goroutine returns.
use contractdb.Base.{
  ℕ, zero, suc, ◌-◌, ◌≤◌, true, List, [], ◌∷◌, ◌++◌, length, map, All, ◌≡◌, inl, inr, refl, ap,
  subst, ◌∙◌, arith, Bool-cases,
}
use contractdb.Handler.{Handler, Env}
use contractdb.Store.{Store, Writer}
use contractdb.Update.{write}
use contractdb.Update.Atomic.{Result-cases}
use contractdb.Update.Concurrent.{
  Job, Stage, reading, writing, counting, numbering, recording, finished, given_up, Thread, advance,
  advance_at, run,
}
use contractdb.Update.Concurrent.Defs.{has_ended, all_ended}

-- The steps that a goroutine has left
abbrev rank : Stage → ℕ
rank reading = 5
rank (writing old) = 4
rank (counting old) = 3
rank (numbering old) = 2
rank (recording old s) = 1
rank (finished old s) = 0
rank (given_up code) = 0

abbrev Within : ℕ → List Thread → Type 0
Within k ts = All (λ (t : Thread). rank t.stage ≤ k) ts

-- One turn for each of `n` goroutines
abbrev pub turns : ℕ → List ℕ
turns zero = []
turns (suc n) = 0 ∷ map suc (turns n)

-- `k` turns for each
abbrev pub rounds : ℕ → ℕ → List ℕ
rounds zero n = []
rounds (suc k) n = turns n ++ rounds k n

rank-0 : (stage : Stage) → rank stage ≤ 0 → has_ended stage ≡ true
rank-0 reading h = absurd (omega arith)
rank-0 (writing old) h = absurd (omega arith)
rank-0 (counting old) h = absurd (omega arith)
rank-0 (numbering old) h = absurd (omega arith)
rank-0 (recording old s) h = absurd (omega arith)
rank-0 (finished old s) h = refl
rank-0 (given_up code) h = refl

Within-ended : (ts : List Thread) → Within 0 ts → all_ended ts ≡ true
Within-ended [] w = refl
Within-ended (t ∷ ts) (none_left, w) = rw (rank-0 t.stage none_left) (Within-ended ts w)

rank_most : (stage : Stage) → rank stage ≤ 5
rank_most reading = omega arith
rank_most (writing old) = omega arith
rank_most (counting old) = omega arith
rank_most (numbering old) = omega arith
rank_most (recording old s) = omega arith
rank_most (finished old s) = omega arith
rank_most (given_up code) = omega arith

Within-most : (ts : List Thread) → Within 5 ts
Within-most [] = tt
Within-most (t ∷ ts) = (rank_most t.stage, Within-most ts)

module _ {S : Type 0} (env : Env) (ops : Store S) (writer : Writer S) where
  rank-advance :
      (h : Handler S) (job : Job) (stage : Stage)
      → rank (advance env ops writer h job stage).1 ≤ rank stage - 1
  unfolding advance
  rank-advance h job reading = elim (Result-cases (ops.get h.store job.key)) [
    | inl e ↦ rw (e, advance) (omega arith)
    | inr (old, e) ↦ rw (e, advance) (omega arith)
  ]
  rank-advance h job (writing old) =
      elim (Bool-cases (write env ops writer h.store job.key job.inserts).0) [
        | inl e ↦ rw e (omega arith)
        | inr e ↦ rw e (omega arith)
      ]
  rank-advance h job (counting old) = omega arith
  rank-advance h job (numbering old) = omega arith
  rank-advance h job (recording old s) = omega arith
  rank-advance h job (finished old s) = omega arith
  rank-advance h job (given_up code) = omega arith

  -- turns of the others leave the first alone
  run-map_suc :
      (h : Handler S) (t : Thread) (ts : List Thread) (schedule : List ℕ)
      → run env ops writer h (t ∷ ts) (map suc schedule)
        ≡ ((run env ops writer h ts schedule).0, t ∷ (run env ops writer h ts schedule).1)
  unfolding run advance_at
  run-map_suc h t ts [] = refl
  run-map_suc h t ts (i ∷ schedule) =
      run-map_suc (advance_at env ops writer h ts i).0 t (advance_at env ops writer h ts i).1
        schedule

  run-append :
      (h : Handler S) (ts : List Thread) (a b : List ℕ)
      → run env ops writer h ts (a ++ b)
        ≡ run env ops writer (run env ops writer h ts a).0 (run env ops writer h ts a).1 b
  unfolding run
  run-append h ts [] b = refl
  run-append h ts (i ∷ a) b =
      run-append (advance_at env ops writer h ts i).0 (advance_at env ops writer h ts i).1 a b

  pub length-advance_at :
      (h : Handler S) (ts : List Thread) (i : ℕ)
      → length (advance_at env ops writer h ts i).1 ≡ length ts
  unfolding advance_at
  length-advance_at h [] i = refl
  length-advance_at h (t ∷ ts) zero = refl
  length-advance_at h (t ∷ ts) (suc i) = ap suc (length-advance_at h ts i)

  length-run :
      (h : Handler S) (ts : List Thread) (schedule : List ℕ)
      → length (run env ops writer h ts schedule).1 ≡ length ts
  unfolding run
  length-run h ts [] = refl
  length-run h ts (i ∷ schedule) =
      length-run (advance_at env ops writer h ts i).0 (advance_at env ops writer h ts i).1 schedule
      ∙ length-advance_at h ts i

  -- A turn for each takes a step off each.
  turns-Within :
      (h : Handler S) (ts : List Thread) (k : ℕ)
      → Within (suc k) ts
      → Within k (run env ops writer h ts (turns (length ts))).1
  unfolding run advance_at
  turns-Within h [] k w = tt
  turns-Within h (t ∷ ts) k (own, w) =
      let step = advance env ops writer h t.job t.stage in
      rw (run-map_suc step.0 (record t { stage = step.1 }) ts (turns (length ts)))
        (omega (arith, rank-advance h t.job t.stage), turns-Within step.0 ts k w)

  rounds-Within :
      (k : ℕ) (h : Handler S) (ts : List Thread)
      → Within k ts
      → Within 0 (run env ops writer h ts (rounds k (length ts))).1
  unfolding run
  rounds-Within zero h ts w = w
  rounds-Within (suc k) h ts w =
      let next = run env ops writer h ts (turns (length ts)) in
      rw (run-append h ts (turns (length ts)) (rounds k (length ts))) (
        subst (λ n. Within 0 (run env ops writer next.0 next.1 (rounds k n)).1)
          (length-run h ts (turns (length ts)))
          (rounds-Within k next.0 next.1 (turns-Within h ts k w)))

  -- Whatever has happened before, all goroutines have returned when each has had five more turns, with
  -- any store.
  pub run-ended :
      (h : Handler S) (ts : List Thread) (schedule : List ℕ)
      → all_ended (run env ops writer h ts (schedule ++ rounds 5 (length ts))).1 ≡ true
  run-ended h ts schedule =
      let next = run env ops writer h ts schedule in
      rw (run-append h ts schedule (rounds 5 (length ts))) (
        subst (λ n. all_ended (run env ops writer next.0 next.1 (rounds 5 n)).1 ≡ true)
          (length-run h ts schedule)
          (Within-ended (run env ops writer next.0 next.1 (rounds 5 (length next.1))).1
            (rounds-Within 5 next.0 next.1 (Within-most next.1))))
