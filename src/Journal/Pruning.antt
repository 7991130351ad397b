-- ===== src/Journal/Pruning.antt =====
-- The pruning loop of Record comes to an end.
use contractdb.Base.{
  ℕ, zero, suc, ◌+◌, ◌-◌, ◌%◌, ◌<◌, ◌≤◌, List, [], ◌∷◌, length, All, ltb, ◌==◌, ◌≡◌, ◌≢◌, inl, inr,
  refl, arith, Bool-cases,
}
use contractdb.Assoc.{nat_eq, nat_beq_iff, insert, remove}
use contractdb.Dns.{Rr}
use contractdb.Journal.{
  Delta, MemChangeLog, u32_mod, succ32, mem_change_log_cap, prune, enter, log_record,
}

-- How far a serial is ahead of another, round the 2^32 serials.
abbrev ahead : ℕ → ℕ → ℕ
ahead oldest k = (k + u32_mod - oldest) % u32_mod

-- The serials of the entries lie within a distance of the oldest.
abbrev Within : ℕ → ℕ → List (ℕ × Delta) → Type 0
Within n oldest ds = All (λ (e : ℕ × Delta). (e.0 < u32_mod) × (ahead oldest e.0 < n)) ds

next_Within :
    (n oldest : ℕ) (ds : List (ℕ × Delta))
    → oldest < u32_mod
    → Within (suc n) oldest ds
    → Within n (succ32 oldest) (remove oldest ds)
unfolding remove
next_Within n oldest [] small h = h
next_Within n oldest ((k, d) ∷ ds) small ((small_k, near), hs) = elim (Bool-cases (k == oldest)) [
  | inl e ↦ rw e (next_Within n oldest ds small hs)
  | inr e ↦
      let other : k ≢ oldest = λ f. absurd (ground (arith, nat_beq_iff k oldest)) in
      rw e ((small_k, omega (arith, small, small_k, near, other)), next_Within n oldest ds small hs)
]

none_Within : (oldest : ℕ) (ds : List (ℕ × Delta)) → Within 0 oldest ds → length ds ≡ 0
none_Within oldest [] h = refl
none_Within oldest (e ∷ ds) ((small, near), hs) = absurd (omega (arith, near))

prune_bounded :
    (n : ℕ) (c : MemChangeLog)
    → c.oldest < u32_mod
    → Within n c.oldest c.deltas
    → length (prune n c).deltas ≤ mem_change_log_cap
unfolding prune
prune_bounded zero c small h = omega (arith, none_Within c.oldest c.deltas h)
prune_bounded (suc n) c small h = elim (Bool-cases (ltb mem_change_log_cap (length c.deltas))) [
  | inl big ↦ rw big (
      prune_bounded n (record c { deltas = remove c.oldest c.deltas; oldest = succ32 c.oldest })
        (omega arith) (next_Within n c.oldest c.deltas small h))
  | inr few ↦ rw few (ground arith)
]

abbrev pub AreSerials : List (ℕ × Delta) → Type 0
AreSerials ds = All (λ (e : ℕ × Delta). e.0 < u32_mod) ds

remove-AreSerials : (k : ℕ) (ds : List (ℕ × Delta)) → AreSerials ds → AreSerials (remove k ds)
unfolding remove
remove-AreSerials k [] h = h
remove-AreSerials k ((j, d) ∷ ds) (h, hs) = elim (Bool-cases (j == k)) [
  | inl e ↦ rw e (remove-AreSerials k ds hs)
  | inr e ↦ rw e (h, remove-AreSerials k ds hs)
]

all_Within : (oldest : ℕ) (ds : List (ℕ × Delta)) → AreSerials ds → Within u32_mod oldest ds
all_Within oldest [] h = h
all_Within oldest (e ∷ ds) (h, hs) = ((h, omega arith), all_Within oldest ds hs)

-- The pruning loop of Record ends within 2^32 rounds whatever the journal holds: behind a Record there
-- are at most 4096 entries. The serials are those of 32 bits.
pub log_record_bounded :
    (c : MemChangeLog) (serial : ℕ) (removed added : List Rr)
    → serial < u32_mod
    → c.oldest < u32_mod
    → AreSerials c.deltas
    → length (log_record c serial removed added).deltas ≤ mem_change_log_cap
unfolding log_record enter insert
log_record_bounded c serial removed added small oldest serials =
    prune_bounded u32_mod (enter c serial removed added) (ground arith) (
      all_Within (enter c serial removed added).oldest (enter c serial removed added).deltas
        (small, remove-AreSerials serial c.deltas serials))
