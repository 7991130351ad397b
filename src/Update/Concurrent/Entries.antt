-- ===== src/Update/Concurrent/Entries.antt =====
-- Entries of a journal that are written in another order than that of their serials.
use mathlib.Core.List.{Permᴰ}
use mathlib.Core.List.Permᴰ
use contractdb.Base.{
  ℕ, zero, suc, ◌+◌, ◌-◌, ◌≤◌, ◌<◌, false, none, some, List, [], ◌∷◌, ◌++◌, leb, ◌==◌, length,
  get_elem?, ◌≡◌, refl, sym, ap, subst, ◌∙◌, arith, if◌then◌else◌, Bool-cases, inl, inr,
}
use contractdb.Assoc.{
  Eq, lookup, remove, nat_eq, Distinct, lookup-remove, remove-Distinct, remove_absent,
}
use contractdb.Journal.{Delta}

module _ {K V : Type 0} ⦃e : Eq K⦄ where
  swapped_lookup :
      (a b : K × V) (l : List (K × V))
      → Distinct (a ∷ b ∷ l)
      → Distinct (b ∷ a ∷ l) × ((k : K) → lookup k (a ∷ b ∷ l) ≡ lookup k (b ∷ a ∷ l))
  unfolding lookup
  swapped_lookup (i, v) (j, w) l (new, (new', d)) = (
    (ground (arith, new, new', e.beq_iff i j, e.beq_iff j i), (ground (arith, new, new'), d)),
    λ k. ground (arith, new, new', e.beq_iff i j, e.beq_iff j i, e.beq_iff i k, e.beq_iff j k),
  )

  -- The order of the entries does not matter to a lookup.
  pub lookup-Perm :
      (xs ys : List (K × V))
      → Permᴰ xs ys
      → Distinct xs
      → Distinct ys × ((k : K) → lookup k xs ≡ lookup k ys)
  unfolding lookup
  lookup-Perm xs ys (Permᴰ.nil) d = (tt, λ k. refl)
  lookup-Perm xs ys (Permᴰ.cons {a} {b} {l₁} {l₂} same p) d =
      let (d', same_lookup) = lookup-Perm l₁ l₂ p d.1 in
      subst (λ x. Distinct (x ∷ l₂) × ((k : K) → lookup k (a ∷ l₁) ≡ lookup k (x ∷ l₂))) same
        ((sym (same_lookup a.0) ∙ d.0, d'), λ k. ground (arith, same_lookup k))
  lookup-Perm xs ys (Permᴰ.swap {a} {b} {a'} {b'} {l} p q) d =
      subst (λ x. Distinct (a' ∷ x ∷ l) × ((k : K) → lookup k (a ∷ b ∷ l) ≡ lookup k (a' ∷ x ∷ l)))
        p
        (subst (λ x. Distinct (x ∷ a ∷ l) × ((k : K) → lookup k (a ∷ b ∷ l) ≡ lookup k (x ∷ a ∷ l)))
          q (swapped_lookup a b l d))
  lookup-Perm xs ys (Permᴰ.trans {l₁} {l₂} {l₃} p q) d =
      let (d₂, first) = lookup-Perm l₁ l₂ p d in
      let (d₃, second) = lookup-Perm l₂ l₃ q d₂ in (d₃, λ k. first k ∙ second k)

  pub lookup-append_none :
      (k : K) (xs ys : List (K × V)) → lookup k (xs ++ ys) ≡ none → lookup k xs ≡ none
  unfolding lookup
  lookup-append_none k [] ys h = refl
  lookup-append_none k ((j, v) ∷ xs) ys h = ground (arith, h, lookup-append_none k xs ys)

  -- An entry in front
  pub Perm-remove :
      (k : K) (v : V) (xs : List (K × V))
      → Distinct xs
      → lookup k xs ≡ some v
      → Permᴰ xs ((k, v) ∷ remove k xs)
  unfolding lookup remove
  Perm-remove k v [] d h = absurd (cc)
  Perm-remove k v ((j, w) ∷ xs) (new, d) h = elim (Bool-cases (e.beq j k)) [
    | inl here ↦
        let p : j ≡ k = (e.beq_iff j k).0 here in
        let q : w ≡ v = ground (arith, h, here) in
        let absent : remove k xs ≡ xs =
          remove_absent k xs (subst (λ x. lookup x xs ≡ none) p new) in
        rw (here, absent) (Permᴰ.cons (λ i. (p i, q i)) (Permᴰ.refl xs))
    | inr other ↦ rw other (
        Permᴰ.trans (Permᴰ.cons refl (Perm-remove k v xs d (ground (arith, h, other))))
          (Permᴰ.swap refl refl))
  ]

  -- Entries that answer every lookup alike are the same entries.
  pub Perm-lookup :
      (xs ys : List (K × V))
      → Distinct xs
      → Distinct ys
      → ((k : K) → lookup k xs ≡ lookup k ys)
      → Permᴰ xs ys
  unfolding lookup
  Perm-lookup [] [] d d' h = Permᴰ.nil
  Perm-lookup ((j, v) ∷ xs) [] d d' h = absurd (ground (arith, h j, e.beq_iff j j))
  Perm-lookup xs ((j, v) ∷ ys) d (new, d') h =
      Permᴰ.trans (Perm-remove j v xs d (ground (arith, h j, e.beq_iff j j))) (
        Permᴰ.cons refl (
          Perm-lookup (remove j xs) ys (remove-Distinct j xs d) d'
            (λ k. ground (arith, lookup-remove j k xs, h k, new, e.beq_iff j k))))

-- The deltas of a history under the serials from `n` on
unfoldable pub numbered : ℕ → List Delta → List (ℕ × Delta)
numbered n [] = []
numbered n (d ∷ ds) = (n, d) ∷ numbered (n + 1) ds

pub length-numbered : (n : ℕ) (ds : List Delta) → length (numbered n ds) ≡ length ds
unfolding numbered
length-numbered n [] = refl
length-numbered n (d ∷ ds) = omega (arith, length-numbered (n + 1) ds)

get_elem?-cons :
    (d : Delta) (ds : List Delta) (i : ℕ)
    → get_elem? (d ∷ ds) i ≡ (if i == 0 then some d else get_elem? ds (i - 1))
get_elem?-cons d ds zero = refl
get_elem?-cons d ds (suc i) =
    let back : suc i - 1 ≡ i = omega arith in
    let more : (suc i == 0) ≡ false = ground arith in rw (back, more) refl

pub lookup-numbered :
    (n : ℕ) (ds : List Delta) (s : ℕ)
    → lookup s (numbered n ds) ≡ (if leb n s then get_elem? ds (s - n) else none)
unfolding numbered lookup
lookup-numbered n [] s = ground arith
lookup-numbered n (d ∷ ds) s =
    ground (arith, lookup-numbered (n + 1) ds s, get_elem?-cons d ds (s - n))

pub numbered-Distinct : (n : ℕ) (ds : List Delta) → Distinct (numbered n ds)
unfolding numbered
numbered-Distinct n [] = tt
numbered-Distinct n (d ∷ ds) =
    (ground (arith, lookup-numbered (n + 1) ds n), numbered-Distinct (n + 1) ds)

pub numbered-snoc :
    (n : ℕ) (ds : List Delta) (d : Delta)
    → numbered n (ds ++ d ∷ []) ≡ numbered n ds ++ (n + length ds, d) ∷ []
unfolding numbered
numbered-snoc n [] d = ap (λ m. (m, d) ∷ []) (omega arith)
numbered-snoc n (x ∷ ds) d =
    rw (numbered-snoc (n + 1) ds d)
      (ap (λ m. (n, x) ∷ (numbered (n + 1) ds ++ (m, d) ∷ [])) (omega arith))

pub length-Perm : {A : Type 0} (xs ys : List A) → Permᴰ xs ys → length xs ≡ length ys
length-Perm xs ys (Permᴰ.nil) = refl
length-Perm xs ys (Permᴰ.cons {a} {b} {l₁} {l₂} same p) = omega (arith, length-Perm l₁ l₂ p)
length-Perm xs ys (Permᴰ.swap p q) = refl
length-Perm xs ys (Permᴰ.trans {l₁} {l₂} {l₃} p q) =
    omega (arith, length-Perm l₁ l₂ p, length-Perm l₂ l₃ q)

get_elem?-some : (ds : List Delta) (i : ℕ) (d : Delta) → get_elem? ds i ≡ some d → i < length ds
get_elem?-some [] i d h = absurd (cc)
get_elem?-some (x ∷ ds) zero d h = omega arith
get_elem?-some (x ∷ ds) (suc i) d h = omega (arith, get_elem?-some ds i d h)

pub get_elem?-beyond : (ds : List Delta) (i : ℕ) → length ds ≤ i → get_elem? ds i ≡ none
get_elem?-beyond [] i h = refl
get_elem?-beyond (x ∷ ds) zero h = absurd (omega arith)
get_elem?-beyond (x ∷ ds) (suc i) h = get_elem?-beyond ds i (omega arith)

-- The serials of a history
pub numbered-bounds :
    (n : ℕ) (ds : List Delta) (s : ℕ) (d : Delta)
    → lookup s (numbered n ds) ≡ some d
    → (n ≤ s) × (s < n + length ds)
numbered-bounds n ds s d h = elim (Bool-cases (leb n s)) [
  | inl low ↦
      let found : get_elem? ds (s - n) ≡ some d = ground (arith, lookup-numbered n ds s, h, low) in
      (ground (arith, low), ground (arith, low, get_elem?-some ds (s - n) d found))
  | inr high ↦ absurd (ground (arith, lookup-numbered n ds s, h, high))
]
