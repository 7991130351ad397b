-- ===== src/Text/Decimal.antt =====
-- Decimal numbers: Itoa and Atoi of package strconv, on integers of 64 bits.
use contractdb.Base.{
  ℕ, zero, suc, ◌+◌, ◌-◌, ◌*◌, ◌/◌, ◌%◌, ◌^◌, ◌≤◌, ◌<◌, ◌&&◌, Option, none, some, [], ◌∷◌, Bytes,
  All, leb, ltb, ◌==◌, is_empty, ◌≡◌, ◌≢◌, inl, inr, refl, arith, Bool-cases, if◌then◌else◌,
}
use contractdb.Text.Space.{trim_space, trim_left, trim_right}

pub data ℤ : Type 0 where
  pos : ℕ → ℤ
  negsuc : ℕ → ℤ

-- The digits of a number in front of a text, with fuel for one digit more than it has
unfoldable pub digits_of : ℕ → ℕ → Bytes → Bytes
digits_of zero n s = s
digits_of (suc fuel) n s =
    if ltb n 10 then (48 + n) ∷ s else digits_of fuel (n / 10) ((48 + n % 10) ∷ s)

unfoldable pub itoa : ℕ → Bytes
unfolding digits_of
itoa n = digits_of (suc n) n []

unfoldable pub digits_loop : Bytes → ℕ → Option ℕ
digits_loop [] acc = some acc
digits_loop (c ∷ s) acc =
    let rest = digits_loop s (acc * 10 + (c - 48)) in if leb 48 c && leb c 57 then rest else none

abbrev digits : Bytes → Option ℕ
digits s = if is_empty s then none else digits_loop s 0

-- the numbers of a sign; `none` is out of range
abbrev positive_int : ℕ → Option ℤ
positive_int n = if ltb n (2 ^ 63) then some (pos n) else none

abbrev negative_int : ℕ → Option ℤ
negative_int n =
    if n == 0 then some (pos 0) else if leb n (2 ^ 63) then some (negsuc (n - 1)) else none

abbrev with_sign : (ℕ → Option ℤ) → Option ℕ → Option ℤ
with_sign f none = none
with_sign f (some n) = f n

unfoldable pub atoi : Bytes → Option ℤ
unfolding digits_loop
atoi [] = none
atoi (c ∷ s) =
    if c == b'-'
    then with_sign negative_int (digits s)
    else if c == b'+'
    then with_sign positive_int (digits s)
    else with_sign positive_int (digits (c ∷ s))

abbrev IsDigit : ℕ → Type 0
IsDigit c = (48 ≤ c) × (c ≤ 57)

digits_of-IsDigit : (fuel n : ℕ) (s : Bytes) → All IsDigit s → All IsDigit (digits_of fuel n s)
unfolding digits_of
digits_of-IsDigit zero n s a = a
digits_of-IsDigit (suc fuel) n s a = elim (Bool-cases (ltb n 10)) [
  | inl e ↦ rw e ((omega arith, ground (arith, e)), a)
  | inr e ↦
      rw e (digits_of-IsDigit fuel (n / 10) ((48 + n % 10) ∷ s) ((omega arith, omega arith), a))
]

-- reading undoes writing
digits_loop-digits_of :
    (fuel n : ℕ) (s : Bytes) → n < fuel → digits_loop (digits_of fuel n s) 0 ≡ digits_loop s n
unfolding digits_of digits_loop
digits_loop-digits_of zero n s h = absurd (omega arith)
digits_loop-digits_of (suc fuel) n s h = elim (Bool-cases (ltb n 10)) [
  | inl e ↦ ground (arith, e)
  | inr e ↦
      ground
        (arith, e, digits_loop-digits_of fuel (n / 10) ((48 + n % 10) ∷ s) (ground (arith, e, h)))
]

digits_of-nonempty : (fuel n : ℕ) (s : Bytes) → s ≢ [] → digits_of fuel n s ≢ []
unfolding digits_of
digits_of-nonempty zero n s h = h
digits_of-nonempty (suc fuel) n s h = elim (Bool-cases (ltb n 10)) [
  | inl e ↦ rw e (λ f. cc)
  | inr e ↦ rw e (digits_of-nonempty fuel (n / 10) ((48 + n % 10) ∷ s) (λ f. cc))
]

itoa-nonempty : (n : ℕ) → itoa n ≢ []
unfolding itoa digits_of
itoa-nonempty n = elim (Bool-cases (ltb n 10)) [
  | inl e ↦ rw e (λ f. cc)
  | inr e ↦ rw e (digits_of-nonempty n (n / 10) ((48 + n % 10) ∷ []) (λ f. cc))
]

atoi-digits :
    (s : Bytes) (n : ℕ)
    → s ≢ []
    → All IsDigit s
    → digits_loop s 0 ≡ some n
    → n < 2 ^ 63
    → atoi s ≡ some (pos n)
unfolding atoi
atoi-digits [] n nonempty a e small = absurd (nonempty refl)
atoi-digits (c ∷ s) n nonempty a e small = ground (arith, a, e)

pub atoi-itoa : (n : ℕ) → n < 2 ^ 63 → atoi (itoa n) ≡ some (pos n)
unfolding itoa digits_loop
atoi-itoa n small =
    atoi-digits (itoa n) n (itoa-nonempty n) (digits_of-IsDigit (suc n) n [] tt)
      (digits_loop-digits_of (suc n) n [] (omega arith)) small

trim_right-digits : (s : Bytes) → All IsDigit s → trim_right s ≡ s
unfolding trim_right
trim_right-digits [] a = refl
trim_right-digits (c ∷ s) (d, a) = ground (arith, trim_right-digits s a, d)

trim_left-digits : (s : Bytes) → All IsDigit s → trim_left s ≡ s
unfolding trim_left
trim_left-digits [] a = refl
trim_left-digits (c ∷ s) (d, a) = ground (arith, d)

pub trim_space-itoa : (n : ℕ) → trim_space (itoa n) ≡ itoa n
unfolding trim_space itoa
trim_space-itoa n =
    let a = digits_of-IsDigit (suc n) n [] tt in
    rw (trim_left-digits (itoa n) a, trim_right-digits (itoa n) a) refl
