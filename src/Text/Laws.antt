-- ===== src/Text/Laws.antt =====
-- Laws of the text helpers that names need.
use contractdb.Base.{
  ℕ, ◌-◌, true, [], ◌∷◌, ◌++◌, Bytes, bytes_eq_refl, length, length-append, take, drop, All, ◌≡◌,
  ◌≢◌, refl, ap, arith,
}
use contractdb.Text.{lower, to_lower, has_suffix, split}

pub to_lower-append : (s t : Bytes) → to_lower (s ++ t) ≡ to_lower s ++ to_lower t
unfolding to_lower
to_lower-append [] t = refl
to_lower-append (c ∷ s) t = ap (◌∷◌ (lower c)) (to_lower-append s t)

pub length-to_lower : (s : Bytes) → length (to_lower s) ≡ length s
unfolding to_lower
length-to_lower [] = refl
length-to_lower (c ∷ s) = omega (arith, length-to_lower s)

pub lower_idem : (c : ℕ) → lower (lower c) ≡ lower c
unfolding lower
lower_idem c = ground arith

pub to_lower_idem : (s : Bytes) → to_lower (to_lower s) ≡ to_lower s
unfolding to_lower
to_lower_idem [] = refl
to_lower_idem (c ∷ s) = cc (lower_idem c, to_lower_idem s)

pub drop-append : (s t : Bytes) → drop (length s) (s ++ t) ≡ t
drop-append [] t = refl
drop-append (c ∷ s) t = drop-append s t

pub take-append : (s t : Bytes) → take (length s) (s ++ t) ≡ s
take-append [] t = refl
take-append (c ∷ s) t = ap (◌∷◌ c) (take-append s t)

pub has_suffix-append : (s t : Bytes) → has_suffix (s ++ t) t ≡ true
unfolding has_suffix
has_suffix-append s t =
    let long : length (s ++ t) - length t ≡ length s = omega (arith, length-append s t) in
    rw (long, drop-append s t, bytes_eq_refl t) (ground (arith, length-append s t))

-- A text with no separator is one label.
pub split_lacks : (sep : ℕ) (s : Bytes) → All (λ c. c ≢ sep) s → split sep s ≡ s ∷ []
unfolding split
split_lacks sep [] h = refl
split_lacks sep (c ∷ s) (hc, hs) = ground (arith, split_lacks sep s hs)
