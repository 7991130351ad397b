-- ===== src/Text/Cutting.antt =====
-- Laws of splitting, cutting and trimming for texts that lack the separator.
use contractdb.Base.{ℕ, false, some, List, [], ◌∷◌, ◌++◌, Bytes, All, ◌≡◌, ◌≢◌, refl, ap, arith}
use contractdb.Text.{split, join}
use contractdb.Text.Space.{is_space, trim_left, trim_right, trim_space, cut}

abbrev pub Lacks : ℕ → Bytes → Type 0
Lacks sep = All (λ c. c ≢ sep)

abbrev pub LacksSpace : Bytes → Type 0
LacksSpace = All (λ c. is_space c ≡ false)

pub split-append :
    (sep : ℕ) (w s : Bytes) → Lacks sep w → split sep (w ++ sep ∷ s) ≡ w ∷ split sep s
unfolding split
split-append sep [] s h = ground arith
split-append sep (c ∷ w) s (hc, hw) = ground (arith, split-append sep w s hw)

pub split_one : (sep : ℕ) (w : Bytes) → Lacks sep w → split sep w ≡ w ∷ []
unfolding split
split_one sep [] h = refl
split_one sep (c ∷ w) (hc, hw) = ground (arith, split_one sep w hw)

pub split-join :
    (sep : ℕ) (w : Bytes) (ws : List Bytes)
    → All (Lacks sep) (w ∷ ws)
    → split sep (join sep (w ∷ ws)) ≡ w ∷ ws
unfolding join
split-join sep w [] (h, _) = split_one sep w h
split-join sep w (v ∷ ws) (h, hs) =
    rw (split-append sep w (join sep (v ∷ ws)) h) (ap (◌∷◌ w) (split-join sep v ws hs))

pub cut-append : (sep : ℕ) (w s : Bytes) → Lacks sep w → cut sep (w ++ sep ∷ s) ≡ some (w, s)
unfolding cut
cut-append sep [] s h = ground arith
cut-append sep (c ∷ w) s (hc, hw) = ground (arith, cut-append sep w s hw)

trim_right_lacks : (s : Bytes) → LacksSpace s → trim_right s ≡ s
unfolding trim_right
trim_right_lacks [] h = refl
trim_right_lacks (c ∷ s) (hc, hs) = ground (arith, trim_right_lacks s hs)

trim_left_lacks : (s : Bytes) → LacksSpace s → trim_left s ≡ s
unfolding trim_left
trim_left_lacks [] h = refl
trim_left_lacks (c ∷ s) (hc, hs) = rw hc refl

pub trim_space_lacks : (s : Bytes) → LacksSpace s → trim_space s ≡ s
unfolding trim_space
trim_space_lacks s h = rw (trim_left_lacks s h) (trim_right_lacks s h)
