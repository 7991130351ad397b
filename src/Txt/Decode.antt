-- ===== src/Txt/Decode.antt =====
-- decodeTXTStrings against the presentation form of character strings, and on raw text.
use mathlib.Core.List.{flat_map}
use contractdb.Base.{
  ℕ, suc, ◌+◌, ◌/◌, ◌%◌, ◌≤◌, ◌<◌, ◌||◌, Bool, true, false, List, [], ◌∷◌, ◌++◌, Bytes, ltb, ◌==◌,
  length, Option, none, some, length-append, concat, map, All, ◌≡◌, ◌≢◌, refl, ap, ◌∙◌, arith, ◌⊎◌,
  inl, inr, Bool-cases, ◌&&◌, if◌then◌else◌, subst, ◌>>=◌, ◌↔◌,
}
use contractdb.Txt.{
  backslash, is_digit, ddd, write_byte, decode_chunk, decode_txt_strings, chunk_bytes,
  max_txt_chunk,
}
use contractdb.Txt.Chunks.{chunk_bytes_lem}

-- How the DNS library spells an octet of character data (RFC 1035, section 5.1): quotes and
-- backslashes behind a backslash, octets outside the printable range as three decimal digits.
abbrev pub present : ℕ → Bytes
present c =
    if c == b'"' || c == backslash
    then backslash ∷ c ∷ []
    else if ltb c 32 || ltb 126 c
    then backslash ∷ (48 + c / 100) ∷ (48 + c / 10 % 10) ∷ (48 + c % 10) ∷ []
    else c ∷ []

plain_step :
    (c : ℕ) (s : Bytes) → c ≢ backslash → decode_chunk (c ∷ s) ≡ write_byte c (decode_chunk s)
unfolding decode_chunk
plain_step c [] h = ground arith
plain_step c (x ∷ []) h = ground arith
plain_step c (x ∷ y ∷ []) h = ground arith
plain_step c (x ∷ y ∷ z ∷ s) h = ground arith

quoted_step :
    (x : ℕ) (s : Bytes)
    → is_digit x ≡ false
    → decode_chunk (backslash ∷ x ∷ s) ≡ write_byte x (decode_chunk s)
unfolding decode_chunk
quoted_step x [] h = refl
quoted_step x (y ∷ []) h = refl
quoted_step x (y ∷ z ∷ s) h = rw h

is_digit_small : (d : ℕ) → d < 10 → is_digit (48 + d) ≡ true
is_digit_small d h = ground arith

ddd_digits : (c : ℕ) → ddd (48 + c / 100) (48 + c / 10 % 10) (48 + c % 10) ≡ c
ddd_digits c = omega arith

ltb_byte : (c : ℕ) → c < 256 → ltb 255 c ≡ false
ltb_byte c h = ground arith

decimal_step :
    (c : ℕ) (s : Bytes)
    → c < 256
    → decode_chunk (backslash ∷ (48 + c / 100) ∷ (48 + c / 10 % 10) ∷ (48 + c % 10) ∷ s)
      ≡ write_byte c (decode_chunk s)
unfolding decode_chunk
decimal_step c s h = rw (
  is_digit_small (c / 100) (omega arith),
  is_digit_small (c / 10 % 10) (omega arith),
  is_digit_small (c % 10) (omega arith),
  ddd_digits c,
  ltb_byte c h,
)

present_step :
    (c : ℕ) (s : Bytes) → c < 256 → decode_chunk (present c ++ s) ≡ write_byte c (decode_chunk s)
present_step c s h = ground (arith, plain_step c s, quoted_step c s, decimal_step c s h)

decode_chunk-present :
    (octets : Bytes)
    → All (λ c. c < 256) octets
    → decode_chunk (flat_map present octets) ≡ some octets
unfolding flat_map
decode_chunk-present [] h = unfold decode_chunk in refl
decode_chunk-present (c ∷ s) (hc, hs) =
    present_step c (flat_map present s) hc ∙ ap (write_byte c) (decode_chunk-present s hs)

-- The octets of any character strings are read back from their presentation form, joined.
pub decode_txt_strings-present :
    (strings : List Bytes)
    → All (All (λ c. c < 256)) strings
    → decode_txt_strings (map (flat_map present) strings) ≡ some (concat strings)
unfolding decode_txt_strings
decode_txt_strings-present [] h = refl
decode_txt_strings-present (s ∷ ss) (hs, hss) =
    rw (decode_chunk-present s hs, decode_txt_strings-present ss hss)

-- A text holds a backslash.
abbrev pub HasBackslash : Bytes → Type 0
HasBackslash [] = ⊥
HasBackslash (c ∷ s) = (c ≡ backslash) ⊎ HasBackslash s

-- A decoded text, if there is one, has at most `n` bytes.
abbrev Fits : ℕ → Option Bytes → Type 0
Fits n none = Unit
Fits n (some out) = length out ≤ n

Fits-write : (n c : ℕ) (r : Option Bytes) → Fits n r → Fits (suc n) (write_byte c r)
Fits-write n c none h = tt
Fits-write n c (some out) h = omega arith

Fits-if :
    (n : ℕ) (b : Bool) (r q : Option Bytes) → Fits n r → Fits n q → Fits n (if b then r else q)
Fits-if n true r q hr hq = hr
Fits-if n false r q hr hq = hq

Fits-weaken : (n m : ℕ) (r : Option Bytes) → n ≤ m → Fits n r → Fits m r
Fits-weaken n m none le h = tt
Fits-weaken n m (some out) le h = omega arith

-- What is written behind a backslash.
escape_Fits :
    (x y z : ℕ) (s : Bytes)
    → Fits (suc (suc (length s))) (decode_chunk (y ∷ z ∷ s))
    → Fits (length s) (decode_chunk s)
    → Fits (suc (suc (suc (length s)))) (
        if is_digit x && (is_digit y && is_digit z)
        then (if ltb 255 (ddd x y z) then none else write_byte (ddd x y z) (decode_chunk s))
        else write_byte x (decode_chunk (y ∷ z ∷ s)))
escape_Fits x y z s he hd =
    Fits-if _ (is_digit x && (is_digit y && is_digit z)) _ _
      (Fits-if _ (ltb 255 (ddd x y z)) none _ tt (
        Fits-weaken (suc (length s)) _ _ (omega arith)
          (Fits-write _ (ddd x y z) (decode_chunk s) hd)))
      (Fits-write _ x _ he)

-- Decoding never makes a text longer.
decode_chunk-Fits : (s : Bytes) → Fits (length s) (decode_chunk s)
unfolding decode_chunk
decode_chunk-Fits [] = omega arith
decode_chunk-Fits (c ∷ []) = Fits-if _ (c == backslash) _ _ tt (omega arith)
decode_chunk-Fits (c ∷ x ∷ []) =
    Fits-if _ (c == backslash) _ _ (omega arith) (Fits-write _ c _ (decode_chunk-Fits (x ∷ [])))
decode_chunk-Fits (c ∷ x ∷ y ∷ []) =
    Fits-if _ (c == backslash) _ _
      (Fits-write _ x _ (Fits-weaken 1 _ _ (omega arith) (decode_chunk-Fits (y ∷ []))))
      (Fits-write _ c _ (decode_chunk-Fits (x ∷ y ∷ [])))
decode_chunk-Fits (c ∷ x ∷ y ∷ z ∷ s) =
    Fits-if _ (c == backslash) _ _
      (Fits-weaken (suc (suc (suc (length s)))) _ _ (omega arith)
        (escape_Fits x y z s (decode_chunk-Fits (y ∷ z ∷ s)) (decode_chunk-Fits s)))
      (Fits-write _ c _ (decode_chunk-Fits (x ∷ y ∷ z ∷ s)))

Fits-strict :
    (n c : ℕ) (r q : Option Bytes)
    → Fits n r
    → (c ≢ backslash → Fits n (write_byte c q))
    → Fits n (if c == backslash then r else write_byte c q)
Fits-strict n c r q hr strict = elim (Bool-cases (c == backslash)) [
  | inl e ↦ rw e hr
  | inr e ↦ rw e (strict (ground arith))
]

tail-HasBackslash : (c : ℕ) (s : Bytes) → HasBackslash (c ∷ s) → c ≢ backslash → HasBackslash s
tail-HasBackslash c s (inl e) ne = absurd (ne e)
tail-HasBackslash c s (inr b) ne = b

-- A backslash that stands in the text is not written: the result is shorter.
decode_chunk-strict :
    (c : ℕ) (s : Bytes) → HasBackslash (c ∷ s) → Fits (length s) (decode_chunk (c ∷ s))
unfolding decode_chunk
decode_chunk-strict c [] (inl e) = rw e tt
decode_chunk-strict c [] (inr h) = absurd h
decode_chunk-strict c (x ∷ []) h =
    Fits-strict _ c _ _ (omega arith)
      λ ne. Fits-write _ c _ (decode_chunk-strict x [] (tail-HasBackslash c (x ∷ []) h ne))
decode_chunk-strict c (x ∷ y ∷ []) h =
    Fits-strict _ c _ _ (Fits-write 1 x _ (decode_chunk-Fits (y ∷ []))) λ ne.
      Fits-write _ c _ (decode_chunk-strict x (y ∷ []) (tail-HasBackslash c (x ∷ y ∷ []) h ne))
decode_chunk-strict c (x ∷ y ∷ z ∷ s) h =
    Fits-strict _ c _ _ (escape_Fits x y z s (decode_chunk-Fits (y ∷ z ∷ s)) (decode_chunk-Fits s))
      λ ne.
        Fits-write _ c _
          (decode_chunk-strict x (y ∷ z ∷ s) (tail-HasBackslash c (x ∷ y ∷ z ∷ s) h ne))

-- Text with no backslash is kept.
decode_chunk_plain : (s : Bytes) → ¬ HasBackslash s → decode_chunk s ≡ some s
decode_chunk_plain [] h = unfold decode_chunk in refl
decode_chunk_plain (c ∷ s) h =
    plain_step c s (λ e. h (inl e)) ∙ ap (write_byte c) (decode_chunk_plain s (λ b. h (inr b)))

Fits-bind :
    (n m : ℕ) (r q : Option Bytes)
    → Fits n r
    → Fits m q
    → Fits (n + m) (do d ← r; rest ← q; some (d ++ rest))
Fits-bind n m none q hr hq = tt
Fits-bind n m (some a) none hr hq = tt
Fits-bind n m (some a) (some b) hr hq = omega (arith, length-append a b)

decode_txt_strings-Fits :
    (chunks : List Bytes) → Fits (length (concat chunks)) (decode_txt_strings chunks)
unfolding decode_txt_strings
decode_txt_strings-Fits [] = omega arith
decode_txt_strings-Fits (c ∷ cs) =
    Fits-weaken (length c + length (concat cs)) _ _ (omega (arith, length-append c (concat cs)))
      (Fits-bind _ _ _ _ (decode_chunk-Fits c) (decode_txt_strings-Fits cs))

-- Some string of the list holds a backslash, or none does.
HasBackslash-append : (s t : Bytes) → HasBackslash (s ++ t) → HasBackslash s ⊎ HasBackslash t
HasBackslash-append [] t h = inr h
HasBackslash-append (c ∷ s) t (inl e) = inl (inl e)
HasBackslash-append (c ∷ s) t (inr h) = elim (HasBackslash-append s t h) [
  | inl a ↦ inl (inr a)
  | inr b ↦ inr b
]

append-HasBackslash : (s t : Bytes) → HasBackslash s ⊎ HasBackslash t → HasBackslash (s ++ t)
append-HasBackslash [] t (inl h) = absurd h
append-HasBackslash [] t (inr h) = h
append-HasBackslash (c ∷ s) t (inl (inl e)) = inl e
append-HasBackslash (c ∷ s) t (inl (inr h)) = inr (append-HasBackslash s t (inl h))
append-HasBackslash (c ∷ s) t (inr h) = inr (append-HasBackslash s t (inr h))

decode_txt_strings_plain :
    (chunks : List Bytes)
    → ¬ HasBackslash (concat chunks)
    → decode_txt_strings chunks ≡ some (concat chunks)
unfolding decode_txt_strings
decode_txt_strings_plain [] h = refl
decode_txt_strings_plain (c ∷ cs) h = rw (
  decode_chunk_plain c (λ b. h (append-HasBackslash c (concat cs) (inl b))),
  decode_txt_strings_plain cs (λ b. h (append-HasBackslash c (concat cs) (inr b))),
)

-- A decoded text, if there is one, is shorter than `n` bytes.
abbrev Short : ℕ → Option Bytes → Type 0
Short n none = Unit
Short n (some out) = length out < n

Short-bind :
    (n m : ℕ) (r q : Option Bytes)
    → Fits n r
    → Fits m q
    → Short n r ⊎ Short m q
    → Short (n + m) (do d ← r; rest ← q; some (d ++ rest))
Short-bind n m none q hr hq h = tt
Short-bind n m (some a) none hr hq h = tt
Short-bind n m (some a) (some b) hr hq h = omega (arith, length-append a b)

decode_chunk-Short : (s : Bytes) → HasBackslash s → Short (length s) (decode_chunk s)
decode_chunk-Short [] h = absurd h
decode_chunk-Short (c ∷ s) h = ground (arith, decode_chunk-strict c s h)

Short-weaken : (n m : ℕ) (r : Option Bytes) → n ≡ m → Short n r → Short m r
Short-weaken n m none e h = tt
Short-weaken n m (some out) e h = omega arith

decode_txt_strings-Short :
    (chunks : List Bytes)
    → HasBackslash (concat chunks)
    → Short (length (concat chunks)) (decode_txt_strings chunks)
unfolding decode_txt_strings
decode_txt_strings-Short [] h = absurd h
decode_txt_strings-Short (c ∷ cs) h =
    Short-weaken (length c + length (concat cs)) _ _ (omega (arith, length-append c (concat cs))) (
      Short-bind _ _ _ _ (decode_chunk-Fits c) (decode_txt_strings-Fits cs)
        (elim (HasBackslash-append c (concat cs) h) [
          | inl a ↦ inl (decode_chunk-Short c a)
          | inr b ↦ inr (decode_txt_strings-Short cs b)
        ]))

not-Short :
    (chunks : List Bytes) (blob : Bytes)
    → decode_txt_strings chunks ≡ some blob
    → concat chunks ≡ blob
    → Short (length (concat chunks)) (decode_txt_strings chunks)
    → ⊥
not-Short chunks blob e joined short =
    absurd (omega (arith, subst (λ r. Short (length (concat chunks)) r) e short, ap length joined))

-- The raw chunks of a text, read as presentation form, give the text back exactly when the text
-- holds no backslash.
pub decode_txt_strings-chunk_bytes :
    (blob : Bytes)
    → (decode_txt_strings (chunk_bytes blob max_txt_chunk) ≡ some blob) ↔ (¬ HasBackslash blob)
decode_txt_strings-chunk_bytes blob =
    let chunks = chunk_bytes blob max_txt_chunk in
    let joined : concat chunks ≡ blob = (chunk_bytes_lem blob max_txt_chunk (omega arith)).0 in
    (
      λ e b.
          let short = decode_txt_strings-Short chunks (rw joined b) in
          not-Short chunks blob e joined short,
      λ nb. decode_txt_strings_plain chunks (rw joined nb) ∙ ap some joined,
    )
