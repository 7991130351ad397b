-- ===== src/Base32/RoundTrip.antt =====
-- Decoding what was encoded.
use mathlib.Core.Option
use contractdb.Base.{
  ℕ, ◌+◌, ◌*◌, ◌/◌, ◌%◌, ◌<◌, ◌≤◌, false, some, List, [], ◌∷◌, ◌++◌, Bytes, ◌==◌, map, append-nil,
  append_assoc, length-append, ◌∙◌, length, All, ◌≡◌, refl, ap, arith,
}
use contractdb.Base32.{pad, alpha, digit, encode, pack, decode_from, strip_newlines, decode_string}
use contractdb.Text.{to_lower, to_upper, lower, upper}

digit-alpha : (d : ℕ) → d < 32 → digit (alpha d) ≡ some d
unfolding digit alpha
digit-alpha d h = ground arith

alpha-ne-pad : (d : ℕ) → d < 32 → (alpha d == pad) ≡ false
unfolding alpha
alpha-ne-pad d h = ground arith

step :
    (d : ℕ) (src : Bytes) (buf : List ℕ)
    → d < 32
    → length buf < 7
    → decode_from (alpha d ∷ src) buf ≡ decode_from src (buf ++ d ∷ [])
unfolding decode_from
step d src buf h k = ground (arith, digit-alpha d h, alpha-ne-pad d h)

last_step :
    (d : ℕ) (src : Bytes) (buf : List ℕ)
    → d < 32
    → length buf ≡ 7
    → decode_from (alpha d ∷ src) buf
      ≡ Option.map (λ rest. pack (buf ++ d ∷ []) ++ rest) (decode_from src [])
unfolding decode_from
last_step d src buf h k = ground (arith, digit-alpha d h, alpha-ne-pad d h)

-- Up to seven digits go into the quantum.
steps :
    (ds : List ℕ) (src : Bytes) (buf : List ℕ)
    → All (λ d. d < 32) ds
    → length buf + length ds ≤ 7
    → decode_from (map alpha ds ++ src) buf ≡ decode_from src (buf ++ ds)
steps [] src buf h k = rw append-nil
steps (d ∷ ds) src buf (hd, hs) k = rw (step d (map alpha ds ++ src) buf hd (omega arith)) (
    rw (steps ds src (buf ++ d ∷ []) hs (omega (arith, length-append buf (d ∷ []))))
      (rw append_assoc))

-- The bytes that a full quantum of the digits of `a` to `e` packs to.
pack_full :
    (a b c d e : ℕ)
    → a < 256
    → b < 256
    → c < 256
    → d < 256
    → e < 256
    → pack (
        a / 8
        ∷ (a % 8 * 4 + b / 64)
        ∷ b / 2 % 32
        ∷ (b % 2 * 16 + c / 16)
        ∷ (c % 16 * 2 + d / 128)
        ∷ d / 4 % 32
        ∷ (d % 4 * 8 + e / 32)
        ∷ e % 32
        ∷ [])
      ≡ a ∷ b ∷ c ∷ d ∷ e ∷ []
unfolding pack
pack_full a b c d e ha hb hc hd he = ground arith

-- The decoder reads back what the encoder wrote.
pub decode_from-encode : (s : Bytes) → All (λ c. c < 256) s → decode_from (encode s) [] ≡ some s
unfolding encode
decode_from-encode [] h = unfold decode_from in refl
decode_from-encode (a ∷ []) (ha, _) =
    steps (a / 8 ∷ (a % 8 * 4) ∷ []) _ [] (omega arith) (omega arith)
    ∙ (unfold decode_from in ap some (ground arith))
decode_from-encode (a ∷ b ∷ []) (ha, (hb, _)) =
    steps (a / 8 ∷ (a % 8 * 4 + b / 64) ∷ (b / 2 % 32) ∷ (b % 2 * 16) ∷ []) _ [] (omega arith)
      (omega arith)
    ∙ (unfold decode_from in ap some (ground arith))
decode_from-encode (a ∷ b ∷ c ∷ []) (ha, (hb, (hc, _))) =
    steps (a / 8 ∷ (a % 8 * 4 + b / 64) ∷ (b / 2 % 32) ∷ (b % 2 * 16 + c / 16) ∷ (c % 16 * 2) ∷ [])
      _ [] (omega arith) (omega arith)
    ∙ (unfold decode_from in ap some (ground arith))
decode_from-encode (a ∷ b ∷ c ∷ d ∷ []) (ha, (hb, (hc, (hd, _)))) =
    steps
      (a / 8
        ∷ (a % 8 * 4 + b / 64)
        ∷ (b / 2 % 32)
        ∷ (b % 2 * 16 + c / 16)
        ∷ (c % 16 * 2 + d / 128)
        ∷ (d / 4 % 32)
        ∷ (d % 4 * 8)
        ∷ [])
      _ [] (omega arith) (omega arith)
    ∙ (unfold decode_from in ap some (ground arith))
decode_from-encode (a ∷ b ∷ c ∷ d ∷ e ∷ s) (ha, (hb, (hc, (hd, (he, hs))))) =
    steps
      (a / 8
        ∷ (a % 8 * 4 + b / 64)
        ∷ (b / 2 % 32)
        ∷ (b % 2 * 16 + c / 16)
        ∷ (c % 16 * 2 + d / 128)
        ∷ (d / 4 % 32)
        ∷ (d % 4 * 8 + e / 32)
        ∷ [])
      _ [] (omega arith) (omega arith)
    ∙ (last_step (e % 32) (encode s) _ (omega arith) refl
        ∙ rw (decode_from-encode s hs, pack_full a b c d e ha hb hc hd he))

-- The range of the characters that the encoder writes.
abbrev pub IsCode : ℕ → Type 0
IsCode c = (b'2' ≤ c) × (c ≤ b'Z')

alpha-IsCode : (d : ℕ) → d < 32 → IsCode (alpha d)
unfolding alpha
alpha-IsCode d h = ground arith

append-IsCode :
    (ds : List ℕ) (rest : Bytes)
    → All (λ d. d < 32) ds
    → All IsCode rest
    → All IsCode (map alpha ds ++ rest)
append-IsCode [] rest h hr = hr
append-IsCode (d ∷ ds) rest (hd, hs) hr = (alpha-IsCode d hd, append-IsCode ds rest hs hr)

pub encode-IsCode : (s : Bytes) → All (λ c. c < 256) s → All IsCode (encode s)
unfolding encode
encode-IsCode [] h = tt
encode-IsCode (a ∷ []) (ha, _) =
    append-IsCode (a / 8 ∷ (a % 8 * 4) ∷ []) (pad ∷ pad ∷ pad ∷ pad ∷ pad ∷ pad ∷ []) (omega arith)
      (omega arith)
encode-IsCode (a ∷ b ∷ []) (ha, (hb, _)) =
    append-IsCode (a / 8 ∷ (a % 8 * 4 + b / 64) ∷ (b / 2 % 32) ∷ (b % 2 * 16) ∷ [])
      (pad ∷ pad ∷ pad ∷ pad ∷ []) (omega arith) (omega arith)
encode-IsCode (a ∷ b ∷ c ∷ []) (ha, (hb, (hc, _))) =
    append-IsCode
      (a / 8 ∷ (a % 8 * 4 + b / 64) ∷ (b / 2 % 32) ∷ (b % 2 * 16 + c / 16) ∷ (c % 16 * 2) ∷ [])
      (pad ∷ pad ∷ pad ∷ []) (omega arith) (omega arith)
encode-IsCode (a ∷ b ∷ c ∷ d ∷ []) (ha, (hb, (hc, (hd, _)))) =
    append-IsCode
      (a / 8
        ∷ (a % 8 * 4 + b / 64)
        ∷ (b / 2 % 32)
        ∷ (b % 2 * 16 + c / 16)
        ∷ (c % 16 * 2 + d / 128)
        ∷ (d / 4 % 32)
        ∷ (d % 4 * 8)
        ∷ [])
      (pad ∷ []) (omega arith) (omega arith)
encode-IsCode (a ∷ b ∷ c ∷ d ∷ e ∷ s) (ha, (hb, (hc, (hd, (he, hs))))) =
    append-IsCode
      (a / 8
        ∷ (a % 8 * 4 + b / 64)
        ∷ (b / 2 % 32)
        ∷ (b % 2 * 16 + c / 16)
        ∷ (c % 16 * 2 + d / 128)
        ∷ (d / 4 % 32)
        ∷ (d % 4 * 8 + e / 32)
        ∷ e % 32
        ∷ [])
      (encode s) (omega arith) (encode-IsCode s hs)

-- The encoder pads to whole quanta.
pub length-encode : (s : Bytes) → length (encode s) % 8 ≡ 0
unfolding encode
length-encode [] = refl
length-encode (a ∷ []) = refl
length-encode (a ∷ b ∷ []) = refl
length-encode (a ∷ b ∷ c ∷ []) = refl
length-encode (a ∷ b ∷ c ∷ d ∷ []) = refl
length-encode (a ∷ b ∷ c ∷ d ∷ e ∷ s) = omega (arith, length-encode s)

upper-lower : (c : ℕ) → IsCode c → upper (lower c) ≡ c
unfolding upper lower
upper-lower c h = ground arith

pub to_upper-to_lower : (s : Bytes) → All IsCode s → to_upper (to_lower s) ≡ s
unfolding to_upper to_lower
to_upper-to_lower [] h = refl
to_upper-to_lower (c ∷ s) (hc, hs) = cc (upper-lower c hc, to_upper-to_lower s hs)

strip_newlines-IsCode : (s : Bytes) → All IsCode s → strip_newlines s ≡ s
unfolding strip_newlines
strip_newlines-IsCode [] h = refl
strip_newlines-IsCode (c ∷ s) (hc, hs) = ground (arith, strip_newlines-IsCode s hs)

-- `DecodeString` undoes `EncodeToString`, in either case of the letters.
pub decode_string-encode :
    (s : Bytes) → All (λ c. c < 256) s → decode_string (to_upper (to_lower (encode s))) ≡ some s
unfolding decode_string
decode_string-encode s h =
    let codes_h = encode-IsCode s h in
    rw (to_upper-to_lower (encode s) codes_h, strip_newlines-IsCode (encode s) codes_h)
      (decode_from-encode s h)
