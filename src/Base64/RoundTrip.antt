-- ===== src/Base64/RoundTrip.antt =====
-- Decoding in base64 what was encoded.
use contractdb.Base.{
  ℕ, ◌+◌, ◌*◌, ◌/◌, ◌%◌, ◌<◌, false, some, [], ◌∷◌, Bytes, ◌==◌, All, ◌≡◌, refl, arith,
}
use contractdb.Base32.{strip_newlines}
use contractdb.Base64.{
  Encoding, pad, alpha, digit, padding, encode, pack2, pack3, pack4, decode_quanta, decode_string,
}

digit-alpha : (enc : Encoding) (d : ℕ) → d < 64 → digit enc (alpha enc d) ≡ some d
unfolding digit alpha
digit-alpha enc d h = ground arith

alpha-ne-pad : (enc : Encoding) (d : ℕ) → (alpha enc d == pad) ≡ false
unfolding alpha
alpha-ne-pad enc d = ground arith

strip_newlines-alpha :
    (enc : Encoding) (d : ℕ) (s : Bytes)
    → strip_newlines (alpha enc d ∷ s) ≡ alpha enc d ∷ strip_newlines s
unfolding strip_newlines alpha
strip_newlines-alpha enc d s = ground arith

strip_newlines-padding2 :
    (enc : Encoding) → strip_newlines (padding enc (pad ∷ pad ∷ [])) ≡ padding enc (pad ∷ pad ∷ [])
unfolding strip_newlines
strip_newlines-padding2 enc = ground arith

strip_newlines-padding1 :
    (enc : Encoding) → strip_newlines (padding enc (pad ∷ [])) ≡ padding enc (pad ∷ [])
unfolding strip_newlines
strip_newlines-padding1 enc = ground arith

pub strip_newlines-encode :
    (enc : Encoding) (s : Bytes) → strip_newlines (encode enc s) ≡ encode enc s
unfolding encode
strip_newlines-encode enc [] = unfold strip_newlines in refl
strip_newlines-encode enc (a ∷ []) = simp (strip_newlines-alpha, strip_newlines-padding2)
strip_newlines-encode enc (a ∷ b ∷ []) = simp (strip_newlines-alpha, strip_newlines-padding1)
strip_newlines-encode enc (a ∷ b ∷ c ∷ s) = simp (strip_newlines-alpha, strip_newlines-encode enc s)

module _ (enc : Encoding) where
  pack2-alpha :
      (a : ℕ) → a < 256 → pack2 enc (alpha enc (a / 4)) (alpha enc (a % 4 * 16)) ≡ some (a ∷ [])
  unfolding pack2
  pack2-alpha a h = ground (arith, digit-alpha enc (a / 4), digit-alpha enc (a % 4 * 16))

  pack3-alpha :
      (a b : ℕ)
      → a < 256
      → b < 256
      → pack3 enc (alpha enc (a / 4)) (alpha enc (a % 4 * 16 + b / 16)) (alpha enc (b % 16 * 4))
        ≡ some (a ∷ b ∷ [])
  unfolding pack3
  pack3-alpha a b ha hb = ground (
    arith,
    digit-alpha enc (a / 4),
    digit-alpha enc (a % 4 * 16 + b / 16),
    digit-alpha enc (b % 16 * 4),
  )

  pub pack4-alpha :
      (a b c : ℕ)
      → a < 256
      → b < 256
      → c < 256
      → pack4 enc
          (alpha enc (a / 4))
          (alpha enc (a % 4 * 16 + b / 16))
          (alpha enc (b % 16 * 4 + c / 64))
          (alpha enc (c % 64))
        ≡ some (a ∷ b ∷ c ∷ [])
  unfolding pack4
  pack4-alpha a b c ha hb hc = ground (
    arith,
    digit-alpha enc (a / 4),
    digit-alpha enc (a % 4 * 16 + b / 16),
    digit-alpha enc (b % 16 * 4 + c / 64),
    digit-alpha enc (c % 64),
  )

  pub decode_quanta-encode :
      (s : Bytes) → All (λ c. c < 256) s → decode_quanta enc (encode enc s) ≡ some s
  unfolding encode decode_quanta
  decode_quanta-encode [] h = refl
  decode_quanta-encode (a ∷ []) (ha, _) = ground (arith, pack2-alpha a ha)
  decode_quanta-encode (a ∷ b ∷ []) (ha, (hb, _)) =
      ground (arith, pack3-alpha a b ha hb, alpha-ne-pad enc (b % 16 * 4))
  decode_quanta-encode (a ∷ b ∷ c ∷ s) (ha, (hb, (hc, hs))) =
      rw (alpha-ne-pad enc (c % 64))
        (ground (arith, pack4-alpha a b c ha hb hc, decode_quanta-encode s hs))

  pub decode_string-encode :
      (s : Bytes) → All (λ c. c < 256) s → decode_string enc (encode enc s) ≡ some s
  unfolding decode_string
  decode_string-encode s h = rw (strip_newlines-encode enc s) (decode_quanta-encode s h)
