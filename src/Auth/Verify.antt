-- ===== src/Auth/Verify.antt =====
-- Generate and Verify.
use contractdb.Base.{
  ℕ, ◌+◌, ◌*◌, ◌/◌, ◌%◌, ◌<◌, true, some, [], ◌∷◌, Bytes, codes, bytes_eq, bytes_eq_iff, All, ltb,
  ◌≡◌, ◌↔◌, inl, inr, refl, ap, ◌∙◌, arith, Bool-cases, Option-cases, if◌then◌else◌,
}
use contractdb.Assoc.{lookup, bytes_key}
use contractdb.Dns.{NameLib}
use contractdb.Text.{lower, to_lower}
use contractdb.Auth.{
  Hash, sha1, sha256, sha384, sha512, Hmac, Tsig, HmacProvider, hash_for, generate, hex_digit,
  hex_decode, verify,
}

-- The names of RFC 8945 for the algorithms.
abbrev pub algorithm_name : Hash → Bytes
algorithm_name sha1 = codes "hmac-sha1."
algorithm_name sha256 = codes "hmac-sha256."
algorithm_name sha384 = codes "hmac-sha384."
algorithm_name sha512 = codes "hmac-sha512."

-- Hexadecimal, lower case, as the DNS library stores a code.
abbrev hex_char : ℕ → ℕ
hex_char d = if ltb d 10 then d + 48 else d + 87

abbrev pub hex_encode : Bytes → Bytes
hex_encode [] = []
hex_encode (c ∷ s) = hex_char (c / 16) ∷ hex_char (c % 16) ∷ hex_encode s

-- A record that authenticates a message: its key is known, its algorithm is one of the four by its
-- name, and its code is, but for the case of the digits, the hexadecimal text of the HMAC of the
-- message under the secret of the key.
pub record IsAuthentic (names : NameLib) (hmac : Hmac) (p : HmacProvider) (msg : Bytes) (t : Tsig)
    : Type 0 where
  pub secret : Bytes
  pub hash : Hash
  pub known : lookup (to_lower t.name) p.keys ≡ some secret
  pub named : names.canonical_name t.algorithm ≡ algorithm_name hash
  pub matches : to_lower t.mac ≡ hex_encode (hmac hash secret msg)

hex_digit-hex_char : (d : ℕ) → d < 16 → hex_digit (hex_char d) ≡ some d
unfolding hex_digit
hex_digit-hex_char d h = ground arith

hex_digit_lower : (c d : ℕ) → hex_digit c ≡ some d → (lower c ≡ hex_char d) × (d < 16)
unfolding hex_digit lower
hex_digit_lower c d h = (ground arith, ground arith)

hex_digit-lower : (c d : ℕ) → d < 16 → lower c ≡ hex_char d → hex_digit c ≡ some d
unfolding hex_digit lower
hex_digit-lower c d small h = ground arith

hex_decode-hex_encode : (s : Bytes) → All (λ c. c < 256) s → hex_decode (hex_encode s) ≡ some s
unfolding hex_decode
hex_decode-hex_encode [] h = refl
hex_decode-hex_encode (c ∷ s) (hc, hs) =
    rw
      (
        hex_digit-hex_char (c / 16) (omega arith),
        hex_digit-hex_char (c % 16) (omega arith),
        hex_decode-hex_encode s hs,
      )
      (ground arith)

-- A text of hexadecimal digits is, in lower case, the encoding of what it decodes to.
hex_decode_lower : (m s : Bytes) → hex_decode m ≡ some s → to_lower m ≡ hex_encode s
unfolding hex_decode to_lower
hex_decode_lower [] [] h = refl
hex_decode_lower [] (c ∷ s) h = absurd (cc)
hex_decode_lower (a ∷ []) s h = absurd (cc)
hex_decode_lower (a ∷ b ∷ m) s h = elim (Option-cases (hex_digit a)) [
  | inl e ↦ absurd (ground arith)
  | inr (x, e) ↦ elim (Option-cases (hex_digit b)) [
    | inl f ↦ absurd (ground arith)
    | inr (y, f) ↦ elim (Option-cases (hex_decode m)) [
      | inl g ↦ absurd (ground arith)
      | inr (r, g) ↦
          let (la, sa) = hex_digit_lower a x e in
          let (lb, sb) = hex_digit_lower b y f in
          let made : s ≡ (x * 16 + y) ∷ r = ground arith in
          let high : (x * 16 + y) / 16 ≡ x = omega arith in
          let low : (x * 16 + y) % 16 ≡ y = omega arith in
          rw (made, high, low, la, lb, hex_decode_lower m r g) refl
    ]
  ]
]

hex_decode-lower :
    (m s : Bytes) → All (λ c. c < 256) s → to_lower m ≡ hex_encode s → hex_decode m ≡ some s
unfolding hex_decode to_lower
hex_decode-lower [] [] small h = refl
hex_decode-lower [] (c ∷ s) small h = absurd (cc)
hex_decode-lower (a ∷ m) [] small h = absurd (cc)
hex_decode-lower (a ∷ []) (c ∷ s) small h = absurd (ground arith)
hex_decode-lower (a ∷ b ∷ m) (c ∷ s) (hc, hs) h =
    rw
      (
        hex_digit-lower a (c / 16) (omega arith) (ground arith),
        hex_digit-lower b (c % 16) (omega arith) (ground arith),
        hex_decode-lower m s hs (ground arith),
      )
      (ground arith)

hash_for-name :
    (names : NameLib) (algo : Bytes) (hash : Hash)
    → names.canonical_name algo ≡ algorithm_name hash
    → hash_for names algo ≡ some hash
unfolding hash_for bytes_eq
hash_for-name names algo sha1 e = rw (e, hash_for) refl
hash_for-name names algo sha256 e = rw (e, hash_for) refl
hash_for-name names algo sha384 e = rw (e, hash_for) refl
hash_for-name names algo sha512 e = rw (e, hash_for) refl

name-hash_for :
    (names : NameLib) (algo : Bytes) (hash : Hash)
    → hash_for names algo ≡ some hash
    → names.canonical_name algo ≡ algorithm_name hash
unfolding hash_for
name-hash_for names algo hash e =
    let c = names.canonical_name algo in
    let made : (h : Hash)
        → some hash ≡ some h
        → bytes_eq c (algorithm_name h) ≡ true
        → c ≡ algorithm_name hash =
      λ h f same.
        (bytes_eq_iff c (algorithm_name h)).0 same ∙ ap algorithm_name (ground (arith, f)) in
    elim (Bool-cases (bytes_eq c (codes "hmac-sha1."))) [
      | inl a ↦ made sha1 (ground arith) a
      | inr a ↦ elim (Bool-cases (bytes_eq c (codes "hmac-sha256."))) [
        | inl b ↦ made sha256 (ground arith) b
        | inr b ↦ elim (Bool-cases (bytes_eq c (codes "hmac-sha384."))) [
          | inl d ↦ made sha384 (ground arith) d
          | inr d ↦ elim (Bool-cases (bytes_eq c (codes "hmac-sha512."))) [
            | inl f ↦ made sha512 (ground arith) f
            | inr f ↦ absurd (ground arith)
          ]
        ]
      ]
    ]

module _ (names : NameLib) (hmac : Hmac)
    (octets : (hash : Hash) (secret msg : Bytes) → All (λ c. c < 256) (hmac hash secret msg))
    (p : HmacProvider) (msg : Bytes) (t : Tsig) where
  verify_authentic : IsAuthentic names hmac p msg t → verify names hmac p msg t ≡ true
  unfolding verify generate
  verify_authentic a = ground (
    arith,
    a.known,
    hash_for-name names t.algorithm a.hash a.named,
    hex_decode-lower t.mac (hmac a.hash a.secret msg) (octets a.hash a.secret msg) a.matches,
    bytes_eq_iff (hmac a.hash a.secret msg) (hmac a.hash a.secret msg),
  )

  IsAuthentic-verify : verify names hmac p msg t ≡ true → IsAuthentic names hmac p msg t
  unfolding verify generate
  IsAuthentic-verify h = elim (Option-cases (lookup (to_lower t.name) p.keys)) [
    | inl e ↦ absurd (ground arith)
    | inr (secret, e) ↦ elim (Option-cases (hash_for names t.algorithm)) [
      | inl f ↦ absurd (ground arith)
      | inr (hash, f) ↦ elim (Option-cases (hex_decode t.mac)) [
        | inl g ↦ absurd (ground arith)
        | inr (mac, g) ↦
            let same : mac ≡ hmac hash secret msg =
              ground (arith, bytes_eq_iff (hmac hash secret msg) mac) in
            record {
              secret = secret;
              hash = hash;
              known = e;
              named = name-hash_for names t.algorithm hash f;
              matches = hex_decode_lower t.mac mac g ∙ ap hex_encode same;
            }
      ]
    ]
  ]

  -- With an HMAC that gives octets: Verify accepts a message exactly if its TSIG record names a known
  -- key and, by its canonical name, one of the four HMAC algorithms, and carries in hexadecimal, in
  -- either case, the HMAC of the message by that algorithm under the secret of the key.
  pub verify_iff : (verify names hmac p msg t ≡ true) ↔ IsAuthentic names hmac p msg t
  verify_iff = (IsAuthentic-verify, verify_authentic)

-- What Generate computes for a message, Verify accepts, if the code is of bytes.
pub verify-generate :
    (names : NameLib) (hmac : Hmac) (p : HmacProvider) (msg : Bytes) (t : Tsig) (mac : Bytes)
    → generate names hmac p msg t ≡ some mac
    → All (λ c. c < 256) mac
    → verify names hmac p msg (record t { mac = hex_encode mac }) ≡ true
unfolding verify generate
verify-generate names hmac p msg t mac made h =
    ground (arith, hex_decode-hex_encode mac h, bytes_eq_iff mac mac)
