-- ===== src/Base32.antt =====
-- Go's encoding/base32 `StdEncoding` (RFC 4648, padded), as parseKey and itemName of server.go use
-- it. The decoder drops CR and LF, reads quanta of eight characters, ends at the padding and does
-- not look behind it.
pub mod RoundTrip
use mathlib.Core.Option
use contractdb.Base.{
  ℕ, ◌+◌, ◌-◌, ◌*◌, ◌/◌, ◌%◌, Bool, true, false, ◌&&◌, ◌||◌, not, Option, none, some, List, [], ◌∷◌,
  ◌++◌, Bytes, ltb, leb, ◌==◌, length, take, if◌then◌else◌,
}

abbrev pub pad : ℕ
pad = b'='

-- A-Z, 2-7
unfoldable pub alpha : ℕ → ℕ
alpha d = if ltb d 26 then d + 65 else d + 24

unfoldable pub digit : ℕ → Option ℕ
digit c =
    if leb b'A' c && leb c b'Z'
    then some (c - 65)
    else if leb b'2' c && leb c b'7'
    then some (c - 24)
    else none

unfoldable pub encode : Bytes → Bytes
unfolding alpha
encode [] = []
encode (a ∷ []) = alpha (a / 8) ∷ alpha (a % 8 * 4) ∷ pad ∷ pad ∷ pad ∷ pad ∷ pad ∷ pad ∷ []
encode (a ∷ b ∷ []) =
    alpha (a / 8)
    ∷ alpha (a % 8 * 4 + b / 64)
    ∷ alpha (b / 2 % 32)
    ∷ alpha (b % 2 * 16)
    ∷ pad
    ∷ pad
    ∷ pad
    ∷ pad
    ∷ []
encode (a ∷ b ∷ c ∷ []) =
    alpha (a / 8)
    ∷ alpha (a % 8 * 4 + b / 64)
    ∷ alpha (b / 2 % 32)
    ∷ alpha (b % 2 * 16 + c / 16)
    ∷ alpha (c % 16 * 2)
    ∷ pad
    ∷ pad
    ∷ pad
    ∷ []
encode (a ∷ b ∷ c ∷ d ∷ []) =
    alpha (a / 8)
    ∷ alpha (a % 8 * 4 + b / 64)
    ∷ alpha (b / 2 % 32)
    ∷ alpha (b % 2 * 16 + c / 16)
    ∷ alpha (c % 16 * 2 + d / 128)
    ∷ alpha (d / 4 % 32)
    ∷ alpha (d % 4 * 8)
    ∷ pad
    ∷ []
encode (a ∷ b ∷ c ∷ d ∷ e ∷ s) =
    alpha (a / 8)
    ∷ alpha (a % 8 * 4 + b / 64)
    ∷ alpha (b / 2 % 32)
    ∷ alpha (b % 2 * 16 + c / 16)
    ∷ alpha (c % 16 * 2 + d / 128)
    ∷ alpha (d / 4 % 32)
    ∷ alpha (d % 4 * 8 + e / 32)
    ∷ alpha (e % 32)
    ∷ encode s

-- The bytes of a quantum of two, four, five, seven or eight digits.
unfoldable pub pack : List ℕ → Bytes
pack (a ∷ b ∷ []) = (a * 8 % 256 + b / 4) ∷ []
pack (a ∷ b ∷ c ∷ d ∷ []) = (a * 8 % 256 + b / 4) ∷ (b * 64 % 256 + c * 2 + d / 16) ∷ []
pack (a ∷ b ∷ c ∷ d ∷ e ∷ []) =
    (a * 8 % 256 + b / 4) ∷ (b * 64 % 256 + c * 2 + d / 16) ∷ (d * 16 % 256 + e / 2) ∷ []
pack (a ∷ b ∷ c ∷ d ∷ e ∷ f ∷ g ∷ []) =
    (a * 8 % 256 + b / 4)
    ∷ (b * 64 % 256 + c * 2 + d / 16)
    ∷ (d * 16 % 256 + e / 2)
    ∷ (e * 128 % 256 + f * 4 + g / 8)
    ∷ []
pack (a ∷ b ∷ c ∷ d ∷ e ∷ f ∷ g ∷ h ∷ []) =
    (a * 8 % 256 + b / 4)
    ∷ (b * 64 % 256 + c * 2 + d / 16)
    ∷ (d * 16 % 256 + e / 2)
    ∷ (e * 128 % 256 + f * 4 + g / 8)
    ∷ (g * 32 % 256 + h)
    ∷ []
pack _ = []

all_pad : Bytes → Bool
all_pad [] = true
all_pad (c ∷ s) = c == pad && all_pad s

-- The end of the input at a padding character behind the digits `buf`.
unfoldable pub finish : List ℕ → Bytes → Option Bytes
unfolding all_pad pack
finish buf src =
    if ltb (length src + length buf) 7
    then none
    else if not (all_pad (take (7 - length buf) src))
    then none
    else if length buf == 3 || length buf == 6
    then none
    else some (pack buf)

unfoldable pub decode_from : Bytes → List ℕ → Option Bytes
unfolding digit finish
decode_from [] [] = some []
decode_from [] (d ∷ ds) = none
decode_from (c ∷ src) buf =
    if c == pad && leb 2 (length buf) && ltb (length src) 8
    then finish buf src
    else elim (digit c) [
      | none ↦ none
      | some d ↦ elim (length buf == 7) [
        | true ↦ Option.map (λ rest. pack (buf ++ d ∷ []) ++ rest) (decode_from src [])
        | false ↦ decode_from src (buf ++ d ∷ [])
      ]
    ]

unfoldable pub strip_newlines : Bytes → Bytes
strip_newlines [] = []
strip_newlines (c ∷ s) =
    let rest = strip_newlines s in if c == b'\r' || c == b'\n' then rest else c ∷ rest

unfoldable pub decode_string : Bytes → Option Bytes
unfolding decode_from strip_newlines
decode_string s = decode_from (strip_newlines s) []
