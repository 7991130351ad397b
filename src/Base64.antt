-- ===== src/Base64.antt =====
-- Go's encoding/base64 as the program uses it: the alphabets of RFC 4648, sections 4 and 5, padded or
-- raw. The decoder drops CR and LF, reads quanta of four characters, and takes nothing behind the
-- padding; it does not look at the bits that the last quantum leaves over.
pub mod RoundTrip
use contractdb.Base.{
  ℕ, ◌+◌, ◌-◌, ◌*◌, ◌/◌, ◌%◌, Bool, true, false, ◌&&◌, not, Option, none, some, List, [], ◌∷◌, ◌++◌,
  Bytes, ltb, leb, ◌==◌, is_empty, if◌then◌else◌, ◌>>=◌,
}
use contractdb.Base32.{strip_newlines}

abbrev pub pad : ℕ
pad = b'='

-- An encoding: whether the alphabet is that of URLs, and whether it pads.
pub record Encoding : Type 0 where
  pub url : Bool
  pub padded : Bool

abbrev pub std_encoding : Encoding
std_encoding = record { url = false; padded = true }

abbrev pub url_encoding : Encoding
url_encoding = record { url = true; padded = true }

abbrev pub raw_url_encoding : Encoding
raw_url_encoding = record { url = true; padded = false }

-- A-Z, a-z, 0-9, and two that differ
unfoldable pub alpha : Encoding → ℕ → ℕ
alpha enc d =
    if ltb d 26
    then d + 65
    else if ltb d 52
    then d + 71
    else if ltb d 62
    then d - 4
    else if d == 62
    then (if enc.url then b'-' else b'+')
    else if enc.url
    then b'_'
    else b'/'

unfoldable pub digit : Encoding → ℕ → Option ℕ
digit enc c =
    if leb b'A' c && leb c b'Z'
    then some (c - 65)
    else if leb b'a' c && leb c b'z'
    then some (c - 71)
    else if leb b'0' c && leb c b'9'
    then some (c + 4)
    else if c == (if enc.url then b'-' else b'+')
    then some 62
    else if c == (if enc.url then b'_' else b'/')
    then some 63
    else none

abbrev pub padding : Encoding → Bytes → Bytes
padding enc p = if enc.padded then p else []

unfoldable pub encode : Encoding → Bytes → Bytes
unfolding alpha
encode enc [] = []
encode enc (a ∷ []) = alpha enc (a / 4) ∷ alpha enc (a % 4 * 16) ∷ padding enc (pad ∷ pad ∷ [])
encode enc (a ∷ b ∷ []) =
    alpha enc (a / 4)
    ∷ alpha enc (a % 4 * 16 + b / 16)
    ∷ alpha enc (b % 16 * 4)
    ∷ padding enc (pad ∷ [])
encode enc (a ∷ b ∷ c ∷ s) =
    alpha enc (a / 4)
    ∷ alpha enc (a % 4 * 16 + b / 16)
    ∷ alpha enc (b % 16 * 4 + c / 64)
    ∷ alpha enc (c % 64)
    ∷ encode enc s

-- The bytes of a quantum of two, three and four digits.
unfoldable pub pack2 : Encoding → ℕ → ℕ → Option Bytes
unfolding digit
pack2 enc a b = do x ← digit enc a; y ← digit enc b; some ((x * 4 + y / 16) ∷ [])

unfoldable pub pack3 : Encoding → ℕ → ℕ → ℕ → Option Bytes
unfolding digit
pack3 enc a b c = do
  x ← digit enc a
  y ← digit enc b
  z ← digit enc c
  some ((x * 4 + y / 16) ∷ (y % 16 * 16 + z / 4) ∷ [])

unfoldable pub pack4 : Encoding → ℕ → ℕ → ℕ → ℕ → Option Bytes
unfolding digit
pack4 enc a b c d = do
  x ← digit enc a
  y ← digit enc b
  z ← digit enc c
  w ← digit enc d
  some ((x * 4 + y / 16) ∷ (y % 16 * 16 + z / 4) ∷ (z % 4 * 64 + w) ∷ [])

-- The quanta of a text without line breaks. Padding is a third or fourth character of the last one.
unfoldable pub decode_quanta : Encoding → Bytes → Option Bytes
unfolding pack2 pack3 pack4
decode_quanta enc [] = some []
decode_quanta enc (a ∷ []) = none
decode_quanta enc (a ∷ b ∷ []) = if enc.padded then none else pack2 enc a b
decode_quanta enc (a ∷ b ∷ c ∷ []) = if enc.padded then none else pack3 enc a b c
decode_quanta enc (a ∷ b ∷ c ∷ d ∷ s) =
    let rest = decode_quanta enc s in
    if enc.padded && (d == pad && is_empty s)
    then (if c == pad then pack2 enc a b else pack3 enc a b c)
    else (pack4 enc a b c d >>= λ bytes. rest >>= λ more. some (bytes ++ more))

unfoldable pub decode_string : Encoding → Bytes → Option Bytes
unfolding decode_quanta strip_newlines
decode_string enc s = decode_quanta enc (strip_newlines s)
