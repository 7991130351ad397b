-- ===== src/Names.antt =====
-- parseKey and itemName of server.go: owner names below the zone stand for partition keys.
pub mod RoundTrip
use contractdb.Base.{
  ℕ, ◌-◌, ◌%◌, Bool, true, false, ◌&&◌, ◌||◌, not, Option, none, some, List, [], ◌∷◌, ◌++◌, Bytes,
  codes, is_empty, leb, ltb, ◌==◌, length, take, drop, replicate, if◌then◌else◌,
}
use contractdb.Base32.{encode, decode_string}
use contractdb.Text.{to_lower, to_upper, has_prefix, has_suffix, split, first_label}

abbrev pub dot : ℕ
dot = b'.'

abbrev pub k_dash : Bytes
k_dash = codes "k-"

-- `if pad := len(raw) % 8; pad != 0 { raw += strings.Repeat("=", 8-pad) }`
unfoldable pub pad_raw : Bytes → Bytes
pad_raw raw = if length raw % 8 == 0 then raw else raw ++ replicate (8 - length raw % 8) b'='

-- What stands in front of the zone, once it is there.
unfoldable pub key_of_rest : Bytes → Option Bytes
key_of_rest rest =
    let label = first_label (split dot rest) in
    if has_prefix label k_dash then decode_string (pad_raw (to_upper (drop 2 label))) else some rest

-- `("", false)` is `none`.
unfoldable pub parse_key : Bytes → Bytes → Option Bytes
parse_key zone qname =
    if not (has_suffix (to_lower qname) (dot ∷ zone))
    then none
    else let rest = take (length qname - length zone - 1) qname in
      if is_empty rest then none else key_of_rest rest

-- A byte that the loop over the runes of a part lets pass: any byte of a rune above ASCII fails.
unfoldable pub safe_byte : ℕ → Bool
safe_byte r = leb b'a' r && leb r b'z' || leb b'0' r && leb r b'9' || r == b'-'

unfoldable pub all_safe : Bytes → Bool
unfolding safe_byte
all_safe [] = true
all_safe (r ∷ s) = safe_byte r && all_safe s

last_byte : Bytes → ℕ
last_byte [] = 0
last_byte (c ∷ []) = c
last_byte (c ∷ d ∷ s) = last_byte (d ∷ s)

unfoldable pub safe_part : Bytes → Bool
unfolding all_safe last_byte
safe_part [] = false
safe_part (c ∷ s) =
    leb (length (c ∷ s)) 63
    && all_safe (c ∷ s)
    && not (c == b'-')
    && not (last_byte (c ∷ s) == b'-')

unfoldable pub safe_parts : List Bytes → Bool
unfolding safe_part
safe_parts [] = true
safe_parts (p ∷ ps) = safe_part p && safe_parts ps

-- The loop over the parts of a key: it survives as a dotted name.
unfoldable pub is_safe : Bytes → Bool
is_safe key = safe_parts (split dot key)

-- The argument `zone` is `h.cfg.Zone`.
unfoldable pub item_name : Bytes → Bytes → Bytes
item_name zone key =
    if is_empty key
    then zone
    else if is_safe key
    then key ++ dot ∷ zone
    else k_dash ++ to_lower (encode key) ++ dot ∷ zone
