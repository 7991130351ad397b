-- ===== src/Txt.antt =====
-- TXT character strings: chunkBytes of server.go and decodeTXTStrings of update.go.
pub mod Chunks
pub mod Decode
use mathlib.Core.Option
use contractdb.Base.{
  ℕ, zero, suc, ◌+◌, ◌-◌, ◌*◌, Bool, ◌&&◌, Option, none, some, List, [], ◌∷◌, ◌++◌, Bytes, ltb, leb,
  ◌==◌, length, take, drop, if◌then◌else◌, ◌>>=◌,
}

abbrev pub max_txt_chunk : ℕ
max_txt_chunk = 255

-- One round takes `c = b`, cut to `n` bytes. The rounds left are bounded by the bytes left: with
-- `n` positive each round takes at least one. (With `n` zero the source's loop does not end.)
unfoldable pub chunk_loop : ℕ → Bytes → ℕ → List Bytes
chunk_loop zero b n = []
chunk_loop (suc rounds) [] n = []
chunk_loop (suc rounds) (x ∷ b) n =
    let c = if ltb n (length (x ∷ b)) then take n (x ∷ b) else x ∷ b in
    c ∷ chunk_loop rounds (drop (length c) (x ∷ b)) n

unfoldable pub chunk_bytes : Bytes → ℕ → List Bytes
unfolding chunk_loop
chunk_bytes b n = chunk_loop (length b) b n

abbrev pub backslash : ℕ
backslash = b'\\'

abbrev pub is_digit : ℕ → Bool
is_digit c = leb b'0' c && leb c b'9'

-- strconv.Atoi of three digits
abbrev pub ddd : ℕ → ℕ → ℕ → ℕ
ddd x y z = (x - b'0') * 100 + (y - b'0') * 10 + (z - b'0')

abbrev pub write_byte : ℕ → Option Bytes → Option Bytes
write_byte c r = Option.map (λ out. c ∷ out) r

-- The inner loop, from index i on; the tests on `len(chunk)` are the patterns. `none` is ErrSyntax.
unfoldable pub decode_chunk : Bytes → Option Bytes
decode_chunk [] = some []
decode_chunk (c ∷ []) = if c == backslash then none else some (c ∷ [])
decode_chunk (c ∷ x ∷ []) =
    let plain = write_byte c (decode_chunk (x ∷ [])) in
    if c == backslash then some (x ∷ []) else plain
decode_chunk (c ∷ x ∷ y ∷ []) =
    let plain = write_byte c (decode_chunk (x ∷ y ∷ [])) in
    let escaped = write_byte x (decode_chunk (y ∷ [])) in if c == backslash then escaped else plain
decode_chunk (c ∷ x ∷ y ∷ z ∷ s) =
    let plain = write_byte c (decode_chunk (x ∷ y ∷ z ∷ s)) in
    let escaped = write_byte x (decode_chunk (y ∷ z ∷ s)) in
    let decimal = write_byte (ddd x y z) (decode_chunk s) in
    if c == backslash
    then (if is_digit x && (is_digit y && is_digit z)
        then (if ltb 255 (ddd x y z) then none else decimal)
        else escaped)
    else plain

unfoldable pub decode_txt_strings : List Bytes → Option Bytes
unfolding decode_chunk
decode_txt_strings [] = some []
decode_txt_strings (chunk ∷ chunks) = do
  d ← decode_chunk chunk
  rest ← decode_txt_strings chunks
  some (d ++ rest)
