-- ===== src/Auth.antt =====
-- auth.go: the TSIG keys of the server, and the provider that signs and verifies with them.
pub mod Keys
pub mod Provider
pub mod Verify
use mathlib.Core.Option
use contractdb.Base.{
  ℕ, ◌+◌, ◌-◌, ◌*◌, Bool, true, false, ◌&&◌, ◌||◌, not, Option, none, some, List, [], ◌∷◌, Bytes,
  codes, bytes_eq, leb, ◌==◌, is_empty, if◌then◌else◌, ◌>>=◌,
}
use contractdb.Assoc.{lookup, insert, bytes_key}
use contractdb.Base64.{decode_string, std_encoding}
use contractdb.Dns.{NameLib}
use contractdb.Text.{to_lower, split, has_prefix}
use contractdb.Text.Space.{trim_space, fields, cut, has_byte}

-- A map of names to texts, in one of the orders in which Go may range over it.
abbrev pub Keys : Type 0
Keys = List (Bytes × Bytes)

-- The hash functions, and `hmac.New(newHash, secret)` fed with a message, of the standard library.
pub data Hash : Type 0 where
  sha1 sha256 sha384 sha512 : Hash

abbrev pub Hmac : Type 0
Hmac = Hash → Bytes → Bytes → Bytes

-- The two fields of a dns.TSIG that the provider reads beside the owner name.
pub record Tsig : Type 0 where
  pub name : Bytes
  pub algorithm : Bytes
  pub mac : Bytes

pub record HmacProvider : Type 0 where
  pub keys : List (Bytes × Bytes)

-- The secret of one entry: base64, and not empty.
unfoldable pub secret_of : Bytes → Option Bytes
secret_of secret = do
  raw ← decode_string std_encoding secret
  if is_empty raw then none else some raw

-- The loop of newHMACProvider, over the map in the order given.
unfoldable pub add_keys : NameLib → Keys → List (Bytes × Bytes) → Option (List (Bytes × Bytes))
add_keys names [] p = some p
add_keys names ((name, secret) ∷ keys) p = do
  raw ← secret_of secret
  add_keys names keys (insert (names.canonical_name name) raw p)

unfoldable pub new_hmac_provider : NameLib → Keys → Option HmacProvider
unfolding add_keys secret_of
new_hmac_provider names keys = Option.map (λ p. record { keys = p }) (add_keys names keys [])

abbrev pub comma : ℕ
comma = b','

abbrev pub colon : ℕ
colon = b':'

-- An entry `name:secret`.
unfoldable pub inline_entry : Bytes → Option (Bytes × Bytes)
inline_entry ent = do
  (name, secret) ← cut colon ent
  if is_empty name || is_empty secret then none else some (trim_space name, trim_space secret)

unfoldable pub inline_loop : List Bytes → Keys → Option Keys
unfolding inline_entry
inline_loop [] keys = some keys
inline_loop (ent ∷ ents) keys = do
  (name, secret) ← inline_entry ent
  inline_loop ents (insert name secret keys)

unfoldable pub load_tsig_keys_inline : Bytes → Option Keys
unfolding inline_loop
load_tsig_keys_inline spec = inline_loop (split comma spec) []

-- `fields[0]` and `fields[1]`, if there are two
abbrev pub pair_of_fields : List Bytes → Option (Bytes × Bytes)
pair_of_fields (name ∷ secret ∷ []) = some (name, secret)
pair_of_fields _ = none

-- The loop over the lines: a blank line or a comment is passed over.
unfoldable pub file_loop : List Bytes → Keys → Option Keys
file_loop [] keys = some keys
file_loop (l ∷ lines) keys =
    let line = trim_space l in
    let skip = file_loop lines keys in
    let add =
      (pair_of_fields (fields line) >>= λ (name, secret).
      file_loop lines (insert name secret keys)) in
    if is_empty line || has_prefix line (codes "#") then skip else add

-- The file's text, or `none` if it cannot be read.
unfoldable pub load_tsig_key_file : Option Bytes → Option Keys
unfolding file_loop
load_tsig_key_file text = do t ← text; file_loop (split b'\n' t) []

-- `read_file` is os.ReadFile.
unfoldable pub load_tsig_keys : (Bytes → Option Bytes) → Bytes → Option Keys
load_tsig_keys read_file spec =
    if has_byte colon spec then load_tsig_keys_inline spec else load_tsig_key_file (read_file spec)

-- buildTSIG of main.go: `some none` is a nil provider without an error.
unfoldable pub build_tsig : NameLib → (Bytes → Option Bytes) → Bytes → Option (Option HmacProvider)
build_tsig names read_file spec =
    let loaded =
      (load_tsig_keys read_file spec >>= λ keys.
      if is_empty keys then some none else Option.map some (new_hmac_provider names keys)) in
    if is_empty spec then some none else loaded

unfoldable pub hash_for : NameLib → Bytes → Option Hash
unfolding bytes_eq
hash_for names algo =
    let c = names.canonical_name algo in
    if bytes_eq c (codes "hmac-sha1.")
    then some sha1
    else if bytes_eq c (codes "hmac-sha256.")
    then some sha256
    else if bytes_eq c (codes "hmac-sha384.")
    then some sha384
    else if bytes_eq c (codes "hmac-sha512.")
    then some sha512
    else none

unfoldable pub generate : NameLib → Hmac → HmacProvider → Bytes → Tsig → Option Bytes
generate names hmac p msg t = do
  secret ← lookup (to_lower t.name) p.keys
  hash ← hash_for names t.algorithm
  some (hmac hash secret msg)

-- encoding/hex
unfoldable pub hex_digit : ℕ → Option ℕ
hex_digit c =
    if leb b'0' c && leb c b'9'
    then some (c - 48)
    else if leb b'a' c && leb c b'f'
    then some (c - 87)
    else if leb b'A' c && leb c b'F'
    then some (c - 55)
    else none

unfoldable pub hex_decode : Bytes → Option Bytes
unfolding hex_digit
hex_decode [] = some []
hex_decode (a ∷ []) = none
hex_decode (a ∷ b ∷ s) = do
  x ← hex_digit a
  y ← hex_digit b
  rest ← hex_decode s
  some ((x * 16 + y) ∷ rest)

-- Whether Verify returns no error.
unfoldable pub verify : NameLib → Hmac → HmacProvider → Bytes → Tsig → Bool
verify names hmac p msg t = elim (hex_decode t.mac) [
  | none ↦ false
  | some mac ↦ elim (generate names hmac p msg t) [
    | none ↦ false
    | some expected ↦ bytes_eq expected mac
  ]
]
