-- ===== src/Dnssec/Keys.antt =====
-- NewOnlineSigner of dnssec.go: the key of a zone, made or loaded.
use mathlib.Core.Option
use contractdb.Base.{
  ℕ, ◌-◌, Bool, true, ◌&&◌, ◌||◌, Option, none, some, List, [], ◌∷◌, ◌++◌, Bytes, codes, bytes_eq,
  leb, ◌==◌, is_empty, length, take, ◌≡◌, if◌then◌else◌, ◌>>=◌,
}
use contractdb.Assoc.{lookup, insert, bytes_key}
use contractdb.Base64.{std_encoding, encode}
use contractdb.Dns.{Rr, Rrsig, Body, NameLib}
use contractdb.Dns.Kind
use contractdb.Dns.Class
use contractdb.Text.{to_lower, has_suffix}
use contractdb.Dnssec.{OnlineSigner}

-- The cryptography and the encodings that the program calls, over private keys `K`. `generate` gives a
-- private key and the public key field of its DNSKEY record; `join_path` is filepath.Join, `dir_of` is
-- filepath.Dir.
pub record KeyLib (K : Type 0) : Type 0 where
  pub generate : Option (K × Bytes)
  pub pem_decode : Bytes → Option (Bytes × Bytes)
  pub pem_encode : Bytes → Bytes → Bytes
  pub parse_private : Bytes → Option K
  pub marshal_private : K → Option Bytes
  pub is_p256 : K → Bool
  pub public_bytes : K → Option Bytes
  pub key_tag : Rr → ℕ
  pub sign_rrset : K → Rrsig → List Rr → Option Rr
  pub join_path : Bytes → Bytes → Bytes
  pub dir_of : Bytes → Bytes

-- The files: which cannot be read although they are there, which directories are there or can be made
-- by os.MkdirAll, which files can then be written, and what they hold.
pub record Files : Type 0 where
  pub unreadable : Bytes → Bool
  pub makable : Bytes → Bool
  pub writable : Bytes → Bool
  pub held : List (Bytes × Bytes)

-- sanitizeZone
unfoldable pub safe_char : ℕ → ℕ
safe_char r =
    if leb b'a' r && leb r b'z' || leb b'0' r && leb r b'9' || r == b'-' || r == b'.'
    then r
    else b'-'

unfoldable pub safe_chars : Bytes → Bytes
unfolding safe_char
safe_chars [] = []
safe_chars (c ∷ s) = safe_char c ∷ safe_chars s

abbrev pub trim_dot : Bytes → Bytes
trim_dot s = if has_suffix s (codes ".") then take (length s - 1) s else s

unfoldable pub sanitize_zone : Bytes → Bytes
unfolding safe_chars
sanitize_zone zone = safe_chars (trim_dot (to_lower zone))

abbrev pub pem_type : Bytes
pem_type = codes "EC PRIVATE KEY"

-- The public key field: the coordinates of an uncompressed point.
abbrev pub point : Bytes → Option Bytes
point [] = none
point (c ∷ xy) = if length (c ∷ xy) == 65 && c == 4 then some (encode std_encoding xy) else none

module _ {K : Type 0} (keys : KeyLib K) (names : NameLib) where
  -- The signer of a zone, a private key and a public key field.
  unfoldable pub signer_of : Bytes → K → Bytes → OnlineSigner
  signer_of zone priv public_key =
      let z = names.fqdn (to_lower zone) in
      let key : Rr = record {
        hdr = record { name = z; rrtype = Kind.dnskey; class = Class.inet; ttl = 0 };
        body = Body.dnskey public_key;
      } in
      record { zone = z; key = key; key_tag = keys.key_tag key; sign_rrset = keys.sign_rrset priv }

  unfoldable pub load_pem : Bytes → Bytes → Option OnlineSigner
  unfolding signer_of
  load_pem zone text = do
    (kind, der) ← keys.pem_decode text
    priv ← if bytes_eq kind pem_type then keys.parse_private der else none
    public_bytes ← if keys.is_p256 priv then keys.public_bytes priv else none
    public_key ← point public_bytes
    some (signer_of zone priv public_key)

  -- The text that savePEM writes
  unfoldable pub saved_pem : K → Option Bytes
  saved_pem priv = do der ← keys.marshal_private priv; some (keys.pem_encode pem_type der)

  unfoldable pub save_pem : Files → Bytes → K → Option Files
  unfolding saved_pem
  save_pem files path priv = do
    text ← saved_pem priv
    let written =
        (if files.writable path
          then some (record files { held = insert path text files.held })
          else none)
    if files.makable (keys.dir_of path) then written else none

  -- generate, and savePEM for a path
  unfoldable pub fresh : Files → Bytes → Option Bytes → Option (OnlineSigner × Files)
  unfolding save_pem signer_of
  fresh files zone path = do
    (priv, public_key) ← keys.generate
    after ← elim path as (λ p. Option Files) [ none ↦ some files | some p ↦ save_pem files p priv ]
    some (signer_of zone priv public_key, after)

  abbrev pub key_path : Bytes → Bytes → Bytes
  key_path zone dir = keys.join_path dir (sanitize_zone zone ++ codes ".key")

  -- The signer and the files behind the call.
  unfoldable pub new_online_signer : Files → Bytes → Bytes → Option (OnlineSigner × Files)
  unfolding load_pem fresh
  new_online_signer files zone key_dir =
      let path = key_path zone key_dir in
      if is_empty key_dir
      then fresh files zone none
      else if files.unreadable path
      then none
      else elim (lookup path files.held) [
        | none ↦ fresh files zone (some path)
        | some text ↦ Option.map (λ s. (s, files)) (load_pem zone text)
      ]

  -- What the key functions promise: PEM and the encoding of a private key can be read back, and a key
  -- that is generated is on the curve P-256 and has its public key field from its uncompressed point.
  pub record IsKeyLib : Type 0 where
    pub pem_back :
        (der : Bytes) → keys.pem_decode (keys.pem_encode pem_type der) ≡ some (pem_type, der)
    pub key_back :
        (k : K) (der : Bytes) → keys.marshal_private k ≡ some der → keys.parse_private der ≡ some k
    pub on_curve : (k : K) (p : Bytes) → keys.generate ≡ some (k, p) → keys.is_p256 k ≡ true
    pub from_point :
        (k : K) (p : Bytes)
        → keys.generate ≡ some (k, p)
        → (xy : Bytes) × (keys.public_bytes k ≡ some (4 ∷ xy))
          × (length xy ≡ 64)
          × (p ≡ encode std_encoding xy)
