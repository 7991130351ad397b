-- ===== src/Start.antt =====
-- main.go: the configuration of the server, from flags, the environment and the file.
pub mod Commands
pub mod Configure
pub mod Server
pub mod Stores
pub mod Health
pub mod Checked
pub mod Running
pub mod Pidfile
pub mod Stopping
use contractdb.Base.{
  ℕ, ◌+◌, ◌-◌, ◌*◌, ◌%◌, Bool, true, false, ◌&&◌, ◌||◌, not, Option, none, some, List, [], ◌∷◌,
  Bytes, codes, bytes_eq, ltb, leb, ◌==◌, is_empty, if◌then◌else◌,
}
use contractdb.Assoc.{insert, bytes_key}
use contractdb.Dns.{NameLib}
use contractdb.Journal.{u32_mod}
use contractdb.Text.{to_lower, split}
use contractdb.Text.Decimal.{ℤ, pos, negsuc, atoi}
use contractdb.Text.Space.{trim_space, cut, has_byte}

-- FileConfig, its sections side by side; the maps in the order in which a loop takes them.
pub record FileConfig : Type 0 where
  pub listen : Bytes
  pub zone : Bytes
  pub ttl : ℕ
  pub advertise_ip : Bytes
  pub pidfile : Bytes
  pub table : Bytes
  pub pk_attr : Bytes
  pub endpoint : Bytes
  pub consistent : Bool
  pub gsis : List (Bytes × Bytes)
  pub demo_enabled : Bool
  pub auth_mode : Bytes
  pub tsig_keys_file : Bytes
  pub notifiees : List Bytes
  pub dnssec_enabled : Bool
  pub key_dir : Bytes
  pub doh_listen : Bytes
  pub doh_cert : Bytes
  pub doh_key : Bytes

-- The flags of serve.
pub record Flags : Type 0 where
  pub addr : Bytes
  pub zone : Bytes
  pub table : Bytes
  pub pk_attr : Bytes
  pub ttl : ℕ
  pub endpoint : Bytes
  pub consistent : Bool
  pub demo : Bool
  pub gsi_list : Bytes
  pub auth_mode : Bytes
  pub tsig_keys : Bytes
  pub notify_list : Bytes
  pub dnssec_dir : Bytes
  pub doh_addr : Bytes
  pub tls_cert : Bytes
  pub tls_key : Bytes
  pub pidfile : Bytes

-- What the configuration settles on.
pub record Settings : Type 0 where
  pub addr : Bytes
  pub zone : Bytes
  pub pk_attr : Bytes
  pub table : Bytes
  pub endpoint : Bytes
  pub auth_mode : Bytes
  pub tsig : Bytes
  pub doh : Bytes
  pub tls_cert : Bytes
  pub tls_key : Bytes
  pub consistent : Bool
  pub use_demo : Bool
  pub advertise_ip : Bytes
  pub ttl : ℕ
  pub gsis : List (Bytes × Bytes)

-- Where the program ends before it serves: the calls of fatalUsage, then those of log.Fatal.
pub data Exit : Type 0 where
  invalid_zone invalid_auth needs_keys tls_halves invalid_ip invalid_gsi no_table : Exit
  aws_failed tsig_failed no_valid_key dnssec_failed tls_failed : Exit

pub data Outcome (A : Type 0) : Type 0 where
  exits : Exit → Outcome A
  done : A → Outcome A

unfoldable pub first_non_empty : List Bytes → Bytes
first_non_empty [] = []
first_non_empty (v ∷ vs) = if is_empty v then first_non_empty vs else v

-- `pick`, in the order of its arguments
unfoldable pub pick : Bytes → Bytes → Bytes → Bytes → Bytes
pick flag_val env_val file_val default =
    if not (is_empty flag_val)
    then flag_val
    else if not (is_empty env_val)
    then env_val
    else if not (is_empty file_val)
    then file_val
    else default

-- `getenv` is os.Getenv: empty for a variable that is not set.
abbrev pub env_or : (Bytes → Bytes) → Bytes → Bytes → Bytes
env_or getenv key default = if is_empty (getenv key) then default else getenv key

abbrev of_sign : ℤ → Option ℕ
of_sign (pos n) = if ltb 0 n then some n else none
of_sign (negsuc n) = none

-- strconv.Atoi, for the numbers above 0; another number or an error is `none`.
unfoldable pub positive : Bytes → Option ℕ
positive v = elim (atoi v) [ none ↦ none | some i ↦ of_sign i ]

abbrev default_to : ℕ → ℕ → ℕ
default_to d n = if n == 0 then d else n

-- cfgTTL: the file's, then CONTRACTDB_TTL, then the flag, then 5
unfoldable pub final_ttl : ℕ → Bytes → ℕ → ℕ
unfolding positive
final_ttl file_ttl env_ttl flag_ttl =
    let from_env : ℕ = elim (positive env_ttl) [ none ↦ file_ttl | some n ↦ n % u32_mod ] in
    default_to 5 (if ltb 0 flag_ttl then flag_ttl % u32_mod else from_env)

abbrev pub period : ℕ
period = b'.'

-- The mappings of the file. `none` is the usage error.
unfoldable pub file_gsis :
    List (Bytes × Bytes) → List (Bytes × Bytes) → Option (List (Bytes × Bytes))
file_gsis [] gsis = some gsis
file_gsis ((k, v) ∷ more) gsis =
    let idx = to_lower (trim_space k) in
    let attribute = trim_space v in
    let rest = file_gsis more (insert idx attribute gsis) in
    if has_byte period idx || is_empty idx || is_empty attribute then none else rest

-- A pair of -gsi
unfoldable pub gsi_pair : Bytes → Option (Bytes × Bytes)
gsi_pair pair = elim (cut b'=' pair) [
  | none ↦ none
  | some (k, v) ↦
      if is_empty (to_lower (trim_space k))
        || is_empty (trim_space v)
        || has_byte period (to_lower (trim_space k))
      then none
      else some (to_lower (trim_space k), trim_space v)
]

unfoldable pub flag_gsis : List Bytes → List (Bytes × Bytes) → Option (List (Bytes × Bytes))
unfolding gsi_pair
flag_gsis [] gsis = some gsis
flag_gsis (pair ∷ pairs) gsis = elim (gsi_pair pair) [
  | none ↦ none
  | some (idx, attribute) ↦ flag_gsis pairs (insert idx attribute gsis)
]

-- The map `gsis`
unfoldable pub final_gsis : List (Bytes × Bytes) → Bytes → Option (List (Bytes × Bytes))
unfolding file_gsis flag_gsis
final_gsis file_map gsi_list = elim (file_gsis file_map []) [
  | none ↦ none
  | some gsis ↦ if is_empty gsi_list then some gsis else flag_gsis (split b',' gsi_list) gsis
]
