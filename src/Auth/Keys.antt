-- ===== src/Auth/Keys.antt =====
-- Inline key specifications, from the text to the keys of the provider.
use contractdb.Base.{
  ℕ, ◌+◌, ◌*◌, ◌/◌, ◌%◌, ◌<◌, false, some, List, [], ◌∷◌, ◌++◌, Bytes, is_empty, map, All,
  All-append, ◌≡◌, ◌≢◌, refl, arith,
}
use contractdb.Assoc.{insert, bytes_key}
use contractdb.Base64.{alpha, encode, std_encoding, pad}
use contractdb.Text.{join}
use contractdb.Text.Space.{is_space}
use contractdb.Text.Cutting.{Lacks, LacksSpace, split-join, cut-append, trim_space_lacks}
use contractdb.Auth.{Keys, comma, colon, inline_entry, inline_loop, load_tsig_keys_inline}

-- A key as its owner has it, a name and a secret, and how it stands in a specification.
abbrev pub entry : Bytes × Bytes → Bytes
entry (name, raw) = name ++ colon ∷ encode std_encoding raw

abbrev pub spec_of : List (Bytes × Bytes) → Bytes
spec_of keys = join comma (map entry keys)

-- A key that can be listed: its name is not empty and has no comma, colon or white space, its secret
-- is not empty.
pub record IsListable (key : Bytes × Bytes) : Type 0 where
  pub named : is_empty key.0 ≡ false
  pub no_comma : Lacks comma key.0
  pub no_colon : Lacks colon key.0
  pub no_space : LacksSpace key.0
  pub secret : is_empty key.1 ≡ false
  pub octets : All (λ c. c < 256) key.1

abbrev Plain : ℕ → Type 0
Plain c = (c ≢ comma) × (is_space c ≡ false)

alpha-Plain : (d : ℕ) → d < 64 → Plain (alpha std_encoding d)
unfolding alpha
alpha-Plain d h = (ground arith, ground arith)

pad-Plain : Plain pad
pad-Plain = (omega arith, refl)

encode-Plain : (s : Bytes) → All (λ c. c < 256) s → All Plain (encode std_encoding s)
unfolding encode
encode-Plain [] h = tt
encode-Plain (a ∷ []) (ha, _) = (
  alpha-Plain (a / 4) (omega arith),
  (alpha-Plain (a % 4 * 16) (omega arith), (pad-Plain, (pad-Plain, tt))),
)
encode-Plain (a ∷ b ∷ []) (ha, (hb, _)) = (
  alpha-Plain (a / 4) (omega arith),
  (
    alpha-Plain (a % 4 * 16 + b / 16) (omega arith),
    (alpha-Plain (b % 16 * 4) (omega arith), (pad-Plain, tt)),
  ),
)
encode-Plain (a ∷ b ∷ c ∷ s) (ha, (hb, (hc, hs))) = (
  alpha-Plain (a / 4) (omega arith),
  (
    alpha-Plain (a % 4 * 16 + b / 16) (omega arith),
    (
      alpha-Plain (b % 16 * 4 + c / 64) (omega arith),
      (alpha-Plain (c % 64) (omega arith), encode-Plain s hs),
    ),
  ),
)

Plain-Lacks : (s : Bytes) → All Plain s → Lacks comma s
Plain-Lacks [] h = tt
Plain-Lacks (c ∷ s) (hc, hs) = (hc.0, Plain-Lacks s hs)

Plain-LacksSpace : (s : Bytes) → All Plain s → LacksSpace s
Plain-LacksSpace [] h = tt
Plain-LacksSpace (c ∷ s) (hc, hs) = (hc.1, Plain-LacksSpace s hs)

encode-nonempty : (s : Bytes) → is_empty s ≡ false → is_empty (encode std_encoding s) ≡ false
unfolding encode
encode-nonempty [] h = h
encode-nonempty (a ∷ []) h = refl
encode-nonempty (a ∷ b ∷ []) h = refl
encode-nonempty (a ∷ b ∷ c ∷ s) h = refl

entry-Lacks : (key : Bytes × Bytes) → IsListable key → Lacks comma (entry key)
entry-Lacks (name, raw) l =
    All-append (λ c. c ≢ comma) name (colon ∷ encode std_encoding raw) l.no_comma
      (omega arith, Plain-Lacks (encode std_encoding raw) (encode-Plain raw l.octets))

inline_entry-entry :
    (key : Bytes × Bytes)
    → IsListable key
    → inline_entry (entry key) ≡ some (key.0, encode std_encoding key.1)
unfolding inline_entry
inline_entry-entry (name, raw) l =
    let coded = encode std_encoding raw in
    rw (cut-append colon name coded l.no_colon, l.named, encode-nonempty raw l.secret)
      (rw
        (
          trim_space_lacks name l.no_space,
          trim_space_lacks coded (Plain-LacksSpace coded (encode-Plain raw l.octets)),
        )
        refl)

-- The map of the loop, from the keys.
abbrev pub loaded : List (Bytes × Bytes) → Keys → Keys
loaded [] m = m
loaded (key ∷ keys) m = loaded keys (insert key.0 (encode std_encoding key.1) m)

inline_loop-entries :
    (keys : List (Bytes × Bytes)) (m : Keys)
    → All IsListable keys
    → inline_loop (map entry keys) m ≡ some (loaded keys m)
unfolding inline_loop
inline_loop-entries [] m h = refl
inline_loop-entries (key ∷ keys) m (hk, hs) =
    rw (inline_entry-entry key hk)
      (inline_loop-entries keys (insert key.0 (encode std_encoding key.1) m) hs)

entries-Lacks :
    (keys : List (Bytes × Bytes)) → All IsListable keys → All (Lacks comma) (map entry keys)
entries-Lacks [] h = tt
entries-Lacks (key ∷ keys) (hk, hs) = (entry-Lacks key hk, entries-Lacks keys hs)

pub load_inline-spec_of :
    (key : Bytes × Bytes) (keys : List (Bytes × Bytes))
    → All IsListable (key ∷ keys)
    → load_tsig_keys_inline (spec_of (key ∷ keys)) ≡ some (loaded (key ∷ keys) [])
unfolding load_tsig_keys_inline
load_inline-spec_of key keys h =
    rw (split-join comma (entry key) (map entry keys) (entries-Lacks (key ∷ keys) h))
      (inline_loop-entries (key ∷ keys) [] h)
