-- ===== src/Auth/Provider.antt =====
-- The provider that buildTSIG makes of inline keys.
use contractdb.Base.{
  ℕ, ◌<◌, append_assoc, true, false, Option, none, some, List, [], ◌∷◌, ◌++◌, Bytes, bytes_eq,
  bytes_eq_iff, is_empty, map, All, ◌≡◌, ◌≢◌, inl, inr, refl, sym, ap, subst, ◌∙◌, arith,
  Bool-cases, Option-cases,
}
use contractdb.Assoc.{lookup, insert, bytes_key, Distinct, lookup-insert, insert-Distinct}
use contractdb.Base64.{encode, std_encoding}
use contractdb.Base64.RoundTrip.{decode_string-encode}
use contractdb.Dns.{NameLib}
use contractdb.Text.Space.{has_byte}
use contractdb.Text.{join}
use contractdb.Auth.{
  comma, Keys, HmacProvider, secret_of, add_keys, new_hmac_provider, colon, load_tsig_keys,
  build_tsig,
}
use contractdb.Auth.Keys.{entry, spec_of, IsListable, loaded, load_inline-spec_of}

-- Different names of the map have different canonical names.
abbrev pub Canonical : NameLib → Keys → Type 0
Canonical names keys =
    (m n r s : Bytes)
    → lookup m keys ≡ some r
    → lookup n keys ≡ some s
    → names.canonical_name m ≡ names.canonical_name n
    → m ≡ n

module _ (names : NameLib) where
  -- No name of the map has the canonical name `c`.
  abbrev Avoids : Bytes → Keys → Type 0
  Avoids c keys = (m r : Bytes) → lookup m keys ≡ some r → names.canonical_name m ≢ c

  lookup-tail :
      (m r j v : Bytes) (keys : Keys)
      → lookup j keys ≡ none
      → lookup m keys ≡ some r
      → lookup m ((j, v) ∷ keys) ≡ some r
  unfolding lookup
  lookup-tail m r j v keys new e = ground (arith, bytes_eq_iff j m)

  lookup-head : (j v : Bytes) (keys : Keys) → lookup j ((j, v) ∷ keys) ≡ some v
  unfolding lookup
  lookup-head j v keys = ground (arith, bytes_eq_iff j j)

  add_keys_avoiding :
      (c : Bytes) (keys : Keys) (p q : List (Bytes × Bytes))
      → Distinct keys
      → Avoids c keys
      → add_keys names keys p ≡ some q
      → lookup c q ≡ lookup c p
  unfolding add_keys
  add_keys_avoiding c [] p q d a e = ground arith
  add_keys_avoiding c ((j, v) ∷ keys) p q (new, d) a e = elim (Option-cases (secret_of v)) [
    | inl f ↦ absurd (ground arith)
    | inr (raw, f) ↦
        let p' = insert (names.canonical_name j) raw p in
        add_keys_avoiding c keys p' q d (λ m r h. a m r (lookup-tail m r j v keys new h))
          (ground arith)
        ∙ lookup-insert (names.canonical_name j) c raw p
        ∙ ground (arith, a j v (lookup-head j v keys), bytes_eq_iff (names.canonical_name j) c)
  ]

  lookup-add_keys :
      (keys : Keys) (p q : List (Bytes × Bytes)) (n s : Bytes)
      → Distinct keys
      → Canonical names keys
      → lookup n keys ≡ some s
      → add_keys names keys p ≡ some q
      → lookup (names.canonical_name n) q ≡ secret_of s
  unfolding add_keys
  lookup-add_keys [] p q n s d c h e = absurd (unfold lookup in cc)
  lookup-add_keys ((j, v) ∷ keys) p q n s (new, d) c h e = elim (Option-cases (secret_of v)) [
    | inl f ↦ absurd (ground arith)
    | inr (raw, f) ↦
        let p' = insert (names.canonical_name j) raw p in
        elim (Bool-cases (bytes_eq j n)) [
          | inl same ↦
              add_keys_avoiding (names.canonical_name n) keys p' q d
                (λ m r hm eq.
                  let m_is = c m n r s (lookup-tail m r j v keys new hm) h eq in
                  cc (m_is, (bytes_eq_iff j n).0 same))
                (ground arith)
              ∙ lookup-insert (names.canonical_name j) (names.canonical_name n) raw p
              ∙ (unfold lookup in
                  ground (
                    arith,
                    f,
                    ap names.canonical_name ((bytes_eq_iff j n).0 same),
                    bytes_eq_iff (names.canonical_name j) (names.canonical_name n),
                  ))
          | inr other ↦
              lookup-add_keys keys p' q n s d
                (λ m k r t hm hk eq.
                  c m k r t (lookup-tail m r j v keys new hm) (lookup-tail k t j v keys new hk) eq)
                (unfold lookup in ground arith) (ground arith)
        ]
  ]

  -- Every secret of the map is valid.
  abbrev Valid : Keys → Type 0
  Valid keys = (m r : Bytes) → lookup m keys ≡ some r → (raw : Bytes) × (secret_of r ≡ some raw)

  add_keys_total :
      (keys : Keys) (p : List (Bytes × Bytes))
      → Distinct keys
      → Valid keys
      → (q : List (Bytes × Bytes)) × (add_keys names keys p ≡ some q)
  unfolding add_keys
  add_keys_total [] p d v = (p, refl)
  add_keys_total ((j, s) ∷ keys) p (new, d) v =
      let (raw, e) = v j s (lookup-head j s keys) in
      rw e (
        add_keys_total keys (insert (names.canonical_name j) raw p) d
          (λ m r h. v m r (lookup-tail m r j s keys new h)))

-- The value that the loop leaves under a name.
abbrev coded : Option Bytes → Option Bytes → Option Bytes
coded none old = old
coded (some raw) old = some (encode std_encoding raw)

lookup-loaded :
    (keys : List (Bytes × Bytes)) (m : Keys) (n : Bytes)
    → Distinct keys
    → lookup n (loaded keys m) ≡ coded (lookup n keys) (lookup n m)
unfolding lookup
lookup-loaded [] m n d = refl
lookup-loaded ((j, raw) ∷ keys) m n (new, d) =
    lookup-loaded keys (insert j (encode std_encoding raw) m) n d
    ∙ ground (arith, lookup-insert j n (encode std_encoding raw) m, bytes_eq_iff j n)

loaded-Distinct : (keys : List (Bytes × Bytes)) (m : Keys) → Distinct m → Distinct (loaded keys m)
loaded-Distinct [] m d = d
loaded-Distinct ((j, raw) ∷ keys) m d =
    loaded-Distinct keys (insert j (encode std_encoding raw) m)
      (insert-Distinct j (encode std_encoding raw) m d)

secret_of-encode :
    (raw : Bytes)
    → is_empty raw ≡ false
    → All (λ c. c < 256) raw
    → secret_of (encode std_encoding raw) ≡ some raw
unfolding secret_of
secret_of-encode raw ne h = rw (decode_string-encode std_encoding raw h, ne) refl

lookup-IsListable :
    (keys : List (Bytes × Bytes)) (n raw : Bytes)
    → All IsListable keys
    → lookup n keys ≡ some raw
    → (is_empty raw ≡ false) × All (λ c. c < 256) raw
unfolding lookup
lookup-IsListable [] n raw h e = absurd (cc)
lookup-IsListable ((j, s) ∷ keys) n raw (hk, hs) e = elim (Bool-cases (bytes_eq j n)) [
  | inl same ↦
      let eq : s ≡ raw = ground arith in
      subst (λ t. (is_empty t ≡ false) × All (λ c. c < 256) t) eq (hk.secret, hk.octets)
  | inr other ↦ lookup-IsListable keys n raw hs (ground arith)
]

has_byte-append : (b : ℕ) (s t : Bytes) → has_byte b (s ++ b ∷ t) ≡ true
unfolding has_byte
has_byte-append b [] t = ground arith
has_byte-append b (c ∷ s) t = ground (arith, has_byte-append b s t)

nonempty_of_byte : (b : ℕ) (s : Bytes) → has_byte b s ≡ true → is_empty s ≡ false
unfolding has_byte
nonempty_of_byte b [] h = absurd (cc)
nonempty_of_byte b (c ∷ s) h = refl

nonempty_of_lookup : (n r : Bytes) (m : Keys) → lookup n m ≡ some r → is_empty m ≡ false
unfolding lookup
nonempty_of_lookup n r [] h = absurd (cc)
nonempty_of_lookup n r (k ∷ m) h = refl

has_colon :
    (key : Bytes × Bytes) (keys : List (Bytes × Bytes))
    → has_byte colon (spec_of (key ∷ keys)) ≡ true
unfolding join
has_colon (name, raw) [] = has_byte-append colon name (encode std_encoding raw)
has_colon (name, raw) (key ∷ keys) =
    let rest = comma ∷ join comma (map entry (key ∷ keys)) in
    rw (append_assoc name (colon ∷ encode std_encoding raw) rest)
      (has_byte-append colon name (encode std_encoding raw ++ rest))

coded-some :
    (o : Option Bytes) (r : Bytes)
    → coded o none ≡ some r
    → (raw : Bytes) × (o ≡ some raw) × (r ≡ encode std_encoding raw)
coded-some none r h = absurd (cc)
coded-some (some raw) r h = (raw, refl, sym (ground arith))

module _ (names : NameLib) (key : Bytes × Bytes) (keys : List (Bytes × Bytes))
    (listable : All IsListable (key ∷ keys)) (distinct : Distinct (key ∷ keys))
    (canonical : Canonical names (key ∷ keys)) where
  abbrev all : List (Bytes × Bytes)
  all = key ∷ keys

  of_loaded :
      (m r : Bytes)
      → lookup m (loaded all []) ≡ some r
      → (raw : Bytes) × (lookup m all ≡ some raw) × (r ≡ encode std_encoding raw)
  unfolding lookup
  of_loaded m r h = coded-some (lookup m all) r (sym (lookup-loaded all [] m distinct) ∙ h)

  loaded-Canonical : Canonical names (loaded all [])
  loaded-Canonical m n r s hm hn e =
      let (raw, a, _) = of_loaded m r hm in
      let (raw', b, _) = of_loaded n s hn in canonical m n raw raw' a b e

  loaded-Valid : Valid names (loaded all [])
  loaded-Valid m r h =
      let (raw, a, e) = of_loaded m r h in
      let (ne, octets) = lookup-IsListable all m raw listable a in
      (raw, subst (λ t. secret_of t ≡ some raw) (sym e) (secret_of-encode raw ne octets))

  -- Keys that are given inline, each as its name, a colon and its secret in base64, and between them
  -- commas: buildTSIG makes a provider that has each secret under the canonical name of its key. The
  -- names are distinct, also as canonical names, and have no comma, colon or white space; no name and
  -- no secret is empty. No file has the specification as its path.
  pub build_tsig-spec_of :
      (read_file : Bytes → Option Bytes) (name raw : Bytes)
      → lookup name (key ∷ keys) ≡ some raw
      → read_file (spec_of (key ∷ keys)) ≡ none
      → (p : HmacProvider) × (build_tsig names read_file (spec_of (key ∷ keys)) ≡ some (some p))
        × (lookup (names.canonical_name name) p.keys ≡ some raw)
  unfolding build_tsig load_tsig_keys new_hmac_provider
  build_tsig-spec_of read_file name raw found no_file =
      let d = loaded-Distinct all [] tt in
      let (q, made) = add_keys_total names (loaded all []) [] d loaded-Valid in
      let here : lookup name (loaded all []) ≡ some (encode std_encoding raw) =
        lookup-loaded all [] name distinct ∙ ap (λ o. coded o (lookup name [])) found in
      let colons = has_colon key keys in
      let (ne, octets) = lookup-IsListable all name raw listable found in
      (
        record { keys = q },
        rw
            (
              nonempty_of_byte colon (spec_of all) colons,
              colons,
              load_inline-spec_of key keys listable,
              nonempty_of_lookup name (encode std_encoding raw) (loaded all []) here,
              made,
            )
            refl,
        lookup-add_keys names (loaded all []) [] q name (encode std_encoding raw) d loaded-Canonical
              here made
            ∙ secret_of-encode raw ne octets,
      )
