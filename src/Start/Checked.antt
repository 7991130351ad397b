-- ===== src/Start/Checked.antt =====
-- What a configuration that passes the checks is.
use contractdb.Base.{
  ℕ, ◌<◌, Bool, true, false, ◌&&◌, ◌||◌, not, Option, some, List, [], ◌∷◌, Bytes, codes, bytes_eq,
  bytes_eq_iff, is_empty, All, ◌≡◌, ◌≢◌, ◌⊎◌, ◌↔◌, inl, inr, refl, subst, arith, Bool-cases,
  Option-cases, if◌then◌else◌,
}
use contractdb.Assoc.{insert, remove, bytes_key}
use contractdb.Dns.{NameLib}
use contractdb.Journal.{u32_mod}
use contractdb.Text.{to_lower, split}
use contractdb.Text.Laws.{to_lower_idem}
use contractdb.Text.Space.{trim_space, cut, has_byte}
use contractdb.Start.{
  FileConfig, Flags, Settings, Exit, invalid_zone, invalid_auth, needs_keys, tls_halves, invalid_ip,
  no_table, Outcome, exits, done, pick, final_ttl, final_gsis, positive, period, file_gsis,
  gsi_pair, flag_gsis,
}
use contractdb.Start.Configure.{
  tsig_required, one_is_empty, settings, is_zone, with_gsis, checks, configure,
}

-- An index has a name of one label, and an attribute.
abbrev pub IsIndex : Bytes × Bytes → Type 0
IsIndex (idx, attribute) = (idx ≢ []) × (has_byte period idx ≡ false) × (attribute ≢ [])

final_ttl-bounds :
    (file_ttl flag_ttl : ℕ) (env_ttl : Bytes)
    → file_ttl < u32_mod
    → (0 < final_ttl file_ttl env_ttl flag_ttl) × (final_ttl file_ttl env_ttl flag_ttl < u32_mod)
unfolding final_ttl
final_ttl-bounds file_ttl flag_ttl env_ttl small = elim (Option-cases (positive env_ttl)) [
  | inl e ↦ (ground arith, ground arith)
  | inr (n, e) ↦ (ground arith, ground arith)
]

remove-IsIndex :
    (k : Bytes) (gs : List (Bytes × Bytes)) → All IsIndex gs → All IsIndex (remove k gs)
unfolding remove
remove-IsIndex k [] h = h
remove-IsIndex k ((j, v) ∷ gs) (h, hs) = elim (Bool-cases (bytes_eq j k)) [
  | inl e ↦ rw e (remove-IsIndex k gs hs)
  | inr e ↦ rw e (h, remove-IsIndex k gs hs)
]

insert-IsIndex :
    (k v : Bytes) (gs : List (Bytes × Bytes))
    → All IsIndex gs
    → (has_byte period k || is_empty k || is_empty v) ≡ false
    → All IsIndex (insert k v gs)
unfolding insert
insert-IsIndex k v gs h good =
    let named : k ≢ [] = λ e. absurd (ground arith) in
    let valued : v ≢ [] = λ e. absurd (ground arith) in
    ((named, ground arith, valued), remove-IsIndex k gs h)

file_gsis-IsIndex :
    (more gs gs' : List (Bytes × Bytes))
    → All IsIndex gs
    → file_gsis more gs ≡ some gs'
    → All IsIndex gs'
unfolding file_gsis
file_gsis-IsIndex [] gs gs' h e = let same : gs ≡ gs' = ground arith in subst (All IsIndex) same h
file_gsis-IsIndex ((k, v) ∷ more) gs gs' h e =
    let idx = to_lower (trim_space k) in
    elim (Bool-cases (has_byte period idx || is_empty idx || is_empty (trim_space v))) [
      | inl bad ↦ absurd (ground (arith, bad))
      | inr good ↦
          file_gsis-IsIndex more (insert idx (trim_space v) gs) gs'
            (insert-IsIndex idx (trim_space v) gs h good) (ground (arith, good))
    ]

gsi_pair-IsIndex :
    (pair k v : Bytes)
    → gsi_pair pair ≡ some (k, v)
    → (has_byte period k || is_empty k || is_empty v) ≡ false
unfolding gsi_pair
gsi_pair-IsIndex pair k v e = elim (Option-cases (cut b'=' pair)) [
  | inl f ↦ absurd (ground (arith, f))
  | inr ((k', v'), f) ↦ ground (arith, f)
]

flag_gsis-IsIndex :
    (pairs : List Bytes) (gs gs' : List (Bytes × Bytes))
    → All IsIndex gs
    → flag_gsis pairs gs ≡ some gs'
    → All IsIndex gs'
unfolding flag_gsis
flag_gsis-IsIndex [] gs gs' h e = let same : gs ≡ gs' = ground arith in subst (All IsIndex) same h
flag_gsis-IsIndex (pair ∷ pairs) gs gs' h e = elim (Option-cases (gsi_pair pair)) [
  | inl f ↦ absurd (ground (arith, f))
  | inr ((k, v), f) ↦
      flag_gsis-IsIndex pairs (insert k v gs) gs'
        (insert-IsIndex k v gs h (gsi_pair-IsIndex pair k v f)) (ground (arith, f))
]

final_gsis-IsIndex :
    (file_map gs : List (Bytes × Bytes)) (gsi_list : Bytes)
    → final_gsis file_map gsi_list ≡ some gs
    → All IsIndex gs
unfolding final_gsis
final_gsis-IsIndex file_map gs gsi_list e = elim (Option-cases (file_gsis file_map [])) [
  | inl f ↦ absurd (ground (arith, f))
  | inr (fs, f) ↦
      let from_file = file_gsis-IsIndex file_map [] fs tt f in
      elim (Bool-cases (is_empty gsi_list)) [
        | inl none_given ↦ let same : fs ≡ gs = ground arith in subst (All IsIndex) same from_file
        | inr given ↦ flag_gsis-IsIndex (split b',' gsi_list) fs gs from_file (ground arith)
      ]
]

-- A check that has been passed.
pub passed :
    {A : Type 0} (b : Bool) (x : Exit) (r : Outcome A) (a : A)
    → (if b then exits x else r) ≡ done a
    → (b ≡ false) × (r ≡ done a)
passed true x r a h = absurd (cc)
passed false x r a h = (refl, h)

halves_iff : (s t : Bytes) → one_is_empty s t ≡ false → (s ≡ []) ↔ (t ≡ [])
halves_iff [] [] h = (λ e. refl, λ e. refl)
halves_iff [] (d ∷ t) h = absurd (cc)
halves_iff (c ∷ s) [] h = absurd (cc)
halves_iff (c ∷ s) (d ∷ t) h = (λ e. absurd (cc), λ e. absurd (cc))

module _ (names : NameLib) (parse_ip : Bytes → Bool) (getenv : Bytes → Bytes) where
  pub record IsChecked (c : Settings) : Type 0 where
    pub zone : is_zone names parse_ip getenv c.zone ≡ true
    pub lower : to_lower c.zone ≡ c.zone
    pub auth : (c.auth_mode ≡ codes "open") ⊎ ((c.auth_mode ≡ tsig_required) × (c.tsig ≢ []))
    pub halves : (c.tls_cert ≡ []) ↔ (c.tls_key ≡ [])
    pub ip : parse_ip c.advertise_ip ≡ true
    pub ttl : (0 < c.ttl) × (c.ttl < u32_mod)
    pub gsis : All IsIndex c.gsis
    pub table : (c.use_demo ≡ true) ⊎ (c.table ≢ [])

  module _ (c c' : Settings) (gsis : Option (List (Bytes × Bytes))) where
    -- Each check passes, and the settings are left as they are, but for the indexes.
    record Passes : Type 0 where
      zone : is_zone names parse_ip getenv c.zone ≡ true
      auth :
          (not (bytes_eq c.auth_mode (codes "open")) && not (bytes_eq c.auth_mode tsig_required))
          ≡ false
      keys : (bytes_eq c.auth_mode tsig_required && is_empty c.tsig) ≡ false
      halves : one_is_empty c.tls_cert c.tls_key ≡ false
      ip : parse_ip c.advertise_ip ≡ true
      table : (not c.use_demo && is_empty c.table) ≡ false
      map : List (Bytes × Bytes)
      mapped : gsis ≡ some map
      same : record c { gsis = map } ≡ c'

    checks-Passes : checks names parse_ip getenv c gsis ≡ done c' → Passes
    unfolding checks with_gsis
    checks-Passes e =
        let (zone, e1) = passed (not (is_zone names parse_ip getenv c.zone)) invalid_zone _ c' e in
        let (auth, e2) =
          passed
            (not (bytes_eq c.auth_mode (codes "open")) && not (bytes_eq c.auth_mode tsig_required))
            invalid_auth _ c' e1 in
        let (keys, e3) =
          passed (bytes_eq c.auth_mode tsig_required && is_empty c.tsig) needs_keys _ c' e2 in
        let (halves, e4) = passed (one_is_empty c.tls_cert c.tls_key) tls_halves _ c' e3 in
        let (ip, e5) = passed (not (parse_ip c.advertise_ip)) invalid_ip _ c' e4 in
        elim (Option-cases gsis) [
          | inl f ↦ absurd (ground (arith, f))
          | inr (map, f) ↦
              let at : with_gsis names parse_ip getenv c (some map) ≡ done c' =
                subst (λ g. with_gsis names parse_ip getenv c g ≡ done c') f e5 in
              let (table, e6) = passed (not c.use_demo && is_empty c.table) no_table _ c' at in
              record {
                zone = ground arith;
                auth = auth;
                keys = keys;
                halves = halves;
                ip = ground arith;
                table = table;
                map = map;
                mapped = f;
                same = ground arith;
              }
        ]

    sound :
        (p : Passes)
        → to_lower c.zone ≡ c.zone
        → (0 < c.ttl) × (c.ttl < u32_mod)
        → All IsIndex p.map
        → IsChecked (record c { gsis = p.map })
    sound p lower ttl index = record {
      zone = p.zone;
      lower = lower;
      auth = elim (Bool-cases (bytes_eq c.auth_mode (codes "open"))) [
        | inl open_mode ↦ inl ((bytes_eq_iff c.auth_mode (codes "open")).0 open_mode)
        | inr other ↦
            let required : bytes_eq c.auth_mode tsig_required ≡ true =
              ground (arith, p.auth, other) in
            inr (
              (bytes_eq_iff c.auth_mode tsig_required).0 required,
              λ e. absurd (ground (arith, p.keys, required)),
            )
      ];
      halves = halves_iff c.tls_cert c.tls_key p.halves;
      ip = p.ip;
      ttl = ttl;
      gsis = index;
      table = elim (Bool-cases c.use_demo) [
        | inl demo ↦ inl demo
        | inr other ↦ inr (λ e. absurd (ground (arith, p.table, other)))
      ];
    }

  -- cmdServe goes on only with settings that are sound: the zone is a domain name in lower case and not
  -- the root; the mode is open, or tsig-required with keys named; certificate and key come together; the
  -- advertised address is one; the TTL fits 32 bits and is not 0; each index has one label and an
  -- attribute; and there is a table, but in demo mode. The TTL of the file must fit 32 bits.
  pub configure-IsChecked :
      (fl : Flags) (fc : FileConfig) (c : Settings)
      → fc.ttl < u32_mod
      → configure names parse_ip getenv fl fc ≡ done c
      → IsChecked c
  unfolding configure settings
  configure-IsChecked fl fc c small e =
      let base = settings names parse_ip getenv fl fc [] in
      let p = checks-Passes base c (final_gsis fc.gsis fl.gsi_list) e in
      subst IsChecked p.same (
        sound base c (final_gsis fc.gsis fl.gsi_list) p
          (to_lower_idem (
            names.fqdn (
              pick fl.zone (getenv (codes "CONTRACTDB_ZONE")) fc.zone
                (codes "contractdb.internal."))))
          (final_ttl-bounds fc.ttl fl.ttl (getenv (codes "CONTRACTDB_TTL")) small)
          (final_gsis-IsIndex fc.gsis p.map fl.gsi_list p.mapped))
