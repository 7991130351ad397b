-- ===== src/Dnssec/Sign.antt =====
-- What Sign does to a response.
use contractdb.Base.{
  All, none, ℕ, Bool, true, false, ◌&&◌, ◌||◌, some, List, [], ◌∷◌, ◌++◌, bytes_eq, ◌==◌, is_empty,
  ◌≡◌, ◌≢◌, ◌⊎◌, inl, inr, refl, sym, ap, ◌∙◌, arith, subst, append-nil, Bool-cases, Option-cases,
  if◌then◌else◌,
}
use contractdb.Dns.{Rr, Msg, Question, DnsLib}
use contractdb.Text.{to_lower}
use contractdb.Dns.Rcode
use contractdb.Assoc.{lookup}
use contractdb.Dnssec.Groups.{rrset_eq, members, lookup-groups}
use contractdb.Dnssec.Sections.{sign_group-signed}
use contractdb.Dnssec.{
  OnlineSigner, IsSigner, RrsetKey, rrset_key, is_housekeeping, group_loop, has_rrsig, wants_dnssec,
  response_ttl, signature_fields, sign_group, sign_groups, sign_section, apex_nsec, nodata_nsec,
  denial, apex_key, add_signatures, sign,
}

has_rrsig-append : (xs ys : List Rr) → has_rrsig (xs ++ ys) ≡ (has_rrsig xs || has_rrsig ys)
has_rrsig-append [] ys = refl
has_rrsig-append (x ∷ xs) ys = ground (arith, has_rrsig-append xs ys)

or-true : (b : Bool) → (b || true) ≡ true
or-true true = refl
or-true false = refl

-- The key signs each RRset of a section.
abbrev pub Signable : OnlineSigner → ℕ → ℕ → List Rr → Type 0
Signable s now ttl rrs =
    All
      (λ (g : RrsetKey × List Rr).
        s.sign_rrset (signature_fields s now ttl (g.0.1) (g.1)) (g.1) ≢ none)
      (group_loop rrs [])

module _ (s : OnlineSigner) (good : IsSigner s) (now : ℕ) where
  sign_group-has_rrsig :
      (ttl : ℕ) (k : RrsetKey) (rrs rest : List Rr)
      → s.sign_rrset (signature_fields s now ttl (k.1) rrs) rrs ≢ none
      → has_rrsig (sign_group s now ttl (k, rrs) ++ rest) ≡ true
  sign_group-has_rrsig ttl k rrs rest signs =
      let fields = signature_fields s now ttl (k.1) rrs in
      elim (Option-cases (s.sign_rrset fields rrs)) [
        | inl f ↦ absurd (signs f)
        | inr (sig, f) ↦
            rw (sign_group-signed s now ttl k rrs sig f)
              (ground (arith, good.kind fields rrs sig f))
      ]

  -- A section with signable records is signed; what Sign appends to it is signable.
  Signs : List Rr → ℕ → List Rr → Type 0
  Signs rrs ttl more =
      ((more ≡ []) × ((t : ℕ) → sign_section s t ttl (rrs ++ more) ≡ rrs))
      ⊎ (has_rrsig (sign_section s now ttl (rrs ++ more)) ≡ true)

  sign_groups-signs :
      (ttl : ℕ) (rrs : List Rr) (gs : List (RrsetKey × List Rr))
      → group_loop rrs [] ≡ gs
      → Signable s now ttl rrs
      → (((t : ℕ) → sign_section s t ttl rrs ≡ rrs) × (gs ≡ []))
        ⊎ (has_rrsig (sign_section s now ttl rrs) ≡ true)
  unfolding sign_section sign_groups
  sign_groups-signs ttl rrs [] e signs = inl ((λ t. rw e (append-nil rrs)), refl)
  sign_groups-signs ttl rrs ((k, l) ∷ gs) e signs =
      let (first, _) =
        subst
          (λ groups.
            All
              (λ (g : RrsetKey × List Rr).
                s.sign_rrset (signature_fields s now ttl (g.0.1) (g.1)) (g.1) ≢ none)
              groups)
          e signs in
      inr (
        rw
          (
            e,
            has_rrsig-append rrs (sign_group s now ttl (k, l) ++ sign_groups s now ttl gs),
            sign_group-has_rrsig ttl k l (sign_groups s now ttl gs) first,
          )
          (or-true (has_rrsig rrs)))

  section-none : (ttl : ℕ) (rrs : List Rr) → Signable s now ttl (rrs ++ []) → Signs rrs ttl []
  unfolding Signs
  section-none ttl rrs signs =
      rw (append-nil rrs)
        (elim (sign_groups-signs ttl rrs (group_loop rrs []) refl
          (subst (Signable s now ttl) (append-nil rrs) signs)) [
            | inl (same, e) ↦ inl (refl, same)
            | inr has ↦ inr has
          ])

  nonempty_groups :
      (rrs : List Rr) (rr : Rr)
      → is_housekeeping rr.hdr.rrtype ≡ false
      → group_loop (rrs ++ rr ∷ []) [] ≢ []
  unfolding lookup
  nonempty_groups rrs rr signed e =
      let found : lookup (rrset_key rr) [] ≡ some (members (rrset_key rr) (rrs ++ rr ∷ [])) =
        subst (λ g. lookup (rrset_key rr) g ≡ some (members (rrset_key rr) (rrs ++ rr ∷ []))) e
          (lookup-groups rrs [] rr signed) in
      absurd (cc)

  section-one :
      (ttl : ℕ) (rrs : List Rr) (rr : Rr)
      → is_housekeeping rr.hdr.rrtype ≡ false
      → Signable s now ttl (rrs ++ rr ∷ [])
      → Signs rrs ttl (rr ∷ [])
  unfolding Signs
  section-one ttl rrs rr signed signs =
      elim (sign_groups-signs ttl (rrs ++ rr ∷ []) (group_loop (rrs ++ rr ∷ []) []) refl signs) [
        | inl (same, e) ↦ absurd (nonempty_groups rrs rr signed e)
        | inr has ↦ inr has
      ]

  -- What Sign appends to the authority section is signable.
  denial_section :
      (req resp : Msg) (ttl : ℕ)
      → Signable s now ttl (resp.ns ++ denial s req resp ttl)
      → Signs resp.ns ttl (denial s req resp ttl)
  unfolding denial
  denial_section req resp ttl = elim (Bool-cases (resp.rcode == Rcode.name_error)) [
    | inl missing ↦
        rw missing (section-one ttl resp.ns (apex_nsec s ttl) (unfold apex_nsec in refl))
    | inr found ↦ elim (Bool-cases (resp.rcode == Rcode.success && is_empty resp.answer)) [
      | inl empty ↦
          rw (found, empty)
            (elim req.question
              as (λ qs.
                Signable s now ttl
                  (resp.ns ++ elim qs [ [] ↦ [] | q ∷ rest ↦ nodata_nsec s q.name ttl ∷ [] ])
                → Signs resp.ns ttl
                    (elim qs [ [] ↦ [] | q ∷ rest ↦ nodata_nsec s q.name ttl ∷ [] ])) [
                      | [] ↦ section-none ttl resp.ns
                      | q ∷ rest ↦
                          section-one ttl resp.ns (nodata_nsec s q.name ttl)
                            (unfold nodata_nsec in refl)
                    ])
      | inr other ↦ rw (found, other) (section-none ttl resp.ns)
    ]
  ]

  key_section :
      (req resp : Msg) (ttl : ℕ)
      → Signable s now ttl (resp.answer ++ apex_key s req ttl)
      → Signs resp.answer ttl (apex_key s req ttl)
  unfolding apex_key
  key_section req resp ttl = asked req.question
    where
      asked :
          (qs : List Question)
          → Signable s now ttl (
              resp.answer ++ elim qs [
                | [] ↦ []
                | q ∷ rest ↦
                    if bytes_eq (to_lower q.name) s.zone
                    then record s.key { hdr = record s.key.hdr { ttl = ttl } } ∷ []
                    else []
              ])
          → Signs resp.answer ttl (elim qs [
            | [] ↦ []
            | q ∷ rest ↦
                if bytes_eq (to_lower q.name) s.zone
                then record s.key { hdr = record s.key.hdr { ttl = ttl } } ∷ []
                else []
          ])
      asked [] = section-none ttl resp.answer
      asked (q ∷ rest) = elim (Bool-cases (bytes_eq (to_lower q.name) s.zone)) [
        | inl at ↦ rw at (
            section-one ttl resp.answer (record s.key { hdr = record s.key.hdr { ttl = ttl } })
              (ground (arith, good.key_kind)))
        | inr below ↦ rw below (section-none ttl resp.answer)
      ]

  signed_again :
      (lib : DnsLib) (later : ℕ) (req m : Msg)
      → has_rrsig m.answer ≡ true ⊎ (has_rrsig m.ns ≡ true)
      → sign s lib later req m ≡ m
  unfolding sign
  signed_again lib later req m (inl a) = ground (arith, has_rrsig-append m.answer m.ns)
  signed_again lib later req m (inr n) = elim (Bool-cases (has_rrsig m.answer)) [
    | inl a ↦ ground (arith, has_rrsig-append m.answer m.ns)
    | inr a ↦ ground (arith, has_rrsig-append m.answer m.ns)
  ]

  added_again :
      (lib : DnsLib) (later : ℕ) (req resp : Msg)
      → Signable s now (response_ttl resp) (resp.answer ++ apex_key s req (response_ttl resp))
      → Signable s now (response_ttl resp) (resp.ns ++ denial s req resp (response_ttl resp))
      → sign s lib later req resp ≡ add_signatures s later req resp
      → sign s lib later req (add_signatures s now req resp) ≡ add_signatures s now req resp
  unfolding add_signatures Signs
  added_again lib later req resp keys denials e =
      elim (key_section req resp (response_ttl resp) keys) [
        | inr a ↦ signed_again lib later req (add_signatures s now req resp) (inl a)
        | inl (none_added, a) ↦ elim (denial_section req resp (response_ttl resp) denials) [
          | inr n ↦ signed_again lib later req (add_signatures s now req resp) (inr n)
          | inl (nothing_added, n) ↦
              let same : (t : ℕ) → add_signatures s t req resp ≡ resp =
                λ t i. record resp { answer = a t i; ns = n t i } in
              ap (sign s lib later req) (same now) ∙ e ∙ same later ∙ sym (same now)
        ]
      ]

  -- If the key signs each RRset of the response, the DNSKEY of the zone and the denial of existence
  -- that the response gets included, then a second pass of Sign over it, also a later one, changes
  -- nothing.
  pub sign-idempotent :
      (lib : DnsLib) (later : ℕ) (req resp : Msg)
      → Signable s now (response_ttl resp) (resp.answer ++ apex_key s req (response_ttl resp))
      → Signable s now (response_ttl resp) (resp.ns ++ denial s req resp (response_ttl resp))
      → sign s lib later req (sign s lib now req resp) ≡ sign s lib now req resp
  unfolding sign
  sign-idempotent lib later req resp keys denials =
      elim (Bool-cases (wants_dnssec (lib.is_edns0 req))) [
        | inr plain ↦ rw plain refl
        | inl wanted ↦ elim (Bool-cases (has_rrsig (resp.answer ++ resp.ns))) [
          | inl signed ↦
              let at : (t : ℕ) → sign s lib t req resp ≡ resp = λ t. rw (wanted, signed) refl in
              ap (sign s lib later req) (at now) ∙ at later ∙ sym (at now)
          | inr bare ↦
              let at : (t : ℕ) → sign s lib t req resp ≡ add_signatures s t req resp =
                λ t. rw (wanted, bare) refl in
              ap (sign s lib later req) (at now)
              ∙ added_again lib later req resp keys denials (at later)
              ∙ sym (at now)
        ]
      ]
