-- ===== src/Dnssec/Sections.antt =====
-- What signing adds to a section.
use contractdb.Base.{
  ℕ, zero, suc, ◌+◌, ◌-◌, ◌%◌, ◌==◌, if◌then◌else◌, false, some, List, [], ◌∷◌, ◌++◌, ◌≡◌, inl, inr,
  refl, sym, ap, ◌∙◌, arith, append_assoc, Bool-cases,
}
use contractdb.Assoc.{lookup}
use contractdb.Dns.{Rr, Rrsig}
use contractdb.Dnssec.{
  OnlineSigner, RrsetKey, rrset_key, same_key, is_housekeeping, group_loop, orig_ttl_of,
  signature_fields, sign_group, sign_groups, sign_section,
}
use contractdb.Dnssec.Groups.{rrset_eq, same_key_iff, members, lookup-groups}

-- The TTL of an RRset: that of its first record, and the default where that is 0.
abbrev pub covered_ttl : ℕ → List Rr → ℕ
covered_ttl ttl [] = ttl
covered_ttl ttl (rr ∷ rrs) = elim rr.hdr.ttl [ zero ↦ ttl | suc n ↦ suc n ]

-- The RRSIG of RFC 4034 for an RRset of a type, by the key of the zone, with ECDSAP256SHA256: valid
-- from an hour before now to a week from now, as 32-bit numbers.
abbrev pub covering : OnlineSigner → ℕ → ℕ → ℕ → List Rr → Rrsig
covering s now ttl kind rrset = record {
  type_covered = kind;
  algorithm = 13;
  key_tag = s.key_tag;
  signer_name = s.zone;
  inception = (now + 4294967296 - 3600) % 4294967296;
  expiration = (now + 604800) % 4294967296;
  orig_ttl = covered_ttl ttl rrset;
}

module _ (s : OnlineSigner) (now ttl : ℕ) where
  -- A group stands somewhere among those that are signed.
  sign_groups-lookup :
      (k : RrsetKey) (rrs : List Rr) (gs : List (RrsetKey × List Rr))
      → lookup k gs ≡ some rrs
      → (before after : List Rr) × (sign_groups s now ttl gs
          ≡ before ++ (sign_group s now ttl (k, rrs) ++ after))
  unfolding lookup sign_groups
  sign_groups-lookup k rrs [] h = absurd (cc)
  sign_groups-lookup k rrs ((j, l) ∷ gs) h = elim (Bool-cases (same_key j k)) [
    | inl same ↦
        let e1 : j ≡ k = (same_key_iff j k).0 same in
        let e2 : l ≡ rrs = ground arith in
        (
          [],
          sign_groups s now ttl gs,
          ap (λ g. sign_group s now ttl g ++ sign_groups s now ttl gs) (λ i. (e1 i, e2 i)),
        )
    | inr other ↦
        let (before, after, e) = sign_groups-lookup k rrs gs (ground arith) in
        (
          sign_group s now ttl (j, l) ++ before,
          after,
          ap (λ r. sign_group s now ttl (j, l) ++ r) e
              ∙ sym (
                  append_assoc (sign_group s now ttl (j, l)) before
                    (sign_group s now ttl (k, rrs) ++ after)),
        )
  ]

  pub sign_group-signed :
      (k : RrsetKey) (rrs : List Rr) (sig : Rr)
      → s.sign_rrset (signature_fields s now ttl (k.1) rrs) rrs ≡ some sig
      → sign_group s now ttl (k, rrs)
        ≡ record sig { hdr = record sig.hdr { ttl = orig_ttl_of ttl rrs } } ∷ []
  unfolding sign_group
  sign_group-signed (n, t) rrs sig f = rw (f, sign_group) refl

  orig_ttl_of-covered_ttl : (rrs : List Rr) → orig_ttl_of ttl rrs ≡ covered_ttl ttl rrs
  orig_ttl_of-covered_ttl [] = refl
  orig_ttl_of-covered_ttl (rr ∷ rrs) = cases rr.hdr.ttl
    where
      cases : (t : ℕ) → (if t == 0 then ttl else t) ≡ elim t [ zero ↦ ttl | suc n ↦ suc n ]
      cases zero = refl
      cases (suc n) = ground arith

  signature_fields-covering :
      (kind : ℕ) (rrs : List Rr) → signature_fields s now ttl kind rrs ≡ covering s now ttl kind rrs
  unfolding signature_fields
  signature_fields-covering kind rrs = rw (orig_ttl_of-covered_ttl rrs) refl

  -- Signing keeps the records of a section in front. A record that is not OPT, TSIG or RRSIG has an RRset:
  -- all records of the section with its name, but for case, and its type. If the key signs that RRset for
  -- an RRSIG that covers the type, names algorithm 13, the key and the zone, and is valid from an hour
  -- before now to a week from now, then the signature stands behind the records, with the TTL of the
  -- RRset.
  pub sign_section_covers :
      (before after : List Rr) (rr sig : Rr)
      → is_housekeeping rr.hdr.rrtype ≡ false
      → s.sign_rrset
          (covering s now ttl rr.hdr.rrtype (members (rrset_key rr) (before ++ rr ∷ after)))
          (members (rrset_key rr) (before ++ rr ∷ after))
        ≡ some sig
      → (front back : List Rr) × (sign_section s now ttl (before ++ rr ∷ after)
          ≡ (before ++ rr ∷ after)
            ++ (front
                ++ record sig {
                  hdr = record sig.hdr {
                    ttl = covered_ttl ttl (members (rrset_key rr) (before ++ rr ∷ after));
                  };
                }
                  ∷ back))
  unfolding sign_section
  sign_section_covers before after rr sig signed f =
      let rrs = before ++ rr ∷ after in
      let set = members (rrset_key rr) rrs in
      let (front, back, e) =
        sign_groups-lookup (rrset_key rr) set (group_loop rrs [])
          (lookup-groups before after rr signed) in
      let g : s.sign_rrset (signature_fields s now ttl rr.hdr.rrtype set) set ≡ some sig =
        ap (λ fields. s.sign_rrset fields set) (signature_fields-covering rr.hdr.rrtype set) ∙ f in
      (
        front,
        back,
        rw (← orig_ttl_of-covered_ttl set) (
            ap (λ l. rrs ++ l)
              (e ∙ ap (λ l. front ++ (l ++ back)) (sign_group-signed (rrset_key rr) set sig g))),
      )
