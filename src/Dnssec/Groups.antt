-- ===== src/Dnssec/Groups.antt =====
-- The RRsets of a section.
use contractdb.Base.{
  true, false, ◌&&◌, not, Option, none, some, List, [], ◌∷◌, ◌++◌, bytes_eq_iff, ◌≡◌, ◌↔◌, inl, inr,
  refl, sym, ap, ◌∙◌, arith, append_assoc, append-nil, Bool-cases, if◌then◌else◌,
}
use contractdb.Assoc.{Eq, lookup}
use contractdb.Dns.{Rr}
use contractdb.Dnssec.{RrsetKey, rrset_key, same_key, is_housekeeping, add_to_group, group_loop}

pub same_key_iff : (j k : RrsetKey) → (same_key j k ≡ true) ↔ (j ≡ k)
same_key_iff (n, t) (n', t') =
    (λ h. ground (arith, bytes_eq_iff n n'), λ h. ground (arith, bytes_eq_iff n n'))

instance abbrev pub rrset_eq : Eq RrsetKey
rrset_eq = record { beq = same_key; beq_iff = same_key_iff }

-- The RRset of a key: the records of a section that have it and are signed, in order.
unfoldable pub members : RrsetKey → List Rr → List Rr
members k [] = []
members k (rr ∷ rrs) =
    let rest = members k rrs in
    if not (is_housekeeping rr.hdr.rrtype) && same_key (rrset_key rr) k then rr ∷ rest else rest

abbrev or_nil : Option (List Rr) → List Rr
or_nil none = []
or_nil (some rrs) = rrs

abbrev joined : Option (List Rr) → List Rr → Option (List Rr)
joined none [] = none
joined none (rr ∷ rrs) = some (rr ∷ rrs)
joined (some g) rrs = some (g ++ rrs)

lookup-add_to_group :
    (j k : RrsetKey) (rr : Rr) (gs : List (RrsetKey × List Rr))
    → lookup k (add_to_group j rr gs)
      ≡ (if same_key j k then some (or_nil (lookup k gs) ++ rr ∷ []) else lookup k gs)
unfolding lookup add_to_group
lookup-add_to_group j k rr [] = ground arith
lookup-add_to_group j k rr ((i, rrs) ∷ gs) =
    ground
      (arith, lookup-add_to_group j k rr gs, same_key_iff i j, same_key_iff i k, same_key_iff j k)

joined-snoc :
    (o : Option (List Rr)) (rr : Rr) (rrs : List Rr)
    → joined (some (or_nil o ++ rr ∷ [])) rrs ≡ joined o (rr ∷ rrs)
joined-snoc none rr rrs = refl
joined-snoc (some g) rr rrs = ap some (append_assoc g (rr ∷ []) rrs)

joined-nil : (o : Option (List Rr)) → o ≡ joined o []
joined-nil none = refl
joined-nil (some g) = ap some (sym (append-nil g))

lookup-group_loop :
    (k : RrsetKey) (rrs : List Rr) (gs : List (RrsetKey × List Rr))
    → lookup k (group_loop rrs gs) ≡ joined (lookup k gs) (members k rrs)
unfolding group_loop members
lookup-group_loop k [] gs = joined-nil (lookup k gs)
lookup-group_loop k (rr ∷ rrs) gs = elim (Bool-cases (is_housekeeping rr.hdr.rrtype)) [
  | inl house ↦ rw house (lookup-group_loop k rrs gs)
  | inr signed ↦ elim (Bool-cases (same_key (rrset_key rr) k)) [
    | inl same ↦
        let at : lookup k (add_to_group (rrset_key rr) rr gs)
            ≡ some (or_nil (lookup k gs) ++ rr ∷ []) =
          ground (arith, lookup-add_to_group (rrset_key rr) k rr gs, same) in
        rw (signed, same)
          (lookup-group_loop k rrs (add_to_group (rrset_key rr) rr gs)
            ∙ ap (λ o. joined o (members k rrs)) at
            ∙ joined-snoc (lookup k gs) rr (members k rrs))
    | inr other ↦
        let at : lookup k (add_to_group (rrset_key rr) rr gs) ≡ lookup k gs =
          ground (arith, lookup-add_to_group (rrset_key rr) k rr gs, other) in
        rw (signed, other)
          (lookup-group_loop k rrs (add_to_group (rrset_key rr) rr gs)
            ∙ ap (λ o. joined o (members k rrs)) at)
  ]
]

-- A record that is signed is in the RRset of its key.
members-append :
    (k : RrsetKey) (xs ys : List Rr) → members k (xs ++ ys) ≡ members k xs ++ members k ys
unfolding members
members-append k [] ys = refl
members-append k (x ∷ xs) ys = ground (arith, members-append k xs ys)

members_self :
    (rr : Rr) (after : List Rr)
    → is_housekeeping rr.hdr.rrtype ≡ false
    → members (rrset_key rr) (rr ∷ after) ≡ rr ∷ members (rrset_key rr) after
unfolding members
members_self rr after signed = ground (arith, same_key_iff (rrset_key rr) (rrset_key rr))

joined-none_nonempty :
    (xs ys : List Rr) (rr : Rr) → joined none (xs ++ rr ∷ ys) ≡ some (xs ++ rr ∷ ys)
joined-none_nonempty [] ys rr = refl
joined-none_nonempty (x ∷ xs) ys rr = refl

-- The groups hold the RRset of each signed record, under its key.
pub lookup-groups :
    (before after : List Rr) (rr : Rr)
    → is_housekeeping rr.hdr.rrtype ≡ false
    → lookup (rrset_key rr) (group_loop (before ++ rr ∷ after) [])
      ≡ some (members (rrset_key rr) (before ++ rr ∷ after))
lookup-groups before after rr signed =
    let k = rrset_key rr in
    let split : members k (before ++ rr ∷ after) ≡ members k before ++ rr ∷ members k after =
      members-append k before (rr ∷ after)
      ∙ ap (λ l. members k before ++ l) (members_self rr after signed) in
    lookup-group_loop k (before ++ rr ∷ after) []
    ∙ (unfold lookup in rw split (joined-none_nonempty (members k before) (members k after) rr))
