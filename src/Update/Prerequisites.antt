-- ===== src/Update/Prerequisites.antt =====
-- evalPrerequisites against the prerequisites of RFC 2136, section 2.4.
use contractdb.Base.{
  true, none, some, List, [], ◌∷◌, Bytes, bytes_eq_iff, ◌≡◌, ◌↔◌, ◌⊎◌, inl, inr, refl, arith, All,
  Bool-cases, Option-cases,
}
use contractdb.Text.{to_lower}
use contractdb.Txt.{decode_txt_strings}
use contractdb.Dns.{Rr}
use contractdb.Dns.Kind
use contractdb.Dns.Class
use contractdb.Dns.Rcode
use contractdb.Item.{Item, Json, Fields}
use contractdb.Store.{Result, ok, failed, Store}
use contractdb.Names.{parse_key}
use contractdb.Update.{
  txt_of, is_kind, value_rcode, prerequisite_rcode, check_prerequisite, eval_prerequisites,
}

-- What a prerequisite record demands of the item at its name (RFC 2136, section 2.4).
pub data Demand (json : Json) (rr : Rr) : Item → Type 0 where
  name_in_use : {fs : Fields} → is_kind rr.hdr Class.any Kind.any ≡ true → Demand json rr (some fs)
  name_not_in_use : is_kind rr.hdr Class.none_ Kind.any ≡ true → Demand json rr none
  rrset_exists : {fs : Fields} → is_kind rr.hdr Class.any Kind.txt ≡ true → Demand json rr (some fs)
  rrset_absent : is_kind rr.hdr Class.none_ Kind.txt ≡ true → Demand json rr none
  rrset_equals :
      {fs : Fields} (strings : List Bytes) (blob : Bytes)
      → is_kind rr.hdr Class.inet Kind.txt ≡ true
      → txt_of rr.body ≡ some strings
      → decode_txt_strings strings ≡ some blob
      → json.marshal (some fs) ≡ some blob
      → Demand json rr (some fs)

-- A prerequisite holds: its name stands for a key, its TTL is zero, the key can be read, and the
-- item there is as demanded.
pub record Holds {S : Type 0} (json : Json) (ops : Store S) (s : S) (zone : Bytes) (rr : Rr)
    : Type 0 where
  pub key : Bytes
  pub item : Item
  pub names : parse_key zone (to_lower rr.hdr.name) ≡ some key
  pub ttl : rr.hdr.ttl ≡ 0
  pub reads : ops.get s key ≡ ok item
  pub demand : Demand json rr item

Result-cases : {A : Type 0} (r : Result A) → (r ≡ failed) ⊎ ((a : A) × (r ≡ ok a))
Result-cases (ok a) = inr (a, refl)
Result-cases failed = inl refl

module _ (json : Json) (rr : Rr) where
  demand→success : (item : Item) → Demand json rr item → prerequisite_rcode json rr item ≡ 0
  unfolding prerequisite_rcode value_rcode
  demand→success item (name_in_use h) = ground arith
  demand→success item (name_not_in_use h) = ground arith
  demand→success item (rrset_exists h) = ground arith
  demand→success item (rrset_absent h) = ground arith
  demand→success item (rrset_equals strings blob h t d m) = ground (arith, bytes_eq_iff blob blob)

  value→demand :
      (fs : Fields)
      → is_kind rr.hdr Class.inet Kind.txt ≡ true
      → value_rcode json rr.body (some fs) ≡ 0
      → Demand json rr (some fs)
  value→demand fs kind h = elim (Option-cases (txt_of rr.body)) [
    | inl e ↦ absurd (unfold value_rcode in ground arith)
    | inr (strings, e) ↦ elim (Option-cases (decode_txt_strings strings)) [
      | inl d ↦ absurd (unfold value_rcode in ground arith)
      | inr (want, d) ↦ elim (Option-cases (json.marshal (some fs))) [
        | inl m ↦ absurd (unfold value_rcode in ground arith)
        | inr (blob, m) ↦
            rrset_equals {fs = fs} strings want kind e d
              (unfold value_rcode in ground (arith, bytes_eq_iff blob want))
      ]
    ]
  ]

  success→demand : (item : Item) → prerequisite_rcode json rr item ≡ 0 → Demand json rr item
  success→demand none h = elim (Bool-cases (is_kind rr.hdr Class.none_ Kind.any)) [
    | inl e ↦ name_not_in_use e
    | inr e ↦ elim (Bool-cases (is_kind rr.hdr Class.none_ Kind.txt)) [
      | inl f ↦ rrset_absent f
      | inr f ↦ absurd (unfold prerequisite_rcode value_rcode in ground arith)
    ]
  ]
  success→demand (some fs) h = elim (Bool-cases (is_kind rr.hdr Class.any Kind.any)) [
    | inl e ↦ name_in_use e
    | inr e ↦ elim (Bool-cases (is_kind rr.hdr Class.any Kind.txt)) [
      | inl f ↦ rrset_exists f
      | inr f ↦ elim (Bool-cases (is_kind rr.hdr Class.inet Kind.txt)) [
        | inl g ↦ value→demand fs g (unfold prerequisite_rcode in ground arith)
        | inr g ↦ absurd (unfold prerequisite_rcode in ground arith)
      ]
    ]
  ]

module _ {S : Type 0} (json : Json) (ops : Store S) (s : S) (zone : Bytes) where
  holds→success : (rr : Rr) → Holds json ops s zone rr → check_prerequisite json ops s zone rr ≡ 0
  unfolding check_prerequisite
  holds→success rr h = ground (arith, h.names, h.reads, demand→success json rr h.item h.demand)

  success→holds : (rr : Rr) → check_prerequisite json ops s zone rr ≡ 0 → Holds json ops s zone rr
  success→holds rr h = elim (Option-cases (parse_key zone (to_lower rr.hdr.name))) [
    | inl e ↦ absurd (unfold check_prerequisite in ground arith)
    | inr (key, e) ↦ elim (Result-cases (ops.get s key)) [
      | inl f ↦ absurd (unfold check_prerequisite in ground arith)
      | inr (item, f) ↦ record {
        key = key;
        item = item;
        names = e;
        ttl = unfold check_prerequisite in ground arith;
        reads = f;
        demand = success→demand json rr item (unfold check_prerequisite in ground arith);
      }
    ]
  ]

  -- The prerequisites pass exactly when each of them holds.
  pub eval_prerequisites_iff :
      (prereqs : List Rr)
      → (eval_prerequisites json ops s zone prereqs ≡ Rcode.success)
        ↔ All (Holds json ops s zone) prereqs
  unfolding eval_prerequisites
  eval_prerequisites_iff [] = (λ _. tt, λ _. refl)
  eval_prerequisites_iff (rr ∷ rrs) =
      let rest = eval_prerequisites_iff rrs in
      (
        (λ h. (success→holds rr (ground arith), rest.0 (ground arith))),
        (λ (h, hs). ground (arith, holds→success rr h, rest.1 hs)),
      )
