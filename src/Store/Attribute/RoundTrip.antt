-- ===== src/Store/Attribute/RoundTrip.antt =====
-- The two conversions against each other.
use contractdb.Base.{
  Bool, true, some, Bytes, ◌≡◌, refl, sym, ap, ◌∙◌, arith, Bool-cases, Option-cases, inl, inr,
}
use contractdb.Item.{
  Value, null, string, bool, number, float, strings, array, object, Values, nil, cons, Fields, end,
  field,
}
use contractdb.Store.Attribute.{
  AttributeValue, AttributeList, AttributeMap, s, n, b, bool_av, null_av, ss, ns, bs, l, m, other,
  empty_list, item, empty_map, attr, json_number, flatten, flatten_list, flatten_map, unflatten,
  unflatten_list, unflatten_map,
}

-- A value as it comes back from the table: a float64 comes back as a json.Number.
unfoldable mutual
  pub stored : Value → Value
  stored null = null
  stored (string t) = string t
  stored (bool t) = bool t
  stored (float t) = number t
  stored (number t) = number t
  stored (strings t) = strings t
  stored (array t) = array (stored_list t)
  stored (object t) = object (stored_fields t)

  pub stored_list : Values → Values
  stored_list nil = nil
  stored_list (cons v vs) = cons (stored v) (stored_list vs)

  pub stored_fields : Fields → Fields
  stored_fields end = end
  stored_fields (field k v fs) = field k (stored v) (stored_fields fs)

module _ (parse_float : Bytes → Bool) where
  -- Each number in a value is one.
  unfoldable mutual
    pub IsNumeric : Value → Type 0
    IsNumeric (float t) = parse_float t ≡ true
    IsNumeric (number t) = parse_float t ≡ true
    IsNumeric (array t) = AreNumeric t
    IsNumeric (object t) = FieldsNumeric t
    IsNumeric _ = Unit

    pub AreNumeric : Values → Type 0
    AreNumeric nil = Unit
    AreNumeric (cons v vs) = IsNumeric v × AreNumeric vs

    pub FieldsNumeric : Fields → Type 0
    FieldsNumeric end = Unit
    FieldsNumeric (field k v fs) = IsNumeric v × FieldsNumeric fs

  mutual
    unfolding flatten unflatten stored IsNumeric json_number

    value_back : (v : Value) → IsNumeric v → flatten parse_float (unflatten v) ≡ some (stored v)
    value_back null h = refl
    value_back (string t) h = refl
    value_back (bool t) h = refl
    value_back (float t) h = ground arith
    value_back (number t) h = ground arith
    value_back (strings t) h = refl
    value_back (array t) h = ground (arith, flatten_list-unflatten_list t h)
    value_back (object t) h = ground (arith, flatten_map-unflatten_map t h)

    flatten_list-unflatten_list :
        (vs : Values)
        → AreNumeric vs
        → flatten_list parse_float (unflatten_list vs) ≡ some (stored_list vs)
    flatten_list-unflatten_list nil h = refl
    flatten_list-unflatten_list (cons v vs) (h, hs) =
        ground (arith, value_back v h, flatten_list-unflatten_list vs hs)

    pub flatten_map-unflatten_map :
        (fs : Fields)
        → FieldsNumeric fs
        → flatten_map parse_float (unflatten_map fs) ≡ some (stored_fields fs)
    flatten_map-unflatten_map end h = refl
    flatten_map-unflatten_map (field k v fs) (h, hs) =
        ground (arith, value_back v h, flatten_map-unflatten_map fs hs)

  -- A value whose numbers are numbers can be read back after it is written, a float64 as the
  -- json.Number of its decimal and all else as it was.
  pub flatten-unflatten :
      (v : Value) → IsNumeric v → flatten parse_float (unflatten v) ≡ some (stored v)
  flatten-unflatten v numeric = value_back v numeric

  -- The types of attribute that the plain values tell apart.
  unfoldable mutual
    pub IsPlain : AttributeValue → Type 0
    IsPlain (b v) = ⊥
    IsPlain (null_av v) = v ≡ true
    IsPlain (ns v) = ⊥
    IsPlain (bs v) = ⊥
    IsPlain (l v) = ArePlain v
    IsPlain (m v) = AttributesPlain v
    IsPlain _ = Unit

    pub ArePlain : AttributeList → Type 0
    ArePlain empty_list = Unit
    ArePlain (item v vs) = IsPlain v × ArePlain vs

    pub AttributesPlain : AttributeMap → Type 0
    AttributesPlain empty_map = Unit
    AttributesPlain (attr k v vs) = IsPlain v × AttributesPlain vs

  json_number-unflatten :
      (t : Bytes) (v : Value) → json_number parse_float t ≡ some v → unflatten v ≡ n t
  unfolding json_number unflatten
  json_number-unflatten t v h = elim (Bool-cases (parse_float t)) [
    | inl good ↦ let e : number t ≡ v = ground arith in ap unflatten (sym e)
    | inr bad ↦ absurd (ground arith)
  ]

  mutual
    unfolding flatten unflatten IsPlain

    -- An attribute value of a type that plain values tell apart (not a binary value, and not a set of
    -- numbers or of binary values) and that can be read is written back as it was.
    pub unflatten-flatten :
        (a : AttributeValue) (v : Value)
        → IsPlain a
        → flatten parse_float a ≡ some v
        → unflatten v ≡ a
    unflatten-flatten (s t) v p h = let e : string t ≡ v = ground arith in ap unflatten (sym e)
    unflatten-flatten (n t) v p h = json_number-unflatten t v h
    unflatten-flatten (b t) v p h = absurd p
    unflatten-flatten (bool_av t) v p h = let e : bool t ≡ v = ground arith in ap unflatten (sym e)
    unflatten-flatten (null_av t) v p h =
        let e : null ≡ v = ground arith in ap unflatten (sym e) ∙ ap null_av (sym p)
    unflatten-flatten (ss t) v p h = let e : strings t ≡ v = ground arith in ap unflatten (sym e)
    unflatten-flatten (ns t) v p h = absurd p
    unflatten-flatten (bs t) v p h = absurd p
    unflatten-flatten (l t) v p h = elim (Option-cases (flatten_list parse_float t)) [
      | inl e ↦ absurd (ground arith)
      | inr (xs, e) ↦
          let at : array xs ≡ v = ground arith in
          ap unflatten (sym at) ∙ ap l (unflatten_list-flatten_list t xs p e)
    ]
    unflatten-flatten (m t) v p h = elim (Option-cases (flatten_map parse_float t)) [
      | inl e ↦ absurd (ground arith)
      | inr (xs, e) ↦
          let at : object xs ≡ v = ground arith in
          ap unflatten (sym at) ∙ ap m (unflatten_map-flatten_map t xs p e)
    ]
    unflatten-flatten other v p h = absurd (cc)

    unflatten_list-flatten_list :
        (avs : AttributeList) (vs : Values)
        → ArePlain avs
        → flatten_list parse_float avs ≡ some vs
        → unflatten_list vs ≡ avs
    unflatten_list-flatten_list empty_list vs p h =
        let e : nil ≡ vs = ground arith in ap unflatten_list (sym e)
    unflatten_list-flatten_list (item a avs) vs (p, ps) h =
        elim (Option-cases (flatten parse_float a)) [
          | inl e ↦ absurd (ground arith)
          | inr (x, e) ↦ elim (Option-cases (flatten_list parse_float avs)) [
            | inl f ↦ absurd (ground arith)
            | inr (xs, f) ↦
                let at : cons x xs ≡ vs = ground arith in
                ap unflatten_list (sym at) ∙ (λ i.
                  item (unflatten-flatten a x p e i) (unflatten_list-flatten_list avs xs ps f i))
          ]
        ]

    pub unflatten_map-flatten_map :
        (avs : AttributeMap) (fs : Fields)
        → AttributesPlain avs
        → flatten_map parse_float avs ≡ some fs
        → unflatten_map fs ≡ avs
    unflatten_map-flatten_map empty_map fs p h =
        let e : end ≡ fs = ground arith in ap unflatten_map (sym e)
    unflatten_map-flatten_map (attr k a avs) fs (p, ps) h =
        elim (Option-cases (flatten parse_float a)) [
          | inl e ↦ absurd (ground arith)
          | inr (x, e) ↦ elim (Option-cases (flatten_map parse_float avs)) [
            | inl f ↦ absurd (ground arith)
            | inr (xs, f) ↦
                let at : field k x xs ≡ fs = ground arith in
                ap unflatten_map (sym at) ∙ (λ i.
                  attr k (unflatten-flatten a x p e i) (unflatten_map-flatten_map avs xs ps f i))
          ]
        ]
