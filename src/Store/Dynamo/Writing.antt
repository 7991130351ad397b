-- ===== src/Store/Dynamo/Writing.antt =====
-- What Get finds after Put.
use contractdb.Base.{
  Bool, true, none, some, Bytes, bytes_eq, ◌≡◌, refl, ap, ◌∙◌, arith, inl, inr, Bool-cases,
  if◌then◌else◌,
}
use contractdb.Item.{string, Fields, end, field}
use contractdb.Store.{ok}
use contractdb.Store.Attribute.{
  AttributeMap, s, attr, flatten, flatten_map, unflatten, unflatten_map,
}
use contractdb.Store.Attribute.RoundTrip.{stored_fields, FieldsNumeric, flatten_map-unflatten_map}
use contractdb.Store.Dynamo.{
  Client, DynamoStore, unflatten_but, put_map, dynamo_get, dynamo_put, dynamo_delete,
}

-- The fields of an item but for one.
unfoldable pub fields_but : Bytes → Fields → Fields
fields_but k end = end
fields_but k (field j v fs) =
    let rest = fields_but k fs in if bytes_eq j k then rest else field j v rest

-- A consistent read finds what the last PutItem of its key wrote, and nothing after a DeleteItem.
-- `Keeps` holds of the items that DynamoDB stores as they are written: it trims zeros of a number.
pub record IsTable {D : Type 0} (client : Client D) (Keeps : AttributeMap → Type 0) : Type 0 where
  pub got_put :
      (d : D) (table pk_attr pk : Bytes) (av : AttributeMap)
      → Keeps (attr pk_attr (s pk) av)
      → (client.put_item d table (attr pk_attr (s pk) av)).0 ≡ true
      → client.get_item ((client.put_item d table (attr pk_attr (s pk) av)).1) table pk_attr pk true
        ≡ ok (some (attr pk_attr (s pk) av))
  pub got_deleted :
      (d : D) (table pk_attr pk : Bytes)
      → (client.delete_item d table pk_attr pk).0 ≡ true
      → client.get_item ((client.delete_item d table pk_attr pk).1) table pk_attr pk true ≡ ok none

unflatten_but-unflatten_map :
    (k : Bytes) (fs : Fields) → unflatten_but k fs ≡ unflatten_map (fields_but k fs)
unfolding unflatten_but fields_but unflatten_map
unflatten_but-unflatten_map k end = refl
unflatten_but-unflatten_map k (field j v fs) = elim (Bool-cases (bytes_eq j k)) [
  | inl e ↦ rw e (unflatten_but-unflatten_map k fs)
  | inr e ↦ rw e (ap (attr j (unflatten v)) (unflatten_but-unflatten_map k fs))
]

module _ (parse_float : Bytes → Bool) where
  fields_but-FieldsNumeric :
      (k : Bytes) (fs : Fields)
      → FieldsNumeric parse_float fs
      → FieldsNumeric parse_float (fields_but k fs)
  unfolding fields_but FieldsNumeric
  fields_but-FieldsNumeric k end h = h
  fields_but-FieldsNumeric k (field j v fs) (h, hs) = elim (Bool-cases (bytes_eq j k)) [
    | inl e ↦ rw e (fields_but-FieldsNumeric k fs hs)
    | inr e ↦ rw e (h, fields_but-FieldsNumeric k fs hs)
  ]

  module _ {D : Type 0} (client : Client D) (Keeps : AttributeMap → Type 0)
      (laws : IsTable client Keeps) (st : DynamoStore D) (pk : Bytes)
      (consistent : st.consistent ≡ true) where
    -- After a Put that succeeds, a consistent Get of the key returns the item with the key in its
    -- partition key attribute, whatever the item had there, and its other fields in their order, each
    -- float64 as a json.Number. The numbers of the item must be numbers, the attributes that are sent
    -- such that DynamoDB keeps them as they are, and a consistent GetItem must return what the last
    -- PutItem wrote.
    pub dynamo_get-put :
        (fs : Fields)
        → FieldsNumeric parse_float fs
        → Keeps (put_map st.pk_attr pk (some fs))
        → (dynamo_put parse_float client st pk (some fs)).0 ≡ true
        → dynamo_get parse_float client ((dynamo_put parse_float client st pk (some fs)).1) pk
          ≡ ok (some (field st.pk_attr (string pk) (stored_fields (fields_but st.pk_attr fs))))
    unfolding dynamo_put dynamo_get put_map flatten
    dynamo_get-put fs numeric kept done =
        let av = unflatten_but st.pk_attr fs in
        let at : flatten_map parse_float av ≡ some (stored_fields (fields_but st.pk_attr fs)) =
          ap (flatten_map parse_float) (unflatten_but-unflatten_map st.pk_attr fs)
          ∙ flatten_map-unflatten_map parse_float (fields_but st.pk_attr fs)
              (fields_but-FieldsNumeric st.pk_attr fs numeric) in
        rw (consistent, laws.got_put st.client st.table st.pk_attr pk av kept done)
          (ground (arith, at))

    -- After a Delete that succeeds, a consistent Get of the key returns no item.
    dynamo_get-delete :
        (dynamo_delete parse_float client st pk).0 ≡ true
        → dynamo_get parse_float client ((dynamo_delete parse_float client st pk).1) pk ≡ ok none
    unfolding dynamo_delete dynamo_get
    dynamo_get-delete done =
        rw (consistent, laws.got_deleted st.client st.table st.pk_attr pk done) refl
