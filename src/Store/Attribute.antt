-- ===== src/Store/Attribute.antt =====
-- store.go: the attribute values of DynamoDB, and their conversion to and from plain values.
pub mod RoundTrip
use contractdb.Base.{
  Bool, true, false, Option, none, some, List, [], ◌∷◌, Bytes, map, if◌then◌else◌,
}
use contractdb.Base64.{std_encoding, encode}
use contractdb.Item.{
  Value, null, string, bool, number, float, strings, array, object, Values, nil, cons, Fields, end,
  field,
}

-- types.AttributeValue. `other` is a value of another dynamic type.
mutual
  pub data AttributeValue : Type 0 where
    s : Bytes → AttributeValue
    n : Bytes → AttributeValue
    b : Bytes → AttributeValue
    bool_av : Bool → AttributeValue
    null_av : Bool → AttributeValue
    ss : List Bytes → AttributeValue
    ns : List Bytes → AttributeValue
    bs : List Bytes → AttributeValue
    l : AttributeList → AttributeValue
    m : AttributeMap → AttributeValue
    other : AttributeValue

  pub data AttributeList : Type 0 where
    empty_list : AttributeList
    item : AttributeValue → AttributeList → AttributeList

  pub data AttributeMap : Type 0 where
    empty_map : AttributeMap
    attr : Bytes → AttributeValue → AttributeMap → AttributeMap

-- `parse_float` tells whether strconv.ParseFloat takes a text as a float64.
module _ (parse_float : Bytes → Bool) where
  unfoldable pub json_number : Bytes → Option Value
  json_number text = if parse_float text then some (number text) else none

  -- The loop over a number set
  unfoldable pub number_set : List Bytes → Option Values
  unfolding json_number
  number_set [] = some nil
  number_set (x ∷ xs) =
      let rest = number_set xs in
      elim (json_number x) [
        | none ↦ none
        | some v ↦ elim rest [ none ↦ none | some vs ↦ some (cons v vs) ]
      ]

  unfoldable mutual
    unfolding json_number number_set

    pub flatten : AttributeValue → Option Value
    flatten (s v) = some (string v)
    flatten (n v) = json_number v
    flatten (b v) = some (string (encode std_encoding v))
    flatten (bool_av v) = some (bool v)
    flatten (null_av v) = some null
    flatten (ss v) = some (strings v)
    flatten (ns v) = elim (number_set v) [ none ↦ none | some vs ↦ some (array vs) ]
    flatten (bs v) = some (strings (map (encode std_encoding) v))
    flatten (l v) = elim (flatten_list v) [ none ↦ none | some vs ↦ some (array vs) ]
    flatten (m v) = elim (flatten_map v) [ none ↦ none | some fs ↦ some (object fs) ]
    flatten other = none

    pub flatten_list : AttributeList → Option Values
    flatten_list empty_list = some nil
    flatten_list (item v vs) = elim (flatten v) [
      | none ↦ none
      | some x ↦ elim (flatten_list vs) [ none ↦ none | some xs ↦ some (cons x xs) ]
    ]

    pub flatten_map : AttributeMap → Option Fields
    flatten_map empty_map = some end
    flatten_map (attr k v vs) = elim (flatten v) [
      | none ↦ none
      | some x ↦ elim (flatten_map vs) [ none ↦ none | some xs ↦ some (field k x xs) ]
    ]

-- It has an error for values of other types, which `Value` does not have.
unfoldable mutual
  pub unflatten : Value → AttributeValue
  unflatten null = null_av true
  unflatten (string t) = s t
  unflatten (bool t) = bool_av t
  unflatten (float t) = n t
  unflatten (number t) = n t
  unflatten (strings t) = ss t
  unflatten (array t) = l (unflatten_list t)
  unflatten (object t) = m (unflatten_map t)

  pub unflatten_list : Values → AttributeList
  unflatten_list nil = empty_list
  unflatten_list (cons v vs) = item (unflatten v) (unflatten_list vs)

  pub unflatten_map : Fields → AttributeMap
  unflatten_map end = empty_map
  unflatten_map (field k v fs) = attr k (unflatten v) (unflatten_map fs)
