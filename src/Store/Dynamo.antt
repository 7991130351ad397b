-- ===== src/Store/Dynamo.antt =====
-- store.go: the store of a DynamoDB table.
pub mod Reading
pub mod Writing
use contractdb.Base.{
  Bool, true, false, Option, none, some, List, [], ◌∷◌, ◌++◌, Bytes, bytes_eq, ◌≢◌, refl,
  if◌then◌else◌,
}
use contractdb.Assoc.{lookup, bytes_key}
use contractdb.Item.{Item, Entry, Value, string, Fields, end, field}
use contractdb.Store.{Result, ok, failed, Pages, Reader, Writer, Store}
use contractdb.Store.Attribute.{
  AttributeValue, AttributeMap, s, empty_map, attr, flatten, flatten_map, unflatten,
}

-- What a paginator returns: its pages of items, and whether an error ends them.
pub record Paged : Type 0 where
  pub items : List (List AttributeMap)
  pub broken : Bool

-- The DynamoDB client, over the state `D` of the tables. A call names its table, then as the request
-- does: the key's attribute and value, the item, or the index, the attribute and its value.
pub record Client (D : Type 0) : Type 0 where
  pub get_item : D → Bytes → Bytes → Bytes → Bool → Result (Option AttributeMap)
  pub put_item : D → Bytes → AttributeMap → Bool × D
  pub delete_item : D → Bytes → Bytes → Bytes → Bool × D
  pub scan : D → Bytes → Paged
  pub query : D → Bytes → Bytes → Bytes → Bytes → Paged

-- dynamoStore; `client` is the state that its client stands for.
pub record DynamoStore (D : Type 0) : Type 0 where
  pub client : D
  pub table : Bytes
  pub pk_attr : Bytes
  pub consistent : Bool
  pub gsi_attrs : List (Bytes × Bytes)

-- NewFullDynamoStore
abbrev pub new_full_dynamo_store :
    {D : Type 0} → D → Bytes → Bytes → Bool → List (Bytes × Bytes) → DynamoStore D
new_full_dynamo_store client table pk_attr consistent gsi_attrs = record {
  client = client;
  table = table;
  pk_attr = pk_attr;
  consistent = consistent;
  gsi_attrs = gsi_attrs;
}

-- `av[k]`
unfoldable pub find_attr : Bytes → AttributeMap → Option AttributeValue
find_attr k empty_map = none
find_attr k (attr j v av) = let rest = find_attr k av in if bytes_eq j k then some v else rest

-- The attributes of an item but for one
unfoldable pub unflatten_but : Bytes → Fields → AttributeMap
unflatten_but pk_attr end = empty_map
unflatten_but pk_attr (field k v fs) =
    let rest = unflatten_but pk_attr fs in
    if bytes_eq k pk_attr then rest else attr k (unflatten v) rest

-- The map that Put sends. A nil item has no attributes.
unfoldable pub put_map : Bytes → Bytes → Item → AttributeMap
unfolding unflatten_but
put_map pk_attr pk none = attr pk_attr (s pk) empty_map
put_map pk_attr pk (some fs) = attr pk_attr (s pk) (unflatten_but pk_attr fs)

-- `pkAv.(*types.AttributeValueMemberS)`
abbrev pub string_attr : Option AttributeValue → Option Bytes
string_attr (some (s v)) = some v
string_attr _ = none

-- `flat.(string)`; `none` is its panic.
abbrev pub assert_string : Value → Option Bytes
assert_string (string v) = some v
assert_string _ = none

-- What becomes of one item of a query: its entry, an error, or the panic of `flat.(string)`.
pub data Queried (A : Type 0) : Type 0 where
  found : A → Queried A
  broken_off : Queried A
  panicked : Queried A

module _ {D : Type 0} (parse_float : Bytes → Bool) (client : Client D) where
  abbrev flat_item : Option AttributeMap → Result Item
  flat_item none = ok none
  flat_item (some av) = elim (flatten_map parse_float av) [ none ↦ failed | some fs ↦ ok (some fs) ]

  abbrev got : Result (Option AttributeMap) → Result Item
  got failed = failed
  got (ok av) = flat_item av

  unfoldable pub dynamo_get : DynamoStore D → Bytes → Result Item
  dynamo_get st pk = got (client.get_item st.client st.table st.pk_attr pk st.consistent)

  unfoldable pub dynamo_put : DynamoStore D → Bytes → Item → Bool × DynamoStore D
  unfolding put_map
  dynamo_put st pk item =
      let (done, after) = client.put_item st.client st.table (put_map st.pk_attr pk item) in
      (done, record st { client = after })

  unfoldable pub dynamo_delete : DynamoStore D → Bytes → Bool × DynamoStore D
  dynamo_delete st pk =
      let (done, after) = client.delete_item st.client st.table st.pk_attr pk in
      (done, record st { client = after })

  -- The entries of a page of List; `none` is the error of flatten.
  unfoldable pub page_entries : Bytes → List AttributeMap → Option (List Entry)
  unfolding find_attr
  page_entries pk_attr [] = some []
  page_entries pk_attr (av ∷ avs) =
      let rest = page_entries pk_attr avs in
      elim (string_attr (find_attr pk_attr av)) [
        | none ↦ rest
        | some key ↦ elim (flatten_map parse_float av) [
          | none ↦ none
          | some fs ↦ elim rest [
            | none ↦ none
            | some es ↦ some (record { key = key; item = some fs } ∷ es)
          ]
        ]
      ]

  -- The pages that the callback sees, and whether an error ends them.
  unfoldable pub list_pages : Bytes → List (List AttributeMap) → Bool → Pages
  unfolding page_entries
  list_pages pk_attr [] broken = record { pages = []; broken = broken }
  list_pages pk_attr (page ∷ pages) broken =
      let rest = list_pages pk_attr pages broken in
      elim (page_entries pk_attr page) [
        | none ↦ record { pages = []; broken = true }
        | some es ↦ record rest { pages = es ∷ rest.pages }
      ]

  unfoldable pub dynamo_list : DynamoStore D → Pages
  unfolding list_pages
  dynamo_list st =
      let paged = client.scan st.client st.table in list_pages st.pk_attr paged.items paged.broken

  -- The loop over the attributes of an item: its fields, and the key if the partition key is among them.
  unfoldable pub query_attrs : Bytes → Bytes → AttributeMap → Queried (Bytes × Fields)
  query_attrs pk_attr key empty_map = found (key, end)
  query_attrs pk_attr key (attr k v av) = elim (flatten parse_float v) [
    | none ↦ broken_off
    | some flat ↦
        let next : Bytes → Queried (Bytes × Fields) = λ key'. elim (query_attrs pk_attr key' av) [
          | found (last, fs) ↦ found (last, field k flat fs)
          | broken_off ↦ broken_off
          | panicked ↦ panicked
        ] in
        if bytes_eq k pk_attr
        then elim (assert_string flat) [ none ↦ panicked | some key' ↦ next key' ]
        else next key
  ]

  unfoldable pub query_item : Bytes → AttributeMap → Queried Entry
  unfolding query_attrs
  query_item pk_attr av = elim (query_attrs pk_attr [] av) [
    | found (key, fs) ↦ found (record { key = key; item = some fs })
    | broken_off ↦ broken_off
    | panicked ↦ panicked
  ]

  unfoldable pub query_page : Bytes → List AttributeMap → Queried (List Entry)
  unfolding query_item
  query_page pk_attr [] = found []
  query_page pk_attr (av ∷ avs) = elim (query_item pk_attr av) [
    | found e ↦ elim (query_page pk_attr avs) [
      | found es ↦ found (e ∷ es)
      | broken_off ↦ broken_off
      | panicked ↦ panicked
    ]
    | broken_off ↦ broken_off
    | panicked ↦ panicked
  ]

  -- The pages one after the other; at their end the paginator may fail.
  unfoldable pub query_pages : Bytes → List (List AttributeMap) → Bool → Queried (List Entry)
  unfolding query_page
  query_pages pk_attr [] broken = if broken then broken_off else found []
  query_pages pk_attr (page ∷ pages) broken = elim (query_page pk_attr page) [
    | found es ↦ elim (query_pages pk_attr pages broken) [
      | found fs ↦ found (es ++ fs)
      | broken_off ↦ broken_off
      | panicked ↦ panicked
    ]
    | broken_off ↦ broken_off
    | panicked ↦ panicked
  ]

  -- QueryIndex, with its panic
  unfoldable pub query_index : DynamoStore D → Bytes → Bytes → Queried (List Entry)
  unfolding query_pages
  query_index st index value = elim (lookup index st.gsi_attrs) [
    | none ↦ broken_off
    | some a ↦
        let paged = client.query st.client st.table index a value in
        query_pages st.pk_attr paged.items paged.broken
  ]

  -- Where QueryIndex does not panic it returns.
  settled : (r : Queried (List Entry)) → r ≢ panicked → Result (List Entry)
  settled (found es) safe = ok es
  settled broken_off safe = failed
  settled panicked safe = absurd (safe refl)

  module _
      (safe : (st : DynamoStore D) (index value : Bytes)
        → query_index st index value ≢ panicked) where
    unfoldable pub dynamo_query_index : DynamoStore D → Bytes → Bytes → Result (List Entry)
    unfolding settled
    dynamo_query_index st index value = settled (query_index st index value) (safe st index value)

    abbrev pub dynamo_ops : Store (DynamoStore D)
    dynamo_ops = record {
      get = dynamo_get;
      reader = some (record { list = dynamo_list; query_index = dynamo_query_index });
      writer = some (record { put = dynamo_put; delete = dynamo_delete });
    }
