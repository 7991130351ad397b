-- ===== src/Store/Sample.antt =====
-- sample.go: the in-memory store of demo mode.
pub mod Listing
use contractdb.Base.{
  Bool, true, false, Option, none, some, List, [], ◌∷◌, Bytes, bytes_eq, ltb, ◌==◌, map,
  if◌then◌else◌,
}
use contractdb.Assoc.{lookup, insert, remove, bytes_key}
use contractdb.Item.{Item, Entry, Value, string, Fields, end, field}
use contractdb.Store.{Result, ok, failed, Pages, Reader, Writer, Store}

-- `gsis` keeps the attribute that each extractor reads.
pub record SampleStore : Type 0 where
  pub items : List (Bytes × Item)
  pub gsis : List (Bytes × Bytes)

-- `item[a]`, and `v, _ := item[a].(string)`
find_field : Bytes → Fields → Option Value
find_field a end = none
find_field a (field b v fs) = let rest = find_field a fs in if bytes_eq b a then some v else rest

abbrev text_of : Option Value → Bytes
text_of (some (string v)) = v
text_of _ = []

extract : Bytes → Item → Bytes
unfolding find_field
extract a none = []
extract a (some fs) = text_of (find_field a fs)

abbrev join_item : Option Item → Item
join_item none = none
join_item (some v) = v

unfoldable pub sample_get : SampleStore → Bytes → Result Item
sample_get m pk = ok (join_item (lookup pk m.items))

unfoldable pub sample_put : SampleStore → Bytes → Item → Bool × SampleStore
sample_put m pk item = (true, record m { items = insert pk item m.items })

unfoldable pub sample_delete : SampleStore → Bytes → Bool × SampleStore
sample_delete m pk = (true, record m { items = remove pk m.items })

-- Go's order of strings, and sort.Strings
unfoldable pub bytes_ltb : Bytes → Bytes → Bool
bytes_ltb s [] = false
bytes_ltb [] (d ∷ t) = true
bytes_ltb (c ∷ s) (d ∷ t) =
    let rest = bytes_ltb s t in if ltb c d then true else if c == d then rest else false

unfoldable pub insert_key : Bytes → List Bytes → List Bytes
insert_key k [] = k ∷ []
insert_key k (j ∷ ks) = let rest = insert_key k ks in if bytes_ltb k j then k ∷ j ∷ ks else j ∷ rest

unfoldable pub sort_keys : List Bytes → List Bytes
unfolding insert_key bytes_ltb
sort_keys [] = []
sort_keys (k ∷ ks) = insert_key k (sort_keys ks)

abbrev pub keys : {V : Type 0} → List (Bytes × V) → List Bytes
keys = map (λ e. e.0)

abbrev entry_of : List (Bytes × Item) → Bytes → Entry
entry_of items k = record { key = k; item = join_item (lookup k items) }

-- The page of List.
unfoldable pub sample_page : SampleStore → List Entry
unfolding sort_keys
sample_page m = map (entry_of m.items) (sort_keys (keys m.items))

unfoldable pub sample_list : SampleStore → Pages
unfolding sample_page
sample_list m = record { pages = sample_page m ∷ []; broken = false }

matching : Bytes → Bytes → List (Bytes × Item) → List Bytes → List Entry
unfolding extract
matching attr value items [] = []
matching attr value items (k ∷ ks) =
    let rest = matching attr value items ks in
    if bytes_eq (extract attr (join_item (lookup k items))) value
    then entry_of items k ∷ rest
    else rest

unfoldable pub sample_query_index : SampleStore → Bytes → Bytes → Result (List Entry)
unfolding matching sort_keys
sample_query_index m index value = elim (lookup index m.gsis) [
  | none ↦ failed
  | some attr ↦ ok (matching attr value m.items (sort_keys (keys m.items)))
]

abbrev pub sample_reader : Reader SampleStore
sample_reader = record { list = sample_list; query_index = sample_query_index }

abbrev pub sample_writer : Writer SampleStore
sample_writer = record { put = sample_put; delete = sample_delete }

abbrev pub sample_ops : Store SampleStore
sample_ops = record { get = sample_get; reader = some sample_reader; writer = some sample_writer }
