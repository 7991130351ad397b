-- ===== src/Store/Dynamo/Reading.antt =====
-- What List and QueryIndex return.
use contractdb.Base.{
  Bool, true, Option, none, some, List, [], ◌∷◌, Bytes, bytes_eq, All, ◌≡◌, concat, refl, arith,
  inl, inr, Bool-cases, if◌then◌else◌,
}
use contractdb.Assoc.{lookup, bytes_key}
use contractdb.Item.{Entry, Fields}
use contractdb.Store.{Pages}
use contractdb.Store.Attribute.{AttributeMap, s, attr, empty_map, flatten, flatten_map}
use contractdb.Store.Dynamo.{
  Client, DynamoStore, find_attr, Queried, found, broken_off, page_entries, list_pages, query_attrs,
  query_item, query_page, query_pages, query_index,
}

-- An attribute does not stand twice in a map.
abbrev pub Once : Bytes → AttributeMap → Type 0
Once k empty_map = Unit
Once k (attr j v av) = (bytes_eq j k ≡ true → find_attr k av ≡ none) × Once k av

-- The items of a table whose partition key is a string.
abbrev pub IsKeyed : Bytes → AttributeMap → Type 0
IsKeyed pk_attr av = Once pk_attr av × ((t : Bytes) × (find_attr pk_attr av ≡ some (s t)))

module _ (parse_float : Bytes → Bool) {D : Type 0} (client : Client D) (pk_attr : Bytes) where
  -- What a loop over attributes returns for the key and the flattened map.
  abbrev whole : Bytes → Option Fields → Queried (Bytes × Fields)
  whole key none = broken_off
  whole key (some fs) = found (key, fs)

  query_attrs_absent :
      (key : Bytes) (av : AttributeMap)
      → find_attr pk_attr av ≡ none
      → query_attrs parse_float client pk_attr key av ≡ whole key (flatten_map parse_float av)
  unfolding query_attrs flatten find_attr
  query_attrs_absent key empty_map h = refl
  query_attrs_absent key (attr k v av) h = elim (Bool-cases (bytes_eq k pk_attr)) [
    | inl e ↦ absurd (ground arith)
    | inr e ↦ ground (arith, query_attrs_absent key av, e)
  ]

  query_attrs_keyed :
      (key t : Bytes) (av : AttributeMap)
      → Once pk_attr av
      → find_attr pk_attr av ≡ some (s t)
      → query_attrs parse_float client pk_attr key av ≡ whole t (flatten_map parse_float av)
  unfolding query_attrs flatten find_attr
  query_attrs_keyed key t empty_map o h = absurd (cc)
  query_attrs_keyed key t (attr k v av) (o, os) h = elim (Bool-cases (bytes_eq k pk_attr)) [
    | inl e ↦
        let text : v ≡ s t = ground (arith, e) in
        let behind : find_attr pk_attr av ≡ none = o e in ground (arith, query_attrs_absent t av, e)
    | inr e ↦
        let behind : find_attr pk_attr av ≡ some (s t) = ground (arith, e) in
        ground (arith, query_attrs_keyed key t av os, e)
  ]

  -- A page of a query as a page of a scan.
  abbrev pub listed : Option (List Entry) → Queried (List Entry)
  listed none = broken_off
  listed (some es) = found es

  query_page-page_entries :
      (page : List AttributeMap)
      → All (IsKeyed pk_attr) page
      → query_page parse_float client pk_attr page
        ≡ listed (page_entries parse_float client pk_attr page)
  unfolding query_page query_item page_entries
  query_page-page_entries [] h = refl
  query_page-page_entries (av ∷ page) ((once, (t, at)), hs) =
      ground (arith, query_attrs_keyed [] t av once at, at, query_page-page_entries page hs)

  -- All entries of pages that no error ends.
  abbrev pub gathered : Pages → Queried (List Entry)
  gathered p = if p.broken then broken_off else found (concat p.pages)

  query_pages-list_pages :
      (pages : List (List AttributeMap)) (broken : Bool)
      → All (All (IsKeyed pk_attr)) pages
      → query_pages parse_float client pk_attr pages broken
        ≡ gathered (list_pages parse_float client pk_attr pages broken)
  unfolding query_pages list_pages
  query_pages-list_pages [] broken h = refl
  query_pages-list_pages (page ∷ pages) broken (h, hs) =
      ground (arith, query_page-page_entries page h, query_pages-list_pages pages broken hs)

module _ (parse_float : Bytes → Bool) {D : Type 0} (client : Client D) where
  -- When every item that the query returns has one partition key and that is a string, QueryIndex of a
  -- configured index does not panic: it returns the entries that List would make of the same pages, in
  -- their order, and an error exactly when List would end with one.
  pub query_index-list_pages :
      (st : DynamoStore D) (index value attribute : Bytes)
      → lookup index st.gsi_attrs ≡ some attribute
      → All (All (IsKeyed st.pk_attr)) (client.query st.client st.table index attribute value).items
      → query_index parse_float client st index value
        ≡ gathered parse_float client st.pk_attr (
            list_pages parse_float client st.pk_attr
              (client.query st.client st.table index attribute value).items
              (client.query st.client st.table index attribute value).broken)
  unfolding query_index
  query_index-list_pages st index value attribute at keyed =
      rw (at, query_index)
        (query_pages-list_pages parse_float client st.pk_attr
          (client.query st.client st.table index attribute value).items
          (client.query st.client st.table index attribute value).broken keyed)
