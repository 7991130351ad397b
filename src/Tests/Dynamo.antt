-- ===== src/Tests/Dynamo.antt =====
-- The DynamoDB store.
use contractdb.Base.{
  Bool, true, false, Option, none, some, [], ◌∷◌, Bytes, codes, bytes_eq, ◌≡◌, refl,
}
use contractdb.Assoc.{lookup, bytes_key, insert, remove}
use contractdb.Text.{to_lower, lower, split, has_suffix}
use contractdb.Text.Space.{trim_space, trim_left, trim_right, cut, has_byte}
use contractdb.Item.{string, float, Fields, end, field}
use contractdb.Store.{ok}
use contractdb.Store.Attribute.{AttributeMap, s, n, attr, empty_map, unflatten}
use contractdb.Store.Attribute.RoundTrip.{stored_fields, FieldsNumeric}
use contractdb.Store.Dynamo.{
  Client, DynamoStore, put_map, find_attr, new_full_dynamo_store, dynamo_get, dynamo_put,
  list_pages, query_index,
}
use contractdb.Store.Dynamo.Writing.{IsTable, fields_but, dynamo_get-put}
use contractdb.Store.Dynamo.Reading.{gathered, query_index-list_pages}
use contractdb.Auth.{build_tsig, load_tsig_keys, load_tsig_keys_inline, new_hmac_provider}
use contractdb.Base64.{decode_string}
use contractdb.Start.{pick, final_gsis, final_ttl}
use contractdb.Start.Configure.{configure, settings}
use contractdb.Start.Server.{cmd_serve}

program : Unit {0}
unfolding configure settings to_lower lower bytes_eq trim_space trim_left trim_right cut has_byte
    split lookup insert remove cmd_serve pick final_gsis final_ttl build_tsig load_tsig_keys
    load_tsig_keys_inline new_hmac_provider decode_string
program = tt

abbrev any_number : Bytes → Bool
any_number text = true

-- A table with room for one item, of which every page of a query holds the same
abbrev item_av : AttributeMap
item_av = attr (codes "pk") (s (codes "k")) (attr (codes "n") (n (codes "1")) empty_map)

abbrev client : Client (Option AttributeMap)
client = record {
  get_item = λ d table attribute pk consistent. ok d;
  put_item = λ d table av. (true, some av);
  delete_item = λ d table attribute pk. (true, none);
  scan = λ d table. record { items = []; broken = false };
  query = λ d table index attribute v. record { items = (item_av ∷ []) ∷ []; broken = false };
}

-- An item without a number that ends in a zero
abbrev Short : AttributeMap → Type 0
Short empty_map = Unit
Short (attr k (n t) av) = (has_suffix t (codes "0") ≡ false) × Short av
Short (attr k v av) = Short av

client-IsTable : IsTable client Short
client-IsTable = record {
  got_put = λ d table attribute pk av kept h. refl;
  got_deleted = λ d table attribute pk h. refl;
}

abbrev table : DynamoStore (Option AttributeMap)
table = new_full_dynamo_store none (codes "t") (codes "pk") true ((codes "idx", codes "n") ∷ [])

abbrev new_fields : Fields
new_fields = field (codes "v") (float (codes "2")) end

dynamo_get-put_example :
    dynamo_get any_number client
      ((dynamo_put any_number client table (codes "k") (some new_fields)).1)
      (codes "k")
    ≡ ok (
        some (
          field
            (codes "pk")
            (string (codes "k"))
            (stored_fields (fields_but (codes "pk") new_fields))))
unfolding dynamo_put FieldsNumeric put_map has_suffix unflatten
dynamo_get-put_example =
    dynamo_get-put any_number client Short client-IsTable table (codes "k") refl new_fields
      (refl, tt) (refl, tt) refl

query_index-list_pages_example :
    query_index any_number client table (codes "idx") (codes "1")
    ≡ gathered any_number client
        (codes "pk")
        (list_pages any_number client (codes "pk") ((item_av ∷ []) ∷ []) false)
unfolding lookup bytes_eq find_attr
query_index-list_pages_example =
    query_index-list_pages any_number client table (codes "idx") (codes "1") (codes "n") refl
      (((((λ e. refl), ((λ e. absurd (cc)), tt)), (codes "k", refl)), tt), tt)
