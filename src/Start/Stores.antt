-- ===== src/Start/Stores.antt =====
-- The operations of the store that serve has opened: those of the sample store or of the table.
use contractdb.Base.{Bool, false, Option, none, some, List, Bytes, ◌≡◌, ◌≢◌, ap, subst}
use contractdb.Item.{Item, Entry}
use contractdb.Store.{Result, Pages, Writer, Store}
use contractdb.Store.Sample.{sample_get, sample_put, sample_delete, sample_list, sample_query_index}
use contractdb.Store.Dynamo.{
  Client, DynamoStore, panicked, put_map, query_index, dynamo_get, dynamo_put, dynamo_delete,
  dynamo_list, dynamo_query_index,
}
use contractdb.Update.Atomic.{FailsClean}
use contractdb.Start.Server.{AnyStore, sample, dynamo}

module _ {D : Type 0} (parse_float : Bytes → Bool) (client : Client D)
    (safe : (st : DynamoStore D) (index value : Bytes)
      → query_index parse_float client st index value ≢ panicked) where
  unfoldable pub any_get : AnyStore D → Bytes → Result Item
  any_get (sample m) pk = sample_get m pk
  any_get (dynamo st) pk = dynamo_get parse_float client st pk

  unfoldable pub any_list : AnyStore D → Pages
  any_list (sample m) = sample_list m
  any_list (dynamo st) = dynamo_list parse_float client st

  unfoldable pub any_query_index : AnyStore D → Bytes → Bytes → Result (List Entry)
  any_query_index (sample m) index value = sample_query_index m index value
  any_query_index (dynamo st) index value =
      dynamo_query_index parse_float client safe st index value

  unfoldable pub any_put : AnyStore D → Bytes → Item → Bool × AnyStore D
  any_put (sample m) pk item = let (done, after) = sample_put m pk item in (done, sample after)
  any_put (dynamo st) pk item =
      let (done, after) = dynamo_put parse_float client st pk item in (done, dynamo after)

  unfoldable pub any_delete : AnyStore D → Bytes → Bool × AnyStore D
  any_delete (sample m) pk = let (done, after) = sample_delete m pk in (done, sample after)
  any_delete (dynamo st) pk =
      let (done, after) = dynamo_delete parse_float client st pk in (done, dynamo after)

  abbrev pub any_writer : Writer (AnyStore D)
  any_writer = record { put = any_put; delete = any_delete }

  abbrev pub any_ops : Store (AnyStore D)
  any_ops = record {
    get = any_get;
    reader = some (record { list = any_list; query_index = any_query_index });
    writer = some any_writer;
  }

  -- Failed writes change nothing if those of the client change nothing: the sample store's do not fail.
  pub any_writer-FailsClean :
      ((d : D) (table pk_attr pk : Bytes)
        → (client.delete_item d table pk_attr pk).0 ≡ false
        → (client.delete_item d table pk_attr pk).1 ≡ d)
      → ((st : DynamoStore D) (pk : Bytes) (item : Item)
          → (client.put_item st.client st.table (put_map st.pk_attr pk item)).0 ≡ false
          → (client.put_item st.client st.table (put_map st.pk_attr pk item)).1 ≡ st.client)
      → FailsClean any_writer
  unfolding any_put any_delete sample_put sample_delete dynamo_put dynamo_delete
  any_writer-FailsClean deleted put = record { put_clean = put_any; delete_clean = delete_any }
    where
      put_any :
          (s : AnyStore D) (pk : Bytes) (item : Item)
          → (any_put s pk item).0 ≡ false
          → (any_put s pk item).1 ≡ s
      put_any (sample m) pk item h = absurd (cc)
      put_any (dynamo st) pk item h = ap (λ d. dynamo (record st { client = d })) (put st pk item h)

      delete_any :
          (s : AnyStore D) (pk : Bytes) → (any_delete s pk).0 ≡ false → (any_delete s pk).1 ≡ s
      delete_any (sample m) pk h = absurd (cc)
      delete_any (dynamo st) pk h =
          ap (λ d. dynamo (record st { client = d })) (deleted st.client st.table st.pk_attr pk h)

  pub any_ops-FailsClean :
      FailsClean any_writer
      → (writer : Writer (AnyStore D)) → any_ops.writer ≡ some writer
      → FailsClean writer
  any_ops-FailsClean clean writer e =
      let same : any_writer ≡ writer = ap (or_any) e in subst FailsClean same clean
    where
      or_any : Option (Writer (AnyStore D)) → Writer (AnyStore D)
      or_any none = any_writer
      or_any (some w) = w
