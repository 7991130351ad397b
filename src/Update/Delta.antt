-- ===== src/Update/Delta.antt =====
-- The delta that an update journals, against the zone before and behind it.
use mathlib.Core.List.{Perm, perm_middle}
use mathlib.Core.List.Perm
use mathlib.Core.Option
use contractdb.Base.{
  length, ◌≤◌, true, Option, none, some, List, [], ◌∷◌, ◌++◌, Bytes, bytes_eq, bytes_eq_iff, map,
  ◌≡◌, ◌≢◌, inl, inr, refl, sym, ap, subst, ◌∙◌, arith, Bool-cases, Option-cases, append-nil,
}
use contractdb.Assoc.{lookup, insert, remove, remove_absent, bytes_key, Distinct}
use contractdb.Dns.{Rr, Msg}
use contractdb.Item.{Item}
use contractdb.Store.Sample.{
  SampleStore, sample_ops, sample_writer, sample_get, sample_put, sample_delete,
}
use contractdb.Journal.{succ32, log_record}
use contractdb.Update.Atomic.{Applied, apply_one_done, finish-Applied}
use contractdb.Handler.{Handler, Config, Env, item_rrs}
use contractdb.Transfer.{page_rrs}
use contractdb.Store.{ok}
use contractdb.Update.Effects.{insertion_key}
use contractdb.Update.{
  Updated, go_on, pks, key_set, Insertion, write, old_rrs, insertion_rrs, plan, apply, apply_plan,
  process_with, process_update,
}

module _ (env : Env) (cfg : Config) where
  -- The records of a table, as a transfer renders them.
  unfoldable pub table_rrs : List (Bytes × Item) → List Rr
  table_rrs items =
      page_rrs env sample_ops cfg
        (map (λ (p : Bytes × Item). record { key = p.0; item = p.1 }) items)

  -- The records of one item, none if it cannot be marshalled.
  abbrev pub rrs_of : Bytes → Item → List Rr
  rrs_of key item = elim (item_rrs env.json cfg key item) [ none ↦ [] | some rrs ↦ rrs ]

  pub table_rrs-cons :
      (key : Bytes) (item : Item) (items : List (Bytes × Item))
      → table_rrs ((key, item) ∷ items) ≡ rrs_of key item ++ table_rrs items
  unfolding table_rrs page_rrs
  table_rrs-cons key item items = ground arith

  -- The records of the entry of a key.
  abbrev found_rrs : Bytes → Option Item → List Rr
  found_rrs key none = []
  found_rrs key (some item) = rrs_of key item

  pub Perm-front : (xs ys zs : List Rr) → Perm (xs ++ (ys ++ zs)) (ys ++ (xs ++ zs))
  Perm-front [] ys zs = Perm.refl (ys ++ zs)
  Perm-front (x ∷ xs) ys zs =
      Perm.trans (Perm.cons x (Perm-front xs ys zs)) (Perm.symm (perm_middle ys (xs ++ zs)))

  table_rrs-remove :
      (key : Bytes) (items : List (Bytes × Item))
      → Distinct items
      → Perm (table_rrs items) (found_rrs key (lookup key items) ++ table_rrs (remove key items))
  unfolding lookup remove
  table_rrs-remove key [] d = Perm.refl (table_rrs [])
  table_rrs-remove key ((j, v) ∷ items) (new, d) = elim (Bool-cases (bytes_eq j key)) [
    | inl same ↦ rw same (
        subst (λ k. Perm (table_rrs ((j, v) ∷ items)) (rrs_of k v ++ table_rrs (remove k items)))
          ((bytes_eq_iff j key).0 same)
          (rw (remove_absent j items new, table_rrs-cons j v items)
            (Perm.refl (rrs_of j v ++ table_rrs items))))
    | inr other ↦
        rw (other, table_rrs-cons j v items, table_rrs-cons j v (remove key items))
          (Perm.trans (Perm.append_left (rrs_of j v) (table_rrs-remove key items d)) (
            Perm-front (rrs_of j v) (found_rrs key (lookup key items))
              (table_rrs (remove key items))))
  ]

  -- With the removals of a delta put back and its additions taken off, the table behind an update
  -- has the records of the table before.
  delta_items :
      (key : Bytes) (items : List (Bytes × Item))
      → Distinct items
      → (removed added : List Rr) → found_rrs key (lookup key items) ≡ removed
      → (after : List (Bytes × Item)) → table_rrs after ≡ added ++ table_rrs (remove key items)
      → Perm (removed ++ table_rrs after) (added ++ table_rrs items)
  delta_items key items d removed added r after a = rw a (
      Perm.trans (Perm-front removed added (table_rrs (remove key items))) (
        Perm.append_left added (
          Perm.symm (
            subst (λ l. Perm (table_rrs items) (l ++ table_rrs (remove key items))) r
              (table_rrs-remove key items d)))))

  found_rrs-old :
      (s : SampleStore) (key : Bytes) (old : Item)
      → (found : Option Item) → lookup key s.items ≡ found
      → sample_get s key ≡ ok old
      → found ≢ some none
      → found_rrs key found ≡ old_rrs env.json cfg key old
  unfolding sample_get old_rrs
  found_rrs-old s key none none e g nil = refl
  found_rrs-old s key (some fs) none e g nil = ground arith
  found_rrs-old s key old (some none) e g nil = absurd (nil refl)
  found_rrs-old s key none (some (some fs)) e g nil = ground arith
  found_rrs-old s key (some gs) (some (some fs)) e g nil = ground arith

  insertion_rrs_one :
      (ins : Insertion) → insertion_rrs env.json cfg (ins ∷ []) ≡ rrs_of ins.pk ins.item
  unfolding insertion_rrs
  insertion_rrs_one ins = elim (Option-cases (item_rrs env.json cfg ins.pk ins.item)) [
    | inl e ↦ ground arith
    | inr (rrs, e) ↦ ground (arith, append-nil rrs)
  ]

  added_rrs :
      (s : SampleStore) (deletes : List Bytes) (key : Bytes) (inserts : List Insertion)
      → key_set (deletes ++ pks inserts) ≡ key ∷ []
      → length inserts ≤ 1
      → table_rrs (write env sample_ops sample_writer s key inserts).1.items
        ≡ insertion_rrs env.json cfg inserts ++ table_rrs (remove key s.items)
  unfolding write sample_put sample_delete insert
  added_rrs s deletes key [] one few = unfold insertion_rrs in refl
  added_rrs s deletes key (ins ∷ []) one few =
      table_rrs-cons ins.pk ins.item (remove ins.pk s.items)
      ∙ ap (λ l. l ++ table_rrs (remove ins.pk s.items)) (sym (insertion_rrs_one ins))
      ∙ ap (λ k. insertion_rrs env.json cfg (ins ∷ []) ++ table_rrs (remove k s.items))
          (insertion_key deletes ins [] key one)
  added_rrs s deletes key (ins ∷ ins' ∷ rest) one few = absurd (omega arith)

-- A write of one insertion or none, at a key that holds no nil item, exchanges the records of the item
-- that is there for those of the insertion.
pub write-Perm :
    (env : Env) (cfg : Config) (s : SampleStore) (deletes : List Bytes) (key : Bytes)
    (inserts : List Insertion) (old : Item)
    → key_set (deletes ++ pks inserts) ≡ key ∷ []
    → length inserts ≤ 1
    → Distinct s.items
    → lookup key s.items ≢ some none
    → sample_get s key ≡ ok old
    → Perm
        (old_rrs env.json cfg key old
          ++ table_rrs env cfg (write env sample_ops sample_writer s key inserts).1.items)
        (insertion_rrs env.json cfg inserts ++ table_rrs env cfg s.items)
write-Perm env cfg s deletes key inserts old one few d nil was =
    delta_items env cfg key s.items d (old_rrs env.json cfg key old)
      (insertion_rrs env.json cfg inserts)
      (found_rrs-old env cfg s key old (lookup key s.items) refl was nil)
      (write env sample_ops sample_writer s key inserts).1.items
      (added_rrs env cfg s deletes key inserts one few)

sample_get_total : (s : SampleStore) (key : Bytes) → (old : Item) × (sample_get s key ≡ ok old)
unfolding sample_get
sample_get_total s key = elim (Option-cases (lookup key s.items)) [
  | inl e ↦ (none, ground arith)
  | inr (item, e) ↦ (item, ground arith)
]

sample_write_succeeds :
    (env : Env) (s : SampleStore) (key : Bytes) (inserts : List Insertion)
    → (write env sample_ops sample_writer s key inserts).0 ≡ true
unfolding write sample_put sample_delete
sample_write_succeeds env s key [] = refl
sample_write_succeeds env s key (ins ∷ rest) = refl

-- What an update that is carried out with one insertion or none has journalled is the exact
-- difference.
pub delta-Applied :
    (env : Env) (h : Handler SampleStore) (deletes : List Bytes) (key : Bytes)
    (inserts : List Insertion) (u : Updated SampleStore)
    → key_set (deletes ++ pks inserts) ≡ key ∷ []
    → length inserts ≤ 1
    → Distinct h.store.items
    → lookup key h.store.items ≢ some none
    → Applied env sample_ops h sample_writer key inserts u
    → (removed added : List Rr) × (u.handler.changelog
        ≡ Option.map (λ c. log_record c (succ32 h.serial) removed added) h.changelog)
      × Perm
          (removed ++ table_rrs env h.cfg u.handler.store.items)
          (added ++ table_rrs env h.cfg h.store.items)
delta-Applied env h deletes key inserts u one few d nil done =
    let removed = old_rrs env.json h.cfg key done.old in
    let added = insertion_rrs env.json h.cfg inserts in
    (
      removed,
      added,
      done.changelog,
      subst
          (λ (s : SampleStore).
            Perm (removed ++ table_rrs env h.cfg s.items)
              (added ++ table_rrs env h.cfg h.store.items))
          (sym done.store)
          (write-Perm env h.cfg h.store deletes key inserts done.old one few d nil done.was),
    )

-- An update of the sample store that is planned for one key is carried out.
process_update-Applied :
    (env : Env) (h : Handler SampleStore) (req : Msg) (deletes : List Bytes) (key : Bytes)
    (inserts : List Insertion)
    → plan env sample_ops h req ≡ go_on (deletes, inserts)
    → key_set (deletes ++ pks inserts) ≡ key ∷ []
    → Applied env sample_ops h sample_writer key inserts (process_update env sample_ops h req)
unfolding process_update process_with apply_plan apply
process_update-Applied env h req deletes key inserts p one =
    let (old, was) = sample_get_total h.store key in
    let good = sample_write_succeeds env h.store key inserts in
    rw (p, apply_plan, one, apply_one_done env sample_ops h sample_writer key inserts old was good)
      (finish-Applied env sample_ops h sample_writer key inserts old was good)

-- An update of the sample store whose packet plans changes of one key, with one insertion or none,
-- where no nil item is stored at that key: processUpdate makes the serial the next one and, if there
-- is a journal, records under it the exact difference. The zone behind the update with the removed
-- records is the zone before it with the added records, in some order.
pub process_update-delta :
    (env : Env) (h : Handler SampleStore) (req : Msg) (deletes : List Bytes) (key : Bytes)
    (inserts : List Insertion)
    → plan env sample_ops h req ≡ go_on (deletes, inserts)
    → key_set (deletes ++ pks inserts) ≡ key ∷ []
    → length inserts ≤ 1
    → Distinct h.store.items
    → lookup key h.store.items ≢ some none
    → (removed added : List Rr) × ((process_update env sample_ops h req).handler.changelog
        ≡ Option.map (λ c. log_record c (succ32 h.serial) removed added) h.changelog)
      × ((process_update env sample_ops h req).handler.serial ≡ succ32 h.serial)
      × Perm
          (removed ++ table_rrs env h.cfg (process_update env sample_ops h req).handler.store.items)
          (added ++ table_rrs env h.cfg h.store.items)
process_update-delta env h req deletes key inserts p one few d nil =
    let done = process_update-Applied env h req deletes key inserts p one in
    let (removed, added, logged, exact) =
      delta-Applied env h deletes key inserts (process_update env sample_ops h req) one few d nil
        done in
    (removed, added, logged, done.serial, exact)
