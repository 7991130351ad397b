-- ===== src/Store/Sample/Listing.antt =====
-- The listing of the sample store.
use mathlib.Core.List.{Perm}
use mathlib.Core.List.Perm
use contractdb.Base.{
  true, false, none, some, List, [], ◌∷◌, Bytes, bytes_eq_iff, bytes_eq_refl, map, All, ◌≡◌, inl,
  inr, refl, sym, ap, subst, arith, Bool-cases, if◌then◌else◌,
}
use contractdb.Assoc.{lookup, bytes_key, Distinct}
use contractdb.Item.{Item, Entry}
use contractdb.Store.Sample.{
  SampleStore, bytes_ltb, insert_key, sort_keys, keys, entry_of, sample_page, sample_list,
}

-- No key is in front of a smaller one.
abbrev pub Ascending : List Bytes → Type 0
Ascending [] = Unit
Ascending (k ∷ []) = Unit
Ascending (k ∷ j ∷ ks) = (bytes_ltb j k ≡ false) × Ascending (j ∷ ks)

bytes_ltb_asymm : (s t : Bytes) → bytes_ltb s t ≡ true → bytes_ltb t s ≡ false
unfolding bytes_ltb
bytes_ltb_asymm s [] h = absurd (cc)
bytes_ltb_asymm [] (d ∷ t) h = refl
bytes_ltb_asymm (c ∷ s) (d ∷ t) h = ground (arith, bytes_ltb_asymm s t)

-- Insertion behind a key `j` that is not larger.
insert_key-Ascending_after :
    (j k : Bytes) (ks : List Bytes)
    → bytes_ltb k j ≡ false
    → Ascending (j ∷ ks)
    → Ascending (insert_key k ks)
    → Ascending (j ∷ insert_key k ks)
unfolding insert_key
insert_key-Ascending_after j k [] h a b = (h, b)
insert_key-Ascending_after j k (i ∷ ks) h a b = elim (Bool-cases (bytes_ltb k i)) [
  | inl less ↦
      rw less (h, subst Ascending (ap (λ c. if c then k ∷ i ∷ ks else i ∷ insert_key k ks) less) b)
  | inr more ↦
      rw more
        (a.0, subst Ascending (ap (λ c. if c then k ∷ i ∷ ks else i ∷ insert_key k ks) more) b)
]

tail-Ascending : (k : Bytes) (ks : List Bytes) → Ascending (k ∷ ks) → Ascending ks
tail-Ascending k [] a = tt
tail-Ascending k (j ∷ ks) a = a.1

insert_key-Ascending : (k : Bytes) (ks : List Bytes) → Ascending ks → Ascending (insert_key k ks)
unfolding insert_key
insert_key-Ascending k [] a = tt
insert_key-Ascending k (j ∷ ks) a = elim (Bool-cases (bytes_ltb k j)) [
  | inl less ↦ rw less (bytes_ltb_asymm k j less, a)
  | inr more ↦
      rw more (
        insert_key-Ascending_after j k ks more a
          (insert_key-Ascending k ks (tail-Ascending j ks a)))
]

sort_keys-Ascending : (ks : List Bytes) → Ascending (sort_keys ks)
unfolding sort_keys
sort_keys-Ascending [] = tt
sort_keys-Ascending (k ∷ ks) = insert_key-Ascending k (sort_keys ks) (sort_keys-Ascending ks)

insert_key-Perm : (k : Bytes) (ks : List Bytes) → Perm (insert_key k ks) (k ∷ ks)
unfolding insert_key
insert_key-Perm k [] = Perm.refl (k ∷ [])
insert_key-Perm k (j ∷ ks) = elim (Bool-cases (bytes_ltb k j)) [
  | inl less ↦ rw less (Perm.refl (k ∷ j ∷ ks))
  | inr more ↦ rw more (Perm.trans (Perm.cons j (insert_key-Perm k ks)) (Perm.swap k j ks))
]

sort_keys-Perm : (ks : List Bytes) → Perm (sort_keys ks) ks
unfolding sort_keys
sort_keys-Perm [] = Perm.refl []
sort_keys-Perm (k ∷ ks) =
    Perm.trans (insert_key-Perm k (sort_keys ks)) (Perm.cons k (sort_keys-Perm ks))

abbrev pub pair_of : Entry → Bytes × Item
pair_of e = (e.key, e.item)

-- The map has the entries of the list.
abbrev Covers : List (Bytes × Item) → List (Bytes × Item) → Type 0
Covers items = All (λ p. lookup p.0 items ≡ some p.1)

Covers-cons :
    (j : Bytes) (v : Item) (items rest : List (Bytes × Item))
    → lookup j items ≡ none
    → Covers items rest
    → Covers ((j, v) ∷ items) rest
unfolding lookup
Covers-cons j v items [] new c = tt
Covers-cons j v items ((k, w) ∷ rest) new (here, more) =
    (ground (arith, bytes_eq_iff j k), Covers-cons j v items rest new more)

Covers-self : (items : List (Bytes × Item)) → Distinct items → Covers items items
unfolding lookup
Covers-self [] d = tt
Covers-self ((j, v) ∷ items) (new, d) =
    (rw (bytes_eq_refl j) refl, Covers-cons j v items items new (Covers-self items d))

map-keys :
    (items rest : List (Bytes × Item))
    → Covers items rest
    → map (λ k. pair_of (entry_of items k)) (keys rest) ≡ rest
map-keys items [] c = refl
map-keys items ((k, w) ∷ rest) (here, more) = rw (here, map-keys items rest more) refl

map-entry_of :
    (items : List (Bytes × Item)) (ks : List Bytes)
    → (map (λ (e : Entry). e.key) (map (entry_of items) ks) ≡ ks)
      × (map pair_of (map (entry_of items) ks) ≡ map (λ k. pair_of (entry_of items k)) ks)
map-entry_of items [] = (refl, refl)
map-entry_of items (k ∷ ks) =
    let (a, b) = map-entry_of items ks in (ap (◌∷◌ k) a, ap (◌∷◌ (pair_of (entry_of items k))) b)

-- A listing of the sample store does not fail, and is one page: its keys ascend, and its entries
-- are exactly those of the map, in some order.
pub sample_list_lem :
    (m : SampleStore)
    → Distinct m.items
    → (page : List Entry) × ((sample_list m).pages ≡ page ∷ [])
      × ((sample_list m).broken ≡ false)
      × Ascending (map (λ (e : Entry). e.key) page)
      × Perm (map pair_of page) m.items
unfolding sample_list sample_page
sample_list_lem m d =
    let (ks, ps) = map-entry_of m.items (sort_keys (keys m.items)) in
    (
      sample_page m,
      refl,
      refl,
      subst Ascending (sym ks) (sort_keys-Ascending (keys m.items)),
      subst (λ l. Perm l m.items) (sym ps)
          (subst (Perm (map (λ k. pair_of (entry_of m.items k)) (sort_keys (keys m.items))))
            (map-keys m.items m.items (Covers-self m.items d))
            (Perm.map (λ k. pair_of (entry_of m.items k)) (sort_keys-Perm (keys m.items)))),
    )
