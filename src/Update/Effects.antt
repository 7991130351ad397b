-- ===== src/Update/Effects.antt =====
-- Updates carried out on the sample store, and the reads and journals behind them.
use mathlib.Core.Option
use mathlib.Core.Option.{some-injective}
use contractdb.Base.{
  true, none, some, List, [], ◌∷◌, ◌++◌, Bytes, bytes_eq, bytes_eq_iff, bytes_eq_refl, ◌≡◌, refl,
  sym, subst, ◌∙◌, arith, append_assoc, append-nil, if◌then◌else◌,
}
use contractdb.Assoc.{bytes_key, lookup-insert, lookup-remove}
use contractdb.Dns.{Rr}
use contractdb.Item.{Item}
use contractdb.Store.{ok, Writer}
use contractdb.Store.Sample.{
  SampleStore, sample_ops, sample_writer, sample_get, sample_put, sample_delete,
}
use contractdb.Journal.{succ32, log_record}
use contractdb.Handler.{Config, Handler, Env, item_rrs}
use contractdb.Update.{Insertion, pks, contains, key_set, Updated, write, insertion_rrs, old_rrs}
use contractdb.Update.Atomic.{Applied, FailsClean}

-- A key of the list is in its set.
contains-key_set :
    (k : Bytes) (ks : List Bytes) → contains k ks ≡ true → contains k (key_set ks) ≡ true
unfolding contains key_set
contains-key_set k [] h = h
contains-key_set k (j ∷ ks) h =
    ground (arith, contains-key_set k ks, bytes_eq_iff j k, contains-key_set j ks)

contains-append : (k : Bytes) (js ks : List Bytes) → contains k (js ++ k ∷ ks) ≡ true
unfolding contains
contains-append k [] ks = rw (bytes_eq_refl k)
contains-append k (j ∷ js) ks = ground (arith, contains-append k js ks)

-- The first insertion of a packet with one affected key is for that key.
pub insertion_key :
    (deletes : List Bytes) (ins : Insertion) (rest : List Insertion) (key : Bytes)
    → key_set (deletes ++ pks (ins ∷ rest)) ≡ key ∷ []
    → ins.pk ≡ key
insertion_key deletes ins rest key h =
    let inside = contains-key_set ins.pk _ (contains-append ins.pk deletes (pks rest)) in
    sym (
      (bytes_eq_iff key ins.pk).0
        (unfold contains in ground (arith, subst (λ ks. contains ins.pk ks ≡ true) h inside)))

-- The writes of the sample store do not fail.
sample_writer-FailsClean : FailsClean sample_writer
unfolding sample_put sample_delete
sample_writer-FailsClean = record {
  put_clean = λ s key item h. absurd (cc);
  delete_clean = λ s key h. absurd (cc);
}

pub sample_FailsClean :
    (writer : Writer SampleStore) → sample_ops.writer ≡ some writer → FailsClean writer
sample_FailsClean writer e = subst FailsClean (some-injective _ _ e) sample_writer-FailsClean

-- The item that an update leaves at its key: that of the first insertion, or none.
abbrev pub item_after : List Insertion → Item
item_after [] = none
item_after (ins ∷ rest) = ins.item

module _ (env : Env) (h : Handler SampleStore) (deletes : List Bytes) (key : Bytes)
    (inserts : List Insertion) (u : Updated SampleStore)
    (one : key_set (deletes ++ pks inserts) ≡ key ∷ [])
    (done : Applied env sample_ops h sample_writer key inserts u) where
  written :
      (s : SampleStore) (j : Bytes) (ins : List Insertion)
      → ins ≡ inserts
      → sample_get (write env sample_ops sample_writer s key ins).1 j
        ≡ (if bytes_eq key j then ok (item_after ins) else sample_get s j)
  unfolding write sample_get sample_put sample_delete
  written s j [] e = rw lookup-remove (ground arith)
  written s j (ins ∷ rest) e =
      rw
        (insertion_key deletes ins rest key
          (subst (λ l. key_set (deletes ++ pks l) ≡ key ∷ []) (sym e) one))
        (rw lookup-insert (ground arith))

  -- After an update of one key a read of that key finds the inserted item, or none after a
  -- deletion, and a read of any other key finds what it found before.
  pub sample_get-Applied :
      (j : Bytes)
      → sample_get u.handler.store j
        ≡ (if bytes_eq key j then ok (item_after inserts) else sample_get h.store j)
  sample_get-Applied j =
      subst
        (λ s.
          sample_get s j
          ≡ (if bytes_eq key j then ok (item_after inserts) else sample_get h.store j))
        (sym done.store) (written h.store j inserts refl)

two_rrs :
    (env : Env) (cfg : Config) (first second : Insertion) (rrs1 rrs2 : List Rr)
    → item_rrs env.json cfg first.pk first.item ≡ some rrs1
    → item_rrs env.json cfg second.pk second.item ≡ some rrs2
    → insertion_rrs env.json cfg (first ∷ second ∷ []) ≡ rrs1 ++ rrs2
unfolding insertion_rrs
two_rrs env cfg first second rrs1 rrs2 m1 m2 = ground (arith, append-nil rrs2)

-- Two insertions of one packet may name one key: the journal then adds the records of both, and
-- the store holds the first item only.
pub journal_two_names :
    (env : Env) (h : Handler SampleStore) (deletes : List Bytes) (key : Bytes)
    (first second : Insertion) (rrs1 rrs2 : List Rr) (u : Updated SampleStore)
    → key_set (deletes ++ pks (first ∷ second ∷ [])) ≡ key ∷ []
    → (done : Applied env sample_ops h sample_writer key (first ∷ second ∷ []) u)
    → item_rrs env.json h.cfg first.pk first.item ≡ some rrs1
    → item_rrs env.json h.cfg second.pk second.item ≡ some rrs2
    → (second.pk ≡ first.pk)
      × (sample_get u.handler.store first.pk ≡ ok first.item)
      × (u.handler.changelog
          ≡ Option.map
              (λ c.
                log_record c (succ32 h.serial) (old_rrs env.json h.cfg key done.old) (rrs1 ++ rrs2))
              h.changelog)
journal_two_names env h deletes key first second rrs1 rrs2 u one done m1 m2 =
    let first_key = insertion_key deletes first (second ∷ []) key one in
    let second_key = insertion_key (deletes ++ first.pk ∷ []) second [] key (rw append_assoc one) in
    let same : bytes_eq key first.pk ≡ true = (bytes_eq_iff key first.pk).1 (sym first_key) in
    let both : insertion_rrs env.json h.cfg (first ∷ second ∷ []) ≡ rrs1 ++ rrs2 =
      two_rrs env h.cfg first second rrs1 rrs2 m1 m2 in
    (
      second_key ∙ sym first_key,
      sample_get-Applied env h deletes key (first ∷ second ∷ []) u one done first.pk ∙ rw same,
      rw (← both) done.changelog,
    )
