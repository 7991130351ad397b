-- ===== src/Serve/Chronicle.antt =====
-- What a journal is to say of the writes of a store.
use contractdb.Base.{
  true, none, some, List, [], ◌∷◌, ◌++◌, Bytes, concat, map, ◌≡◌, inl, inr, refl, ap, subst, ◌∙◌,
  arith, Option-cases, append-nil,
}
use contractdb.Dns.{Rr, Msg}
use contractdb.Item.{Item}
use contractdb.Store.{Store, Writer, ok}
use contractdb.Journal.{Delta}
use contractdb.Handler.{Handler, Env, Config, item_rrs}
use contractdb.Update.{go_on, plan, Insertion, pks, key_set, write, old_rrs, insertion_rrs}
use contractdb.Update.Effects.{insertion_key}

-- The records of an item, none if it cannot be marshalled.
abbrev pub rendered : Env → Config → Bytes → Item → List Rr
rendered env cfg key item = elim (item_rrs env.json cfg key item) [ none ↦ [] | some rrs ↦ rrs ]

-- The records of what Get finds: nothing, or an item.
abbrev pub found_records : Env → Config → Bytes → Item → List Rr
found_records env cfg key none = []
found_records env cfg key (some fs) = rendered env cfg key (some fs)

-- One write of the store for the changes that a packet plans, with the records that it removes from
-- the zone and those that the packet adds to it: a Put of the first insertion, or a Delete.
pub data Writes {S : Type 0} (env : Env) (ops : Store S) (h : Handler S)
    : List Rr → List Rr → S → Type 0 where
  put :
      (writer : Writer S) (req : Msg) (old : Item) (deletes : List Bytes) (ins : Insertion)
      (rest : List Insertion) (s' : S)
      → ops.writer ≡ some writer
      → plan env ops h req ≡ go_on (deletes, ins ∷ rest)
      → ops.get h.store ins.pk ≡ ok old
      → writer.put h.store ins.pk ins.item ≡ (true, s')
      → Writes env ops h
          (found_records env h.cfg ins.pk old)
          (concat (map (λ (i : Insertion). rendered env h.cfg i.pk i.item) (ins ∷ rest)))
          s'
  delete :
      (writer : Writer S) (req : Msg) (old : Item) (deletes : List Bytes) (key : Bytes) (s' : S)
      → ops.writer ≡ some writer
      → plan env ops h req ≡ go_on (deletes, [])
      → key_set deletes ≡ key ∷ []
      → ops.get h.store key ≡ ok old
      → writer.delete h.store key ≡ (true, s')
      → Writes env ops h (found_records env h.cfg key old) [] s'

-- The deltas tell the writes that lead from the store of one handler to the store of another: each
-- write of the store has its delta, in order, and each delta is that of a write, under the serial
-- that the write leads to.
pub data Chronicle {S : Type 0} (env : Env) (ops : Store S)
    : Handler S → List Delta → Handler S → Type 0 where
  quiet : (h h' : Handler S) → h'.store ≡ h.store → Chronicle env ops h [] h'
  wrote :
      (h h' : Handler S) (d : Delta)
      → d.serial ≡ h'.serial
      → Writes env ops h d.removed d.added h'.store
      → Chronicle env ops h (d ∷ []) h'
  onwards :
      (h h' h'' : Handler S) (ds es : List Delta)
      → Chronicle env ops h ds h'
      → Chronicle env ops h' es h''
      → Chronicle env ops h (ds ++ es) h''

module _ (env : Env) (cfg : Config) where
  old_rrs-found_records :
      (key : Bytes) (old : Item) → old_rrs env.json cfg key old ≡ found_records env cfg key old
  unfolding old_rrs
  old_rrs-found_records key none = refl
  old_rrs-found_records key (some fs) = refl

  insertion_rrs-rendered :
      (inserts : List Insertion)
      → insertion_rrs env.json cfg inserts
        ≡ concat (map (λ (i : Insertion). rendered env cfg i.pk i.item) inserts)
  unfolding insertion_rrs
  insertion_rrs-rendered [] = refl
  insertion_rrs-rendered (ins ∷ rest) =
      elim (Option-cases (item_rrs env.json cfg ins.pk ins.item)) [
        | inl e ↦ ground (arith, insertion_rrs-rendered rest)
        | inr (rrs, e) ↦ ground (arith, insertion_rrs-rendered rest)
      ]

module _ {S : Type 0} (env : Env) (ops : Store S) (h : Handler S) (writer : Writer S) (req : Msg)
    (deletes : List Bytes) (key : Bytes) (old : Item) (s' : S) where
  pub write-Writes :
      (inserts : List Insertion)
      → ops.writer ≡ some writer
      → plan env ops h req ≡ go_on (deletes, inserts)
      → key_set (deletes ++ pks inserts) ≡ key ∷ []
      → ops.get h.store key ≡ ok old
      → write env ops writer h.store key inserts ≡ (true, s')
      → Writes env ops h (old_rrs env.json h.cfg key old) (insertion_rrs env.json h.cfg inserts) s'
  unfolding write
  write-Writes [] w p one was done =
      rw (old_rrs-found_records env h.cfg key old, insertion_rrs-rendered env h.cfg [])
        (delete writer req old deletes key s' w p (rw (← append-nil deletes) one) was done)
  write-Writes (ins ∷ rest) w p one was done =
      let at : ins.pk ≡ key = insertion_key deletes ins rest key one in
      rw (old_rrs-found_records env h.cfg key old, insertion_rrs-rendered env h.cfg (ins ∷ rest))
        (subst
          (λ k.
            Writes env ops h (found_records env h.cfg k old)
              (concat (map (λ (i : Insertion). rendered env h.cfg i.pk i.item) (ins ∷ rest))) s')
          at (put writer req old deletes ins rest s' w p (ap (ops.get h.store) at ∙ was) done))
