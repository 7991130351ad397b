-- ===== src/Update/Atomic.antt =====
-- processUpdate as one write with its commit, or nothing.
use contractdb.Base.{
  ℕ, true, false, some, List, [], ◌∷◌, ◌++◌, Bytes, ◌≡◌, ◌≢◌, ◌⊎◌, inl, inr, refl, sym, subst,
  arith, Bool-cases, Option-cases,
}
use contractdb.Dns.{Msg}
use contractdb.Dns.Rcode
use contractdb.Item.{Item}
use contractdb.Store.{Result, ok, failed, Writer, Store}
use mathlib.Core.Option
use contractdb.Journal.{succ32, log_record}
use contractdb.Handler.{Handler, Env, commit_write}
use contractdb.Update.{
  Step, go_on, rcode, Insertion, pks, key_set, Updated, insertion_rrs, old_rrs, write, finish,
  stopped, apply_one, apply, plan, apply_plan, process_with, process_update,
}

-- A write that reports an error has left the state as it was.
pub record FailsClean {S : Type 0} (writer : Writer S) : Type 0 where
  pub put_clean :
      (s : S) (key : Bytes) (item : Item)
      → (writer.put s key item).0 ≡ false
      → (writer.put s key item).1 ≡ s
  pub delete_clean :
      (s : S) (key : Bytes) → (writer.delete s key).0 ≡ false → (writer.delete s key).1 ≡ s

Step-cases : {A : Type 0} (r : Step A) → ((c : ℕ) × (r ≡ rcode c)) ⊎ ((a : A) × (r ≡ go_on a))
Step-cases (go_on a) = inr (a, refl)
Step-cases (rcode c) = inl (c, refl)

pub Result-cases : {A : Type 0} (r : Result A) → (r ≡ failed) ⊎ ((a : A) × (r ≡ ok a))
Result-cases (ok a) = inr (a, refl)
Result-cases failed = inl refl

-- What an update that is carried out leaves, for the affected key, the item that was there and the
-- insertions: the written store, the next serial, the journalled difference.
pub record Applied {S : Type 0} (env : Env) (ops : Store S) (h : Handler S) (writer : Writer S)
    (key : Bytes) (inserts : List Insertion) (u : Updated S) : Type 0 where
  pub old : Item
  pub was : ops.get h.store key ≡ ok old
  pub succeeds : (write env ops writer h.store key inserts).0 ≡ true
  pub code : u.code ≡ Rcode.success
  pub store : u.handler.store ≡ (write env ops writer h.store key inserts).1
  pub serial : u.handler.serial ≡ succ32 h.serial
  pub cfg : u.handler.cfg ≡ h.cfg
  pub changelog :
      u.handler.changelog
      ≡ Option.map
          (λ c.
            log_record c
              (succ32 h.serial)
              (old_rrs env.json h.cfg key old)
              (insertion_rrs env.json h.cfg inserts))
          h.changelog
  pub notified : u.notified ≡ h.notifiees

-- An update that changed nothing and told nobody.
pub record Untouched {S : Type 0} (h : Handler S) (u : Updated S) : Type 0 where
  pub handler : u.handler ≡ h
  pub notified : u.notified ≡ []

module _ {S : Type 0} (env : Env) (ops : Store S) where
  write-clean :
      (writer : Writer S) (s : S) (key : Bytes) (inserts : List Insertion)
      → FailsClean writer
      → (write env ops writer s key inserts).0 ≡ false
      → (write env ops writer s key inserts).1 ≡ s
  unfolding write
  write-clean writer s key [] clean bad = clean.delete_clean s key bad
  write-clean writer s key (ins ∷ rest) clean bad = clean.put_clean s ins.pk ins.item bad

  module _ (h : Handler S) (writer : Writer S) (key : Bytes) (inserts : List Insertion) where
    abbrev after : S
    after = (write env ops writer h.store key inserts).1

    apply_one_unread :
        ops.get h.store key ≡ failed
        → apply_one env ops h writer key inserts ≡ stopped env ops h Rcode.server_failure
    unfolding apply_one
    apply_one_unread e = rw (e, apply_one)

    pub apply_one_done :
        (old : Item)
        → ops.get h.store key ≡ ok old
        → (write env ops writer h.store key inserts).0 ≡ true
        → apply_one env ops h writer key inserts ≡ finish env ops h after key old inserts
    unfolding apply_one
    apply_one_done old e good = rw (e, good, apply_one)

    apply_one_failed :
        (old : Item)
        → FailsClean writer
        → ops.get h.store key ≡ ok old
        → (write env ops writer h.store key inserts).0 ≡ false
        → apply_one env ops h writer key inserts ≡ stopped env ops h Rcode.server_failure
    unfolding apply_one
    apply_one_failed old clean e bad =
        rw (e, bad, apply_one) (rw (write-clean writer h.store key inserts clean bad))

    pub finish-Applied :
        (old : Item)
        → ops.get h.store key ≡ ok old
        → (write env ops writer h.store key inserts).0 ≡ true
        → Applied env ops h writer key inserts (finish env ops h after key old inserts)
    unfolding finish commit_write
    finish-Applied old e good = record {
      old = old;
      was = e;
      succeeds = good;
      code = refl;
      store = refl;
      serial = refl;
      cfg = refl;
      changelog = refl;
      notified = refl;
    }

    abbrev Outcome : Updated S → Type 0
    Outcome u = Applied env ops h writer key inserts u ⊎ ((u.code ≢ Rcode.success) × Untouched h u)

    stopped-Outcome : Outcome (stopped env ops h Rcode.server_failure)
    stopped-Outcome = inr (
      λ (c : Rcode.server_failure ≡ Rcode.success). absurd (omega arith),
      record { handler = refl; notified = refl },
    )

    -- One affected key: the update is applied, or fails and changes nothing.
    apply_one-Outcome : FailsClean writer → Outcome (apply_one env ops h writer key inserts)
    apply_one-Outcome clean = elim (Result-cases (ops.get h.store key)) [
      | inl e ↦ subst Outcome (sym (apply_one_unread e)) stopped-Outcome
      | inr (old, e) ↦ elim (Bool-cases (write env ops writer h.store key inserts).0) [
        | inl good ↦
            subst Outcome (sym (apply_one_done old e good)) (inl (finish-Applied old e good))
        | inr bad ↦ subst Outcome (sym (apply_one_failed old clean e bad)) stopped-Outcome
      ]
    ]

  -- Either nothing has changed, or the packet has one affected key and the update of that key is
  -- carried out.
  pub data Atomically (h : Handler S) (req : Msg) (u : Updated S) : Type 0 where
    untouched : Untouched h u → Atomically h req u
    applied :
        (writer : Writer S) (deletes : List Bytes) (inserts : List Insertion) (key : Bytes)
        → ops.writer ≡ some writer
        → plan env ops h req ≡ go_on (deletes, inserts)
        → key_set (deletes ++ pks inserts) ≡ key ∷ []
        → Applied env ops h writer key inserts u
        → Atomically h req u

  stopped-Atomically : (h : Handler S) (req : Msg) (c : ℕ) → Atomically h req (stopped env ops h c)
  stopped-Atomically h req c = untouched (record { handler = refl; notified = refl })

  apply-Atomically :
      (h : Handler S) (req : Msg) (writer : Writer S) (deletes : List Bytes)
      (inserts : List Insertion)
      → FailsClean writer
      → ops.writer ≡ some writer
      → plan env ops h req ≡ go_on (deletes, inserts)
      → (keys : List Bytes) → key_set (deletes ++ pks inserts) ≡ keys
      → Atomically h req (apply env ops h writer keys inserts)
  unfolding apply
  apply-Atomically h req writer deletes inserts clean w p [] k =
      stopped-Atomically h req Rcode.success
  apply-Atomically h req writer deletes inserts clean w p (key ∷ []) k =
      elim (apply_one-Outcome h writer key inserts clean) [
        | inl done ↦ applied writer deletes inserts key w p k done
        | inr (_, same) ↦ untouched same
      ]
  apply-Atomically h req writer deletes inserts clean w p (key ∷ key' ∷ keys) k =
      stopped-Atomically h req Rcode.refused

  plan_cases :
      (h : Handler S) (req : Msg) (writer : Writer S)
      → FailsClean writer
      → ops.writer ≡ some writer
      → Atomically h req (apply_plan env ops h writer (plan env ops h req))
  plan_cases h req writer clean w = elim (Step-cases (plan env ops h req)) [
    | inl (c, e) ↦ rw e (unfold apply_plan in stopped-Atomically h req c)
    | inr ((deletes, inserts), e) ↦ rw e (
        unfold apply_plan in
        apply-Atomically h req writer deletes inserts clean w e (key_set (deletes ++ pks inserts))
          refl)
  ]

  -- With a store whose failed writes change nothing, an update leaves the handler as it was and
  -- notifies nobody, or it is carried out for the one affected key of the packet: then the store
  -- is that of the write, the serial is the next one, and a journal has recorded the difference.
  pub process_update-Atomically :
      (h : Handler S) (req : Msg)
      → ((writer : Writer S) → ops.writer ≡ some writer → FailsClean writer)
      → Atomically h req (process_update env ops h req)
  unfolding process_update process_with
  process_update-Atomically h req clean = elim (Option-cases ops.writer) [
    | inl e ↦
        subst (λ o. Atomically h req (process_with env ops h req o)) (sym e)
          (stopped-Atomically h req Rcode.refused)
    | inr (writer, e) ↦
        subst (λ o. Atomically h req (process_with env ops h req o)) (sym e)
          (plan_cases h req writer (clean writer e) e)
  ]
