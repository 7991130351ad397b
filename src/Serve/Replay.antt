-- ===== src/Serve/Replay.antt =====
-- The history of the sample store as a way from one zone to the next.
pub mod Secondary
use mathlib.Core.List.{Perm}
use mathlib.Core.List.Perm
use mathlib.Core.Option
use mathlib.Core.Option.{some-injective}
use contractdb.Base.{
  ℕ, suc, ◌+◌, ◌-◌, ◌≤◌, ◌<◌, true, none, some, Option, List, [], ◌∷◌, ◌++◌, Bytes, bytes_eq,
  bytes_eq_iff, All, ◌≡◌, ◌≢◌, inl, inr, refl, sym, ap, subst, arith, length, drop,
  drop-length-append, length-append, append_assoc, append-nil, Bool-cases, ◌==◌, ◌∙◌, if◌then◌else◌,
}
use contractdb.Assoc.{lookup, insert, remove, bytes_key, Distinct, lookup-insert, lookup-remove}
use contractdb.Dns.{Msg, Question, Rr, Soa, IsDnsLib}
use contractdb.Dns.Opcode
use contractdb.Item.{Item}
use contractdb.Store.{Writer}
use contractdb.Store.Sample.{SampleStore, sample_ops, sample_writer, sample_put, sample_delete}
use contractdb.Journal.{Delta, MemChangeLog, u32_mod, mem_change_log_cap}
use contractdb.Journal.Window.{delta_at}
use contractdb.Handler.{Handler, Env, ResponseWriter, tsig_valid, count_refused}
use contractdb.Text.{equal_fold}
use contractdb.Transfer.{client_soa, handle_ixfr}
use contractdb.Transfer.Streams.{IsSound, Transfers, differences, handle_ixfr-Transfers}
use contractdb.Update.{
  Step, go_on, Insertion, Updated, write, plan, pks, key_set, process_update, handle_update,
}
use contractdb.Update.Atomic.{Atomically, untouched, applied, Applied, process_update-Atomically}
use contractdb.Update.Delta.{table_rrs, delta-Applied}
use contractdb.Update.Effects.{sample_FailsClean}
use contractdb.Serve.{serve_dns, count_query}
use contractdb.Serve.Policy.{serve_dns_query}
use contractdb.Serve.Reachable.{
  Journaled, Reaches, start, serve, same-Journaled, applied-Journaled, serve_question-update,
}
use contractdb.Serve.Table.{IsTable, serve_dns-IsTable, Reaches-IsTable}

-- Deltas, oldest first, turn the records `z` into `z'`: each takes its removals out and puts its
-- additions in.
abbrev pub Replays : List Delta → List Rr → List Rr → Type 0
Replays [] z z' = Perm z z'
Replays (d ∷ ds) z z' = (m : List Rr) × Perm (d.removed ++ m) (d.added ++ z) × Replays ds m z'

Perm-Replays : (es : List Delta) (x y z : List Rr) → Perm x y → Replays es y z → Replays es x z
Perm-Replays [] x y z p r = Perm.trans p r
Perm-Replays (d ∷ es) x y z p (m, q, r) =
    (m, Perm.trans q (Perm.append_left d.added (Perm.symm p)), r)

Replays-append :
    (ds es : List Delta) (x y z : List Rr)
    → Replays ds x y
    → Replays es y z
    → Replays (ds ++ es) x z
Replays-append [] es x y z p r = Perm-Replays es x y z p r
Replays-append (d ∷ ds) es x y z (m, p, r) r' = (m, p, Replays-append ds es m y z r r')

-- No key holds a nil item.
abbrev pub HasItems : Handler SampleStore → Type 0
HasItems h = (k : Bytes) → lookup k h.store.items ≢ some none

-- The zone: the records of the table, as a transfer renders them.
abbrev pub zone_of : Env → Handler SampleStore → List Rr
zone_of env h = table_rrs env h.cfg h.store.items

-- A packet that plans one insertion at most, and none of a nil item.
abbrev pub IsSimple : Env → Handler SampleStore → Msg → Type 0
IsSimple env h req =
    (deletes : List Bytes) (inserts : List Insertion)
    → plan env sample_ops h req ≡ go_on (deletes, inserts)
    → (length inserts ≤ 1) × All (λ (ins : Insertion). ins.item ≢ none) inserts

-- Each message was simple when it was served.
abbrev pub AreSimple :
    {env : Env} {h h' : Handler SampleStore} {n : ℕ} → Reaches env sample_ops h n h' → Type 0
AreSimple (start _) = Unit
AreSimple {env} (serve _ h'' n w req r) = IsSimple env (count_query h'') req × AreSimple r

module _ (env : Env) (base : ℕ) where
  -- What a message, or several, add to the history: deltas that turn the zone into the next.
  pub record Follows (hist : List Delta) (h h' : Handler SampleStore) (n : ℕ) : Type 0 where
    pub more : List Delta
    pub few : length more ≤ n
    pub journaled : Journaled base (hist ++ more) h'
    pub replays : Replays more (zone_of env h) (zone_of env h')
    pub items : HasItems h'

  same_zone :
      (h h' : Handler SampleStore)
      → h'.store ≡ h.store
      → h'.cfg ≡ h.cfg
      → zone_of env h ≡ zone_of env h'
  same_zone h h' store cfg = λ i. table_rrs env (sym cfg i) (sym store i).items

  unchanged-Follows :
      (hist : List Delta) (h h' : Handler SampleStore) (n : ℕ)
      → h'.store ≡ h.store
      → h'.cfg ≡ h.cfg
      → h'.serial ≡ h.serial
      → h'.changelog ≡ h.changelog
      → Journaled base hist h
      → HasItems h
      → Follows hist h h' n
  unchanged-Follows hist h h' n store cfg serial changelog j items = record {
    more = [];
    few = omega arith;
    journaled = rw append-nil (same-Journaled base hist h h' serial changelog j);
    replays =
        subst (λ z. Perm (zone_of env h) z) (same_zone h h' store cfg) (Perm.refl (zone_of env h));
    items = λ k. subst (λ (s : SampleStore). lookup k s.items ≢ some none) (sym store) (items k);
  }

  write-HasItems :
      (s : SampleStore) (key : Bytes) (inserts : List Insertion)
      → All (λ (ins : Insertion). ins.item ≢ none) inserts
      → ((k : Bytes) → lookup k s.items ≢ some none)
      → (k : Bytes)
      → lookup k (write env sample_ops sample_writer s key inserts).1.items ≢ some none
  unfolding write sample_put sample_delete
  write-HasItems s key [] a items k e = ground (arith, lookup-remove key k s.items, items k)
  write-HasItems s key (ins ∷ rest) (solid, _) items k e =
      ground (arith, lookup-insert ins.pk k ins.item s.items, items k, solid)

  Applied-Follows :
      (hist : List Delta) (h : Handler SampleStore) (deletes : List Bytes) (key : Bytes)
      (inserts : List Insertion) (u : Updated SampleStore)
      → key_set (deletes ++ pks inserts) ≡ key ∷ []
      → length inserts ≤ 1
      → All (λ (ins : Insertion). ins.item ≢ none) inserts
      → Applied env sample_ops h sample_writer key inserts u
      → base + length hist + 2 < u32_mod
      → Journaled base hist h
      → IsTable h
      → HasItems h
      → Follows hist h u.handler 1
  Applied-Follows hist h deletes key inserts u one few solid done room j table items =
      let (removed, added, logged, exact) =
        delta-Applied env h deletes key inserts u one few table (items key) done in
      record {
        more = delta_at base hist removed added ∷ [];
        few = omega arith;
        journaled = applied-Journaled base hist h u.handler removed added j room done.serial logged;
        replays = (
          table_rrs env h.cfg u.handler.store.items,
          exact,
          subst
              (λ cfg.
                Perm (table_rrs env h.cfg u.handler.store.items)
                  (table_rrs env cfg u.handler.store.items))
              (sym done.cfg) (Perm.refl (table_rrs env h.cfg u.handler.store.items)),
        );
        items = λ k.
            subst (λ (s : SampleStore). lookup k s.items ≢ some none) (sym done.store)
              (write-HasItems h.store key inserts solid items k);
      }

  Atomically-Follows :
      (hist : List Delta) (h : Handler SampleStore) (req : Msg) (u : Updated SampleStore)
      → IsSimple env h req
      → base + length hist + 2 < u32_mod
      → Journaled base hist h
      → IsTable h
      → HasItems h
      → Atomically env sample_ops h req u
      → Follows hist h u.handler 1
  Atomically-Follows hist h req u simple room j table items (untouched same) =
      unchanged-Follows hist h u.handler 1 (ap (λ (g : Handler SampleStore). g.store) same.handler)
        (ap (λ (g : Handler SampleStore). g.cfg) same.handler)
        (ap (λ (g : Handler SampleStore). g.serial) same.handler)
        (ap (λ (g : Handler SampleStore). g.changelog) same.handler) j items
  Atomically-Follows hist h req u simple room j table items
        (applied writer deletes inserts key w p k done) =
      let (few, solid) = simple deletes inserts p in
      Applied-Follows hist h deletes key inserts u k few solid
        (subst (λ wr. Applied env sample_ops h wr key inserts u) (sym (some-injective _ _ w)) done)
        room j table items

  handle_update-Follows :
      (hist : List Delta) (h : Handler SampleStore) (w : ResponseWriter) (req : Msg)
      → IsSimple env h req
      → base + length hist + 2 < u32_mod
      → Journaled base hist h
      → IsTable h
      → HasItems h
      → Follows hist h (handle_update env sample_ops h w req).0 1
  unfolding handle_update count_refused
  handle_update-Follows hist h w req simple room j table items =
      elim (Bool-cases (tsig_valid env.lib h w req)) [
        | inl valid ↦ rw valid (
            Atomically-Follows hist h req (process_update env sample_ops h req) simple room j table
              items (process_update-Atomically env sample_ops h req sample_FailsClean))
        | inr invalid ↦
            rw invalid (unchanged-Follows hist h (count_refused h) 1 refl refl refl refl j items)
      ]

  -- The count of a query changes nothing that matters here.
  counted-Follows :
      (hist : List Delta) (h h' : Handler SampleStore)
      → Follows hist (count_query h) h' 1
      → Follows hist h h' 1
  counted-Follows hist h h' f = record {
    more = f.more;
    few = f.few;
    journaled = f.journaled;
    replays = f.replays;
    items = f.items;
  }

  update-Follows :
      (hist : List Delta) (h : Handler SampleStore) (w : ResponseWriter) (req : Msg)
      (qs : List Question)
      → req.question ≡ qs
      → req.opcode ≡ Opcode.update
      → IsSimple env (count_query h) req
      → base + length hist + 2 < u32_mod
      → Journaled base hist h
      → IsTable h
      → HasItems h
      → Follows hist h (serve_dns env sample_ops h w req).handler 1
  unfolding serve_dns
  update-Follows hist h w req [] e up simple room j table items =
      rw (e, serve_dns) (unchanged-Follows hist h (count_query h) 1 refl refl refl refl j items)
  update-Follows hist h w req (q ∷ qs) e up simple room j table items =
      rw
        (
          e,
          serve_dns,
          serve_question-update env sample_ops sample_FailsClean (count_query h) w req q up,
        )
        (counted-Follows hist h (handle_update env sample_ops (count_query h) w req).0 (
          handle_update-Follows hist (count_query h) w req simple room
            (same-Journaled base hist h (count_query h) refl refl j) table items))

  serve_dns-Follows :
      (hist : List Delta) (h : Handler SampleStore) (w : ResponseWriter) (req : Msg)
      → IsSimple env (count_query h) req
      → base + length hist + 2 < u32_mod
      → Journaled base hist h
      → IsTable h
      → HasItems h
      → Follows hist h (serve_dns env sample_ops h w req).handler 1
  serve_dns-Follows hist h w req simple room j table items =
      elim (Bool-cases (req.opcode == Opcode.update)) [
        | inl up ↦
            update-Follows hist h w req req.question refl (ground arith) simple room j table items
        | inr other ↦
            let (same, _) = serve_dns_query env sample_ops h w req (ground arith) in
            unchanged-Follows hist h (serve_dns env sample_ops h w req).handler 1 same.store
              same.cfg same.serial same.changelog j items
      ]

  Follows-trans :
      (hist : List Delta) (h h' h'' : Handler SampleStore) (n : ℕ)
      → (f : Follows hist h h' n) → Follows (hist ++ f.more) h' h'' 1
      → Follows hist h h'' (suc n)
  Follows-trans hist h h' h'' n f g = record {
    more = f.more ++ g.more;
    few = omega (arith, length-append f.more g.more, f.few, g.few);
    journaled = rw (← append_assoc hist f.more g.more) g.journaled;
    replays =
        Replays-append f.more g.more (zone_of env h) (zone_of env h') (zone_of env h'') f.replays
          g.replays;
    items = g.items;
  }

  pub Reaches-Follows :
      (hist : List Delta) (h h' : Handler SampleStore) (n : ℕ) (r : Reaches env sample_ops h n h')
      → AreSimple r
      → base + length hist + n + 1 < u32_mod
      → Journaled base hist h
      → IsTable h
      → HasItems h
      → Follows hist h h' n
  Reaches-Follows hist h h' n (start _) simple room j table items =
      unchanged-Follows hist h h 0 refl refl refl refl j items
  Reaches-Follows hist h h' n (serve _ h'' n' w req r) (simple, before) room j table items =
      let f = Reaches-Follows hist h h'' n' r before (omega arith) j table items in
      let sized = length-append hist f.more in
      Follows-trans hist h h'' (serve_dns env sample_ops h'' w req).handler n' f (
        serve_dns-Follows (hist ++ f.more) h'' w req simple (omega (arith, f.few)) f.journaled
          (Reaches-IsTable env h h'' n' r table) f.items)
