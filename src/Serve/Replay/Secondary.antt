-- ===== src/Serve/Replay/Secondary.antt =====
-- A secondary that follows the zone of the sample store by IXFR.
use contractdb.Base.{
  ℕ, ◌+◌, ◌-◌, ◌≤◌, ◌<◌, true, some, List, ◌++◌, ◌≡◌, subst, arith, length, drop,
  drop-length-append, length-append,
}
use contractdb.Assoc.{bytes_key}
use contractdb.Dns.{Msg, Question, Soa, IsDnsLib}
use contractdb.Store.Sample.{SampleStore, sample_ops}
use contractdb.Journal.{Delta, u32_mod, mem_change_log_cap}
use contractdb.Handler.{Handler, Env, ResponseWriter}
use contractdb.Text.{equal_fold}
use contractdb.Transfer.{client_soa, handle_ixfr}
use contractdb.Transfer.Streams.{IsSound, Transfers, differences, handle_ixfr-Transfers}
use contractdb.Serve.Reachable.{Journaled, Reaches}
use contractdb.Serve.Table.{IsTable}
use contractdb.Serve.Replay.{Replays, HasItems, zone_of, AreSimple, Reaches-Follows}

module _ (env : Env) (base : ℕ) where
  at_copy : (s t n : ℕ) → s ≡ t → t ≡ base + n → s - base ≡ n
  at_copy s t n e f = omega arith

  -- A secondary has the zone as it was at some moment. The server then takes at most 4096 messages, whose
  -- updates each make one insertion at most and store no nil item, and the secondary asks over TCP for
  -- the changes since its serial, which is older than the server's. It is sent the difference
  -- sequences of deltas that turn its copy into the zone as it is now, in some order of the records.
  -- The serials do not wrap; at the moment of the copy the handler has a journal of its history, and
  -- every key stands once in its table and holds an item.
  pub handle_ixfr-Replays :
      (laws : IsDnsLib env.lib) (hist : List Delta) (h h' : Handler SampleStore) (n : ℕ)
      (r : Reaches env sample_ops h n h')
      → AreSimple r
      → base + length hist + n + 1 < u32_mod
      → Journaled base hist h
      → IsTable h
      → HasItems h
      → n ≤ mem_change_log_cap
      → (w : ResponseWriter) (req : Msg) (sound : IsSound w) (q : Question) (client : Soa)
      → equal_fold q.name h'.cfg.zone ≡ true
      → client_soa req.ns ≡ some client
      → client.serial ≡ h.serial
      → h.serial < h'.serial
      → (ds : List Delta) × Transfers env sample_ops laws h' w req sound
          (differences env sample_ops laws h' w req sound ds)
          (handle_ixfr env sample_ops h' w req q)
        × Replays ds (zone_of env h) (zone_of env h')
  handle_ixfr-Replays laws hist h h' n r simple room j table items recent w req sound q client zone
        asks at behind =
      let f = Reaches-Follows env base hist h h' n r simple room j table items in
      let sized = length-append hist f.more in
      let deltas : drop (client.serial - base) (hist ++ f.more) ≡ f.more =
        rw (at_copy client.serial h.serial (length hist) at j.serial)
          (drop-length-append hist f.more) in
      (
        f.more,
        subst
            (λ ds.
              Transfers env sample_ops laws h' w req sound
                (differences env sample_ops laws h' w req sound ds)
                (handle_ixfr env sample_ops h' w req q))
            deltas
            (handle_ixfr-Transfers env sample_ops laws h' w req sound q client base (hist ++ f.more)
              f.journaled.journal zone asks f.journaled.has f.journaled.serial f.journaled.keeps
              (omega (arith, at, behind)) (omega (arith, at, j.serial, sized, f.few, recent))),
        f.replays,
      )
