-- ===== src/Tests/Following.antt =====
-- A secondary that follows an update.
use contractdb.Base.{
  ◌≤◌, ◌≢◌, none, List, [], Bytes, codes, bytes_eq, length, All, ◌≡◌, refl, subst, ap, sym, ◌∙◌,
  arith,
}
use contractdb.Assoc.{lookup}
use contractdb.Text.{equal_fold, to_lower, lower}
use contractdb.Dns.Kind
use contractdb.Store.Sample.{SampleStore, sample_ops}
use contractdb.Journal.{Delta, new_mem_change_log}
use contractdb.Journal.Window.{Journals-new}
use contractdb.Handler.{Handler, soa_with_serial, tsig_valid}
use contractdb.Transfer.{handle_ixfr}
use contractdb.Transfer.Streams.{Transfers, differences}
use contractdb.Update.{handle_update, Step, go_on, rcode, Insertion}
use contractdb.Serve.{count_query, serve_question, serve_dns}
use contractdb.Serve.Reachable.{Reaches, Journaled, start, serve}
use contractdb.Serve.Replay.{Replays, HasItems, zone_of, IsSimple}
use contractdb.Serve.Replay.Secondary.{handle_ixfr-Replays}
use contractdb.Tests.Setup.{env, lib-IsDnsLib, config, handler, tcp_writer}
use contractdb.Tests.Tables.{stored-Distinct}
use contractdb.Tests.Updates.{one_insertion, plan-put_a, program}
use contractdb.Tests.Serving.{question, tcp_writer-IsSound, signed_put_a, ixfr, soa_7}

planned : Step (List Bytes × List Insertion) → List Insertion
planned (go_on (deletes, inserts)) = inserts
planned (rcode code) = []

AtMostOne : List Insertion → Type 0
AtMostOne inserts = (length inserts ≤ 1) × All (λ (ins : Insertion). ins.item ≢ none) inserts

signed_put_a-IsSimple : IsSimple env (count_query handler) signed_put_a
unfolding AtMostOne planned
signed_put_a-IsSimple deletes inserts e =
    let same : one_insertion ≡ inserts = ap planned (sym plan-put_a ∙ e) in
    subst AtMostOne same (omega arith, ((λ f. absurd (cc)), tt))

abbrev after : Handler SampleStore
after = (serve_dns env sample_ops handler tcp_writer signed_put_a).handler

after_lem : (after.cfg ≡ config) × (after.serial ≡ 8)
unfolding program serve_dns serve_question handle_update tsig_valid
after_lem = (refl, refl)

one_message : Reaches env sample_ops handler 1 after
one_message = serve handler handler 0 tcp_writer signed_put_a (start handler)

pub handler-Journaled : Journaled 7 [] handler
handler-Journaled = record {
  journal = new_mem_change_log 7;
  has = refl;
  serial = refl;
  keeps = Journals-new 7 (omega arith);
}

pub handler-HasItems : HasItems handler
unfolding lookup
handler-HasItems k e = ground (arith, e)

handle_ixfr-Replays_example :
    (ds : List Delta) × Transfers env sample_ops lib-IsDnsLib after tcp_writer ixfr
      tcp_writer-IsSound
      (differences env sample_ops lib-IsDnsLib after tcp_writer ixfr tcp_writer-IsSound ds)
      (handle_ixfr env sample_ops after tcp_writer ixfr (question (codes "db.") Kind.ixfr))
    × Replays ds (zone_of env handler) (zone_of env after)
unfolding one_message soa_with_serial equal_fold to_lower lower bytes_eq
handle_ixfr-Replays_example =
    handle_ixfr-Replays env 7 lib-IsDnsLib [] handler after 1 one_message
      (signed_put_a-IsSimple, tt) (omega arith) handler-Journaled stored-Distinct handler-HasItems
      (omega arith) tcp_writer ixfr tcp_writer-IsSound (question (codes "db.") Kind.ixfr) soa_7
      (rw (after_lem.0) refl) refl refl (omega (arith, after_lem.1))
