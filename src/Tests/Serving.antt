-- ===== src/Tests/Serving.antt =====
-- Queries, transfers and the journal.
use contractdb.Base.{
  ℕ, ◌+◌, ◌-◌, ◌≤◌, true, ◌&&◌, none, some, List, [], ◌∷◌, ◌++◌, Bytes, codes, bytes_eq, drop,
  length, concat, All, leb, ◌≡◌, ◌≢◌, ◌⊎◌, ◌↔◌, inl, refl, arith, if◌then◌else◌,
}
use contractdb.Assoc.{lookup}
use contractdb.Text.{to_lower, lower, has_prefix, has_suffix, split, first_label, equal_fold, join}
use contractdb.Txt.{max_txt_chunk}
use contractdb.Dns.{Soa, Opt, Question, Msg, new_msg}
use contractdb.Dns.Kind
use contractdb.Dns.Class
use contractdb.Dns.Rcode
use contractdb.Dns.Opcode
use contractdb.Item.{Value, Fields}
use contractdb.Store.Sample.{SampleStore, sample_ops, sample_reader, sample_get, sample_list}
use contractdb.Names.{parse_key, key_of_rest, item_name}
use contractdb.Journal.{
  Delta, MemChangeLog, new_mem_change_log, log_record, log_deltas, mem_change_log_cap,
}
use contractdb.Journal.Window.{
  Journals, Journals-new, Journals-log_record, log_deltas-Journals, delta_at,
}
use contractdb.Handler.{
  Handler, ResponseWriter, udp, tcp, ns1, soa, soa_with_serial, tsig_valid, txt_rr_chunks,
  count_refused,
}
use contractdb.Query.{build_response, gsi_of, key_answer, point_lookup, item_answer, nx_domain}
use contractdb.Query.Answers.{IsOrdinary, build_response-negative, build_response-item}
use contractdb.Transfer.{batch_rrs, handle_axfr, handle_ixfr, pages_rrs}
use contractdb.Transfer.Batches.{IsBatch, batch_rrs_lem}
use contractdb.Transfer.Streams.{
  IsSound, Transfers, differences, handle_axfr-Transfers, handle_ixfr-Transfers,
}
use contractdb.Serve.{
  WireHeader, accept_func, accept, ignore, reject_not_implemented, serve_dns, serve_query,
  count_query,
}
use contractdb.Query.Typed.{Answers, IsTyped, build_response-Answers}
use contractdb.Serve.Accept.{IsAcceptable, accept_func_iff}
use contractdb.Serve.Policy.{SameZone, serve_dns_query, serve_dns_unsigned}
use contractdb.Serve.Size.{serve_query_size}
use contractdb.Serve.Chronicle.{Chronicle}
use contractdb.Serve.Reachable.{Journaled, start, serve, Reaches-Journaled}
use contractdb.Update.Effects.{sample_FailsClean}
use contractdb.Tests.Setup.{
  env, lib, lib-IsDnsLib, lib-Truncates, msg_len, quoted, config, stored, handler, tcp_writer,
  tsig_rr,
}
use contractdb.Tests.Updates.{put_a, zone_question}

program : Unit {0}
unfolding build_response gsi_of parse_key key_of_rest to_lower lower has_prefix has_suffix split
    first_label join bytes_eq lookup tsig_valid equal_fold sample_get sample_list key_answer
    point_lookup item_answer nx_domain
program = tt

abbrev pub question : Bytes → ℕ → Question
question name qtype = record { name = name; qtype = qtype; qclass = Class.inet }

abbrev pub asking : Bytes → ℕ → Msg
asking name qtype = record new_msg { question = question name qtype ∷ [] }

abbrev udp_writer : ResponseWriter
udp_writer = record tcp_writer { network = udp }

build_response-negative_example :
    ((build_response env sample_ops handler
        (asking (codes "no.db.") Kind.txt)
        (question (codes "no.db.") Kind.txt)).answer
      ≡ [])
    × ((build_response env sample_ops handler
          (asking (codes "no.db.") Kind.txt)
          (question (codes "no.db.") Kind.txt)).ns
        ≡ soa handler ∷ [])
unfolding program
build_response-negative_example =
    build_response-negative env sample_ops lib-IsDnsLib handler (asking (codes "no.db.") Kind.txt)
      (question (codes "no.db.") Kind.txt) refl

abbrev query_a : ℕ → Msg
query_a qtype = asking (codes "a.db.") qtype

abbrev question_a : ℕ → Question
question_a qtype = question (codes "a.db.") qtype

question_a-IsOrdinary :
    (qtype : ℕ)
    → IsOrdinary env sample_ops lib-IsDnsLib handler
        (query_a qtype)
        (question_a qtype)
        (codes "a.db.")
unfolding program
question_a-IsOrdinary qtype = record {
  apex = refl;
  status = refl;
  health = refl;
  metrics = refl;
  server = refl;
  gsi = refl;
}

abbrev fields_x : Fields
fields_x = Fields.field (codes "v") (Value.string (codes "x")) Fields.end

build_response-item_example :
    (chunks : List Bytes) × ((build_response env sample_ops handler
        (query_a Kind.txt)
        (question_a Kind.txt)).rcode
      ≡ Rcode.success)
    × ((build_response env sample_ops handler (query_a Kind.txt) (question_a Kind.txt)).answer
        ≡ txt_rr_chunks config (item_name (codes "db.") (codes "a")) chunks ∷ [])
    × (concat chunks ≡ quoted (codes "x"))
    × All (λ c. length c ≤ max_txt_chunk) chunks
unfolding program
build_response-item_example =
    build_response-item env sample_ops lib-IsDnsLib handler (query_a Kind.txt) (question_a Kind.txt)
      (question_a-IsOrdinary Kind.txt) (codes "a") refl refl fields_x refl (quoted (codes "x")) refl
      refl

serve_query_size_example :
    (m : Msg) × ((serve_query env sample_ops handler udp_writer
        (query_a Kind.txt)
        (question_a Kind.txt)).sent
      ≡ m ∷ [])
    × (◌≡◌ udp tcp × (msg_len m ≤ 65535)
        ⊎ ◌≡◌ udp udp
          × ((lib.is_edns0 (query_a Kind.txt) ≡ none) × (msg_len m ≤ 512)
              ⊎ (opt : Opt) × (lib.is_edns0 (query_a Kind.txt) ≡ some opt)
                × ((msg_len m ≤ 512) ⊎ (msg_len m ≤ opt.udp_size))))
serve_query_size_example =
    serve_query_size env sample_ops lib-Truncates handler udp_writer (query_a Kind.txt)
      (question_a Kind.txt) refl

serve_dns_query_example :
    SameZone handler (serve_dns env sample_ops handler tcp_writer (query_a Kind.axfr)).handler
    × ((serve_dns env sample_ops handler tcp_writer (query_a Kind.axfr)).notified ≡ [])
serve_dns_query_example =
    serve_dns_query env sample_ops handler tcp_writer (query_a Kind.axfr) (omega arith)

serve_dns_unsigned_example :
    ((handler.tsig_provider ≡ true)
      × (lib.is_tsig put_a ≡ true)
      × (tcp_writer.tsig_status_ok ≡ true))
    ⊎ (serve_dns env sample_ops handler tcp_writer put_a ≡ record {
      handler = count_refused (count_query handler);
      sent = lib.set_rcode new_msg put_a Rcode.refused ∷ [];
      notified = [];
    })
serve_dns_unsigned_example =
    serve_dns_unsigned env sample_ops handler tcp_writer put_a zone_question [] refl (inl refl)

-- The bit QR of a request
abbrev request : ℕ
request = 0

abbrev query_header : WireHeader
query_header = record { bits = 256; qdcount = 1; ancount = 0; nscount = 0; arcount = 1 }

accept_func_iff_example :
    ((accept_func query_header ≡ accept) ↔ IsAcceptable query_header request Opcode.query)
    × ((accept_func query_header ≡ ignore) ↔ (request ≡ 1))
    × ((accept_func query_header ≡ reject_not_implemented) ↔ (
        (request ≡ 0)
        × ((Opcode.query ≢ Opcode.query)
            × (Opcode.query ≢ Opcode.notify)
            × (Opcode.query ≢ Opcode.update))))
accept_func_iff_example = accept_func_iff query_header request Opcode.query 256 (record {
  qr_bit = omega arith;
  opcode_bits = omega arith;
  rest_bits = omega arith;
  flags = refl;
})

batch_rrs_example :
    (concat (batch_rrs (λ rr. 60) 600 (tsig_rr ∷ tsig_rr ∷ [])) ≡ tsig_rr ∷ tsig_rr ∷ [])
    × All (IsBatch (λ rr. 60) 600) (batch_rrs (λ rr. 60) 600 (tsig_rr ∷ tsig_rr ∷ []))
batch_rrs_example = batch_rrs_lem (λ rr. 60) 600 (tsig_rr ∷ tsig_rr ∷ [])

-- The journal after the first write.
abbrev after_one : MemChangeLog
after_one = log_record (new_mem_change_log 7) 8 [] (tsig_rr ∷ [])

abbrev one_delta : List Delta
one_delta = delta_at 7 [] [] (tsig_rr ∷ []) ∷ []

one_delta-Journals : Journals 7 one_delta after_one
one_delta-Journals =
    Journals-log_record 7 [] (new_mem_change_log 7) [] (tsig_rr ∷ []) (Journals-new 7 (omega arith))
      (omega arith)

log_deltas-Journals_example : log_deltas after_one 7 ≡ (
    if leb 7 (7 + length one_delta) && leb (7 + (length one_delta - mem_change_log_cap)) 7
    then some (drop (7 - 7) one_delta)
    else none)
log_deltas-Journals_example =
    log_deltas-Journals 7 one_delta after_one 7 one_delta-Journals (omega arith)

pub tcp_writer-IsSound : IsSound tcp_writer
tcp_writer-IsSound = record { network = refl; writes = λ i. refl }

handle_axfr-Transfers_example :
    Transfers env sample_ops lib-IsDnsLib handler tcp_writer
      (asking (codes "db.") Kind.axfr)
      tcp_writer-IsSound
      (pages_rrs env sample_ops config (sample_reader.list stored).pages)
      (handle_axfr env sample_ops handler tcp_writer
        (asking (codes "db.") Kind.axfr)
        (question (codes "db.") Kind.axfr))
unfolding program
handle_axfr-Transfers_example =
    handle_axfr-Transfers env sample_ops lib-IsDnsLib handler tcp_writer
      (asking (codes "db.") Kind.axfr) tcp_writer-IsSound (question (codes "db.") Kind.axfr)
      sample_reader refl refl refl

abbrev ahead : Handler SampleStore
ahead = record handler { serial = 8; changelog = some after_one }

abbrev pub ixfr : Msg
ixfr = record (asking (codes "db.") Kind.ixfr) { ns = soa_with_serial handler 7 ∷ [] }

abbrev pub soa_7 : Soa
soa_7 = record {
  ns = ns1 config;
  mbox = codes "hostmaster.db.";
  serial = 7;
  refresh = 7200;
  retry = 900;
  expire = 1209600;
  minttl = 60;
}

handle_ixfr-Transfers_example :
    Transfers env sample_ops lib-IsDnsLib ahead tcp_writer ixfr tcp_writer-IsSound
      (differences env sample_ops lib-IsDnsLib ahead tcp_writer ixfr tcp_writer-IsSound
        (drop (7 - 7) one_delta))
      (handle_ixfr env sample_ops ahead tcp_writer ixfr (question (codes "db.") Kind.ixfr))
unfolding program soa_with_serial
handle_ixfr-Transfers_example =
    handle_ixfr-Transfers env sample_ops lib-IsDnsLib ahead tcp_writer ixfr tcp_writer-IsSound
      (question (codes "db.") Kind.ixfr) soa_7 7 one_delta after_one refl refl refl (omega arith)
      one_delta-Journals (omega arith) (omega arith)

abbrev pub signed_put_a : Msg
signed_put_a = record put_a { extra = tsig_rr ∷ [] }

Reaches-Journaled_example :
    (more : List Delta) × (length more ≤ 1)
    × Journaled 7 ([] ++ more) (serve_dns env sample_ops handler tcp_writer signed_put_a).handler
    × Chronicle env sample_ops handler more
        (serve_dns env sample_ops handler tcp_writer signed_put_a).handler
Reaches-Journaled_example =
    Reaches-Journaled env sample_ops sample_FailsClean 7 [] handler
      (serve_dns env sample_ops handler tcp_writer signed_put_a).handler 1
      (serve handler handler 0 tcp_writer signed_put_a (start handler))
      (record {
        journal = new_mem_change_log 7;
        has = refl;
        serial = refl;
        keeps = Journals-new 7 (omega arith);
      })
      (omega arith)

build_response-Answers_example :
    All
      (Answers config (question_a Kind.txt))
      (build_response env sample_ops handler (query_a Kind.txt) (question_a Kind.txt)).answer
    × All
        (IsTyped config)
        (build_response env sample_ops handler (query_a Kind.txt) (question_a Kind.txt)).ns
build_response-Answers_example =
    build_response-Answers env sample_ops lib-IsDnsLib handler (query_a Kind.txt)
      (question_a Kind.txt) (codes "127.0.0.1") refl
