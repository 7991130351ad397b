-- ===== src/Serve/Policy.antt =====
-- What requests change, by opcode and signature.
use contractdb.Base.{
  Bool-cases, true, false, List, [], ◌∷◌, ◌≡◌, ◌≢◌, refl, arith, Option-cases, inl, inr, ◌⊎◌,
  Option, none, some,
}
use contractdb.Dns.{Msg, Question, Soa, new_msg}
use contractdb.Dns.Opcode
use contractdb.Dns.Rcode
use contractdb.Store.{Store}
use contractdb.Journal.{Delta}
use contractdb.Handler.{Handler, Env, ResponseWriter, tsig_valid, auth_ok, count_refused}
use contractdb.Update.{handle_update}
use contractdb.Transfer.{
  refuse, framed, stream_zone, handle_axfr, handle_ixfr, Stream, client_soa, deltas_since,
}
use contractdb.Serve.{
  count_query, serve_dns, serve_question, serve_opcode_query, serve_query, deliver, is_transfer,
}

-- Two handlers that serve the same zone data: equal in all but the counters.
pub record SameZone {S : Type 0} (h h' : Handler S) : Type 0 where
  pub store : h'.store ≡ h.store
  pub cfg : h'.cfg ≡ h.cfg
  pub serial : h'.serial ≡ h.serial
  pub changelog : h'.changelog ≡ h.changelog

module _ {S : Type 0} (env : Env) (ops : Store S) where
  refuse-SameZone :
      (h : Handler S) (w : ResponseWriter) (req : Msg) → SameZone h (refuse env ops h w req).0
  unfolding refuse count_refused
  refuse-SameZone h w req = record { store = refl; cfg = refl; serial = refl; changelog = refl }

  framed-SameZone :
      (h : Handler S) (w : ResponseWriter) (req : Msg) (body : Stream → Stream)
      → SameZone h (framed env ops h w req body).0
  unfolding framed
  framed-SameZone h w req body = ground arith

  stream_zone-SameZone :
      (h : Handler S) (w : ResponseWriter) (req : Msg) (q : Question) (deltas : Option (List Delta))
      → SameZone h (stream_zone env ops h w req q deltas).0
  unfolding stream_zone refuse count_refused framed
  stream_zone-SameZone h w req q deltas = ground arith

  handle_axfr-SameZone :
      (h : Handler S) (w : ResponseWriter) (req : Msg) (q : Question)
      → SameZone h (handle_axfr env ops h w req q).0
  unfolding handle_axfr
  handle_axfr-SameZone h w req q =
      ground (arith, stream_zone-SameZone h w req q none, refuse-SameZone h w req)

  ixfr_cases :
      (h : Handler S) (w : ResponseWriter) (req : Msg) (q : Question)
      → (client_soa req.ns ≡ none) ⊎ ((s : Soa) × (client_soa req.ns ≡ some s))
      → SameZone h (handle_ixfr env ops h w req q).0
  unfolding handle_ixfr
  ixfr_cases h w req q (inl e) = rw (e, handle_ixfr) (refuse-SameZone h w req)
  ixfr_cases h w req q (inr (s, e)) =
      rw (e, handle_ixfr)
        (ground (
          arith,
          stream_zone-SameZone h w req q (deltas_since h s.serial),
          refuse-SameZone h w req,
        ))

  handle_ixfr-SameZone :
      (h : Handler S) (w : ResponseWriter) (req : Msg) (q : Question)
      → SameZone h (handle_ixfr env ops h w req q).0
  handle_ixfr-SameZone h w req q = ixfr_cases h w req q (Option-cases (client_soa req.ns))

  serve_query-SameZone :
      (h : Handler S) (w : ResponseWriter) (req : Msg) (q : Question)
      → SameZone h (serve_query env ops h w req q).handler
  unfolding serve_query deliver
  serve_query-SameZone h w req q = ground arith

  notified-serve_query :
      (h : Handler S) (w : ResponseWriter) (req : Msg) (q : Question)
      → (serve_query env ops h w req q).notified ≡ []
  unfolding serve_query deliver
  notified-serve_query h w req q = ground arith

  serve_opcode_query-SameZone :
      (h : Handler S) (w : ResponseWriter) (req : Msg) (q : Question)
      → SameZone h (serve_opcode_query env ops h w req q).handler
        × ((serve_opcode_query env ops h w req q).notified ≡ [])
  unfolding serve_opcode_query count_refused
  serve_opcode_query-SameZone h w req q = ground (
    arith,
    refuse-SameZone h w req,
    handle_axfr-SameZone h w req q,
    handle_ixfr-SameZone h w req q,
    serve_query-SameZone h w req q,
    notified-serve_query h w req q,
  )

  serve_question-SameZone :
      (h : Handler S) (w : ResponseWriter) (req : Msg) (q : Question)
      → req.opcode ≢ Opcode.update
      → SameZone h (serve_question env ops h w req q).handler
        × ((serve_question env ops h w req q).notified ≡ [])
  unfolding serve_question
  serve_question-SameZone h w req q other = ground (arith, serve_opcode_query-SameZone h w req q)

  serve_cases :
      (h : Handler S) (w : ResponseWriter) (req : Msg) (qs : List Question)
      → req.question ≡ qs
      → req.opcode ≢ Opcode.update
      → SameZone h (serve_dns env ops h w req).handler × ((serve_dns env ops h w req).notified ≡ [])
  unfolding serve_dns
  serve_cases h w req [] e other = ground (arith, e)
  serve_cases h w req (q ∷ qs) e other =
      rw (e, serve_dns)
        (let (same, quiet) = serve_question-SameZone (count_query h) w req q other in
          (
            record {
              store = same.store;
              cfg = same.cfg;
              serial = same.serial;
              changelog = same.changelog;
            },
            quiet,
          ))

  -- No message that is not an update, transfers included, changes the store, the configuration, the
  -- serial or the journal, and none sends notifications.
  pub serve_dns_query :
      (h : Handler S) (w : ResponseWriter) (req : Msg)
      → req.opcode ≢ Opcode.update
      → SameZone h (serve_dns env ops h w req).handler × ((serve_dns env ops h w req).notified ≡ [])
  serve_dns_query h w req other = serve_cases h w req req.question refl other

  refused :
      (h : Handler S) (w : ResponseWriter) (req : Msg) (q : Question) (qs : List Question)
      → req.question ≡ q ∷ qs
      → tsig_valid env.lib h w req ≡ false
      → (req.opcode ≡ Opcode.update) ⊎ ((req.opcode ≡ Opcode.query) × (is_transfer q.qtype ≡ true))
      → serve_dns env ops h w req ≡ record {
        handler = count_refused (count_query h);
        sent = env.lib.set_rcode new_msg req Rcode.refused ∷ [];
        notified = [];
      }
  unfolding serve_dns serve_question serve_opcode_query handle_update refuse tsig_valid auth_ok
  refused h w req q qs e unsigned (inl u) = rw (e, serve_dns) (ground arith)
  refused h w req q qs e unsigned (inr (u, t)) = rw (e, serve_dns) (ground arith)

  -- An update or a transfer is signed: the server has a TSIG provider, the message carries a TSIG
  -- record, and its verification has succeeded; or it is answered by one message REFUSED, is counted as a
  -- query and as refused, changes nothing else, and notifies nobody.
  pub serve_dns_unsigned :
      (h : Handler S) (w : ResponseWriter) (req : Msg) (q : Question) (qs : List Question)
      → req.question ≡ q ∷ qs
      → (req.opcode ≡ Opcode.update) ⊎ ((req.opcode ≡ Opcode.query) × (is_transfer q.qtype ≡ true))
      → ((h.tsig_provider ≡ true) × (env.lib.is_tsig req ≡ true) × (w.tsig_status_ok ≡ true))
        ⊎ (serve_dns env ops h w req ≡ record {
          handler = count_refused (count_query h);
          sent = env.lib.set_rcode new_msg req Rcode.refused ∷ [];
          notified = [];
        })
  unfolding tsig_valid
  serve_dns_unsigned h w req q qs e asks = elim (Bool-cases (tsig_valid env.lib h w req)) [
    | inl signed ↦ inl (ground (arith, signed), ground (arith, signed), ground (arith, signed))
    | inr unsigned ↦ inr (refused h w req q qs e unsigned asks)
  ]
