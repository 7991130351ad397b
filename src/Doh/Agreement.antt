-- ===== src/Doh/Agreement.antt =====
-- The same query over HTTPS and over TCP.
use contractdb.Base.{ℕ, false, [], ◌∷◌, ◌≡◌, ◌≤◌, refl, sym, ap, subst, ◌∙◌, arith}
use contractdb.Dns.{Msg, Question, WireLib}
use contractdb.Dns.Opcode
use contractdb.Store.{Store}
use contractdb.Handler.{Handler, Env, tcp, ResponseWriter, auth_ok, setup_reply_tsig}
use contractdb.Serve.{
  serve_dns, serve_question, serve_opcode_query, serve_query, deliver, max_size, max_msg_size,
  is_transfer, count_query, count_nxdomain, sign_response, add_opt,
}
use contractdb.Query.{build_response}
use contractdb.Doh.{doh_response, encode_response, write_doh_response}

module _ {S : Type 0} (env : Env) (ops : Store S) (wire : WireLib) where
  abbrev answer : Handler S → Msg → Question → Msg
  answer h req q = build_response env ops (count_query h) req q

  abbrev signed : Handler S → ℕ → Msg → Question → Msg
  signed h now req q =
      sign_response env ops (count_query h) now req (add_opt env ops req (answer h req q))

  over_https :
      (h : Handler S) (now : ℕ) (req : Msg) (q : Question)
      → req.opcode ≡ Opcode.query
      → h.auth_required ≡ false
      → req.question ≡ q ∷ []
      → doh_response env ops wire now h req
        ≡ (count_nxdomain (count_query h) (answer h req q), signed h now req q)
  unfolding doh_response sign_response
  over_https h now req q op open_ one = ground arith

  by_query :
      (h : Handler S) (w : ResponseWriter) (req : Msg) (q : Question)
      → req.opcode ≡ Opcode.query
      → h.auth_required ≡ false
      → req.question ≡ q ∷ []
      → is_transfer q.qtype ≡ false
      → serve_dns env ops h w req
        ≡ deliver env ops
            (count_nxdomain (count_query h) (answer h req q))
            w
            req
            (signed h w.now req q)
  unfolding serve_dns serve_question serve_opcode_query serve_query auth_ok
  by_query h w req q op open_ one other = ground arith

  delivered :
      (h : Handler S) (w : ResponseWriter) (req m : Msg)
      → env.lib.is_tsig req ≡ false
      → w.network ≡ tcp
      → env.lib.msg_len m ≤ max_msg_size
      → deliver env ops h w req m ≡ record { handler = h; sent = m ∷ []; notified = [] }
  unfolding deliver max_size setup_reply_tsig
  delivered h w req m plain net fits = ground arith

  -- A query with one question and no TSIG record, for no transfer, to a server that does not require
  -- signatures: over TCP it is answered by one message, if that has at most 65535 bytes; over HTTPS by
  -- the same message at the same time, but for its ID, and the counters are the same.
  pub write_doh_response-serve_dns :
      (h : Handler S) (w : ResponseWriter) (req : Msg) (q : Question)
      → req.opcode ≡ Opcode.query
      → h.auth_required ≡ false
      → req.question ≡ q ∷ []
      → is_transfer q.qtype ≡ false
      → env.lib.is_tsig req ≡ false
      → w.network ≡ tcp
      → env.lib.msg_len (doh_response env ops wire w.now h req).1 ≤ max_msg_size
      → (h' : Handler S) × (m : Msg) × (serve_dns env ops h w req
          ≡ record { handler = h'; sent = m ∷ []; notified = [] })
        × (write_doh_response env ops wire w.now h req
            ≡ (h', encode_response env ops wire w.now h' m))
  write_doh_response-serve_dns h w req q op open_ one other plain net fits =
      let (h', m) = doh_response env ops wire w.now h req in
      (
        h',
        m,
        by_query h w req q op open_ one other
            ∙ delivered (count_nxdomain (count_query h) (answer h req q)) w req
                (signed h w.now req q) plain net
                (subst (λ (r : Handler S × Msg). env.lib.msg_len r.1 ≤ max_msg_size)
                  (over_https h w.now req q op open_ one) fits)
            ∙ ap (λ (r : Handler S × Msg). record { handler = r.0; sent = r.1 ∷ []; notified = [] })
                (sym (over_https h w.now req q op open_ one)),
        unfold write_doh_response in refl,
      )
