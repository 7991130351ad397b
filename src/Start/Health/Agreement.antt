-- ===== src/Start/Health/Agreement.antt =====
-- The health check of a server that runs.
use contractdb.Base.{
  ◌≤◌, true, false, none, [], ◌∷◌, Bytes, codes, bytes_eq, bytes_eq_iff, bytes_eq_refl, length, ◌≡◌,
  ◌≢◌, inl, inr, refl, ap, arith, Bool-cases, Option-cases,
}
use contractdb.Dns.{Msg, Question, IsDnsLib, new_msg}
use contractdb.Dns.Kind
use contractdb.Dns.Class
use contractdb.Dns.Opcode
use contractdb.Text.{lower, to_lower}
use contractdb.Store.{Store}
use contractdb.Handler.{
  Env, Handler, ResponseWriter, auth_ok, setup_reply_tsig, txt_rr, txt_rr_chunks,
}
use contractdb.Query.{build_response, service}
use contractdb.Serve.{
  count_query, is_transfer, max_size, add_opt, sign_response, deliver, serve_query,
  serve_opcode_query, serve_question, serve_dns,
}
use contractdb.Start.Health.{health_name, any_up}

abbrev pub health_question : Bytes → Question
health_question zone = record { name = health_name zone; qtype = Kind.txt; qclass = Class.inet }

unequal_lengths : (s t : Bytes) → length s ≢ length t → bytes_eq s t ≡ false
unequal_lengths s t h = elim (Bool-cases (bytes_eq s t)) [
  | inl e ↦ absurd (h (ap length ((bytes_eq_iff s t).0 e)))
  | inr e ↦ e
]

module _ {S : Type 0} (env : Env) (ops : Store S) (laws : IsDnsLib env.lib) (h : Handler S)
    (low : to_lower h.cfg.zone ≡ h.cfg.zone) (req : Msg) where
  name_low : to_lower (health_name h.cfg.zone) ≡ health_name h.cfg.zone
  unfolding to_lower lower
  name_low = rw low refl

  up : any_up (build_response env ops h req (health_question h.cfg.zone)).answer ≡ true
  unfolding build_response any_up txt_rr txt_rr_chunks
  up =
      let not_apex : bytes_eq (health_name h.cfg.zone) h.cfg.zone ≡ false =
        unequal_lengths (health_name h.cfg.zone) h.cfg.zone (λ e. absurd (omega (arith, e))) in
      let not_status : bytes_eq (health_name h.cfg.zone) (service env ops [] h) ≡ false =
        unequal_lengths (health_name h.cfg.zone) (service env ops [] h)
          (λ e. absurd (omega (arith, e))) in
      let is_health : bytes_eq (health_name h.cfg.zone) (service env ops (codes ".health") h)
          ≡ true =
        bytes_eq_refl (health_name h.cfg.zone) in
      let says : bytes_eq (codes "UP") (codes "UP") ≡ true = bytes_eq_refl (codes "UP") in
      ground (arith, says, name_low, not_apex, not_status, is_health, laws.reply_answer new_msg req)

module _ {S : Type 0} (env : Env) (ops : Store S) (laws : IsDnsLib env.lib) (h : Handler S)
    (low : to_lower h.cfg.zone ≡ h.cfg.zone) (req : Msg) (w : ResponseWriter) where
  -- A plain query that is answered in one piece
  plain_query :
      (q : Question)
      → req.opcode ≡ Opcode.query
      → req.question ≡ q ∷ []
      → is_transfer q.qtype ≡ false
      → h.auth_required ≡ false
      → env.lib.is_edns0 req ≡ none
      → env.lib.is_tsig req ≡ false
      → env.lib.msg_len (build_response env ops (count_query h) req q) ≤ max_size env ops w req
      → (serve_dns env ops h w req).sent ≡ build_response env ops (count_query h) req q ∷ []
  unfolding serve_dns serve_question serve_opcode_query serve_query deliver auth_ok add_opt
      sign_response setup_reply_tsig
  plain_query q op asked other free plain unsigned fits = elim (Option-cases h.signer) [
    | inl bare ↦ ground arith
    | inr (sign, at) ↦ ground arith
  ]

  -- The check that cmdHealthcheck makes finds the record that the server sends: for a query with the
  -- question of the check, no EDNS0 record and no TSIG record, a server whose zone is in lower case,
  -- that demands no signature and whose reply fits the transport sends one message, and it says UP.
  pub serve_dns-health :
      req.opcode ≡ Opcode.query
      → req.question ≡ health_question h.cfg.zone ∷ []
      → h.auth_required ≡ false
      → env.lib.is_edns0 req ≡ none
      → env.lib.is_tsig req ≡ false
      → env.lib.msg_len (build_response env ops (count_query h) req (health_question h.cfg.zone))
        ≤ max_size env ops w req
      → (m : Msg) × ((serve_dns env ops h w req).sent ≡ m ∷ []) × (any_up m.answer ≡ true)
  serve_dns-health op asked free plain unsigned fits = (
    build_response env ops (count_query h) req (health_question h.cfg.zone),
    plain_query (health_question h.cfg.zone) op asked refl free plain unsigned fits,
    up env ops laws (count_query h) low req,
  )
