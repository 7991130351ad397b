-- ===== src/Serve/Size.antt =====
-- The sizes of the replies of ServeDNS to queries.
use contractdb.Base.{
  ℕ, false, none, some, [], ◌∷◌, ◌≡◌, ◌≤◌, ◌⊎◌, arith, ltb, inl, inr, refl, Bool-cases,
  Option-cases,
}
use contractdb.Dns.{Opt, Msg, Question, DnsLib}
use contractdb.Handler.{Handler, Env, Network, udp, tcp, ResponseWriter, setup_reply_tsig}
use contractdb.Store.{Store}
use contractdb.Transfer.{udp_cap}
use contractdb.Query.{build_response}
use contractdb.Serve.{serve_query, deliver, max_size, count_nxdomain, sign_response, add_opt}

-- `Msg.Truncate` makes a message fit, for a size that DNS allows.
pub record Truncates (lib : DnsLib) : Type 0 where
  pub fits : (m : Msg) (n : ℕ) → 512 ≤ n → lib.msg_len (lib.truncate m n) ≤ n

Network-cases : (n : Network) → (n ≡ tcp) ⊎ (n ≡ udp)
Network-cases tcp = inl refl
Network-cases udp = inr refl

module _ {S : Type 0} (env : Env) (ops : Store S) (cut : Truncates env.lib) where
  max_size_bounds : (w : ResponseWriter) (req : Msg) → (512 ≤ max_size env ops w req)
  unfolding max_size udp_cap
  max_size_bounds w req = ground arith

  -- what the size is, by the transport and the record of the client
  size_lem :
      (w : ResponseWriter) (req : Msg) (size : ℕ)
      → size ≤ max_size env ops w req
      → (w.network ≡ tcp) × (size ≤ 65535)
        ⊎ (w.network ≡ udp)
          × ((env.lib.is_edns0 req ≡ none) × (size ≤ 512)
              ⊎ (opt : Opt) × (env.lib.is_edns0 req ≡ some opt)
                × ((size ≤ 512) ⊎ (size ≤ opt.udp_size)))
  unfolding max_size udp_cap
  size_lem w req size fits = elim (Network-cases w.network) [
    | inl t ↦ inl (t, ground (arith, t))
    | inr u ↦ inr (
      u,
      elim (Option-cases (env.lib.is_edns0 req)) [
        | inl e ↦ inl (e, ground (arith, u, e))
        | inr (opt, e) ↦ inr (
          opt,
          e,
          elim (Bool-cases (ltb 512 opt.udp_size)) [
            | inl big ↦ inr (ground (arith, u, e, big))
            | inr small ↦ inl (ground (arith, u, e, small))
          ],
        )
      ],
    )
  ]

  deliver_size :
      (h : Handler S) (w : ResponseWriter) (req resp : Msg)
      → env.lib.is_tsig req ≡ false
      → (m : Msg) × ((deliver env ops h w req resp).sent ≡ m ∷ [])
        × (env.lib.msg_len m ≤ max_size env ops w req)
        × (512 ≤ max_size env ops w req)
  unfolding deliver setup_reply_tsig
  deliver_size h w req resp plain =
      let big = max_size_bounds w req in
      elim (Bool-cases (ltb (max_size env ops w req) (env.lib.msg_len resp))) [
        | inl over ↦ (
          env.lib.truncate resp (max_size env ops w req),
          ground arith,
          cut.fits resp (max_size env ops w req) big,
          big,
        )
        | inr small ↦ (resp, ground arith, ground arith, big)
      ]

  -- The reply to a query that carries no TSIG is one message: over TCP of at most 65535 bytes; over UDP
  -- of at most 512 bytes if the query has no EDNS0 record, and otherwise of at most 512 bytes or of at most
  -- the size that the record announces.
  pub serve_query_size :
      (h : Handler S) (w : ResponseWriter) (req : Msg) (q : Question)
      → env.lib.is_tsig req ≡ false
      → (m : Msg) × ((serve_query env ops h w req q).sent ≡ m ∷ [])
        × ((w.network ≡ tcp) × (env.lib.msg_len m ≤ 65535)
            ⊎ (w.network ≡ udp)
              × ((env.lib.is_edns0 req ≡ none) × (env.lib.msg_len m ≤ 512)
                  ⊎ (opt : Opt) × (env.lib.is_edns0 req ≡ some opt)
                    × ((env.lib.msg_len m ≤ 512) ⊎ (env.lib.msg_len m ≤ opt.udp_size))))
  unfolding serve_query
  serve_query_size h w req q plain =
      let resp = build_response env ops h req q in
      let (m, sent, fits, _) =
        deliver_size (count_nxdomain h resp) w req
          (sign_response env ops h w.now req (add_opt env ops req resp)) plain in
      (m, sent, size_lem w req (env.lib.msg_len m) fits)
