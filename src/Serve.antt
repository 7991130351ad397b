-- ===== src/Serve.antt =====
-- ServeDNS and acceptFunc of server.go: which messages are taken, and what answers them.
pub mod Accept
pub mod Lifecycle
pub mod Policy
pub mod Chronicle
pub mod Reachable
pub mod Replay
pub mod Table
pub mod Size
use contractdb.Base.{
  ℕ, ◌+◌, ◌/◌, ◌%◌, ◌^◌, Bool, true, false, ◌&&◌, ◌||◌, not, Option, none, some, List, [], ◌∷◌,
  ◌++◌, Bytes, codes, ltb, ◌==◌, if◌then◌else◌,
}
use contractdb.Dns.{Header, Rr, Body, Opt, Question, Msg, DnsLib, new_msg}
use contractdb.Dns.Kind
use contractdb.Dns.Rcode
use contractdb.Dns.Opcode
use contractdb.Store.{Store}
use contractdb.Handler.{
  Handler, Env, Network, udp, tcp, ResponseWriter, tsig_valid, auth_ok, setup_reply_tsig,
  count_refused,
}
use contractdb.Query.{build_response}
use contractdb.Update.{handle_update}
use contractdb.Transfer.{refuse, udp_cap, is_tcp, handle_axfr, handle_ixfr, udp_default_size}

-- The header of a message on the wire, with its sixteen flag bits and its section counts.
pub record WireHeader : Type 0 where
  pub bits : ℕ
  pub qdcount : ℕ
  pub ancount : ℕ
  pub nscount : ℕ
  pub arcount : ℕ

pub data AcceptAction : Type 0 where
  accept reject ignore reject_not_implemented : AcceptAction

-- `dh.Bits&(1<<15) != 0`, and `int(dh.Bits>>11) & 0xF`
abbrev pub is_response : WireHeader → Bool
is_response dh = dh.bits / 2 ^ 15 % 2 == 1

abbrev pub opcode_of : WireHeader → ℕ
opcode_of dh = dh.bits / 2 ^ 11 % 16

pub accept_func : WireHeader → AcceptAction
accept_func dh =
    if is_response dh
    then ignore
    else if opcode_of dh == Opcode.update
    then (if not (dh.qdcount == 1) || ltb 2 dh.arcount then reject else accept)
    else if not (opcode_of dh == Opcode.query || opcode_of dh == Opcode.notify)
    then reject_not_implemented
    else if not (dh.qdcount == 1)
    then reject
    else if ltb 1 dh.nscount
    then reject
    else if ltb 1 dh.ancount && opcode_of dh == Opcode.notify
    then reject
    else if ltb 2 dh.arcount
    then reject
    else accept

abbrev pub max_msg_size : ℕ
max_msg_size = 65535

abbrev pub our_udp_size : ℕ
our_udp_size = 1232

-- What ServeDNS leaves: the handler, the messages written, the addresses that are notified.
pub record Served (S : Type 0) : Type 0 where
  pub handler : Handler S
  pub sent : List Msg
  pub notified : List Bytes

-- The OPT record of a reply, with the DO bit of the client.
unfoldable pub reply_opt : Opt → Rr
reply_opt opt = record {
  hdr = record {
    name = codes ".";
    rrtype = Kind.opt;
    class = our_udp_size;
    ttl = if opt.do_bit then 2 ^ 15 else 0;
  };
  body = Body.opt (record { udp_size = our_udp_size; do_bit = opt.do_bit });
}

abbrev sign_with : Option (ℕ → Msg → Msg → Msg) → Option Opt → ℕ → Msg → Msg → Msg
sign_with (some sign) (some opt) now req resp = if opt.do_bit then sign now req resp else resp
sign_with _ _ now req resp = resp

abbrev pub count_query : {S : Type 0} → Handler S → Handler S
count_query h = record h { metrics = record h.metrics { queries = h.metrics.queries + 1 } }

abbrev pub count_nxdomain : {S : Type 0} → Handler S → Msg → Handler S
count_nxdomain h resp =
    if resp.rcode == Rcode.name_error
    then record h { metrics = record h.metrics { nxdomain = h.metrics.nxdomain + 1 } }
    else h

abbrev pub count_truncated : {S : Type 0} → Handler S → Handler S
count_truncated h = record h { metrics = record h.metrics { truncated = h.metrics.truncated + 1 } }

abbrev pub reply_with : {S : Type 0} → Handler S → Msg → Served S
reply_with h m = record { handler = h; sent = m ∷ []; notified = [] }

abbrev pub served : {S : Type 0} → Handler S × List Msg → Served S
served (h, sent) = record { handler = h; sent = sent; notified = [] }

abbrev pub served_update : {S : Type 0} → Handler S × Msg × List Bytes → Served S
served_update (h, m, notified) = record { handler = h; sent = m ∷ []; notified = notified }

abbrev pub is_transfer : ℕ → Bool
is_transfer qtype = qtype == Kind.axfr || qtype == Kind.ixfr

module _ {S : Type 0} (env : Env) (ops : Store S) where
  -- The size that the transport and the client's EDNS0 record allow.
  unfoldable pub max_size : ResponseWriter → Msg → ℕ
  max_size w req = if is_tcp w.network then max_msg_size else udp_cap env ops req

  unfoldable pub add_opt : Msg → Msg → Msg
  add_opt req resp = elim (env.lib.is_edns0 req) [
    | none ↦ resp
    | some opt ↦ record resp { extra = resp.extra ++ reply_opt opt ∷ [] }
  ]

  -- Signing, for a signer and a client that sets the DO bit.
  unfoldable pub sign_response : Handler S → ℕ → Msg → Msg → Msg
  sign_response h now req resp = sign_with h.signer (env.lib.is_edns0 req) now req resp

  -- From the size check on.
  unfoldable pub deliver : Handler S → ResponseWriter → Msg → Msg → Served S
  deliver h w req resp =
      if ltb (max_size w req) (env.lib.msg_len resp)
      then reply_with (count_truncated h)
          (setup_reply_tsig env.lib h req (env.lib.truncate resp (max_size w req)))
      else reply_with h (setup_reply_tsig env.lib h req resp)

  unfoldable pub serve_query : Handler S → ResponseWriter → Msg → Question → Served S
  serve_query h w req q =
      let resp = build_response env ops h req q in
      deliver (count_nxdomain h resp) w req (sign_response h w.now req (add_opt req resp))

  -- A query, once its opcode is known. The handlers of transfers are the registered ones.
  unfoldable pub serve_opcode_query : Handler S → ResponseWriter → Msg → Question → Served S
  serve_opcode_query h w req q =
      if not (auth_ok env.lib h w req)
      then reply_with (count_refused h) (env.lib.set_rcode new_msg req Rcode.refused)
      else if is_transfer q.qtype
      then (if not (tsig_valid env.lib h w req)
          then served (refuse env ops h w req)
          else if q.qtype == Kind.axfr
          then served (handle_axfr env ops h w req q)
          else served (handle_ixfr env ops h w req q))
      else serve_query h w req q

  -- The one opcode registered beside QUERY is UPDATE.
  unfoldable pub serve_question : Handler S → ResponseWriter → Msg → Question → Served S
  serve_question h w req q =
      if not (req.opcode == Opcode.query)
      then (if req.opcode == Opcode.update
          then served_update (handle_update env ops h w req)
          else reply_with h (env.lib.handle_failed req))
      else serve_opcode_query h w req q

  unfoldable pub serve_dns : Handler S → ResponseWriter → Msg → Served S
  serve_dns h w req = elim req.question [
    | [] ↦ reply_with (count_query h) (env.lib.handle_failed req)
    | q ∷ qs ↦ serve_question (count_query h) w req q
  ]
