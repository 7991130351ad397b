-- ===== src/Doh.antt =====
-- doh.go: DNS over HTTPS (RFC 8484), one request to one reply.
pub mod Certificate
pub mod Prepared
pub mod Encoding
pub mod Policy
pub mod Agreement
use contractdb.Base.{
  ℕ, ◌+◌, ◌*◌, Bool, true, false, ◌&&◌, ◌||◌, not, Option, none, some, List, [], ◌∷◌, ◌++◌, Bytes,
  codes, bytes_eq, ltb, leb, ◌==◌, length, take, is_empty, if◌then◌else◌,
}
use contractdb.Base64.{decode_string, url_encoding, raw_url_encoding}
use contractdb.Dns.{Question, Msg, WireLib, new_msg}
use contractdb.Dns.Opcode
use contractdb.Dns.Rcode
use contractdb.Store.{Store}
use contractdb.Text.{has_prefix}
use contractdb.Text.Space.{trim_space}
use contractdb.Handler.{Handler, Env}
use contractdb.Query.{build_response}
use contractdb.Serve.{add_opt, sign_response, count_query, count_nxdomain}

abbrev pub doh_content_type : Bytes
doh_content_type = codes "application/dns-message"

abbrev pub doh_max_body : ℕ
doh_max_body = 64 * 1024

-- What the program reads of a request: the method, the media type, the parameter `dns`, the bytes
-- of the body, and whether an error stands behind them.
pub record HttpRequest : Type 0 where
  pub method : Bytes
  pub content_type : Bytes
  pub dns : Bytes
  pub body : Bytes
  pub broken : Bool

-- A reply: `max_age` is the Cache-Control header, `allow` the methods of a 405.
pub record HttpReply : Type 0 where
  pub status : ℕ
  pub allow : Bytes
  pub content_type : Bytes
  pub max_age : Option ℕ
  pub body : Bytes

-- http.Error
abbrev pub http_error : ℕ → Bytes → HttpReply
http_error status text = record {
  status = status;
  allow = [];
  content_type = codes "text/plain; charset=utf-8";
  max_age = none;
  body = text ++ codes "\n";
}

abbrev pub dns_reply : ℕ → Bytes → HttpReply
dns_reply ttl packed = record {
  status = 200;
  allow = [];
  content_type = doh_content_type;
  max_age = some ttl;
  body = packed;
}

-- base64URLDecode: raw, else padded
unfoldable pub base64_url_decode : Bytes → Option Bytes
base64_url_decode s = elim (decode_string raw_url_encoding s) [
  | some raw ↦ some raw
  | none ↦ decode_string url_encoding s
]

-- io.ReadAll of an io.LimitReader
unfoldable pub read_limited : ℕ → HttpRequest → Option Bytes
read_limited limit r =
    if r.broken && ltb (length r.body) limit then none else some (take limit r.body)

module _ {S : Type 0} (env : Env) (ops : Store S) (wire : WireLib) (now : ℕ) where
  -- The response message and the counters; `now` is the Unix time when it is signed. The question is the one of a query.
  unfoldable pub doh_response : Handler S → Msg → Handler S × Msg
  doh_response h req =
      if not (req.opcode == Opcode.query) || h.auth_required
      then (h, env.lib.set_rcode new_msg req Rcode.refused)
      else elim req.question [
        | q ∷ [] ↦
            let resp = build_response env ops (count_query h) req q in
            (
              count_nxdomain (count_query h) resp,
              sign_response env ops h now req (add_opt env ops req resp),
            )
        | _ ↦ (h, env.lib.set_rcode new_msg req Rcode.format_error)
      ]

  -- From the reset of the message ID on.
  unfoldable pub encode_response : Handler S → Msg → HttpReply
  encode_response h resp = elim (wire.pack (record resp { id = 0 })) [
    | none ↦ http_error 500 (codes "failed to encode response")
    | some packed ↦ dns_reply h.cfg.ttl packed
  ]

  unfoldable pub write_doh_response : Handler S → Msg → Handler S × HttpReply
  write_doh_response h req = let (h', resp) = doh_response h req in (h', encode_response h' resp)

  unfoldable pub unpack_and_answer : Handler S → Bytes → Handler S × HttpReply
  unpack_and_answer h raw = elim (wire.unpack raw) [
    | none ↦ (h, http_error 400 (codes "malformed DNS message"))
    | some req ↦ write_doh_response h req
  ]

  unfoldable pub serve_doh_post : Handler S → HttpRequest → Handler S × HttpReply
  serve_doh_post h r =
      if not (has_prefix r.content_type doh_content_type)
      then (h, http_error 415 (codes "unsupported media type"))
      else elim (read_limited (doh_max_body + 1) r) [
        | none ↦ (h, http_error 400 (codes "invalid request body"))
        | some body ↦
            if is_empty body || ltb doh_max_body (length body)
            then (h, http_error 400 (codes "invalid request body"))
            else unpack_and_answer h body
      ]

  unfoldable pub serve_doh_get : Handler S → HttpRequest → Handler S × HttpReply
  serve_doh_get h r =
      let q = trim_space r.dns in
      if is_empty q
      then (h, http_error 400 (codes "missing dns parameter"))
      else elim (base64_url_decode q) [
        | none ↦ (h, http_error 400 (codes "invalid dns parameter encoding"))
        | some raw ↦
            if is_empty raw
            then (h, http_error 400 (codes "invalid dns parameter encoding"))
            else if ltb doh_max_body (length raw)
            then (h, http_error 400 (codes "dns parameter too large"))
            else unpack_and_answer h raw
      ]

  unfoldable pub serve_doh : Handler S → HttpRequest → Handler S × HttpReply
  serve_doh h r =
      if bytes_eq r.method (codes "GET")
      then serve_doh_get h r
      else if bytes_eq r.method (codes "POST")
      then serve_doh_post h r
      else (h, record (http_error 405 (codes "method not allowed")) { allow = codes "GET, POST" })
