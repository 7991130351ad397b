-- ===== src/Doh/Policy.antt =====
-- What requests over HTTPS change.
use contractdb.Base.{ℕ, Bytes, inl, inr, refl, arith, Option-cases, ◌+◌}
use contractdb.Dns.{Msg, WireLib}
use contractdb.Store.{Store}
use contractdb.Text.Space.{trim_space}
use contractdb.Handler.{Handler, Env}
use contractdb.Serve.Policy.{SameZone}
use contractdb.Doh.{
  HttpRequest, doh_max_body, read_limited, base64_url_decode, doh_response, write_doh_response,
  unpack_and_answer, serve_doh_post, serve_doh_get, serve_doh,
}

module _ {S : Type 0} (env : Env) (ops : Store S) (wire : WireLib) (now : ℕ) where
  refl-SameZone : (h : Handler S) → SameZone h h
  refl-SameZone h = record { store = refl; cfg = refl; serial = refl; changelog = refl }

  doh_response-SameZone :
      (h : Handler S) (req : Msg) → SameZone h (doh_response env ops wire now h req).0
  unfolding doh_response
  doh_response-SameZone h req = ground arith

  unpack-SameZone :
      (h : Handler S) (raw : Bytes) → SameZone h (unpack_and_answer env ops wire now h raw).0
  unfolding unpack_and_answer write_doh_response
  unpack-SameZone h raw = elim (Option-cases (wire.unpack raw)) [
    | inl e ↦ rw (e, unpack_and_answer) (refl-SameZone h)
    | inr (req, e) ↦ rw (e, unpack_and_answer) (doh_response-SameZone h req)
  ]

  post-SameZone :
      (h : Handler S) (r : HttpRequest) → SameZone h (serve_doh_post env ops wire now h r).0
  unfolding serve_doh_post
  post-SameZone h r = elim (Option-cases (read_limited (doh_max_body + 1) r)) [
    | inl e ↦ ground (arith, e)
    | inr (body, e) ↦ ground (arith, e, unpack-SameZone h body)
  ]

  get-SameZone :
      (h : Handler S) (r : HttpRequest) → SameZone h (serve_doh_get env ops wire now h r).0
  unfolding serve_doh_get
  get-SameZone h r = elim (Option-cases (base64_url_decode (trim_space r.dns))) [
    | inl e ↦ ground (arith, e)
    | inr (raw, e) ↦ ground (arith, e, unpack-SameZone h raw)
  ]

  -- No request over HTTPS changes the store, the configuration, the serial or the journal.
  pub serve_doh-SameZone :
      (h : Handler S) (r : HttpRequest) → SameZone h (serve_doh env ops wire now h r).0
  unfolding serve_doh
  serve_doh-SameZone h r = ground (arith, post-SameZone h r, get-SameZone h r)
