-- ===== src/Tests/Secure.antt =====
-- TSIG keys, DNS over HTTPS and online signing.
use contractdb.Base.{
  ℕ, ◌≢◌, All, true, false, Option, none, some, List, [], ◌∷◌, ◌++◌, Bytes, codes, bytes_eq, length,
  ◌%◌, ◌≡◌, ◌↔◌, refl, sym, arith,
}
use contractdb.Assoc.{lookup, insert, bytes_key}
use contractdb.Base64.{std_encoding, encode}
use contractdb.Text.{to_lower, lower, has_prefix, has_suffix}
use contractdb.Dns.{NameLib, WireLib, Msg, Rr, Body, Rrsig}
use contractdb.Dns.Kind
use contractdb.Dns.Class
use contractdb.Auth.{Hmac, Tsig, HmacProvider, build_tsig, verify}
use contractdb.Auth.Keys.{spec_of}
use contractdb.Auth.Provider.{build_tsig-spec_of}
use contractdb.Auth.Verify.{IsAuthentic, verify_iff}
use contractdb.Doh.{
  HttpRequest, doh_content_type, serve_doh, doh_response, encode_response, write_doh_response,
}
use contractdb.Doh.Encoding.{url_form, serve_doh_get-encode}
use contractdb.Doh.Agreement.{write_doh_response-serve_dns}
use contractdb.Dnssec.{
  OnlineSigner, IsSigner, RrsetKey, rrset_key, signature_fields, response_ttl, sign_section, sign,
}
use contractdb.Dnssec.Keys.{
  KeyLib, Files, IsKeyLib, pem_type, signer_of, new_online_signer, sanitize_zone, safe_chars,
}
use contractdb.Dnssec.Restart.{new_online_signer-restart}
use contractdb.Store.Demo.{repeat_text}
use contractdb.Dnssec.Groups.{members}
use contractdb.Dnssec.Sections.{covering, covered_ttl, sign_section_covers}
use contractdb.Dnssec.Sign.{sign-idempotent}
use contractdb.Handler.{Handler, soa, soa_with_serial}
use contractdb.Serve.{serve_dns, sign_response, add_opt}
use contractdb.Query.{build_response, apex}
use contractdb.Store.Sample.{SampleStore, sample_ops}
use contractdb.Tests.Setup.{env, lib, handler, tcp_writer}
use contractdb.Tests.Serving.{asking, question}

-- Names are compared as they stand.
abbrev pub names : NameLib
names = record { canonical_name = λ s. s; fqdn = λ s. s ++ codes "."; is_domain_name = λ s. true }

abbrev key : Bytes × Bytes
key = (codes "key.", codes "secret")

abbrev pub no_file : Bytes → Option Bytes
no_file path = none

build_tsig-spec_of_example :
    (p : HmacProvider) × (build_tsig names no_file (spec_of (key ∷ [])) ≡ some (some p))
    × (lookup (codes "key.") p.keys ≡ some (codes "secret"))
unfolding lookup bytes_eq
build_tsig-spec_of_example =
    build_tsig-spec_of names key []
      (
        record {
          named = refl;
          no_comma = omega arith;
          no_colon = omega arith;
          no_space = (refl, (refl, (refl, (refl, tt))));
          secret = refl;
          octets = omega arith;
        },
        tt,
      )
      (refl, tt) (λ m n r s a b e. e) no_file (codes "key.") (codes "secret") refl refl

-- A code of one octet: the number of octets of the secret and the message.
abbrev hmac : Hmac
hmac hash secret msg = (length (secret ++ msg) % 256) ∷ []

abbrev provider : HmacProvider
provider = record { keys = key ∷ [] }

abbrev tsig : Tsig
tsig = record { name = codes "key."; algorithm = codes "hmac-sha256."; mac = codes "09" }

verify_iff_example :
    (verify names hmac provider (codes "msg") tsig ≡ true)
    ↔ IsAuthentic names hmac provider (codes "msg") tsig
verify_iff_example =
    verify_iff names hmac (λ hash secret msg. (omega arith, tt)) provider (codes "msg") tsig

-- A wire format of one message
abbrev wire : WireLib
wire = record { unpack = λ raw. some (asking raw Kind.txt); pack = λ m. some (codes "packed") }

abbrev octets : Bytes
octets = codes "db."

abbrev get : HttpRequest
get = record {
  method = codes "GET";
  content_type = [];
  dns = encode (url_form false) octets;
  body = [];
  broken = false;
}

abbrev post : HttpRequest
post = record {
  method = codes "POST";
  content_type = doh_content_type;
  dns = [];
  body = octets;
  broken = false;
}

serve_doh_get-encode_example :
    serve_doh env sample_ops wire 1000 handler get ≡ serve_doh env sample_ops wire 1000 handler post
unfolding has_prefix
serve_doh_get-encode_example =
    serve_doh_get-encode env sample_ops wire 1000 handler get post false octets (omega arith) refl
      (omega arith) refl refl refl refl refl refl

abbrev ask_soa : Msg
ask_soa = asking (codes "db.") Kind.soa

write_doh_response-serve_dns_example :
    (h' : Handler SampleStore) × (m : Msg) × (serve_dns env sample_ops handler tcp_writer ask_soa
      ≡ record { handler = h'; sent = m ∷ []; notified = [] })
    × (write_doh_response env sample_ops wire 1000 handler ask_soa
        ≡ (h', encode_response env sample_ops wire 1000 h' m))
unfolding doh_response build_response apex sign_response add_opt soa soa_with_serial to_lower lower
    bytes_eq
write_doh_response-serve_dns_example =
    write_doh_response-serve_dns env sample_ops wire handler tcp_writer ask_soa
      (question (codes "db.") Kind.soa) refl refl refl refl refl refl (omega arith)

-- A signer whose signatures hold the fields of the RRSIG.
abbrev signature : Rrsig → List Rr → Option Rr
signature sig rrs = some (record {
  hdr = record { name = codes "db."; rrtype = Kind.rrsig; class = Class.inet; ttl = 0 };
  body = Body.rrsig sig;
})

abbrev signer : OnlineSigner
signer = record {
  zone = codes "db.";
  key = record {
    hdr = record { name = codes "db."; rrtype = Kind.dnskey; class = Class.inet; ttl = 0 };
    body = Body.dnskey (codes "public");
  };
  key_tag = 1;
  sign_rrset = signature;
}

signer-IsSigner : IsSigner signer
signer-IsSigner = record { key_kind = refl; kind = λ sig rrs rr e. ground arith }

abbrev soa_sig : Rr
soa_sig = record {
  hdr = record { name = codes "db."; rrtype = Kind.rrsig; class = Class.inet; ttl = 0 };
  body = Body.rrsig (
      covering signer 1000 60 Kind.soa
        (members (rrset_key (soa handler)) ([] ++ soa handler ∷ [])));
}

sign_section_covers_example :
    (front back : List Rr) × (sign_section signer 1000 60 ([] ++ soa handler ∷ [])
      ≡ ([] ++ soa handler ∷ [])
        ++ (front
            ++ record soa_sig {
              hdr = record soa_sig.hdr {
                ttl = covered_ttl 60 (members (rrset_key (soa handler)) ([] ++ soa handler ∷ []));
              };
            }
              ∷ back))
unfolding soa soa_with_serial
sign_section_covers_example =
    sign_section_covers signer 1000 60 [] [] (soa handler) soa_sig refl refl

abbrev signed_query : Msg
signed_query = record ask_soa {
  extra =
      record {
        hdr = record { name = codes "."; rrtype = Kind.opt; class = 1232; ttl = 32768 };
        body = Body.opt (record { udp_size = 1232; do_bit = true });
      }
      ∷ [];
}

groups-signed :
    (ttl : ℕ) (gs : List (RrsetKey × List Rr))
    → All
        (λ (g : RrsetKey × List Rr).
          signature (signature_fields signer 1000 ttl (g.0.1) (g.1)) (g.1) ≢ none)
        gs
groups-signed ttl [] = tt
groups-signed ttl (g ∷ gs) = ((λ e. absurd (cc)), groups-signed ttl gs)

sign-idempotent_example :
    sign signer lib 2000 signed_query (sign signer lib 1000 signed_query ask_soa)
    ≡ sign signer lib 1000 signed_query ask_soa
sign-idempotent_example =
    sign-idempotent signer signer-IsSigner 1000 lib 2000 signed_query ask_soa
      (groups-signed (response_ttl ask_soa) _) (groups-signed (response_ttl ask_soa) _)

-- A private key is a text, and its encodings are that text; the public key is a fixed point.
abbrev coordinates : Bytes
coordinates = repeat_text 64 (codes "x")

abbrev pub key_lib : KeyLib Bytes
key_lib = record {
  generate = some (codes "private", encode std_encoding coordinates);
  pem_decode = λ text. some (pem_type, text);
  pem_encode = λ kind der. der;
  parse_private = λ der. some der;
  marshal_private = λ k. some k;
  is_p256 = λ k. true;
  public_bytes = λ k. some (4 ∷ coordinates);
  key_tag = λ rr. 1;
  sign_rrset = λ k. signature;
  join_path = λ dir name. dir ++ codes "/" ++ name;
  dir_of = λ path. codes "keys";
}

abbrev pub no_files : Files
no_files = record {
  unreadable = λ path. false;
  makable = λ dir. true;
  writable = λ path. true;
  held = [];
}

key_lib-IsKeyLib : IsKeyLib key_lib names
unfolding repeat_text
key_lib-IsKeyLib = record {
  pem_back = λ der. refl;
  key_back = λ k der e. sym e;
  on_curve = λ k p e. refl;
  from_point = λ k p e. (coordinates, refl, refl, ground arith);
}

abbrev first_signer : OnlineSigner
first_signer =
    signer_of key_lib names (codes "DB") (codes "private") (encode std_encoding coordinates)

abbrev with_key : Files
with_key = record no_files { held = (codes "keys/db.key", codes "private") ∷ [] }

new_online_signer-restart_example :
    new_online_signer key_lib names with_key (codes "DB") (codes "keys")
    ≡ some (first_signer, with_key)
unfolding new_online_signer sanitize_zone safe_chars to_lower lower has_suffix lookup insert
new_online_signer-restart_example =
    new_online_signer-restart key_lib names key_lib-IsKeyLib no_files with_key (codes "DB")
      (codes "keys") first_signer refl refl
