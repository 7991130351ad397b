-- ===== src/Tests/Starting.antt =====
-- The start of a server.
use contractdb.Base.{
  ◌≢◌, inl, inr, Option-cases, ℕ, ◌%◌, ◌≤◌, Bool, true, false, none, some, List, [], ◌∷◌, ◌++◌,
  ◌&&◌, Bytes, codes, bytes_eq, length, ◌≡◌, ◌⊎◌, refl, arith,
}
use contractdb.Assoc.{lookup, bytes_key, insert, remove}
use contractdb.Text.{to_lower, lower, split}
use contractdb.Text.Decimal.{pos, atoi, digits_loop}
use contractdb.Text.Space.{trim_space, trim_left, trim_right, cut, has_byte}
use contractdb.Dns.{Msg, new_msg}
use contractdb.Dns.Kind
use contractdb.Serve.Reachable.{Journaled, start, serve}
use contractdb.Store.Sample.{sample_ops}
use contractdb.Journal.{Delta, new_mem_change_log, log_record, mem_change_log_cap, u32_mod}
use contractdb.Journal.Pruning.{log_record_bounded}
use contractdb.Store.{Writer, ok, Store}
use contractdb.Store.Dynamo.{panicked, query_pages, Client, DynamoStore, query_index}
use contractdb.Auth.{
  HmacProvider, build_tsig, load_tsig_keys, load_tsig_keys_inline, new_hmac_provider,
}
use contractdb.Base64.{decode_string}
use contractdb.Handler.{Handler, new_handler}
use contractdb.Doh.Prepared.{ensure_tls_cert-ready}
use contractdb.Doh.Certificate.{
  CertLib, file_exists, ensure_tls_cert, make_cert, write_both, write_file,
}
use contractdb.Store.Demo.{new_full_sample_store}
use contractdb.Query.{build_response}
use contractdb.Serve.{serve_dns, max_size}
use contractdb.Start.{FileConfig, Flags, Settings, done, pick, final_gsis, final_ttl}
use contractdb.Start.Configure.{configure, settings}
use contractdb.Start.Checked.{IsChecked, configure-IsChecked}
use contractdb.Start.Health.{any_up}
use contractdb.Start.Health.Agreement.{health_question, serve_dns-health}
use contractdb.Serve.Chronicle.{Chronicle}
use contractdb.Start.Running.{cmd_serve-Reaches, cmd_serve-IsGuarded}
use contractdb.Start.Pidfile.{serving, end_of, no_pidfile, sent, cmd_stop}
use contractdb.Start.Stopping.{cmd_stop-serving}
use contractdb.Start.Stores.{any_ops, any_ops-FailsClean, any_writer-FailsClean}
use contractdb.Update.Atomic.{FailsClean}
use contractdb.Start.Server.{AnyStore, sample, World, Server, cmd_serve}
use contractdb.Tests.Setup.{env, lib, lib-IsDnsLib, handler, tcp_writer, tsig_rr}
use contractdb.Tests.Serving.{asking}
use contractdb.Tests.Secure.{names, no_file, key_lib, no_files}

program : Unit {0}
unfolding configure settings to_lower lower bytes_eq trim_space trim_left trim_right cut has_byte
    split lookup insert remove cmd_serve pick final_gsis final_ttl build_tsig load_tsig_keys
    load_tsig_keys_inline new_hmac_provider decode_string ensure_tls_cert make_cert write_both
    write_file atoi digits_loop
program = tt

log_record_bounded_example :
    length (log_record (new_mem_change_log 7) 8 [] (tsig_rr ∷ [])).deltas ≤ mem_change_log_cap
log_record_bounded_example =
    log_record_bounded (new_mem_change_log 7) 8 [] (tsig_rr ∷ []) (omega arith) (omega arith) tt

abbrev any_number : Bytes → Bool
any_number text = true

-- Keys and certificates are their own encodings
abbrev pub cert_lib : CertLib Bytes
cert_lib = record {
  generate_key = some (codes "private");
  random_below = λ limit. some 7;
  create_certificate = λ tmpl key. some tmpl.common_name;
  marshal_key = λ key. some key;
  pem_encode = λ kind der. kind ++ der;
  dir_of = λ path. codes ".";
  mkdir_all = λ dir. true;
  now = 1000;
  in_ten_years = 315361000;
}

abbrev world : World ℕ Bytes
world = record {
  names = names;
  lib = lib;
  getenv = λ name. [];
  parse_ip = λ ip. true;
  read_file = no_file;
  unix_time = 1000;
  client = λ endpoint. none;
  keys = key_lib;
  files = no_files;
  certs = cert_lib;
}

abbrev flags : Flags
flags = record {
  addr = [];
  zone = codes "DB";
  table = [];
  pk_attr = [];
  ttl = 0;
  endpoint = [];
  consistent = false;
  demo = true;
  gsi_list = codes "Plan=plan";
  auth_mode = codes "tsig-required";
  tsig_keys = codes "key.:c2VjcmV0";
  notify_list = [];
  dnssec_dir = [];
  doh_addr = codes ":443";
  tls_cert = [];
  tls_key = [];
  pidfile = [];
}

abbrev file_config : FileConfig
file_config = record {
  listen = [];
  zone = [];
  ttl = 0;
  advertise_ip = [];
  pidfile = codes "run.pid";
  table = [];
  pk_attr = [];
  endpoint = [];
  consistent = false;
  gsis = [];
  demo_enabled = false;
  auth_mode = [];
  tsig_keys_file = [];
  notifiees = [];
  dnssec_enabled = false;
  key_dir = [];
  doh_listen = [];
  doh_cert = [];
  doh_key = [];
}

abbrev gsis : List (Bytes × Bytes)
gsis = (codes "plan", codes "plan") ∷ []

abbrev chosen : Settings
chosen = record {
  addr = codes ":53";
  zone = codes "db.";
  pk_attr = codes "pk";
  table = [];
  endpoint = [];
  auth_mode = codes "tsig-required";
  tsig = codes "key.:c2VjcmV0";
  doh = codes ":443";
  tls_cert = [];
  tls_key = [];
  consistent = false;
  use_demo = true;
  advertise_ip = codes "127.0.0.1";
  ttl = 5;
  gsis = gsis;
}

chosen_lem : configure names (λ ip. true) (λ name. []) flags file_config ≡ done chosen
unfolding program
chosen_lem = refl

configure-IsChecked_example : IsChecked names (λ ip. true) (λ name. []) chosen
configure-IsChecked_example =
    configure-IsChecked names (λ ip. true) (λ name. []) flags file_config chosen (omega arith)
      chosen_lem

abbrev server : Server ℕ
server = record {
  handler =
      record (new_handler (sample (new_full_sample_store gsis)) (record {
        zone = codes "db.";
        table = [];
        pk_attr = codes "pk";
        ttl = 5;
        advertise_ip = codes "127.0.0.1";
        serial = 1000;
        gsis = gsis;
      })) {
        changelog = some (new_mem_change_log 1000);
        tsig_provider = true;
        auth_required = true;
      };
  provider = some (record { keys = (codes "key.", codes "secret") ∷ [] });
  addr = codes ":53";
  doh = some (codes ":443");
  tls = (codes ".contractdb-tls/cert.pem", codes ".contractdb-tls/key.pem");
  pidfile = codes "run.pid";
  files = record no_files {
    held =
        (codes ".contractdb-tls/key.pem", codes "EC PRIVATE KEYprivate")
        ∷ (codes ".contractdb-tls/cert.pem", codes "CERTIFICATEcontractdb")
        ∷ [];
  };
}

server_lem : cmd_serve world flags file_config ≡ done server
unfolding program
server_lem = refl

-- A client of tables that stay empty
abbrev no_items : Client ℕ
no_items = record {
  get_item = λ d table attribute pk consistent. ok none;
  put_item = λ d table av. (false, d);
  delete_item = λ d table attribute pk. (false, d);
  scan = λ d table. record { items = []; broken = false };
  query = λ d table index attribute v. record { items = []; broken = false };
}

no_items-safe :
    (st : DynamoStore ℕ) (index v : Bytes) → query_index any_number no_items st index v ≢ panicked
unfolding query_index query_pages
no_items-safe st index v e = elim (Option-cases (lookup index st.gsi_attrs)) [
  | inl f ↦ absurd (ground (arith, f))
  | inr (attribute, f) ↦ absurd (ground (arith, f))
]

abbrev stores : Store (AnyStore ℕ)
stores = any_ops any_number no_items no_items-safe

stores-FailsClean : (writer : Writer (AnyStore ℕ)) → stores.writer ≡ some writer → FailsClean writer
stores-FailsClean = any_ops-FailsClean any_number no_items no_items-safe (
    any_writer-FailsClean any_number no_items no_items-safe (λ d table attribute pk h. refl)
      (λ st pk item h. refl))

abbrev after_query : Handler (AnyStore ℕ)
after_query =
    (serve_dns env stores server.handler tcp_writer (asking (codes "db.") Kind.soa)).handler

cmd_serve-Reaches_example :
    (hist : List Delta) × (length hist ≤ 1)
    × Journaled (1000 % u32_mod) hist after_query
    × Chronicle env stores server.handler hist after_query
cmd_serve-Reaches_example =
    cmd_serve-Reaches world flags file_config env stores stores-FailsClean server after_query 1
      server_lem
      (serve server.handler server.handler 0 tcp_writer (asking (codes "db.") Kind.soa)
        (start server.handler))
      (omega arith)

cmd_serve-IsGuarded_example :
    (to_lower (codes "db.") ≡ codes "db.")
    × (c : Settings) × (configure names (λ ip. true) (λ name. []) flags file_config ≡ done c)
    × (◌≡◌ {A = Bool} true false × (c.auth_mode ≡ codes "open")
        ⊎ (p : HmacProvider) × ◌≡◌ {A = Bool} true true
          × ◌≡◌ {A = Bool} true true
          × (server.provider ≡ some p)
          × (build_tsig names no_file c.tsig ≡ some (some p)))
cmd_serve-IsGuarded_example =
    cmd_serve-IsGuarded world flags file_config server (omega arith) server_lem

abbrev health : Msg
health = record new_msg { question = health_question (codes "db.") ∷ [] }

serve_dns-health_example :
    (m : Msg) × ((serve_dns env sample_ops handler tcp_writer health).sent ≡ m ∷ [])
    × (any_up m.answer ≡ true)
unfolding program build_response max_size
serve_dns-health_example =
    serve_dns-health env sample_ops lib-IsDnsLib handler refl health tcp_writer refl refl refl refl
      refl (omega arith)

ensure_tls_cert-ready_example :
    (lookup (codes "other") server.files.held ≡ none)
    × (◌≡◌ {A = Bool} true false
          × ((file_exists no_files server.tls.0 && file_exists no_files server.tls.1) ≡ false)
        ⊎ ◌≡◌ {A = Bool} true true
          × (file_exists server.files server.tls.0 ≡ true)
          × (file_exists server.files server.tls.1 ≡ true)
          × (ensure_tls_cert cert_lib server.files server.tls.0 server.tls.1 ≡ (true, server.files))
          × (((file_exists no_files server.tls.0 && file_exists no_files server.tls.1) ≡ false)
              ⊎ (server.files ≡ no_files)))
unfolding program
ensure_tls_cert-ready_example =
    ensure_tls_cert-ready cert_lib no_files server.tls.0 server.tls.1 true server.files
      (codes "other") refl refl refl

cmd_stop-serving_example :
    (cmd_stop (λ pid. true) (serving 42 server).files file_config ≡ sent (pos 42))
    × (cmd_stop (λ pid. true) (end_of (λ path. true) 42 server true).1.files file_config
        ≡ no_pidfile)
cmd_stop-serving_example =
    cmd_stop-serving world flags file_config server 42 (λ pid. true) (λ path. true) true server_lem
      refl refl (λ e. cc) refl refl refl (omega arith) refl
