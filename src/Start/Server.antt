-- ===== src/Start/Server.antt =====
-- cmdServe of main.go, from the choice of the store on: the handler that it serves.
use contractdb.Base.{
  ℕ, ◌%◌, Bool, true, false, ◌&&◌, ◌||◌, not, Option, none, some, List, [], ◌++◌, Bytes, codes,
  bytes_eq, is_empty, map, if◌then◌else◌,
}
use contractdb.Dns.{NameLib, DnsLib, Msg}
use contractdb.Text.{split}
use contractdb.Text.Space.{trim_space}
use contractdb.Auth.{HmacProvider, build_tsig}
use contractdb.Dnssec.{sign}
use contractdb.Dnssec.Keys.{KeyLib, Files, new_online_signer}
use contractdb.Doh.Certificate.{CertLib, ensure_tls_cert}
use contractdb.Store.Sample.{SampleStore}
use contractdb.Store.Demo.{new_full_sample_store}
use contractdb.Store.Dynamo.{DynamoStore, new_full_dynamo_store}
use contractdb.Handler.{Config, Handler, new_handler}
use contractdb.Journal.{new_mem_change_log, u32_mod}
use contractdb.Start.{
  FileConfig, Flags, Settings, aws_failed, tsig_failed, no_valid_key, dnssec_failed, tls_failed,
  Outcome, exits, done, env_or, pick,
}
use contractdb.Start.Configure.{tsig_required, configure}

-- The two stores that serve may open.
pub data AnyStore (D : Type 0) : Type 0 where
  sample : SampleStore → AnyStore D
  dynamo : DynamoStore D → AnyStore D

-- What the program finds outside: the environment, the files, the clock, the AWS client of an endpoint,
-- and the functions on keys. `read_file` is os.ReadFile for TSIG keys, `files` are the files of signing
-- keys and of certificates.
pub record World (D K : Type 0) : Type 0 where
  pub names : NameLib
  pub lib : DnsLib
  pub getenv : Bytes → Bytes
  pub parse_ip : Bytes → Bool
  pub read_file : Bytes → Option Bytes
  pub unix_time : ℕ
  pub client : Bytes → Option D
  pub keys : KeyLib K
  pub files : Files
  pub certs : CertLib K

-- The handler, its provider, the address of the DNS-over-HTTPS server, if there is one, with the paths of
-- its certificate and key, the pidfile, and the files as they are when it serves.
pub record Server (D : Type 0) : Type 0 where
  pub handler : Handler (AnyStore D)
  pub provider : Option HmacProvider
  pub addr : Bytes
  pub doh : Option Bytes
  pub tls : Bytes × Bytes
  pub pidfile : Bytes
  pub files : Files

abbrev pub is_set : {A : Type 0} → Option A → Bool
is_set none = false
is_set (some a) = true

unfoldable pub final_notifiees : List Bytes → Bytes → List Bytes
final_notifiees file_list notify_list =
    if is_empty notify_list then file_list else file_list ++ map trim_space (split b',' notify_list)

module _ {D K : Type 0} (w : World D K) where
  unfoldable pub open_store : Settings → Outcome (AnyStore D)
  open_store c =
      if c.use_demo
      then done (sample (new_full_sample_store c.gsis))
      else elim (w.client c.endpoint) [
        | none ↦ exits aws_failed
        | some client ↦
            done (dynamo (new_full_dynamo_store client c.table c.pk_attr c.consistent c.gsis))
      ]

  abbrev handler_cfg : Settings → Config
  handler_cfg c = record {
    zone = c.zone;
    table = c.table;
    pk_attr = c.pk_attr;
    ttl = c.ttl;
    advertise_ip = c.advertise_ip;
    serial = w.unix_time % u32_mod;
    gsis = c.gsis;
  }

  -- The handler without a signer.
  unfoldable pub plain_handler :
      Flags → FileConfig → Settings → AnyStore D → Option HmacProvider → Handler (AnyStore D)
  unfolding final_notifiees
  plain_handler fl fc c store provider = record (new_handler store (handler_cfg c)) {
    tsig_provider = is_set provider;
    auth_required = bytes_eq c.auth_mode tsig_required;
    changelog = some (new_mem_change_log (w.unix_time % u32_mod));
    notifiees = final_notifiees fc.notifiees fl.notify_list;
  }

  -- The signer and the files that opening it leaves: `none` is a failure, `some (none, …)` no signing.
  unfoldable pub final_signer :
      Flags → FileConfig → Settings → Option (Option (ℕ → Msg → Msg → Msg) × Files)
  final_signer fl fc c =
      if is_empty fl.dnssec_dir && not fc.dnssec_enabled
      then some (none, w.files)
      else elim (new_online_signer w.keys w.names w.files c.zone
          (if is_empty fl.dnssec_dir then fc.key_dir else fl.dnssec_dir)) [
            | none ↦ none
            | some (s, files) ↦ some (some (λ now. sign s w.lib now), files)
          ]

  abbrev own_tls : Settings → Bool
  own_tls c = not (is_empty c.tls_cert && is_empty c.tls_key)

  unfoldable pub tls_paths : Settings → Bytes × Bytes
  tls_paths c =
      let dir = env_or w.getenv (codes "CONTRACTDB_TLS_DIR") (codes ".contractdb-tls") in
      if own_tls c
      then (c.tls_cert, c.tls_key)
      else (dir ++ codes "/cert.pem", dir ++ codes "/key.pem")

  -- Whether the certificate of the DNS-over-HTTPS server is there, or not needed, or configured.
  unfoldable pub tls_ready : Settings → Files → Bool × Files
  unfolding tls_paths
  tls_ready c files =
      if is_empty c.doh || own_tls c
      then (true, files)
      else ensure_tls_cert w.certs files (tls_paths c).0 (tls_paths c).1

  unfoldable pub with_signer :
      Flags
      → FileConfig
      → Settings
      → Option HmacProvider
      → Handler (AnyStore D)
      → Option (Option (ℕ → Msg → Msg → Msg) × Files)
      → Outcome (Server D)
  unfolding tls_ready
  with_signer fl fc c provider h none = exits dnssec_failed
  with_signer fl fc c provider h (some (signer, files)) =
      let (ready, after) = tls_ready c files in
      if not ready
      then exits tls_failed
      else done (record {
        handler = record h { signer = signer };
        provider = provider;
        addr = c.addr;
        doh = if is_empty c.doh then none else some c.doh;
        tls = tls_paths c;
        pidfile = pick fl.pidfile (w.getenv (codes "CONTRACTDB_PIDFILE")) fc.pidfile [];
        files = after;
      })

  unfoldable pub with_provider :
      Flags → FileConfig → Settings → AnyStore D → Option (Option HmacProvider) → Outcome (Server D)
  unfolding plain_handler final_signer with_signer
  with_provider fl fc c store none = exits tsig_failed
  with_provider fl fc c store (some provider) =
      let h = plain_handler fl fc c store provider in
      if h.auth_required && not h.tsig_provider
      then exits no_valid_key
      else with_signer fl fc c provider h (final_signer fl fc c)

  unfoldable pub start_server : Flags → FileConfig → Settings → Outcome (Server D)
  unfolding open_store with_provider
  start_server fl fc c = elim (open_store c) [
    | exits e ↦ exits e
    | done store ↦ with_provider fl fc c store (build_tsig w.names w.read_file c.tsig)
  ]

  -- cmdServe, up to the call of Serve
  unfoldable pub cmd_serve : Flags → FileConfig → Outcome (Server D)
  unfolding start_server
  cmd_serve fl fc = elim (configure w.names w.parse_ip w.getenv fl fc) [
    | exits e ↦ exits e
    | done c ↦ start_server fl fc c
  ]
