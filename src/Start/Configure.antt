-- ===== src/Start/Configure.antt =====
-- cmdServe of main.go, up to the choice of the store: the settings, or a usage error.
use contractdb.Base.{
  Bool, ◌&&◌, ◌||◌, not, Option, none, some, List, [], Bytes, codes, bytes_eq, is_empty,
  if◌then◌else◌,
}
use contractdb.Dns.{NameLib}
use contractdb.Text.{to_lower}
use contractdb.Start.{
  FileConfig, Flags, Settings, invalid_zone, invalid_auth, needs_keys, tls_halves, invalid_ip,
  invalid_gsi, no_table, Outcome, exits, done, pick, env_or, final_ttl, final_gsis,
}

abbrev pub tsig_required : Bytes
tsig_required = codes "tsig-required"

abbrev pub one_is_empty : Bytes → Bytes → Bool
one_is_empty s t = if is_empty s then not (is_empty t) else is_empty t

-- `parse_ip` tells whether net.ParseIP takes an address.
module _ (names : NameLib) (parse_ip : Bytes → Bool) (getenv : Bytes → Bytes) where
  -- The variables, before they are validated; `gsis` is filled in below.
  unfoldable pub settings : Flags → FileConfig → List (Bytes × Bytes) → Settings
  settings fl fc gsis = record {
    addr = pick fl.addr (getenv (codes "CONTRACTDB_ADDR")) fc.listen (codes ":53");
    zone = to_lower (
        names.fqdn
          (pick fl.zone (getenv (codes "CONTRACTDB_ZONE")) fc.zone (codes "contractdb.internal.")));
    pk_attr = pick fl.pk_attr (getenv (codes "CONTRACTDB_PK")) fc.pk_attr (codes "pk");
    table = pick fl.table (getenv (codes "CONTRACTDB_TABLE")) fc.table [];
    endpoint = pick fl.endpoint (getenv (codes "CONTRACTDB_ENDPOINT")) fc.endpoint [];
    auth_mode = pick fl.auth_mode (getenv (codes "CONTRACTDB_AUTH")) fc.auth_mode (codes "open");
    tsig = pick fl.tsig_keys (getenv (codes "CONTRACTDB_TSIG_KEYS")) fc.tsig_keys_file [];
    doh = pick fl.doh_addr (getenv (codes "CONTRACTDB_DOH")) fc.doh_listen [];
    tls_cert = pick fl.tls_cert (getenv (codes "CONTRACTDB_TLS_CERT")) fc.doh_cert [];
    tls_key = pick fl.tls_key (getenv (codes "CONTRACTDB_TLS_KEY")) fc.doh_key [];
    consistent =
        fl.consistent
        || bytes_eq (env_or getenv (codes "CONTRACTDB_CONSISTENT") []) (codes "1")
        || fc.consistent;
    use_demo =
        fl.demo
        || bytes_eq (env_or getenv (codes "CONTRACTDB_DEMO") []) (codes "1")
        || fc.demo_enabled;
    advertise_ip =
        pick [] (getenv (codes "CONTRACTDB_ADVERTISE_IP")) fc.advertise_ip (codes "127.0.0.1");
    ttl = final_ttl fc.ttl (getenv (codes "CONTRACTDB_TTL")) fl.ttl;
    gsis = gsis;
  }

  abbrev pub is_zone : Bytes → Bool
  is_zone zone = names.is_domain_name zone && not (bytes_eq zone (codes "."))

  -- The checks that follow the map of indexes.
  unfoldable pub with_gsis : Settings → Option (List (Bytes × Bytes)) → Outcome Settings
  with_gsis c none = exits invalid_gsi
  with_gsis c (some gsis) =
      if not c.use_demo && is_empty c.table then exits no_table else done (record c { gsis = gsis })

  -- The checks, in their order.
  unfoldable pub checks : Settings → Option (List (Bytes × Bytes)) → Outcome Settings
  unfolding with_gsis
  checks c gsis =
      if not (is_zone c.zone)
      then exits invalid_zone
      else if not (bytes_eq c.auth_mode (codes "open")) && not (bytes_eq c.auth_mode tsig_required)
      then exits invalid_auth
      else if bytes_eq c.auth_mode tsig_required && is_empty c.tsig
      then exits needs_keys
      else if one_is_empty c.tls_cert c.tls_key
      then exits tls_halves
      else if not (parse_ip c.advertise_ip)
      then exits invalid_ip
      else with_gsis c gsis

  unfoldable pub configure : Flags → FileConfig → Outcome Settings
  unfolding settings checks
  configure fl fc = checks (settings fl fc []) (final_gsis fc.gsis fl.gsi_list)
