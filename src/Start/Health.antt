-- ===== src/Start/Health.antt =====
-- cmdHealthcheck of main.go, and the check against the server's health record.
pub mod Agreement
use contractdb.Base.{
  ℕ, Bool, true, false, ◌&&◌, ◌||◌, not, Option, none, some, List, [], ◌∷◌, ◌++◌, Bytes, codes,
  bytes_eq, is_empty, map, concat, if◌then◌else◌,
}
use contractdb.Dns.{NameLib, Msg, Rr, Body, new_msg}
use contractdb.Dns.Kind
use contractdb.Text.{to_lower}
use contractdb.Text.Space.{has_byte}
use contractdb.Auth.{HmacProvider, build_tsig}
use contractdb.Notify.{ClientLib}
use contractdb.Store.Sample.{keys, sort_keys}
use contractdb.Start.{FileConfig, tsig_failed, Outcome, exits, done, first_non_empty}

unfoldable pub health_addr : Bytes → FileConfig → Bytes
health_addr target fc =
    let addr = first_non_empty (target ∷ fc.listen ∷ codes "127.0.0.1:53" ∷ []) in
    if has_byte b':' addr then addr else addr ++ codes ":53"

unfoldable pub health_zone : NameLib → Bytes → FileConfig → Bytes
health_zone names zone_flag fc =
    to_lower
      (names.fqdn (first_non_empty (zone_flag ∷ fc.zone ∷ codes "contractdb.internal." ∷ [])))

abbrev pub health_name : Bytes → Bytes
health_name zone = codes "_contractdb.health." ++ zone

-- `names[0]`: a provider that buildTSIG returns has a key.
abbrev first_name : List Bytes → Bytes
first_name [] = []
first_name (n ∷ ns) = n

abbrev is_up_body : Body → Bool
is_up_body (Body.txt chunks) = bytes_eq (concat chunks) (codes "UP")
is_up_body _ = false

unfoldable pub any_up : List Rr → Bool
any_up [] = false
any_up (rr ∷ rrs) = is_up_body rr.body || any_up rrs

abbrev answered_up : Option Msg → Bool
answered_up none = false
answered_up (some resp) = any_up resp.answer

module _ (names : NameLib) (client : ClientLib) where
  -- The exchange, without and with a provider.
  unfoldable pub probe : Msg → Bytes → Option HmacProvider → Bool
  probe m addr none = answered_up (client.exchange none m addr)
  probe m addr (some p) =
      answered_up
        (client.exchange (some p) (client.set_tsig m (first_name (sort_keys (keys p.keys)))) addr)

  abbrev probed : Msg → Bytes → Option (Option HmacProvider) → Outcome Bool
  probed m addr none = exits tsig_failed
  probed m addr (some provider) = done (probe m addr provider)

  -- Whether the server is healthy, for the flags -target, -zone and -tsig-keys.
  unfoldable pub cmd_healthcheck :
      (Bytes → Bytes) → (Bytes → Option Bytes) → Bytes → Bytes → Bytes → FileConfig → Outcome Bool
  unfolding probe
  cmd_healthcheck getenv read_file target zone_flag tsig_keys fc =
      let m = client.set_question new_msg (health_name (health_zone names zone_flag fc)) Kind.txt in
      let spec =
        first_non_empty
          (tsig_keys ∷ getenv (codes "CONTRACTDB_TSIG_KEYS") ∷ fc.tsig_keys_file ∷ []) in
      probed m (health_addr target fc) (build_tsig names read_file spec)
