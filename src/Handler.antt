-- ===== src/Handler.antt =====
-- The handler of server.go: its state, the records that it makes, and the write commit.
use contractdb.Base.{
  ℕ, ◌+◌, Bool, true, false, ◌&&◌, not, Option, none, List, [], ◌∷◌, ◌++◌, Bytes, codes,
  if◌then◌else◌,
}
use mathlib.Core.Option
use contractdb.Txt.{chunk_bytes, max_txt_chunk}
use contractdb.Dns.{Header, Rr, Body, Msg, DnsLib}
use contractdb.Dns.Kind
use contractdb.Dns.Class
use contractdb.Item.{Item, Json}
use contractdb.Journal.{MemChangeLog, log_record, succ32}
use contractdb.Names.{item_name}

pub record Config : Type 0 where
  pub zone : Bytes
  pub table : Bytes
  pub pk_attr : Bytes
  pub ttl : ℕ
  pub advertise_ip : Bytes
  pub serial : ℕ
  pub gsis : List (Bytes × Bytes)

pub record Metrics : Type 0 where
  pub queries : ℕ
  pub nxdomain : ℕ
  pub truncated : ℕ
  pub updates : ℕ
  pub transfers : ℕ
  pub refused : ℕ

-- `tsig_provider` tells whether a provider is set; `signer` is its Sign for the
-- time of the call, `changelog` the one
-- implementation of ChangeLog.
pub record Handler (S : Type 0) : Type 0 where
  pub store : S
  pub cfg : Config
  pub serial : ℕ
  pub metrics : Metrics
  pub signer : Option (ℕ → Msg → Msg → Msg)
  pub changelog : Option MemChangeLog
  pub tsig_provider : Bool
  pub auth_required : Bool
  pub notifiees : List Bytes

-- The libraries that the handler calls. `ip4` is `net.ParseIP` followed by `To4`, `ip` the address
-- as the AAAA record takes it.
pub record Env : Type 0 where
  pub lib : DnsLib
  pub json : Json
  pub ip4 : Bytes → Option Bytes
  pub ip : Bytes → Bytes

pub data Network : Type 0 where
  udp tcp : Network

-- A dns.ResponseWriter: the transport, whether TsigStatus is nil, and whether the i-th write
-- succeeds; and `now`, the Unix time when the reply is signed.
pub record ResponseWriter : Type 0 where
  pub network : Network
  pub tsig_status_ok : Bool
  pub write_ok : ℕ → Bool
  pub now : ℕ

abbrev pub ns1 : Config → Bytes
ns1 cfg = codes "ns1." ++ cfg.zone

-- A header of class IN with the configured TTL.
abbrev pub in_header : Config → Bytes → ℕ → Header
in_header cfg name rrtype = record {
  name = name;
  rrtype = rrtype;
  class = Class.inet;
  ttl = cfg.ttl;
}

unfoldable pub txt_rr_chunks : Config → Bytes → List Bytes → Rr
txt_rr_chunks cfg name chunks = record { hdr = in_header cfg name Kind.txt; body = Body.txt chunks }

unfoldable pub txt_rr : Config → Bytes → Bytes → Rr
unfolding txt_rr_chunks
txt_rr cfg name s = txt_rr_chunks cfg name (s ∷ [])

-- `none` is the marshalling error.
unfoldable pub item_rrs : Json → Config → Bytes → Item → Option (List Rr)
unfolding txt_rr_chunks
item_rrs json cfg key item =
    Option.map
      (λ blob. txt_rr_chunks cfg (item_name cfg.zone key) (chunk_bytes blob max_txt_chunk) ∷ [])
      (json.marshal item)

unfoldable pub soa_with_serial : {S : Type 0} → Handler S → ℕ → Rr
soa_with_serial h serial = record {
  hdr = in_header h.cfg h.cfg.zone Kind.soa;
  body = Body.soa (record {
    ns = ns1 h.cfg;
    mbox = codes "hostmaster." ++ h.cfg.zone;
    serial = serial;
    refresh = 7200;
    retry = 900;
    expire = 1209600;
    minttl = h.cfg.ttl;
  });
}

unfoldable pub soa : {S : Type 0} → Handler S → Rr
unfolding soa_with_serial
soa h = soa_with_serial h h.serial

unfoldable pub tsig_valid : {S : Type 0} → DnsLib → Handler S → ResponseWriter → Msg → Bool
tsig_valid lib h w req = h.tsig_provider && (lib.is_tsig req && w.tsig_status_ok)

unfoldable pub auth_ok : {S : Type 0} → DnsLib → Handler S → ResponseWriter → Msg → Bool
unfolding tsig_valid
auth_ok lib h w req = if not h.auth_required then true else tsig_valid lib h w req

unfoldable pub setup_reply_tsig : {S : Type 0} → DnsLib → Handler S → Msg → Msg → Msg
setup_reply_tsig lib h req resp =
    if not h.tsig_provider
    then resp
    else if lib.is_tsig req && not (lib.is_tsig resp)
    then lib.set_tsig req resp
    else resp

unfoldable pub commit_write : {S : Type 0} → Handler S → List Rr → List Rr → Handler S
commit_write h removed added =
    let s = succ32 h.serial in
    record h { serial = s; changelog = Option.map (λ c. log_record c s removed added) h.changelog }

abbrev pub new_handler : {S : Type 0} → S → Config → Handler S
new_handler store cfg = record {
  store = store;
  cfg = cfg;
  serial = cfg.serial;
  metrics = record {
    queries = 0;
    nxdomain = 0;
    truncated = 0;
    updates = 0;
    transfers = 0;
    refused = 0;
  };
  signer = none;
  changelog = none;
  tsig_provider = false;
  auth_required = false;
  notifiees = [];
}

unfoldable pub count_refused : {S : Type 0} → Handler S → Handler S
count_refused h = record h { metrics = record h.metrics { refused = h.metrics.refused + 1 } }
