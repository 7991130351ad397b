-- ===== src/Query.antt =====
-- buildResponse and gsiLookup of server.go: the answer to a query, before truncation.
pub mod Answers
pub mod Typed
use contractdb.Base.{
  ℕ, ◌-◌, zero, suc, Bool, true, false, ◌&&◌, ◌||◌, not, Option, none, some, List, [], ◌∷◌, ◌++◌,
  Bytes, codes, bytes_eq, is_empty, leb, ◌==◌, length, take, map, if◌then◌else◌,
}
use contractdb.Assoc.{lookup, bytes_key}
use contractdb.Text.{to_lower, has_prefix, has_suffix, split, join, first_label}
use contractdb.Txt.{chunk_bytes, max_txt_chunk}
use contractdb.Dns.{Rr, Body, Question, Msg, DnsLib, new_msg}
use contractdb.Dns.Kind
use contractdb.Dns.Rcode
use contractdb.Item.{Item, Entry, Json}
use contractdb.Store.{Result, ok, failed, Reader, Store}
use contractdb.Names.{dot, k_dash, parse_key}
use contractdb.Handler.{Config, Metrics, Handler, Env, ns1, in_header, txt_rr, item_rrs, soa}

abbrev pub status_name : Bytes
status_name = codes "_contractdb"

abbrev pub version : Bytes
version = codes "0.2.0"

unfoldable pub ns_rr : Config → Rr
ns_rr cfg = record { hdr = in_header cfg cfg.zone Kind.ns; body = Body.ns (ns1 cfg) }

unfoldable pub add_ns : Config → Msg → Msg
unfolding ns_rr
add_ns cfg m = record m { answer = m.answer ++ ns_rr cfg ∷ [] }

-- qtype == TypeTXT || qtype == TypeANY, negated by the callers that answer NODATA
abbrev pub asks : ℕ → Question → Bool
asks rrtype q = q.qtype == rrtype || q.qtype == Kind.any

abbrev pub append_answer : Msg → List Rr → Msg
append_answer m rrs = record m { answer = m.answer ++ rrs }

abbrev pub append_ns : Msg → List Rr → Msg
append_ns m rrs = record m { ns = m.ns ++ rrs }

-- labels[len(labels)-1] and labels[:len(labels)-1]
last_label : List Bytes → Bytes
last_label [] = []
last_label (w ∷ []) = w
last_label (w ∷ v ∷ ws) = last_label (v ∷ ws)

abbrev or_empty : Option Bytes → Bytes
or_empty none = []
or_empty (some s) = s

-- strings.TrimSuffix
abbrev trim_suffix : Bytes → Bytes → Bytes
trim_suffix s t = if has_suffix s t then take (length s - length t) s else s

-- The index and the value of a name below a configured index.
unfoldable pub gsi_of : Config → Bytes → Option (Bytes × Bytes)
unfolding last_label
gsi_of cfg qname =
    let labels = split dot (trim_suffix qname (dot ∷ cfg.zone)) in
    let idx = last_label labels in
    let joined = join dot (take (length labels - 1) labels) in
    if leb 2 (length labels) && not (is_empty (or_empty (lookup idx cfg.gsis)))
    then some (
      idx,
      (if length labels == 2 && has_prefix (first_label labels) k_dash
          then elim (parse_key cfg.zone qname) [ none ↦ joined | some decoded ↦ decoded ]
          else joined),
    )
    else none

-- The map of the counters
unfoldable pub snapshot : Metrics → List (Bytes × ℕ)
snapshot m =
    (codes "queries", m.queries)
    ∷ (codes "nxdomain", m.nxdomain)
    ∷ (codes "truncated_responses", m.truncated)
    ∷ (codes "updates", m.updates)
    ∷ (codes "zone_transfers", m.transfers)
    ∷ (codes "refused", m.refused)
    ∷ []

module _ {S : Type 0} (env : Env) (ops : Store S) where
  unfoldable pub nx_domain : Handler S → Msg → Msg
  nx_domain h m = append_ns (record m { rcode = Rcode.name_error }) (soa h ∷ [])

  abbrev server_failure : Msg → Msg → Msg
  server_failure m req = env.lib.set_rcode m req Rcode.server_failure

  -- The records of the entries, without those that cannot be marshalled.
  unfoldable pub entries_rrs : Config → List Entry → List Rr
  entries_rrs cfg [] = []
  entries_rrs cfg (e ∷ es) =
      let rest = entries_rrs cfg es in
      elim (item_rrs env.json cfg e.key e.item) [ none ↦ rest | some rrs ↦ rrs ++ rest ]

  unfoldable pub gsi_answer : Handler S → Msg → Question → List Entry → Msg
  unfolding nx_domain entries_rrs
  gsi_answer h m q [] = nx_domain h m
  gsi_answer h m q (e ∷ es) =
      if not (asks Kind.txt q)
      then append_ns m (soa h ∷ [])
      else append_answer m (entries_rrs h.cfg (e ∷ es))

  unfoldable pub gsi_lookup : Handler S → Msg → Msg → Question → Bytes → Bytes → Msg
  gsi_lookup h m req q index value = elim ops.reader [
    | none ↦ server_failure m req
    | some reader ↦ elim (reader.query_index h.store index value) [
      | failed ↦ server_failure m req
      | ok entries ↦ gsi_answer h m q entries
    ]
  ]

  -- The cases at the zone itself.
  unfoldable pub apex : Handler S → Msg → Question → Msg
  unfolding add_ns
  apex h m q =
      if q.qtype == Kind.soa
      then append_answer m (soa h ∷ [])
      else if q.qtype == Kind.ns
      then add_ns h.cfg m
      else if q.qtype == Kind.any
      then add_ns h.cfg (append_answer m (soa h ∷ []))
      else append_ns m (soa h ∷ [])

  unfoldable pub counters_blob : Metrics → Bytes
  counters_blob n = env.json.marshal_counters (snapshot n)

  unfoldable pub address_rr : Config → Bytes → Rr
  address_rr cfg name = elim (env.ip4 cfg.advertise_ip) [
    | some v4 ↦ record { hdr = in_header cfg name Kind.a; body = Body.a v4 }
    | none ↦ record {
      hdr = in_header cfg name Kind.aaaa;
      body = Body.aaaa (env.ip cfg.advertise_ip);
    }
  ]

  -- The item of a key, or its absence.
  unfoldable pub item_answer : Handler S → Msg → Msg → Question → Bytes → Item → Msg
  unfolding nx_domain
  item_answer h m req q key none = nx_domain h m
  item_answer h m req q key (some fs) =
      if not (asks Kind.txt q)
      then append_ns m (soa h ∷ [])
      else elim (item_rrs env.json h.cfg key (some fs)) [
        | none ↦ server_failure m req
        | some rrs ↦ record m { answer = rrs }
      ]

  unfoldable pub point_lookup : Handler S → Msg → Msg → Question → Bytes → Msg
  point_lookup h m req q key = elim (ops.get h.store key) [
    | failed ↦ server_failure m req
    | ok item ↦ item_answer h m req q key item
  ]

  -- From the call of parseKey on.
  unfoldable pub key_answer : Handler S → Msg → Msg → Question → Bytes → Msg
  key_answer h m req q qname = elim (parse_key h.cfg.zone qname) [
    | none ↦ nx_domain h m
    | some key ↦ if is_empty key then nx_domain h m else elim (gsi_of h.cfg qname) [
      | some (idx, value) ↦ gsi_lookup h m req q idx value
      | none ↦ point_lookup h m req q key
    ]
  ]

  abbrev pub service : Bytes → Handler S → Bytes
  service label h = status_name ++ label ++ dot ∷ h.cfg.zone

  -- The question `q` is the first of `req`.
  unfoldable pub build_response : Handler S → Msg → Question → Msg
  build_response h req q =
      let m = record (env.lib.set_reply new_msg req) { authoritative = true } in
      let qname = to_lower q.name in
      if bytes_eq qname h.cfg.zone
      then apex h m q
      else if bytes_eq qname (service [] h) && asks Kind.txt q
      then append_answer m
          (txt_rr h.cfg q.name (env.json.marshal_status h.cfg.table h.cfg.pk_attr) ∷ [])
      else if bytes_eq qname (service (codes ".health") h) && asks Kind.txt q
      then append_answer m (txt_rr h.cfg q.name (codes "UP") ∷ [])
      else if bytes_eq qname (service (codes ".metrics") h) && asks Kind.txt q
      then append_answer m
          (map (txt_rr h.cfg q.name) (chunk_bytes (counters_blob h.metrics) max_txt_chunk))
      else if bytes_eq qname (ns1 h.cfg) && asks Kind.a q
      then append_answer m (address_rr h.cfg q.name ∷ [])
      else key_answer h m req q qname
