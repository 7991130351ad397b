-- ===== src/Tests/Setup.antt =====
-- A concrete library, codec, store and handler.
use contractdb.Base.{
  ℕ, ◌+◌, ◌*◌, Bool, true, false, Option, none, some, List, [], ◌∷◌, ◌++◌, Bytes, codes, length,
  leb, ◌==◌, refl, arith, if◌then◌else◌,
}
use contractdb.Dns.{Rr, Body, Opt, Msg, DnsLib, IsDnsLib, new_msg}
use contractdb.Item.{Item, Value, Fields, Json}
use contractdb.Store.Sample.{SampleStore}
use contractdb.Journal.{new_mem_change_log}
use contractdb.Handler.{Config, Handler, Env, tcp, ResponseWriter, new_handler}
use contractdb.Serve.Size.{Truncates}

-- The message is signed when its last extra record is a TSIG; no type is named for it elsewhere.
abbrev tsig_kind : ℕ
tsig_kind = 250

abbrev pub has_tsig : List Rr → Bool
has_tsig [] = false
has_tsig (rr ∷ []) = rr.hdr.rrtype == tsig_kind
has_tsig (rr ∷ rr' ∷ rrs) = has_tsig (rr' ∷ rrs)

abbrev pub opt_of : Body → Option Opt
opt_of (Body.opt o) = some o
opt_of _ = none

abbrev pub find_opt : List Rr → Option Opt
find_opt [] = none
find_opt (rr ∷ rrs) = elim (opt_of rr.body) [ none ↦ find_opt rrs | some o ↦ some o ]

abbrev pub tsig_rr : Rr
tsig_rr = record {
  hdr = record { name = codes "key."; rrtype = tsig_kind; class = 255; ttl = 0 };
  body = Body.other [];
}

abbrev pub msg_len : Msg → ℕ
msg_len m = 12 + (length m.answer + length m.ns + length m.extra) * 60

abbrev pub lib : DnsLib
lib = record {
  set_reply =
      λ m req. record m { id = req.id; opcode = req.opcode; rcode = 0; question = req.question };
  set_rcode = λ m req code. record m {
    id = req.id;
    opcode = req.opcode;
    rcode = code;
    question = req.question;
  };
  is_edns0 = λ m. find_opt m.extra;
  is_tsig = λ m. has_tsig m.extra;
  set_tsig = λ req m. record m { extra = m.extra ++ tsig_rr ∷ [] };
  rr_len = λ rr. 60;
  msg_len = msg_len;
  truncate = λ m n. if leb (msg_len m) n then m else record m { answer = []; ns = []; extra = [] };
  handle_failed = λ req. record new_msg { id = req.id; rcode = 1 };
}

pub lib-IsDnsLib : IsDnsLib lib
lib-IsDnsLib = record {
  reply_rcode = λ m req. refl;
  reply_answer = λ m req. refl;
  reply_ns = λ m req. refl;
  reply_extra = λ m req. refl;
  rcode_rcode = λ m req code. refl;
  rcode_answer = λ m req code. refl;
  rcode_ns = λ m req code. refl;
  tsig_rcode = λ req m. refl;
  tsig_answer = λ req m. refl;
}

pub lib-Truncates : Truncates lib
lib-Truncates = record { fits = λ m n h. ground arith }

-- A codec for the items of one text attribute `v`, written as the text in quotes.
abbrev pub quoted : Bytes → Bytes
quoted s = b'"' ∷ s ++ b'"' ∷ []

abbrev pub item : Bytes → Item
item s = some (Fields.field (codes "v") (Value.string s) Fields.end)

abbrev pub marshal : Item → Option Bytes
marshal none = some (codes "null")
marshal (some Fields.end) = some (codes "{}")
marshal (some (Fields.field a (Value.string s) Fields.end)) = some (quoted s)
marshal (some fs) = none

abbrev pub unquote : Bytes → Bytes
unquote [] = []
unquote (c ∷ []) = []
unquote (c ∷ d ∷ s) = c ∷ unquote (d ∷ s)

abbrev pub unmarshal : Bytes → Option Item
unmarshal [] = none
unmarshal (c ∷ s) = if c == b'"' then some (item (unquote s)) else none

abbrev pub json : Json
json = record {
  marshal = marshal;
  valid = λ s. true;
  unmarshal = unmarshal;
  marshal_status = λ table attr. table ++ attr;
  marshal_counters = λ counters. codes "{}";
}

abbrev pub env : Env
env = record { lib = lib; json = json; ip4 = λ s. some s; ip = λ s. s }

abbrev pub config : Config
config = record {
  zone = codes "db.";
  table = codes "demo";
  pk_attr = codes "pk";
  ttl = 60;
  advertise_ip = codes "127.0.0.1";
  serial = 7;
  gsis = [];
}

abbrev pub stored : SampleStore
stored = record {
  items = (codes "a", item (codes "x")) ∷ (codes "b", item (codes "y")) ∷ [];
  gsis = [];
}

abbrev pub handler : Handler SampleStore
handler = record (new_handler stored config) {
  changelog = some (new_mem_change_log 7);
  tsig_provider = true;
  notifiees = codes "10.0.0.2:53" ∷ [];
}

abbrev pub tcp_writer : ResponseWriter
tcp_writer = record { network = tcp; tsig_status_ok = true; write_ok = λ i. true; now = 1000 }
