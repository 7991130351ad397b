-- ===== src/Dns.antt =====
-- The part of github.com/miekg/dns that the program sees: resource records and messages as data,
-- its constants, and its functions as a record of parameters.
pub mod Kind
pub mod Class
pub mod Rcode
pub mod Opcode
use contractdb.Base.{ℕ, Bool, true, false, Option, none, some, List, [], ◌∷◌, Bytes, ◌≡◌, ◌≤◌, ◌+◌}

pub record Header : Type 0 where
  pub name : Bytes
  pub rrtype : ℕ
  pub class : ℕ
  pub ttl : ℕ

pub record Soa : Type 0 where
  pub ns : Bytes
  pub mbox : Bytes
  pub serial : ℕ
  pub refresh : ℕ
  pub retry : ℕ
  pub expire : ℕ
  pub minttl : ℕ

-- An EDNS0 pseudo-record: the UDP payload size and the DO bit.
pub record Opt : Type 0 where
  pub udp_size : ℕ
  pub do_bit : Bool

pub record Nsec : Type 0 where
  pub next_domain : Bytes
  pub type_bit_map : List ℕ

-- An RRSIG without its signature and what the library copies from the RRset.
pub record Rrsig : Type 0 where
  pub type_covered : ℕ
  pub algorithm : ℕ
  pub key_tag : ℕ
  pub signer_name : Bytes
  pub inception : ℕ
  pub expiration : ℕ
  pub orig_ttl : ℕ

-- The dynamic type of an RR with its data. It need not agree with the type in the header: an RR of
-- class ANY carries no data.
pub data Body : Type 0 where
  soa : Soa → Body
  ns : Bytes → Body
  txt : List Bytes → Body
  a : Bytes → Body
  aaaa : Bytes → Body
  opt : Opt → Body
  nsec : Nsec → Body
  dnskey : Bytes → Body
  rrsig : Rrsig → Body
  other : Bytes → Body

pub record Rr : Type 0 where
  pub hdr : Header
  pub body : Body

pub record Question : Type 0 where
  pub name : Bytes
  pub qtype : ℕ
  pub qclass : ℕ

pub record Msg : Type 0 where
  pub id : ℕ
  pub opcode : ℕ
  pub rcode : ℕ
  pub authoritative : Bool
  pub question : List Question
  pub answer : List Rr
  pub ns : List Rr
  pub extra : List Rr

-- The zero value, `new(dns.Msg)`.
abbrev pub new_msg : Msg
new_msg = record {
  id = 0;
  opcode = 0;
  rcode = 0;
  authoritative = false;
  question = [];
  answer = [];
  ns = [];
  extra = [];
}

-- What the program calls of the library. `set_reply m req` and `set_rcode m req rcode` are `m`
-- after the methods of that name; `is_edns0` and `is_tsig` look for the pseudo-records of a
-- message; `set_tsig req m` arms `m` for signing with the key of `req`, at the current time;
-- `rr_len` and `msg_len` are wire sizes; `handle_failed req` is the reply of `HandleFailed`.
pub record DnsLib : Type 0 where
  pub set_reply : Msg → Msg → Msg
  pub set_rcode : Msg → Msg → ℕ → Msg
  pub is_edns0 : Msg → Option Opt
  pub is_tsig : Msg → Bool
  pub set_tsig : Msg → Msg → Msg
  pub rr_len : Rr → ℕ
  pub msg_len : Msg → ℕ
  pub truncate : Msg → ℕ → Msg
  pub handle_failed : Msg → Msg

-- The documented behaviour that theorems rest on: a reply starts from the code NOERROR, SetRcode
-- sets the code, and neither touches the sections behind the question.
pub record IsDnsLib (lib : DnsLib) : Type 0 where
  pub reply_rcode : (m req : Msg) → (lib.set_reply m req).rcode ≡ 0
  pub reply_answer : (m req : Msg) → (lib.set_reply m req).answer ≡ m.answer
  pub reply_ns : (m req : Msg) → (lib.set_reply m req).ns ≡ m.ns
  pub reply_extra : (m req : Msg) → (lib.set_reply m req).extra ≡ m.extra
  pub rcode_rcode : (m req : Msg) (code : ℕ) → (lib.set_rcode m req code).rcode ≡ code
  pub rcode_answer : (m req : Msg) (code : ℕ) → (lib.set_rcode m req code).answer ≡ m.answer
  pub rcode_ns : (m req : Msg) (code : ℕ) → (lib.set_rcode m req code).ns ≡ m.ns
  pub tsig_rcode : (req m : Msg) → (lib.set_tsig req m).rcode ≡ m.rcode
  pub tsig_answer : (req m : Msg) → (lib.set_tsig req m).answer ≡ m.answer

-- CanonicalName, Fqdn and IsDomainName.
pub record NameLib : Type 0 where
  pub canonical_name : Bytes → Bytes
  pub fqdn : Bytes → Bytes
  pub is_domain_name : Bytes → Bool

-- Unpack and Pack of a message; `none` is an error.
pub record WireLib : Type 0 where
  pub unpack : Bytes → Option Msg
  pub pack : Msg → Option Bytes
