-- ===== src/Dnssec.antt =====
-- dnssec.go: online signing of responses.
pub mod Keys
pub mod Restart
pub mod Groups
pub mod Sections
pub mod Sign
use contractdb.Base.{
  ℕ, ◌+◌, ◌-◌, ◌%◌, ◌<◌, Bool, true, false, ◌&&◌, ◌||◌, not, Option, none, some, List, [], ◌∷◌,
  ◌++◌, Bytes, codes, bytes_eq, ltb, leb, ◌==◌, is_empty, length, take, ◌≡◌, ◌≢◌, if◌then◌else◌,
}
use contractdb.Dns.{Header, Soa, Nsec, Rrsig, Rr, Body, Opt, Question, Msg, DnsLib}
use contractdb.Dns.Kind
use contractdb.Dns.Class
use contractdb.Dns.Rcode
use contractdb.Text.{to_lower, has_suffix}
use contractdb.Journal.{u32_mod}

abbrev pub default_ttl : ℕ
default_ttl = 300

-- An hour and a week, in seconds.
abbrev pub inception_skew : ℕ
inception_skew = 3600

abbrev pub signature_life : ℕ
signature_life = 604800

-- ECDSAP256SHA256
abbrev pub algorithm : ℕ
algorithm = 13

-- The signer: its zone, its DNSKEY record, the tag of that key, and `sig.Sign` with the private key,
-- which completes an RRSIG over an RRset or fails. The random bits that each call of `sig.Sign` draws
-- and the octets of the signature are not modelled: `sign_rrset` is one function of the fields and the RRset.
pub record OnlineSigner : Type 0 where
  pub zone : Bytes
  pub key : Rr
  pub key_tag : ℕ
  pub sign_rrset : Rrsig → List Rr → Option Rr

-- The key is a DNSKEY record, and a signature is a record of type RRSIG.
pub record IsSigner (s : OnlineSigner) : Type 0 where
  pub key_kind : s.key.hdr.rrtype ≡ Kind.dnskey
  pub kind :
      (sig : Rrsig) (rrs : List Rr) (rr : Rr)
      → s.sign_rrset sig rrs ≡ some rr
      → rr.hdr.rrtype ≡ Kind.rrsig

-- The TTL of an SOA record; `none` for another record
abbrev soa_ttl : Header → Body → Option ℕ
soa_ttl hdr (Body.soa soa) = some (if ltb 0 soa.minttl then soa.minttl else hdr.ttl)
soa_ttl hdr _ = none

unfoldable pub ns_ttl : List Rr → ℕ
ns_ttl [] = default_ttl
ns_ttl (rr ∷ rrs) = elim (soa_ttl rr.hdr rr.body) [ none ↦ ns_ttl rrs | some ttl ↦ ttl ]

unfoldable pub response_ttl : Msg → ℕ
unfolding ns_ttl
response_ttl resp = ns_ttl resp.ns

-- The name and the type that an RRset shares.
abbrev pub RrsetKey : Type 0
RrsetKey = Bytes × ℕ

abbrev pub rrset_key : Rr → RrsetKey
rrset_key rr = (to_lower rr.hdr.name, rr.hdr.rrtype)

abbrev pub same_key : RrsetKey → RrsetKey → Bool
same_key (n, t) (n', t') = bytes_eq n n' && t == t'

-- Types that are not signed.
abbrev pub is_housekeeping : ℕ → Bool
is_housekeeping t = t == Kind.opt || t == Kind.tsig || t == Kind.rrsig

-- `order` and `groups`: the groups in the order of their first records.
unfoldable pub add_to_group : RrsetKey → Rr → List (RrsetKey × List Rr) → List (RrsetKey × List Rr)
add_to_group k rr [] = (k, rr ∷ []) ∷ []
add_to_group k rr ((j, rrs) ∷ gs) =
    let rest = add_to_group k rr gs in
    if same_key j k then (j, rrs ++ rr ∷ []) ∷ gs else (j, rrs) ∷ rest

unfoldable pub group_loop : List Rr → List (RrsetKey × List Rr) → List (RrsetKey × List Rr)
unfolding add_to_group
group_loop [] gs = gs
group_loop (rr ∷ rrs) gs =
    group_loop rrs (if is_housekeeping rr.hdr.rrtype then gs else add_to_group (rrset_key rr) rr gs)

-- The TTL of the first record of a group
abbrev first_ttl : List Rr → ℕ
first_ttl [] = 0
first_ttl (rr ∷ rrs) = rr.hdr.ttl

abbrev pub orig_ttl_of : ℕ → List Rr → ℕ
orig_ttl_of ttl rrset = if first_ttl rrset == 0 then ttl else first_ttl rrset

abbrev pub has_rrsig : List Rr → Bool
has_rrsig [] = false
has_rrsig (rr ∷ rrs) = rr.hdr.rrtype == Kind.rrsig || has_rrsig rrs

abbrev pub wants_dnssec : Option Opt → Bool
wants_dnssec none = false
wants_dnssec (some opt) = opt.do_bit

module _ (s : OnlineSigner) where
  -- The RRSIG of a group. `now` is the Unix time.
  unfoldable pub signature_fields : ℕ → ℕ → ℕ → List Rr → Rrsig
  signature_fields now ttl kind rrset = record {
    type_covered = kind;
    algorithm = algorithm;
    key_tag = s.key_tag;
    signer_name = s.zone;
    inception = (now + u32_mod - inception_skew) % u32_mod;
    expiration = (now + signature_life) % u32_mod;
    orig_ttl = orig_ttl_of ttl rrset;
  }

  -- `sig.Sign`, and the TTL of the header
  unfoldable pub sign_group : ℕ → ℕ → RrsetKey × List Rr → List Rr
  unfolding signature_fields
  sign_group now ttl ((name, kind), rrset) =
      elim (s.sign_rrset (signature_fields now ttl kind rrset) rrset) [
        | none ↦ []
        | some rr ↦ record rr { hdr = record rr.hdr { ttl = orig_ttl_of ttl rrset } } ∷ []
      ]

  unfoldable pub sign_groups : ℕ → ℕ → List (RrsetKey × List Rr) → List Rr
  sign_groups now ttl [] = []
  sign_groups now ttl (g ∷ gs) = sign_group now ttl g ++ sign_groups now ttl gs

  unfoldable pub sign_section : ℕ → ℕ → List Rr → List Rr
  sign_section now ttl rrs = rrs ++ sign_groups now ttl (group_loop rrs [])

  unfoldable pub apex_nsec : ℕ → Rr
  apex_nsec ttl = record {
    hdr = record { name = s.zone; rrtype = Kind.nsec; class = Class.inet; ttl = ttl };
    body = Body.nsec (record {
      next_domain = s.zone;
      type_bit_map = Kind.ns ∷ Kind.soa ∷ Kind.txt ∷ Kind.rrsig ∷ Kind.nsec ∷ Kind.dnskey ∷ [];
    });
  }

  unfoldable pub nodata_nsec : Bytes → ℕ → Rr
  nodata_nsec qname ttl = record {
    hdr = record { name = qname; rrtype = Kind.nsec; class = Class.inet; ttl = ttl };
    body =
        Body.nsec
          (record { next_domain = s.zone; type_bit_map = Kind.txt ∷ Kind.rrsig ∷ Kind.nsec ∷ [] });
  }

  -- The denial that a response gets, in its authority section.
  unfoldable pub denial : Msg → Msg → ℕ → List Rr
  unfolding apex_nsec nodata_nsec
  denial req resp ttl =
      if resp.rcode == Rcode.name_error
      then apex_nsec ttl ∷ []
      else if resp.rcode == Rcode.success && is_empty resp.answer
      then elim req.question [ [] ↦ [] | q ∷ qs ↦ nodata_nsec q.name ttl ∷ [] ]
      else []

  -- The key, for a question at the zone.
  unfoldable pub apex_key : Msg → ℕ → List Rr
  apex_key req ttl = elim req.question [
    | [] ↦ []
    | q ∷ qs ↦
        if bytes_eq (to_lower q.name) s.zone
        then record s.key { hdr = record s.key.hdr { ttl = ttl } } ∷ []
        else []
  ]

  -- The records of the response before and behind the signing.
  unfoldable pub add_signatures : ℕ → Msg → Msg → Msg
  add_signatures now req resp =
      let ttl = response_ttl resp in
      record resp {
        answer = sign_section now ttl (resp.answer ++ apex_key req ttl);
        ns = sign_section now ttl (resp.ns ++ denial req resp ttl);
      }

  unfoldable pub sign : DnsLib → ℕ → Msg → Msg → Msg
  sign lib now req resp =
      if not (wants_dnssec (lib.is_edns0 req))
      then resp
      else if has_rrsig (resp.answer ++ resp.ns)
      then resp
      else add_signatures now req resp
