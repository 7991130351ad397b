-- ===== src/Query/Typed.antt =====
-- The types of the records that buildResponse answers.
use mathlib.Core.Option
use mathlib.Core.Option.{some-injective}
use contractdb.Base.{
  ℕ, true, false, Bool, ◌&&◌, ◌==◌, All, All-append, Option, none, some, List, [], ◌∷◌, Bytes,
  codes, bytes_eq, is_empty, map, ◌≡◌, inl, inr, refl, subst, arith, Bool-cases, Option-cases,
  if◌then◌else◌,
}
use contractdb.Text.{to_lower}
use contractdb.Txt.{chunk_bytes, max_txt_chunk}
use contractdb.Dns.{Rr, Body, Question, Msg, IsDnsLib, new_msg}
use contractdb.Dns.Kind
use contractdb.Dns.Class
use contractdb.Dns.Rcode
use contractdb.Item.{Item, Entry}
use contractdb.Store.{Store}
use contractdb.Names.{parse_key, item_name}
use contractdb.Handler.{
  Config, Handler, Env, ns1, soa, soa_with_serial, txt_rr, txt_rr_chunks, item_rrs,
}
use contractdb.Query.{
  asks, ns_rr, add_ns, append_answer, append_ns, apex, service, gsi_of, nx_domain, entries_rrs,
  gsi_answer, gsi_lookup, item_answer, point_lookup, key_answer, counters_blob, address_rr,
  build_response,
}
use contractdb.Update.Atomic.{Result-cases}

-- The type of the data of a record, where it has one of the types that answer a query
abbrev pub body_type : Body → Option ℕ
body_type (Body.soa _) = some Kind.soa
body_type (Body.ns _) = some Kind.ns
body_type (Body.txt _) = some Kind.txt
body_type (Body.a _) = some Kind.a
body_type (Body.aaaa _) = some Kind.aaaa
body_type _ = none

-- The header has the type of the data, the class IN and the TTL of the zone.
pub record IsTyped (cfg : Config) (rr : Rr) : Type 0 where
  pub of_body : body_type rr.body ≡ some rr.hdr.rrtype
  pub class : rr.hdr.class ≡ Class.inet
  pub ttl : rr.hdr.ttl ≡ cfg.ttl

-- Such a record of the type that a query asks for
pub record Answers (cfg : Config) (q : Question) (rr : Rr) : Type 0 where
  pub typed : IsTyped cfg rr
  pub asked : asks rr.hdr.rrtype q ≡ true

module _ {S : Type 0} (env : Env) (ops : Store S) (laws : IsDnsLib env.lib) (h : Handler S)
    (req : Msg) (q : Question) where
  -- Both sections of a message
  abbrev IsWell : Msg → Type 0
  IsWell m = All (Answers h.cfg q) m.answer × All (IsTyped h.cfg) m.ns

  soa-IsTyped : IsTyped h.cfg (soa h)
  unfolding soa soa_with_serial
  soa-IsTyped = record { of_body = refl; class = refl; ttl = refl }

  ns-IsTyped : IsTyped h.cfg (ns_rr h.cfg)
  unfolding ns_rr
  ns-IsTyped = record { of_body = refl; class = refl; ttl = refl }

  txt-IsTyped :
      (name : Bytes) (chunks : List Bytes) → IsTyped h.cfg (txt_rr_chunks h.cfg name chunks)
  unfolding txt_rr_chunks
  txt-IsTyped name chunks = record { of_body = refl; class = refl; ttl = refl }

  txt-Answers :
      (name : Bytes) (chunks : List Bytes)
      → asks Kind.txt q ≡ true
      → Answers h.cfg q (txt_rr_chunks h.cfg name chunks)
  unfolding txt_rr_chunks
  txt-Answers name chunks asked = record { typed = txt-IsTyped name chunks; asked = asked }

  soa-Answers : asks Kind.soa q ≡ true → Answers h.cfg q (soa h)
  unfolding soa soa_with_serial
  soa-Answers asked = record { typed = soa-IsTyped; asked = asked }

  ns-Answers : asks Kind.ns q ≡ true → Answers h.cfg q (ns_rr h.cfg)
  unfolding ns_rr
  ns-Answers asked = record { typed = ns-IsTyped; asked = asked }

  append_answer-IsWell :
      (m : Msg) (rrs : List Rr)
      → IsWell m
      → All (Answers h.cfg q) rrs
      → IsWell (append_answer m rrs)
  append_answer-IsWell m rrs (answer, ns) more =
      (All-append (Answers h.cfg q) m.answer rrs answer more, ns)

  append_soa-IsWell : (m : Msg) → IsWell m → IsWell (append_ns m (soa h ∷ []))
  append_soa-IsWell m (answer, ns) =
      (answer, All-append (IsTyped h.cfg) m.ns (soa h ∷ []) ns (soa-IsTyped, tt))

  nx_domain-IsWell : (m : Msg) → IsWell m → IsWell (nx_domain env ops h m)
  unfolding nx_domain
  nx_domain-IsWell m w = append_soa-IsWell m w

  failure-IsWell : (m : Msg) → IsWell m → IsWell (env.lib.set_rcode m req Rcode.server_failure)
  failure-IsWell m w =
      rw (laws.rcode_answer m req Rcode.server_failure, laws.rcode_ns m req Rcode.server_failure) w

  marshalled-Answers :
      (name : Bytes) (blob : Option Bytes) (rrs : List Rr)
      → asks Kind.txt q ≡ true
      → Option.map (λ b. txt_rr_chunks h.cfg name (chunk_bytes b max_txt_chunk) ∷ []) blob
        ≡ some rrs
      → All (Answers h.cfg q) rrs
  marshalled-Answers name none rrs asked e = absurd (cc)
  marshalled-Answers name (some b) rrs asked e =
      subst (All (Answers h.cfg q)) (some-injective _ _ e)
        (txt-Answers name (chunk_bytes b max_txt_chunk) asked, tt)

  item_rrs-Answers :
      (key : Bytes) (item : Item) (rrs : List Rr)
      → asks Kind.txt q ≡ true
      → item_rrs env.json h.cfg key item ≡ some rrs
      → All (Answers h.cfg q) rrs
  unfolding item_rrs
  item_rrs-Answers key item rrs asked e =
      marshalled-Answers (item_name h.cfg.zone key) (env.json.marshal item) rrs asked e

  entries_rrs-Answers :
      (es : List Entry)
      → asks Kind.txt q ≡ true
      → All (Answers h.cfg q) (entries_rrs env ops h.cfg es)
  unfolding entries_rrs
  entries_rrs-Answers [] asked = tt
  entries_rrs-Answers (e ∷ es) asked = elim (Option-cases (item_rrs env.json h.cfg e.key e.item)) [
    | inl f ↦ rw (f, All) (entries_rrs-Answers es asked)
    | inr (rrs, f) ↦
        rw (f, All)
          (All-append (Answers h.cfg q) rrs (entries_rrs env ops h.cfg es)
            (item_rrs-Answers e.key e.item rrs asked f) (entries_rrs-Answers es asked))
  ]

  gsi_answer-IsWell : (m : Msg) (es : List Entry) → IsWell m → IsWell (gsi_answer env ops h m q es)
  unfolding gsi_answer
  gsi_answer-IsWell m [] w = nx_domain-IsWell m w
  gsi_answer-IsWell m (e ∷ es) w = elim (Bool-cases (asks Kind.txt q)) [
    | inl asked ↦ rw asked (
        append_answer-IsWell m (entries_rrs env ops h.cfg (e ∷ es)) w
          (entries_rrs-Answers (e ∷ es) asked))
    | inr other ↦ rw other (append_soa-IsWell m w)
  ]

  gsi_lookup-IsWell :
      (m : Msg) (index value : Bytes) → IsWell m → IsWell (gsi_lookup env ops h m req q index value)
  unfolding gsi_lookup
  gsi_lookup-IsWell m index value w = elim (Option-cases ops.reader) [
    | inl e ↦ rw (e, gsi_lookup) (failure-IsWell m w)
    | inr (reader, e) ↦ elim (Result-cases (reader.query_index h.store index value)) [
      | inl failing ↦ rw (e, gsi_lookup) (rw failing (failure-IsWell m w))
      | inr (es, found) ↦ rw (e, gsi_lookup) (rw found (gsi_answer-IsWell m es w))
    ]
  ]

  item_answer-IsWell :
      (m : Msg) (key : Bytes) (item : Item)
      → m.answer ≡ []
      → IsWell m
      → IsWell (item_answer env ops h m req q key item)
  unfolding item_answer
  item_answer-IsWell m key none fresh w = nx_domain-IsWell m w
  item_answer-IsWell m key (some fs) fresh w = elim (Bool-cases (asks Kind.txt q)) [
    | inr other ↦ rw other (append_soa-IsWell m w)
    | inl asked ↦ elim (Option-cases (item_rrs env.json h.cfg key (some fs))) [
      | inl f ↦ rw (asked, f) (failure-IsWell m w)
      | inr (rrs, f) ↦ rw (asked, f) (item_rrs-Answers key (some fs) rrs asked f, w.1)
    ]
  ]

  point_lookup-IsWell :
      (m : Msg) (key : Bytes)
      → m.answer ≡ []
      → IsWell m
      → IsWell (point_lookup env ops h m req q key)
  unfolding point_lookup
  point_lookup-IsWell m key fresh w = elim (Result-cases (ops.get h.store key)) [
    | inl e ↦ rw (e, point_lookup) (failure-IsWell m w)
    | inr (item, e) ↦ rw (e, point_lookup) (item_answer-IsWell m key item fresh w)
  ]

  key_answer-IsWell :
      (m : Msg) (qname : Bytes)
      → m.answer ≡ []
      → IsWell m
      → IsWell (key_answer env ops h m req q qname)
  unfolding key_answer
  key_answer-IsWell m qname fresh w = elim (Option-cases (parse_key h.cfg.zone qname)) [
    | inl e ↦ rw (e, key_answer) (nx_domain-IsWell m w)
    | inr (key, e) ↦ elim (Bool-cases (is_empty key)) [
      | inl f ↦ rw (e, key_answer) (rw f (nx_domain-IsWell m w))
      | inr f ↦ elim (Option-cases (gsi_of h.cfg qname)) [
        | inl g ↦ rw (e, key_answer) (rw (f, g) (point_lookup-IsWell m key fresh w))
        | inr ((idx, value), g) ↦ rw (e, key_answer) (rw (f, g) (gsi_lookup-IsWell m idx value w))
      ]
    ]
  ]

  counters-Answers :
      (blobs : List Bytes)
      → asks Kind.txt q ≡ true
      → All (Answers h.cfg q) (map (txt_rr h.cfg q.name) blobs)
  unfolding txt_rr
  counters-Answers [] asked = tt
  counters-Answers (b ∷ blobs) asked =
      (txt-Answers q.name (b ∷ []) asked, counters-Answers blobs asked)

  apex-IsWell : (m : Msg) → m.answer ≡ [] → IsWell m → IsWell (apex env ops h m q)
  unfolding apex add_ns
  apex-IsWell m fresh w = elim (Bool-cases (q.qtype == Kind.soa)) [
    | inl e ↦
        rw (e, apex) (append_answer-IsWell m (soa h ∷ []) w (soa-Answers (ground (arith, e)), tt))
    | inr e ↦ elim (Bool-cases (q.qtype == Kind.ns)) [
      | inl f ↦
          rw (e, apex)
            (rw f
              (append_answer-IsWell m (ns_rr h.cfg ∷ []) w (ns-Answers (ground (arith, f)), tt)))
      | inr f ↦ elim (Bool-cases (q.qtype == Kind.any)) [
        | inl g ↦
            rw (e, apex)
              (rw (f, g)
                (append_answer-IsWell (append_answer m (soa h ∷ [])) (ns_rr h.cfg ∷ [])
                  (append_answer-IsWell m (soa h ∷ []) w (soa-Answers (ground (arith, g)), tt))
                  (ns-Answers (ground (arith, g)), tt)))
        | inr g ↦ rw (e, apex) (rw (f, g) (append_soa-IsWell m w))
      ]
    ]
  ]

  IsWell-if :
      (b : Bool) (x y : Msg)
      → (b ≡ true → IsWell x)
      → (b ≡ false → IsWell y)
      → IsWell (if b then x else y)
  IsWell-if true x y f g = f refl
  IsWell-if false x y f g = g refl

  fresh_reply : Msg
  fresh_reply = record (env.lib.set_reply new_msg req) { authoritative = true }

  address-Answers :
      (v4 : Bytes)
      → env.ip4 h.cfg.advertise_ip ≡ some v4
      → asks Kind.a q ≡ true
      → Answers h.cfg q (address_rr env ops h.cfg q.name)
  unfolding address_rr
  address-Answers v4 e asked =
      rw (e, address_rr)
        (record { typed = record { of_body = refl; class = refl; ttl = refl }; asked = asked })

  -- With an IPv4 address to advertise, every record in the answer of buildResponse has the type of its data
  -- in its header, the class IN and the TTL of the zone, and is of the type that the query asks for, which
  -- is any type for ANY; so are the records of the authority section, but for the type that is asked for.
  pub build_response-Answers :
      (v4 : Bytes)
      → env.ip4 h.cfg.advertise_ip ≡ some v4
      → All (Answers h.cfg q) (build_response env ops h req q).answer
        × All (IsTyped h.cfg) (build_response env ops h req q).ns
  unfolding build_response fresh_reply
  build_response-Answers v4 ip =
      let empty : fresh_reply.answer ≡ [] = laws.reply_answer new_msg req in
      let well : IsWell fresh_reply =
        (rw (laws.reply_answer new_msg req) tt, rw (laws.reply_ns new_msg req) tt) in
      let qname = to_lower q.name in
      IsWell-if (bytes_eq qname h.cfg.zone) _ _ (λ a. apex-IsWell fresh_reply empty well)
        (λ a.
          IsWell-if (bytes_eq qname (service env ops [] h) && asks Kind.txt q) _ _
            (λ b.
              append_answer-IsWell fresh_reply
                (txt_rr h.cfg q.name (env.json.marshal_status h.cfg.table h.cfg.pk_attr) ∷ []) well
                (counters-Answers (env.json.marshal_status h.cfg.table h.cfg.pk_attr ∷ [])
                  (ground (arith, b))))
            (λ b.
              IsWell-if (bytes_eq qname (service env ops (codes ".health") h) && asks Kind.txt q) _
                _
                (λ c.
                  append_answer-IsWell fresh_reply (txt_rr h.cfg q.name (codes "UP") ∷ []) well
                    (counters-Answers (codes "UP" ∷ []) (ground (arith, c))))
                (λ c.
                  IsWell-if
                    (bytes_eq qname (service env ops (codes ".metrics") h) && asks Kind.txt q) _ _
                    (λ d.
                      append_answer-IsWell fresh_reply
                        (map (txt_rr h.cfg q.name)
                          (chunk_bytes (counters_blob env ops h.metrics) max_txt_chunk))
                        well
                        (counters-Answers
                          (chunk_bytes (counters_blob env ops h.metrics) max_txt_chunk)
                          (ground (arith, d))))
                    (λ d.
                      IsWell-if (bytes_eq qname (ns1 h.cfg) && asks Kind.a q) _ _
                        (λ e.
                          append_answer-IsWell fresh_reply (address_rr env ops h.cfg q.name ∷ [])
                            well (address-Answers v4 ip (ground (arith, e)), tt))
                        (λ e. key_answer-IsWell fresh_reply qname empty well)))))
