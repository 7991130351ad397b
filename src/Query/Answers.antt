-- ===== src/Query/Answers.antt =====
-- What buildResponse answers.
use contractdb.Base.{
  ◌≤◌, ◌<◌, All, length, ℕ, true, false, none, some, List, [], ◌∷◌, Bytes, codes, bytes_eq,
  is_empty, ◌≡◌, ◌⊎◌, inl, inr, refl, arith, Option-cases, concat,
}
use contractdb.Text.{to_lower}
use contractdb.Txt.{chunk_bytes, max_txt_chunk}
use contractdb.Txt.Chunks.{chunk_bytes_lem}
use contractdb.Dns.{Question, Msg, IsDnsLib, new_msg}
use contractdb.Dns.Kind
use contractdb.Dns.Rcode
use contractdb.Item.{Item, Entry, Fields}
use contractdb.Store.{Result, ok, failed, Store}
use contractdb.Names.{parse_key, item_name}
use contractdb.Handler.{Handler, Env, ns1, soa, item_rrs, txt_rr_chunks}
use contractdb.Query.{
  asks, add_ns, apex, service, gsi_of, nx_domain, gsi_answer, gsi_lookup, item_answer, point_lookup,
  key_answer, build_response,
}

Result-cases : {A : Type 0} (r : Result A) → (r ≡ failed) ⊎ ((a : A) × (r ≡ ok a))
Result-cases (ok a) = inr (a, refl)
Result-cases failed = inl refl

at_most :
    (n : ℕ) (cs : List Bytes)
    → All (λ c. (0 < length c) × (length c ≤ n)) cs
    → All (λ c. length c ≤ n) cs
at_most n [] a = a
at_most n (c ∷ cs) ((low, high), rest) = (high, at_most n cs rest)

module _ {S : Type 0} (env : Env) (ops : Store S) (laws : IsDnsLib env.lib) (h : Handler S)
    (req : Msg) (q : Question) where
  -- NXDOMAIN comes with no answer, and with the zone's SOA as the one authority record.
  abbrev pub IsNegative : Msg → Type 0
  IsNegative m = m.rcode ≡ Rcode.name_error → (m.answer ≡ []) × (m.ns ≡ soa h ∷ [])

  -- A reply in which nothing has been decided.
  record IsFresh (m : Msg) : Type 0 where
    rcode : m.rcode ≡ Rcode.success
    answer : m.answer ≡ []
    ns : m.ns ≡ []

  nx_domain-IsNegative : (m : Msg) → IsFresh m → IsNegative (nx_domain env ops h m)
  unfolding nx_domain
  nx_domain-IsNegative m f e = ground arith

  failure-IsNegative : (m : Msg) → IsNegative (env.lib.set_rcode m req Rcode.server_failure)
  failure-IsNegative m e = absurd (omega (arith, laws.rcode_rcode m req Rcode.server_failure))

  gsi_answer-IsNegative :
      (m : Msg) (es : List Entry) → IsFresh m → IsNegative (gsi_answer env ops h m q es)
  unfolding gsi_answer
  gsi_answer-IsNegative m [] f = nx_domain-IsNegative m f
  gsi_answer-IsNegative m (e ∷ es) f = λ c. ground arith

  gsi_lookup-IsNegative :
      (m : Msg) (index value : Bytes)
      → IsFresh m
      → IsNegative (gsi_lookup env ops h m req q index value)
  unfolding gsi_lookup
  gsi_lookup-IsNegative m index value f = elim (Option-cases ops.reader) [
    | inl e ↦ λ c. ground (arith, failure-IsNegative m)
    | inr (reader, e) ↦ elim (Result-cases (reader.query_index h.store index value)) [
      | inl failing ↦ λ c. ground (arith, failure-IsNegative m)
      | inr (es, found) ↦ λ c. ground (arith, gsi_answer-IsNegative m es f)
    ]
  ]

  item_answer-IsNegative :
      (m : Msg) (key : Bytes) (item : Item)
      → IsFresh m
      → IsNegative (item_answer env ops h m req q key item)
  unfolding item_answer
  item_answer-IsNegative m key none f = nx_domain-IsNegative m f
  item_answer-IsNegative m key (some fs) f =
      λ c. ground (arith, laws.rcode_rcode m req Rcode.server_failure)

  point_lookup-IsNegative :
      (m : Msg) (key : Bytes) → IsFresh m → IsNegative (point_lookup env ops h m req q key)
  unfolding point_lookup
  point_lookup-IsNegative m key f = elim (Result-cases (ops.get h.store key)) [
    | inl failing ↦ λ c. ground (arith, failure-IsNegative m)
    | inr (item, found) ↦ λ c. ground (arith, item_answer-IsNegative m key item f)
  ]

  key_answer-IsNegative :
      (m : Msg) (qname : Bytes) → IsFresh m → IsNegative (key_answer env ops h m req q qname)
  unfolding key_answer
  key_answer-IsNegative m qname f = elim (Option-cases (parse_key h.cfg.zone qname)) [
    | inl e ↦ λ c. ground (arith, nx_domain-IsNegative m f)
    | inr (key, e) ↦ elim (Option-cases (gsi_of h.cfg qname)) [
      | inl g ↦ λ c. ground (arith, nx_domain-IsNegative m f, point_lookup-IsNegative m key f)
      | inr ((idx, value), g) ↦
          λ c. ground (arith, nx_domain-IsNegative m f, gsi_lookup-IsNegative m idx value f)
    ]
  ]

  abbrev fresh : Msg
  fresh = record (env.lib.set_reply new_msg req) { authoritative = true }

  fresh-IsFresh : IsFresh fresh
  fresh-IsFresh = record {
    rcode = laws.reply_rcode new_msg req;
    answer = laws.reply_answer new_msg req;
    ns = laws.reply_ns new_msg req;
  }

  -- An NXDOMAIN of buildResponse has an empty answer section, and the SOA record of the zone as the
  -- only record of its authority section.
  pub build_response-negative :
      (build_response env ops h req q).rcode ≡ Rcode.name_error
      → ((build_response env ops h req q).answer ≡ [])
        × ((build_response env ops h req q).ns ≡ soa h ∷ [])
  unfolding build_response apex add_ns
  build_response-negative c =
      ground
        (arith, fresh-IsFresh.rcode, key_answer-IsNegative fresh (to_lower q.name) fresh-IsFresh)

  -- The name of a query is neither the zone nor one of the names that the server keeps for itself,
  -- nor a name below an index.
  pub record IsOrdinary (qname : Bytes) : Type 0 where
    pub apex : bytes_eq qname h.cfg.zone ≡ false
    pub status : bytes_eq qname (service env ops [] h) ≡ false
    pub health : bytes_eq qname (service env ops (codes ".health") h) ≡ false
    pub metrics : bytes_eq qname (service env ops (codes ".metrics") h) ≡ false
    pub server : bytes_eq qname (ns1 h.cfg) ≡ false
    pub gsi : gsi_of h.cfg qname ≡ none

  ordinary_lem :
      IsOrdinary (to_lower q.name)
      → (key : Bytes) → parse_key h.cfg.zone (to_lower q.name) ≡ some key
      → is_empty key ≡ false
      → (fs : Fields) → ops.get h.store key ≡ ok (some fs)
      → build_response env ops h req q ≡ item_answer env ops h fresh req q key (some fs)
  unfolding build_response key_answer point_lookup
  ordinary_lem o key parsed nonempty fs found =
      ground (arith, o.apex, o.status, o.health, o.metrics, o.server, o.gsi)

  -- A TXT or ANY query for an ordinary name of a key with an item is answered NOERROR by one TXT
  -- record at the name of the key, whose strings are at most 255 bytes long and join to the JSON
  -- text of the item.
  pub build_response-item :
      IsOrdinary (to_lower q.name)
      → (key : Bytes) → parse_key h.cfg.zone (to_lower q.name) ≡ some key
      → is_empty key ≡ false
      → (fs : Fields) → ops.get h.store key ≡ ok (some fs)
      → (blob : Bytes) → env.json.marshal (some fs) ≡ some blob
      → asks Kind.txt q ≡ true
      → (chunks : List Bytes) × ((build_response env ops h req q).rcode ≡ Rcode.success)
        × ((build_response env ops h req q).answer
            ≡ txt_rr_chunks h.cfg (item_name h.cfg.zone key) chunks ∷ [])
        × (concat chunks ≡ blob)
        × All (λ c. length c ≤ max_txt_chunk) chunks
  unfolding item_answer item_rrs
  build_response-item o key parsed nonempty fs found blob marshalled wanted =
      let (joined, sized, counted) = chunk_bytes_lem blob max_txt_chunk (omega arith) in
      rw (ordinary_lem o key parsed nonempty fs found, marshalled, wanted)
        (
          chunk_bytes blob max_txt_chunk,
          fresh-IsFresh.rcode,
          refl,
          joined,
          at_most max_txt_chunk (chunk_bytes blob max_txt_chunk) sized,
        )

  -- A query of a type other than TXT and ANY, for an ordinary name of a key with an item, is answered
  -- NOERROR without a record, and with the SOA record of the zone alone in the authority section.
  pub build_response-no_data :
      IsOrdinary (to_lower q.name)
      → (key : Bytes) → parse_key h.cfg.zone (to_lower q.name) ≡ some key
      → is_empty key ≡ false
      → (fs : Fields) → ops.get h.store key ≡ ok (some fs)
      → asks Kind.txt q ≡ false
      → ((build_response env ops h req q).rcode ≡ Rcode.success)
        × ((build_response env ops h req q).answer ≡ [])
        × ((build_response env ops h req q).ns ≡ soa h ∷ [])
  unfolding item_answer
  build_response-no_data o key parsed nonempty fs found other =
      let f = fresh-IsFresh in
      rw (ordinary_lem o key parsed nonempty fs found) (ground (arith, f.rcode, f.answer, f.ns))
