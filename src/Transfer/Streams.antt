-- ===== src/Transfer/Streams.antt =====
-- What the receiver of a transfer gets, over TCP with no failing write.
use contractdb.Base.{
  ℕ, ◌+◌, ◌-◌, ◌≤◌, ◌<◌, true, false, some, List, [], ◌∷◌, ◌++◌, length, drop, concat, ◌≡◌, inl,
  inr, refl, ap, sym, subst, ◌∙◌, arith, append_assoc, append-nil, Bool-cases,
}
use contractdb.Text.{equal_fold}
use contractdb.Dns.{Rr, Msg, Soa, Question, new_msg, IsDnsLib}
use contractdb.Store.{Store, Reader}
use contractdb.Journal.{pred32, Delta, MemChangeLog, mem_change_log_cap}
use contractdb.Journal.Window.{Journals, log_deltas-Journals}
use contractdb.Handler.{Handler, Env, tcp, ResponseWriter, soa, soa_with_serial, setup_reply_tsig}
use contractdb.Transfer.{
  is_tcp, Batch, empty_batch, is_full, batch_rrs, Stream, transfer_msg, send, send_all, difference,
  send_deltas, buffer_rr, buffer_rrs, pages_rrs, send_items, cap_bytes, framed, stream_zone,
  count_transfer, handle_axfr, handle_ixfr, client_soa, deltas_since,
}
use contractdb.Transfer.Batches.{batch_rrs_lem}

-- The records of a sequence of messages.
abbrev pub answers : List Msg → List Rr
answers [] = []
answers (m ∷ ms) = m.answer ++ answers ms

answers-append : (ms ns : List Msg) → answers (ms ++ ns) ≡ answers ms ++ answers ns
answers-append [] ns = refl
answers-append (m ∷ ms) ns = simp (answers-append ms ns, append_assoc)

-- A TCP connection on which every write succeeds.
pub record IsSound (w : ResponseWriter) : Type 0 where
  pub network : w.network ≡ tcp
  pub writes : (i : ℕ) → w.write_ok i ≡ true

module _ {S : Type 0} (env : Env) (ops : Store S) (laws : IsDnsLib env.lib) (h : Handler S)
    (w : ResponseWriter) (req : Msg) (sound : IsSound w) where
  answer-transfer_msg : (rrs : List Rr) → (transfer_msg env ops h req rrs).answer ≡ rrs
  unfolding transfer_msg setup_reply_tsig
  answer-transfer_msg rrs = ground (
    arith,
    laws.tsig_answer req
        (record (env.lib.set_reply new_msg req) { authoritative = true; answer = rrs }),
  )

  -- A stream that has carried the records `rrs` and goes on.
  record Carried (rrs : List Rr) (s : Stream) : Type 0 where
    carries : answers s.sent ≡ rrs
    alive : s.alive ≡ true

  send-Carried :
      (rrs more : List Rr) (s : Stream)
      → Carried rrs s
      → Carried (rrs ++ more) (send env ops h w req more s)
  unfolding send
  send-Carried rrs [] s c = record {
    carries = ground (arith, append-nil rrs, c.carries, c.alive);
    alive = ground (arith, c.alive);
  }
  send-Carried rrs (x ∷ more) s c =
      let m = transfer_msg env ops h req (x ∷ more) in
      record {
        carries = ground (
          arith,
          answers-append s.sent (m ∷ []),
          answer-transfer_msg (x ∷ more),
          append-nil (x ∷ more),
          c.carries,
          c.alive,
        );
        alive = ground (arith, c.alive, sound.writes (length s.sent));
      }

  send_all-Carried :
      (batches : List (List Rr)) (rrs : List Rr) (s : Stream)
      → Carried rrs s
      → Carried (rrs ++ concat batches) (send_all env ops h w req batches s)
  unfolding send_all
  send_all-Carried [] rrs s c = subst (λ l. Carried l s) (sym (append-nil rrs)) c
  send_all-Carried (b ∷ bs) rrs s c =
      let next = send env ops h w req b s in
      subst (λ l. Carried l (send_all env ops h w req bs next)) (append_assoc rrs b (concat bs))
        (send_all-Carried bs (rrs ++ b) next (send-Carried rrs b s c))

  -- The difference sequences of deltas (RFC 1995, section 4): the SOA in front of the write, the
  -- records that it removed, the SOA behind it, the records that it added.
  unfoldable pub differences : List Delta → List Rr
  differences [] = []
  differences (d ∷ ds) =
      soa_with_serial h (pred32 d.serial) ∷ (d.removed ++ soa_with_serial h d.serial ∷ d.added)
      ++ differences ds

  send_deltas-Carried :
      (cap : ℕ) (ds : List Delta) (rrs : List Rr) (s : Stream)
      → Carried rrs s
      → Carried (rrs ++ differences ds) (send_deltas env ops h w req cap ds s)
  unfolding send_deltas differences difference
  send_deltas-Carried cap [] rrs s c = subst (λ l. Carried l s) (sym (append-nil rrs)) c
  send_deltas-Carried cap (d ∷ ds) rrs s c =
      let batches = batch_rrs env.lib.rr_len cap (difference env ops h d) in
      let next = send_all env ops h w req batches s in
      let one =
        subst (λ l. Carried (rrs ++ l) next)
          ((batch_rrs_lem env.lib.rr_len cap (difference env ops h d)).0)
          (send_all-Carried batches rrs s c) in
      subst (λ l. Carried l (send_deltas env ops h w req cap ds next))
        (append_assoc rrs (difference env ops h d) (differences ds))
        (send_deltas-Carried cap ds (rrs ++ difference env ops h d) next one)

  -- The buffer of a full transfer: what was sent, and what waits.
  record Buffered (rrs : List Rr) (bs : Batch × Stream) : Type 0 where
    before : List Rr
    carried : Carried before bs.1
    waits : before ++ bs.0.rrs ≡ rrs

  buffer_rr-Buffered :
      (cap : ℕ) (rr : Rr) (rrs : List Rr) (bs : Batch × Stream)
      → Buffered rrs bs
      → Buffered (rrs ++ rr ∷ []) (buffer_rr env ops h w req cap rr bs)
  unfolding buffer_rr
  buffer_rr-Buffered cap rr rrs (b, s) c = elim (Bool-cases (is_full cap b (env.lib.rr_len rr))) [
    | inl full ↦ rw full (record {
      before = rrs;
      carried =
          subst (λ l. Carried l (send env ops h w req b.rrs s)) c.waits
            (send-Carried c.before b.rrs s c.carried);
      waits = refl;
    })
    | inr room ↦ rw room (record {
      before = c.before;
      carried = c.carried;
      waits =
          sym (append_assoc c.before b.rrs (rr ∷ [])) ∙ ap (λ (l : List Rr). l ++ rr ∷ []) c.waits;
    })
  ]

  buffer_rrs-Buffered :
      (cap : ℕ) (more rrs : List Rr) (bs : Batch × Stream)
      → Buffered rrs bs
      → Buffered (rrs ++ more) (buffer_rrs env ops h w req cap more bs)
  unfolding buffer_rrs
  buffer_rrs-Buffered cap [] rrs bs c = subst (λ l. Buffered l bs) (sym (append-nil rrs)) c
  buffer_rrs-Buffered cap (rr ∷ more) rrs bs c =
      let next = buffer_rr env ops h w req cap rr bs in
      subst (λ l. Buffered l (buffer_rrs env ops h w req cap more next))
        (append_assoc rrs (rr ∷ []) more)
        (buffer_rrs-Buffered cap more (rrs ++ rr ∷ []) next (buffer_rr-Buffered cap rr rrs bs c))

  send_items-Carried :
      (cap : ℕ) (reader : Reader S) (rrs : List Rr) (s : Stream)
      → (reader.list h.store).broken ≡ false
      → Carried rrs s
      → Carried
          (rrs ++ pages_rrs env ops h.cfg (reader.list h.store).pages)
          (send_items env ops h w req cap reader s)
  unfolding send_items
  send_items-Carried cap reader rrs s whole c =
      let all = pages_rrs env ops h.cfg (reader.list h.store).pages in
      let end = buffer_rrs env ops h w req cap all (empty_batch, s) in
      let filled =
        buffer_rrs-Buffered cap all rrs (empty_batch, s)
          (record { before = rrs; carried = c; waits = append-nil rrs }) in
      rw whole (
        subst (λ l. Carried l (send env ops h w req end.0.rrs end.1)) filled.waits
          (send-Carried filled.before end.0.rrs end.1 filled.carried))

  -- A transfer that carries `rrs` between its two SOA records, and is counted.
  pub record Transfers (rrs : List Rr) (r : Handler S × List Msg) : Type 0 where
    pub records : answers r.1 ≡ soa h ∷ (rrs ++ soa h ∷ [])
    pub counted : r.0 ≡ count_transfer env ops h

  framed-Transfers :
      (rrs : List Rr) (body : Stream → Stream)
      → ((before : List Rr) (s : Stream) → Carried before s → Carried (before ++ rrs) (body s))
      → Transfers rrs (framed env ops h w req body)
  unfolding framed
  framed-Transfers rrs body carry =
      let opened = send env ops h w req (soa h ∷ []) (record { sent = []; alive = true }) in
      let first =
        send-Carried [] (soa h ∷ []) (record { sent = []; alive = true })
          (record { carries = refl; alive = refl }) in
      let last =
        send-Carried (soa h ∷ rrs) (soa h ∷ []) (body opened) (carry (soa h ∷ []) opened first) in
      record { records = last.carries; counted = rw last.alive }

  not_udp : (is_tcp w.network) ≡ true
  not_udp = rw sound.network

  handle_axfr-framed :
      (q : Question) (reader : Reader S)
      → equal_fold q.name h.cfg.zone ≡ true
      → ops.reader ≡ some reader
      → handle_axfr env ops h w req q
        ≡ framed env ops h w req (send_items env ops h w req (cap_bytes env ops w req) reader)
  unfolding handle_axfr stream_zone
  handle_axfr-framed q reader zone has = ground (arith, not_udp)

  handle_ixfr-framed :
      (q : Question) (client : Soa) (ds : List Delta)
      → equal_fold q.name h.cfg.zone ≡ true
      → client_soa req.ns ≡ some client
      → client.serial < h.serial
      → deltas_since h client.serial ≡ some ds
      → handle_ixfr env ops h w req q
        ≡ framed env ops h w req (send_deltas env ops h w req (cap_bytes env ops w req) ds)
  unfolding handle_ixfr stream_zone
  handle_ixfr-framed q client ds zone e behind has = ground (arith, not_udp)

  -- AXFR of the zone over TCP, from a store that lists all its pages: the SOA, the records of
  -- every item that can be marshalled in the order of the pages, the SOA.
  pub handle_axfr-Transfers :
      (q : Question) (reader : Reader S)
      → equal_fold q.name h.cfg.zone ≡ true
      → ops.reader ≡ some reader
      → (reader.list h.store).broken ≡ false
      → Transfers
          (pages_rrs env ops h.cfg (reader.list h.store).pages)
          (handle_axfr env ops h w req q)
  handle_axfr-Transfers q reader zone has whole =
      subst (Transfers (pages_rrs env ops h.cfg (reader.list h.store).pages))
        (sym (handle_axfr-framed q reader zone has))
        (framed-Transfers (pages_rrs env ops h.cfg (reader.list h.store).pages)
          (send_items env ops h w req (cap_bytes env ops w req) reader)
          (λ before s c. send_items-Carried (cap_bytes env ops w req) reader before s whole c))

  -- IXFR over TCP, with the deltas that the journal gives.
  handle_ixfr-deltas :
      (q : Question) (client : Soa) (ds : List Delta)
      → equal_fold q.name h.cfg.zone ≡ true
      → client_soa req.ns ≡ some client
      → client.serial < h.serial
      → deltas_since h client.serial ≡ some ds
      → Transfers (differences ds) (handle_ixfr env ops h w req q)
  handle_ixfr-deltas q client ds zone e behind has =
      subst (Transfers (differences ds)) (sym (handle_ixfr-framed q client ds zone e behind has)) (
        framed-Transfers (differences ds) (send_deltas env ops h w req (cap_bytes env ops w req) ds)
          (λ before s c. send_deltas-Carried (cap_bytes env ops w req) ds before s c))

  -- IXFR over TCP from a client that is behind, but not behind the journal, with a handler that
  -- journals the history `hist`: the SOA, the difference sequences of exactly the deltas behind the
  -- client's serial, oldest first, the SOA.
  pub handle_ixfr-Transfers :
      (q : Question) (client : Soa) (base : ℕ) (hist : List Delta) (c : MemChangeLog)
      → equal_fold q.name h.cfg.zone ≡ true
      → client_soa req.ns ≡ some client
      → h.changelog ≡ some c
      → h.serial ≡ base + length hist
      → Journals base hist c
      → client.serial < h.serial
      → base + (length hist - mem_change_log_cap) ≤ client.serial
      → Transfers (differences (drop (client.serial - base) hist)) (handle_ixfr env ops h w req q)
  handle_ixfr-Transfers q client base hist c zone e has now j behind reach =
      handle_ixfr-deltas q client (drop (client.serial - base) hist) zone e behind (
        ground (
          arith,
          has,
          now,
          reach,
          behind,
          log_deltas-Journals base hist c client.serial j (omega (arith, j.room)),
        ))
