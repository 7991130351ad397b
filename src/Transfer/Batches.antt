-- ===== src/Transfer/Batches.antt =====
-- How records are packed into messages: batchRRs, and the buffer of a full transfer.
use contractdb.Base.{
  ℕ, ◌+◌, ◌≤◌, true, false, List, [], ◌∷◌, ◌++◌, is_empty, length, length-append, concat,
  concat-append, All, All-append, ◌≡◌, ◌≢◌, ◌⊎◌, inl, inr, refl, ap, ◌∙◌, arith, append_assoc,
  append-nil, Bool-cases, if◌then◌else◌,
}
use contractdb.Dns.{Rr}
use contractdb.Transfer.{
  axfr_max_rrs_per_msg, overhead_per_msg, Batch, empty_batch, is_full, add_rr, batch_loop,
  batch_rrs,
}

module _ (rr_len : Rr → ℕ) (cap : ℕ) where
  -- The wire size of records, with the overhead of a message.
  abbrev pub size_of : List Rr → ℕ
  size_of [] = overhead_per_msg
  size_of (rr ∷ rrs) = rr_len rr + size_of rrs

  -- A batch that may be sent: it is not empty, has at most 500 records, and fits under the cap
  -- unless it is one record.
  abbrev pub IsBatch : List Rr → Type 0
  IsBatch rrs =
      (rrs ≢ []) × ((length rrs ≤ axfr_max_rrs_per_msg) × ((size_of rrs ≤ cap) ⊎ (length rrs ≡ 1)))

  -- The batch that is being filled is empty, or may be sent as it is.
  pub record IsFilling (b : Batch) : Type 0 where
    pub counted : b.len ≡ size_of b.rrs
    pub sendable : (b.rrs ≡ []) ⊎ IsBatch b.rrs

  size_of-snoc : (rrs : List Rr) (rr : Rr) → size_of (rrs ++ rr ∷ []) ≡ size_of rrs + rr_len rr
  size_of-snoc [] rr = omega arith
  size_of-snoc (x ∷ rrs) rr = omega (arith, size_of-snoc rrs rr)

  snoc-ne-nil : (rrs : List Rr) (rr : Rr) → rrs ++ rr ∷ [] ≢ []
  snoc-ne-nil [] rr e = cc
  snoc-ne-nil (x ∷ rrs) rr e = cc

  pub empty-IsFilling : IsFilling empty_batch
  empty-IsFilling = record { counted = refl; sendable = inl refl }

  one-IsFilling : (rr : Rr) → IsFilling (add_rr empty_batch rr (rr_len rr))
  one-IsFilling rr = record {
    counted = omega arith;
    sendable = inr ((λ e. cc), (omega arith, inr refl));
  }

  room_left :
      (rrs : List Rr) (len l : ℕ)
      → rrs ≢ []
      → is_full cap (record { rrs = rrs; len = len }) l ≡ false
      → (length rrs + 1 ≤ axfr_max_rrs_per_msg) × (len + l ≤ cap)
  room_left [] len l ne h = absurd (ne refl)
  room_left (x ∷ rrs) len l ne h = ground arith

  add-IsFilling :
      (b : Batch) (rr : Rr)
      → IsFilling b
      → is_full cap b (rr_len rr) ≡ false
      → IsFilling (add_rr b rr (rr_len rr))
  add-IsFilling b rr f room = record {
    counted = omega (arith, f.counted, size_of-snoc b.rrs rr);
    sendable = inr (
      snoc-ne-nil b.rrs rr,
      (elim f.sendable [
        | inl e ↦ rw e (omega arith, inr refl)
        | inr (ne, _) ↦
            let (few, fits) = room_left b.rrs b.len (rr_len rr) ne room in
            (
              omega (arith, length-append b.rrs (rr ∷ [])),
              inl (omega (arith, f.counted, size_of-snoc b.rrs rr)),
            )
      ]),
    );
  }

  full-IsBatch : (b : Batch) (l : ℕ) → IsFilling b → is_full cap b l ≡ true → IsBatch b.rrs
  full-IsBatch b l f full = elim f.sendable [
    | inl e ↦ absurd (not_full b.rrs b.len l e full)
    | inr batch ↦ batch
  ]
    where
      not_full :
          (rrs : List Rr) (len k : ℕ)
          → rrs ≡ []
          → is_full cap (record { rrs = rrs; len = len }) k ≡ true
          → ⊥
      not_full [] len k e h = cc
      not_full (x ∷ rrs) len k e h = cc

  last-IsBatch :
      (rrs : List Rr) (out : List (List Rr))
      → (rrs ≡ []) ⊎ IsBatch rrs
      → All IsBatch out
      → All IsBatch (if is_empty rrs then out else out ++ rrs ∷ [])
        × (concat (if is_empty rrs then out else out ++ rrs ∷ []) ≡ concat out ++ (rrs ++ []))
  last-IsBatch [] out s h = (h, rw append-nil)
  last-IsBatch (x ∷ rrs) out (inl e) h = absurd (cc)
  last-IsBatch (x ∷ rrs) out (inr batch) h =
      (All-append IsBatch out ((x ∷ rrs) ∷ []) h (batch, tt), concat-append out ((x ∷ rrs) ∷ []))

  batch_loop-IsBatch :
      (rrs : List Rr) (b : Batch) (out : List (List Rr))
      → IsFilling b
      → All IsBatch out
      → All IsBatch (batch_loop rr_len cap rrs b out)
        × (concat (batch_loop rr_len cap rrs b out) ≡ concat out ++ (b.rrs ++ rrs))
  unfolding batch_loop
  batch_loop-IsBatch [] b out f h = last-IsBatch b.rrs out f.sendable h
  batch_loop-IsBatch (rr ∷ rrs) b out f h = elim (Bool-cases (is_full cap b (rr_len rr))) [
    | inl full ↦
        let (good, joined) =
          batch_loop-IsBatch rrs (add_rr empty_batch rr (rr_len rr)) (out ++ b.rrs ∷ [])
            (one-IsFilling rr)
            (All-append IsBatch out (b.rrs ∷ []) h (full-IsBatch b (rr_len rr) f full, tt)) in
        rw full (good, joined ∙ (simp (concat-append out (b.rrs ∷ []), append-nil, append_assoc)))
    | inr room ↦
        let (good, joined) =
          batch_loop-IsBatch rrs (add_rr b rr (rr_len rr)) out (add-IsFilling b rr f room) h in
        rw room
          (good, joined ∙ ap (λ (l : List Rr). concat out ++ l) (append_assoc b.rrs (rr ∷ []) rrs))
  ]

  -- The batches of batchRRs hold the records in order, none lost. Each is not empty, has at most 500
  -- records, and fits under the cap unless it is one record.
  pub batch_rrs_lem :
      (rrs : List Rr)
      → (concat (batch_rrs rr_len cap rrs) ≡ rrs) × All IsBatch (batch_rrs rr_len cap rrs)
  unfolding batch_rrs
  batch_rrs_lem rrs =
      let (good, joined) = batch_loop-IsBatch rrs empty_batch [] empty-IsFilling tt in
      (joined, good)
