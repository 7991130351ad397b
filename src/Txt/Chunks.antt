-- ===== src/Txt/Chunks.antt =====
-- What chunkBytes returns.
use Prim.Native.Nat.{min}
use contractdb.Base.{
  ℕ, zero, suc, ◌+◌, ◌-◌, ◌/◌, ◌≤◌, ◌<◌, [], ◌∷◌, ◌++◌, Bytes, ltb, length, length-take,
  length-drop, take-append-drop, take, drop, concat, All, ◌≡◌, refl, ap, ◌∙◌, arith, if◌then◌else◌,
  Bool-cases, inl, inr,
}
use contractdb.Txt.{max_txt_chunk, chunk_loop, chunk_bytes}

abbrev cut : ℕ → Bytes → Bytes
cut n b = if ltb n (length b) then take n b else b

length-cut-min : (n : ℕ) (b : Bytes) → length (cut n b) ≡ min n (length b)
length-cut-min n b = ground (arith, length-take n b)

drop-length : (b : Bytes) → b ++ drop (length b) b ≡ b
drop-length [] = refl
drop-length (x ∷ b) = ap (◌∷◌ x) (drop-length b)

cut_rest : (n : ℕ) (b : Bytes) → cut n b ++ drop (length (cut n b)) b ≡ b
cut_rest n b = elim (Bool-cases (ltb n (length b))) [
  | inl long ↦
      let full : length (take n b) ≡ n = ground (arith, length-take n b) in
      rw (long, full) (take-append-drop n b)
  | inr short ↦ rw short (drop-length b)
]

length-cut :
    (n : ℕ) (b : Bytes) → 0 < n → 0 < length b → (0 < length (cut n b)) × (length (cut n b) ≤ n)
length-cut n b hn hb = ground (arith, length-take n b)

-- The chunks join to the bytes, and each has between one and `n` bytes.
chunk_loop_lem :
    (rounds : ℕ) (b : Bytes) (n : ℕ)
    → 0 < n
    → length b ≤ rounds
    → (concat (chunk_loop rounds b n) ≡ b)
      × All (λ c. (0 < length c) × (length c ≤ n)) (chunk_loop rounds b n)
unfolding chunk_loop
chunk_loop_lem zero [] n hn h = (refl, tt)
chunk_loop_lem zero (x ∷ b) n hn h = absurd (omega arith)
chunk_loop_lem (suc rounds) [] n hn h = (refl, tt)
chunk_loop_lem (suc rounds) (x ∷ b) n hn h =
    let (joined, sized) = chunk_loop_lem rounds (drop (length (cut n (x ∷ b))) (x ∷ b)) n hn (
      omega (
        arith,
        length-drop (length (cut n (x ∷ b))) (x ∷ b),
        length-cut n (x ∷ b) hn (omega arith),
      )) in
    (
      ap (λ r. cut n (x ∷ b) ++ r) joined ∙ cut_rest n (x ∷ b),
      (length-cut n (x ∷ b) hn (omega arith), sized),
    )

length-chunk_loop :
    (rounds : ℕ) (b : Bytes)
    → length b ≤ rounds
    → length (chunk_loop rounds b 255) ≡ (length b + 254) / 255
unfolding chunk_loop
length-chunk_loop zero [] h = refl
length-chunk_loop zero (x ∷ b) h = absurd (omega arith)
length-chunk_loop (suc rounds) [] h = refl
length-chunk_loop (suc rounds) (x ∷ b) h = omega (
  arith,
  length-cut-min 255 (x ∷ b),
  length-drop (length (cut 255 (x ∷ b))) (x ∷ b),
  length-chunk_loop rounds (drop (length (cut 255 (x ∷ b))) (x ∷ b)),
)

-- Chunks of a positive size join to the bytes, and each has between one and that many bytes. At
-- 255 bytes there are as many as itemRRs makes room for.
pub chunk_bytes_lem :
    (b : Bytes) (n : ℕ)
    → 0 < n
    → (concat (chunk_bytes b n) ≡ b)
      × All (λ c. (0 < length c) × (length c ≤ n)) (chunk_bytes b n)
      × (length (chunk_bytes b max_txt_chunk) ≡ (length b + max_txt_chunk - 1) / max_txt_chunk)
unfolding chunk_bytes
chunk_bytes_lem b n hn =
    let (joined, sized) = chunk_loop_lem (length b) b n hn (omega arith) in
    (
      joined,
      sized,
      length-chunk_loop (length b) b (omega arith) ∙ ap (λ (k : ℕ). k / 255) (omega arith),
    )
