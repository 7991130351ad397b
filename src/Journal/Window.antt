-- ===== src/Journal/Window.antt =====
-- The journal as a window on the full history of deltas.
use contractdb.Base.{
  ℕ, zero, suc, ◌+◌, ◌-◌, ◌≤◌, ◌<◌, Bool, true, false, ◌&&◌, ◌||◌, not, Option, none, some, List,
  [], ◌∷◌, ◌++◌, ltb, leb, ◌==◌, length, length-append, get_elem?, get_elem?-snoc_lt,
  get_elem?-snoc_end, drop-get_elem?, drop_all, drop, ◌≡◌, refl, sym, subst, ◌∙◌, arith,
  if◌then◌else◌, Bool-cases, inl, inr, append_assoc, append-nil, leb→le,
}
use contractdb.Assoc.{
  lookup, insert, remove, nat_eq, Distinct, lookup-insert, lookup-remove, insert-Distinct,
  remove-Distinct, length-insert_new, length-remove,
}
use contractdb.Dns.{Rr}
use contractdb.Journal.{
  u32_mod, succ32, pred32, Delta, MemChangeLog, mem_change_log_cap, new_mem_change_log, prune,
  enter, log_record, collect, log_deltas,
}

-- What a journal holds at serial `s`, if it keeps the serials from `lo` to `hi` and the history
-- begins behind `base`.
abbrev pub entry_at : ℕ → List Delta → ℕ → ℕ → ℕ → Option Delta
entry_at base hist lo hi s = if leb lo s && leb s hi then get_elem? hist (s - base - 1) else none

-- `c` journals the history `hist`, oldest first, whose first delta has the serial `base + 1`: it
-- has kept the last 4096 deltas, each under its serial.
pub record Journals (base : ℕ) (hist : List Delta) (c : MemChangeLog) : Type 0 where
  pub latest : c.latest ≡ base + length hist
  pub oldest : c.oldest ≡ base + 1 + (length hist - mem_change_log_cap)
  pub room : base + length hist + 1 < u32_mod
  pub size : length c.deltas + (length hist - mem_change_log_cap) ≡ length hist
  pub distinct : Distinct c.deltas
  pub entry : (s : ℕ) → lookup s c.deltas ≡ entry_at base hist c.oldest c.latest s

pub Journals-new : (base : ℕ) → base + 1 < u32_mod → Journals base [] (new_mem_change_log base)
unfolding lookup
Journals-new base h = record {
  latest = omega arith;
  oldest = omega arith;
  room = omega arith;
  size = omega arith;
  distinct = tt;
  entry = λ s. ground arith;
}

abbrev pub delta_at : ℕ → List Delta → List Rr → List Rr → Delta
delta_at base hist removed added = record {
  serial = base + length hist + 1;
  removed = removed;
  added = added;
}

-- The entries after a write, before the pruning.
enter_entry :
    (base : ℕ) (hist : List Delta) (c : MemChangeLog) (d : Delta)
    → Journals base hist c
    → (s : ℕ)
    → lookup s (insert (base + length hist + 1) d c.deltas)
      ≡ entry_at base (hist ++ d ∷ []) c.oldest (base + length hist + 1) s
enter_entry base hist c d j s = rw lookup-insert (elim (Bool-cases (base + length hist + 1 == s)) [
  | inl e ↦
      let here : s - base - 1 ≡ length hist = ground arith in
      rw (e, here, get_elem?-snoc_end hist d) (ground (arith, j.oldest))
  | inr e ↦ ground (arith, j.entry s, j.oldest, j.latest, get_elem?-snoc_lt hist d (s - base - 1))
])

pub prune_done :
    (rounds : ℕ) (c : MemChangeLog) → length c.deltas ≤ mem_change_log_cap → prune rounds c ≡ c
unfolding prune
prune_done zero c h = refl
prune_done (suc rounds) c h = ground arith

abbrev dropped : MemChangeLog → MemChangeLog
dropped c = record c { deltas = remove c.oldest c.deltas; oldest = succ32 c.oldest }

prune_once :
    (rounds : ℕ) (c : MemChangeLog)
    → mem_change_log_cap < length c.deltas
    → length (remove c.oldest c.deltas) ≤ mem_change_log_cap
    → prune (suc rounds) c ≡ dropped c
unfolding prune
prune_once rounds c big small = ground (arith, prune_done rounds (dropped c) small)

-- The state before the pruning, after a write with the next serial.
abbrev entered : ℕ → List Delta → MemChangeLog → Delta → MemChangeLog
entered base hist c d = record {
  oldest = c.oldest;
  latest = base + length hist + 1;
  deltas = insert (base + length hist + 1) d c.deltas;
  started = true;
}

enter-entered :
    (base : ℕ) (hist : List Delta) (c : MemChangeLog) (removed added : List Rr)
    → Journals base hist c
    → enter c (base + length hist + 1) removed added
      ≡ entered base hist c (delta_at base hist removed added)
unfolding enter
enter-entered base hist c removed added j =
    let old : (c.oldest == 0) ≡ false = ground (arith, j.oldest) in
    let new : ltb c.latest (base + length hist + 1) ≡ true = ground (arith, j.latest) in
    rw (old, new) (ground arith)

length-entered :
    (base : ℕ) (hist : List Delta) (c : MemChangeLog) (d : Delta)
    → Journals base hist c
    → length (insert (base + length hist + 1) d c.deltas) ≡ length c.deltas + 1
length-entered base hist c d j =
    length-insert_new (base + length hist + 1) d c.deltas
      (ground (arith, j.entry (base + length hist + 1), j.latest))

Journals-entered :
    (base : ℕ) (hist : List Delta) (c : MemChangeLog) (d : Delta)
    → Journals base hist c
    → base + length hist + 2 < u32_mod
    → length hist < mem_change_log_cap
    → Journals base (hist ++ d ∷ []) (entered base hist c d)
Journals-entered base hist c d j more small = record {
  latest = omega (arith, length-append hist (d ∷ []));
  oldest = omega (arith, length-append hist (d ∷ []), j.oldest);
  room = omega (arith, length-append hist (d ∷ []));
  size = omega (arith, length-append hist (d ∷ []), j.size, length-entered base hist c d j);
  distinct = insert-Distinct (base + length hist + 1) d c.deltas j.distinct;
  entry = enter_entry base hist c d j;
}

length-dropped :
    (base : ℕ) (hist : List Delta) (c : MemChangeLog) (d : Delta)
    → Journals base hist c
    → mem_change_log_cap ≤ length hist
    → length (remove c.oldest (insert (base + length hist + 1) d c.deltas)) ≡ length c.deltas
length-dropped base hist c d j full =
    let i : ℕ = c.oldest - base - 1 in
    let (v, found, _) =
      drop-get_elem? (hist ++ d ∷ []) i (omega (arith, length-append hist (d ∷ []), j.oldest)) in
    let held : lookup c.oldest (insert (base + length hist + 1) d c.deltas) ≡ some v =
      ground (arith, enter_entry base hist c d j c.oldest, j.oldest, found) in
    omega (
      arith,
      length-remove c.oldest (insert (base + length hist + 1) d c.deltas) v
          (insert-Distinct (base + length hist + 1) d c.deltas j.distinct) held,
      length-entered base hist c d j,
    )

Journals-dropped :
    (base : ℕ) (hist : List Delta) (c : MemChangeLog) (d : Delta)
    → Journals base hist c
    → base + length hist + 2 < u32_mod
    → mem_change_log_cap ≤ length hist
    → Journals base (hist ++ d ∷ []) (dropped (entered base hist c d))
Journals-dropped base hist c d j more full = record {
  latest = omega (arith, length-append hist (d ∷ []));
  oldest = omega (arith, length-append hist (d ∷ []), j.oldest);
  room = omega (arith, length-append hist (d ∷ []));
  size = omega (arith, length-append hist (d ∷ []), j.size, length-dropped base hist c d j full);
  distinct =
      remove-Distinct c.oldest _ (insert-Distinct (base + length hist + 1) d c.deltas j.distinct);
  entry = λ s. rw lookup-remove (ground (arith, enter_entry base hist c d j s, j.oldest));
}

-- In a journal of a history, Record with the next serial, as long as serials do not wrap, makes a
-- journal of the history with that delta, which keeps its last 4096 deltas.
pub Journals-log_record :
    (base : ℕ) (hist : List Delta) (c : MemChangeLog) (removed added : List Rr)
    → Journals base hist c
    → base + length hist + 2 < u32_mod
    → Journals base
        (hist ++ delta_at base hist removed added ∷ [])
        (log_record c (base + length hist + 1) removed added)
unfolding log_record
Journals-log_record base hist c removed added j more =
    rw (enter-entered base hist c removed added j)
      (elim (Bool-cases (ltb (length hist) mem_change_log_cap)) [
        | inl small ↦
            let fits : length hist < mem_change_log_cap = ground arith in
            subst (Journals base (hist ++ d ∷ []))
              (sym (
                prune_done u32_mod (entered base hist c d)
                  (omega (arith, j.size, length-entered base hist c d j))))
              (Journals-entered base hist c d j more fits)
        | inr full ↦
            let big : mem_change_log_cap ≤ length hist = ground arith in
            subst (Journals base (hist ++ d ∷ []))
              (sym (
                prune_once (u32_mod - 1) (entered base hist c d)
                  (omega (arith, j.size, length-entered base hist c d j))
                  (omega (arith, j.size, length-dropped base hist c d j big))))
              (Journals-dropped base hist c d j more big)
      ])
  where
    d : Delta
    d = delta_at base hist removed added

-- The loop of Deltas, from serial `s` on, inside the window.
collect_lem :
    (rounds : ℕ) (base : ℕ) (hist : List Delta) (c : MemChangeLog) (s : ℕ) (out : List Delta)
    → Journals base hist c
    → c.oldest ≤ s
    → s ≤ c.latest + 1
    → c.latest + 1 < s + rounds
    → collect rounds c s out ≡ some (out ++ drop (s - base - 1) hist)
unfolding collect
collect_lem zero base hist c s out j lo hi fuel = absurd (omega arith)
collect_lem (suc rounds) base hist c s out j lo hi fuel = elim (Bool-cases (leb s c.latest)) [
  | inl more ↦
      let i : ℕ = s - base - 1 in
      let (d, at, tail) = drop-get_elem? hist i (ground (arith, j.latest, j.oldest)) in
      let held : lookup s c.deltas ≡ some d = ground (arith, j.entry s, at) in
      let next : succ32 s ≡ s + 1 = omega (arith, j.room, j.latest, leb→le s c.latest more) in
      let i' : s + 1 - base - 1 ≡ suc i = omega (arith, j.oldest) in
      let rest =
        collect_lem rounds base hist c (s + 1) (out ++ d ∷ []) j (omega arith)
          (omega (arith, leb→le s c.latest more)) (omega arith) in
      rw (more, held, next, tail) (rest ∙ rw (i', append_assoc))
  | inr done ↦
      rw (done, drop_all hist (s - base - 1) (ground (arith, j.latest, j.oldest)), append-nil)
]

start : (since base : ℕ) → since + 1 - base - 1 ≡ since - base
start since base = omega arith

-- In a journal of a history, Deltas answers exactly for the serials from one before the oldest
-- delta kept to the latest, with the part of the history behind that serial.
pub log_deltas-Journals :
    (base : ℕ) (hist : List Delta) (c : MemChangeLog) (since : ℕ)
    → Journals base hist c
    → since < u32_mod
    → log_deltas c since ≡ (
        if leb since (base + length hist) && leb (base + (length hist - mem_change_log_cap)) since
        then some (drop (since - base) hist)
        else none)
unfolding log_deltas
log_deltas-Journals base hist c since j word =
    let lo : pred32 c.oldest ≡ base + (length hist - mem_change_log_cap) =
      omega (arith, j.oldest, j.room) in
    let outside : (ltb c.latest since || ltb since (pred32 c.oldest)) ≡ not inside =
      ground (arith, lo, j.latest) in
    elim (Bool-cases inside) [
      | inl yes_in ↦
          let below : since ≤ c.latest = ground (arith, j.latest) in
          let above : c.oldest ≤ since + 1 = ground (arith, j.oldest) in
          let next : succ32 since ≡ since + 1 = omega (arith, j.room, j.latest) in
          rw (outside, yes_in, next)
            (collect_lem (suc (length c.deltas)) base hist c (since + 1) [] j above (omega arith)
                (omega (arith, j.size, j.latest, j.oldest))
              ∙ rw (start since base))
      | inr no_in ↦ rw (outside, no_in)
    ]
  where
    inside : Bool
    inside = leb since (base + length hist) && leb (base + (length hist - mem_change_log_cap)) since
