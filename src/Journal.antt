-- ===== src/Journal.antt =====
-- journal.go: the in-memory journal of zone deltas. Serials are uint32.
pub mod Pruning
pub mod Window
use contractdb.Base.{
  ℕ, zero, suc, ◌+◌, ◌-◌, ◌%◌, ◌^◌, Bool, true, false, ◌&&◌, ◌||◌, not, Option, none, some, List,
  [], ◌∷◌, ◌++◌, ltb, leb, ◌==◌, length, if◌then◌else◌,
}
use contractdb.Assoc.{lookup, insert, remove, nat_eq}
use contractdb.Dns.{Rr}

abbrev pub u32_mod : ℕ
u32_mod = 2 ^ 32

-- uint32 x + 1 and x - 1
abbrev pub succ32 : ℕ → ℕ
succ32 x = (x + 1) % u32_mod

abbrev pub pred32 : ℕ → ℕ
pred32 x = (x + u32_mod - 1) % u32_mod

pub record Delta : Type 0 where
  pub serial : ℕ
  pub removed : List Rr
  pub added : List Rr

pub record MemChangeLog : Type 0 where
  pub oldest : ℕ
  pub latest : ℕ
  pub deltas : List (ℕ × Delta)
  pub started : Bool

abbrev pub mem_change_log_cap : ℕ
mem_change_log_cap = 4096

abbrev pub new_mem_change_log : ℕ → MemChangeLog
new_mem_change_log start = record {
  oldest = succ32 start;
  latest = start;
  deltas = [];
  started = false;
}

-- The pruning loop of Record. Each round steps `oldest` once round the 2^32 serials, so 2^32
-- rounds delete every entry.
unfoldable pub prune : ℕ → MemChangeLog → MemChangeLog
prune zero c = c
prune (suc rounds) c =
    let rest =
      prune rounds (record c { deltas = remove c.oldest c.deltas; oldest = succ32 c.oldest }) in
    if ltb mem_change_log_cap (length c.deltas) then rest else c

-- The state before the pruning loop.
unfoldable pub enter : MemChangeLog → ℕ → List Rr → List Rr → MemChangeLog
enter c serial removed added = record {
  oldest = if not c.started && c.oldest == 0 then serial else c.oldest;
  latest = if ltb c.latest serial then serial else c.latest;
  deltas = insert serial (record { serial = serial; removed = removed; added = added }) c.deltas;
  started = true;
}

unfoldable pub log_record : MemChangeLog → ℕ → List Rr → List Rr → MemChangeLog
log_record c serial removed added = prune u32_mod (enter c serial removed added)

-- `for s := since + 1; s <= c.latest; s++`. A round that goes on has found an entry of its own, so
-- there are at most as many rounds as entries, and one that ends the loop.
collect : ℕ → MemChangeLog → ℕ → List Delta → Option (List Delta)
collect zero c s out = none
collect (suc rounds) c s out =
    if leb s c.latest
    then elim (lookup s c.deltas) [
      | none ↦ none
      | some d ↦ collect rounds c (succ32 s) (out ++ d ∷ [])
    ]
    else some out

-- `(nil, false)` is `none`.
pub log_deltas : MemChangeLog → ℕ → Option (List Delta)
log_deltas c since =
    if ltb c.latest since || ltb since (pred32 c.oldest)
    then none
    else collect (suc (length c.deltas)) c (succ32 since) []
