-- ===== src/Text/Space.antt =====
-- White space and cutting: TrimSpace, Fields, Cut and Contains of package strings, on ASCII.
use contractdb.Base.{
  ℕ, Bool, true, false, ◌||◌, ◌&&◌, Option, none, some, List, [], ◌∷◌, Bytes, leb, ◌==◌, is_empty,
  if◌then◌else◌,
}

abbrev pub is_space : ℕ → Bool
is_space c = c == b' ' || leb 9 c && leb c 13

unfoldable pub trim_left : Bytes → Bytes
trim_left [] = []
trim_left (c ∷ s) = let rest = trim_left s in if is_space c then rest else c ∷ s

-- A suffix of white space goes.
unfoldable pub trim_right : Bytes → Bytes
trim_right [] = []
trim_right (c ∷ s) = let rest = trim_right s in if is_space c && is_empty rest then [] else c ∷ rest

unfoldable pub trim_space : Bytes → Bytes
unfolding trim_left trim_right
trim_space s = trim_right (trim_left s)

-- The field that is being read in front of the rest, if it is not empty.
abbrev flush : Bytes → List Bytes → List Bytes
flush [] fs = fs
flush (c ∷ w) fs = (c ∷ w) ∷ fs

-- The first field of a text, which may be empty, and the fields behind it.
unfoldable pub fields_loop : Bytes → Bytes × List Bytes
fields_loop [] = ([], [])
fields_loop (c ∷ s) =
    let (w, fs) = fields_loop s in if is_space c then ([], flush w fs) else (c ∷ w, fs)

unfoldable pub fields : Bytes → List Bytes
unfolding fields_loop
fields s = let (w, fs) = fields_loop s in flush w fs

-- strings.Cut at one byte; `none` where it is missing
unfoldable pub cut : ℕ → Bytes → Option (Bytes × Bytes)
cut sep [] = none
cut sep (c ∷ s) = elim (c == sep) [
  | true ↦ some ([], s)
  | false ↦ elim (cut sep s) [ none ↦ none | some (before, after) ↦ some (c ∷ before, after) ]
]

-- strings.Contains of one byte
unfoldable pub has_byte : ℕ → Bytes → Bool
has_byte b [] = false
has_byte b (c ∷ s) = c == b || has_byte b s
