-- ===== src/Update/Concurrent/Numbers.antt =====
-- The journal while goroutines have taken serials whose deltas they have not yet recorded.
use mathlib.Core.List.{Permᴰ}
use mathlib.Core.List.Permᴰ
use mathlib.Core.Option
use contractdb.Base.{
  ℕ, ◌+◌, ◌-◌, ◌≤◌, ◌<◌, none, some, List, [], ◌∷◌, ◌++◌, ◌==◌, length, length-append,
  drop-get_elem?, ◌≡◌, refl, sym, ap, subst, ◌∙◌, arith, Bool-cases, inl, inr,
}
use contractdb.Assoc.{lookup, insert, remove, nat_eq, remove_absent}
use contractdb.Dns.{Rr}
use contractdb.Journal.{Delta, MemChangeLog, mem_change_log_cap, u32_mod, succ32, enter, log_record}
use contractdb.Journal.Window.{prune_done}
use contractdb.Handler.{Handler}
use contractdb.Serve.Reachable.{Journaled}
use contractdb.Update.Concurrent.Entries.{
  Perm-lookup, get_elem?-beyond, length-Perm, numbered-bounds, lookup-Perm, lookup-append_none,
  numbered, length-numbered, lookup-numbered, numbered-Distinct, numbered-snoc,
}

-- The entries of the journal with the pending ones are the history, each delta under its serial.
pub record Numbered {S : Type 0} (base : ℕ) (hist : List Delta) (h : Handler S)
    (pend : List (ℕ × Delta)) : Type 0 where
  pub journal : MemChangeLog
  pub has : h.changelog ≡ some journal
  pub serial : h.serial ≡ base + length hist
  pub oldest : journal.oldest ≡ base + 1
  pub lower : base ≤ journal.latest
  pub upper : journal.latest ≤ base + length hist
  pub above : (s : ℕ) (d : Delta) → lookup s journal.deltas ≡ some d → s ≤ journal.latest
  pub entries : Permᴰ (journal.deltas ++ pend) (numbered (base + 1) hist)

module _ {S : Type 0} (base : ℕ) (hist : List Delta) (h : Handler S) where
  -- The journal and the serial are all that counts.
  pub Numbered-same :
      (h' : Handler S) (pend : List (ℕ × Delta))
      → h'.changelog ≡ h.changelog
      → h'.serial ≡ h.serial
      → Numbered base hist h pend
      → Numbered base hist h' pend
  Numbered-same h' pend changelog serial n = record {
    journal = n.journal;
    has = changelog ∙ n.has;
    serial = serial ∙ n.serial;
    oldest = n.oldest;
    lower = n.lower;
    upper = n.upper;
    above = n.above;
    entries = n.entries;
  }

  pub Numbered-Perm :
      (pend pend' : List (ℕ × Delta))
      → Permᴰ pend' pend
      → Numbered base hist h pend
      → Numbered base hist h pend'
  Numbered-Perm pend pend' p n = record {
    journal = n.journal;
    has = n.has;
    serial = n.serial;
    oldest = n.oldest;
    lower = n.lower;
    upper = n.upper;
    above = n.above;
    entries = Permᴰ.trans (Permᴰ.append_left n.journal.deltas p) n.entries;
  }

  -- A goroutine takes the next serial.
  pub number-Numbered :
      (pend : List (ℕ × Delta)) (d : Delta)
      → base + length hist + 1 < u32_mod
      → Numbered base hist h pend
      → Numbered base
          (hist ++ d ∷ [])
          (record h { serial = succ32 h.serial })
          ((succ32 h.serial, d) ∷ pend)
  number-Numbered pend d room n =
      let next : succ32 h.serial ≡ base + 1 + length hist = omega (arith, n.serial) in
      record {
        journal = n.journal;
        has = n.has;
        serial = omega (arith, next, length-append hist (d ∷ []));
        oldest = n.oldest;
        lower = n.lower;
        upper = omega (arith, n.upper, length-append hist (d ∷ []));
        above = n.above;
        entries =
            rw (next, numbered-snoc (base + 1) hist d)
              (Permᴰ.trans (Permᴰ.middle (base + 1 + length hist, d) n.journal.deltas pend) (
                Permᴰ.trans (Permᴰ.cons refl n.entries) (
                  Permᴰ.symm (
                    Permᴰ.trans
                      (Permᴰ.middle (base + 1 + length hist, d) (numbered (base + 1) hist) [])
                      (Permᴰ.cons refl (Permᴰ.append-nil (numbered (base + 1) hist)))))));
      }

  -- what is known of an entry that is pending
  record Pending (c : MemChangeLog) (s : ℕ) (d : Delta) (pend : List (ℕ × Delta)) : Type 0 where
    front : Permᴰ ((s, d) ∷ (c.deltas ++ pend)) (numbered (base + 1) hist)
    new : lookup s c.deltas ≡ none
    low : base + 1 ≤ s
    high : s ≤ base + length hist
    size : length c.deltas + 1 ≤ length hist

  pending_lem :
      (c : MemChangeLog) (s : ℕ) (d : Delta) (pend : List (ℕ × Delta))
      → Permᴰ (c.deltas ++ (s, d) ∷ pend) (numbered (base + 1) hist)
      → Pending c s d pend
  unfolding lookup
  pending_lem c s d pend p =
      let front : Permᴰ ((s, d) ∷ (c.deltas ++ pend)) (numbered (base + 1) hist) =
        Permᴰ.trans (Permᴰ.symm (Permᴰ.middle (s, d) c.deltas pend)) p in
      let (unique, at) =
        lookup-Perm (numbered (base + 1) hist) ((s, d) ∷ (c.deltas ++ pend)) (Permᴰ.symm front)
          (numbered-Distinct (base + 1) hist) in
      let here : lookup s (numbered (base + 1) hist) ≡ some d = ground (arith, at s) in
      let (low, high) = numbered-bounds (base + 1) hist s d here in
      record {
        front = front;
        new = lookup-append_none s c.deltas pend unique.0;
        low = low;
        high = omega (arith, high);
        size = omega (
          arith,
          length-Perm ((s, d) ∷ (c.deltas ++ pend)) (numbered (base + 1) hist) front,
          length-numbered (base + 1) hist,
          length-append c.deltas pend,
        );
      }

  enter-Numbered :
      (pend : List (ℕ × Delta)) (s : ℕ) (removed added : List Rr)
      → (n : Numbered base hist h
          ((s, record { serial = s; removed = removed; added = added }) ∷ pend))
      → Numbered base hist (record h { changelog = some (enter n.journal s removed added) }) pend
  unfolding enter insert lookup
  enter-Numbered pend s removed added n =
      let d : Delta = record { serial = s; removed = removed; added = added } in
      let c = n.journal in
      let k = pending_lem c s d pend n.entries in
      let in_front : remove s c.deltas ≡ c.deltas = remove_absent s c.deltas k.new in
      record {
        journal = enter c s removed added;
        has = refl;
        serial = n.serial;
        oldest = ground (arith, n.oldest);
        lower = ground (arith, n.lower);
        upper = ground (arith, n.upper, k.high);
        above = λ j x e. ground (arith, in_front, n.above j x, e);
        entries = rw in_front k.front;
      }

  -- A goroutine records its delta.
  pub record-Numbered :
      (pend : List (ℕ × Delta)) (s : ℕ) (removed added : List Rr)
      → length hist ≤ mem_change_log_cap
      → Numbered base hist h ((s, record { serial = s; removed = removed; added = added }) ∷ pend)
      → Numbered base hist
          (record h { changelog = Option.map (λ c. log_record c s removed added) h.changelog })
          pend
  unfolding log_record enter insert
  record-Numbered pend s removed added fits n =
      let d : Delta = record { serial = s; removed = removed; added = added } in
      let c = n.journal in
      let k = pending_lem c s d pend n.entries in
      let in_front : remove s c.deltas ≡ c.deltas = remove_absent s c.deltas k.new in
      let small : length (insert s d c.deltas) ≤ mem_change_log_cap =
        rw in_front (omega (arith, k.size)) in
      subst (λ o. Numbered base hist (record h { changelog = o }) pend)
        (sym (
          ap (Option.map (λ c. log_record c s removed added)) n.has
          ∙ ap some (prune_done u32_mod (enter c s removed added) small)))
        (enter-Numbered pend s removed added n)

  -- With nothing pending, the journal keeps the history.
  pub Numbered-Journaled :
      base + length hist + 1 < u32_mod
      → length hist ≤ mem_change_log_cap
      → Numbered base hist h []
      → Journaled base hist h
  Numbered-Journaled room fits n =
      let c = n.journal in
      let all : Permᴰ c.deltas (numbered (base + 1) hist) =
        Permᴰ.trans (Permᴰ.symm (Permᴰ.append-nil c.deltas)) n.entries in
      let (unique, at) =
        lookup-Perm (numbered (base + 1) hist) c.deltas (Permᴰ.symm all)
          (numbered-Distinct (base + 1) hist) in
      let size : length c.deltas ≡ length hist =
        length-Perm c.deltas (numbered (base + 1) hist) all ∙ length-numbered (base + 1) hist in
      let latest : c.latest ≡ base + length hist = elim (Bool-cases (length hist == 0)) [
        | inl nothing ↦ ground (arith, n.lower, n.upper, nothing)
        | inr something ↦
            let (v, found, _) = drop-get_elem? hist (length hist - 1) (ground (arith, something)) in
            let i : base + length hist - (base + 1) ≡ length hist - 1 = omega arith in
            let last : lookup (base + length hist) (numbered (base + 1) hist) ≡ some v =
              lookup-numbered (base + 1) hist (base + length hist)
              ∙ rw i (ground (arith, found, something)) in
            omega (
              arith,
              n.above (base + length hist) v (sym (at (base + length hist)) ∙ last),
              n.upper,
            )
      ] in
      record {
        journal = c;
        has = n.has;
        serial = n.serial;
        keeps = record {
          latest = latest;
          oldest = omega (arith, n.oldest);
          room = room;
          size = omega (arith, size);
          distinct = unique;
          entry = λ s.
              sym (at s)
              ∙ lookup-numbered (base + 1) hist s
              ∙ (let i : s - (base + 1) ≡ s - base - 1 = omega arith in
                  rw i (ground (arith, latest, n.oldest, get_elem?-beyond hist (s - base - 1))));
        };
      }

  -- A journal that has dropped nothing
  pub Journaled-Numbered :
      length hist ≤ mem_change_log_cap → Journaled base hist h → Numbered base hist h []
  Journaled-Numbered fits j =
      let c = j.journal in
      record {
        journal = c;
        has = j.has;
        serial = j.serial;
        oldest = omega (arith, j.keeps.oldest);
        lower = omega (arith, j.keeps.latest);
        upper = omega (arith, j.keeps.latest);
        above = λ s d e. ground (arith, j.keeps.entry s, e);
        entries = Permᴰ.trans (Permᴰ.append-nil c.deltas) (
            Perm-lookup c.deltas (numbered (base + 1) hist) j.keeps.distinct
              (numbered-Distinct (base + 1) hist)
              (λ s.
                let i : s - (base + 1) ≡ s - base - 1 = omega arith in
                j.keeps.entry s
                ∙ sym (
                    lookup-numbered (base + 1) hist s
                    ∙ rw i (
                        ground (
                          arith,
                          j.keeps.latest,
                          j.keeps.oldest,
                          get_elem?-beyond hist (s - base - 1),
                        )))));
      }
