-- ===== src/Update/Concurrent/Logged.antt =====
-- What interleaved goroutines journal.
use mathlib.Core.List.{Permᴰ}
use mathlib.Core.List.Permᴰ
use mathlib.Core.Option
use contractdb.Base.{
  ℕ, suc, ◌+◌, ◌≤◌, ◌<◌, List, [], ◌∷◌, ◌++◌, length, length-append, map, ◌≡◌, refl, sym, ap, subst,
  arith, append_assoc,
}
use contractdb.Dns.{Rr}
use contractdb.Journal.{Delta, mem_change_log_cap, u32_mod, succ32, log_record}
use contractdb.Handler.{Handler, Config, Env}
use contractdb.Store.Sample.{SampleStore, sample_ops, sample_writer, sample_get}
use contractdb.Update.{old_rrs, insertion_rrs}
use contractdb.Update.Concurrent.{
  Job, Stage, reading, writing, counting, numbering, recording, finished, given_up, advance,
}
use contractdb.Update.Concurrent.Defs.{pending_of, waiting_of, changes_of, change_by}
use contractdb.Update.Concurrent.Entries.{length-Perm}
use contractdb.Update.Concurrent.Numbers.{Numbered, Numbered-same, number-Numbered, record-Numbered}
use contractdb.Update.Concurrent.Step.{write_done}

abbrev pub change_of : Delta → List Rr × List Rr
change_of d = (d.removed, d.added)

-- The goroutines have journalled the deltas `more` behind the history, those in `pend` as yet by number
-- only; with what waits for a number they are the changes.
pub record Logged (cfg : Config) (base : ℕ) (hist more : List Delta) (h : Handler SampleStore)
    (pend : List (ℕ × Delta)) (wait changes : List (List Rr × List Rr)) : Type 0 where
  pub config : h.cfg ≡ cfg
  pub numbered : Numbered base (hist ++ more) h pend
  pub changed : Permᴰ (map change_of more ++ wait) changes

-- Some deltas after a step
abbrev pub LoggedNext :
    Config
    → ℕ
    → List Delta
    → Handler SampleStore
    → List (ℕ × Delta)
    → List (List Rr × List Rr)
    → List (List Rr × List Rr)
    → Type 0
LoggedNext cfg base hist h pend wait changes =
    (more : List Delta) × Logged cfg base hist more h pend wait changes

map-snoc :
    (more : List Delta) (d : Delta) (wait : List (List Rr × List Rr))
    → map change_of (more ++ d ∷ []) ++ wait ≡ map change_of more ++ change_of d ∷ wait
map-snoc [] d wait = refl
map-snoc (x ∷ more) d wait = ap (λ l. change_of x ∷ l) (map-snoc more d wait)

pub length-map : (more : List Delta) → length (map change_of more) ≡ length more
length-map [] = refl
length-map (x ∷ more) = ap suc (length-map more)

-- There are no more deltas than changes.
pub Logged-few :
    (cfg : Config) (base : ℕ) (hist more : List Delta) (h : Handler SampleStore)
    (pend : List (ℕ × Delta)) (wait changes : List (List Rr × List Rr))
    → Logged cfg base hist more h pend wait changes
    → length more + length wait ≡ length changes
Logged-few cfg base hist more h pend wait changes l = omega (
  arith,
  length-map more,
  length-append (map change_of more) wait,
  length-Perm (map change_of more ++ wait) changes l.changed,
)

module _ (env : Env) (cfg : Config) (base : ℕ) (hist : List Delta) (n : ℕ)
    (fits : length hist + n ≤ mem_change_log_cap)
    (room : base + length hist + n + 1 < u32_mod) where
  pub advance-Logged :
      (h : Handler SampleStore) (job : Job) (stage : Stage) (more : List Delta)
      (pend : List (ℕ × Delta)) (wait changes : List (List Rr × List Rr))
      → length changes + 1 ≤ n
      → Logged cfg base hist more h
          (pending_of env cfg job stage ++ pend)
          (waiting_of env cfg job stage ++ wait)
          (changes_of env cfg job stage ++ changes)
      → LoggedNext cfg base hist
          (advance env sample_ops sample_writer h job stage).0
          (pending_of env cfg job (advance env sample_ops sample_writer h job stage).1 ++ pend)
          (waiting_of env cfg job (advance env sample_ops sample_writer h job stage).1 ++ wait)
          (changes_of env cfg job (advance env sample_ops sample_writer h job stage).1 ++ changes)
  unfolding advance sample_get
  advance-Logged h job reading more pend wait changes few l = (more, l)
  advance-Logged h job (writing old) more pend wait changes few l =
      rw (write_done env cfg h.store job.key job.inserts) (
        more,
        record {
          config = l.config;
          numbered =
              Numbered-same base (hist ++ more) h
                (advance env sample_ops sample_writer h job (writing old)).0 pend refl refl
                l.numbered;
          changed =
              Permᴰ.trans (Permᴰ.middle (change_by env cfg job old) (map change_of more) wait)
                (Permᴰ.cons refl l.changed);
        },
      )
  advance-Logged h job (counting old) more pend wait changes few l = (
    more,
    record {
      config = l.config;
      numbered =
          Numbered-same base (hist ++ more) h
            (advance env sample_ops sample_writer h job (counting old)).0 pend refl refl l.numbered;
      changed = l.changed;
    },
  )
  advance-Logged h job (numbering old) more pend wait changes few l =
      let d : Delta = record {
        serial = succ32 h.serial;
        removed = old_rrs env.json cfg job.key old;
        added = insertion_rrs env.json cfg job.inserts;
      } in
      let next : Handler SampleStore = record h { serial = succ32 h.serial } in
      let counted =
        Logged-few cfg base hist more h pend (change_by env cfg job old ∷ wait)
          (change_by env cfg job old ∷ changes) l in
      (
        more ++ d ∷ [],
        record {
          config = l.config;
          numbered =
              subst (λ ds. Numbered base ds next ((succ32 h.serial, d) ∷ pend))
                (append_assoc hist more (d ∷ []))
                (number-Numbered base (hist ++ more) h pend d
                  (omega (arith, counted, length-append hist more)) l.numbered);
          changed = rw (map-snoc more d wait) l.changed;
        },
      )
  advance-Logged h job (recording old s) more pend wait changes few l =
      let counted =
        Logged-few cfg base hist more h (pending_of env cfg job (recording old s) ++ pend) wait
          (change_by env cfg job old ∷ changes) l in
      (
        more,
        record {
          config = l.config;
          numbered =
              subst
                (λ g.
                  Numbered base (hist ++ more)
                    (record h {
                      changelog =
                          Option.map
                            (λ c.
                              log_record c s (old_rrs env.json g job.key old)
                                (insertion_rrs env.json g job.inserts))
                            h.changelog;
                    })
                    pend)
                (sym l.config)
                (record-Numbered base (hist ++ more) h pend s (old_rrs env.json cfg job.key old)
                  (insertion_rrs env.json cfg job.inserts)
                  (omega (arith, counted, length-append hist more)) l.numbered);
          changed = l.changed;
        },
      )
  advance-Logged h job (finished old s) more pend wait changes few l = (more, l)
  advance-Logged h job (given_up code) more pend wait changes few l = (more, l)
