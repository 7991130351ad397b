-- ===== src/Store/Demo.antt =====
-- sample.go: the data of demo mode, and the store that starts with it.
use contractdb.Base.{ℕ, zero, suc, String, some, List, [], ◌∷◌, ◌++◌, Bytes, codes}
use contractdb.Item.{
  Item, Value, string, float, array, object, Values, nil, cons, Fields, end, field,
}
use contractdb.Store.Sample.{SampleStore}

-- strings.Repeat
unfoldable pub repeat_text : ℕ → Bytes → Bytes
repeat_text zero s = []
repeat_text (suc n) s = s ++ repeat_text n s

abbrev text : String → Value
text s = string (codes s)

abbrev user : String → String → String → Fields → Item
user pk plan email more = some (
    field (codes "pk") (text pk)
      (field (codes "plan") (text plan) (field (codes "email") (text email) more)))

abbrev clauses : Values
clauses = cons (text "1. The Parties agree that DNS is a database protocol.") (
    cons (text "2. Queries over UDP exceeding 512 bytes shall set the truncate bit.") (
      cons (text "3. The receiving client may retry over TCP at its discretion.") (
        cons (string (repeat_text 60 (codes "4. This clause exists purely to force truncation. ")))
          nil)))

abbrev pub demo_items : List (Bytes × Item)
demo_items =
    (
      codes "user.alice",
      user "user.alice" "enterprise" "alice@example.com" (
          field (codes "limits")
            (object (
              field (codes "riCoverage") (float (codes "100"))
                (field (codes "dataTransferBudgetTb") (float (codes "42")) end)))
            end),
    )
    ∷ (codes "user.bob", user "user.bob" "free-tier" "bob@example.com" end)
    ∷ (codes "user.carol", user "user.carol" "enterprise" "carol@example.com" end)
    ∷ (
      codes "contract.nda-001",
      some (
          field (codes "pk") (text "contract.nda-001") (
            field (codes "parties") (array (cons (text "Alice LLC") (cons (text "Bob Corp") nil))) (
              field (codes "effective") (text "2026-01-15")
                (field (codes "clauses") (array clauses) end)))),
    )
    ∷ []

-- NewFullSampleStore
abbrev pub new_full_sample_store : List (Bytes × Bytes) → SampleStore
new_full_sample_store gsi_attrs = record { items = demo_items; gsis = gsi_attrs }
