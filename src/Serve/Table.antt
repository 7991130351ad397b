-- ===== src/Serve/Table.antt =====
-- The table of the sample store under the messages of ServeDNS.
use mathlib.Core.Option.{some-injective}
use contractdb.Base.{
  ℕ, List, [], ◌∷◌, Bytes, ◌≡◌, inl, inr, refl, sym, subst, arith, Bool-cases, ◌==◌,
}
use contractdb.Assoc.{bytes_key, Distinct, insert-Distinct, remove-Distinct}
use contractdb.Dns.{Msg, Question}
use contractdb.Dns.Opcode
use contractdb.Store.Sample.{SampleStore, sample_ops, sample_writer, sample_put, sample_delete}
use contractdb.Handler.{Handler, Env, ResponseWriter, tsig_valid, count_refused}
use contractdb.Update.{Insertion, Updated, write, process_update, handle_update}
use contractdb.Update.Atomic.{Atomically, untouched, applied, process_update-Atomically}
use contractdb.Update.Effects.{sample_FailsClean}
use contractdb.Serve.{serve_dns, count_query}
use contractdb.Serve.Policy.{serve_dns_query}
use contractdb.Serve.Reachable.{Reaches, start, serve, serve_question-update}

-- Every key stands once in the table, as in a map.
abbrev pub IsTable : Handler SampleStore → Type 0
IsTable h = Distinct h.store.items

module _ (env : Env) where
  write-Distinct :
      (s : SampleStore) (key : Bytes) (inserts : List Insertion)
      → Distinct s.items
      → Distinct (write env sample_ops sample_writer s key inserts).1.items
  unfolding write sample_put sample_delete
  write-Distinct s key [] d = remove-Distinct key s.items d
  write-Distinct s key (ins ∷ rest) d = insert-Distinct ins.pk ins.item s.items d

  Atomically-IsTable :
      (h : Handler SampleStore) (req : Msg) (u : Updated SampleStore)
      → Atomically env sample_ops h req u
      → IsTable h
      → IsTable u.handler
  Atomically-IsTable h req u (untouched same) d = subst IsTable (sym same.handler) d
  Atomically-IsTable h req u (applied writer deletes inserts key w p k done) d =
      subst (λ (s : SampleStore). Distinct s.items) (sym done.store)
        (subst (λ wr. Distinct (write env sample_ops wr h.store key inserts).1.items)
          (some-injective _ _ w) (write-Distinct h.store key inserts d))

  handle_update-IsTable :
      (h : Handler SampleStore) (w : ResponseWriter) (req : Msg)
      → IsTable h
      → IsTable (handle_update env sample_ops h w req).0
  unfolding handle_update count_refused
  handle_update-IsTable h w req d = elim (Bool-cases (tsig_valid env.lib h w req)) [
    | inl valid ↦ rw valid (
        Atomically-IsTable h req (process_update env sample_ops h req)
          (process_update-Atomically env sample_ops h req sample_FailsClean) d)
    | inr invalid ↦ rw invalid d
  ]

  update-IsTable :
      (h : Handler SampleStore) (w : ResponseWriter) (req : Msg) (qs : List Question)
      → req.question ≡ qs
      → req.opcode ≡ Opcode.update
      → IsTable h
      → IsTable (serve_dns env sample_ops h w req).handler
  unfolding serve_dns
  update-IsTable h w req [] e up d = rw (e, serve_dns) d
  update-IsTable h w req (q ∷ qs) e up d =
      rw
        (
          e,
          serve_dns,
          serve_question-update env sample_ops sample_FailsClean (count_query h) w req q up,
        )
        (handle_update-IsTable (count_query h) w req d)

  pub serve_dns-IsTable :
      (h : Handler SampleStore) (w : ResponseWriter) (req : Msg)
      → IsTable h
      → IsTable (serve_dns env sample_ops h w req).handler
  serve_dns-IsTable h w req d = elim (Bool-cases (req.opcode == Opcode.update)) [
    | inl up ↦ update-IsTable h w req req.question refl (ground arith) d
    | inr other ↦
        let (same, _) = serve_dns_query env sample_ops h w req (ground arith) in
        subst (λ (s : SampleStore). Distinct s.items) (sym same.store) d
  ]

  -- Whatever messages a server of the sample store takes, every key stands once in its table if it
  -- did so at the start.
  pub Reaches-IsTable :
      (h h' : Handler SampleStore) (n : ℕ) → Reaches env sample_ops h n h' → IsTable h → IsTable h'
  Reaches-IsTable h h' n (start _) d = d
  Reaches-IsTable h h' n (serve _ h'' n' w req r) d =
      serve_dns-IsTable h'' w req (Reaches-IsTable h h'' n' r d)
