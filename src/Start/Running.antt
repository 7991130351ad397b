-- ===== src/Start/Running.antt =====
-- The server that a run of cmdServe serves.
use contractdb.Base.{
  ℕ, ◌+◌, ◌%◌, ◌<◌, ◌≤◌, length, true, false, ◌&&◌, not, Option, none, some, List, [], Bytes, codes,
  bytes_eq, bytes_eq_iff, ◌≡◌, ◌≢◌, ◌⊎◌, inl, inr, refl, sym, ap, subst, ◌∙◌, arith, Bool-cases,
  Option-cases,
}
use contractdb.Dns.{Msg}
use contractdb.Text.{to_lower}
use contractdb.Journal.{Delta, u32_mod, new_mem_change_log}
use contractdb.Journal.Window.{Journals-new}
use contractdb.Auth.{HmacProvider, build_tsig}
use contractdb.Dnssec.Keys.{Files}
use contractdb.Handler.{Env, Handler}
use contractdb.Store.{Store, Writer}
use contractdb.Update.Atomic.{FailsClean}
use contractdb.Serve.Chronicle.{Chronicle}
use contractdb.Serve.Reachable.{Journaled, Reaches, Reaches-Journaled}
use contractdb.Start.{
  FileConfig, Flags, Settings, Exit, tls_failed, no_valid_key, Outcome, exits, done, pick,
}
use contractdb.Start.Configure.{tsig_required, configure}
use contractdb.Start.Checked.{passed, configure-IsChecked}
use contractdb.Start.Server.{
  AnyStore, is_set, World, Server, open_store, plain_handler, final_signer, tls_ready, with_signer,
  with_provider, start_server, cmd_serve,
}

Outcome-cases :
    {A : Type 0} (r : Outcome A) → ((e : Exit) × (r ≡ exits e)) ⊎ ((a : A) × (r ≡ done a))
Outcome-cases (exits e) = inl (e, refl)
Outcome-cases (done a) = inr (a, refl)

open_mode :
    (mode tsig : Bytes)
    → (mode ≡ codes "open") ⊎ ((mode ≡ tsig_required) × (tsig ≢ []))
    → bytes_eq mode tsig_required ≡ false
    → mode ≡ codes "open"
open_mode mode tsig (inl o) other = o
open_mode mode tsig (inr (r, keys)) other = absurd (ground (arith, bytes_eq_iff mode tsig_required))

module _ {D K : Type 0} (w : World D K) (fl : Flags) (fc : FileConfig) where
  -- How a server was made.
  pub record IsStarted (srv : Server D) : Type 0 where
    c : Settings
    configured : configure w.names w.parse_ip w.getenv fl fc ≡ done c
    store : AnyStore D
    provider : Option HmacProvider
    built : build_tsig w.names w.read_file c.tsig ≡ some provider
    signer : Option (ℕ → Msg → Msg → Msg)
    guarded :
        ((plain_handler w fl fc c store provider).auth_required
          && not ((plain_handler w fl fc c store provider).tsig_provider))
        ≡ false
    handler : srv.handler ≡ record (plain_handler w fl fc c store provider) { signer = signer }
    provided : srv.provider ≡ provider
    pub pidfile :
        srv.pidfile ≡ pick fl.pidfile (w.getenv (codes "CONTRACTDB_PIDFILE")) fc.pidfile []

  module _ (srv : Server D) (c : Settings) (store : AnyStore D)
      (provider : Option HmacProvider) where
    with_signer-done :
        (h : Handler (AnyStore D)) (opened : Option (Option (ℕ → Msg → Msg → Msg) × Files))
        → with_signer w fl fc c provider h opened ≡ done srv
        → (signer : Option (ℕ → Msg → Msg → Msg)) × (srv.handler ≡ record h { signer = signer })
          × (srv.provider ≡ provider)
          × (srv.pidfile ≡ pick fl.pidfile (w.getenv (codes "CONTRACTDB_PIDFILE")) fc.pidfile [])
    unfolding with_signer
    with_signer-done h none e = absurd (cc)
    with_signer-done h (some (signer, files)) e =
        let (ready, made) = passed (not (tls_ready w c files).0) tls_failed _ srv e in
        (signer, ground arith, ground arith, ground arith)

    with_provider-IsStarted :
        configure w.names w.parse_ip w.getenv fl fc ≡ done c
        → build_tsig w.names w.read_file c.tsig ≡ some provider
        → with_provider w fl fc c store (some provider) ≡ done srv
        → IsStarted srv
    unfolding with_provider
    with_provider-IsStarted configured built e =
        let h = plain_handler w fl fc c store provider in
        let (guarded, made) =
          passed (h.auth_required && not h.tsig_provider) no_valid_key _ srv e in
        let (signer, handler, provided, pidfile) =
          with_signer-done h (final_signer w fl fc c) made in
        record {
          c = c;
          configured = configured;
          store = store;
          provider = provider;
          built = built;
          signer = signer;
          guarded = guarded;
          handler = handler;
          provided = provided;
          pidfile = pidfile;
        }

  pub cmd_serve-IsStarted : (srv : Server D) → cmd_serve w fl fc ≡ done srv → IsStarted srv
  unfolding cmd_serve start_server
  cmd_serve-IsStarted srv e = elim (Outcome-cases (configure w.names w.parse_ip w.getenv fl fc)) [
    | inl (x, f) ↦ absurd (ground (arith, f))
    | inr (c, f) ↦ elim (Outcome-cases (open_store w c)) [
      | inl (x, g) ↦ absurd (ground (arith, f, g))
      | inr (store, g) ↦
          let step : with_provider w fl fc c store (build_tsig w.names w.read_file c.tsig)
              ≡ done srv =
            ground (arith, f, g) in
          elim (Option-cases (build_tsig w.names w.read_file c.tsig)) [
            | inl b ↦
                absurd
                  (ground (arith, subst (λ r. with_provider w fl fc c store r ≡ done srv) b step))
            | inr (provider, b) ↦
                with_provider-IsStarted srv c store provider f b
                  (subst (λ r. with_provider w fl fc c store r ≡ done srv) b step)
          ]
    ]
  ]

  -- The server starts with an empty journal at its serial, so that what holds of a handler with a
  -- journal holds of it.
  cmd_serve-Journaled :
      (srv : Server D)
      → cmd_serve w fl fc ≡ done srv
      → w.unix_time % u32_mod + 1 < u32_mod
      → Journaled (w.unix_time % u32_mod) [] srv.handler
  unfolding plain_handler
  cmd_serve-Journaled srv e room =
      let st = cmd_serve-IsStarted srv e in
      record {
        journal = new_mem_change_log (w.unix_time % u32_mod);
        has = ap (λ h. h.changelog) st.handler;
        serial = omega (arith, ap (λ h. h.serial) st.handler);
        keeps = Journals-new (w.unix_time % u32_mod) room;
      }

  -- However many messages a server takes from its start on: with a store whose failed writes change
  -- nothing, and as long as the serials do not wrap, its journal keeps the end of a history of at
  -- most one delta for each message, and its serial is that of the last. The history tells the writes
  -- that were made in the store since the start: for each successful Put or Delete, in order, one
  -- delta, which removes the records of the item that Get found and adds the records of all the
  -- insertions of the update, and none for anything else.
  pub cmd_serve-Reaches :
      (env : Env) (ops : Store (AnyStore D))
      (clean : (writer : Writer (AnyStore D)) → ops.writer ≡ some writer → FailsClean writer)
      (srv : Server D) (h : Handler (AnyStore D)) (n : ℕ)
      → cmd_serve w fl fc ≡ done srv
      → Reaches env ops srv.handler n h
      → w.unix_time % u32_mod + n + 1 < u32_mod
      → (hist : List Delta) × (length hist ≤ n)
        × Journaled (w.unix_time % u32_mod) hist h
        × Chronicle env ops srv.handler hist h
  cmd_serve-Reaches env ops clean srv h n e reach room =
      Reaches-Journaled env ops clean (w.unix_time % u32_mod) [] srv.handler h n reach
        (cmd_serve-Journaled srv e (omega arith)) (omega arith)

  -- A server that demands TSIG has a provider, the one that buildTSIG makes of the configured keys; a
  -- server that does not demand it is in open mode. The zone of the server is in lower case. The TTL of
  -- the file must fit 32 bits.
  pub cmd_serve-IsGuarded :
      (srv : Server D)
      → fc.ttl < u32_mod
      → cmd_serve w fl fc ≡ done srv
      → (to_lower srv.handler.cfg.zone ≡ srv.handler.cfg.zone)
        × (c : Settings) × (configure w.names w.parse_ip w.getenv fl fc ≡ done c)
        × ((srv.handler.auth_required ≡ false) × (c.auth_mode ≡ codes "open")
            ⊎ (p : HmacProvider) × (srv.handler.auth_required ≡ true)
              × (srv.handler.tsig_provider ≡ true)
              × (srv.provider ≡ some p)
              × (build_tsig w.names w.read_file c.tsig ≡ some (some p)))
  unfolding plain_handler
  cmd_serve-IsGuarded srv small e =
      let st = cmd_serve-IsStarted srv e in
      let checked =
        configure-IsChecked w.names w.parse_ip w.getenv fl fc st.c small st.configured in
      let at : srv.handler.auth_required ≡ bytes_eq st.c.auth_mode tsig_required =
        ap (λ h. h.auth_required) st.handler in
      (
        ap (λ h. to_lower h.cfg.zone) st.handler
            ∙ checked.lower
            ∙ sym (ap (λ h. h.cfg.zone) st.handler),
        st.c,
        st.configured,
        elim (Bool-cases (bytes_eq st.c.auth_mode tsig_required)) [
          | inr other ↦ inl (at ∙ other, open_mode st.c.auth_mode st.c.tsig checked.auth other)
          | inl required ↦ elim (Option-cases st.provider) [
            | inl none_built ↦ absurd (ground (arith, st.guarded, none_built, required))
            | inr (p, one) ↦ inr (
              p,
              at ∙ required,
              ap (λ h. h.tsig_provider) st.handler ∙ ap is_set one,
              st.provided ∙ one,
              st.built ∙ ap some one,
            )
          ]
        ],
      )
