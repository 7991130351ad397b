-- ===== src/Start/Stopping.antt =====
-- The server that stop ends.
use contractdb.Base.{
  ℕ, ◌^◌, ◌<◌, Bool, true, false, Option, none, some, [], Bytes, codes, ◌≡◌, ◌≢◌, refl, sym, ap,
  ◌∙◌, arith, bytes_eq_refl,
}
use contractdb.Assoc.{bytes_key, lookup-insert, lookup-remove}
use contractdb.Text.Decimal.{ℤ, pos, itoa, atoi-itoa, trim_space-itoa}
use contractdb.Dnssec.Keys.{Files}
use contractdb.Doh.Certificate.{write_file}
use contractdb.Start.{FileConfig, Flags, done, first_non_empty, pick}
use contractdb.Start.Commands.{stop_pidfile}
use contractdb.Start.Server.{World, Server, cmd_serve}
use contractdb.Start.Running.{cmd_serve-IsStarted}
use contractdb.Start.Pidfile.{
  read_file, write_pidfile, remove_pidfile, serving, end_of, no_pidfile, sent, stop_on, cmd_stop,
}

-- the pidfile of a running server
serving-read :
    {D : Type 0} (pid : ℕ) (srv : Server D)
    → srv.pidfile ≢ []
    → srv.files.writable srv.pidfile ≡ true
    → srv.files.unreadable srv.pidfile ≡ false
    → read_file (serving pid srv).files srv.pidfile ≡ some (itoa pid)
unfolding serving write_pidfile read_file write_file
serving-read pid srv named w r = ground (
  arith,
  named,
  w,
  r,
  lookup-insert srv.pidfile srv.pidfile (itoa pid) srv.files.held,
  bytes_eq_refl srv.pidfile,
)

-- nothing is left of it
end_of-read :
    {D : Type 0} (removable : Bytes → Bool) (pid : ℕ) (srv : Server D) (failed : Bool)
    → srv.pidfile ≢ []
    → removable srv.pidfile ≡ true
    → read_file (end_of removable pid srv failed).1.files srv.pidfile ≡ none
unfolding end_of serving write_pidfile remove_pidfile read_file
end_of-read removable pid srv failed named r = ground (
  arith,
  named,
  r,
  lookup-remove srv.pidfile srv.pidfile (write_file srv.files srv.pidfile (itoa pid)).1.held,
  bytes_eq_refl srv.pidfile,
)

configured_pidfile :
    {D K : Type 0} (w : World D K) (fl : Flags) (fc : FileConfig) (srv : Server D)
    → cmd_serve w fl fc ≡ done srv
    → fl.pidfile ≡ []
    → w.getenv (codes "CONTRACTDB_PIDFILE") ≡ []
    → fc.pidfile ≢ []
    → (srv.pidfile ≡ fc.pidfile) × (stop_pidfile fc ≡ fc.pidfile)
unfolding pick stop_pidfile first_non_empty
configured_pidfile w fl fc srv e flag var named = (
  ground (arith, (cmd_serve-IsStarted w fl fc srv e).pidfile, flag, var, named),
  ground (arith, named),
)

-- what stop makes of the text that it reads
stopped :
    (kill : ℤ → Bool) (files : Files) (fc : FileConfig) (path : Bytes) (read : Option Bytes)
    → path ≡ stop_pidfile fc
    → read_file files path ≡ read
    → cmd_stop kill files fc ≡ stop_on kill read
unfolding cmd_stop
stopped kill files fc path read e r =
    ap (λ p. stop_on kill (read_file files p)) (sym e) ∙ ap (stop_on kill) r

-- A server is configured with a pidfile in the file alone, neither by the flag nor in the environment, and
-- the pidfile can be read, written and removed. While the server runs, the command stop with the same
-- file sends SIGTERM to exactly the process of the server, if the signal can be sent; when the server has
-- ended, with an error or without, stop finds no pidfile. The process ID fits 63 bits.
pub cmd_stop-serving :
    {D K : Type 0} (w : World D K) (fl : Flags) (fc : FileConfig) (srv : Server D) (pid : ℕ)
    (kill : ℤ → Bool) (removable : Bytes → Bool) (failed : Bool)
    → cmd_serve w fl fc ≡ done srv
    → fl.pidfile ≡ []
    → w.getenv (codes "CONTRACTDB_PIDFILE") ≡ []
    → fc.pidfile ≢ []
    → srv.files.writable srv.pidfile ≡ true
    → srv.files.unreadable srv.pidfile ≡ false
    → removable srv.pidfile ≡ true
    → pid < 2 ^ 63
    → kill (pos pid) ≡ true
    → (cmd_stop kill (serving pid srv).files fc ≡ sent (pos pid))
      × (cmd_stop kill (end_of removable pid srv failed).1.files fc ≡ no_pidfile)
unfolding stop_on
cmd_stop-serving w fl fc srv pid kill removable failed e flag var named writable readable removes
      small kills =
    let (own, its) = configured_pidfile w fl fc srv e flag var named in
    let named' : srv.pidfile ≢ [] = λ none_named. named (sym own ∙ none_named) in
    (
      stopped kill (serving pid srv).files fc srv.pidfile (some (itoa pid)) (own ∙ sym its)
            (serving-read pid srv named' writable readable)
          ∙ rw (trim_space-itoa pid, atoi-itoa pid small, kills) refl,
      stopped kill (end_of removable pid srv failed).1.files fc srv.pidfile none (own ∙ sym its)
          (end_of-read removable pid srv failed named' removes),
    )
