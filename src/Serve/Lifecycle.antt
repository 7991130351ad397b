-- ===== src/Serve/Lifecycle.antt =====
-- Run and Serve of server.go: the options of a handler, its two listeners, and how serving ends.
use contractdb.Base.{ℕ, Bool, true, false, some, List, [], ◌∷◌, Bytes}
use contractdb.Dns.{Msg}
use contractdb.Handler.{Config, Handler, Network, udp, tcp, new_handler}
use contractdb.Serve.{WireHeader, AcceptAction, accept_func}

-- RunOption, by the function that makes it; a TSIG provider by whether it is set.
pub data RunOption : Type 0 where
  with_signer : (ℕ → Msg → Msg → Msg) → RunOption
  with_auth_required : RunOption
  with_tsig_provider : Bool → RunOption
  with_notifiees : List Bytes → RunOption

-- A dns.Server that is started.
pub record Listener : Type 0 where
  pub addr : Bytes
  pub network : Network
  pub tsig_provider : Bool
  pub accepts : WireHeader → AcceptAction

-- What the select of Serve receives first: a listener has ended, or the context is done.
pub data Event : Type 0 where
  listener_ended context_done : Event

module _ {S : Type 0} where
  unfoldable pub apply_option : Handler S → RunOption → Handler S
  apply_option h (with_signer sign) = record h { signer = some sign }
  apply_option h with_auth_required = record h { auth_required = true }
  apply_option h (with_tsig_provider set) = record h { tsig_provider = set }
  apply_option h (with_notifiees addrs) = record h { notifiees = addrs }

  unfoldable pub apply_options : Handler S → List RunOption → Handler S
  unfolding apply_option
  apply_options h [] = h
  apply_options h (o ∷ os) = apply_options (apply_option h o) os

  -- The handler that Run serves
  unfoldable pub run_handler : S → Config → List RunOption → Handler S
  unfolding apply_options
  run_handler store cfg opts = apply_options (new_handler store cfg) opts

  abbrev listener : Handler S → Bytes → Network → Listener
  listener h addr network = record {
    addr = addr;
    network = network;
    tsig_provider = h.tsig_provider;
    accepts = accept_func;
  }

  -- Serve: its listeners, and whether it returns nil
  unfoldable pub run_servers : Handler S → Bytes → Event → List Listener × Bool
  run_servers h addr event = (
    listener h addr udp ∷ listener h addr tcp ∷ [],
    elim event [ listener_ended ↦ false | context_done ↦ true ],
  )

  -- Run
  unfoldable pub run : S → Config → List RunOption → Bytes → Event → List Listener × Bool
  unfolding run_servers run_handler
  run store cfg opts addr event = run_servers (run_handler store cfg opts) addr event
