-- ===== src/Notify.antt =====
-- notify.go: NOTIFY messages to the secondaries.
use contractdb.Base.{ℕ, Option, none, some, List, Bytes, map, ◌==◌, if◌then◌else◌}
use contractdb.Dns.{Msg, new_msg}
use contractdb.Dns.Kind
use contractdb.Dns.Opcode
use contractdb.Dns.Rcode
use contractdb.Auth.{HmacProvider}

-- What the program calls of a DNS client: the methods SetQuestion and SetTsig of a message, with the
-- name of the key, and Exchange with a provider and an address; `none` is an error.
pub record ClientLib : Type 0 where
  pub set_question : Msg → Bytes → ℕ → Msg
  pub set_tsig : Msg → Bytes → Msg
  pub exchange : Option HmacProvider → Msg → Bytes → Option Msg

-- What SendNotify returns: nothing, or one of two errors.
pub data Notified : Type 0 where
  acknowledged : Notified
  no_answer : Notified
  answered : ℕ → Notified

module _ (client : ClientLib) where
  -- The message; the model of a message has no RecursionDesired bit.
  unfoldable pub notify_message : Bytes → Msg
  notify_message zone = record (client.set_question new_msg zone Kind.soa) {
    opcode = Opcode.notify;
  }

  unfoldable pub send_notify : Bytes → Bytes → Notified
  unfolding notify_message
  send_notify addr zone = elim (client.exchange none (notify_message zone) addr) [
    | none ↦ no_answer
    | some resp ↦ if resp.rcode == Rcode.success then acknowledged else answered resp.rcode
  ]

  -- What each goroutine of NotifyAll gets, in the order of the addresses; the errors are logged.
  unfoldable pub notify_all : List Bytes → Bytes → List Notified
  unfolding send_notify
  notify_all addrs zone = map (λ addr. send_notify addr zone) addrs
