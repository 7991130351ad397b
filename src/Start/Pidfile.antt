-- ===== src/Start/Pidfile.antt =====
-- The pidfile of main.go and the commands status and stop.
use contractdb.Base.{ℕ, Bool, true, false, Option, none, some, [], Bytes, is_empty, if◌then◌else◌}
use contractdb.Assoc.{lookup, remove, bytes_key}
use contractdb.Text.Space.{trim_space}
use contractdb.Text.Decimal.{ℤ, itoa, atoi}
use contractdb.Dnssec.Keys.{Files}
use contractdb.Doh.Certificate.{write_file}
use contractdb.Start.{FileConfig}
use contractdb.Start.Commands.{status_addr, stop_pidfile}
use contractdb.Start.Server.{Server}

-- The files, and the variable `pidfilePath`.
pub record Process : Type 0 where
  pub files : Files
  pub pidfile_path : Bytes

-- os.ReadFile
unfoldable pub read_file : Files → Bytes → Option Bytes
read_file files path = if files.unreadable path then none else lookup path files.held

-- os.Remove, for a predicate on the files that may be removed
abbrev pub remove_file : (Bytes → Bool) → Files → Bytes → Files
remove_file removable files path =
    if removable path then record files { held = remove path files.held } else files

-- A failing write is logged only.
unfoldable pub write_pidfile : ℕ → Process → Bytes → Process
write_pidfile pid p path =
    if is_empty path
    then p
    else record { files = (write_file p.files path (itoa pid)).1; pidfile_path = path }

unfoldable pub remove_pidfile : (Bytes → Bool) → Process → Process
remove_pidfile removable p =
    if is_empty p.pidfile_path
    then p
    else record { files = remove_file removable p.files p.pidfile_path; pidfile_path = [] }

-- The process `pid` while it serves
unfoldable pub serving : {D : Type 0} → ℕ → Server D → Process
unfolding write_pidfile
serving pid srv = write_pidfile pid (record { files = srv.files; pidfile_path = [] }) srv.pidfile

-- Its end, when Serve returns, without an error or with one: whether it ends well.
unfoldable pub end_of : {D : Type 0} → (Bytes → Bool) → ℕ → Server D → Bool → Bool × Process
unfolding serving remove_pidfile
end_of removable pid srv failed =
    if failed
    then (false, remove_pidfile removable (serving pid srv))
    else (true, remove_pidfile removable (serving pid srv))

-- cmdStatus: the address that answers, if it does
unfoldable pub cmd_status : (Bytes → Bool) → FileConfig → Option Bytes
unfolding status_addr
cmd_status dial fc = if dial (status_addr fc) then some (status_addr fc) else none

-- How cmdStop ends.
pub data Stop : Type 0 where
  no_pidfile bad_pidfile : Stop
  not_sent : ℤ → Stop
  sent : ℤ → Stop

abbrev send_signal : (ℤ → Bool) → Option ℤ → Stop
send_signal kill none = bad_pidfile
send_signal kill (some pid) = if kill pid then sent pid else not_sent pid

-- `kill` tells whether SIGTERM can be sent to a process; what is read of the pidfile
unfoldable pub stop_on : (ℤ → Bool) → Option Bytes → Stop
stop_on kill none = no_pidfile
stop_on kill (some text) = send_signal kill (atoi (trim_space text))

unfoldable pub cmd_stop : (ℤ → Bool) → Files → FileConfig → Stop
unfolding read_file stop_pidfile stop_on
cmd_stop kill files fc = stop_on kill (read_file files (stop_pidfile fc))
