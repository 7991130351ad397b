-- ===== src/Start/Commands.antt =====
-- main.go: the choice of the command, and what the commands other than serve read of the configuration.
use contractdb.Base.{
  Bool, true, Option, none, some, List, [], ◌∷◌, Bytes, codes, bytes_eq, ◌≡◌, refl, if◌then◌else◌,
}
use contractdb.Text.{has_prefix}
use contractdb.Start.{FileConfig, first_non_empty}

pub data Command : Type 0 where
  init_cmd serve_cmd status_cmd stop_cmd healthcheck_cmd : Command

-- The switch of `main`; `none` is its usage error.
unfoldable pub command_named : Bytes → Option Command
unfolding bytes_eq
command_named cmd =
    if bytes_eq cmd (codes "init")
    then some init_cmd
    else if bytes_eq cmd (codes "serve")
    then some serve_cmd
    else if bytes_eq cmd (codes "status")
    then some status_cmd
    else if bytes_eq cmd (codes "stop")
    then some stop_cmd
    else if bytes_eq cmd (codes "healthcheck")
    then some healthcheck_cmd
    else none

-- The command of the arguments behind the program's name, and the arguments that are left for it.
unfoldable pub command_of : List Bytes → Option Command × List Bytes
unfolding command_named has_prefix
command_of [] = (command_named (codes "serve"), [])
command_of (arg ∷ args) =
    if has_prefix arg (codes "-")
    then (command_named (codes "serve"), arg ∷ args)
    else (command_named arg, args)

-- What cmdInit does: it does not overwrite a file. `none` is a fatal error; `write_file` tells whether
-- the sample configuration could be written.
unfoldable pub cmd_init : (Bytes → Bool) → (Bytes → Bool) → Option Bytes
cmd_init file_exists write_file =
    let path = codes "contractdb.toml" in
    if file_exists path then none else if write_file path then some path else none

-- The address that cmdStatus dials, and the pidfile that cmdStop reads.
unfoldable pub status_addr : FileConfig → Bytes
status_addr fc = first_non_empty (fc.listen ∷ codes ":53" ∷ [])

unfoldable pub stop_pidfile : FileConfig → Bytes
stop_pidfile fc = first_non_empty (fc.pidfile ∷ codes "contractdb.pid" ∷ [])

-- Arguments that begin with a flag are those of serve.
command_of-flags :
    (args : List Bytes) (flag : Bytes)
    → has_prefix flag (codes "-") ≡ true
    → command_of (flag ∷ args) ≡ (some serve_cmd, flag ∷ args)
unfolding command_of command_named bytes_eq
command_of-flags args flag h = rw h refl
