-- ===== src/Startup/Options.antt =====
-- `parse_options` of src/sysd.c, on what getopt_long gives of the command line.
use ops_sysd.Base.{List, [], ◌∷◌, ◌++◌, Option, some}
use ops_sysd.Base.Text.{Bytes, codes}

-- A result of getopt_long: --help, --unixctl with its argument, an option that the handlers of OVS
-- take, '?', or a value that no case has.
pub data Opt : Type 0 where
  help : Opt
  unixctl : Bytes → Opt
  handled : Opt
  unrecognised : Opt
  other : Opt

-- How it ends: in one of the exits, or with the socket of the database and the path for unixctl.
pub data Parsed : Type 0 where
  exit_success exit_failure aborted fatal : Parsed
  parsed : (socket : Bytes) → (unixctl_path : Option Bytes) → Parsed

-- The arguments that are no options
abbrev pub take_socket : (rundir : Bytes) → List Bytes → Option Bytes → Parsed
take_socket rundir [] path = parsed (codes "unix:" ++ (rundir ++ codes "/db.sock")) path
take_socket rundir (arg ∷ []) path = parsed arg path
take_socket rundir (arg ∷ arg' ∷ args) path = fatal

unfoldable pub parse_options : (rundir : Bytes) → List Opt → List Bytes → Option Bytes → Parsed
parse_options rundir [] args path = take_socket rundir args path
parse_options rundir (help ∷ opts) args path = exit_success
parse_options rundir (unixctl file ∷ opts) args path = parse_options rundir opts args (some file)
parse_options rundir (handled ∷ opts) args path = parse_options rundir opts args path
parse_options rundir (unrecognised ∷ opts) args path = exit_failure
parse_options rundir (other ∷ opts) args path = aborted
