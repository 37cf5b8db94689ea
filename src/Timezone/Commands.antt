-- ===== src/Timezone/Commands.antt =====
-- The commands "timezone set" and "no timezone set" on the timezone column of the System row, their
-- installation, and the two callbacks that print the column with the running configuration
-- (src/cli/system_vty.c, src/cli/vtysh_ovsdb_system_context.c).
use ops_sysd.Base.{
  ℕ, ◌+◌, ◌-◌, Bool, true, false, not, ◌&&◌, List, [], ◌∷◌, ◌++◌, Option, none, some, if◌then◌else◌,
  length, take, drop, get_elem?,
}
use ops_sysd.Base.Cstring.{strcat, strcpy}
use ops_sysd.Base.Text.{Bytes, codes, str_eq}
use ops_sysd.Base.Outcome.{Outcome, ok, fault, ◌>>=◌}
use ops_sysd.Timezone.Zones.{
  max_timezone_cmd_size, lower, posix_dir, ZoneDb, Entries, find_posix_timezones,
}

abbrev pub timezone_str : Bytes
timezone_str = codes "Timezone information\n"

abbrev pub timezone_set_str : Bytes
timezone_set_str = codes "Sets Timezone configuration\n"

abbrev pub default_timezone : Bytes
default_timezone = codes "utc"

-- A command as vtysh takes it.
pub record CmdElement : Type 0 where
  pub string : Bytes
  pub doc : Bytes

-- The tables and the two commands that `install_element` is given.
pub record Installed : Type 0 where
  pub zones : ZoneDb
  pub set : CmdElement
  pub set_no_form : CmdElement

-- strncpy into a block of zeroes, with the size of the block minus one as the bound
abbrev pub strncpy_max : Bytes → Bytes
strncpy_max src = take (max_timezone_cmd_size - 1) src

-- strncpy(dst, src, strlen(src)): no NUL is written, so that the end of a longer text stays.
abbrev pub overwrite : Bytes → Bytes → Bytes
overwrite dst src = src ++ drop (length src) dst

-- The four blocks that calloc gives, or not, in the order of the calls.
pub record Blocks : Type 0 where
  pub cmd : Bool
  pub help : Bool
  pub cmd_no_form : Bool
  pub help_no_form : Bool

-- `system_install_timezone_set_command`. A block that is missing is written to, unless all are.
unfoldable pub install_timezone_set_command :
    Blocks → (no_str : Bytes) → Entries → ZoneDb → Outcome (Option Installed)
unfolding find_posix_timezones
install_timezone_set_command b no_str tree db =
    if not b.cmd && not b.help && not b.cmd_no_form && not b.help_no_form
    then ok none
    else if not (b.cmd && b.help && b.cmd_no_form && b.help_no_form)
    then fault
    else do
      m ← find_posix_timezones posix_dir tree (record {
        db = db;
        cmd = strncpy_max (codes "timezone set (");
        help = strncpy_max (timezone_str ++ timezone_set_str);
      })
      cmd ← strcat max_timezone_cmd_size m.cmd (codes ")")
      cmd_no_form ← strcat max_timezone_cmd_size (strncpy_max (codes "no ")) cmd
      ok (
          some (record {
            zones = m.db;
            set = record { string = cmd; doc = m.help };
            set_no_form = record {
              string = cmd_no_form;
              doc = overwrite (strncpy_max (no_str ++ (timezone_str ++ timezone_set_str))) m.help;
            };
          }))

-- The first row of a table that is a name.
unfoldable pub find_zone : List Bytes → ℕ → Bytes → Option ℕ
find_zone [] i name = none
find_zone (zone ∷ zones) i name = if str_eq zone name then some i else find_zone zones (i + 1) name

-- `translate_cmd_to_filepath`; `none` is its -1
unfoldable pub translate_cmd_to_filepath : ZoneDb → Bytes → Option ℕ
unfolding find_zone
translate_cmd_to_filepath db timezone_cmd =
    find_zone (take db.zone_count db.list_of_zones) 0 timezone_cmd

-- The results of a command, and the lines that it gives the user.
pub data CmdRc : Type 0 where
  cmd_success cmd_err_no_match : CmdRc

pub data Message : Type 0 where
  timezone_configured_is : Bytes → Message
  invalid_timezone : Message

-- The first System row, if there is one: its timezone column, which may be unset.
abbrev pub System : Type 0
System = Option (Option Bytes)

pub record Reply : Type 0 where
  pub rc : CmdRc
  pub output : List Message
  pub system : System

-- What is looked up; `none` is the refusal of a "no" form that names another zone.
abbrev pub choose : (from_ovsdb info : Bytes) → (no_flags : Bool) → Outcome (Option Bytes)
choose from_ovsdb info no_flags =
    if no_flags && str_eq (lower from_ovsdb) info
    then ok (some default_timezone)
    else if not no_flags
    then (strcpy 500 info >>= λ timezone_cmd. ok (some timezone_cmd))
    else ok none

unfoldable pub requested : Option Bytes → Bytes → Bool → Outcome (Option Bytes)
requested none info no_flags = ok (some default_timezone)
requested (some column) info no_flags = do
  from_ovsdb ← strcpy 100 column
  choose from_ovsdb info no_flags

-- ovsrec_system_set_timezone and the commit; `commits` tells if the transaction goes through.
unfoldable pub set_timezone : Bool → Option Bytes → Option Bytes → Outcome Reply
set_timezone commits column none = fault
set_timezone commits column (some zone) = do
  filepath ← strcat 500 posix_dir zone
  ok (record {
    rc = cmd_success;
    output = [];
    system = some (if commits then some zone else column);
  })

abbrev pub refuse : Message → Option Bytes → Reply
refuse message column = record {
  rc = cmd_err_no_match;
  output = message ∷ [];
  system = some column;
}

unfoldable pub apply_index : ZoneDb → Bool → Option Bytes → Option ℕ → Outcome Reply
unfolding set_timezone
apply_index db commits column none = ok (refuse invalid_timezone column)
apply_index db commits column (some i) =
    set_timezone commits column (get_elem? (take db.zone_count db.list_of_zones_caps) i)

unfoldable pub answer_request : ZoneDb → Bool → Option Bytes → Option Bytes → Outcome Reply
unfolding translate_cmd_to_filepath apply_index
answer_request db commits none none = fault
answer_request db commits (some column) none =
    ok (refuse (timezone_configured_is (lower column)) (some column))
answer_request db commits column (some cmd) =
    apply_index db commits column (translate_cmd_to_filepath db cmd)

-- `cli_set_timezone`; `starts` tells if a transaction could be created.
unfoldable pub cli_set_timezone :
    ZoneDb → (starts commits : Bool) → Bytes → (no_flags : Bool) → System → Outcome Reply
unfolding requested answer_request
cli_set_timezone db starts commits info no_flags none =
    ok (record { rc = cmd_success; output = []; system = none })
cli_set_timezone db starts commits info no_flags (some column) =
    if not starts
    then ok (record { rc = cmd_success; output = []; system = some column })
    else do request ← requested column info no_flags; answer_request db commits column request

-- The two commands.
unfoldable pub cli_platform_timezone_set :
    ZoneDb → (starts commits : Bool) → Bytes → System → Outcome Reply
unfolding cli_set_timezone
cli_platform_timezone_set db starts commits arg = cli_set_timezone db starts commits arg false

unfoldable pub cli_platform_timezone_set_no_form :
    ZoneDb → (starts commits : Bool) → Bytes → System → Outcome Reply
unfolding cli_set_timezone
cli_platform_timezone_set_no_form db starts commits arg =
    cli_set_timezone db starts commits arg true

-- `vtysh_config_context_timezone_callback` of src/cli/system_vty.c: the lines that it prints
unfoldable pub config_context_timezone : System → Outcome (List Bytes)
config_context_timezone none = ok []
config_context_timezone (some none) = ok []
config_context_timezone (some (some column)) = do
  timezone ← strcpy 200 column
  ok ((codes "timezone set " ++ lower timezone) ∷ [])

-- `vtysh_config_context_system_callback` of src/cli/vtysh_ovsdb_system_context.c
unfoldable pub config_context_system : System → Outcome (List Bytes)
config_context_system none = ok []
config_context_system (some none) = ok []
config_context_system (some (some column)) = do
  timezone ← strcpy 200 column
  ok ((codes "timezone set " ++ lower timezone) ∷ [])
