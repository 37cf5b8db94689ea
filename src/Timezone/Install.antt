-- ===== src/Timezone/Install.antt =====
-- The two commands as `system_install_timezone_set_command` installs them.
use ops_sysd.Base.{
  ◌+◌, ◌<◌, ◌≤◌, ◌≡◌, refl, true, List, ◌++◌, some, length, All, length-append, take_whole,
  drop_all, arith,
}
use mathlib.Core.List.{append-nil}
use ops_sysd.Base.Cstring.{strcat-fits}
use ops_sysd.Base.Text.{Bytes, codes}
use ops_sysd.Base.Outcome.{ok}
use ops_sysd.Timezone.Zones.{posix_dir, base_path, Menu, max_timezone_cmd_size, no_zones, Entries}
use ops_sysd.Timezone.Tables.{extend, HasTable}
use ops_sysd.Timezone.Walk.{
  zones, HasShortPaths, Lacks, HasRoom, cmd_of, help_of, find_posix_timezones-zones,
}
use ops_sysd.Timezone.Commands.{
  timezone_str, timezone_set_str, Blocks, overwrite, install_timezone_set_command,
}

-- What the walk starts from.
abbrev pub start_menu : Menu
start_menu = record {
  db = no_zones;
  cmd = codes "timezone set (";
  help = timezone_str ++ timezone_set_str;
}

abbrev pub all_blocks : Blocks
all_blocks = record { cmd = true; help = true; cmd_no_form = true; help_no_form = true }

start_menu-HasTable : HasTable start_menu
start_menu-HasTable = record { counted = refl; within = omega arith; fits = tt; lowered = refl }

overwrite_longer : (dst src : Bytes) → length dst ≤ length src → overwrite dst src ≡ src
overwrite_longer dst src h = rw (drop_all dst (length src) h) (append-nil src)

abbrev pub command_of : List Bytes → Bytes
command_of zs = codes "timezone set (" ++ cmd_of zs ++ codes ")"

abbrev pub doc_of : List Bytes → Bytes
doc_of zs = timezone_str ++ timezone_set_str ++ help_of zs

-- With all four blocks, on empty tables: if every path of the walk has room in its array, the path of
-- the directory does not stand in a name once more, and tables and texts have room for the names and
-- for what stands around them, the commands are "timezone set (", the names with a bar behind each, ")",
-- and the same behind "no ". Both have the same help, that of the first command with a line for each
-- zone: the help text of "no" itself is written over, if it is no longer than the lines of the zones.
pub install_timezone_set_command-texts :
    (no_str : Bytes) (tree : Entries)
    → HasShortPaths posix_dir tree
    → All (Lacks base_path) (zones tree)
    → HasRoom (zones tree) start_menu
    → length (cmd_of (zones tree)) + 18 < max_timezone_cmd_size
    → length no_str ≤ length (help_of (zones tree))
    → install_timezone_set_command all_blocks no_str tree no_zones
      ≡ ok (
          some (record {
            zones = extend (zones tree) no_zones;
            set = record { string = command_of (zones tree); doc = doc_of (zones tree) };
            set_no_form = record {
              string = codes "no " ++ command_of (zones tree);
              doc = doc_of (zones tree);
            };
          }))
unfolding install_timezone_set_command
install_timezone_set_command-texts no_str tree p l r c n =
    let zs = zones tree in
    let header = codes "timezone set (" in
    let docs = timezone_str ++ timezone_set_str in
    let k = length-append no_str docs in
    let h : length (no_str ++ docs) ≤ length (docs ++ help_of zs) = omega (arith, n, k) in
    let fits : length (no_str ++ docs) ≤ 89999 = omega (arith, n, k, r.help_fits) in
    let e = length-append (cmd_of zs) (codes ")") in
    rw
      (
        find_posix_timezones-zones tree start_menu p l start_menu-HasTable r,
        strcat-fits max_timezone_cmd_size (header ++ cmd_of zs) (codes ")") (omega (arith, c)),
        strcat-fits max_timezone_cmd_size (codes "no ") (header ++ cmd_of zs ++ codes ")")
            (omega (arith, c, e)),
        take_whole (no_str ++ docs) 89999 fits,
        overwrite_longer (no_str ++ docs) (docs ++ help_of zs) h,
      )
      refl
