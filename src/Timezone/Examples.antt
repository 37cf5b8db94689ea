-- ===== src/Timezone/Examples.antt =====
-- A small tree of zone files, and the theorems of this part at it.
use mathlib.Core.Bool.{true≢false}
use ops_sysd.Base.{
  ◌+◌, ◌<◌, ◌≤◌, ℕ, ◌≡◌, refl, [], ◌∷◌, ◌++◌, none, some, true, length, get_elem?, arith, All,
}
use ops_sysd.Base.Text.{Bytes, codes, str_eq}
use ops_sysd.Base.Outcome.{ok, Ensures}
use ops_sysd.Timezone.Zones.{
  max_timezone_cmd_size, lower, posix_dir, base_path, ZoneDb, no_zones, Menu, Entries, no_entry,
  file_entry, dir_entry, find_posix_timezones, starts_with,
}
use ops_sysd.Timezone.Commands.{
  default_timezone, cmd_success, install_timezone_set_command, cli_platform_timezone_set,
  cli_platform_timezone_set_no_form, config_context_timezone, config_context_system,
}
use ops_sysd.Timezone.Apply.{handle_timezone_update}
use ops_sysd.Timezone.Tables.{extend, IsTable, HasTable, find_posix_timezones-HasTable}
use ops_sysd.Timezone.Walk.{
  cmd_of, help_of, zones, grown, HasShortPaths, Lacks, HasRoom, find_posix_timezones-zones,
}
use ops_sysd.Timezone.Install.{
  start_menu, all_blocks, command_of, doc_of, install_timezone_set_command-texts,
}
use ops_sysd.Timezone.Setting.{
  cli_platform_timezone_set-stored, cli_platform_timezone_set_no_form-utc,
}

abbrev tree : Entries
tree = dir_entry (codes ".") no_entry (
    dir_entry (codes "Asia") (file_entry (codes "Tokyo") no_entry)
      (file_entry (codes "UTC") no_entry))

abbrev menu : Menu
menu = record { db = no_zones; cmd = codes "timezone set ("; help = codes "Timezone information\n" }

no_zones-IsTable : HasTable menu
no_zones-IsTable = record { counted = refl; within = omega arith; fits = tt; lowered = refl }

find_posix_timezones-HasTable_example : Ensures HasTable (find_posix_timezones posix_dir tree menu)
find_posix_timezones-HasTable_example =
    find_posix_timezones-HasTable posix_dir tree menu no_zones-IsTable

tree-HasShortPaths : HasShortPaths posix_dir tree
unfolding str_eq
tree-HasShortPaths = (
  omega arith,
  ((λ e. absurd (true≢false e)), (omega arith, ((λ e. (omega arith, tt)), (omega arith, tt)))),
)

tree-Lacks : All (Lacks base_path) (zones tree)
unfolding starts_with str_eq
tree-Lacks = (
  (refl, (refl, (refl, (refl, (refl, (refl, (refl, (refl, (refl, (refl, tt)))))))))),
  ((refl, (refl, (refl, tt))), tt),
)

tree-HasRoom : HasRoom (zones tree) menu
unfolding str_eq
tree-HasRoom = record {
  rows = omega arith;
  names = (omega arith, (omega arith, tt));
  help_fits = omega arith;
  cmd_fits = omega arith;
}

find_posix_timezones-zones_example :
    find_posix_timezones posix_dir tree menu ≡ ok (grown (zones tree) menu)
find_posix_timezones-zones_example =
    find_posix_timezones-zones tree menu tree-HasShortPaths tree-Lacks no_zones-IsTable tree-HasRoom

abbrev pub tables : ZoneDb
tables = record {
  list_of_zones = codes "asia/tokyo" ∷ codes "utc" ∷ [];
  list_of_zones_caps = codes "Asia/Tokyo" ∷ codes "UTC" ∷ [];
  zone_count = 2;
}

pub tables-IsTable : IsTable tables
tables-IsTable = record {
  counted = refl;
  within = omega arith;
  fits = (omega arith, (omega arith, tt));
  lowered = refl;
}

cli_platform_timezone_set-stored_example :
    (zone : Bytes) × (j : ℕ) × (get_elem? tables.list_of_zones_caps j ≡ some zone)
    × (cli_platform_timezone_set tables true true (codes "asia/tokyo") (some (some (codes "UTC")))
        ≡ ok (record { rc = cmd_success; output = []; system = some (some zone) }))
    × (config_context_timezone (some (some zone))
        ≡ ok ((codes "timezone set " ++ codes "asia/tokyo") ∷ []))
    × (config_context_system (some (some zone))
        ≡ ok ((codes "timezone set " ++ codes "asia/tokyo") ∷ []))
    × (handle_timezone_update true true (some (some zone)) none ≡ ok (some (base_path ++ zone)))
cli_platform_timezone_set-stored_example =
    cli_platform_timezone_set-stored tables true (codes "UTC") (codes "asia/tokyo") 0 none
      tables-IsTable (omega arith) refl

cli_platform_timezone_set_no_form-utc_example :
    (zone : Bytes) × (j : ℕ) × (get_elem? tables.list_of_zones_caps j ≡ some zone)
    × (lower zone ≡ default_timezone)
    × (cli_platform_timezone_set_no_form tables true true
          (lower (codes "Asia/Tokyo"))
          (some (some (codes "Asia/Tokyo")))
        ≡ ok (record { rc = cmd_success; output = []; system = some (some zone) }))
cli_platform_timezone_set_no_form-utc_example =
    cli_platform_timezone_set_no_form-utc tables (codes "Asia/Tokyo") 1 tables-IsTable (omega arith)
      refl

menu-HasRoom : HasRoom (zones tree) start_menu
unfolding str_eq
menu-HasRoom = record {
  rows = omega arith;
  names = (omega arith, (omega arith, tt));
  help_fits = omega arith;
  cmd_fits = omega arith;
}

abbrev no_str : Bytes
no_str = codes "Negate"

tree-texts :
    (length (cmd_of (zones tree)) + 18 < max_timezone_cmd_size)
    × (length no_str ≤ length (help_of (zones tree)))
unfolding str_eq
tree-texts = (omega arith, omega arith)

install_timezone_set_command-texts_example :
    install_timezone_set_command all_blocks no_str tree no_zones
    ≡ ok (
        some (record {
          zones = extend (zones tree) no_zones;
          set = record { string = command_of (zones tree); doc = doc_of (zones tree) };
          set_no_form = record {
            string = codes "no " ++ command_of (zones tree);
            doc = doc_of (zones tree);
          };
        }))
install_timezone_set_command-texts_example =
    install_timezone_set_command-texts no_str tree tree-HasShortPaths tree-Lacks menu-HasRoom
      tree-texts.0 tree-texts.1
