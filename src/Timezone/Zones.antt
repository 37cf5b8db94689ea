-- ===== src/Timezone/Zones.antt =====
-- The tables `list_of_zones` and `list_of_zones_caps`, filled from the tree of files below the
-- directory of the POSIX zones, and the texts of the two commands that accept the names in them.
use ops_sysd.Base.{
  ℕ, zero, suc, ◌+◌, ◌-◌, Bool, true, false, ◌&&◌, ◌||◌, List, [], ◌∷◌, ◌++◌, map, ltb, leb,
  if◌then◌else◌, length, take,
}
use ops_sysd.Base.Cstring.{strcat}
use ops_sysd.Base.Text.{Bytes, codes, str_eq}
use ops_sysd.Base.Outcome.{Outcome, ok, fault, ◌>>=◌}

abbrev pub max_timezones : ℕ
max_timezones = 900

abbrev pub max_timezone_name_size : ℕ
max_timezone_name_size = 100

-- MAX_TIMEZONES * MAX_TIMEZONE_NAME_SIZE, which is also the size of the help text
abbrev pub max_timezone_cmd_size : ℕ
max_timezone_cmd_size = 90000

-- The directory that is opened, and the static `base_path`, which has a slash at its end.
abbrev pub posix_dir : Bytes
posix_dir = codes "/usr/share/zoneinfo/posix"

abbrev pub base_path : Bytes
base_path = codes "/usr/share/zoneinfo/posix/"

-- tolower of the C locale
abbrev pub to_lower : ℕ → ℕ
to_lower c = if leb b'A' c && leb c b'Z' then c + 32 else c

abbrev pub lower : Bytes → Bytes
lower = map to_lower

-- The two arrays, up to `zone_count`.
pub record ZoneDb : Type 0 where
  pub list_of_zones : List Bytes
  pub list_of_zones_caps : List Bytes
  pub zone_count : ℕ

abbrev pub no_zones : ZoneDb
no_zones = record { list_of_zones = []; list_of_zones_caps = []; zone_count = 0 }

-- `populate_zone_db`: a row behind the last one, and a name with no room for its NUL, are faults.
unfoldable pub populate_zone_db : Bytes → Bytes → ZoneDb → Outcome ZoneDb
populate_zone_db zone zone_caps db =
    if ltb db.zone_count max_timezones
      && ltb (length zone) max_timezone_name_size
      && ltb (length zone_caps) max_timezone_name_size
    then ok (record {
      list_of_zones = take db.zone_count db.list_of_zones ++ zone ∷ [];
      list_of_zones_caps = take db.zone_count db.list_of_zones_caps ++ zone_caps ∷ [];
      zone_count = db.zone_count + 1;
    })
    else fault

-- The tables with the two texts that grow beside them.
pub record Menu : Type 0 where
  pub db : ZoneDb
  pub cmd : Bytes
  pub help : Bytes

-- `add_info_to_cmd_options`
unfoldable pub add_info_to_cmd_options : Bytes → Menu → Outcome Menu
unfolding populate_zone_db
add_info_to_cmd_options timezone m = do
  help ← strcat max_timezone_cmd_size m.help timezone
  help' ← strcat max_timezone_cmd_size help (codes " Zone \n")
  cmd ← strcat max_timezone_cmd_size m.cmd (lower timezone)
  cmd' ← strcat max_timezone_cmd_size cmd (codes " | ")
  db ← populate_zone_db (lower timezone) timezone m.db
  ok (record { db = db; cmd = cmd'; help = help' })

-- strncmp(s, base, strlen(base)) == 0
unfoldable pub starts_with : Bytes → Bytes → Bool
starts_with s [] = true
starts_with [] (b ∷ base) = false
starts_with (c ∷ s) (b ∷ base) = ltb c (b + 1) && ltb b (c + 1) && starts_with s base

-- `remove_base_path`: each search goes on where the last one found the base; `skip` bytes of the one
-- that was found are still to be dropped.
unfoldable pub remove_from : Bytes → (skip : ℕ) → Bytes → Bytes
remove_from base skip [] = []
remove_from base (suc skip) (c ∷ s) = remove_from base skip s
remove_from base zero (c ∷ s) = elim (starts_with (c ∷ s) base) [
  | true ↦ remove_from base (length base - 1) s
  | false ↦ c ∷ remove_from base zero s
]

unfoldable pub remove_base_path : Bytes → Bytes → Bytes
unfolding remove_from
remove_base_path full_path base = remove_from base zero full_path

-- What readdir gives for a directory, with what it gives for the directories in it. One that cannot
-- be opened reads like an empty one.
pub data Entries : Type 0 where
  no_entry : Entries
  file_entry : Bytes → Entries → Entries
  dir_entry : Bytes → Entries → Entries → Entries

abbrev pub join_path : Bytes → Bytes → Bytes
join_path name entry = name ++ (b'/' ∷ entry)

-- snprintf into `size` bytes with the bound size - 1, and a NUL stored at the length that the text
-- would have had
abbrev pub print_path : ℕ → Bytes → Outcome Bytes
print_path size text = if ltb (length text) size then ok (take (size - 2) text) else fault

abbrev pub is_dot : Bytes → Bool
is_dot name = str_eq name (codes ".") || str_eq name (codes "..")

-- `find_posix_timezones_and_add_to_list`
unfoldable pub find_posix_timezones : Bytes → Entries → Menu → Outcome Menu
unfolding add_info_to_cmd_options remove_base_path
find_posix_timezones name no_entry m = ok m
find_posix_timezones name (file_entry entry rest) m = do
  local_dir ← print_path 100 (join_path name entry)
  m' ← add_info_to_cmd_options (remove_base_path local_dir base_path) m
  find_posix_timezones name rest m'
find_posix_timezones name (dir_entry entry contents rest) m = do
  path ← print_path 1024 (join_path name entry)
  m' ← (if is_dot entry then ok m else find_posix_timezones path contents m)
  find_posix_timezones name rest m'
