-- ===== src/Release.antt =====
-- src/sysd_ovsdb_if.c `sysd_update_sw_info`: the columns software_info and switch_version of the
-- System row from the lines of the release file.
pub mod Laws
pub mod Document
mod Examples
use ops_sysd.Base.{
  ℕ, Bool, true, false, not, ◌&&◌, ◌||◌, List, [], ◌∷◌, ◌++◌, Option, none, some, ◌==◌, ltb, leb,
  if◌then◌else◌, take,
}
use ops_sysd.Base.Text.{Bytes, codes, str_eq}

abbrev pub os_release_name : Bytes
os_release_name = codes "NAME"

abbrev pub os_release_build_name : Bytes
os_release_build_name = codes "BUILD_ID"

abbrev pub os_release_version_name : Bytes
os_release_version_name = codes "VERSION_ID"

abbrev pub nstr : ℕ
nstr = 80

abbrev pub is_empty : Bytes → Bool
is_empty [] = true
is_empty (c ∷ cs) = false

-- isspace of the C locale
abbrev pub is_space : ℕ → Bool
is_space c = (c == 32) || (leb 9 c && leb c 13)

-- strchr(line, '='): the name in front of it and the value behind it
abbrev pub prepend : ℕ → Option (Bytes × Bytes) → Option (Bytes × Bytes)
prepend c none = none
prepend c (some (name, value)) = some (c ∷ name, value)

unfoldable pub split_line : Bytes → Option (Bytes × Bytes)
split_line [] = none
split_line (c ∷ cs) = if c == 61 then some ([], cs) else prepend c (split_line cs)

-- The loop from the end of the value to its last byte that is no space.
unfoldable pub trim_end : Bytes → Bytes
trim_end [] = []
trim_end (c ∷ cs) = let rest = trim_end cs in if is_space c && is_empty rest then [] else c ∷ rest

abbrev trim_value : Option (Bytes × Bytes) → Option (Bytes × Bytes)
trim_value none = none
trim_value (some (name, value)) = some (name, trim_end value)

-- A line as it is taken apart; `none` is a line that is skipped.
unfoldable pub parse_line : Bytes → Option (Bytes × Bytes)
unfolding split_line trim_end
parse_line line = trim_value (split_line line)

-- The variables of the loop: the pairs added under SYSTEM_SOFTWARE_INFO_OS_NAME, and the arrays.
pub record Release : Type 0 where
  pub os_names : List Bytes
  pub version_id : Bytes
  pub build_id : Bytes

-- strncpy(array, value, NSTR - 1) and the NUL behind it
abbrev pub fit : Bytes → Bytes
fit value = take 79 value

unfoldable pub take_pair : Option (Bytes × Bytes) → Release → Release
take_pair none r = r
take_pair (some (name, value)) r =
    if str_eq name os_release_name && not (is_empty value)
    then record r { os_names = r.os_names ++ value ∷ [] }
    else if str_eq name os_release_version_name
    then record r { version_id = fit value }
    else if str_eq name os_release_build_name
    then record r { build_id = fit value }
    else r

-- while (getline(...) != -1)
unfoldable pub read_lines : List Bytes → Release → Release
unfolding take_pair parse_line
read_lines [] r = r
read_lines (line ∷ lines) r = read_lines lines (take_pair (parse_line line) r)

-- The two columns; software_info holds the values under the one key that is written.
pub record SoftwareColumns : Type 0 where
  pub software_info : Option (List Bytes)
  pub switch_version : Option Bytes

-- snprintf(build_str, NSTR, "%s (Build: %s)", version_id, build_id)
abbrev pub build_str : Bytes → Bytes → Bytes
build_str version_id build_id =
    take 79 (version_id ++ (codes " (Build: " ++ (build_id ++ codes ")")))

abbrev pub set_software_info : List Bytes → SoftwareColumns → SoftwareColumns
set_software_info [] c = c
set_software_info (n ∷ ns) c = record c { software_info = some (n ∷ ns) }

unfoldable pub set_columns : Release → SoftwareColumns → SoftwareColumns
set_columns r c =
    let c' = set_software_info r.os_names c in
    if not (is_empty r.build_id) && not (is_empty r.version_id)
    then record c' { switch_version = some (build_str r.version_id r.build_id) }
    else c'

abbrev pub no_release : Release
no_release = record { os_names = []; version_id = []; build_id = [] }

-- `sysd_update_sw_info`; `none` is a file that cannot be opened
unfoldable pub update_sw_info : Option (List Bytes) → SoftwareColumns → SoftwareColumns
unfolding read_lines set_columns
update_sw_info none c = c
update_sw_info (some lines) c = set_columns (read_lines lines no_release) c
