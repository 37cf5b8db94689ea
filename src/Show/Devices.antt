-- ===== src/Show/Devices.antt =====
-- The fans, LEDs, power supplies and temperature sensors of "show system".
use mathlib.Core.List.{flatten}
use ops_sysd.Base.{ℕ, Bool, List, [], ◌∷◌, ◌++◌, Option, none, some, if◌then◌else◌, ◌==◌}
use ops_sysd.Base.Int.{ℤ}
use ops_sysd.Base.Printf.{pad_right, quotient}
use ops_sysd.Base.Text.{Bytes, codes, str_eq}
use ops_sysd.Base.Outcome.{Outcome, ok, fault, ◌>>=◌}
use ops_sysd.Configure.Interfaces.{Pairs}
use ops_sysd.Show.Info.{format_sys_output}
use ops_sysd.Show.Sorting.{strcmp, Qsort, sort_rows}
use ops_sysd.Timezone.Commands.{CmdRc, cmd_success}

pub record FanRow : Type 0 where
  pub name : Bytes
  pub speed : Bytes
  pub status : Bytes

pub record LedRow : Type 0 where
  pub id : Bytes
  pub state : Bytes
  pub status : Bytes

pub record PsuRow : Type 0 where
  pub name : Bytes
  pub status : Option Bytes

pub record SensorRow : Type 0 where
  pub location : Bytes
  pub name : Bytes
  pub temperature : ℤ

-- The columns of a row of the Subsystem table that are read; of the references only how many.
pub record SubsystemView : Type 0 where
  pub other_info : Pairs
  pub n_fans : ℕ
  pub n_leds : ℕ
  pub n_power_supplies : ℕ
  pub n_temp_sensors : ℕ

-- The database: the first rows of Subsystem and System (of which the switch version, that may be
-- NULL), and the tables of the devices, whoever refers to them.
pub record ShownTables : Type 0 where
  pub subsystem : Option SubsystemView
  pub switch_version : Option (Option Bytes)
  pub fans : List FanRow
  pub leds : List LedRow
  pub power_supplies : List PsuRow
  pub temp_sensors : List SensorRow

-- The names of the schema and of vtysh, and the end of a line on this terminal. `print_fixed` is %3.2f
-- of a whole number.
pub record VtyNames : Type 0 where
  pub newline : Bytes
  pub status_fault_absent : Bytes
  pub status_fault_input : Bytes
  pub status_fault_output : Bytes
  pub status_unknown : Bytes
  pub status_ok : Bytes
  pub fault_absent : Bytes
  pub fault_input : Bytes
  pub fault_output : Bytes
  pub unknown : Bytes
  pub psu_ok : Bytes
  pub print_fixed : ℤ → Bytes

abbrev pub compare_fan : FanRow → FanRow → ℤ
compare_fan a b = strcmp a.name b.name

abbrev pub compare_psu : PsuRow → PsuRow → ℤ
compare_psu a b = strcmp a.name b.name

-- One text for each row
unfoldable pub print_rows : {A : Type 0} → (A → Bytes) → List A → Bytes
print_rows line [] = []
print_rows line (row ∷ rows) = line row ++ print_rows line rows

module _ (names : VtyNames) where
  unfoldable pub format_psu_string : Option Bytes → Option Bytes
  format_psu_string none = none
  format_psu_string (some status) = some (
      if str_eq status names.status_fault_absent
      then names.fault_absent
      else if str_eq status names.status_fault_input
      then names.fault_input
      else if str_eq status names.status_fault_output
      then names.fault_output
      else if str_eq status names.status_unknown
      then names.unknown
      else if str_eq status names.status_ok
      then names.psu_ok
      else status)

  -- "%sFan details:%s%s" and the like
  abbrev pub heading : Bytes → Bytes
  heading title = names.newline ++ (title ++ (names.newline ++ names.newline))

  abbrev pub fan_line : FanRow → Bytes
  fan_line row =
      pad_right 15 row.name
      ++ (pad_right 10 row.speed ++ (pad_right 10 row.status ++ names.newline))

  abbrev pub fan_heading : Bytes
  unfolding flatten
  fan_heading = flatten (
      heading (codes "Fan details:")
      ∷ pad_right 15 (codes "Name")
      ∷ pad_right 10 (codes "Speed")
      ∷ pad_right 10 (codes "Status")
      ∷ names.newline
      ∷ codes "--------------------------------"
      ∷ names.newline
      ∷ [])

  abbrev pub led_line : LedRow → Bytes
  led_line row =
      pad_right 10 row.id ++ (pad_right 10 row.state ++ (pad_right 8 row.status ++ names.newline))

  abbrev pub led_heading : Bytes
  unfolding flatten
  led_heading = flatten (
      heading (codes "LED details:")
      ∷ pad_right 10 (codes "Name")
      ∷ pad_right 10 (codes "State")
      ∷ pad_right 8 (codes "Status")
      ∷ names.newline
      ∷ codes "-------------------------"
      ∷ names.newline
      ∷ [])

  -- All rows of the table, if the subsystem refers to one.
  abbrev pub show_leds : ℕ → List LedRow → Bytes
  show_leds n table = led_heading ++ (if n == 0 then [] else print_rows led_line table)

  -- NULL is followed where the status is NULL.
  abbrev pub status_line : (name : Bytes) → Option Bytes → Outcome Bytes
  status_line name none = fault
  status_line name (some text) = ok (pad_right 15 name ++ (pad_right 10 text ++ names.newline))

  abbrev pub psu_line : PsuRow → Outcome Bytes
  psu_line row = status_line row.name (format_psu_string row.status)

  unfoldable pub psu_lines : List PsuRow → Outcome Bytes
  unfolding format_psu_string
  psu_lines [] = ok []
  psu_lines (row ∷ rows) = do line ← psu_line row; rest ← psu_lines rows; ok (line ++ rest)

  abbrev pub psu_heading : Bytes
  unfolding flatten
  psu_heading = flatten (
      heading (codes "Power supply details:")
      ∷ pad_right 10 (codes "Name")
      ∷ pad_right 10 (codes "Status")
      ∷ names.newline
      ∷ codes "-----------------------"
      ∷ names.newline
      ∷ [])

  -- The temperature is in thousandths of a degree; the int64_t is divided before it is converted.
  abbrev pub sensor_line : SensorRow → Bytes
  sensor_line row =
      pad_right 50 row.location
      ++ (pad_right 10 row.name
          ++ (names.print_fixed (quotient row.temperature 1000) ++ names.newline))

  abbrev pub sensor_heading : ℕ → Bytes → Bytes
  unfolding flatten
  sensor_heading width rule = flatten (
      pad_right width (codes "Location")
      ∷ pad_right 10 (codes "Name")
      ∷ pad_right 18 (codes "Reading(celsius)")
      ∷ names.newline
      ∷ rule
      ∷ names.newline
      ∷ [])

  abbrev pub show_sensors : ℕ → List SensorRow → Bytes
  show_sensors n table =
      heading (codes "Temperature Sensors:")
      ++ (if n == 0
          then sensor_heading 10 (codes "------------------------------------")
          else sensor_heading 50
              (codes "---------------------------------------------------------------------------")
            ++ print_rows sensor_line table)

  abbrev pub show_info : SubsystemView → Option (Option Bytes) → Bytes
  show_info sub none = []
  show_info sub (some version) = format_sys_output names.newline version sub.other_info

module _ (names : VtyNames) (qsort : Qsort) where
  unfoldable pub show_fans : (calloc_ok : Bool) → ℕ → List FanRow → Outcome Bytes
  unfolding sort_rows print_rows
  show_fans calloc_ok n table = if n == 0 then ok (fan_heading names) else do
    rows ← sort_rows qsort calloc_ok n compare_fan table
    ok (fan_heading names ++ print_rows (fan_line names) rows)

  unfoldable pub show_psus : (calloc_ok : Bool) → ℕ → List PsuRow → Outcome Bytes
  unfolding sort_rows psu_lines
  show_psus calloc_ok n table = if n == 0 then ok (psu_heading names) else do
    rows ← sort_rows qsort calloc_ok n compare_psu table
    lines ← psu_lines names rows
    ok (psu_heading names ++ lines)

  -- What is printed of pSys, which is followed without a test.
  unfoldable pub show_subsystem :
      (fans_ok psus_ok : Bool) → ShownTables → Option SubsystemView → Outcome (CmdRc × Bytes)
  unfolding show_fans show_psus flatten
  show_subsystem fans_ok psus_ok tables none = fault
  show_subsystem fans_ok psus_ok tables (some sub) = do
    fans ← show_fans fans_ok sub.n_fans tables.fans
    psus ← show_psus psus_ok sub.n_power_supplies tables.power_supplies
    ok (
      cmd_success,
      flatten (
          show_info names sub tables.switch_version
          ∷ fans
          ∷ show_leds names sub.n_leds tables.leds
          ∷ psus
          ∷ show_sensors names sub.n_temp_sensors tables.temp_sensors
          ∷ []),
    )

  -- `cli_system_get_all`, the command "show system"
  unfoldable pub cli_system_get_all :
      (fans_ok psus_ok : Bool) → ShownTables → Outcome (CmdRc × Bytes)
  unfolding show_subsystem
  cli_system_get_all fans_ok psus_ok tables = show_subsystem fans_ok psus_ok tables tables.subsystem
