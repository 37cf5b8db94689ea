-- ===== src/Show/Report.antt =====
-- When "show system" goes through, and what it then prints.
use mathlib.Core.List.{flatten}
use ops_sysd.Base.{◌≡◌, ◌≢◌, refl, Bool, List, [], ◌∷◌, ◌++◌, Option, none, some}
use ops_sysd.Base.Text.{Bytes}
use ops_sysd.Base.Outcome.{ok, >>=-eq-ok}
use ops_sysd.Show.Devices.{
  FanRow, PsuRow, SubsystemView, ShownTables, VtyNames, compare_fan, compare_psu, print_rows,
  fan_line, fan_heading, psu_heading, show_info, show_leds, show_sensors, show_fans, show_psus,
  show_subsystem, cli_system_get_all,
}
use ops_sysd.Show.Listing.{
  CanSort, IsListing, show_fans-IsListing, show_fans-ok, show_psus-IsListing, show_psus-ok,
}
use ops_sysd.Show.Order.{IsQsort}
use ops_sysd.Show.Sorting.{Qsort}
use ops_sysd.Show.Statuses.{HaveStatus, psu_text}
use ops_sysd.Timezone.Commands.{CmdRc, cmd_success}

-- The tables that the command gets through with, `sub` being the row of the subsystem.
pub record IsPrintable (fans_ok psus_ok : Bool) (tables : ShownTables) (sub : SubsystemView)
    : Type 0 where
  pub subsystem : tables.subsystem ≡ some sub
  pub fans : CanSort fans_ok sub.n_fans tables.fans
  pub psus : CanSort psus_ok sub.n_power_supplies tables.power_supplies
  pub statuses : sub.n_power_supplies ≢ 0 → HaveStatus tables.power_supplies

-- The report on the rows that are printed
abbrev pub report : VtyNames → ShownTables → SubsystemView → List FanRow → List PsuRow → Bytes
unfolding flatten
report names tables sub fans psus = flatten (
    show_info names sub tables.switch_version
    ∷ (fan_heading names ++ print_rows (fan_line names) fans)
    ∷ show_leds names sub.n_leds tables.leds
    ∷ (psu_heading names ++ print_rows (psu_text names) psus)
    ∷ show_sensors names sub.n_temp_sensors tables.temp_sensors
    ∷ [])

module _ (names : VtyNames) (qsort : Qsort) (q : IsQsort qsort) where
  show_subsystem-IsPrintable :
      (fans_ok psus_ok : Bool) (tables : ShownTables) (o : Option SubsystemView)
      (reply : CmdRc × Bytes)
      → tables.subsystem ≡ o
      → show_subsystem names qsort fans_ok psus_ok tables o ≡ ok reply
      → (sub : SubsystemView) × IsPrintable fans_ok psus_ok tables sub
  unfolding show_subsystem
  show_subsystem-IsPrintable fans_ok psus_ok tables none reply e h = cc
  show_subsystem-IsPrintable fans_ok psus_ok tables (some sub) reply e h =
      let (fans, f, rest) = >>=-eq-ok (show_fans names qsort fans_ok sub.n_fans tables.fans) _ h in
      let (psus, g, _) =
        >>=-eq-ok (show_psus names qsort psus_ok sub.n_power_supplies tables.power_supplies) _
          rest in
      let (can, have) =
        show_psus-ok names qsort q psus_ok sub.n_power_supplies tables.power_supplies psus g in
      (
        sub,
        record {
          subsystem = e;
          fans = show_fans-ok names qsort q fans_ok sub.n_fans tables.fans fans f;
          psus = can;
          statuses = have;
        },
      )

  -- With a qsort that sorts: if "show system" comes to its end, then there is a row in Subsystem; and
  -- for the fans and for the power supplies alike, the subsystem refers to none, or there was memory for
  -- them and it refers to as many as the whole table has; and where it refers to power supplies, each of
  -- the table has a status.
  pub cli_system_get_all-IsPrintable :
      (fans_ok psus_ok : Bool) (tables : ShownTables) (reply : CmdRc × Bytes)
      → cli_system_get_all names qsort fans_ok psus_ok tables ≡ ok reply
      → (sub : SubsystemView) × IsPrintable fans_ok psus_ok tables sub
  unfolding cli_system_get_all
  cli_system_get_all-IsPrintable fans_ok psus_ok tables reply h =
      show_subsystem-IsPrintable fans_ok psus_ok tables tables.subsystem reply refl h

  -- With a qsort that sorts: if there is a row in Subsystem, if for the fans and for the power supplies
  -- alike it refers to none, or there is memory for them and it refers to as many as the whole table
  -- has, and if, where it refers to power supplies, each of the table has a status, then "show system"
  -- succeeds and prints, in this order, the overview of the subsystem, its fans, the LEDs, the power
  -- supplies and the sensors. The fans and the power supplies are none if the subsystem refers to none,
  -- and else all rows of their table, each once, in ascending order of their names.
  pub cli_system_get_all-report :
      (fans_ok psus_ok : Bool) (tables : ShownTables) (sub : SubsystemView)
      → IsPrintable fans_ok psus_ok tables sub
      → (fans : List FanRow) × (psus : List PsuRow) × IsListing compare_fan sub.n_fans tables.fans
          fans
        × IsListing compare_psu sub.n_power_supplies tables.power_supplies psus
        × (cli_system_get_all names qsort fans_ok psus_ok tables
            ≡ ok (cmd_success, report names tables sub fans psus))
  unfolding cli_system_get_all show_subsystem
  cli_system_get_all-report fans_ok psus_ok tables sub p =
      let (fans, f, shown) =
        show_fans-IsListing names qsort q fans_ok sub.n_fans tables.fans p.fans in
      let (psus, g, printed) =
        show_psus-IsListing names qsort q psus_ok sub.n_power_supplies tables.power_supplies p.psus
          p.statuses in
      (fans, psus, f, g, simp (p.subsystem, shown, printed))
