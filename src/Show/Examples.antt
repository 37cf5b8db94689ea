-- ===== src/Show/Examples.antt =====
-- A sort that does what qsort is documented to do, and "show system" on a small switch.
use mathlib.Core.List.{Perm, not-mem-nil}
use mathlib.Core.List.Perm
use ops_sysd.Base.{
  ◌≡◌, inl, inr, refl, true, Bool-cases, List, [], ◌∷◌, ◌++◌, none, some, if◌then◌else◌,
}
use ops_sysd.Base.Int.{ℤ, pos, is_positive}
use ops_sysd.Base.Printf.{print_int}
use ops_sysd.Base.Text.{Bytes, codes}
use ops_sysd.Base.Outcome.{ok, fault}
use ops_sysd.Configure.Examples.{idl_names, address, find_first, base, info, base-IsReady}
use ops_sysd.Configure.Courses.Examples.{
  names-IsOptionalSetter, globals, all_given, map_entry, qos_info, limits, defaults, empty,
  globals-IsLoaded, defaults-HasDefaults,
}
use ops_sysd.Configure.Initial.{initial_configure}
use ops_sysd.Configure.Rows.{mac_format}
use ops_sysd.Configure.Tables.{Database}
use ops_sysd.Release.{update_sw_info}
use ops_sysd.Show.Configured.{shown, bare_report, cli_system_get_all-configured}
use ops_sysd.Show.FruLines.{render, overview}
use ops_sysd.Show.Order.{IsOrder, IsQsort, IsAscending}
use ops_sysd.Show.Sorting.{Qsort, strcmp}
use ops_sysd.Show.Devices.{
  FanRow, PsuRow, SubsystemView, ShownTables, VtyNames, compare_fan, compare_psu,
  cli_system_get_all,
}
use ops_sysd.Show.Listing.{IsListing}
use ops_sysd.Show.Report.{
  IsPrintable, report, cli_system_get_all-IsPrintable, cli_system_get_all-report,
}
use ops_sysd.Show.Statuses.{HaveStatus-cons}
use ops_sysd.Timezone.Commands.{cmd_success}

module _ {A : Type 0} (compare_rows : A → A → ℤ) where
  insert_row : A → List A → List A
  insert_row x [] = x ∷ []
  insert_row x (y ∷ ys) = if is_positive (compare_rows x y) then y ∷ insert_row x ys else x ∷ y ∷ ys

  sort : List A → List A
  sort [] = []
  sort (x ∷ xs) = insert_row x (sort xs)

  insert_row-perm : (x : A) (ys : List A) → Perm (insert_row x ys) (x ∷ ys)
  unfolding insert_row
  insert_row-perm x [] = Perm.rfl
  insert_row-perm x (y ∷ ys) = elim (Bool-cases (is_positive (compare_rows x y))) [
    | inl e ↦ rw e (Perm.trans (Perm.cons y (insert_row-perm x ys)) (Perm.swap x y ys))
    | inr e ↦ rw e Perm.rfl
  ]

  sort-perm : (xs : List A) → Perm (sort xs) xs
  unfolding sort
  sort-perm [] = Perm.rfl
  sort-perm (x ∷ xs) = Perm.trans (insert_row-perm x (sort xs)) (Perm.cons x (sort-perm xs))

  insert_row-IsAscending :
      (x : A) (ys : List A)
      → IsOrder compare_rows
      → IsAscending compare_rows ys
      → IsAscending compare_rows (insert_row x ys)
  unfolding insert_row
  insert_row-IsAscending x [] o h = tt
  insert_row-IsAscending x (y ∷ []) o h = elim (Bool-cases (is_positive (compare_rows x y))) [
    | inl e ↦ rw e (o.total x y e, tt)
    | inr e ↦ rw e (e, tt)
  ]
  insert_row-IsAscending x (y ∷ z ∷ ys) o (h, hs) =
      let rest = insert_row-IsAscending x (z ∷ ys) o hs in
      elim (Bool-cases (is_positive (compare_rows x y))) [
        | inr e ↦ rw e (e, (h, hs))
        | inl e ↦ rw e (elim (Bool-cases (is_positive (compare_rows x z))) [
          | inl f ↦ rw f (h, rw f at rest)
          | inr f ↦ rw f (o.total x y e, rw f at rest)
        ])
      ]

  sort-IsAscending : (xs : List A) → IsOrder compare_rows → IsAscending compare_rows (sort xs)
  unfolding sort
  sort-IsAscending [] o = tt
  sort-IsAscending (x ∷ xs) o = insert_row-IsAscending x (sort xs) o (sort-IsAscending xs o)

abbrev insertion_sort : Qsort
unfolding sort
insertion_sort A = sort

insertion_sort-IsQsort : IsQsort insertion_sort
unfolding insertion_sort sort
insertion_sort-IsQsort = record {
  perm = λ A compare_rows. sort-perm compare_rows;
  ascending = λ A compare_rows. sort-IsAscending compare_rows;
}

abbrev names : VtyNames
names = record {
  newline = 10 ∷ [];
  status_fault_absent = codes "fault_absent";
  status_fault_input = codes "fault_input";
  status_fault_output = codes "fault_output";
  status_unknown = codes "unknown";
  status_ok = codes "ok";
  fault_absent = codes "Absent";
  fault_input = codes "Input Fault";
  fault_output = codes "Output Fault";
  unknown = codes "Unknown";
  psu_ok = codes "OK";
  print_fixed = λ t. print_int t ++ codes ".00";
}

abbrev fan : Bytes → FanRow
fan name = record { name = name; speed = codes "normal"; status = codes "ok" }

abbrev small : SubsystemView
small = record {
  other_info = (codes "vendor", codes "Acme") ∷ [];
  n_fans = 2;
  n_leds = 0;
  n_power_supplies = 1;
  n_temp_sensors = 1;
}

abbrev switch : ShownTables
switch = record {
  subsystem = some small;
  switch_version = some (some (codes "0.4"));
  fans = fan (codes "b") ∷ fan (codes "a") ∷ [];
  leds = [];
  power_supplies = record { name = codes "1"; status = some (codes "ok") } ∷ [];
  temp_sensors =
      record { location = codes "front"; name = codes "t1"; temperature = pos 24500 } ∷ [];
}

switch-IsPrintable : IsPrintable true true switch small
switch-IsPrintable = record {
  subsystem = refl;
  fans = inr (refl, refl);
  psus = inr (refl, refl);
  statuses = λ _. HaveStatus-cons _ [] refl (λ row m. absurd (not-mem-nil m));
}

-- The fans come out in the order of their names, and the reading is cut to whole degrees.
switch_shown :
    cli_system_get_all names insertion_sort true true switch
    ≡ ok (
      cmd_success,
      report names switch small (fan (codes "a") ∷ fan (codes "b") ∷ []) switch.power_supplies,
    )
unfolding cli_system_get_all insertion_sort sort insert_row strcmp
switch_shown = refl

-- A fan that the subsystem does not refer to is written behind the array.
one_fan_more :
    cli_system_get_all names insertion_sort true true
      (record switch { fans = fan (codes "c") ∷ switch.fans })
    ≡ fault
unfolding cli_system_get_all
one_fan_more = refl

cli_system_get_all-report_example :
    (fans : List FanRow) × (psus : List PsuRow) × IsListing compare_fan 2 switch.fans fans
    × IsListing compare_psu 1 switch.power_supplies psus
    × (cli_system_get_all names insertion_sort true true switch
        ≡ ok (cmd_success, report names switch small fans psus))
cli_system_get_all-report_example =
    cli_system_get_all-report names insertion_sort insertion_sort-IsQsort true true switch small
      switch-IsPrintable

cli_system_get_all-IsPrintable_example : (sub : SubsystemView) × IsPrintable true true switch sub
cli_system_get_all-IsPrintable_example =
    cli_system_get_all-IsPrintable names insertion_sort insertion_sort-IsQsort true true switch _
      switch_shown

cli_system_get_all-configured_example :
    (db : Database) × (mac : Bytes) × (initial_configure idl_names address find_first globals
        all_given defaults empty
      ≡ ok db)
    × (mac_format base.fru_eeprom.base_mac_address ≡ ok mac)
    × (cli_system_get_all names insertion_sort true true (shown db switch)
        ≡ ok (
          cmd_success,
          bare_report names (render (overview names.newline none base.fru_eeprom mac [] info)),
        ))
unfolding update_sw_info
cli_system_get_all-configured_example =
    cli_system_get_all-configured names insertion_sort true true switch idl_names address find_first
      globals all_given defaults base (codes "eth0") [] [] info qos_info limits map_entry map_entry
      8 64 empty refl refl globals-IsLoaded base-IsReady defaults-HasDefaults names-IsOptionalSetter
