-- ===== src/Qos/Schedules.antt =====
-- src/qos_init.c: the schedule profiles, from `qos_init_schedule_profile` down.
use ops_sysd.Base.{
  ℕ, zero, suc, ◌+◌, Bool, true, false, List, [], Option, none, some, if◌then◌else◌,
}
use ops_sysd.Base.Int.{ℤ, pos, negsuc}
use ops_sysd.Base.Text.{Bytes, str_eq}
use ops_sysd.Base.Outcome.{Outcome, ok, fault, ◌>>=◌}
use ops_sysd.Qos.Columns.{YamlQosInfo}
use ops_sysd.Qos.Profiles.{
  Profile, get_profile_row, update_row, insert_if_missing, get_entry_row, insert_entry_row,
  update_entry, change_entries,
}

-- The members of config-yaml's YamlScheduleProfileEntry.
pub record YamlScheduleProfileEntry : Type 0 where
  pub queue : ℤ
  pub algorithm : Bytes
  pub weight : ℤ

-- A row of the Queue table.
pub record ScheduleEntry : Type 0 where
  pub algorithm : Bytes
  pub weight : Option ℤ
  pub hw_default : Bool

abbrev pub new_queue : ScheduleEntry
new_queue = record { algorithm = []; weight = none; hw_default = false }

abbrev pub ScheduleProfiles : Type 0
ScheduleProfiles = List (Profile ScheduleEntry)

-- The column qos of the System row, which refers to a profile row, and the profile rows.
pub record ScheduleState : Type 0 where
  pub qos : Option Bytes
  pub profiles : ScheduleProfiles

-- `qos_get_schedule_profile_row`
abbrev pub get_schedule_profile_row : Bytes → ScheduleProfiles → Option (Profile ScheduleEntry)
get_schedule_profile_row name ps = get_profile_row name ps

-- `qos_get_schedule_profile_entry_row`
abbrev pub get_schedule_profile_entry_row : ℤ → List (ℤ × ScheduleEntry) → Option ScheduleEntry
get_schedule_profile_entry_row queue es = get_entry_row queue es

-- `insert_schedule_profile_queue_row`
abbrev pub insert_schedule_profile_queue_row :
    ℤ → List (ℤ × ScheduleEntry) → List (ℤ × ScheduleEntry)
insert_schedule_profile_queue_row queue es = insert_entry_row queue new_queue es

unfoldable pub insert_queue_if_missing :
    ℤ → Option ScheduleEntry → List (ℤ × ScheduleEntry) → List (ℤ × ScheduleEntry)
unfolding insert_entry_row
insert_queue_if_missing queue none es = insert_schedule_profile_queue_row queue es
insert_queue_if_missing queue (some row) es = es

-- "Retrieve the existing queue row", or insert a new one, and update it.
unfoldable pub set_queue :
    ℤ → (ScheduleEntry → ScheduleEntry) → List (ℤ × ScheduleEntry) → List (ℤ × ScheduleEntry)
unfolding insert_queue_if_missing update_entry get_entry_row
set_queue queue change es =
    update_entry queue change
      (insert_queue_if_missing queue (get_schedule_profile_entry_row queue es) es)

-- `qos_schedule_profile_command`
unfoldable pub schedule_profile_command : Bytes → ScheduleProfiles → ScheduleProfiles
unfolding insert_if_missing get_profile_row
schedule_profile_command name ps = insert_if_missing name (get_schedule_profile_row name ps) ps

-- "Delete all queue rows", through the pointer that was found again.
unfoldable pub clear_queues :
    Bytes → Option (Profile ScheduleEntry) → ScheduleProfiles → Outcome ScheduleProfiles
unfolding update_row
clear_queues name none ps = fault
clear_queues name (some row) ps = ok (update_row name (λ p. record p { entries = [] }) ps)

-- The int of a loop that counts up from 0.
abbrev pub rounds : ℤ → ℕ
rounds (pos n) = n
rounds (negsuc n) = 0

abbrev pub mark_schedule_profile : Profile ScheduleEntry → Profile ScheduleEntry
mark_schedule_profile p = record p {
  hw_default = true;
  entries = change_entries (λ r. record r { hw_default = true }) p.entries;
}

-- OVSREC_QUEUE_ALGORITHM_STRICT of the generated header
module _ (strict : Bytes) where
  unfoldable pub update_schedule_row : Bytes → ℤ → ScheduleEntry → ScheduleEntry
  update_schedule_row algorithm weight row = record row {
    algorithm = algorithm;
    weight = if str_eq algorithm strict then none else some weight;
  }

  unfoldable pub schedule_row_command_at :
      Option (Profile ScheduleEntry)
      → Bytes
      → ℤ
      → Bytes
      → ℤ
      → ScheduleProfiles
      → Bool × ScheduleProfiles
  unfolding update_row set_queue update_schedule_row
  schedule_row_command_at none name queue algorithm weight ps = (false, ps)
  schedule_row_command_at (some row) name queue algorithm weight ps = (
    true,
    update_row name
        (λ p. record p {
          entries = set_queue queue (update_schedule_row algorithm weight) p.entries;
        })
        ps,
  )

  -- `qos_schedule_profile_row_command`
  unfoldable pub schedule_profile_row_command :
      Bytes → ℤ → Bytes → ℤ → ScheduleProfiles → Bool × ScheduleProfiles
  unfolding schedule_row_command_at get_profile_row
  schedule_profile_row_command name queue algorithm weight ps =
      schedule_row_command_at (get_schedule_profile_row name ps) name queue algorithm weight ps

  -- One round of the loop of `qos_schedule_profile_create_factory_default`.
  unfoldable pub add_schedule_entry :
      Bytes → Option YamlScheduleProfileEntry → ScheduleProfiles → ScheduleProfiles
  unfolding schedule_profile_row_command
  add_schedule_entry name none ps = ps
  add_schedule_entry name (some e) ps =
      (schedule_profile_row_command name e.queue e.algorithm e.weight ps).1

  unfoldable pub add_schedule_entries :
      Bytes
      → (ℕ → Option YamlScheduleProfileEntry)
      → (left ii : ℕ) → ScheduleProfiles
      → ScheduleProfiles
  unfolding add_schedule_entry
  add_schedule_entries name entry zero ii ps = ps
  add_schedule_entries name entry (suc left) ii ps =
      add_schedule_entries name entry left (ii + 1) (add_schedule_entry name (entry ii) ps)

  -- config-yaml's yaml_get_schedule_profile_entry and its count
  module _ (entry : ℕ → Option YamlScheduleProfileEntry) (count : ℤ) where
    unfoldable pub create_schedule_default : Bytes → ScheduleProfiles → Outcome ScheduleProfiles
    unfolding schedule_profile_command clear_queues add_schedule_entries get_profile_row
    create_schedule_default name ps =
        let made = schedule_profile_command name ps in
        clear_queues name (get_schedule_profile_row name made) made >>= λ cleared.
        ok (add_schedule_entries name entry (rounds count) 0 cleared)

    unfoldable pub mark_schedule_if_found :
        Bytes → Option (Profile ScheduleEntry) → ScheduleState → ScheduleState
    unfolding update_row
    mark_schedule_if_found name none s = s
    mark_schedule_if_found name (some p) s = record s {
      profiles = update_row name mark_schedule_profile s.profiles;
    }

    -- From "create a profile named factory default" on.
    unfoldable pub add_schedule_factory_default : Bytes → ScheduleState → Outcome ScheduleState
    unfolding create_schedule_default mark_schedule_if_found get_profile_row
    add_schedule_factory_default name s = do
      ps ← create_schedule_default name s.profiles
      ok (
          mark_schedule_if_found name (get_schedule_profile_row name ps)
            (record s { profiles = ps }))

    unfoldable pub point_to_schedule_default :
        YamlQosInfo → Option (Profile ScheduleEntry) → ScheduleState → Outcome ScheduleState
    unfolding add_schedule_factory_default
    point_to_schedule_default info none s = ok s
    point_to_schedule_default info (some p) s =
        add_schedule_factory_default info.factory_default_name
          (record s { qos = some info.default_name })

    -- `qos_init_schedule_profile`
    unfoldable pub init_schedule_profile :
        Option YamlQosInfo → ScheduleState → Outcome ScheduleState
    unfolding create_schedule_default point_to_schedule_default get_profile_row
    init_schedule_profile none s = ok s
    init_schedule_profile (some info) s = do
      ps ← create_schedule_default info.default_name s.profiles
      point_to_schedule_default info (get_schedule_profile_row info.default_name ps)
          (record s { profiles = ps })
