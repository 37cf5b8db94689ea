-- ===== src/Qos/Queues.antt =====
-- src/qos_init.c: the queue profiles, from `qos_init_queue_profile` down.
use ops_sysd.Base.{
  ℕ, zero, suc, ◌+◌, Bool, true, false, List, [], ◌∷◌, ◌++◌, Option, none, some, if◌then◌else◌,
}
use ops_sysd.Base.Int.{ℤ}
use ops_sysd.Base.Text.{Bytes}
use ops_sysd.Qos.Column.{to_unsigned}
use ops_sysd.Qos.Columns.{YamlQosInfo}
use ops_sysd.Qos.Profiles.{
  int_eq, Profile, get_profile_row, update_row, insert_if_missing, set_entry, change_entries,
}

-- The members of config-yaml's YamlQueueProfileEntry.
pub record YamlQueueProfileEntry : Type 0 where
  pub queue : ℤ
  pub local_priority : ℤ
  pub description : Option Bytes

-- A row of Q_Profile_Entry.
pub record QueueEntry : Type 0 where
  pub local_priorities : List ℤ
  pub description : Option Bytes
  pub hw_default : Bool

abbrev pub new_entry : QueueEntry
new_entry = record { local_priorities = []; description = none; hw_default = false }

abbrev pub QueueProfiles : Type 0
QueueProfiles = List (Profile QueueEntry)

-- The loop of `has_local_priority`
unfoldable pub has_local_priority : List ℤ → ℤ → Bool
has_local_priority [] local_priority = false
has_local_priority (p ∷ ps) local_priority =
    if int_eq p local_priority then true else has_local_priority ps local_priority

unfoldable pub add_local_priority : ℤ → QueueEntry → QueueEntry
unfolding has_local_priority
add_local_priority local_priority row =
    if has_local_priority row.local_priorities local_priority
    then row
    else record row { local_priorities = row.local_priorities ++ local_priority ∷ [] }

unfoldable pub set_description : Option Bytes → QueueEntry → QueueEntry
set_description none row = row
set_description (some text) row = record row { description = some text }

-- "Update the queue row."
unfoldable pub update_queue_row : ℤ → Option Bytes → QueueEntry → QueueEntry
unfolding add_local_priority set_description
update_queue_row local_priority description row =
    set_description description (add_local_priority local_priority row)

-- `qos_queue_profile_command`
unfoldable pub queue_profile_command : Bytes → QueueProfiles → QueueProfiles
unfolding insert_if_missing get_profile_row
queue_profile_command name ps = insert_if_missing name (get_profile_row name ps) ps

unfoldable pub queue_row_command_at :
    Option (Profile QueueEntry)
    → Bytes
    → ℤ
    → ℤ
    → Option Bytes
    → QueueProfiles
    → Bool × QueueProfiles
unfolding update_row set_entry update_queue_row
queue_row_command_at none name queue local_priority description ps = (false, ps)
queue_row_command_at (some row) name queue local_priority description ps = (
  true,
  update_row name
      (λ p. record p {
        entries = set_entry queue new_entry (update_queue_row local_priority description) p.entries;
      })
      ps,
)

-- `qos_queue_profile_row_command`
unfoldable pub queue_profile_row_command :
    Bytes → ℤ → ℤ → Option Bytes → QueueProfiles → Bool × QueueProfiles
unfolding queue_row_command_at get_profile_row
queue_profile_row_command name queue local_priority description ps =
    queue_row_command_at (get_profile_row name ps) name queue local_priority description ps

-- One round of the loop of `qos_queue_profile_create_factory_default`.
unfoldable pub add_queue_entry :
    Bytes → Option YamlQueueProfileEntry → QueueProfiles → QueueProfiles
unfolding queue_profile_row_command
add_queue_entry name none ps = ps
add_queue_entry name (some e) ps =
    (queue_profile_row_command name e.queue e.local_priority e.description ps).1

unfoldable pub add_queue_entries :
    Bytes → (ℕ → Option YamlQueueProfileEntry) → (left ii : ℕ) → QueueProfiles → QueueProfiles
unfolding add_queue_entry
add_queue_entries name entry zero ii ps = ps
add_queue_entries name entry (suc left) ii ps =
    add_queue_entries name entry left (ii + 1) (add_queue_entry name (entry ii) ps)

-- The row and its entries become hardware defaults.
abbrev pub mark_queue_profile : Profile QueueEntry → Profile QueueEntry
mark_queue_profile p = record p {
  hw_default = true;
  entries = change_entries (λ r. record r { hw_default = true }) p.entries;
}

-- The column q_profile of the System row, which refers to a profile row, and the profile rows.
pub record QueueState : Type 0 where
  pub q_profile : Option Bytes
  pub profiles : QueueProfiles

-- config-yaml's yaml_get_queue_profile_entry and its count
module _ (entry : ℕ → Option YamlQueueProfileEntry) (count : ℤ) where
  unfoldable pub create_queue_default : Bytes → QueueProfiles → QueueProfiles
  unfolding queue_profile_command add_queue_entries
  create_queue_default name ps =
      add_queue_entries name entry (to_unsigned count) 0 (queue_profile_command name ps)

  unfoldable pub mark_if_found : Bytes → Option (Profile QueueEntry) → QueueState → QueueState
  unfolding update_row
  mark_if_found name none s = s
  mark_if_found name (some p) s = record s {
    profiles = update_row name mark_queue_profile s.profiles;
  }

  -- From "create a profile named factory default" on.
  unfoldable pub add_factory_default : Bytes → QueueState → QueueState
  unfolding create_queue_default mark_if_found get_profile_row
  add_factory_default name s =
      let ps = create_queue_default name s.profiles in
      mark_if_found name (get_profile_row name ps) (record s { profiles = ps })

  unfoldable pub point_to_default :
      YamlQosInfo → Option (Profile QueueEntry) → QueueState → QueueState
  unfolding add_factory_default
  point_to_default info none s = s
  point_to_default info (some p) s =
      add_factory_default info.factory_default_name
        (record s { q_profile = some info.default_name })

  -- `qos_init_queue_profile`
  unfoldable pub init_queue_profile : Option YamlQosInfo → QueueState → QueueState
  unfolding create_queue_default point_to_default get_profile_row
  init_queue_profile none s = s
  init_queue_profile (some info) s =
      let ps = create_queue_default info.default_name s.profiles in
      point_to_default info (get_profile_row info.default_name ps) (record s { profiles = ps })
