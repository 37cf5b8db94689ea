-- ===== src/Qos/Examples.antt =====
-- Small QoS and ACL defaults, and the theorems of this part at them.
use ops_sysd.Base.{ℕ, ◌+◌, ◌≡◌, ◌≢◌, refl, [], ◌∷◌, Option, none, some, arith, get_elem?}
use ops_sysd.Base.Int.{ℤ, pos, negsuc}
use ops_sysd.Base.Text.{Bytes, codes}
use ops_sysd.Base.Outcome.{ok, fault}
use ops_sysd.Qos.Column.{to_unsigned}
use ops_sysd.Qos.Columns.{YamlQosInfo}
use ops_sysd.Qos.Maps.{YamlMapEntry, init_cos_map}
use ops_sysd.Qos.MapLaws.{init_cos_map-overrun}
use ops_sysd.Qos.Profiles.{Profile, get_profile_row}
use ops_sysd.Qos.Queues.{YamlQueueProfileEntry, QueueEntry, QueueState, init_queue_profile}
use ops_sysd.Qos.QueueLaws.{listed}
use ops_sysd.Qos.QueueDefaults.{AreDefaults, init_queue_profile-AreDefaults}
use ops_sysd.Qos.Schedules.{
  YamlScheduleProfileEntry, ScheduleEntry, ScheduleState, rounds, init_schedule_profile,
}
use ops_sysd.Qos.ScheduleLaws.{scheduled}
use ops_sysd.Qos.ScheduleDefaults.{AreSchedules, init_schedule_profile-AreSchedules}

-- One digit is enough here.
abbrev print_digit : ℤ → Bytes
print_digit (pos n) = (48 + n) ∷ []
print_digit (negsuc n) = 45 ∷ (49 + n) ∷ []

abbrev map_entry : ℕ → YamlMapEntry
map_entry i = record {
  code_point = pos i;
  local_priority = pos i;
  color = codes "green";
  description = codes "Best_Effort";
}

abbrev map_entries : ℕ → Option YamlMapEntry
map_entries i = some (map_entry i)

init_cos_map-overrun_example : init_cos_map print_digit map_entries (pos 9) ≡ fault
init_cos_map-overrun_example =
    init_cos_map-overrun print_digit map_entries map_entry 9 (omega arith) (omega arith)
      (λ i h. refl)

abbrev qos_info : YamlQosInfo
qos_info = record {
  trust = some (codes "none");
  default_name = codes "default";
  factory_default_name = codes "factory-default";
}

names_differ : qos_info.default_name ≢ qos_info.factory_default_name
names_differ h = cc

abbrev queue_entries : ℕ → Option YamlQueueProfileEntry
queue_entries i =
    get_elem?
      (record { queue = pos 0; local_priority = pos 1; description = some (codes "Scavenger") }
        ∷ record { queue = pos 0; local_priority = pos 0; description = none }
        ∷ record { queue = pos 1; local_priority = pos 2; description = none }
        ∷ [])
      i

abbrev no_queues : QueueState
no_queues = record { q_profile = none; profiles = [] }

init_queue_profile-AreDefaults_example :
    (d : Profile QueueEntry) × (f : Profile QueueEntry) × AreDefaults qos_info
      (listed queue_entries (to_unsigned (pos 3)) 0)
      (init_queue_profile queue_entries (pos 3) (some qos_info) no_queues)
      d
      f
unfolding get_profile_row
init_queue_profile-AreDefaults_example =
    init_queue_profile-AreDefaults queue_entries (pos 3) qos_info no_queues names_differ refl refl

abbrev schedule_entries : ℕ → Option YamlScheduleProfileEntry
schedule_entries i =
    get_elem?
      (record { queue = pos 0; algorithm = codes "dwrr"; weight = pos 1 }
        ∷ record { queue = pos 1; algorithm = codes "strict"; weight = pos 0 }
        ∷ [])
      i

abbrev no_schedules : ScheduleState
no_schedules = record { qos = none; profiles = [] }

init_schedule_profile-AreSchedules_example :
    (t : ScheduleState) × (d : Profile ScheduleEntry) × (f : Profile ScheduleEntry)
    × (init_schedule_profile (codes "strict") schedule_entries (pos 2) (some qos_info) no_schedules
        ≡ ok t)
    × AreSchedules (codes "strict") qos_info (scheduled schedule_entries (rounds (pos 2)) 0) t d f
init_schedule_profile-AreSchedules_example =
    init_schedule_profile-AreSchedules (codes "strict") schedule_entries (pos 2) qos_info
      no_schedules names_differ
