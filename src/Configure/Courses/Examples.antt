-- ===== src/Configure/Courses/Examples.antt =====
-- A small system from its first pass on, and the theorems on the configuration and on passes at it.
use ops_sysd.Base.{◌++◌, ℕ, ◌≡◌, refl, true, false, [], ◌∷◌, none, some, arith, length, ap}
use ops_sysd.Base.Int.{pos}
use ops_sysd.Base.Text.{codes}
use ops_sysd.Base.Outcome.{Outcome, ok, Ensures}
use ops_sysd.Configure.Complete.{HasDefaults, IsLoaded}
use ops_sysd.Configure.Courses.{run_all-Kept, passes, others, here, next, Reach-AtMostOne}
use ops_sysd.Configure.Examples.{base, idl_names, address, find_first, info, base-IsReady}
use ops_sysd.Configure.Initial.{initial_configure}
use ops_sysd.Configure.Tables.{SystemConfig, Database, QosEnv, Globals, Allocs}
use ops_sysd.Configure.Passes.{Kept, AtMostOne}
use ops_sysd.Configure.Refinement.{phase, run-advance}
use ops_sysd.Configure.Phases.{phase_of}
use ops_sysd.Configure.Rows.{c_string}
use ops_sysd.Configure.Run.{Sysd, Pass, first_pass, package_pass, changed_pass, run, run_all}
use ops_sysd.Configure.Written.{IsConfigured, IsOptionalSetter, initial_configure-IsConfigured}
use ops_sysd.Manifest.{Manifest}
use ops_sysd.Packages.{add_package_info}
use ops_sysd.Qos.Columns.{YamlQosInfo, YamlAclInfo}
use ops_sysd.Qos.Maps.{YamlMapEntry}
use ops_sysd.Release.{SoftwareColumns}
use ops_sysd.Timezone.Apply.{handle_timezone_update, relink}
use ops_sysd.Timezone.Zones.{base_path}
use ops_sysd.Base.Cstring.{strcpy, strcat, strcpy-fits, strcat-fits}

abbrev pub manifest : Manifest
manifest = record {
  daemons = record { name = codes "ops-sysd"; is_hw_handler = false; cur_hw = pos 1 } ∷ [];
  num_daemons = 1;
  num_hw_daemons = 0;
  mgmt_intf = some (codes "eth0" ++ 0 ∷ 0 ∷ []);
  is_mgmt_intf_present = true;
}

abbrev pub globals : Globals
globals = record {
  manifest = manifest;
  subsystems = base ∷ [];
  hw_desc_dir = codes "/etc";
  release = none;
}

abbrev pub all_given : Allocs
all_given = record { subsystem_list = true; daemon_list = true; interface_list = λ i. true }

abbrev pub map_entry : ℕ → YamlMapEntry
map_entry i = record {
  code_point = pos i;
  local_priority = pos i;
  color = codes "green";
  description = codes "Best_Effort";
}

abbrev pub qos_info : YamlQosInfo
qos_info = record {
  trust = none;
  default_name = codes "default";
  factory_default_name = codes "factory-default";
}

abbrev pub limits : YamlAclInfo
limits = record { max_acls = pos 5; max_aces = pos 9; max_aces_per_acl = pos 3 }

abbrev pub defaults : QosEnv
defaults = record {
  print = λ n. codes "1";
  strict = codes "strict";
  info = some qos_info;
  cos_entry = λ i. some (map_entry i);
  cos_count = pos 8;
  dscp_entry = λ i. some (map_entry i);
  dscp_count = pos 64;
  queue_entry = λ i. none;
  queue_count = pos 0;
  schedule_entry = λ i. none;
  schedule_count = pos 0;
  acl = some limits;
}

abbrev pub empty : Database
empty = record {
  systems = [];
  bridges = [];
  ports = [];
  interfaces = [];
  vrfs = [];
  subsystems = [];
  daemons = [];
  queue_profiles = [];
  schedule_profiles = [];
}

pub globals-IsLoaded : IsLoaded globals all_given base (codes "eth0")
unfolding c_string
globals-IsLoaded = record {
  subsystem_list = refl;
  daemon_list = refl;
  interface_list = refl;
  one = refl;
  block = codes "eth0" ++ 0 ∷ 0 ∷ [];
  mgmt_intf = refl;
  mgmt_name = refl;
  counted = refl;
}

pub defaults-HasDefaults : HasDefaults defaults qos_info limits map_entry map_entry 8 64
defaults-HasDefaults = record {
  cos_counted = refl;
  cos_range = (omega arith, omega arith);
  cos_there = λ i h. refl;
  dscp_counted = refl;
  dscp_range = (omega arith, omega arith);
  dscp_there = λ i h. refl;
  info_is = refl;
  names_differ = λ e. cc;
  acl_is = refl;
}

pub names-IsOptionalSetter : IsOptionalSetter idl_names.table_id_reads
names-IsOptionalSetter = (refl, λ n. refl)

-- The configuration of the small system, on an empty database
abbrev pub WasConfigured : Type 0
WasConfigured =
    (db' : Database) × (sys : SystemConfig) × (initial_configure idl_names address find_first
        globals all_given defaults empty
      ≡ ok db')
    × IsConfigured idl_names address find_first globals defaults base (codes "eth0") map_entry
        map_entry 8 64 sys empty db'

pub was_configured : WasConfigured
was_configured =
    initial_configure-IsConfigured idl_names address find_first globals all_given defaults base
      (codes "eth0") [] [] info qos_info limits map_entry map_entry 8 64 empty globals-IsLoaded
      base-IsReady defaults-HasDefaults names-IsOptionalSetter

initial_configure-IsConfigured_example : WasConfigured
initial_configure-IsConfigured_example =
    initial_configure-IsConfigured idl_names address find_first globals all_given defaults base
      (codes "eth0") [] [] info qos_info limits map_entry map_entry 8 64 empty globals-IsLoaded
      base-IsReady defaults-HasDefaults names-IsOptionalSetter

-- A pass that finds a new sequence number and no file of packages.
abbrev pub early_pass : Pass
early_pass = record {
  lock_contended = false;
  has_lock = true;
  seqno = 1;
  release = none;
  allocs = all_given;
  txn_success = true;
  hw_commit_ok = true;
  parser_ok = false;
  file_ok = false;
  events = [];
  insert_ok = λ i. true;
  commit_ok = λ i. true;
  unlinks = true;
  links = true;
}

abbrev pub at_start : Sysd
at_start = record {
  db = empty;
  packages = [];
  idl_seqno = 0;
  hw_init_done_set = false;
  localtime = none;
  complete = false;
}

abbrev pub same_columns : SoftwareColumns → SoftwareColumns → Outcome SoftwareColumns
same_columns old new = ok old

-- What the pass leaves: the configuration, and the link to the zone UTC.
abbrev pub after : Sysd
after = record at_start {
  db = was_configured.0;
  idl_seqno = 1;
  localtime = some (base_path ++ codes "UTC");
  complete = true;
}

utc_path : strcpy 200 base_path ≡ ok base_path
utc_path = strcpy-fits 200 base_path (omega arith)

utc_fits : strcat 200 base_path (codes "UTC") ≡ ok (base_path ++ codes "UTC")
utc_fits = strcat-fits 200 base_path (codes "UTC") (omega arith)

run-early_pass :
    run idl_names address find_first same_columns globals defaults early_pass at_start ≡ ok after
unfolding run changed_pass first_pass package_pass add_package_info handle_timezone_update relink
run-early_pass =
    let (db, sys, made, c) = was_configured in simp (made, c.system, c.timezone, utc_path, utc_fits)

after_systems : length after.db.systems ≡ 1
after_systems = ap length was_configured.3.system

-- Two more passes, the second of which cannot make the link.
run_all-Kept_example :
    Ensures
      (λ s'. Kept after.db s'.db)
      (run_all idl_names address find_first same_columns globals defaults
        (record early_pass { seqno = 2 } ∷ record early_pass { seqno = 3; links = false } ∷ [])
        after)
run_all-Kept_example =
    run_all-Kept idl_names address find_first same_columns globals defaults
      (record early_pass { seqno = 2 } ∷ record early_pass { seqno = 3; links = false } ∷ []) after
      0 after_systems

Reach-AtMostOne_example : AtMostOne after.db
Reach-AtMostOne_example =
    Reach-AtMostOne idl_names address find_first same_columns globals defaults at_start after
      (next (next here (others at_start empty (omega arith)))
        (passes at_start after early_pass run-early_pass))
      (omega arith)

run-advance_example :
    Ensures
      (λ s'. phase s' ≡ phase_of true false)
      (run idl_names address find_first same_columns globals defaults early_pass at_start)
run-advance_example =
    run-advance idl_names address find_first same_columns globals defaults early_pass at_start
