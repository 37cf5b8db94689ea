-- ===== src/Configure/Initial.antt =====
-- `sysd_initial_configure` with `sysd_configure_default_bridge`, `sysd_configure_default_vrf` and
-- `sysd_initial_daemon_add`: all rows of the first transaction.
use ops_sysd.Base.{
  ℕ, zero, suc, ◌+◌, not, List, [], ◌∷◌, ◌++◌, Option, none, some, if◌then◌else◌, length, take, leb,
}
use ops_sysd.Base.Text.{Bytes}
use ops_sysd.Base.Outcome.{Outcome, ok, fault, ◌>>=◌}
use ops_sysd.Configure.Interfaces.{IdlNames, Interface, new_interface}
use ops_sysd.Configure.Rows.{c_string, initial_subsystem_add}
use ops_sysd.Configure.Splits.{Shash, places}
use ops_sysd.Configure.Tables.{
  dflt_timezone, SystemConfig, Database, VrfRow, QosEnv, Globals, Allocs, blank_system,
}
use ops_sysd.HwDone.{DaemonRow}
use ops_sysd.Manifest.{DaemonInfo}
use ops_sysd.Qos.Columns.{init_trust, init_limits}
use ops_sysd.Qos.Maps.{init_cos_map, init_dscp_map}
use ops_sysd.Qos.Queues.{init_queue_profile}
use ops_sysd.Qos.Schedules.{init_schedule_profile}
use ops_sysd.Release.{update_sw_info}
use ops_sysd.Subsystem.{Subsystem}

-- `sysd_initial_daemon_add`
unfoldable pub initial_daemon_add : DaemonInfo → List DaemonRow → List DaemonRow
initial_daemon_add d rows =
    rows ++ record { name = d.name; cur_hw = d.cur_hw; is_hw_handler = d.is_hw_handler } ∷ []

-- The loop over daemons[0 .. num_daemons - 1]
unfoldable pub add_daemons : ℕ → List DaemonInfo → List DaemonRow → Outcome (List DaemonRow)
unfolding initial_daemon_add
add_daemons zero ds rows = ok rows
add_daemons (suc left) [] rows = fault
add_daemons (suc left) (d ∷ ds) rows = add_daemons left ds (initial_daemon_add d rows)

-- The calls of the QoS and ACL parts, on the columns of the row and the two profile tables.
unfoldable pub init_qos : QosEnv → SystemConfig → Database → Outcome (SystemConfig × Database)
init_qos env sys db = do
  dscp ← init_dscp_map env.print env.dscp_entry env.dscp_count
  cos ← init_cos_map env.print env.cos_entry env.cos_count
  let queue =
      init_queue_profile env.queue_entry env.queue_count env.info
        (record { q_profile = sys.q_profile; profiles = db.queue_profiles })
  schedule ←
      init_schedule_profile env.strict env.schedule_entry env.schedule_count env.info
        (record { qos = sys.qos; profiles = db.schedule_profiles })
  limits ← init_limits env.print env.acl sys.other_info
  ok (
    record sys {
      qos_config = init_trust env.info sys.qos_config;
      dscp_map = dscp;
      cos_map = cos;
      q_profile = queue.q_profile;
      qos = schedule.qos;
      other_info = limits;
    },
    record db { queue_profiles = queue.profiles; schedule_profiles = schedule.profiles },
  )

abbrev pub finish_row : SystemConfig × Database → Database
finish_row (sys, db) = record db { systems = db.systems ++ sys ∷ [] }

-- The System row with the addresses of subsystems[0]
unfoldable pub set_macs : (ℕ → Bytes) → List Subsystem → SystemConfig → Outcome SystemConfig
set_macs ether_string [] sys = fault
set_macs ether_string (s ∷ ss) sys = ok (record sys {
  management_mac = ether_string s.mgmt_mac_addr;
  system_mac = ether_string s.system_mac_addr;
})

-- The columns daemons, software_info, switch_version and timezone
abbrev pub with_daemons : Globals → Database → SystemConfig → SystemConfig
with_daemons globals db sys = record sys {
  daemons = places (length db.daemons) globals.manifest.num_daemons;
  software = update_sw_info globals.release sys.software;
  timezone = some dflt_timezone;
}

module _ (globals : Globals) (allocs : Allocs) (env : QosEnv) where
  -- From the daemon table on
  unfoldable pub configure_daemons : SystemConfig → Database → Outcome Database
  unfolding add_daemons init_qos
  configure_daemons sys db = if not allocs.daemon_list then ok (finish_row (sys, db)) else do
    rows ← add_daemons globals.manifest.num_daemons globals.manifest.daemons db.daemons
    done ← init_qos env (with_daemons globals db sys) (record db { daemons = rows })
    ok (finish_row done)

module _ (names : IdlNames) where
  -- The internal interface of the bridge
  abbrev pub bridge_interface : Interface
  bridge_interface = record new_interface {
    name = names.default_bridge_name;
    type = names.interface_type_internal;
    hw_intf_info = (names.bridge_key, names.bridge_true) ∷ [];
    user_config = (names.admin_key, names.admin_up) ∷ [];
  }

  -- `sysd_configure_default_bridge`
  unfoldable pub configure_default_bridge : SystemConfig → Database → SystemConfig × Database
  configure_default_bridge sys db = (
    record sys { bridges = length db.bridges ∷ [] },
    record db {
      bridges =
          db.bridges
          ++ record { name = names.default_bridge_name; ports = length db.ports ∷ [] } ∷ [];
      ports =
          db.ports
          ++ record { name = names.default_bridge_name; interfaces = length db.interfaces ∷ [] }
            ∷ [];
      interfaces = db.interfaces ++ bridge_interface ∷ [];
    },
  )

  -- The row that `sysd_configure_default_vrf` makes
  abbrev pub default_vrf : List ℕ → VrfRow
  default_vrf table_id = record {
    name = names.default_vrf_name;
    table_id = table_id;
    status = (names.vrf_status_key, names.vrf_status_value) ∷ [];
  }

  -- ovsrec_vrf_set_table_id(default_vrf_row, &table_id, sizeof(table_id)): the pointer is to one
  -- value, and the count is 8.
  unfoldable pub set_table_id : Outcome (List ℕ)
  set_table_id =
      if leb (names.table_id_reads 8) 1 then ok (take (names.table_id_reads 8) (0 ∷ [])) else fault

  -- `sysd_configure_default_vrf`
  unfoldable pub configure_default_vrf : SystemConfig → Database → Outcome (SystemConfig × Database)
  unfolding set_table_id
  configure_default_vrf sys db = do
    table_id ← set_table_id
    ok (
      record sys { vrfs = length db.vrfs ∷ [] },
      record db { vrfs = db.vrfs ++ default_vrf table_id ∷ [] },
    )

  unfoldable pub start_row : Option Bytes → Outcome SystemConfig
  unfolding c_string
  start_row none = fault
  start_row (some block) = do
    name ← c_string block
    ok (record blank_system { mgmt_intf = (names.mgmt_intf_name_key, name) ∷ [] })

module _ (names : IdlNames) (ether_string : ℕ → Bytes) (find : Shash → Bytes → Option ℕ) where
  -- The loop over the subsystems, `i` being the index of the first that is left.
  unfoldable pub add_subsystems : Bytes → Allocs → ℕ → List Subsystem → Database → Outcome Database
  unfolding initial_subsystem_add
  add_subsystems dir allocs i [] db = ok db
  add_subsystems dir allocs i (s ∷ ss) db = do
    rows ←
        initial_subsystem_add names ether_string find dir (allocs.interface_list i) s db.interfaces
    add_subsystems dir allocs (i + 1) ss
        (record db { subsystems = db.subsystems ++ rows.0 ∷ []; interfaces = rows.1 })

  module _ (globals : Globals) (allocs : Allocs) (env : QosEnv) where
    -- From the list of the subsystems on
    unfoldable pub configure_subsystems : SystemConfig → Database → Outcome Database
    unfolding add_subsystems configure_daemons
    configure_subsystems sys db =
        if not allocs.subsystem_list then ok (finish_row (sys, db)) else do
          db' ← add_subsystems globals.hw_desc_dir allocs 0 globals.subsystems db
          configure_daemons globals allocs env
              (record sys {
                subsystems = places (length db.subsystems) (length globals.subsystems);
              })
              db'

    -- `sysd_initial_configure`; mgmt_intf is followed without a test.
    unfoldable pub initial_configure : Database → Outcome Database
    unfolding start_row configure_default_bridge configure_default_vrf set_macs configure_subsystems
    initial_configure db = do
      sys ← start_row names globals.manifest.mgmt_intf
      let bridged = configure_default_bridge names sys db
      routed ← configure_default_vrf names bridged.0 bridged.1
      row ← set_macs ether_string globals.subsystems routed.0
      configure_subsystems row routed.1
