-- ===== src/Configure/Complete.antt =====
-- The first configuration from the daemon table on: it returns, and what it has filled.
use mathlib.Core.List.{append_assoc, append-nil}
use ops_sysd.Base.{ℕ, ◌<◌, ◌≤◌, ◌≡◌, ◌≢◌, refl, true, List, [], ◌∷◌, ◌++◌, map, some, length}
use ops_sysd.Base.Int.{pos}
use ops_sysd.Base.Text.{Bytes}
use ops_sysd.Base.Outcome.{ok}
use ops_sysd.Configure.Initial.{
  initial_daemon_add, add_daemons, init_qos, finish_row, with_daemons, configure_daemons,
}
use ops_sysd.Configure.Tables.{SystemConfig, Database, QosEnv, Globals, Allocs}
use ops_sysd.Configure.Rows.{c_string}
use ops_sysd.HwDone.{DaemonRow}
use ops_sysd.Manifest.{DaemonInfo}
use ops_sysd.Qos.Columns.{YamlQosInfo, YamlAclInfo, init_trust, init_limits-column}
use ops_sysd.Qos.Column.{Smap}
use ops_sysd.Qos.MapLaws.{IsFilled, init_cos_map-IsFilled, init_dscp_map-IsFilled}
use ops_sysd.Qos.Maps.{YamlMapEntry, MapEntry, set_cos_map_entry, set_dscp_map_entry}
use ops_sysd.Qos.Queues.{QueueState, init_queue_profile}
use ops_sysd.Qos.ScheduleDefaults.{init_schedule_profile-AreSchedules}
use ops_sysd.Qos.Schedules.{ScheduleState}
use ops_sysd.Subsystem.{Subsystem}

-- The defaults of config-yaml are there: between one and eight entries of the COS map and between one
-- and 64 of the DSCP map, the names of the profiles, and the limits of the ACLs.
pub record HasDefaults (env : QosEnv) (info : YamlQosInfo) (acl : YamlAclInfo)
    (cos dscp : ℕ → YamlMapEntry) (n m : ℕ) : Type 0 where
  pub cos_counted : env.cos_count ≡ pos n
  pub cos_range : (0 < n) × (n ≤ 8)
  pub cos_there : (i : ℕ) → i < n → env.cos_entry i ≡ some (cos i)
  pub dscp_counted : env.dscp_count ≡ pos m
  pub dscp_range : (0 < m) × (m ≤ 64)
  pub dscp_there : (i : ℕ) → i < m → env.dscp_entry i ≡ some (dscp i)
  pub info_is : env.info ≡ some info
  pub names_differ : info.default_name ≢ info.factory_default_name
  pub acl_is : env.acl ≡ some acl

abbrev pub queue_of : QosEnv → SystemConfig → Database → QueueState
queue_of env sys db =
    init_queue_profile env.queue_entry env.queue_count env.info
      (record { q_profile = sys.q_profile; profiles = db.queue_profiles })

-- The System row and the profile tables behind the calls of the QoS and ACL parts
abbrev pub qos_row :
    QosEnv
    → SystemConfig
    → Database
    → (cos_rows dscp_rows : List MapEntry) → ScheduleState
    → Smap
    → SystemConfig
qos_row env sys db cos_rows dscp_rows t limits = record sys {
  qos_config = init_trust env.info sys.qos_config;
  dscp_map = some dscp_rows;
  cos_map = some cos_rows;
  q_profile = (queue_of env sys db).q_profile;
  qos = t.qos;
  other_info = limits;
}

abbrev pub qos_tables : QosEnv → SystemConfig → Database → ScheduleState → Database
qos_tables env sys db t = record db {
  queue_profiles = (queue_of env sys db).profiles;
  schedule_profiles = t.profiles;
}

init_qos-returns :
    (env : QosEnv) (info : YamlQosInfo) (acl : YamlAclInfo) (cos dscp : ℕ → YamlMapEntry) (n m : ℕ)
    (sys : SystemConfig) (db : Database)
    → HasDefaults env info acl cos dscp n m
    → (cos_rows dscp_rows : List MapEntry) × (t : ScheduleState) × (limits : Smap) × IsFilled
        (set_cos_map_entry env.print)
        cos
        n
        8
        cos_rows
      × IsFilled (set_dscp_map_entry env.print) dscp m 64 dscp_rows
      × (init_qos env sys db
          ≡ ok (qos_row env sys db cos_rows dscp_rows t limits, qos_tables env sys db t))
unfolding init_qos
init_qos-returns env info acl cos dscp n m sys db h =
    let (c, cr, cf) =
      init_cos_map-IsFilled env.print env.cos_entry cos n h.cos_range.0 h.cos_range.1 h.cos_there in
    let (d, dr, df) =
      init_dscp_map-IsFilled env.print env.dscp_entry dscp m h.dscp_range.0 h.dscp_range.1
        h.dscp_there in
    let (t, _, _, tr, _) =
      init_schedule_profile-AreSchedules env.strict env.schedule_entry env.schedule_count info
        (record { qos = sys.qos; profiles = db.schedule_profiles }) h.names_differ in
    let (limits, lr, _, _, _, _) = init_limits-column env.print acl sys.other_info in
    (
      c,
      d,
      t,
      limits,
      cf,
      df,
      simp (h.cos_counted, h.dscp_counted, h.info_is, h.acl_is, cr, dr, tr, lr),
    )

-- The rows of the Daemon table that daemons of the manifest get.
abbrev pub daemon_row : DaemonInfo → DaemonRow
daemon_row d = record { name = d.name; cur_hw = d.cur_hw; is_hw_handler = d.is_hw_handler }

add_daemons-rows :
    (ds : List DaemonInfo) (rows : List DaemonRow)
    → add_daemons (length ds) ds rows ≡ ok (rows ++ map daemon_row ds)
unfolding add_daemons initial_daemon_add
add_daemons-rows [] rows = rw (append-nil rows) refl
add_daemons-rows (d ∷ ds) rows =
    rw
      (
        add_daemons-rows ds (rows ++ daemon_row d ∷ []),
        append_assoc rows (daemon_row d ∷ []) (map daemon_row ds),
      )
      refl

-- The daemon in front of its first pass: memory, an interface for management, one subsystem, and as
-- many daemons as counted.
pub record IsLoaded (globals : Globals) (allocs : Allocs) (s : Subsystem) (mgmt : Bytes)
    : Type 0 where
  pub subsystem_list : allocs.subsystem_list ≡ true
  pub daemon_list : allocs.daemon_list ≡ true
  pub interface_list : allocs.interface_list 0 ≡ true
  pub one : globals.subsystems ≡ s ∷ []
  pub block : Bytes
  pub mgmt_intf : globals.manifest.mgmt_intf ≡ some block
  pub mgmt_name : c_string block ≡ ok mgmt
  pub counted : globals.manifest.num_daemons ≡ length globals.manifest.daemons

-- The database with the rows of the daemons
abbrev pub with_rows : Globals → Database → Database
with_rows globals db = record db { daemons = db.daemons ++ map daemon_row globals.manifest.daemons }

pub configure_daemons-returns :
    (globals : Globals) (allocs : Allocs) (env : QosEnv) (s : Subsystem) (mgmt : Bytes)
    (info : YamlQosInfo) (acl : YamlAclInfo) (cos dscp : ℕ → YamlMapEntry) (n m : ℕ)
    (sys : SystemConfig) (db : Database)
    → IsLoaded globals allocs s mgmt
    → HasDefaults env info acl cos dscp n m
    → (cos_rows dscp_rows : List MapEntry) × (t : ScheduleState) × (limits : Smap) × IsFilled
        (set_cos_map_entry env.print)
        cos
        n
        8
        cos_rows
      × IsFilled (set_dscp_map_entry env.print) dscp m 64 dscp_rows
      × (configure_daemons globals allocs env sys db
          ≡ ok (
              finish_row (
                qos_row env
                    (with_daemons globals db sys)
                    (with_rows globals db)
                    cos_rows
                    dscp_rows
                    t
                    limits,
                qos_tables env (with_daemons globals db sys) (with_rows globals db) t,
              )))
unfolding configure_daemons
configure_daemons-returns globals allocs env s mgmt info acl cos dscp n m sys db g h =
    let (c, d, t, limits, cf, df, run) =
      init_qos-returns env info acl cos dscp n m (with_daemons globals db sys)
        (with_rows globals db) h in
    let rows = add_daemons-rows globals.manifest.daemons db.daemons in
    let rows' : add_daemons globals.manifest.num_daemons globals.manifest.daemons db.daemons
        ≡ ok (db.daemons ++ map daemon_row globals.manifest.daemons) =
      simp g.counted rows in
    (c, d, t, limits, cf, df, simp (g.daemon_list, rows', run))
