-- ===== src/Configure/Once.antt =====
-- `sysd_initial_configure` adds exactly one System row, wherever it returns.
use ops_sysd.Base.{
  ℕ, suc, ◌+◌, ◌≡◌, refl, ap, ◌∙◌, Bool-cases, inl, inr, List, [], ◌∷◌, ◌++◌, Option, length,
  length-append, arith,
}
use ops_sysd.Base.Text.{Bytes}
use ops_sysd.Base.Outcome.{Ensures, Ensures-map, Ensures-bind, Ensures-after}
use ops_sysd.Configure.Initial.{
  configure_default_bridge, set_table_id, configure_default_vrf, finish_row, with_daemons,
  add_subsystems, add_daemons, init_qos, configure_daemons, configure_subsystems, initial_configure,
  set_macs, start_row,
}
use ops_sysd.Configure.Tables.{SystemConfig, Database, QosEnv, Globals, Allocs}
use ops_sysd.Configure.Interfaces.{IdlNames}
use ops_sysd.Configure.Splits.{Shash}
use ops_sysd.Configure.Rows.{initial_subsystem_add}
use ops_sysd.Subsystem.{Subsystem}
use ops_sysd.Qos.Columns.{init_limits}
use ops_sysd.Qos.Maps.{init_cos_map, init_dscp_map}
use ops_sysd.Qos.Schedules.{init_schedule_profile}

length-finish_row :
    (sys : SystemConfig) (db : Database)
    → length (finish_row (sys, db)).systems ≡ suc (length db.systems)
length-finish_row sys db = omega (arith, length-append db.systems (sys ∷ []))

-- The System table is as long as that of the other database.
abbrev pub KeepsSystems : Database → Database → Type 0
KeepsSystems a b = length b.systems ≡ length a.systems

abbrev pub AddsSystem : Database → Database → Type 0
AddsSystem a b = length b.systems ≡ suc (length a.systems)

init_qos-KeepsSystems :
    (env : QosEnv) (sys : SystemConfig) (db : Database)
    → Ensures (λ r. KeepsSystems db r.1) (init_qos env sys db)
unfolding init_qos
init_qos-KeepsSystems env sys db =
    let P : SystemConfig × Database → Type 0 = λ r. KeepsSystems db r.1 in
    Ensures-after P (init_dscp_map env.print env.dscp_entry env.dscp_count) _ (λ dscp.
      Ensures-after P (init_cos_map env.print env.cos_entry env.cos_count) _ (λ cos.
        Ensures-after P
          (init_schedule_profile env.strict env.schedule_entry env.schedule_count env.info
            (record { qos = sys.qos; profiles = db.schedule_profiles }))
          _
          (λ schedule.
            Ensures-after P (init_limits env.print env.acl sys.other_info) _ (λ limits. refl))))

-- From the daemon table on, one System row is added.
module _ (globals : Globals) (allocs : Allocs) (env : QosEnv) where
  configure_daemons-AddsSystem :
      (sys : SystemConfig) (db : Database)
      → Ensures (AddsSystem db) (configure_daemons globals allocs env sys db)
  unfolding configure_daemons
  configure_daemons-AddsSystem sys db = elim (Bool-cases allocs.daemon_list) [
    | inl e ↦ simp e (
        Ensures-after (AddsSystem db)
          (add_daemons globals.manifest.num_daemons globals.manifest.daemons db.daemons) _
          (λ rows.
            Ensures-bind (AddsSystem db) (λ r. KeepsSystems db r.1)
              (init_qos env (with_daemons globals db sys) (record db { daemons = rows })) _
              (init_qos-KeepsSystems env (with_daemons globals db sys)
                (record db { daemons = rows }))
              (λ done k. length-finish_row done.0 done.1 ∙ ap suc k)))
    | inr e ↦ simp e (length-finish_row sys db)
  ]

module _ (names : IdlNames) (ether_string : ℕ → Bytes) (find : Shash → Bytes → Option ℕ) where
  add_subsystems-KeepsSystems :
      (dir : Bytes) (allocs : Allocs) (i : ℕ) (ss : List Subsystem) (db : Database)
      → Ensures (KeepsSystems db) (add_subsystems names ether_string find dir allocs i ss db)
  unfolding add_subsystems
  add_subsystems-KeepsSystems dir allocs i [] db = refl
  add_subsystems-KeepsSystems dir allocs i (s ∷ ss) db =
      Ensures-after (KeepsSystems db)
        (initial_subsystem_add names ether_string find dir (allocs.interface_list i) s
          db.interfaces)
        _
        (λ rows.
          add_subsystems-KeepsSystems dir allocs (i + 1) ss
            (record db { subsystems = db.subsystems ++ rows.0 ∷ []; interfaces = rows.1 }))

  module _ (globals : Globals) (allocs : Allocs) (env : QosEnv) where
    configure_subsystems-AddsSystem :
        (sys : SystemConfig) (db : Database)
        → Ensures
            (AddsSystem db)
            (configure_subsystems names ether_string find globals allocs env sys db)
    unfolding configure_subsystems
    configure_subsystems-AddsSystem sys db = elim (Bool-cases allocs.subsystem_list) [
      | inl e ↦ simp e (
          Ensures-bind (AddsSystem db) (KeepsSystems db)
            (add_subsystems names ether_string find globals.hw_desc_dir allocs 0 globals.subsystems
              db)
            _ (add_subsystems-KeepsSystems globals.hw_desc_dir allocs 0 globals.subsystems db)
            (λ db' k.
              Ensures-map (AddsSystem db) (AddsSystem db') _ (λ d a. a ∙ ap suc k)
                (configure_daemons-AddsSystem globals allocs env _ db')))
      | inr e ↦ simp e (length-finish_row sys db)
    ]

    configure_default_vrf-systems :
        (sys : SystemConfig) (db : Database)
        → Ensures (λ r. r.1.systems ≡ db.systems) (configure_default_vrf names sys db)
    unfolding configure_default_vrf
    configure_default_vrf-systems sys db =
        Ensures-after (λ r. r.1.systems ≡ db.systems) (set_table_id names) _ (λ table_id. refl)

    pub initial_configure-AddsSystem :
        (db : Database)
        → Ensures (AddsSystem db) (initial_configure names ether_string find globals allocs env db)
    unfolding initial_configure configure_default_bridge
    initial_configure-AddsSystem db =
        Ensures-after (AddsSystem db) (start_row names globals.manifest.mgmt_intf) _ (λ sys.
          let bridged = configure_default_bridge names sys db in
          Ensures-bind (AddsSystem db) (λ r. r.1.systems ≡ db.systems)
            (configure_default_vrf names bridged.0 bridged.1) _
            (configure_default_vrf-systems bridged.0 bridged.1)
            (λ routed k.
              Ensures-after (AddsSystem db) (set_macs ether_string globals.subsystems routed.0) _
                (λ row.
                  Ensures-map (AddsSystem db) (AddsSystem routed.1) _
                    (λ d a. a ∙ ap (λ l. suc (length l)) k)
                    (configure_subsystems-AddsSystem row routed.1))))
