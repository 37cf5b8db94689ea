-- ===== src/Registration/Linked.antt =====
-- From "timezone set" in vtysh (src/cli/system_vty.c) to /etc/localtime: the column wakes the daemon
-- (src/sysd.c), and its next pass makes the link (src/sysd_ovsdb_if.c).
use ops_sysd.Base.{
  ℕ, ◌<◌, ◌≡◌, refl, ap, ◌∙◌, true, false, List, [], ◌∷◌, ◌++◌, Option, some, get_elem?, length,
}
use ops_sysd.Base.Text.{Bytes, codes, str_eq}
use ops_sysd.Base.Outcome.{Outcome, ok}
use ops_sysd.Configure.Interfaces.{IdlNames}
use ops_sysd.Configure.Run.{
  Sysd, Pass, first_system, store_hw, store_check, later_pass, package_pass, changed_pass, run,
}
use ops_sysd.Configure.Splits.{Shash}
use ops_sysd.Configure.Tables.{SystemConfig, QosEnv, Globals}
use ops_sysd.HwDone.{SystemRow, check}
use ops_sysd.Packages.{PackageRow}
use ops_sysd.Registration.{Column, Idl, IsIdl, system_col, ovsdb_conn_init}
use ops_sysd.Registration.Waking.{receive_all, run-woken}
use ops_sysd.Release.{SoftwareColumns, update_sw_info}
use ops_sysd.Timezone.Apply.{handle_timezone_update}
use ops_sysd.Timezone.Commands.{cmd_success, config_context_timezone, cli_platform_timezone_set}
use ops_sysd.Timezone.Setting.{cli_platform_timezone_set-stored}
use ops_sysd.Timezone.Tables.{IsTable}
use ops_sysd.Timezone.Zones.{base_path, ZoneDb}

first_system-store_hw :
    (hws : List SystemRow) (systems : List SystemConfig)
    → first_system (store_hw hws systems) ≡ first_system systems
first_system-store_hw [] systems = refl
first_system-store_hw (hw ∷ hws) [] = refl
first_system-store_hw (hw ∷ hws) (sys ∷ systems) = refl

-- What vtysh has stored in the first System row
abbrev store_zone : (zone : Bytes) → List SystemConfig → List SystemConfig
store_zone zone [] = []
store_zone zone (sys ∷ rest) = record sys { timezone = some zone } ∷ rest

abbrev pub with_zone : Sysd → (zone : Bytes) → Sysd
with_zone s zone = record s { db = record s.db { systems = store_zone zone s.db.systems } }

module _ (names : IdlNames) (ether_string : ℕ → Bytes) (find : Shash → Bytes → Option ℕ)
    (write_outside : SoftwareColumns → SoftwareColumns → Outcome SoftwareColumns)
    (globals : Globals) (env : QosEnv) where
  -- The pass up to the packages
  abbrev checked : Pass → Sysd → SystemConfig → SoftwareColumns → Sysd
  checked pass s sys software =
      let row = record sys { software = software } in
      store_check
        (check globals.manifest.daemons globals.manifest.num_hw_daemons pass.hw_commit_ok (record {
          rows = s.db.daemons;
          systems = row.hw ∷ [];
          hw_init_done_set = s.hw_init_done_set;
        }))
        (record s { idl_seqno = pass.seqno; db = record s.db { systems = row ∷ [] } })

  changed_pass-linked :
      (pass : Pass) (s : Sysd) (sys : SystemConfig) (software : SoftwareColumns)
      (link : Option Bytes) (first : PackageRow) (others : List PackageRow)
      → s.db.systems ≡ sys ∷ []
      → s.packages ≡ first ∷ others
      → write_outside sys.software (update_sw_info pass.release sys.software) ≡ ok software
      → handle_timezone_update pass.unlinks pass.links (some sys.timezone) s.localtime ≡ ok link
      → changed_pass names ether_string find write_outside globals env pass s
        ≡ ok (record (checked pass s sys software) { localtime = link })
  unfolding changed_pass later_pass package_pass
  changed_pass-linked pass s sys software link first others y p o h =
      simp (y, o, p, first_system-store_hw, h)

  module _ {S : Type 0} (idl : Idl S) (laws : IsIdl S idl) where
    -- Tables of vtysh that belong together, one System row whose timezone is shorter than 100 bytes, and
    -- packages in their table: if the transaction goes through, "timezone set NAME" with a name of
    -- `list_of_zones` succeeds and stores a zone for which the running configuration prints
    -- "timezone set NAME" again. The daemon, if it has seen all that its connection received before, is
    -- woken by this change; and its next pass, if it holds the lock and the setters of the software
    -- columns return, returns and leaves /etc/localtime as a link to that zone, if unlink and symlink go
    -- through.
    pub cli_platform_timezone_set-run :
        (zones : ZoneDb) (old name : Bytes) (i : ℕ) (batches : List (List Column)) (pass : Pass)
        (s : Sysd) (sys : SystemConfig) (software : SoftwareColumns) (first : PackageRow)
        (others : List PackageRow)
        → IsTable zones
        → s.db.systems ≡ sys ∷ []
        → sys.timezone ≡ some old
        → length old < 100
        → get_elem? zones.list_of_zones i ≡ some name
        → s.packages ≡ first ∷ others
        → s.idl_seqno ≡ idl.get_seqno (receive_all idl batches (ovsdb_conn_init idl).idl)
        → pass.seqno
          ≡ idl.get_seqno (
              idl.receive
                (system_col (codes "timezone") ∷ [])
                (receive_all idl batches (ovsdb_conn_init idl).idl))
        → pass.lock_contended ≡ false
        → pass.has_lock ≡ true
        → pass.unlinks ≡ true
        → pass.links ≡ true
        → write_outside sys.software (update_sw_info pass.release sys.software) ≡ ok software
        → (zone : Bytes) × (s' : Sysd) × (cli_platform_timezone_set zones true true name
              (first_system s.db.systems)
            ≡ ok (record { rc = cmd_success; output = []; system = some (some zone) }))
          × (config_context_timezone (some (some zone)) ≡ ok ((codes "timezone set " ++ name) ∷ []))
          × (run names ether_string find write_outside globals env pass (with_zone s zone) ≡ ok s')
          × (s'.localtime ≡ some (base_path ++ zone))
    unfolding str_eq
    cli_platform_timezone_set-run zones old name i batches pass s sys software first others t y z l
          g p e f free lock u k o =
        let (zone, _, _, stored, printed, _, linked) =
          cli_platform_timezone_set-stored zones true old name i s.localtime t l g in
        let row = record sys { timezone = some zone } in
        let link : handle_timezone_update pass.unlinks pass.links (some (some zone)) s.localtime
            ≡ ok (some (base_path ++ zone)) =
          rw (u, k) linked in
        let passed =
          changed_pass-linked pass (with_zone s zone) row software (some (base_path ++ zone)) first
            others (ap (store_zone zone) y) p o link in
        (
          zone,
          record (checked pass (with_zone s zone) row software) {
            localtime = some (base_path ++ zone);
            complete = true;
          },
          rw (y, z) stored,
          printed,
          run-woken idl laws names ether_string find write_outside globals env batches
                (system_col (codes "timezone") ∷ []) pass (with_zone s zone) e f refl free lock
              ∙ rw passed refl,
          refl,
        )
