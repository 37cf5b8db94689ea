-- ===== src/Configure/Run.antt =====
-- `sysd_run`: one pass of the loop of main, on the database and the globals of the daemon.
use ops_sysd.Base.{ℕ, Bool, true, not, List, [], ◌∷◌, map, Option, none, some, ◌==◌, if◌then◌else◌}
use ops_sysd.Base.Text.{Bytes}
use ops_sysd.Base.Outcome.{Outcome, ok, ◌>>=◌}
use ops_sysd.Configure.Initial.{initial_configure}
use ops_sysd.Configure.Tables.{SystemConfig, Database, QosEnv, Globals, Allocs}
use ops_sysd.Configure.Interfaces.{IdlNames}
use ops_sysd.Configure.Splits.{Shash}
use ops_sysd.HwDone.{HwState, SystemRow, check}
use ops_sysd.Packages.{Event, PackageRow, add_package_info}
use ops_sysd.Release.{SoftwareColumns, update_sw_info}
use ops_sysd.Timezone.Apply.{LocalTime, handle_timezone_update}
use ops_sysd.Timezone.Commands.{System}

-- The database and the state of the process; `idl_seqno` is a uint32_t.
pub record Sysd : Type 0 where
  pub db : Database
  pub packages : List PackageRow
  pub idl_seqno : ℕ
  pub hw_init_done_set : Bool
  pub localtime : LocalTime
  pub complete : Bool

-- What the pass finds: the lock and the sequence number of the IDL, the release file, the results of
-- the allocations and of the transactions, the package file, and how unlink and symlink end.
pub record Pass : Type 0 where
  pub lock_contended : Bool
  pub has_lock : Bool
  pub seqno : ℕ
  pub release : Option (List Bytes)
  pub allocs : Allocs
  pub txn_success : Bool
  pub hw_commit_ok : Bool
  pub parser_ok : Bool
  pub file_ok : Bool
  pub events : List Event
  pub insert_ok : ℕ → Bool
  pub commit_ok : ℕ → Bool
  pub unlinks : Bool
  pub links : Bool

-- ovsrec_system_first, in the column that the timezone is read from
abbrev pub first_system : List SystemConfig → System
first_system [] = none
first_system (sys ∷ rest) = some sys.timezone

-- The columns cur_hw and next_hw go back to their rows.
abbrev pub store_hw : List SystemRow → List SystemConfig → List SystemConfig
store_hw [] systems = systems
store_hw (hw ∷ hws) [] = []
store_hw (hw ∷ hws) (sys ∷ systems) = record sys { hw = hw } ∷ store_hw hws systems

abbrev pub store_check : HwState → Sysd → Sysd
store_check hw s = record s {
  db = record s.db { systems = store_hw hw.systems s.db.systems };
  hw_init_done_set = hw.hw_init_done_set;
}

-- if (ovsrec_package_info_first(idl) == NULL)
unfoldable pub package_pass : Pass → List PackageRow → Sysd → Outcome Sysd
package_pass pass [] s = do
  load ← add_package_info pass.insert_ok pass.commit_ok pass.parser_ok pass.file_ok pass.events []
  ok (record s { packages = load.table })
package_pass pass (row ∷ rows) s = ok s

-- `write_outside` is what the setters of the IDL do to the software columns while no transaction is
-- open, from the old and the new values.
module _ (write_outside : SoftwareColumns → SoftwareColumns → Outcome SoftwareColumns)
    (globals : Globals) where
  unfoldable pub later_pass : Pass → SystemConfig → List SystemConfig → Sysd → Outcome Sysd
  unfolding check
  later_pass pass sys rest s = do
    software ← write_outside sys.software (update_sw_info pass.release sys.software)
    let systems = record sys { software = software } ∷ rest
    let hw =
        check globals.manifest.daemons globals.manifest.num_hw_daemons pass.hw_commit_ok (record {
          rows = s.db.daemons;
          systems = map (λ row. row.hw) systems;
          hw_init_done_set = s.hw_init_done_set;
        })
    ok (store_check hw (record s { db = record s.db { systems = systems } }))

module _ (names : IdlNames) (ether_string : ℕ → Bytes) (find : Shash → Bytes → Option ℕ)
    (write_outside : SoftwareColumns → SoftwareColumns → Outcome SoftwareColumns)
    (globals : Globals) (env : QosEnv) where
  -- cfg == NULL: the transaction takes effect as a whole or not at all.
  unfoldable pub first_pass : Pass → Sysd → Outcome Sysd
  unfolding initial_configure
  first_pass pass s = do
    db ←
        initial_configure names ether_string find (record globals { release = pass.release })
          pass.allocs env s.db
    ok (record s { db = if pass.txn_success then db else s.db })

  abbrev pub configure_pass : Pass → List SystemConfig → Sysd → Outcome Sysd
  configure_pass pass [] s = first_pass pass s
  configure_pass pass (sys ∷ rest) s = later_pass write_outside globals pass sys rest s

  unfoldable pub changed_pass : Pass → Sysd → Outcome Sysd
  unfolding first_pass later_pass package_pass
  changed_pass pass s = do
    configured ← configure_pass pass s.db.systems (record s { idl_seqno = pass.seqno })
    packaged ← package_pass pass configured.packages configured
    link ←
        handle_timezone_update pass.unlinks pass.links (first_system packaged.db.systems)
          packaged.localtime
    ok (record packaged { localtime = link })

  -- `sysd_run`; `complete` is daemonize_complete.
  unfoldable pub run : Pass → Sysd → Outcome Sysd
  unfolding changed_pass
  run pass s =
      if pass.lock_contended
      then ok s
      else if not pass.has_lock
      then ok s
      else if pass.seqno == s.idl_seqno
      then ok (record s { complete = true })
      else changed_pass pass s >>= λ s'. ok (record s' { complete = true })

  -- The loop of main, for as many passes as there are.
  unfoldable pub run_all : List Pass → Sysd → Outcome Sysd
  unfolding run
  run_all [] s = ok s
  run_all (pass ∷ passes) s = run pass s >>= run_all passes
