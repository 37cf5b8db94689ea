-- ===== src/Registration/Ready.antt =====
-- From the last report of a hardware daemon to the System row: the report wakes the daemon, and its next
-- pass says there that the hardware is up.
use ops_sysd.Base.{
  refl, ℕ, ◌+◌, ◌<◌, ◌≡◌, ◌∙◌, true, false, not, List, [], ◌∷◌, ◌++◌, Option, some, length, all,
  All, arith,
}
use ops_sysd.Base.Cstring.{strcpy-fits, strcat-fits}
use ops_sysd.Base.Int.{pos}
use ops_sysd.Base.Text.{Bytes}
use ops_sysd.Base.Outcome.{Outcome, ok}
use ops_sysd.Configure.Interfaces.{IdlNames}
use ops_sysd.Configure.Run.{Sysd, Pass, later_pass, package_pass, changed_pass, run}
use ops_sysd.Configure.Splits.{Shash}
use ops_sysd.Configure.Tables.{SystemConfig, QosEnv, Globals}
use ops_sysd.HwDone.{check, chk_if_hw_daemons_done, set_hw_done}
use ops_sysd.HwDone.Decision.{IsFoundSet, found-is_done}
use ops_sysd.Manifest.{count_hw}
use ops_sysd.Packages.{PackageRow}
use ops_sysd.Registration.{Column, Idl, IsIdl, ovsdb_conn_init}
use ops_sysd.Registration.Columns.{has_column}
use ops_sysd.Registration.Waking.{waking, receive_all, run-woken}
use ops_sysd.Release.{SoftwareColumns, update_sw_info}
use ops_sysd.Timezone.Apply.{handle_timezone_update, relink}
use ops_sysd.Timezone.Zones.{base_path}

-- The daemon between its first pass and the end of its check of the hardware daemons: the packages
-- are there, and the zone of the System row has room behind the path.
pub record IsWaiting (globals : Globals) (s : Sysd) (sys : SystemConfig) (zone : Bytes)
    : Type 0 where
  pub systems : s.db.systems ≡ sys ∷ []
  pub timezone : sys.timezone ≡ some zone
  pub zone_fits : 26 + length zone < 200
  pub first_package : PackageRow
  pub others : List PackageRow
  pub packages : s.packages ≡ first_package ∷ others
  pub not_set : s.hw_init_done_set ≡ false
  pub counted : globals.manifest.num_hw_daemons ≡ count_hw globals.manifest.daemons

-- The System row that says so
abbrev pub hw_up : SystemConfig → SoftwareColumns → SystemConfig
hw_up sys software = record sys {
  hw = record { cur_hw = pos 1; next_hw = pos 1 };
  software = software;
}

-- What the pass leaves of the daemon's state
abbrev pub after_pass : Pass → Sysd → SystemConfig → (zone : Bytes) → SoftwareColumns → Sysd
after_pass pass s sys zone software = record s {
  db = record s.db { systems = hw_up sys software ∷ [] };
  idl_seqno = pass.seqno;
  hw_init_done_set = true;
  localtime = relink pass.unlinks pass.links (base_path ++ zone) s.localtime;
}

module _ (names : IdlNames) (ether_string : ℕ → Bytes) (find : Shash → Bytes → Option ℕ)
    (write_outside : SoftwareColumns → SoftwareColumns → Outcome SoftwareColumns)
    (globals : Globals) (env : QosEnv) where
  changed_pass-up :
      (pass : Pass) (s : Sysd) (sys : SystemConfig) (zone : Bytes) (software : SoftwareColumns)
      → IsWaiting globals s sys zone
      → All (IsFoundSet s.db.daemons) globals.manifest.daemons
      → pass.hw_commit_ok ≡ true
      → write_outside sys.software (update_sw_info pass.release sys.software) ≡ ok software
      → changed_pass names ether_string find write_outside globals env pass s
        ≡ ok (after_pass pass s sys zone software)
  unfolding changed_pass later_pass check chk_if_hw_daemons_done set_hw_done package_pass
      handle_timezone_update
  changed_pass-up pass s sys zone software w h c o =
      let up = found-is_done s.db.daemons globals.manifest.daemons h in
      let base = strcpy-fits 200 base_path (omega arith) in
      let path = strcat-fits 200 base_path zone (omega (arith, w.zone_fits)) in
      simp (w.systems, o, w.not_set, w.counted, up, c, w.packages, w.timezone, base, path)

  module _ {S : Type 0} (idl : Idl S) (laws : IsIdl S idl) where
    -- With one System row whose zone has room behind its path, packages in their table, the hardware
    -- daemons of the manifest as many as counted, and the check of them not over: the daemon has
    -- seen all that the connection received, and then columns change of which at least one wakes it.
    -- If for every hardware daemon the first row that the check takes for its own has `cur_hw` above
    -- 0, the pass holds the lock, its transaction goes through, and the setters of the software
    -- columns return, then the pass returns, `cur_hw` and `next_hw` of the System row are 1, the
    -- check is over, /etc/localtime is what unlink and symlink make of it, and all else of the
    -- database is as it was but the software columns.
    pub run-up :
        (batches : List (List Column)) (batch : List Column) (pass : Pass) (s : Sysd)
        (sys : SystemConfig) (zone : Bytes) (software : SoftwareColumns)
        → IsWaiting globals s sys zone
        → s.idl_seqno ≡ idl.get_seqno (receive_all idl batches (ovsdb_conn_init idl).idl)
        → pass.seqno
          ≡ idl.get_seqno (idl.receive batch (receive_all idl batches (ovsdb_conn_init idl).idl))
        → all (λ c. not (has_column c waking)) batch ≡ false
        → All (IsFoundSet s.db.daemons) globals.manifest.daemons
        → pass.lock_contended ≡ false
        → pass.has_lock ≡ true
        → pass.hw_commit_ok ≡ true
        → write_outside sys.software (update_sw_info pass.release sys.software) ≡ ok software
        → run names ether_string find write_outside globals env pass s
          ≡ ok (record (after_pass pass s sys zone software) { complete = true })
    run-up batches batch pass s sys zone software w e f woken h free lock c o =
        run-woken idl laws names ether_string find write_outside globals env batches batch pass s e
          f woken free lock
        ∙ rw (changed_pass-up pass s sys zone software w h c o) refl
