-- ===== src/Configure/Refinement.antt =====
-- Every pass of `sysd_run` (src/sysd_ovsdb_if.c) as one step of a machine with two switches.
use ops_sysd.Base.{
  ℕ, ◌≡◌, refl, sym, ap, ◌∙◌, Bool, true, not, ◌&&◌, ◌||◌, Bool-cases, inl, inr, List, [], ◌∷◌, map,
  Option, ◌==◌, length, arith,
}
use ops_sysd.Base.Text.{Bytes}
use ops_sysd.Base.Outcome.{Outcome, ok, ◌>>=◌, Ensures, Ensures-bind, Ensures-after, Ensures-map}
use ops_sysd.Configure.Initial.{initial_configure}
use ops_sysd.Configure.Tables.{SystemConfig, QosEnv, Globals}
use ops_sysd.Configure.Interfaces.{IdlNames}
use ops_sysd.Configure.Once.{AddsSystem, initial_configure-AddsSystem}
use ops_sysd.Configure.Phases.{
  Phase, advance, has_system, phase_of, has_system-store_hw, advance-first, advance-later,
  has_system-txn,
}
use ops_sysd.Configure.Run.{
  Sysd, Pass, first_system, store_check, first_pass, later_pass, configure_pass, package_pass,
  changed_pass, run,
}
use ops_sysd.Configure.Splits.{Shash}
use ops_sysd.HwDone.{HwState, is_done, chk_if_hw_daemons_done, check, set_hw_done}
use ops_sysd.Manifest.{DaemonInfo}
use ops_sysd.Packages.{PackageRow, add_package_info}
use ops_sysd.Release.{SoftwareColumns, update_sw_info}
use ops_sysd.Timezone.Apply.{handle_timezone_update}

abbrev pub phase : Sysd → Phase
phase s = record { configured = has_system s.db.systems; hw_done = s.hw_init_done_set }

-- The daemon has the lock, and the database has changed.
abbrev pub is_active : Pass → Sysd → Bool
is_active pass s = not pass.lock_contended && pass.has_lock && not (pass.seqno == s.idl_seqno)

check-hw_done :
    (daemons : List DaemonInfo) (n : ℕ) (commit_ok : Bool) (s : HwState)
    → (check daemons n commit_ok s).hw_init_done_set
      ≡ s.hw_init_done_set || is_done daemons n s.rows
unfolding check chk_if_hw_daemons_done set_hw_done
check-hw_done daemons n commit_ok s = ground arith

store_check-phase :
    (hw : HwState) (s : Sysd)
    → phase (store_check hw s) ≡ phase_of (has_system s.db.systems) hw.hw_init_done_set
store_check-phase hw s =
    ap (λ c. phase_of c hw.hw_init_done_set) (has_system-store_hw hw.systems s.db.systems)

package_pass-phase :
    (pass : Pass) (rows : List PackageRow) (s : Sysd)
    → Ensures (λ s'. phase s' ≡ phase s) (package_pass pass rows s)
unfolding package_pass
package_pass-phase pass [] s =
    Ensures-after (λ s'. phase s' ≡ phase s)
      (add_package_info pass.insert_ok pass.commit_ok pass.parser_ok pass.file_ok pass.events []) _
      (λ load. refl)
package_pass-phase pass (row ∷ rows) s = refl

-- Whether the hardware daemons of the manifest have all reported
abbrev pub is_ready : Globals → Sysd → Bool
is_ready globals s = is_done globals.manifest.daemons globals.manifest.num_hw_daemons s.db.daemons

-- What the check is given
abbrev checked : Sysd → List SystemConfig → HwState
checked s systems = record {
  rows = s.db.daemons;
  systems = map (λ row. row.hw) systems;
  hw_init_done_set = s.hw_init_done_set;
}

module _ (write_outside : SoftwareColumns → SoftwareColumns → Outcome SoftwareColumns)
    (globals : Globals) where
  later_pass-phase :
      (pass : Pass) (sys : SystemConfig) (rest : List SystemConfig) (s : Sysd)
      → Ensures
          (λ s'.
            phase s'
            ≡ record { configured = true; hw_done = s.hw_init_done_set || is_ready globals s })
          (later_pass write_outside globals pass sys rest s)
  unfolding later_pass
  later_pass-phase pass sys rest s =
      Ensures-after _ (write_outside sys.software (update_sw_info pass.release sys.software)) _
        (λ software.
          store_check-phase
            (check globals.manifest.daemons globals.manifest.num_hw_daemons pass.hw_commit_ok
              (checked s (record sys { software = software } ∷ rest)))
            (record s { db = record s.db { systems = record sys { software = software } ∷ rest } })
          ∙ ap (phase_of true) (
              check-hw_done globals.manifest.daemons globals.manifest.num_hw_daemons
                pass.hw_commit_ok (checked s (record sys { software = software } ∷ rest))))

module _ (names : IdlNames) (ether_string : ℕ → Bytes) (find : Shash → Bytes → Option ℕ)
    (write_outside : SoftwareColumns → SoftwareColumns → Outcome SoftwareColumns)
    (globals : Globals) (env : QosEnv) where
  abbrev SteppedTo : Bool → Pass → Sysd → Sysd → Type 0
  SteppedTo active pass s s' =
      phase s' ≡ advance active pass.txn_success (is_ready globals s) (phase s)

  configure_pass-phase :
      (pass : Pass) (systems : List SystemConfig) (s : Sysd)
      → s.db.systems ≡ systems
      → Ensures
          (SteppedTo true pass s)
          (configure_pass names ether_string find write_outside globals env pass systems s)
  unfolding first_pass
  configure_pass-phase pass [] s e =
      Ensures-bind (SteppedTo true pass s) (AddsSystem s.db)
        (initial_configure names ether_string find (record globals { release = pass.release })
          pass.allocs env s.db)
        _
        (initial_configure-AddsSystem names ether_string find
          (record globals { release = pass.release }) pass.allocs env s.db)
        (λ db adds.
          let none_yet = ap has_system e in
          ap (λ c. phase_of c s.hw_init_done_set)
            (has_system-txn pass.txn_success s.db db (length s.db.systems) none_yet adds)
          ∙ sym (
              advance-first (has_system s.db.systems) s.hw_init_done_set pass.txn_success
                (is_ready globals s) none_yet))
  configure_pass-phase pass (sys ∷ rest) s e =
      Ensures-map (SteppedTo true pass s) _ (later_pass write_outside globals pass sys rest s)
        (λ s' same.
          same
          ∙ sym (
              advance-later (has_system s.db.systems) s.hw_init_done_set pass.txn_success
                (is_ready globals s) (ap has_system e)))
        (later_pass-phase write_outside globals pass sys rest s)

  -- The end of a pass changes neither switch.
  finish_pass-phase :
      (pass : Pass) (s : Sysd)
      → Ensures
          (λ s'. phase s' ≡ phase s)
          (package_pass pass s.packages s >>= λ packaged.
            handle_timezone_update pass.unlinks pass.links
              (first_system packaged.db.systems)
              packaged.localtime
            >>= λ link. ok (record packaged { localtime = link }))
  finish_pass-phase pass s =
      Ensures-bind (λ s'. phase s' ≡ phase s) (λ s'. phase s' ≡ phase s)
        (package_pass pass s.packages s) _ (package_pass-phase pass s.packages s)
        (λ packaged e.
          Ensures-after (λ s'. phase s' ≡ phase s)
            (handle_timezone_update pass.unlinks pass.links (first_system packaged.db.systems)
              packaged.localtime)
            _ (λ link. e))

  -- Every pass that returns is one step of the machine. A pass that is active, on a database without a
  -- System row, configures it exactly if the transaction succeeds; on one with a System row, it ends
  -- the check of the hardware daemons exactly if they are ready or it was over; any other pass changes
  -- neither.
  pub run-advance :
      (pass : Pass) (s : Sysd)
      → Ensures
          (λ s'.
            phase s' ≡ advance (is_active pass s) pass.txn_success (is_ready globals s) (phase s))
          (run names ether_string find write_outside globals env pass s)
  unfolding run changed_pass
  run-advance pass s = elim (Bool-cases pass.lock_contended) [
    | inl e ↦ simp e refl
    | inr e ↦ elim (Bool-cases pass.has_lock) [
      | inr f ↦ simp (e, f) refl
      | inl f ↦ elim (Bool-cases (pass.seqno == s.idl_seqno)) [
        | inl g ↦ simp (e, f, g) refl
        | inr g ↦
            simp (e, f, g)
              (Ensures-bind (SteppedTo true pass s) (SteppedTo true pass s)
                (changed_pass names ether_string find write_outside globals env pass s) _
                (Ensures-bind (SteppedTo true pass s) (SteppedTo true pass s)
                  (configure_pass names ether_string find write_outside globals env pass
                    s.db.systems (record s { idl_seqno = pass.seqno }))
                  _
                  (configure_pass-phase pass s.db.systems (record s { idl_seqno = pass.seqno })
                    refl)
                  (λ configured q.
                    Ensures-map (SteppedTo true pass s) (λ s'. phase s' ≡ phase configured) _
                      (λ s' same. same ∙ q) (finish_pass-phase pass configured)))
                (λ s' q. q))
      ]
    ]
  ]
