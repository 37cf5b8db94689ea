-- ===== src/Configure/Passes.antt =====
-- The configuration is written once: in every course of passes and of changes by other processes
-- there is at most one System row, and a pass that finds one keeps the rows of all tables.
use ops_sysd.Base.{
  ℕ, suc, ◌≤◌, ◌≡◌, refl, ap, sym, ◌∙◌, Bool-cases, inl, inr, List, [], ◌∷◌, subst, Option, ◌==◌,
  length, arith,
}
use ops_sysd.Base.Text.{Bytes}
use ops_sysd.Base.Outcome.{Outcome, ok, ◌>>=◌, Ensures, Ensures-bind, Ensures-after, Ensures-map}
use ops_sysd.Configure.Initial.{initial_configure}
use ops_sysd.Configure.Tables.{SystemConfig, Database, QosEnv, Globals}
use ops_sysd.Configure.Interfaces.{IdlNames}
use ops_sysd.Configure.Once.{KeepsSystems, AddsSystem, initial_configure-AddsSystem}
use ops_sysd.Configure.Run.{
  Sysd, Pass, first_system, store_hw, first_pass, later_pass, configure_pass, package_pass,
  changed_pass, run,
}
use ops_sysd.Configure.Splits.{Shash}
use ops_sysd.HwDone.{SystemRow}
use ops_sysd.Packages.{PackageRow, add_package_info}
use ops_sysd.Release.{SoftwareColumns, update_sw_info}
use ops_sysd.Timezone.Apply.{handle_timezone_update}

-- What the daemon has configured, apart from the System row.
pub record IsSame (a b : Database) : Type 0 where
  pub bridges : b.bridges ≡ a.bridges
  pub ports : b.ports ≡ a.ports
  pub interfaces : b.interfaces ≡ a.interfaces
  pub vrfs : b.vrfs ≡ a.vrfs
  pub subsystems : b.subsystems ≡ a.subsystems
  pub daemons : b.daemons ≡ a.daemons
  pub queue_profiles : b.queue_profiles ≡ a.queue_profiles
  pub schedule_profiles : b.schedule_profiles ≡ a.schedule_profiles

length-store_hw :
    (hws : List SystemRow) (systems : List SystemConfig)
    → length (store_hw hws systems) ≡ length systems
length-store_hw [] systems = refl
length-store_hw (hw ∷ hws) [] = refl
length-store_hw (hw ∷ hws) (sys ∷ systems) = ap suc (length-store_hw hws systems)

-- As many System rows, and the same rows in the other tables.
abbrev pub Kept : Database → Database → Type 0
Kept a b = KeepsSystems a b × IsSame a b

IsSame-systems :
    (db : Database) (systems : List SystemConfig) → IsSame db (record db { systems = systems })
IsSame-systems db systems = record {
  bridges = refl;
  ports = refl;
  interfaces = refl;
  vrfs = refl;
  subsystems = refl;
  daemons = refl;
  queue_profiles = refl;
  schedule_profiles = refl;
}

pub Kept-refl : (db : Database) → Kept db db
Kept-refl db = (refl, IsSame-systems db db.systems)

abbrev KeptBy : Sysd → Sysd → Type 0
KeptBy s s' = Kept s.db s'.db

package_pass-Kept :
    (pass : Pass) (rows : List PackageRow) (s : Sysd)
    → Ensures (λ s'. s'.db ≡ s.db) (package_pass pass rows s)
unfolding package_pass
package_pass-Kept pass [] s =
    Ensures-after (λ s'. s'.db ≡ s.db)
      (add_package_info pass.insert_ok pass.commit_ok pass.parser_ok pass.file_ok pass.events []) _
      (λ load. refl)
package_pass-Kept pass (row ∷ rows) s = refl

later_pass-Kept :
    (write_outside : SoftwareColumns → SoftwareColumns → Outcome SoftwareColumns)
    (globals : Globals) (pass : Pass) (sys : SystemConfig) (rest : List SystemConfig) (s : Sysd)
    → s.db.systems ≡ sys ∷ rest
    → Ensures (KeptBy s) (later_pass write_outside globals pass sys rest s)
unfolding later_pass
later_pass-Kept write_outside globals pass sys rest s e =
    Ensures-after (KeptBy s) (write_outside sys.software (update_sw_info pass.release sys.software))
      _
      (λ software. (
        length-store_hw _ (record sys { software = software } ∷ rest) ∙ sym (ap length e),
        IsSame-systems s.db _,
      ))

-- The end of a pass leaves the database alone.
finish_pass :
    (P : Database → Type 0) (pass : Pass) (s : Sysd)
    → P s.db
    → Ensures
        (λ s'. P s'.db)
        (package_pass pass s.packages s >>= λ packaged.
          handle_timezone_update pass.unlinks pass.links
            (first_system packaged.db.systems)
            packaged.localtime
          >>= λ link. ok (record packaged { localtime = link }))
finish_pass P pass s p =
    Ensures-bind (λ s'. P s'.db) (λ s'. s'.db ≡ s.db) (package_pass pass s.packages s) _
      (package_pass-Kept pass s.packages s)
      (λ packaged e.
        Ensures-after (λ s'. P s'.db)
          (handle_timezone_update pass.unlinks pass.links (first_system packaged.db.systems)
            packaged.localtime)
          _ (λ link. subst P (sym e) p))

abbrev pub AtMostOne : Database → Type 0
AtMostOne db = length db.systems ≤ 1

module _ (names : IdlNames) (ether_string : ℕ → Bytes) (find : Shash → Bytes → Option ℕ)
    (write_outside : SoftwareColumns → SoftwareColumns → Outcome SoftwareColumns)
    (globals : Globals) (env : QosEnv) where
  configure_pass-Kept :
      (pass : Pass) (systems : List SystemConfig) (s : Sysd) (n : ℕ)
      → s.db.systems ≡ systems
      → length systems ≡ suc n
      → Ensures
          (KeptBy s)
          (configure_pass names ether_string find write_outside globals env pass systems s)
  configure_pass-Kept pass [] s n e l = absurd (omega (arith, l))
  configure_pass-Kept pass (sys ∷ rest) s n e l =
      later_pass-Kept write_outside globals pass sys rest s e

  -- What holds of the database before a pass and after its configuration holds after the pass.
  run-Ensures :
      (P : Database → Type 0) (pass : Pass) (s : Sysd)
      → P s.db
      → Ensures
          (λ s'. P s'.db)
          (configure_pass names ether_string find write_outside globals env pass s.db.systems
            (record s { idl_seqno = pass.seqno }))
      → Ensures (λ s'. P s'.db) (run names ether_string find write_outside globals env pass s)
  unfolding run changed_pass
  run-Ensures P pass s p c = elim (Bool-cases pass.lock_contended) [
    | inl e ↦ simp e p
    | inr e ↦ elim (Bool-cases pass.has_lock) [
      | inr f ↦ simp (e, f) p
      | inl f ↦ elim (Bool-cases (pass.seqno == s.idl_seqno)) [
        | inl g ↦ simp (e, f, g) p
        | inr g ↦
            simp (e, f, g)
              (Ensures-bind (λ s'. P s'.db) (λ s'. P s'.db)
                (changed_pass names ether_string find write_outside globals env pass s) _
                (Ensures-bind (λ s'. P s'.db) (λ s'. P s'.db)
                  (configure_pass names ether_string find write_outside globals env pass
                    s.db.systems (record s { idl_seqno = pass.seqno }))
                  _ c (λ configured q. finish_pass P pass configured q))
                (λ s' q. q))
      ]
    ]
  ]

  -- A pass on a database with a System row
  pub run-Kept :
      (pass : Pass) (s : Sysd) (n : ℕ)
      → length s.db.systems ≡ suc n
      → Ensures
          (λ s'. Kept s.db s'.db)
          (run names ether_string find write_outside globals env pass s)
  run-Kept pass s n l =
      run-Ensures (Kept s.db) pass s (Kept-refl s.db)
        (configure_pass-Kept pass s.db.systems (record s { idl_seqno = pass.seqno }) n refl l)

  configure_pass-AtMostOne :
      (pass : Pass) (systems : List SystemConfig) (s : Sysd)
      → s.db.systems ≡ systems
      → AtMostOne s.db
      → Ensures
          (λ s'. AtMostOne s'.db)
          (configure_pass names ether_string find write_outside globals env pass systems s)
  unfolding first_pass
  configure_pass-AtMostOne pass [] s e l =
      Ensures-bind (λ s'. AtMostOne s'.db) (AddsSystem s.db)
        (initial_configure names ether_string find (record globals { release = pass.release })
          pass.allocs env s.db)
        _
        (initial_configure-AddsSystem names ether_string find
          (record globals { release = pass.release }) pass.allocs env s.db)
        (λ db adds. elim (Bool-cases pass.txn_success) [
          | inl t ↦ simp t (omega (arith, adds, ap length e))
          | inr t ↦ simp t l
        ])
  configure_pass-AtMostOne pass (sys ∷ rest) s e l =
      Ensures-map (λ s'. AtMostOne s'.db) (λ s'. Kept s.db s'.db)
        (later_pass write_outside globals pass sys rest s) (λ s' k. omega (arith, k.0, l))
        (later_pass-Kept write_outside globals pass sys rest s e)

  pub run-AtMostOne :
      (pass : Pass) (s : Sysd)
      → AtMostOne s.db
      → Ensures
          (λ s'. AtMostOne s'.db)
          (run names ether_string find write_outside globals env pass s)
  run-AtMostOne pass s l =
      run-Ensures AtMostOne pass s l
        (configure_pass-AtMostOne pass s.db.systems (record s { idl_seqno = pass.seqno }) refl l)
