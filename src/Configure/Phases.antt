-- ===== src/Configure/Phases.antt =====
-- The daemon as a machine with two switches: its configuration and its check of the hardware daemons.
use ops_sysd.Base.{
  ℕ, suc, ◌≡◌, refl, Bool, true, false, ◌||◌, List, [], ◌∷◌, length, if◌then◌else◌, not, arith,
}
use ops_sysd.Configure.Run.{store_hw}
use ops_sysd.Configure.Tables.{SystemConfig, Database}
use ops_sysd.HwDone.{SystemRow}

-- What the daemon promises: whether the configuration is there, and whether the check of the hardware
-- daemons is over.
pub record Phase : Type 0 where
  pub configured : Bool
  pub hw_done : Bool

-- One step, for a pass that looks at the database or does not, a transaction that succeeds or does
-- not, and hardware daemons that are ready or not.
abbrev pub advance : (active txn_success ready : Bool) → Phase → Phase
advance active txn_success ready p =
    if not active
    then p
    else if not p.configured
    then record p { configured = txn_success }
    else record p { hw_done = p.hw_done || ready }

abbrev pub has_system : List SystemConfig → Bool
has_system [] = false
has_system (sys ∷ rest) = true

abbrev pub phase_of : Bool → Bool → Phase
phase_of configured hw_done = record { configured = configured; hw_done = hw_done }

pub has_system-store_hw :
    (hws : List SystemRow) (systems : List SystemConfig)
    → has_system (store_hw hws systems) ≡ has_system systems
has_system-store_hw [] systems = refl
has_system-store_hw (hw ∷ hws) [] = refl
has_system-store_hw (hw ∷ hws) (sys ∷ systems) = refl

has_system-suc :
    (systems : List SystemConfig) (n : ℕ) → length systems ≡ suc n → has_system systems ≡ true
has_system-suc [] n h = absurd (omega (arith, h))
has_system-suc (sys ∷ rest) n h = refl

pub advance-first :
    (configured hw_done txn_success ready : Bool)
    → configured ≡ false
    → advance true txn_success ready (phase_of configured hw_done) ≡ phase_of txn_success hw_done
advance-first configured hw_done txn_success ready h = rw h refl

pub advance-later :
    (configured hw_done txn_success ready : Bool)
    → configured ≡ true
    → advance true txn_success ready (phase_of configured hw_done)
      ≡ phase_of true (hw_done || ready)
advance-later configured hw_done txn_success ready h = rw h refl

pub has_system-txn :
    (txn_success : Bool) (db db' : Database) (n : ℕ)
    → has_system db.systems ≡ false
    → length db'.systems ≡ suc n
    → has_system (if txn_success then db' else db).systems ≡ txn_success
has_system-txn true db db' n h l = has_system-suc db'.systems n l
has_system-txn false db db' n h l = h
