-- ===== src/Manifest/Runs.antt =====
-- Runs on the globals of the manifest that end with status 0, and what holds of the globals then.
use ops_sysd.Base.{◌≡◌, Bool, true, Option, List, [], ◌∷◌, ◌++◌, drop, some, length}
use ops_sysd.Base.Text.{Bytes}
use ops_sysd.Base.Outcome.{Outcome, ok, ◌>>=◌, Rc, rc_zero}
use ops_sysd.Manifest.Tree.{Members}
use ops_sysd.Manifest.Sections.{Section, daemons_section, mgmt_section}
use ops_sysd.Manifest.Entries.{NamesIntf, Holds, Leaves}
use ops_sysd.Manifest.{Manifest, Action, continue_at, set_num_hw_daemons}

-- The run ends with status 0, and `P` holds of the globals.
pub record Succeeds (P : Manifest → Type 0) (r : Outcome (Rc × Manifest)) : Type 0 where
  pub result : Manifest
  pub ends : r ≡ ok (rc_zero, result)
  pub leaves : P result

pub Succeeds-then :
    (P Q : Manifest → Type 0) (second : Action) (r : Outcome (Rc × Manifest))
    → Succeeds P r
    → ((n : Manifest) → P n → Succeeds Q (second n))
    → Succeeds Q (r >>= continue_at second)
Succeeds-then P Q second r first h =
    let rest = h first.result first.leaves in
    record { result = rest.result; ends = rw first.ends rest.ends; leaves = rest.leaves }

pub Succeeds-map :
    (P Q : Manifest → Type 0) (r : Outcome (Rc × Manifest))
    → ((n : Manifest) → P n → Q n)
    → Succeeds P r
    → Succeeds Q r
Succeeds-map P Q r h s = record { result = s.result; ends = s.ends; leaves = h s.result s.leaves }

-- One section, from what it stores
pub record Stores (block : Bytes) (ms : Members) (n : Manifest) : Type 0 where
  pub text : Bytes
  pub named : NamesIntf ms text
  pub holds : Holds (some (text ++ drop (length text) block)) true n

pub Leaves-set_num_hw_daemons :
    (block : Bytes) (ss : List Section) (stored : Option Bytes) (present : Bool) (n : Manifest)
    → Leaves block ss stored present n
    → Leaves block ss stored present (set_num_hw_daemons n)
unfolding set_num_hw_daemons
Leaves-set_num_hw_daemons block [] stored present n h = record {
  mgmt_intf_is = h.mgmt_intf_is;
  is_present = h.is_present;
}
Leaves-set_num_hw_daemons block (daemons_section ms ∷ ss) stored present n h =
    Leaves-set_num_hw_daemons block ss stored present n h
Leaves-set_num_hw_daemons block (mgmt_section ms ∷ ss) stored present n (s, named, h) =
    (s, named, Leaves-set_num_hw_daemons block ss _ _ n h)
