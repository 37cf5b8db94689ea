-- ===== src/Qos/Profiles.antt =====
-- What the queue and the schedule profiles of src/qos_init.c share: a table of profile rows, each a
-- map from queue numbers to entry rows. The code inserts a fresh entry row for each pair, so the
-- entry stands in the map itself; a pointer to a profile row is the row's name, by which every
-- function finds it again, and a write through it changes the first row of that name.
use ops_sysd.Base.{Bool, false, List, [], ◌∷◌, ◌++◌, Option, none, some, ◌==◌, if◌then◌else◌}
use ops_sysd.Base.Int.{ℤ, pos, negsuc}
use ops_sysd.Base.Text.{Bytes, str_eq}

abbrev pub int_eq : ℤ → ℤ → Bool
int_eq (pos m) (pos n) = m == n
int_eq (negsuc m) (negsuc n) = m == n
int_eq _ _ = false

pub record Profile (E : Type 0) : Type 0 where
  pub name : Bytes
  pub entries : List (ℤ × E)
  pub hw_default : Bool

module _ {E : Type 0} where
  -- The FOR_EACH loop over the profile rows.
  unfoldable pub get_profile_row : Bytes → List (Profile E) → Option (Profile E)
  get_profile_row name [] = none
  get_profile_row name (p ∷ ps) = if str_eq p.name name then some p else get_profile_row name ps

  -- A write through the pointer that `get_profile_row` gives.
  unfoldable pub update_row : Bytes → (Profile E → Profile E) → List (Profile E) → List (Profile E)
  update_row name change [] = []
  update_row name change (p ∷ ps) =
      if str_eq p.name name then change p ∷ ps else p ∷ update_row name change ps

  abbrev pub new_profile : Bytes → Profile E
  new_profile name = record { name = name; entries = []; hw_default = false }

  unfoldable pub insert_if_missing :
      Bytes → Option (Profile E) → List (Profile E) → List (Profile E)
  insert_if_missing name none ps = ps ++ new_profile name ∷ []
  insert_if_missing name (some p) ps = ps

  -- The loop over the keys of one profile.
  unfoldable pub get_entry_row : ℤ → List (ℤ × E) → Option E
  get_entry_row queue [] = none
  get_entry_row queue ((key, row) ∷ es) =
      if int_eq key queue then some row else get_entry_row queue es

  -- The two lists are copied, and the new pair goes behind them.
  unfoldable pub insert_entry_row : ℤ → E → List (ℤ × E) → List (ℤ × E)
  insert_entry_row queue row es = es ++ (queue, row) ∷ []

  -- A write through the pointer that `get_entry_row` gives.
  unfoldable pub update_entry : ℤ → (E → E) → List (ℤ × E) → List (ℤ × E)
  update_entry queue change [] = []
  update_entry queue change ((key, row) ∷ es) =
      if int_eq key queue then (key, change row) ∷ es else (key, row) ∷ update_entry queue change es

  unfoldable pub insert_entry_if_missing : ℤ → E → Option E → List (ℤ × E) → List (ℤ × E)
  unfolding insert_entry_row
  insert_entry_if_missing queue row none es = insert_entry_row queue row es
  insert_entry_if_missing queue row (some r) es = es

  -- "If no existing row, then insert a new queue row", and the update of the row.
  unfoldable pub set_entry : ℤ → E → (E → E) → List (ℤ × E) → List (ℤ × E)
  unfolding insert_entry_if_missing update_entry
  set_entry queue new change es =
      update_entry queue change (insert_entry_if_missing queue new (get_entry_row queue es) es)

  -- "Set hw_default for profile entry rows."
  abbrev pub change_entries : (E → E) → List (ℤ × E) → List (ℤ × E)
  change_entries change [] = []
  change_entries change ((key, row) ∷ es) = (key, change row) ∷ change_entries change es
