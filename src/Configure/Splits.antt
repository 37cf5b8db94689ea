-- ===== src/Configure/Splits.antt =====
-- `sysd_set_splittable_port_info`: the references between a port that can be split and its subports.
use ops_sysd.Base.{
  ℕ, zero, suc, ◌+◌, Bool, true, false, List, [], ◌∷◌, ◌++◌, Option, none, some, ltb, if◌then◌else◌,
  length, get_elem?,
}
use ops_sysd.Base.Text.{Bytes}
use ops_sysd.Base.Outcome.{Outcome, ok, fault, ◌>>=◌}
use ops_sysd.Configure.Interfaces.{Interface}
use ops_sysd.Subsystem.{YamlPort}

abbrev pub sysd_max_split_ports : ℕ
sysd_max_split_ports = 4

-- The pairs of a shash in the order in which they were added.
abbrev pub Shash : Type 0
Shash = List (Bytes × ℕ)

abbrev pub is_splittable : YamlPort → Bool
is_splittable port = elim port.subports [
  | [] ↦ elim port.parent_port [ none ↦ false | some _ ↦ true ]
  | _ ∷ _ ↦ true
]

abbrev pub change_at {ℓ} : {A : Type ℓ} → (A → A) → ℕ → List A → List A
change_at f i [] = []
change_at f zero (x ∷ xs) = f x ∷ xs
change_at f (suc i) (x ∷ xs) = x ∷ change_at f i xs

-- The first loop, on the ports and the references to their rows.
abbrev pub add_named : Option Interface → ℕ → Shash → Outcome Shash
add_named none i sh = fault
add_named (some row) i sh = ok (sh ++ (row.name, i) ∷ [])

unfoldable pub add_splittable : List Interface → List YamlPort → List ℕ → Shash → Outcome Shash
add_splittable table [] is sh = ok sh
add_splittable table (port ∷ ports) [] sh = fault
add_splittable table (port ∷ ports) (i ∷ is) sh = do
  sh' ← (if is_splittable port then add_named (get_elem? table i) i sh else ok sh)
  add_splittable table ports is sh'

-- The places from `k` on.
abbrev pub places : ℕ → ℕ → List ℕ
places k zero = []
places k (suc n) = k ∷ places (k + 1) n

-- shash_find_data of OVS, with the pairs that were added
module _ (find : Shash → Bytes → Option ℕ) where
  abbrev pub found_parent : Option ℕ → Interface → Interface
  found_parent none row = row
  found_parent (some parent) row = record row { split_parent = some parent }

  abbrev pub set_parent : Shash → Option Bytes → ℕ → List Interface → List Interface
  set_parent sh none i table = table
  set_parent sh (some name) i table = change_at (found_parent (find sh name)) i table

  abbrev pub keep : Option ℕ → List ℕ → List ℕ
  keep none subports = subports
  keep (some subport) subports = subports ++ subport ∷ []

  -- The inner loop: every name is looked up into subports[j], found or not.
  unfoldable pub find_subports : Shash → List Bytes → List ℕ → Outcome (List ℕ)
  find_subports sh [] subports = ok subports
  find_subports sh (name ∷ names) subports =
      let rest = find_subports sh names (keep (find sh name) subports) in
      if ltb (length subports) sysd_max_split_ports then rest else fault

  abbrev pub set_children : Shash → List Bytes → ℕ → List Interface → Outcome (List Interface)
  set_children sh [] i table = ok table
  set_children sh (name ∷ names) i table = do
    subports ← find_subports sh (name ∷ names) []
    ok (change_at (λ row. record row { split_children = subports }) i table)

  -- The second loop
  unfoldable pub set_splits :
      Shash → List YamlPort → List ℕ → List Interface → Outcome (List Interface)
  unfolding find_subports
  set_splits sh [] is table = ok table
  set_splits sh (port ∷ ports) [] table = fault
  set_splits sh (port ∷ ports) (i ∷ is) table = do
    table' ← set_children sh port.subports i (set_parent sh port.parent_port i table)
    set_splits sh ports is table'

  unfoldable pub set_splittable_port_info :
      List YamlPort → List ℕ → List Interface → Outcome (List Interface)
  unfolding add_splittable set_splits
  set_splittable_port_info ports is table = do
    sh ← add_splittable table ports is []
    set_splits sh ports is table
