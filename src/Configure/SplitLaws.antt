-- ===== src/Configure/SplitLaws.antt =====
-- The rows after `sysd_set_splittable_port_info`, without its loops over indices.
use mathlib.Core.List.{append_assoc, append-nil}
use ops_sysd.Base.{
  ℕ, ◌+◌, ◌≤◌, ◌≡◌, refl, ap, ◌∙◌, Bool-cases, inl, inr, List, [], ◌∷◌, ◌++◌, Option, none, some,
  lt→ltb, if◌then◌else◌, length, length-append, get_elem?, All, arith,
}
use ops_sysd.Base.Text.{Bytes}
use ops_sysd.Base.Outcome.{ok}
use ops_sysd.Configure.Interfaces.{Interface}
use ops_sysd.Configure.Splits.{
  places, sysd_max_split_ports, Shash, is_splittable, change_at, add_splittable, found_parent,
  set_parent, keep, find_subports, set_children, set_splits, set_splittable_port_info,
}
use ops_sysd.Subsystem.{YamlPort}

-- The pairs of the ports that can be split or are subports, with the names and places of their rows.
abbrev pub named_from : ℕ → List YamlPort → List Interface → Shash
named_from k [] rows = []
named_from k (port ∷ ports) [] = []
named_from k (port ∷ ports) (row ∷ rows) =
    (if is_splittable port then (row.name, k) ∷ [] else []) ++ named_from (k + 1) ports rows

module _ {A : Type 0} where
  change_at-append :
      (f : A → A) (front : List A) (x : A) (xs : List A)
      → change_at f (length front) (front ++ (x ∷ xs)) ≡ front ++ (f x ∷ xs)
  change_at-append f [] x xs = refl
  change_at-append f (y ∷ front) x xs = ap (◌∷◌ y) (change_at-append f front x xs)

  get_elem?-append :
      (front : List A) (x : A) (xs : List A) → get_elem? (front ++ (x ∷ xs)) (length front) ≡ some x
  get_elem?-append [] x xs = refl
  get_elem?-append (y ∷ front) x xs = get_elem?-append front x xs

  length-snoc : (front : List A) (x : A) → length (front ++ x ∷ []) ≡ length front + 1
  length-snoc front x = length-append front (x ∷ [])

add_splittable-named_from :
    (front rows : List Interface) (ports : List YamlPort) (sh : Shash)
    → length rows ≡ length ports
    → add_splittable (front ++ rows) ports (places (length front) (length ports)) sh
      ≡ ok (sh ++ named_from (length front) ports rows)
unfolding add_splittable
add_splittable-named_from front rows [] sh l = rw (append-nil sh) refl
add_splittable-named_from front [] (port ∷ ports) sh l = absurd (omega (arith, l))
add_splittable-named_from front (row ∷ rows) (port ∷ ports) sh l =
    let next = add_splittable-named_from (front ++ row ∷ []) rows ports in
    let place = length-snoc front row in
    let apart = append_assoc front (row ∷ []) rows in
    elim (Bool-cases (is_splittable port)) [
      | inl e ↦
          rw (e, get_elem?-append front row rows)
            (rw (place, apart) at next (sh ++ (row.name, length front) ∷ []) (omega (arith, l))
              ∙ ap ok (
                  append_assoc sh ((row.name, length front) ∷ [])
                    (named_from (length front + 1) ports rows)))
      | inr e ↦ rw e (rw (place, apart) at next sh (omega (arith, l)))
    ]

module _ (find : Shash → Bytes → Option ℕ) where
  -- The places that are found for the names, in their order.
  abbrev pub found : Shash → List Bytes → List ℕ → List ℕ
  found sh [] js = js
  found sh (name ∷ names) js = found sh names (keep find (find sh name) js)

  -- The row of a port with its references.
  abbrev pub split_parent_of : Shash → Option Bytes → Interface → Interface
  split_parent_of sh none row = row
  split_parent_of sh (some name) row = found_parent find (find sh name) row

  abbrev pub split_children_of : Shash → List Bytes → Interface → Interface
  split_children_of sh [] row = row
  split_children_of sh (name ∷ names) row = record row {
    split_children = found sh (name ∷ names) [];
  }

  abbrev pub split_rows : Shash → List YamlPort → List Interface → List Interface
  split_rows sh [] rows = rows
  split_rows sh (port ∷ ports) [] = []
  split_rows sh (port ∷ ports) (row ∷ rows) =
      split_children_of sh port.subports (split_parent_of sh port.parent_port row)
      ∷ split_rows sh ports rows

  keep_one : (o : Option ℕ) (js : List ℕ) → length (keep find o js) ≤ length js + 1
  keep_one none js = omega arith
  keep_one (some j) js = omega (arith, length-append js (j ∷ []))

  find_subports-found :
      (sh : Shash) (names : List Bytes) (js : List ℕ)
      → length js + length names ≤ sysd_max_split_ports
      → find_subports find sh names js ≡ ok (found sh names js)
  unfolding find_subports
  find_subports-found sh [] js fits = refl
  find_subports-found sh (name ∷ names) js fits =
      let k = keep_one (find sh name) js in
      rw (lt→ltb (length js) sysd_max_split_ports (omega (arith, fits)))
        (find_subports-found sh names (keep find (find sh name) js) (omega (arith, fits, k)))

  set_parent-append :
      (sh : Shash) (parent : Option Bytes) (front : List Interface) (row : Interface)
      (rows : List Interface)
      → set_parent find sh parent (length front) (front ++ (row ∷ rows))
        ≡ front ++ (split_parent_of sh parent row ∷ rows)
  set_parent-append sh none front row rows = refl
  set_parent-append sh (some name) front row rows =
      change_at-append (found_parent find (find sh name)) front row rows

  set_children-append :
      (sh : Shash) (names : List Bytes) (front : List Interface) (row : Interface)
      (rows : List Interface)
      → length names ≤ sysd_max_split_ports
      → set_children find sh names (length front) (front ++ (row ∷ rows))
        ≡ ok (front ++ (split_children_of sh names row ∷ rows))
  set_children-append sh [] front row rows fits = refl
  set_children-append sh (name ∷ names) front row rows fits =
      rw (find_subports-found sh (name ∷ names) [] (omega (arith, fits))) (
        ap ok (
          change_at-append (λ r. record r { split_children = found sh (name ∷ names) [] }) front row
            rows))

  set_splits-split_rows :
      (sh : Shash) (front rows : List Interface) (ports : List YamlPort)
      → length rows ≡ length ports
      → All (λ p. length p.subports ≤ sysd_max_split_ports) ports
      → set_splits find sh ports (places (length front) (length ports)) (front ++ rows)
        ≡ ok (front ++ split_rows sh ports rows)
  unfolding set_splits
  set_splits-split_rows sh front rows [] l h = refl
  set_splits-split_rows sh front [] (port ∷ ports) l h = absurd (omega (arith, l))
  set_splits-split_rows sh front (row ∷ rows) (port ∷ ports) l (s, h) =
      let row₁ = split_parent_of sh port.parent_port row in
      let row₂ = split_children_of sh port.subports row₁ in
      let next = set_splits-split_rows sh (front ++ row₂ ∷ []) rows ports (omega (arith, l)) h in
      rw
        (
          set_parent-append sh port.parent_port front row rows,
          set_children-append sh port.subports front row₁ rows s,
        )
        (rw
          (
            length-snoc front row₂,
            append_assoc front (row₂ ∷ []) rows,
            append_assoc front (row₂ ∷ []) (split_rows sh ports rows),
          )
          at next)

  -- Behind whatever rows there were, with a row for every port and at most four subports each: every
  -- row gets a reference to what is found for the name of its port's parent, if that is found, and
  -- references to what is found for the subports, in their order, if it has any. Names are looked up
  -- among the rows of the ports that have subports or a parent.
  pub set_splittable_port_info-split_rows :
      (front rows : List Interface) (ports : List YamlPort)
      → length rows ≡ length ports
      → All (λ p. length p.subports ≤ sysd_max_split_ports) ports
      → set_splittable_port_info find ports (places (length front) (length ports)) (front ++ rows)
        ≡ ok (front ++ split_rows (named_from (length front) ports rows) ports rows)
  unfolding set_splittable_port_info
  set_splittable_port_info-split_rows front rows ports l h =
      rw (add_splittable-named_from front rows ports [] l)
        (set_splits-split_rows (named_from (length front) ports rows) front rows ports l h)
