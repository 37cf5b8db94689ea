-- ===== src/Manifest/Sections.antt =====
-- The walk of `sysd_process_json` against the plain list of the sections that it meets.
use mathlib.Core.Path.{ap₂, fun_ext}
use ops_sysd.Base.{
  ap, ℕ, Bool, List, [], ◌∷◌, ◌++◌, ◌≡◌, refl, sym, if◌then◌else◌, inl, inr, Bool-cases,
}
use ops_sysd.Base.Text.{Bytes}
use ops_sysd.Base.Outcome.{Outcome, ok, fault, no_fuel, ◌>>=◌, Rc, rc_zero, rc_minus_one}
use ops_sysd.Manifest.Tree.{
  Json, Elems, Members, json_array, json_object, no_elem, elem, no_member, member,
}
use ops_sysd.Manifest.{
  Manifest, Action, skip, ◌then_do◌, continue_at, has_tag, daemons_tag, mgmt_intf_tag,
  process_daemons, process_mgmt_intf, process_json, process_elems, process_members,
}

-- An object under a name that the daemon cares about.
pub data Section : Type 0 where
  daemons_section : Members → Section
  mgmt_section : Members → Section

-- The sections of a document in the order of the text. One inside another does not count.
unfoldable mutual
  pub sections : Json → List Section
  sections (json_object ms) = sections_of_members ms
  sections (json_array es) = sections_of_elems es
  sections _ = []

  pub sections_of_elems : Elems → List Section
  sections_of_elems no_elem = []
  sections_of_elems (elem jp rest) = sections jp ++ sections_of_elems rest

  pub sections_of_members : Members → List Section
  sections_of_members no_member = []
  sections_of_members (member name (json_object ms) rest) =
      (if has_tag name daemons_tag
        then daemons_section ms ∷ []
        else if has_tag name mgmt_intf_tag
        then mgmt_section ms ∷ []
        else sections_of_members ms)
      ++ sections_of_members rest
  sections_of_members (member name (json_array es) rest) =
      sections_of_elems es ++ sections_of_members rest
  sections_of_members (member name _ rest) = sections_of_members rest

then_assoc : (a b c : Action) → (a then_do b) then_do c ≡ a then_do (b then_do c)
then_assoc a b c = fun_ext λ m. go (a m)
  where
    go :
        (r : Outcome (Rc × Manifest))
        → ((r >>= continue_at b) >>= continue_at c) ≡ (r >>= continue_at (b then_do c))
    go (ok (rc_zero, n)) = refl
    go (ok (rc_minus_one, n)) = refl
    go fault = refl
    go no_fuel = refl

then_skip : (a : Action) → a then_do skip ≡ a
then_skip a = fun_ext λ m. go (a m)
  where
    go : (r : Outcome (Rc × Manifest)) → (r >>= continue_at skip) ≡ r
    go (ok (rc_zero, n)) = refl
    go (ok (rc_minus_one, n)) = refl
    go fault = refl
    go no_fuel = refl

module _ (calloc_ok : ℕ → Bool) (block : Bytes) where
  unfoldable pub run_section : Section → Action
  run_section (daemons_section ms) = process_daemons calloc_ok ms
  run_section (mgmt_section ms) = process_mgmt_intf block ms

  -- One section after the other, up to the first error.
  unfoldable pub run_sections : List Section → Action
  unfolding run_section
  run_sections [] = skip
  run_sections (s ∷ ss) = run_section s then_do run_sections ss

  run_sections-append :
      (ss ts : List Section) → run_sections (ss ++ ts) ≡ run_sections ss then_do run_sections ts
  unfolding run_sections
  run_sections-append [] ts = refl
  run_sections-append (s ∷ ss) ts =
      rw (run_sections-append ss ts)
        (sym (then_assoc (run_section s) (run_sections ss) (run_sections ts)))

  run_sections-nil : skip ≡ run_sections []
  unfolding run_sections
  run_sections-nil = refl

  run_sections-one : (s : Section) → run_sections (s ∷ []) ≡ run_section s
  unfolding run_sections
  run_sections-one s = then_skip (run_section s)

  -- What a member of an object contributes.
  member_sections :
      (name : Bytes) (ms : Members) (inner : Action)
      → inner ≡ run_sections (sections_of_members ms)
      → (if has_tag name daemons_tag
          then process_daemons calloc_ok ms
          else if has_tag name mgmt_intf_tag
          then process_mgmt_intf block ms
          else inner)
        ≡ run_sections (
            if has_tag name daemons_tag
            then daemons_section ms ∷ []
            else if has_tag name mgmt_intf_tag
            then mgmt_section ms ∷ []
            else sections_of_members ms)
  unfolding run_section
  member_sections name ms inner e = elim (Bool-cases (has_tag name daemons_tag)) [
    | inl d ↦ rw d (sym (run_sections-one (daemons_section ms)))
    | inr d ↦ rw d (elim (Bool-cases (has_tag name mgmt_intf_tag)) [
      | inl g ↦ rw g (sym (run_sections-one (mgmt_section ms)))
      | inr g ↦ rw g e
    ])
  ]

  mutual
    unfolding process_json sections

    json_walk : (j : Json) → process_json calloc_ok block j ≡ run_sections (sections j)
    json_walk (json_object ms) = members_walk ms
    json_walk (json_array es) = elems_walk es
    json_walk _ = run_sections-nil

    elems_walk :
        (es : Elems) → process_elems calloc_ok block es ≡ run_sections (sections_of_elems es)
    elems_walk no_elem = run_sections-nil
    elems_walk (elem j rest) =
        rw (run_sections-append (sections j) (sections_of_elems rest))
          (ap₂ ◌then_do◌ (json_walk j) (elems_walk rest))

    members_walk :
        (ms : Members) → process_members calloc_ok block ms ≡ run_sections (sections_of_members ms)
    members_walk no_member = run_sections-nil
    members_walk (member name (json_object ms) rest) =
        rw run_sections-append
          (ap₂ ◌then_do◌ (member_sections name ms _ (members_walk ms)) (members_walk rest))
    members_walk (member name (json_array es) rest) =
        rw run_sections-append (ap₂ ◌then_do◌ (elems_walk es) (members_walk rest))
    members_walk (member name _ rest) = members_walk rest

  -- On every document and from every state, the recursive walk does what processing the sections
  -- of the document one after the other does, up to the first section that fails.
  pub process_json-sections :
      (j : Json) (m : Manifest) → process_json calloc_ok block j m ≡ run_sections (sections j) m
  process_json-sections j m = ap (λ (a : Action). a m) (json_walk j)
