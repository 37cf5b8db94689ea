-- ===== src/Manifest/Counts.antt =====
-- What the daemon knows once the manifest is read: the list of daemons and its two counters.
use mathlib.Core.List.{append_assoc, append-nil}
use mathlib.Core.Path.{subst}
use ops_sysd.Base.{
  ℕ, ◌≡◌, refl, sym, ap, ◌∙◌, Bool, true, false, inl, inr, Bool-cases, List, [], ◌∷◌, ◌++◌, some,
  arith, ltb, leb, if◌then◌else◌, length, take, length-append,
}
use ops_sysd.Base.Text.{Bytes}
use ops_sysd.Base.Outcome.{Outcome, ok, fault, no_fuel, ◌>>=◌, Rc, rc_zero, rc_minus_one}
use ops_sysd.Manifest.Tree.{Json, Members, json_string, json_array, json_object, no_member, member}
use ops_sysd.Manifest.Sections.{
  Section, daemons_section, mgmt_section, sections, run_sections, process_json-sections,
}
use ops_sysd.Manifest.{
  DaemonInfo, Manifest, initial, Action, skip, mgmt_intf_result, continue_at, new_daemon,
  push_daemon, add_daemon, process_daemons, take_intf, process_mgmt_intf, count_hw,
  set_num_hw_daemons, finish_manifest, read_manifest_file,
}

-- The records of the members that are objects.
abbrev pub daemons_of : Members → List DaemonInfo
daemons_of no_member = []
daemons_of (member name (json_object ms) rest) = new_daemon name ms ∷ daemons_of rest
daemons_of (member name _ rest) = daemons_of rest

abbrev pub all_daemons : List Section → List DaemonInfo
all_daemons [] = []
all_daemons (daemons_section ms ∷ ss) = daemons_of ms ++ all_daemons ss
all_daemons (mgmt_section ms ∷ ss) = all_daemons ss

abbrev IsCounted : Manifest → Type 0
IsCounted m = m.num_daemons ≡ length m.daemons

-- What a successful run has added to the array, whose counter stays right.
abbrev Grows : List DaemonInfo → Manifest → Outcome (Rc × Manifest) → Type 0
Grows ds m (ok (rc_zero, n)) = IsCounted n × (n.daemons ≡ m.daemons ++ ds)
Grows ds m _ = Unit

take-length : (ds : List DaemonInfo) → take (length ds) ds ≡ ds
take-length [] = refl
take-length (d ∷ ds) = ap (◌∷◌ d) (take-length ds)

Grows-then :
    (ds es : List DaemonInfo) (second : Action) (m : Manifest) (r : Outcome (Rc × Manifest))
    → Grows ds m r
    → ((n : Manifest) → IsCounted n → Grows es n (second n))
    → Grows (ds ++ es) m (r >>= continue_at second)
Grows-then ds es second m (ok (rc_zero, n)) (c, e) h = go (second n) (h n c)
  where
    go : (r : Outcome (Rc × Manifest)) → Grows es n r → Grows (ds ++ es) m r
    go (ok (rc_zero, k)) (c', e') = (c', e' ∙ rw e (append_assoc m.daemons ds es))
    go (ok (rc_minus_one, k)) g = tt
    go fault g = tt
    go no_fuel g = tt
Grows-then ds es second m (ok (rc_minus_one, n)) g h = tt
Grows-then ds es second m fault g h = tt
Grows-then ds es second m no_fuel g h = tt

Grows-skip : (m : Manifest) → IsCounted m → Grows [] m (skip m)
Grows-skip m c = (c, sym (append-nil m.daemons))

push_daemon-counted :
    (d : DaemonInfo) (m : Manifest) → IsCounted m → Grows (d ∷ []) m (ok (rc_zero, push_daemon d m))
push_daemon-counted d m c =
    let all : take m.num_daemons m.daemons ≡ m.daemons = rw c (take-length m.daemons) in
    (rw all (omega (arith, length-append m.daemons (d ∷ []))), rw all refl)

Grows-if :
    (b : Bool) (ds : List DaemonInfo) (m : Manifest) (x y : Outcome (Rc × Manifest))
    → Grows ds m x
    → Grows ds m y
    → Grows ds m (if b then x else y)
Grows-if true ds m x y g h = g
Grows-if false ds m x y g h = h

-- The globals after a manifest that was read with status 0.
pub record IsRead (j : Json) (n : Manifest) : Type 0 where
  pub daemons_are : n.daemons ≡ all_daemons (sections j)
  pub num_daemons_is : n.num_daemons ≡ length n.daemons
  pub num_hw_daemons_is : n.num_hw_daemons ≡ count_hw n.daemons

ok_inj : {x y : Rc × Manifest} → ok x ≡ ok y → x ≡ y
ok_inj h = cc

finish-IsRead :
    (j : Json) (r : Outcome (Rc × Manifest)) (n : Manifest)
    → Grows (all_daemons (sections j)) initial r
    → (r >>= λ s. ok (finish_manifest s)) ≡ ok (rc_zero, n)
    → IsRead j n
unfolding set_num_hw_daemons
finish-IsRead j (ok (rc_zero, k)) n (c, e) h =
    subst (λ (p : Rc × Manifest). IsRead j p.1) (ok_inj h)
      (record {
        daemons_are = e;
        num_daemons_is = c;
        num_hw_daemons_is = rw c (rw (take-length k.daemons));
      })
finish-IsRead j (ok (rc_minus_one, k)) n g h = cc
finish-IsRead j fault n g h = cc
finish-IsRead j no_fuel n g h = cc

module _ (calloc_ok : ℕ → Bool) (block : Bytes) where
  add_daemon-Grows :
      (name : Bytes) (ms : Members) (m : Manifest)
      → IsCounted m
      → Grows (new_daemon name ms ∷ []) m (add_daemon calloc_ok name (json_object ms) m)
  unfolding add_daemon
  add_daemon-Grows name ms m c =
      Grows-if (calloc_ok m.num_daemons) _ m _ _
        (Grows-if (ltb (length name) 128) _ m _ _ (push_daemon-counted (new_daemon name ms) m c) tt)
        tt

  process_daemons-Grows :
      (ms : Members) (m : Manifest)
      → IsCounted m
      → Grows (daemons_of ms) m (process_daemons calloc_ok ms m)
  unfolding process_daemons add_daemon
  process_daemons-Grows no_member m c = Grows-skip m c
  process_daemons-Grows (member name (json_object ms) rest) m c =
      Grows-then (new_daemon name ms ∷ []) (daemons_of rest) _ m _ (add_daemon-Grows name ms m c)
        (process_daemons-Grows rest)
  process_daemons-Grows (member name _ rest) m c =
      Grows-then [] (daemons_of rest) _ m _ (Grows-if (calloc_ok m.num_daemons) [] m _ _ tt tt)
        (process_daemons-Grows rest)

  mgmt_intf_result-Grows : (m : Manifest) → IsCounted m → Grows [] m (mgmt_intf_result m)
  mgmt_intf_result-Grows m c = elim (Bool-cases m.is_mgmt_intf_present) [
    | inl p ↦ simp p (Grows-skip m c)
    | inr p ↦ simp p tt
  ]

  take_intf-Grows : (jp : Json) (m : Manifest) → IsCounted m → Grows [] m (take_intf block jp m)
  unfolding take_intf
  take_intf-Grows (json_string s) m c = elim (Bool-cases (leb (length s) (length block))) [
    | inl p ↦ rw p (c, sym (append-nil m.daemons))
    | inr p ↦ rw p tt
  ]
  take_intf-Grows _ m c = mgmt_intf_result-Grows m c

  process_mgmt_intf-Grows :
      (ms : Members) (m : Manifest) → IsCounted m → Grows [] m (process_mgmt_intf block ms m)
  unfolding process_mgmt_intf
  process_mgmt_intf-Grows no_member m c = mgmt_intf_result-Grows m c
  process_mgmt_intf-Grows (member name jp rest) m c =
      Grows-if _ [] m _ _ (take_intf-Grows jp m c) (process_mgmt_intf-Grows rest m c)

  run_sections-Grows :
      (ss : List Section) (m : Manifest)
      → IsCounted m
      → Grows (all_daemons ss) m (run_sections calloc_ok block ss m)
  unfolding run_sections
  run_sections-Grows [] m c = Grows-skip m c
  run_sections-Grows (daemons_section ms ∷ ss) m c =
      Grows-then (daemons_of ms) (all_daemons ss) _ m _ (process_daemons-Grows ms m c)
        (run_sections-Grows ss)
  run_sections-Grows (mgmt_section ms ∷ ss) m c =
      Grows-then [] (all_daemons ss) _ m _ (process_mgmt_intf-Grows ms m c) (run_sections-Grows ss)

  -- If the manifest is read with status 0, the daemons are the members of the "daemons" sections
  -- in order, each with its hardware flag and with `cur_hw` 1 for names that begin with the
  -- daemon's own; `num_daemons` counts them, and `num_hw_daemons` those with the flag.
  pub read_manifest_file-IsRead :
      (j : Json) (n : Manifest)
      → read_manifest_file calloc_ok block (some j) initial ≡ ok (rc_zero, n)
      → IsRead j n
  unfolding read_manifest_file
  read_manifest_file-IsRead (json_object ms) n h =
      finish-IsRead (json_object ms) _ n
        (run_sections-Grows (sections (json_object ms)) initial refl)
        (rw (process_json-sections calloc_ok block (json_object ms) initial) at h)
  read_manifest_file-IsRead (json_array es) n h =
      finish-IsRead (json_array es) _ n (run_sections-Grows (sections (json_array es)) initial refl)
        (rw (process_json-sections calloc_ok block (json_array es) initial) at h)
  read_manifest_file-IsRead _ n h = cc
