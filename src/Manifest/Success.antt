-- ===== src/Manifest/Success.antt =====
-- Manifests that the daemon reads without an error.
use ops_sysd.Base.{
  ℕ, ◌≤◌, ◌<◌, ◌≡◌, refl, sym, subst, ◌∙◌, Bool, true, false, Option, none, inl, inr, Bool-cases,
  List, [], ◌∷◌, ◌++◌, drop, some, lt→ltb, le→leb, if◌then◌else◌, length, All,
}
use ops_sysd.Base.Text.{Bytes, codes, Begins}
use ops_sysd.Base.Outcome.{Outcome, ok, ◌>>=◌, Rc, rc_zero}
use ops_sysd.Manifest.Tree.{Json, Members, json_string, json_array, json_object, no_member, member}
use ops_sysd.Manifest.Sections.{
  Section, daemons_section, mgmt_section, sections, run_section, run_sections,
  process_json-sections,
}
use ops_sysd.Manifest.Counts.{read_manifest_file-IsRead}
use ops_sysd.Manifest.Runs.{
  Succeeds, Succeeds-then, Succeeds-map, Stores, Leaves-set_num_hw_daemons,
}
use ops_sysd.Manifest.Entries.{
  AreDescribed, all_entries, marked_daemons, has_tag_iff, has_tag-none, all_daemons-AreDescribed,
  count_hw-marked, Holds, Leaves,
}
use ops_sysd.Manifest.{
  Manifest, initial, has_tag, mgmt_intf_name_tag, new_daemon, push_daemon, add_daemon,
  process_daemons, take_intf, process_mgmt_intf, process_json, set_num_hw_daemons, finish_manifest,
  read_manifest_file,
}

-- Every member of a "daemons" object is an object, under a name that fits its array.
abbrev pub AreDaemons : Members → Type 0
AreDaemons no_member = Unit
AreDaemons (member name (json_object ms) rest) = (length name < 128) × AreDaemons rest
AreDaemons (member name _ rest) = ⊥

-- A string that fits the block of the management interface.
abbrev pub IsIntfName : ℕ → Json → Type 0
IsIntfName size (json_string s) = length s ≤ size
IsIntfName size _ = ⊥

-- The first member whose name begins with "intf" is such a string.
abbrev pub HasIntf : ℕ → Members → Type 0
HasIntf size no_member = ⊥
HasIntf size (member name jp rest) =
    if has_tag name mgmt_intf_name_tag then IsIntfName size jp else HasIntf size rest

abbrev pub IsGood : ℕ → Section → Type 0
IsGood size (daemons_section ms) = AreDaemons ms
IsGood size (mgmt_section ms) = HasIntf size ms

-- The documents that the top level accepts.
abbrev pub IsContainer : Json → Type 0
IsContainer (json_object ms) = Unit
IsContainer (json_array es) = Unit
IsContainer _ = ⊥

-- The globals after a manifest that was read.
pub record IsFilled (block : Bytes) (j : Json) (n : Manifest) : Type 0 where
  pub daemons_are : AreDescribed (all_entries (sections j)) n.daemons
  pub num_daemons_is : n.num_daemons ≡ length n.daemons
  pub num_hw_daemons_is : n.num_hw_daemons ≡ length (marked_daemons n.daemons)
  pub interface : Leaves block (sections j) none false n

module _ (calloc_ok : ℕ → Bool) (block : Bytes) (given : (i : ℕ) → calloc_ok i ≡ true) where
  process_daemons-Succeeds :
      (o : Option Bytes) (b : Bool) (ms : Members) (m : Manifest)
      → Holds o b m
      → AreDaemons ms
      → Succeeds (Holds o b) (process_daemons calloc_ok ms m)
  unfolding process_daemons add_daemon
  process_daemons-Succeeds o b no_member m k h = record { result = m; ends = refl; leaves = k }
  process_daemons-Succeeds o b (member name (json_object ms) rest) m k (short, h) =
      Succeeds-then (Holds o b) (Holds o b) _ _
        (record {
          result = push_daemon (new_daemon name ms) m;
          ends = rw (given m.num_daemons) (rw (lt→ltb (length name) 128 short) refl);
          leaves = record { mgmt_intf_is = k.mgmt_intf_is; is_present = k.is_present };
        })
        (λ n k'. process_daemons-Succeeds o b rest n k' h)
  process_daemons-Succeeds o b (member name _ rest) m k h = absurd h

  take_intf-Succeeds :
      (name : Bytes) (jp : Json) (rest : Members) (m : Manifest)
      → Begins (codes "intf") name
      → IsIntfName (length block) jp
      → Succeeds (Stores block (member name jp rest)) (take_intf block jp m)
  unfolding take_intf
  take_intf-Succeeds name (json_string s) rest m b h = record {
    result = record m {
      mgmt_intf = some (s ++ drop (length s) block);
      is_mgmt_intf_present = true;
    };
    ends = rw (le→leb (length s) (length block) h) refl;
    leaves = record {
      text = s;
      named = inl (b, refl);
      holds = record { mgmt_intf_is = refl; is_present = refl };
    };
  }
  take_intf-Succeeds name _ rest m b h = absurd h

  process_mgmt_intf-Succeeds :
      (ms : Members) (m : Manifest)
      → HasIntf (length block) ms
      → Succeeds (Stores block ms) (process_mgmt_intf block ms m)
  unfolding process_mgmt_intf
  process_mgmt_intf-Succeeds no_member m h = absurd h
  process_mgmt_intf-Succeeds (member name jp rest) m h =
      elim (Bool-cases (has_tag name mgmt_intf_name_tag)) [
        | inl e ↦ rw e (
            take_intf-Succeeds name jp rest m ((has_tag_iff name mgmt_intf_name_tag).0 e)
              (rw e at h))
        | inr e ↦ rw e (
            Succeeds-map (Stores block rest) (Stores block (member name jp rest)) _
              (λ n s. record {
                text = s.text;
                named = inr (has_tag-none name mgmt_intf_name_tag e, s.named);
                holds = s.holds;
              })
              (process_mgmt_intf-Succeeds rest m (rw e at h)))
      ]

  run_sections-Succeeds :
      (ss : List Section) (o : Option Bytes) (b : Bool) (m : Manifest)
      → Holds o b m
      → All (IsGood (length block)) ss
      → Succeeds (Leaves block ss o b) (run_sections calloc_ok block ss m)
  unfolding run_sections run_section
  run_sections-Succeeds [] o b m k h = record { result = m; ends = refl; leaves = k }
  run_sections-Succeeds (daemons_section ms ∷ ss) o b m k (g, h) =
      Succeeds-then (Holds o b) (Leaves block ss o b) _ _ (process_daemons-Succeeds o b ms m k g)
        (λ n k'. run_sections-Succeeds ss o b n k' h)
  run_sections-Succeeds (mgmt_section ms ∷ ss) o b m k (g, h) =
      Succeeds-then (Stores block ms) (Leaves block (mgmt_section ms ∷ ss) o b) _ _
        (process_mgmt_intf-Succeeds ms m g)
        (λ n s.
          Succeeds-map (Leaves block ss (some (s.text ++ drop (length s.text) block)) true)
            (Leaves block (mgmt_section ms ∷ ss) o b) _ (λ k l. (s.text, s.named, l))
            (run_sections-Succeeds ss _ true n s.holds h))

  finish-Succeeds :
      (j : Json) (r : Outcome (Rc × Manifest))
      → Succeeds (Leaves block (sections j) none false) r
      → Succeeds (Leaves block (sections j) none false) (r >>= λ s. ok (finish_manifest s))
  finish-Succeeds j r s = record {
    result = set_num_hw_daemons s.result;
    ends = rw s.ends refl;
    leaves = Leaves-set_num_hw_daemons block (sections j) none false s.result s.leaves;
  }

  walk-Succeeds :
      (j : Json)
      → All (IsGood (length block)) (sections j)
      → Succeeds (Leaves block (sections j) none false) (process_json calloc_ok block j initial)
  walk-Succeeds j h = rw (process_json-sections calloc_ok block j initial) (
      run_sections-Succeeds (sections j) none false initial
        (record { mgmt_intf_is = refl; is_present = refl }) h)

  read-Succeeds :
      (j : Json)
      → IsContainer j
      → All (IsGood (length block)) (sections j)
      → Succeeds
          (Leaves block (sections j) none false)
          (read_manifest_file calloc_ok block (some j) initial)
  unfolding read_manifest_file
  read-Succeeds (json_object ms) c h =
      finish-Succeeds (json_object ms) _ (walk-Succeeds (json_object ms) h)
  read-Succeeds (json_array es) c h =
      finish-Succeeds (json_array es) _ (walk-Succeeds (json_array es) h)
  read-Succeeds _ c h = absurd c

  -- A manifest is read with status 0 if memory is given, its top level is an object or an array,
  -- every member of a "daemons" section is an object under a name of less than 128 bytes, and the
  -- first member of every "mgmt_intf" section whose name begins with "intf" is a string no longer
  -- than the block of the interface name. The daemons are then the members of the "daemons" sections
  -- in order, each under its name, marked as a hardware daemon exactly if its first member whose name
  -- begins with "is_hw_handler" is true, and with `cur_hw` 1 if its name begins with "ops-sysd" and 0
  -- if not; `num_daemons` counts them and `num_hw_daemons` the marked ones; and the block of the
  -- management interface begins with the string of the last "mgmt_intf" section, with the flag that
  -- it is present, or is missing if there is no such section.
  pub read_manifest_file-succeeds :
      (j : Json)
      → IsContainer j
      → All (IsGood (length block)) (sections j)
      → (n : Manifest) × (read_manifest_file calloc_ok block (some j) initial ≡ ok (rc_zero, n))
        × IsFilled block j n
  read_manifest_file-succeeds j c h =
      let s = read-Succeeds j c h in
      let r = read_manifest_file-IsRead calloc_ok block j s.result s.ends in
      (
        s.result,
        s.ends,
        record {
          daemons_are =
              subst (AreDescribed (all_entries (sections j))) (sym r.daemons_are)
                (all_daemons-AreDescribed (sections j));
          num_daemons_is = r.num_daemons_is;
          num_hw_daemons_is = r.num_hw_daemons_is ∙ count_hw-marked s.result.daemons;
          interface = s.leaves;
        },
      )
