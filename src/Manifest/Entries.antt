-- ===== src/Manifest/Entries.antt =====
-- What the members of an image manifest say of the daemons and of the management interface.
use mathlib.Core.Bool.{false≢true}
use ops_sysd.Base.{
  suc, ◌≡◌, ◌↔◌, ◌⊎◌, inl, inr, refl, sym, ap, subst, ◌∙◌, if◌then◌else◌, Bool, true, false,
  Bool-cases, List, [], ◌∷◌, ◌++◌, Option, some, length, drop,
}
use ops_sysd.Base.Int.{pos}
use ops_sysd.Base.Text.{Bytes, codes, Begins, strn_eq_prefix, strn_eq_tag}
use ops_sysd.Manifest.Tree.{Json, Members, json_true, json_string, json_object, no_member, member}
use ops_sysd.Manifest.Sections.{Section, daemons_section, mgmt_section}
use ops_sysd.Manifest.Counts.{daemons_of, all_daemons}
use ops_sysd.Manifest.{
  DaemonInfo, Manifest, has_tag, hw_handler_tag, name_in_daemon_table, is_json_true, get_hw_handler,
  new_daemon, count_hw,
}

-- The first member whose name begins with "is_hw_handler" is true.
abbrev pub Marks : Members → Type 0
Marks no_member = ⊥
Marks (member name jp rest) =
    (Begins (codes "is_hw_handler") name × (jp ≡ json_true))
    ⊎ ((Begins (codes "is_hw_handler") name → ⊥) × Marks rest)

-- The record that stands for a daemon of that name, with that object.
pub record IsDaemon (name : Bytes) (object : Members) (d : DaemonInfo) : Type 0 where
  pub name_is : d.name ≡ name
  pub marked : (d.is_hw_handler ≡ true) ↔ Marks object
  pub of_sysd : Begins (codes "ops-sysd") name → d.cur_hw ≡ pos 1
  pub of_others : (Begins (codes "ops-sysd") name → ⊥) → d.cur_hw ≡ pos 0

-- The members that are objects, under their names
abbrev pub entries_of : Members → List (Bytes × Members)
entries_of no_member = []
entries_of (member name (json_object ms) rest) = (name, ms) ∷ entries_of rest
entries_of (member name _ rest) = entries_of rest

abbrev pub all_entries : List Section → List (Bytes × Members)
all_entries [] = []
all_entries (daemons_section ms ∷ ss) = entries_of ms ++ all_entries ss
all_entries (mgmt_section ms ∷ ss) = all_entries ss

-- One record for every entry, in order
abbrev pub AreDescribed : List (Bytes × Members) → List DaemonInfo → Type 0
AreDescribed [] [] = Unit
AreDescribed ((name, ms) ∷ es) (d ∷ ds) = IsDaemon name ms d × AreDescribed es ds
AreDescribed _ _ = ⊥

-- The daemons that are marked
abbrev pub marked_daemons : List DaemonInfo → List DaemonInfo
marked_daemons [] = []
marked_daemons (d ∷ ds) = let rest = marked_daemons ds in if d.is_hw_handler then d ∷ rest else rest

pub has_tag_iff : (name tag : Bytes) → (has_tag name tag ≡ true) ↔ Begins tag name
has_tag_iff name tag = (
  strn_eq_prefix name tag,
  (λ (rest, e). subst (λ n. has_tag n tag ≡ true) (sym e) (strn_eq_tag tag rest)),
)

pub has_tag-none : (name tag : Bytes) → has_tag name tag ≡ false → Begins tag name → ⊥
has_tag-none name tag h b = false≢true (sym h ∙ (has_tag_iff name tag).1 b)

is_json_true-eq : (jp : Json) → is_json_true jp ≡ true → jp ≡ json_true
is_json_true-eq json_true h = refl
is_json_true-eq _ h = cc

get_hw_handler-Marks : (ms : Members) → (get_hw_handler ms ≡ true) ↔ Marks ms
unfolding get_hw_handler
get_hw_handler-Marks no_member = ((λ h. absurd (false≢true h)), (λ h. absurd h))
get_hw_handler-Marks (member name jp rest) = elim (Bool-cases (has_tag name hw_handler_tag)) [
  | inl t ↦
      let b = (has_tag_iff name hw_handler_tag).0 t in
      rw t (
        (λ h. inl (b, is_json_true-eq jp h)),
        (λ m. elim m [ inl (c, e) ↦ ap is_json_true e | inr (n, more) ↦ absurd (n b) ]),
      )
  | inr t ↦
      let n = has_tag-none name hw_handler_tag t in
      let (to, from) = get_hw_handler-Marks rest in
      rw t (
        (λ h. inr (n, to h)),
        (λ m. elim m [ inl (b, e) ↦ absurd (n b) | inr (c, more) ↦ from more ]),
      )
]

new_daemon-IsDaemon : (name : Bytes) (ms : Members) → IsDaemon name ms (new_daemon name ms)
unfolding new_daemon
new_daemon-IsDaemon name ms = record {
  name_is = refl;
  marked = get_hw_handler-Marks ms;
  of_sysd = λ b. rw ((has_tag_iff name name_in_daemon_table).1 b) refl;
  of_others = λ n. elim (Bool-cases (has_tag name name_in_daemon_table)) [
    | inl t ↦ absurd (n ((has_tag_iff name name_in_daemon_table).0 t))
    | inr t ↦ rw t refl
  ];
}

AreDescribed-append :
    (es fs : List (Bytes × Members)) (ds cs : List DaemonInfo)
    → AreDescribed es ds
    → AreDescribed fs cs
    → AreDescribed (es ++ fs) (ds ++ cs)
AreDescribed-append [] fs [] cs g h = h
AreDescribed-append (e ∷ es) fs (d ∷ ds) cs (p, g) h = (p, AreDescribed-append es fs ds cs g h)
AreDescribed-append [] fs (d ∷ ds) cs g h = absurd g
AreDescribed-append (e ∷ es) fs [] cs g h = absurd g

daemons_of-AreDescribed : (ms : Members) → AreDescribed (entries_of ms) (daemons_of ms)
daemons_of-AreDescribed no_member = tt
daemons_of-AreDescribed (member name (json_object ms) rest) =
    (new_daemon-IsDaemon name ms, daemons_of-AreDescribed rest)
daemons_of-AreDescribed (member name _ rest) = daemons_of-AreDescribed rest

pub all_daemons-AreDescribed : (ss : List Section) → AreDescribed (all_entries ss) (all_daemons ss)
all_daemons-AreDescribed [] = tt
all_daemons-AreDescribed (daemons_section ms ∷ ss) =
    AreDescribed-append (entries_of ms) (all_entries ss) (daemons_of ms) (all_daemons ss)
      (daemons_of-AreDescribed ms) (all_daemons-AreDescribed ss)
all_daemons-AreDescribed (mgmt_section ms ∷ ss) = all_daemons-AreDescribed ss

pub count_hw-marked : (ds : List DaemonInfo) → count_hw ds ≡ length (marked_daemons ds)
unfolding count_hw
count_hw-marked [] = refl
count_hw-marked (d ∷ ds) = elim (Bool-cases d.is_hw_handler) [
  | inl e ↦ rw e (ap suc (count_hw-marked ds))
  | inr e ↦ rw e (count_hw-marked ds)
]

-- The first member whose name begins with "intf" is the string `s`.
abbrev pub NamesIntf : Members → Bytes → Type 0
NamesIntf no_member s = ⊥
NamesIntf (member name jp rest) s =
    (Begins (codes "intf") name × (jp ≡ json_string s))
    ⊎ ((Begins (codes "intf") name → ⊥) × NamesIntf rest s)

-- The block of the management interface and the flag that it is there
pub record Holds (block : Option Bytes) (present : Bool) (n : Manifest) : Type 0 where
  pub mgmt_intf_is : n.mgmt_intf ≡ block
  pub is_present : n.is_mgmt_intf_present ≡ present

-- What the sections leave of the two: every "mgmt_intf" section stores the string that it names, in
-- front of what is left of the new block.
abbrev pub Leaves : Bytes → List Section → Option Bytes → Bool → Manifest → Type 0
Leaves block [] stored present n = Holds stored present n
Leaves block (daemons_section ms ∷ ss) stored present n = Leaves block ss stored present n
Leaves block (mgmt_section ms ∷ ss) stored present n =
    (s : Bytes) × NamesIntf ms s × Leaves block ss (some (s ++ drop (length s) block)) true n
