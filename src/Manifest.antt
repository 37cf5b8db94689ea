-- ===== src/Manifest.antt =====
-- src/sysd_util.c: the image manifest, from `sysd_read_manifest_file` down.
pub mod Tree
pub mod Sections
pub mod Counts
pub mod Entries
pub mod Runs
pub mod Success
pub mod Examples
use ops_sysd.Base.{
  ℕ, zero, suc, ◌+◌, Bool, true, false, List, [], ◌∷◌, ◌++◌, Option, none, some, ltb, leb,
  if◌then◌else◌, length, take, drop,
}
use ops_sysd.Base.Int.{ℤ, pos}
use ops_sysd.Base.Text.{Bytes, codes, strn_eq}
use ops_sysd.Base.Outcome.{Outcome, ok, fault, ◌>>=◌, Rc, rc_zero, rc_minus_one}
use Tree.{
  Json, Elems, Members, json_true, json_string, json_array, json_object, no_elem, elem, no_member,
  member,
}

abbrev pub max_daemon_name_len : ℕ
max_daemon_name_len = 128

abbrev pub daemons_tag : Bytes
daemons_tag = codes "daemons"

abbrev pub hw_handler_tag : Bytes
hw_handler_tag = codes "is_hw_handler"

abbrev pub name_in_daemon_table : Bytes
name_in_daemon_table = codes "ops-sysd"

abbrev pub mgmt_intf_tag : Bytes
mgmt_intf_tag = codes "mgmt_intf"

abbrev pub mgmt_intf_name_tag : Bytes
mgmt_intf_name_tag = codes "intf"

-- daemon_info_t
pub record DaemonInfo : Type 0 where
  pub name : Bytes
  pub is_hw_handler : Bool
  pub cur_hw : ℤ

-- The globals: `daemons` with `num_daemons`, `num_hw_daemons`, the block of `mgmt_intf`, and the
-- static `is_mgmt_intf_present` of `_sysd_process_mgmt_intf`.
pub record Manifest : Type 0 where
  pub daemons : List DaemonInfo
  pub num_daemons : ℕ
  pub num_hw_daemons : ℕ
  pub mgmt_intf : Option Bytes
  pub is_mgmt_intf_present : Bool

abbrev pub initial : Manifest
initial = record {
  daemons = [];
  num_daemons = 0;
  num_hw_daemons = 0;
  mgmt_intf = none;
  is_mgmt_intf_present = false;
}

-- strncmp(name, tag, strlen(tag)) == 0
abbrev pub has_tag : Bytes → Bytes → Bool
has_tag name tag = strn_eq name tag (length tag)

-- A function on the globals that returns an int.
abbrev pub Action : Type 0
Action = Manifest → Outcome (Rc × Manifest)

abbrev pub skip : Action
skip m = ok (rc_zero, m)

-- if (first) return -1; second
abbrev pub continue_at : Action → Rc × Manifest → Outcome (Rc × Manifest)
continue_at second (rc_zero, m) = second m
continue_at second (rc_minus_one, m) = ok (rc_minus_one, m)

infixl 5 ◌then_do◌
abbrev pub ◌then_do◌ : Action → Action → Action
◌then_do◌ first second m = first m >>= continue_at second

abbrev pub is_json_true : Json → Bool
is_json_true json_true = true
is_json_true _ = false

-- `_sysd_get_hw_handler`: the new value of the flag, which calloc had set to false
unfoldable pub get_hw_handler : Members → Bool
get_hw_handler no_member = false
get_hw_handler (member name jp rest) =
    if has_tag name hw_handler_tag then is_json_true jp else get_hw_handler rest

-- The record that one member of the "daemons" object becomes.
unfoldable pub new_daemon : Bytes → Members → DaemonInfo
unfolding get_hw_handler
new_daemon name object = record {
  name = name;
  is_hw_handler = get_hw_handler object;
  cur_hw = if has_tag name name_in_daemon_table then pos 1 else pos 0;
}

-- daemons[num_daemons] = …; num_daemons++, after the array has grown by one
abbrev pub push_daemon : DaemonInfo → Manifest → Manifest
push_daemon d m = record m {
  daemons = take m.num_daemons m.daemons ++ d ∷ [];
  num_daemons = m.num_daemons + 1;
}

-- One round of `_sysd_process_daemons`; `calloc_ok` says whether the block is given. A name with
-- no room for its NUL leaves the array or is printed past its end; json_object asserts the type.
unfoldable pub add_daemon : (ℕ → Bool) → Bytes → Json → Action
unfolding new_daemon
add_daemon calloc_ok name (json_object ms) m =
    if calloc_ok m.num_daemons
    then (if ltb (length name) max_daemon_name_len
        then ok (rc_zero, push_daemon (new_daemon name ms) m)
        else fault)
    else ok (rc_minus_one, m)
add_daemon calloc_ok name _ m = if calloc_ok m.num_daemons then fault else ok (rc_minus_one, m)

-- `_sysd_process_daemons`
unfoldable pub process_daemons : (ℕ → Bool) → Members → Action
process_daemons calloc_ok no_member = skip
process_daemons calloc_ok (member name jp rest) =
    add_daemon calloc_ok name jp then_do process_daemons calloc_ok rest

-- strncpy(mgmt_intf->name, s, strlen(s)) into the block that xcalloc(128, 0) gives, whose bytes
-- are `block`.
unfoldable pub store_intf_name : Bytes → Bytes → Outcome Bytes
store_intf_name block s =
    if leb (length s) (length block) then ok (s ++ drop (length s) block) else fault

-- The return of `_sysd_process_mgmt_intf`.
abbrev pub mgmt_intf_result : Action
mgmt_intf_result m = ok (if m.is_mgmt_intf_present then rc_zero else rc_minus_one, m)

-- The switch on the type of the first member that has the tag.
unfoldable pub take_intf : Bytes → Json → Action
unfolding store_intf_name
take_intf block (json_string s) m = do
  stored ← store_intf_name block s
  mgmt_intf_result (record m { mgmt_intf = some stored; is_mgmt_intf_present = true })
take_intf block _ m = mgmt_intf_result m

-- `_sysd_process_mgmt_intf`
unfoldable pub process_mgmt_intf : Bytes → Members → Action
unfolding take_intf
process_mgmt_intf block no_member m = mgmt_intf_result m
process_mgmt_intf block (member name jp rest) m =
    if has_tag name mgmt_intf_name_tag then take_intf block jp m else process_mgmt_intf block rest m

-- `sysd_set_num_hw_daemons`: the loop over the first `num_daemons` entries
unfoldable pub count_hw : List DaemonInfo → ℕ
count_hw [] = 0
count_hw (d ∷ ds) = let rest = count_hw ds in if d.is_hw_handler then suc rest else rest

unfoldable pub set_num_hw_daemons : Manifest → Manifest
unfolding count_hw
set_num_hw_daemons m = record m { num_hw_daemons = count_hw (take m.num_daemons m.daemons) }

abbrev pub finish_manifest : Rc × Manifest → Rc × Manifest
finish_manifest (rc_minus_one, m) = (rc_minus_one, m)
finish_manifest (rc_zero, m) = (rc_zero, set_num_hw_daemons m)

module _ (calloc_ok : ℕ → Bool) (block : Bytes) where
  -- `sysd_process_json`, and its two loops.
  unfoldable mutual
    pub process_json : Json → Action
    process_json (json_object ms) = process_members ms
    process_json (json_array es) = process_elems es
    process_json _ = skip

    pub process_elems : Elems → Action
    process_elems no_elem = skip
    process_elems (elem jp rest) = process_json jp then_do process_elems rest

    pub process_members : Members → Action
    process_members no_member = skip
    process_members (member name (json_object ms) rest) =
        (if has_tag name daemons_tag
          then process_daemons calloc_ok ms
          else if has_tag name mgmt_intf_tag
          then process_mgmt_intf block ms
          else process_members ms)
        then_do process_members rest
    process_members (member name (json_array es) rest) =
        process_elems es then_do process_members rest
    process_members (member name _ rest) = process_members rest

  -- `sysd_read_manifest_file`, on what json_from_file gave; `none` is NULL
  unfoldable pub read_manifest_file : Option Json → Action
  read_manifest_file none m = ok (rc_minus_one, m)
  read_manifest_file (some (json_object ms)) m = do
    r ← process_json (json_object ms) m
    ok (finish_manifest r)
  read_manifest_file (some (json_array es)) m = do
    r ← process_json (json_array es) m
    ok (finish_manifest r)
  read_manifest_file (some _) m = ok (rc_minus_one, m)
