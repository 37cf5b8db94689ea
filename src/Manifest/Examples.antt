-- ===== src/Manifest/Examples.antt =====
-- A manifest with two daemons and a management interface, and the theorems of this part at it.
use ops_sysd.Base.{ℕ, ◌≡◌, refl, Bool, true, [], ◌∷◌, ◌++◌, some, replicate, arith, All, length}
use ops_sysd.Base.Text.{Bytes, codes, strn_eq}
use ops_sysd.Base.Outcome.{ok, rc_zero}
use ops_sysd.Manifest.{
  Manifest, initial, count_hw, read_manifest_file, set_num_hw_daemons, process_json,
  process_members, process_elems, process_daemons, process_mgmt_intf, take_intf, store_intf_name,
  add_daemon, new_daemon, get_hw_handler,
}
use ops_sysd.Manifest.Tree.{Json, Members, json_true, json_string, json_object, no_member, member}
use ops_sysd.Manifest.Sections.{sections, sections_of_members, run_sections, process_json-sections}
use ops_sysd.Manifest.Success.{IsGood, IsFilled, read_manifest_file-succeeds}

abbrev pub always : ℕ → Bool
always n = true

-- What xcalloc(128, 0) gives on an allocator with a smallest block of 16 bytes.
abbrev pub block : Bytes
block = replicate 16 0

abbrev daemons_member : Members
daemons_member = member (codes "ops-sysd") (json_object no_member) (
    member (codes "ops-switchd") (json_object (member (codes "is_hw_handler") json_true no_member))
      no_member)

abbrev pub document : Json
document = json_object (
    member (codes "daemons") (json_object daemons_member) (
      member (codes "mgmt_intf")
        (json_object (member (codes "intf") (json_string (codes "eth0")) no_member)) no_member))

abbrev pub globals : Manifest
globals = record {
  daemons =
      new_daemon (codes "ops-sysd") no_member
      ∷ new_daemon (codes "ops-switchd") (member (codes "is_hw_handler") json_true no_member)
      ∷ [];
  num_daemons = 2;
  num_hw_daemons = 1;
  mgmt_intf = some (codes "eth0" ++ replicate 12 0);
  is_mgmt_intf_present = true;
}

pub read_globals : read_manifest_file always block (some document) initial ≡ ok (rc_zero, globals)
unfolding read_manifest_file set_num_hw_daemons count_hw process_json process_members process_elems
    process_daemons process_mgmt_intf take_intf store_intf_name add_daemon new_daemon get_hw_handler
    strn_eq
read_globals = refl

document-IsGood : All (IsGood (length block)) (sections document)
unfolding sections sections_of_members strn_eq
document-IsGood = ((omega arith, (omega arith, tt)), (omega arith, tt))

read_manifest_file-succeeds_example :
    (n : Manifest) × (read_manifest_file always block (some document) initial ≡ ok (rc_zero, n))
    × IsFilled block document n
read_manifest_file-succeeds_example =
    read_manifest_file-succeeds always block (λ i. refl) document tt document-IsGood

process_json-sections_example :
    process_json always block document initial
    ≡ run_sections always block (sections document) initial
process_json-sections_example = process_json-sections always block document initial
