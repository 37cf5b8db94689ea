-- ===== src/Startup/HwDesc.antt =====
-- The link to the hardware description files: src/sysd_util.c from `strip_quotes` to
-- `sysd_create_link_to_hwdesc_files`, and `sysd_find_hw_desc_files` of src/sysd.c.
use ops_sysd.Base.{
  ℕ, Bool, true, false, not, ◌&&◌, ◌||◌, List, [], ◌∷◌, ◌++◌, Option, none, some, ◌==◌,
  if◌then◌else◌, take,
}
use ops_sysd.Base.Text.{Bytes, codes}
use ops_sysd.Base.Outcome.{Rc, rc_zero, rc_minus_one}

abbrev pub quote : ℕ
quote = 34

abbrev pub ends_in_quote : Bytes → Bool
ends_in_quote [] = false
ends_in_quote (c ∷ []) = c == quote
ends_in_quote (c ∷ d ∷ cs) = ends_in_quote (d ∷ cs)

abbrev pub drop_last : Bytes → Bytes
drop_last [] = []
drop_last (c ∷ []) = []
drop_last (c ∷ d ∷ cs) = c ∷ drop_last (d ∷ cs)

-- `strip_quotes` of a string that is there
unfoldable pub strip_quotes : Bytes → Bytes
strip_quotes [] = []
strip_quotes (c ∷ cs) = if c == quote && ends_in_quote (c ∷ cs) then drop_last cs else c ∷ cs

-- What a line from getline is, by its first byte.
abbrev pub is_skipped : Bytes → Bool
is_skipped [] = true
is_skipped (c ∷ cs) = c == b'#' || c == 0

-- The loop of `get_sys_cmd_out` on the lines that getline still gives; the last byte of the line that
-- is taken gives way to a NUL.
unfoldable pub take_line : List Bytes → Option Bytes
take_line [] = none
take_line ([] ∷ lines) = none
take_line ((c ∷ cs) ∷ lines) =
    let rest = take_line lines in if is_skipped (c ∷ cs) then rest else some (drop_last (c ∷ cs))

-- `get_sys_cmd_out`; `none` is a popen that fails
unfoldable pub get_sys_cmd_out : Option (List Bytes) → Option Bytes
unfolding take_line
get_sys_cmd_out none = none
get_sys_cmd_out (some lines) = take_line lines

-- The names of the maker and of the product: their commands, or the constants of a simulation.
abbrev pub stripped : Option Bytes → Option Bytes
stripped none = none
stripped (some text) = some (strip_quotes text)

abbrev pub then_product : Option Bytes → Option Bytes → Option (Bytes × Bytes)
then_product none product = none
then_product (some manufacturer) none = none
then_product (some manufacturer) (some product) = some (manufacturer, product)

unfoldable pub get_manuf_and_prodname :
    (manufacturer product : Option (List Bytes)) → Option (Bytes × Bytes)
unfolding get_sys_cmd_out strip_quotes
get_manuf_and_prodname manufacturer product =
    then_product (stripped (get_sys_cmd_out manufacturer)) (stripped (get_sys_cmd_out product))

abbrev pub generic_x86_manufacturer : Bytes
generic_x86_manufacturer = codes "Generic-x86"

abbrev pub generic_x86_product_name : Bytes
generic_x86_product_name = codes "X86-64"

-- The path of the description files that the build fills in, the results of stat, remove, mkdir (which
-- may find the directory) and symlink, and what the two commands print.
pub record Platform : Type 0 where
  pub simulation : Bool
  pub hwdesc_files_path : Bytes
  pub manufacturer : Option (List Bytes)
  pub product : Option (List Bytes)
  pub exists : Bytes → Bool
  pub removes : Bool
  pub makes_directory : Bool
  pub links : Bool

-- The global `g_hw_desc_dir`, and where the link points.
pub record HwDesc : Type 0 where
  pub g_hw_desc_dir : Option Bytes
  pub link : Option Bytes

-- snprintf into 1024 bytes
abbrev pub hw_desc_dir_of : Bytes → Bytes → Bytes → Bytes
hw_desc_dir_of path manufacturer product =
    take 1023 (path ++ (b'/' ∷ (manufacturer ++ (b'/' ∷ product))))

-- symlink, which fails where a link is
abbrev pub make_link : Bool → Bytes → HwDesc → Rc × HwDesc
make_link false dir s = (rc_minus_one, s)
make_link true dir s = elim s.link [
  | none ↦ (rc_zero, record s { link = some dir })
  | some old ↦ (rc_minus_one, s)
]

abbrev pub remove_link : Bool → HwDesc → HwDesc
remove_link removes s = if removes then record s { link = none } else s

unfoldable pub create_link_to_desc_files : Platform → Bytes → Bytes → HwDesc → Rc × HwDesc
create_link_to_desc_files p manufacturer product s =
    let dir = hw_desc_dir_of p.hwdesc_files_path manufacturer product in
    let named = record s { g_hw_desc_dir = some dir } in
    if not (p.exists dir)
    then (rc_minus_one, named)
    else if not p.makes_directory
    then (rc_minus_one, remove_link p.removes named)
    else make_link p.links dir (remove_link p.removes named)

unfoldable pub link_names : Platform → Option (Bytes × Bytes) → HwDesc → Rc × HwDesc
unfolding create_link_to_desc_files
link_names p none s = (rc_minus_one, s)
link_names p (some (manufacturer, product)) s = create_link_to_desc_files p manufacturer product s

-- `sysd_create_link_to_hwdesc_files`
unfoldable pub create_link_to_hwdesc_files : Platform → HwDesc → Rc × HwDesc
unfolding get_manuf_and_prodname link_names
create_link_to_hwdesc_files p s =
    link_names p
      (if p.simulation
        then some (generic_x86_manufacturer, generic_x86_product_name)
        else get_manuf_and_prodname p.manufacturer p.product)
      s

-- `sysd_find_hw_desc_files` of src/sysd.c
unfoldable pub find_hw_desc_files : Platform → HwDesc → Rc × HwDesc
unfolding create_link_to_hwdesc_files
find_hw_desc_files p s = create_link_to_hwdesc_files p s
