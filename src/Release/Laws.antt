-- ===== src/Release/Laws.antt =====
-- How a line is read, and what the version of the switch is made of.
use ops_sysd.Base.{
  ◌≡◌, ◌≢◌, refl, sym, ◌∙◌, true, false, not, ◌&&◌, Bool-cases, inl, inr, List, [], ◌∷◌, ◌++◌,
  Option, none, some, All, ne→==, if◌then◌else◌,
}
use ops_sysd.Base.Text.{Bytes, str_eq, str_eq_iff, str_eq_ne}
use ops_sysd.Release.{
  os_release_name, os_release_build_name, os_release_version_name, is_empty, is_space, split_line,
  trim_end, parse_line, Release, fit, take_pair, read_lines, SoftwareColumns, build_str,
  set_software_info, set_columns, no_release, update_sw_info,
}

-- The value ends in a byte that is no space, or is empty.
abbrev pub IsTrimmed : Bytes → Type 0
IsTrimmed [] = Unit
IsTrimmed (c ∷ []) = is_space c ≡ false
IsTrimmed (c ∷ cs) = IsTrimmed cs

split_line-name :
    (name value : Bytes)
    → All (λ c. c ≢ 61) name
    → split_line (name ++ (61 ∷ value)) ≡ some (name, value)
unfolding split_line
split_line-name [] value h = refl
split_line-name (c ∷ name) value (n, h) = rw (ne→== c 61 n) (rw (split_line-name name value h) refl)

trim_end-spaces : (spaces : Bytes) → All (λ c. is_space c ≡ true) spaces → trim_end spaces ≡ []
unfolding trim_end
trim_end-spaces [] h = refl
trim_end-spaces (c ∷ cs) (s, h) = rw (trim_end-spaces cs h) (rw s refl)

trim_end-value :
    (value spaces : Bytes)
    → IsTrimmed value
    → All (λ c. is_space c ≡ true) spaces
    → trim_end (value ++ spaces) ≡ value
unfolding trim_end
trim_end-value [] spaces t h = trim_end-spaces spaces h
trim_end-value (c ∷ []) spaces t h = rw t (rw (trim_end-spaces spaces h) refl)
trim_end-value (c ∷ d ∷ cs) spaces t h =
    rw (trim_end-value (d ∷ cs) spaces t h)
      (elim (Bool-cases (is_space c)) [ inl e ↦ rw e refl | inr e ↦ rw e refl ])

-- A line of a name without '=', the sign, a value that does not end in a space, and any spaces, such
-- as the end of the line, is read as that name and that value.
pub parse_line-line :
    (name value spaces : Bytes)
    → All (λ c. c ≢ 61) name
    → IsTrimmed value
    → All (λ c. is_space c ≡ true) spaces
    → parse_line (name ++ (61 ∷ (value ++ spaces))) ≡ some (name, value)
unfolding parse_line
parse_line-line name value spaces n t h =
    rw (split_line-name name (value ++ spaces) n) (rw (trim_end-value value spaces t h) refl)

-- The value of the last line of the file with a given name, or what was there before.
abbrev pub last_pair : Bytes → Option (Bytes × Bytes) → Bytes → Bytes
last_pair key none old = old
last_pair key (some (name, value)) old = if str_eq name key then value else old

abbrev pub last_value : Bytes → List Bytes → Bytes → Bytes
last_value key [] old = old
last_value key (line ∷ lines) old = last_value key lines (last_pair key (parse_line line) old)

apart : (name a b : Bytes) → str_eq name a ≡ true → a ≢ b → str_eq name b ≡ false
apart name a b h differ = str_eq_ne name b (λ e. differ (sym ((str_eq_iff name a).0 h) ∙ e))

take_pair-ids :
    (o : Option (Bytes × Bytes)) (r : Release) (v b : Bytes)
    → r.version_id ≡ fit v
    → r.build_id ≡ fit b
    → ((take_pair o r).version_id ≡ fit (last_pair os_release_version_name o v))
      × ((take_pair o r).build_id ≡ fit (last_pair os_release_build_name o b))
unfolding take_pair
take_pair-ids none r v b e f = (e, f)
take_pair-ids (some (name, value)) r v b e f = elim (Bool-cases (str_eq name os_release_name)) [
  | inl a ↦
      simp
        (
          a,
          apart name os_release_name os_release_version_name a (λ x. cc),
          apart name os_release_name os_release_build_name a (λ x. cc),
        )
        (elim (Bool-cases (is_empty value)) [ inl z ↦ rw z (e, f) | inr z ↦ rw z (e, f) ])
  | inr a ↦ elim (Bool-cases (str_eq name os_release_version_name)) [
    | inl y ↦
        simp (a, y, apart name os_release_version_name os_release_build_name y (λ x. cc)) (refl, f)
    | inr y ↦ elim (Bool-cases (str_eq name os_release_build_name)) [
      | inl z ↦ simp (a, y, z) (e, refl)
      | inr z ↦ simp (a, y, z) (e, f)
    ]
  ]
]

read_lines-ids :
    (lines : List Bytes) (r : Release) (v b : Bytes)
    → r.version_id ≡ fit v
    → r.build_id ≡ fit b
    → ((read_lines lines r).version_id ≡ fit (last_value os_release_version_name lines v))
      × ((read_lines lines r).build_id ≡ fit (last_value os_release_build_name lines b))
unfolding read_lines
read_lines-ids [] r v b e f = (e, f)
read_lines-ids (line ∷ lines) r v b e f =
    let (e', f') = take_pair-ids (parse_line line) r v b e f in
    read_lines-ids lines (take_pair (parse_line line) r) _ _ e' f'

-- The version that the file stands for: there if both identifiers are, otherwise as before.
abbrev pub version_of : Bytes → Bytes → Option Bytes → Option Bytes
version_of v b old =
    if not (is_empty b) && not (is_empty v) then some (build_str (fit v) (fit b)) else old

is_empty-fit : (v : Bytes) → is_empty (fit v) ≡ is_empty v
is_empty-fit [] = refl
is_empty-fit (c ∷ v) = refl

switch_version-set_software_info :
    (ns : List Bytes) (c : SoftwareColumns)
    → (set_software_info ns c).switch_version ≡ c.switch_version
switch_version-set_software_info [] c = refl
switch_version-set_software_info (n ∷ ns) c = refl

set_columns-version :
    (r : Release) (c : SoftwareColumns) (v b : Bytes)
    → r.version_id ≡ fit v
    → r.build_id ≡ fit b
    → (set_columns r c).switch_version ≡ version_of v b c.switch_version
unfolding set_columns
set_columns-version r c v b e f =
    simp (e, f, is_empty-fit v, is_empty-fit b)
      (elim (Bool-cases (not (is_empty b) && not (is_empty v))) [
        | inl both ↦ rw both refl
        | inr lacks ↦ rw lacks (switch_version-set_software_info r.os_names c)
      ])

-- Whatever lines there are, and their order, the version of the switch is made of the
-- values of the last VERSION_ID line and the last BUILD_ID line, each cut to 79 bytes, and is left as
-- it was if one of the two is empty or missing.
pub update_sw_info-last :
    (lines : List Bytes) (c : SoftwareColumns)
    → (update_sw_info (some lines) c).switch_version
      ≡ version_of
          (last_value os_release_version_name lines [])
          (last_value os_release_build_name lines [])
          c.switch_version
unfolding update_sw_info
update_sw_info-last lines c =
    let (e, f) = read_lines-ids lines no_release [] [] refl refl in
    set_columns-version (read_lines lines no_release) c _ _ e f
