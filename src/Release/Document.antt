-- ===== src/Release/Document.antt =====
-- The release file as a document of assignments, and the version that it stands for.
use ops_sysd.Base.{
  ℕ, ◌≤◌, ◌≡◌, ◌≢◌, ◌⊎◌, inl, inr, refl, ap, ◌∙◌, true, false, List, [], ◌∷◌, ◌++◌, map, Option,
  none, some, All, take, ne→==, arith, if◌then◌else◌,
}
use ops_sysd.Base.Text.{Bytes, codes, str_eq}
use ops_sysd.Release.{is_space, split_line, parse_line, SoftwareColumns, update_sw_info}
use ops_sysd.Release.Laws.{
  IsTrimmed, last_pair, last_value, version_of, parse_line-line, update_sw_info-last,
}

-- A line that gives a value to a name, with the spaces behind it, or a line without '='.
pub data Line : Type 0 where
  assigns : (name value spaces : Bytes) → Line
  other : (text : Bytes) → Line

abbrev pub text_of : Line → Bytes
text_of (assigns name value spaces) = name ++ (codes "=" ++ (value ++ spaces))
text_of (other text) = text

-- A space, a tab, or a line feed, vertical tab, form feed or carriage return
abbrev pub IsBlank : ℕ → Type 0
IsBlank c = (c ≡ 32) ⊎ ((9 ≤ c) × (c ≤ 13))

abbrev pub EndsInText : Bytes → Type 0
EndsInText [] = Unit
EndsInText (c ∷ []) = IsBlank c → ⊥
EndsInText (c ∷ cs) = EndsInText cs

-- The parts of a line are what they are called.
abbrev pub IsLine : Line → Type 0
IsLine (assigns name value spaces) = All (λ c. c ≢ 61) name × EndsInText value × All IsBlank spaces
IsLine (other text) = All (λ c. c ≢ 61) text

-- The value that the last of the assignments to a name gives it.
abbrev pub value_of : Bytes → List Line → Bytes → Bytes
value_of key [] old = old
value_of key (assigns name value spaces ∷ lines) old =
    value_of key lines (if str_eq name key then value else old)
value_of key (other text ∷ lines) old = value_of key lines old

-- The version of the switch, from the version and the build
abbrev pub switch_version_of : Bytes → Bytes → Option Bytes → Option Bytes
switch_version_of [] build old = old
switch_version_of version [] old = old
switch_version_of version build old =
    some (take 79 (take 79 version ++ (codes " (Build: " ++ (take 79 build ++ codes ")"))))

IsBlank-is_space : (c : ℕ) → IsBlank c → is_space c ≡ true
IsBlank-is_space c (inl e) = ground arith
IsBlank-is_space c (inr h) = ground arith

not_blank-is_space : (c : ℕ) → (IsBlank c → ⊥) → is_space c ≡ false
not_blank-is_space c h = ground arith

All-is_space : (spaces : Bytes) → All IsBlank spaces → All (λ c. is_space c ≡ true) spaces
All-is_space [] h = tt
All-is_space (c ∷ cs) (b, h) = (IsBlank-is_space c b, All-is_space cs h)

EndsInText-IsTrimmed : (value : Bytes) → EndsInText value → IsTrimmed value
EndsInText-IsTrimmed [] h = tt
EndsInText-IsTrimmed (c ∷ []) h = not_blank-is_space c h
EndsInText-IsTrimmed (c ∷ d ∷ cs) h = EndsInText-IsTrimmed (d ∷ cs) h

split_line-other : (text : Bytes) → All (λ c. c ≢ 61) text → split_line text ≡ none
unfolding split_line
split_line-other [] h = refl
split_line-other (c ∷ cs) (n, h) = rw (ne→== c 61 n) (rw (split_line-other cs h) refl)

parse_line-other : (text : Bytes) → All (λ c. c ≢ 61) text → parse_line text ≡ none
unfolding parse_line
parse_line-other text h = rw (split_line-other text h) refl

last_value-text_of :
    (key : Bytes) (lines : List Line) (old : Bytes)
    → All IsLine lines
    → last_value key (map text_of lines) old ≡ value_of key lines old
last_value-text_of key [] old h = refl
last_value-text_of key (assigns name value spaces ∷ lines) old ((n, t, s), h) =
    let parsed =
      parse_line-line name value spaces n (EndsInText-IsTrimmed value t) (All-is_space spaces s) in
    ap (λ o. last_value key (map text_of lines) (last_pair key o old)) parsed
    ∙ last_value-text_of key lines (if str_eq name key then value else old) h
last_value-text_of key (other text ∷ lines) old (n, h) =
    ap (λ o. last_value key (map text_of lines) (last_pair key o old)) (parse_line-other text n)
    ∙ last_value-text_of key lines old h

version_of-switch_version_of :
    (v b : Bytes) (old : Option Bytes) → version_of v b old ≡ switch_version_of v b old
version_of-switch_version_of [] [] old = refl
version_of-switch_version_of [] (y ∷ b) old = refl
version_of-switch_version_of (x ∷ v) [] old = refl
version_of-switch_version_of (x ∷ v) (y ∷ b) old = refl

-- For a release file of assignments, each a name without '=', the sign, a value that does not end in a
-- space and any spaces, and of other lines without '=': switch_version becomes the text
-- "version (Build: build)", cut to 79 bytes, of the values of the last assignments to VERSION_ID and to
-- BUILD_ID, each cut to 79 bytes; if one of the two is empty or missing it is left as it was.
pub update_sw_info-version :
    (lines : List Line) (c : SoftwareColumns)
    → All IsLine lines
    → (update_sw_info (some (map text_of lines)) c).switch_version
      ≡ switch_version_of
          (value_of (codes "VERSION_ID") lines [])
          (value_of (codes "BUILD_ID") lines [])
          c.switch_version
update_sw_info-version lines c h =
    let v = last_value-text_of (codes "VERSION_ID") lines [] h in
    let b = last_value-text_of (codes "BUILD_ID") lines [] h in
    update_sw_info-last (map text_of lines) c
    ∙ (rw (v, b) refl
        ∙ version_of-switch_version_of (value_of (codes "VERSION_ID") lines [])
            (value_of (codes "BUILD_ID") lines []) c.switch_version)
