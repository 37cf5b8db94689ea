-- ===== src/Release/Examples.antt =====
-- A small release file, and the theorem on its version at it.
use ops_sysd.Base.{
  ◌≡◌, ◌≢◌, refl, inl, inr, true, not, ◌==◌, all, List, [], ◌∷◌, map, none, some, arith, All,
}
use ops_sysd.Base.Text.{Bytes, codes, str_eq}
use ops_sysd.Release.{SoftwareColumns, update_sw_info}
use ops_sysd.Release.Document.{Line, assigns, other, text_of, IsLine, update_sw_info-version}

abbrev lines : List Line
lines =
    assigns (codes "NAME") (codes "OpenSwitch") (10 ∷ [])
    ∷ assigns (codes "VERSION_ID") (codes "0.1.0") (10 ∷ [])
    ∷ other (10 ∷ [])
    ∷ assigns (codes "BUILD_ID") (codes "ab12") (32 ∷ 10 ∷ [])
    ∷ []

abbrev columns : SoftwareColumns
columns = record { software_info = none; switch_version = none }

no_sign : (xs : Bytes) → all (λ c. not (c == 61)) xs ≡ true → All (λ c. c ≢ 61) xs
no_sign [] h = tt
no_sign (x ∷ xs) h = ((λ e. absurd (ground arith)), no_sign xs (ground arith))

lines-IsLine : All IsLine lines
lines-IsLine = (
  (no_sign (codes "NAME") refl, (λ b. ground arith), (inr (omega arith, omega arith), tt)),
  (
    (no_sign (codes "VERSION_ID") refl, (λ b. ground arith), (inr (omega arith, omega arith), tt)),
    (
      no_sign (10 ∷ []) refl,
      (
        (
          no_sign (codes "BUILD_ID") refl,
          (λ b. ground arith),
          (inl refl, (inr (omega arith, omega arith), tt)),
        ),
        tt,
      ),
    ),
  ),
)

update_sw_info-version_example :
    (update_sw_info (some (map text_of lines)) columns).switch_version
    ≡ some (codes "0.1.0 (Build: ab12)")
unfolding str_eq
update_sw_info-version_example = update_sw_info-version lines columns lines-IsLine
