-- ===== src/Base/Text.antt =====
-- C strings as the list of their bytes before the terminating NUL, and the libc routines that the
-- source applies to them.
use Prim.Native.Char.{code}
use Prim.Native.Nat.{ℕ, zero, suc}
use Prim.Native.String.{String}
use mathlib.Core.Path.{◌≡◌, refl, sym, ap, ◌∙◌}
use mathlib.Core.Logic.{◌≢◌, ◌↔◌, inl, inr}
use mathlib.Core.Bool.{Bool, true, false, false≢true, ◌&&◌}
use mathlib.Core.List.{List, [], ◌∷◌, ◌++◌}
use native.Mathlib.Omega.{arith}
use ops_sysd.Base.Tests.{◌==◌, Bool-cases}
use ops_sysd.Base.Lists.{length}

abbrev pub Bytes : Type 0
Bytes = List ℕ

-- The code points of a literal: its bytes, since every literal of the source is ASCII.
abbrev pub codes : String → Bytes
codes String.[] = []
codes (String.◌∷◌ c s) = code c ∷ codes s

-- strcmp(a, b) == 0
unfoldable pub str_eq : Bytes → Bytes → Bool
str_eq [] [] = true
str_eq (x ∷ a) (y ∷ b) = x == y && str_eq a b
str_eq _ _ = false

-- strncmp(a, b, n) == 0
unfoldable pub strn_eq : Bytes → Bytes → ℕ → Bool
strn_eq a b zero = true
strn_eq [] [] (suc n) = true
strn_eq (x ∷ a) (y ∷ b) (suc n) = x == y && strn_eq a b n
strn_eq _ _ (suc n) = false

pub str_eq_iff : (a b : Bytes) → (str_eq a b ≡ true) ↔ (a ≡ b)
unfolding str_eq
str_eq_iff [] [] = ground arith
str_eq_iff (x ∷ a) (y ∷ b) = ground (arith, str_eq_iff a b)
str_eq_iff _ _ = ground arith

pub str_eq_refl : (a : Bytes) → str_eq a a ≡ true
str_eq_refl a = (str_eq_iff a a).1 refl

pub strn_eq_prefix :
    (name tag : Bytes)
    → strn_eq name tag (length tag) ≡ true
    → (rest : Bytes) × (name ≡ tag ++ rest)
unfolding strn_eq
strn_eq_prefix name [] h = (name, refl)
strn_eq_prefix [] (y ∷ tag) h = cc
strn_eq_prefix (x ∷ name) (y ∷ tag) h =
    let (rest, e) = strn_eq_prefix name tag (ground arith) in (rest, ground arith)

-- `name` begins with `tag`.
abbrev pub Begins : Bytes → Bytes → Type 0
Begins tag name = (rest : Bytes) × (name ≡ tag ++ rest)

pub strn_eq-Begins : (tag name : Bytes) → strn_eq tag name (length tag) ≡ true → Begins tag name
unfolding strn_eq
strn_eq-Begins [] name h = (name, refl)
strn_eq-Begins (y ∷ tag) [] h = cc
strn_eq-Begins (y ∷ tag) (x ∷ name) h =
    let (rest, e) = strn_eq-Begins tag name (ground arith) in (rest, ground arith)

pub strn_eq_self : (a : Bytes) → strn_eq a a (length a) ≡ true
unfolding strn_eq
strn_eq_self [] = refl
strn_eq_self (x ∷ a) = ground (arith, strn_eq_self a)

strn_eq_append : (tag rest : Bytes) → strn_eq tag (tag ++ rest) (length tag) ≡ true
unfolding strn_eq
strn_eq_append [] rest = refl
strn_eq_append (y ∷ tag) rest = ground (arith, strn_eq_append tag rest)

pub strn_eq-none : (tag name : Bytes) → strn_eq tag name (length tag) ≡ false → Begins tag name → ⊥
strn_eq-none tag name h (rest, e) =
    false≢true (sym h ∙ (ap (λ n. strn_eq tag n (length tag)) e ∙ strn_eq_append tag rest))

pub strn_eq_tag : (tag rest : Bytes) → strn_eq (tag ++ rest) tag (length tag) ≡ true
unfolding strn_eq
strn_eq_tag [] rest = refl
strn_eq_tag (y ∷ tag) rest = ground (arith, strn_eq_tag tag rest)

pub str_eq_ne : (a b : Bytes) → a ≢ b → str_eq a b ≡ false
str_eq_ne a b h = elim (Bool-cases (str_eq a b)) [
  | inl e ↦ absurd (h ((str_eq_iff a b).0 e))
  | inr e ↦ e
]
