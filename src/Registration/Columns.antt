-- ===== src/Registration/Columns.antt =====
-- Lists of columns, and statements on every column that are checked on the columns of a list.
use ops_sysd.Base.{
  ◌≡◌, sym, ◌∙◌, ap, Bool, true, false, not, ◌||◌, Bool-cases, inl, inr, List, [], ◌∷◌, all, arith,
}
use ops_sysd.Base.Text.{str_eq_iff}
use ops_sysd.Registration.{Column, col_eq}

abbrev pub has_column : Column → List Column → Bool
has_column c [] = false
has_column c (d ∷ ds) = col_eq c d || has_column c ds

col_eq→≡ : (c d : Column) → col_eq c d ≡ true → c ≡ d
col_eq→≡ c d h =
    let t : c.table ≡ d.table = (str_eq_iff c.table d.table).0 (ground arith) in
    let n : c.name ≡ d.name = (str_eq_iff c.name d.name).0 (ground arith) in
    λ i. record { table = t i; name = n i }

abbrev pub bool_eq : Bool → Bool → Bool
bool_eq true b = b
bool_eq false b = not b

pub bool_eq→≡ : (a b : Bool) → bool_eq a b ≡ true → a ≡ b
bool_eq→≡ true b h = sym h
bool_eq→≡ false b h = ground arith

pub all-has_column :
    (test : Column → Bool) (ds : List Column) (c : Column)
    → all test ds ≡ true
    → has_column c ds ≡ true
    → test c ≡ true
all-has_column test [] c h m = cc
all-has_column test (d ∷ ds) c h m = elim (Bool-cases (col_eq c d)) [
  | inl e ↦ ap test (col_eq→≡ c d e) ∙ ground arith
  | inr e ↦ all-has_column test ds c (ground arith) (ground arith)
]

pub not_within :
    (added ds : List Column) (c : Column)
    → all (λ d. has_column d added) ds ≡ true
    → has_column c added ≡ false
    → has_column c ds ≡ false
not_within added ds c all e = elim (Bool-cases (has_column c ds)) [
  | inl f ↦ absurd (ground (arith, all-has_column (λ d. has_column d added) ds c all f))
  | inr f ↦ f
]

-- Two lists with the same columns
pub has_column-named :
    (added woken : List Column)
    → all (λ c. has_column c woken) added ≡ true
    → all (λ c. has_column c added) woken ≡ true
    → (c : Column) → has_column c added ≡ has_column c woken
has_column-named added woken h k c = elim (Bool-cases (has_column c added)) [
  | inl e ↦ e ∙ sym (all-has_column (λ d. has_column d woken) added c h e)
  | inr e ↦ e ∙ sym (not_within added woken c k e)
]
