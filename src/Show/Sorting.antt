-- ===== src/Show/Sorting.antt =====
-- The tables that are copied into an array of calloc and sorted by qsort.
use ops_sysd.Base.{
  ℕ, ◌+◌, Bool, not, List, [], ◌∷◌, Option, none, some, if◌then◌else◌, ltb, length, replicate, set,
}
use ops_sysd.Base.Int.{ℤ, pos, negsuc}
use ops_sysd.Base.Text.{Bytes}
use ops_sysd.Base.Outcome.{Outcome, ok, fault, ◌>>=◌}

-- strcmp on the bytes as unsigned chars; of its result only the sign is fixed.
unfoldable pub strcmp : Bytes → Bytes → ℤ
strcmp [] [] = pos 0
strcmp [] (y ∷ b) = negsuc 0
strcmp (x ∷ a) [] = pos 1
strcmp (x ∷ a) (y ∷ b) = if ltb x y then negsuc 0 else if ltb y x then pos 1 else strcmp a b

-- qsort on the elements of an array, which are structures of some type
abbrev pub Qsort : Type 1
Qsort = (A : Type 0) → (A → A → ℤ) → List A → List A

module _ {A : Type 0} where
  -- The loop of the FOR_EACH macro: memcpy(array + i, row, sizeof row). A slot that was never
  -- written holds the zeroes of calloc.
  unfoldable pub copy_rows : List A → ℕ → List (Option A) → Outcome (List (Option A))
  copy_rows [] i array = ok array
  copy_rows (row ∷ rows) i array =
      let rest = copy_rows rows (i + 1) (set array i (some row)) in
      if ltb i (length array) then rest else fault

  -- The slots as rows: in a slot of zeroes the name is NULL.
  unfoldable pub read_rows : List (Option A) → Outcome (List A)
  read_rows [] = ok []
  read_rows (none ∷ slots) = fault
  read_rows (some row ∷ slots) = do rows ← read_rows slots; ok (row ∷ rows)

  -- The rows in the order in which they are printed, for an `n` that is not 0. Every slot is read,
  -- if not by the comparison then by the loop that prints; so is the array, if calloc gave none.
  unfoldable pub sort_rows :
      Qsort → (calloc_ok : Bool) → ℕ → (A → A → ℤ) → List A → Outcome (List A)
  unfolding copy_rows read_rows
  sort_rows qsort calloc_ok n compare_rows table = if not calloc_ok then fault else do
    array ← copy_rows table 0 (replicate n none)
    rows ← read_rows array
    ok (qsort A compare_rows rows)
