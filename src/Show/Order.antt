-- ===== src/Show/Order.antt =====
-- What qsort is documented to do, the order of names that strcmp gives, and the copy into the array.
use mathlib.Core.List.{Perm, append_assoc, append-nil}
use native.Mathlib.Nat.{zero-add, add-zero}
use ops_sysd.Base.{
  ℕ, zero, suc, ◌+◌, ◌-◌, ◌≤◌, ◌<◌, ◌≡◌, refl, sym, ap, ◌∙◌, Bool, true, false, List, [], ◌∷◌, ◌++◌,
  map, Option, none, some, length, length-append, length-replicate, replicate, set, ltb, lt→ltb,
  le→ltb, ltb→lt, ltb→le, Bool-cases, inl, inr, arith,
}
use ops_sysd.Base.Int.{ℤ, is_positive}
use ops_sysd.Base.Text.{Bytes}
use ops_sysd.Base.Outcome.{ok, fault, fault-ne-ok}
use ops_sysd.Show.Sorting.{strcmp, Qsort, copy_rows, read_rows, sort_rows}

-- A comparison that qsort can work with: no two rows are each behind the other, and what is not behind
-- a second row is not behind what the second is not behind.
pub record IsOrder {A : Type 0} (compare_rows : A → A → ℤ) : Type 0 where
  pub total :
      (a b : A) → is_positive (compare_rows a b) ≡ true → is_positive (compare_rows b a) ≡ false
  pub trans :
      (a b c : A)
      → is_positive (compare_rows a b) ≡ false
      → is_positive (compare_rows b c) ≡ false
      → is_positive (compare_rows a c) ≡ false

-- No row is behind its successor.
abbrev pub IsAscending : {A : Type 0} → (A → A → ℤ) → List A → Type 0
IsAscending compare_rows [] = Unit
IsAscending compare_rows (a ∷ []) = Unit
IsAscending compare_rows (a ∷ b ∷ rows) =
    (is_positive (compare_rows a b) ≡ false) × IsAscending compare_rows (b ∷ rows)

-- qsort rearranges the elements, in ascending order if the comparison is one.
pub record IsQsort (qsort : Qsort) : Type 1 where
  pub perm :
      (A : Type 0) (compare_rows : A → A → ℤ) (rows : List A)
      → Perm (qsort A compare_rows rows) rows
  pub ascending :
      (A : Type 0) (compare_rows : A → A → ℤ) (rows : List A)
      → IsOrder compare_rows
      → IsAscending compare_rows (qsort A compare_rows rows)

strcmp_total : (a b : Bytes) → is_positive (strcmp a b) ≡ true → is_positive (strcmp b a) ≡ false
unfolding strcmp
strcmp_total [] [] h = ground arith
strcmp_total [] (y ∷ b) h = ground arith
strcmp_total (x ∷ a) [] h = refl
strcmp_total (x ∷ a) (y ∷ b) h = ground (arith, strcmp_total a b)

strcmp_trans :
    (a b c : Bytes)
    → is_positive (strcmp a b) ≡ false
    → is_positive (strcmp b c) ≡ false
    → is_positive (strcmp a c) ≡ false
unfolding strcmp
strcmp_trans [] b [] h k = refl
strcmp_trans [] b (z ∷ c) h k = refl
strcmp_trans (x ∷ a) [] c h k = absurd (ground arith)
strcmp_trans (x ∷ a) (y ∷ b) [] h k = absurd (ground arith)
strcmp_trans (x ∷ a) (y ∷ b) (z ∷ c) h k = ground (arith, strcmp_trans a b c)

-- Rows compared by their names
pub strcmp-IsOrder : {A : Type 0} (name : A → Bytes) → IsOrder (λ a b. strcmp (name a) (name b))
strcmp-IsOrder name = record {
  total = λ a b. strcmp_total (name a) (name b);
  trans = λ a b c. strcmp_trans (name a) (name b) (name c);
}

module _ {A : Type 0} where
  -- The array after some rows: then come the slots of zeroes.
  abbrev slots : List A → ℕ → List (Option A)
  slots done left = map some done ++ replicate left none

  set-slots :
      (done : List A) (left : ℕ) (row : A)
      → set (slots done (suc left)) (length done) (some row) ≡ slots (done ++ row ∷ []) left
  set-slots [] left row = refl
  set-slots (d ∷ done) left row = ap (◌∷◌ (some d)) (set-slots done left row)

  length-slots : (done : List A) (left : ℕ) → length (slots done left) ≡ length done + left
  length-slots [] left = let zeroes : Option A = none in omega (arith, length-replicate left zeroes)
  length-slots (d ∷ done) left = omega (arith, length-slots done left)

  length-snoc : (done : List A) (row : A) → length (done ++ row ∷ []) ≡ length done + 1
  length-snoc done row = length-append done (row ∷ [])

  copy_rows-step :
      (row : A) (rows done : List A) (left : ℕ)
      → copy_rows (row ∷ rows) (length done) (slots done (suc left))
        ≡ copy_rows rows (length (done ++ row ∷ [])) (slots (done ++ row ∷ []) left)
  unfolding copy_rows
  copy_rows-step row rows done left =
      let room : length done < length (slots done (suc left)) =
        omega (arith, length-slots done (suc left)) in
      rw (lt→ltb _ _ room, set-slots done left row, length-snoc done row) refl

  copy_rows-fits :
      (rows done : List A) (left : ℕ)
      → copy_rows rows (length done) (slots done (length rows + left))
        ≡ ok (slots (done ++ rows) left)
  copy_rows-fits [] done left = unfold copy_rows in rw (zero-add, append-nil done) refl
  copy_rows-fits (row ∷ rows) done left =
      let more : suc (length rows) + left ≡ suc (length rows + left) = omega arith in
      rw more (
        copy_rows-step row rows done (length rows + left)
        ∙ copy_rows-fits rows (done ++ row ∷ []) left
        ∙ ap (λ x. ok (slots x left)) (append_assoc done (row ∷ []) rows))

  copy_rows-overrun :
      (rows done : List A) (n : ℕ)
      → n < length rows
      → copy_rows rows (length done) (slots done n) ≡ fault
  copy_rows-overrun [] done n h = absurd (omega arith)
  copy_rows-overrun (row ∷ rows) done zero h =
      let full : length (slots done 0) ≤ length done = omega (arith, length-slots done 0) in
      unfold copy_rows in rw (le→ltb _ _ full) refl
  copy_rows-overrun (row ∷ rows) done (suc n) h =
      copy_rows-step row rows done n ∙ copy_rows-overrun rows (done ++ row ∷ []) n (omega arith)

  read_rows-full : (rows : List A) → read_rows (slots rows 0) ≡ ok rows
  unfolding read_rows
  read_rows-full [] = refl
  read_rows-full (row ∷ rows) = rw (read_rows-full rows) refl

  read_rows-zeroes : (rows : List A) (left : ℕ) → read_rows (slots rows (suc left)) ≡ fault
  unfolding read_rows
  read_rows-zeroes [] left = refl
  read_rows-zeroes (row ∷ rows) left = rw (read_rows-zeroes rows left) refl

  -- The rows are printed if there is memory and the table has as many rows as are referred to.
  pub sort_rows-all :
      (qsort : Qsort) (compare_rows : A → A → ℤ) (table : List A)
      → sort_rows qsort true (length table) compare_rows table ≡ ok (qsort A compare_rows table)
  unfolding sort_rows
  sort_rows-all qsort compare_rows table =
      let fits : copy_rows table 0 (replicate (length table) none) ≡ ok (map some table ++ []) =
        rw add-zero at (copy_rows-fits table [] 0) in
      rw (fits, read_rows-full table) refl

  sort_rows-overrun :
      (qsort : Qsort) (n : ℕ) (compare_rows : A → A → ℤ) (table : List A)
      → n < length table
      → sort_rows qsort true n compare_rows table ≡ fault
  unfolding sort_rows
  sort_rows-overrun qsort n compare_rows table h = rw (copy_rows-overrun table [] n h) refl

  sort_rows-zeroes :
      (qsort : Qsort) (k : ℕ) (compare_rows : A → A → ℤ) (table : List A)
      → sort_rows qsort true (length table + suc k) compare_rows table ≡ fault
  unfolding sort_rows
  sort_rows-zeroes qsort k compare_rows table =
      rw (copy_rows-fits table [] (suc k), read_rows-zeroes table k) refl

  -- With fewer slots than rows it writes past the array, with more it reads a slot of zeroes.
  pub sort_rows-ok :
      (qsort : Qsort) (calloc_ok : Bool) (n : ℕ) (compare_rows : A → A → ℤ) (table rows : List A)
      → sort_rows qsort calloc_ok n compare_rows table ≡ ok rows
      → (calloc_ok ≡ true) × (length table ≡ n)
  sort_rows-ok qsort false n compare_rows table rows h = unfold sort_rows in cc
  sort_rows-ok qsort true n compare_rows table rows h = elim (Bool-cases (ltb n (length table))) [
    | inl more ↦
        let f = sort_rows-overrun qsort n compare_rows table (ltb→lt n (length table) more) in
        absurd (fault-ne-ok (sym f ∙ h))
    | inr e ↦ elim (Bool-cases (ltb (length table) n)) [
      | inl less ↦
          let k = n - length table - 1 in
          let same : n ≡ length table + suc k = omega (arith, ltb→lt (length table) n less) in
          absurd (fault-ne-ok (sym (sort_rows-zeroes qsort k compare_rows table) ∙ rw same at h))
      | inr f ↦ (refl, omega (arith, ltb→le n (length table) e, ltb→le (length table) n f))
    ]
  ]
