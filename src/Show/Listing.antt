-- ===== src/Show/Listing.antt =====
-- The lists of the fans and of the power supplies: when they can be printed, and in which order.
use mathlib.Core.List.{Mem, Perm, append-nil}
use mathlib.Core.List.Perm
use ops_sysd.Base.{
  ℕ, ◌≡◌, ◌≢◌, ◌⊎◌, inl, inr, refl, sym, ap, ◌∙◌, subst, Bool, true, Bool-cases, List, [], ◌++◌,
  ◌==◌, ==_iff, ==→ne, ne→==, length,
}
use ops_sysd.Base.Int.{ℤ}
use ops_sysd.Base.Text.{Bytes}
use ops_sysd.Base.Outcome.{ok, ok_inj, >>=-eq-ok}
use ops_sysd.Show.Devices.{
  FanRow, PsuRow, VtyNames, compare_fan, compare_psu, print_rows, fan_line, fan_heading, psu_lines,
  psu_heading, show_fans, show_psus,
}
use ops_sysd.Show.Order.{IsQsort, IsAscending, strcmp-IsOrder, sort_rows-all, sort_rows-ok}
use ops_sysd.Show.Sorting.{strcmp, Qsort, sort_rows}
use ops_sysd.Show.Statuses.{HaveStatus, HaveStatus-perm, psu_text, psu_lines-text, psu_lines-status}

-- Rows that are sorted are printed if the subsystem refers to none, or there is memory for them and
-- it refers to as many as the table has.
abbrev pub CanSort : {A : Type 0} → (calloc_ok : Bool) → ℕ → List A → Type 0
CanSort calloc_ok n table = (n ≡ 0) ⊎ ((calloc_ok ≡ true) × (length table ≡ n))

-- The rows that are printed: none, or those of the table by their names.
abbrev pub IsListing : {A : Type 0} → (A → A → ℤ) → ℕ → (table rows : List A) → Type 0
IsListing compare_rows n table rows =
    (n ≡ 0 → rows ≡ []) × (n ≢ 0 → Perm rows table × IsAscending compare_rows rows)

CanSort-cases :
    {A : Type 0} (calloc_ok : Bool) (n : ℕ) (table : List A)
    → CanSort calloc_ok n table
    → (n ≡ 0) ⊎ ((n ≢ 0) × (calloc_ok ≡ true) × (length table ≡ n))
CanSort-cases calloc_ok n table (inl e) = inl e
CanSort-cases calloc_ok n table (inr (c, l)) = elim (Bool-cases (n == 0)) [
  | inl z ↦ inl ((==_iff n 0).0 z)
  | inr z ↦ inr (==→ne n 0 z, c, l)
]

sort_rows-IsListing :
    {A : Type 0} (qsort : Qsort) (name : A → Bytes) (n : ℕ) (table : List A)
    → IsQsort qsort
    → n ≢ 0
    → IsListing
        (λ a b. strcmp (name a) (name b))
        n
        table
        (qsort A (λ a b. strcmp (name a) (name b)) table)
sort_rows-IsListing {A} qsort name n table q pos =
    let order = λ (a b : A). strcmp (name a) (name b) in
    (
      (λ e. absurd (pos e)),
      (λ _. (q.perm A order table, q.ascending A order table (strcmp-IsOrder name))),
    )

nothing-IsListing :
    {A : Type 0} (compare_rows : A → A → ℤ) (n : ℕ) (table : List A)
    → n ≡ 0
    → IsListing compare_rows n table []
nothing-IsListing compare_rows n table e = ((λ _. refl), (λ pos. absurd (pos e)))

module _ (names : VtyNames) (qsort : Qsort) (q : IsQsort qsort) where
  pub show_fans-IsListing :
      (calloc_ok : Bool) (n : ℕ) (table : List FanRow)
      → CanSort calloc_ok n table
      → (rows : List FanRow) × IsListing compare_fan n table rows
        × (show_fans names qsort calloc_ok n table
            ≡ ok (fan_heading names ++ print_rows (fan_line names) rows))
  unfolding show_fans print_rows
  show_fans-IsListing calloc_ok n table can = elim (CanSort-cases calloc_ok n table can) [
    | inl e ↦ (
      [],
      nothing-IsListing compare_fan n table e,
      rw e (ap ok (sym (append-nil (fan_heading names)))),
    )
    | inr (some_fan, c, l) ↦ (
      qsort FanRow compare_fan table,
      sort_rows-IsListing qsort (λ r. r.name) n table q some_fan,
      rw (ne→== n 0 some_fan, c, ← l, sort_rows-all qsort compare_fan table) refl,
    )
  ]

  pub show_fans-ok :
      (calloc_ok : Bool) (n : ℕ) (table : List FanRow) (text : Bytes)
      → show_fans names qsort calloc_ok n table ≡ ok text
      → CanSort calloc_ok n table
  unfolding show_fans
  show_fans-ok calloc_ok n table text h = elim (Bool-cases (n == 0)) [
    | inl z ↦ inl ((==_iff n 0).0 z)
    | inr z ↦
        let (rows, e, _) =
          >>=-eq-ok (sort_rows qsort calloc_ok n compare_fan table) _ (simp z at h) in
        inr (sort_rows-ok qsort calloc_ok n compare_fan table rows e)
  ]

  pub show_psus-IsListing :
      (calloc_ok : Bool) (n : ℕ) (table : List PsuRow)
      → CanSort calloc_ok n table
      → (n ≢ 0 → HaveStatus table)
      → (rows : List PsuRow) × IsListing compare_psu n table rows
        × (show_psus names qsort calloc_ok n table
            ≡ ok (psu_heading names ++ print_rows (psu_text names) rows))
  unfolding show_psus print_rows
  show_psus-IsListing calloc_ok n table can s = elim (CanSort-cases calloc_ok n table can) [
    | inl e ↦ (
      [],
      nothing-IsListing compare_psu n table e,
      rw e (ap ok (sym (append-nil (psu_heading names)))),
    )
    | inr (some_psu, c, l) ↦
        let sorted = q.perm PsuRow compare_psu table in
        let rows = qsort PsuRow compare_psu table in
        let text = psu_lines-text names rows (HaveStatus-perm sorted (s some_psu)) in
        (
          rows,
          sort_rows-IsListing qsort (λ r. r.name) n table q some_psu,
          rw (ne→== n 0 some_psu, c, ← l, sort_rows-all qsort compare_psu table, text) refl,
        )
  ]

  pub show_psus-ok :
      (calloc_ok : Bool) (n : ℕ) (table : List PsuRow) (text : Bytes)
      → show_psus names qsort calloc_ok n table ≡ ok text
      → CanSort calloc_ok n table × (n ≢ 0 → HaveStatus table)
  unfolding show_psus
  show_psus-ok calloc_ok n table text h = elim (Bool-cases (n == 0)) [
    | inl z ↦ (inl ((==_iff n 0).0 z), (λ pos. absurd (pos ((==_iff n 0).0 z))))
    | inr z ↦
        let (rows, e, f) =
          >>=-eq-ok (sort_rows qsort calloc_ok n compare_psu table) _ (simp z at h) in
        let (c, l) = sort_rows-ok qsort calloc_ok n compare_psu table rows e in
        let (lines, g, _) = >>=-eq-ok (psu_lines names rows) _ f in
        let sorted : qsort PsuRow compare_psu table ≡ rows =
          ok_inj (sym (sort_rows-all qsort compare_psu table) ∙ rw (c, ← l) at e) in
        (
          inr (c, l),
          (λ _ row m.
              psu_lines-status names rows lines g row
                (subst (Mem row) sorted ((Perm.mem_iff (q.perm PsuRow compare_psu table)).1 m))),
        )
  ]
