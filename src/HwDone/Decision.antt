-- ===== src/HwDone/Decision.antt =====
-- The decision of `sysd_chk_if_hw_daemons_done` in terms of the rows that its loop finds.
use mathlib.Core.Bool.{false≢true}
use ops_sysd.Base.{
  sym, ◌∙◌, ==_iff, ℕ, suc, ◌+◌, ◌≡◌, ◌≢◌, ◌⊎◌, inl, inr, refl, true, false, Bool-cases, List, [],
  ◌∷◌, arith, All, ◌==◌,
}
use ops_sysd.Manifest.{DaemonInfo, count_hw}
use ops_sysd.HwDone.{
  DaemonRow, Found, found_set, found_not_set, not_found, find_row, tally, is_done,
}

-- The loop over the table finds a row.
abbrev pub IsFound : List DaemonRow → DaemonInfo → Type 0
IsFound rows d = d.is_hw_handler ≡ true → find_row d.name rows ≢ not_found

-- The loop over the table finds a row with `cur_hw` above 0.
abbrev pub IsFoundSet : List DaemonRow → DaemonInfo → Type 0
IsFoundSet rows d = d.is_hw_handler ≡ true → find_row d.name rows ≡ found_set

Found-cases : (f : Found) → (f ≡ found_set) ⊎ (f ≡ found_not_set) ⊎ (f ≡ not_found)
Found-cases found_set = inl refl
Found-cases found_not_set = inr (inl refl)
Found-cases not_found = inr (inr refl)

module _ (rows : List DaemonRow) where
  tally-reported :
      (ds : List DaemonInfo) (n : ℕ)
      → All (IsFoundSet rows) ds
      → tally rows ds (record { not_set = false; num_found = n })
        ≡ record { not_set = false; num_found = n + count_hw ds }
  unfolding tally count_hw
  tally-reported [] n h = ground arith
  tally-reported (d ∷ ds) n (r, h) = elim (Bool-cases d.is_hw_handler) [
    | inl hw ↦
        simp (hw, r hw)
          (let e : n + suc (count_hw ds) ≡ n + 1 + count_hw ds = omega arith in
            rw e (tally-reported ds (n + 1) h))
    | inr no_hw ↦ simp no_hw (tally-reported ds n h)
  ]

  -- One round that does not break the loop.
  tally_round :
      (d : DaemonInfo) (ds : List DaemonInfo) (n : ℕ)
      → IsFound rows d
      → (tally rows (d ∷ ds) (record { not_set = false; num_found = n })).not_set ≡ false
      → (k : ℕ) × IsFoundSet rows d
        × ((tally rows ds (record { not_set = false; num_found = k })).not_set ≡ false)
  unfolding tally
  tally_round d ds n g e = elim (Bool-cases d.is_hw_handler) [
    | inr no_hw ↦ (n, (λ hw. absurd (false≢true (sym no_hw ∙ hw))), ground arith)
    | inl hw ↦ elim (Found-cases (find_row d.name rows)) [
      | inl set ↦ (n + 1, (λ _. set), ground arith)
      | inr (inl unset) ↦ absurd (ground arith)
      | inr (inr none) ↦ absurd (g hw none)
    ]
  ]

  reported-tally :
      (ds : List DaemonInfo) (n : ℕ)
      → All (IsFound rows) ds
      → (tally rows ds (record { not_set = false; num_found = n })).not_set ≡ false
      → All (IsFoundSet rows) ds
  reported-tally [] n g e = tt
  reported-tally (d ∷ ds) n (g, gs) e =
      let (k, reported, rest) = tally_round d ds n g e in (reported, reported-tally ds k gs rest)

  no_handlers : (ds : List DaemonInfo) → count_hw ds ≡ 0 → All (IsFoundSet rows) ds
  unfolding count_hw
  no_handlers [] e = tt
  no_handlers (d ∷ ds) e = elim (Bool-cases d.is_hw_handler) [
    | inl hw ↦ absurd (ground arith)
    | inr no_hw ↦ ((λ hw. absurd (false≢true (sym no_hw ∙ hw))), no_handlers ds (ground arith))
  ]

  pub found-is_done :
      (ds : List DaemonInfo) → All (IsFoundSet rows) ds → is_done ds (count_hw ds) rows ≡ true
  unfolding is_done
  found-is_done ds h = elim (Bool-cases (count_hw ds == 0)) [
    | inl z ↦ rw z
    | inr nz ↦ rw nz (rw (tally-reported ds 0 h) (ground arith))
  ]

  pub is_done-found :
      (ds : List DaemonInfo)
      → All (IsFound rows) ds
      → is_done ds (count_hw ds) rows ≡ true
      → All (IsFoundSet rows) ds
  unfolding is_done
  is_done-found ds g e = elim (Bool-cases (count_hw ds == 0)) [
    | inl z ↦ no_handlers ds ((==_iff (count_hw ds) 0).0 z)
    | inr nz ↦ reported-tally ds 0 g (ground arith)
  ]
