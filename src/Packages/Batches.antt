-- ===== src/Packages/Batches.antt =====
-- The packages of a document reach the table in batches.
use mathlib.Core.List.{append_assoc, append-nil}
use native.Mathlib.Nat.{zero-add}
use ops_sysd.Base.{
  ℕ, suc, ◌+◌, ◌/◌, ◌%◌, ◌≡◌, inl, inr, refl, sym, ap, ◌∙◌, Bool, true, Bool-cases, List, [], ◌∷◌,
  ◌++◌, map, none, All, arith, ◌==◌, ==_iff, ==→ne, length,
}
use ops_sysd.Base.Outcome.{ok}
use ops_sysd.Packages.{
  Event, PackageRow, Load, go_on, commit_txn, commit, end_record, finish_load, start_load,
  add_package_info,
}
use ops_sysd.Packages.Document.{Package, HasValues, document, row_of, scalars}
use ops_sysd.Packages.Steps.{
  opened, IsBetween, read_values, add_package, read_events-scalars, package_step,
}

module _ (insert_ok commit_ok : ℕ → Bool) where
  -- What the table will hold once the open transaction is through.
  held : Load → List PackageRow
  held s = s.table ++ opened s.txn

  -- After `count` packages: the rows held, the batches that went through, and the start of a batch.
  record IsAfter (s : Load) (rows : List PackageRow) (count : ℕ) : Type 0 where
    between : IsBetween s
    counted : s.record_count ≡ count
    committed : s.commits ≡ count / 2000
    holds : held s ≡ rows

  held-append :
      (p : Package) (s : Load) (rows : List PackageRow)
      → held s ≡ rows
      → s.table ++ (opened s.txn ++ row_of p ∷ []) ≡ rows ++ row_of p ∷ []
  unfolding held
  held-append p s rows h =
      sym (append_assoc s.table (opened s.txn) (row_of p ∷ [])) ∙ ap (λ r. r ++ row_of p ∷ []) h

  add_package-IsAfter :
      (p : Package) (s : Load) (rows : List PackageRow) (count : ℕ)
      → ((n : ℕ) → commit_ok n ≡ true)
      → IsAfter s rows count
      → IsAfter (add_package insert_ok commit_ok p s) (rows ++ row_of p ∷ []) (count + 1)
  unfolding add_package end_record commit commit_txn held
  add_package-IsAfter p s rows count always i =
      elim (Bool-cases ((s.record_count + 1) % 2000 == 0)) [
        | inl full ↦
            simp (full, always s.commits)
              (record {
                between = inl (refl, (==_iff _ _).0 full);
                counted = omega (arith, i.counted);
                committed = omega (arith, i.counted, i.committed, (==_iff _ _).0 full);
                holds = append-nil _ ∙ held-append p s rows i.holds;
              })
        | inr part ↦ simp part (record {
          between = inr (_, refl, ==→ne ((s.record_count + 1) % 2000) 0 part);
          counted = omega (arith, i.counted);
          committed =
              omega (arith, i.counted, i.committed, ==→ne ((s.record_count + 1) % 2000) 0 part);
          holds = held-append p s rows i.holds;
        })
      ]

  packages_step :
      (ps : List Package) (s : Load) (rows : List PackageRow) (count : ℕ)
      → ((n : ℕ) → insert_ok n ≡ true)
      → ((n : ℕ) → commit_ok n ≡ true)
      → All HasValues ps
      → IsAfter s rows count
      → (t : Load) × (read_values insert_ok commit_ok (document ps) s ≡ ok (go_on t))
        × IsAfter t (rows ++ map row_of ps) (count + length ps)
  unfolding read_values
  packages_step [] s rows count always always' h i =
      (s, refl, rw (append-nil rows) (let same : count + 0 ≡ count = omega arith in rw same i))
  packages_step (p ∷ ps) s rows count always always' (h, hs) i =
      let (t, run, j) =
        packages_step ps (add_package insert_ok commit_ok p s) (rows ++ row_of p ∷ []) (count + 1)
          always always' hs (add_package-IsAfter p s rows count always' i) in
      let total : count + 1 + length ps ≡ count + suc (length ps) = omega arith in
      (
        t,
        package_step insert_ok commit_ok p (document ps) s always i.between h ∙ run,
        rw (← total) (rw (← append_assoc rows (row_of p ∷ []) (map row_of ps)) j),
      )

  -- The state at the end: the table, no open transaction, and the number of transactions.
  finish-IsAfter :
      (t : Load) (rows : List PackageRow) (count : ℕ)
      → ((n : ℕ) → commit_ok n ≡ true)
      → IsAfter t rows count
      → ((finish_load commit_ok (go_on t)).table ≡ rows)
        × ((finish_load commit_ok (go_on t)).txn ≡ none)
        × ((finish_load commit_ok (go_on t)).commits ≡ (count + 1999) / 2000)
  unfolding finish_load commit commit_txn held
  finish-IsAfter t rows count always i =
      let h : t.table ++ opened t.txn ≡ rows = i.holds in
      elim i.between [
        | inl (closed, full) ↦ simp closed (
          sym (append-nil t.table) ∙ (simp closed at h),
          refl,
          omega (arith, i.counted, i.committed, full),
        )
        | inr (o, e, part) ↦
            simp (e, always t.commits)
              ((simp e at h), refl, omega (arith, i.counted, i.committed, part))
      ]

  -- If every insertion and every commit goes through, and the scalars of the stream are those of a
  -- document of packages none of whose values is spelled like a key, then the run does not fault,
  -- the table gets exactly one row for each package, in order, behind what it held, no transaction
  -- is left open, and there is one transaction for every 2000 packages or part of them. A row has
  -- the revision for its version, or the version if the revision is INVALID.
  pub add_package_info-rows :
      (es : List Event) (ps : List Package) (table : List PackageRow)
      → ((n : ℕ) → insert_ok n ≡ true)
      → ((n : ℕ) → commit_ok n ≡ true)
      → scalars es ≡ document ps
      → All HasValues ps
      → (t : Load) × (add_package_info insert_ok commit_ok true true es table ≡ ok t)
        × (t.table ≡ table ++ map row_of ps)
        × (t.txn ≡ none)
        × (t.commits ≡ (length ps + 1999) / 2000)
  unfolding add_package_info held
  add_package_info-rows es ps table always always' e h =
      let start : IsAfter (start_load table) table 0 = record {
        between = inl (refl, refl);
        counted = refl;
        committed = refl;
        holds = append-nil table;
      } in
      let (t, run, i) = packages_step ps (start_load table) table 0 always always' h start in
      let read =
        read_events-scalars insert_ok commit_ok es (start_load table)
        ∙ ap (λ vs. read_values insert_ok commit_ok vs (start_load table)) e
        ∙ run in
      let (rows, closed, batches) =
        finish-IsAfter t (table ++ map row_of ps) (length ps) always' (rw zero-add at i) in
      (finish_load commit_ok (go_on t), rw read refl, rows, closed, batches)
