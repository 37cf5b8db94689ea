-- ===== src/Packages/Faults.antt =====
-- A package that is not closed by its type, at the start of a batch.
use ops_sysd.Base.{ℕ, ◌≡◌, refl, ap, ◌∙◌, Bool, true, List, ◌∷◌, none, inl}
use ops_sysd.Base.Text.{Bytes, codes, str_eq}
use ops_sysd.Base.Outcome.{fault}
use ops_sysd.Packages.{
  pkg, srcrev, src_url, check_key, check_key_from, Event, PackageRow, Load, begin, create,
  take_value, take_scalar, start_load, add_package_info,
}
use ops_sysd.Packages.Document.{scalars}
use ops_sysd.Packages.Steps.{
  read_values, read_events-scalars, inside, pkg_step, pv_step, srcrev_step, src_url_step,
}

module _ (insert_ok commit_ok : ℕ → Bool) where
  second_pkg :
      (s : Load) (rows : List PackageRow) (r : PackageRow) (v : Bytes) (vs : List Bytes)
      → s.record_count ≡ 0
      → check_key v ≡ none
      → read_values insert_ok commit_ok
          (codes "PKG" ∷ v ∷ vs)
          (inside insert_ok commit_ok s src_url rows r)
        ≡ fault
  unfolding read_values take_scalar take_value begin create inside check_key check_key_from str_eq
  second_pkg s rows r v vs z e = rw e (simp z refl)

  -- If the first package of the file has its name, version, revision and URL but no type, and
  -- another package follows, then the next transaction is created while the first one is open, and
  -- the daemon aborts; the first package's insertion is taken to go through, and no value to be
  -- spelled like a key.
  pub add_package_info-no_type :
      (es : List Event) (name version revision url next : Bytes) (rest : List Bytes)
      (table : List PackageRow)
      → ((n : ℕ) → insert_ok n ≡ true)
      → scalars es
        ≡ codes "PKG"
          ∷ name
          ∷ codes "PV"
          ∷ version
          ∷ codes "SRCREV"
          ∷ revision
          ∷ codes "SRC_URL"
          ∷ url
          ∷ codes "PKG"
          ∷ next
          ∷ rest
      → check_key name ≡ none
      → check_key version ≡ none
      → check_key revision ≡ none
      → check_key url ≡ none
      → check_key next ≡ none
      → add_package_info insert_ok commit_ok true true es table ≡ fault
  unfolding add_package_info
  add_package_info-no_type es name version revision url next rest table always e a b c d f =
      let s = start_load table in
      let s' = record s { inserts = 1 } in
      let run =
        read_events-scalars insert_ok commit_ok es s
        ∙ ap (λ vs. read_values insert_ok commit_ok vs s) e
        ∙ pkg_step insert_ok commit_ok s name _ always (inl (refl, refl)) a
        ∙ pv_step insert_ok commit_ok s' pkg _ _ version _ b
        ∙ srcrev_step insert_ok commit_ok s' _ _ _ revision _ c
        ∙ src_url_step insert_ok commit_ok s' srcrev _ _ url _ d
        ∙ second_pkg s' _ _ next rest refl f in
      rw run refl
