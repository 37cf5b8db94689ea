-- ===== src/Packages/Steps.antt =====
-- One scalar, one key with its value, and one package of `sysd_add_package_info` at a time.

use ops_sysd.Base.{
  ℕ, ◌+◌, ◌%◌, ◌≡◌, ◌≢◌, ◌⊎◌, inl, inr, refl, ◌∙◌, Bool, true, Bool-cases, List, [], ◌∷◌, ◌++◌,
  Option, none, some, ne→==, if◌then◌else◌,
}
use ops_sysd.Base.Text.{Bytes, codes, str_eq}
use ops_sysd.Base.Outcome.{Outcome, ok, fault, no_fuel, ◌>>=◌}
use ops_sysd.Packages.{
  Key, pkg, pv, srcrev, src_url, src_type, keystr_pkg_info, check_key_from, check_key, Event,
  scalar, other_event, stream_end, PackageRow, OpenTxn, Load, Next, go_on, stop, rows_of, create,
  open_rows, begin, set_column, insert, end_record, take_value, take_scalar, next_event,
  read_events,
}
use ops_sysd.Packages.Document.{Package, values, HasValues, row_of, scalars}

-- The rows of the transaction, if one is open.
abbrev pub opened : Option OpenTxn → List PackageRow
opened none = []
opened (some t) = rows_of t

-- Between two packages: no transaction at the start of a batch, one inside it.
abbrev pub IsBetween : Load → Type 0
IsBetween s =
    ((s.txn ≡ none) × (s.record_count % 2000 ≡ 0))
    ⊎ ((t : OpenTxn) × (s.txn ≡ some t) × (s.record_count % 2000 ≢ 0))

begin-opened : (s : Load) → IsBetween s → begin s ≡ ok (opened s.txn)
unfolding begin create open_rows
begin-opened s (inl (e, z)) = simp (e, z)
begin-opened s (inr (t, e, nz)) = simp e (rw (ne→== (s.record_count % 2000) 0 nz))

module _ (insert_ok commit_ok : ℕ → Bool) where
  unfoldable pub read_values : List Bytes → Load → Outcome Next
  read_values [] s = ok (go_on s)
  read_values (v ∷ vs) s =
      take_scalar insert_ok commit_ok (check_key v) v s >>= next_event (read_values vs)

  next_event-same :
      (r : Outcome Next) (f g : Load → Outcome Next)
      → ((s : Load) → f s ≡ g s)
      → (r >>= next_event f) ≡ (r >>= next_event g)
  next_event-same (ok (go_on s)) f g h = h s
  next_event-same (ok (stop s)) f g h = refl
  next_event-same fault f g h = refl
  next_event-same no_fuel f g h = refl

  pub read_events-scalars :
      (es : List Event) (s : Load)
      → read_events insert_ok commit_ok es s ≡ read_values (scalars es) s
  unfolding read_events read_values
  read_events-scalars [] s = refl
  read_events-scalars (stream_end ∷ es) s = refl
  read_events-scalars (other_event ∷ es) s = read_events-scalars es s
  read_events-scalars (scalar v ∷ es) s = next_event-same _ _ _ (read_events-scalars es)

  key_step :
      (k : Key) (vs : List Bytes) (s : Load)
      → read_values (keystr_pkg_info k ∷ vs) s
        ≡ read_values vs (record s { current_state = some k })
  unfolding read_values take_scalar check_key check_key_from str_eq
  key_step pkg vs s = refl
  key_step pv vs s = refl
  key_step srcrev vs s = refl
  key_step src_url vs s = refl
  key_step src_type vs s = refl

  value_step :
      (k : Key) (v : Bytes) (vs : List Bytes) (s t : Load)
      → check_key v ≡ none
      → take_value insert_ok commit_ok (some k) v (record s { current_state = some k })
        ≡ ok (go_on t)
      → read_values (v ∷ vs) (record s { current_state = some k }) ≡ read_values vs t
  unfolding read_values take_scalar
  value_step k v vs s t e h = rw e (rw h refl)

  pub pair_step :
      (k : Key) (v : Bytes) (vs : List Bytes) (s t : Load)
      → check_key v ≡ none
      → take_value insert_ok commit_ok (some k) v (record s { current_state = some k })
        ≡ ok (go_on t)
      → read_values (keystr_pkg_info k ∷ v ∷ vs) s ≡ read_values vs t
  pair_step k v vs s t e h = key_step k (v ∷ vs) s ∙ value_step k v vs s t e h

  -- The state after one package.
  unfoldable pub add_package : Package → Load → Load
  add_package p s = end_record commit_ok (record s {
    current_state = some src_type;
    record_count = s.record_count + 1;
    txn = some (record { earlier = opened s.txn; row = row_of p });
    inserts = s.inserts + 1;
  })

  -- Inside a package: the last key, and the columns of its row.
  unfoldable pub inside : Load → Key → List PackageRow → PackageRow → Load
  inside s k rows r = record s {
    current_state = some k;
    txn = some (record { earlier = rows; row = r });
  }

  pub pv_step :
      (s : Load) (k : Key) (rows : List PackageRow) (r : PackageRow) (v : Bytes) (vs : List Bytes)
      → check_key v ≡ none
      → read_values (codes "PV" ∷ v ∷ vs) (inside s k rows r)
        ≡ read_values vs (inside s pv rows (record r { version = v }))
  unfolding take_value set_column inside
  pv_step s k rows r v vs e = pair_step pv v vs (inside s k rows r) _ e refl

  pub srcrev_step :
      (s : Load) (k : Key) (rows : List PackageRow) (r : PackageRow) (v : Bytes) (vs : List Bytes)
      → check_key v ≡ none
      → read_values (codes "SRCREV" ∷ v ∷ vs) (inside s k rows r)
        ≡ read_values vs (
            inside s srcrev rows
              (record r { version = if str_eq v (codes "INVALID") then r.version else v }))
  unfolding take_value set_column inside
  srcrev_step s k rows r v vs e = elim (Bool-cases (str_eq v (codes "INVALID"))) [
    | inl same ↦ pair_step srcrev v vs (inside s k rows r) _ e (rw same refl)
    | inr other ↦ pair_step srcrev v vs (inside s k rows r) _ e (rw other refl)
  ]

  pub src_url_step :
      (s : Load) (k : Key) (rows : List PackageRow) (r : PackageRow) (v : Bytes) (vs : List Bytes)
      → check_key v ≡ none
      → read_values (codes "SRC_URL" ∷ v ∷ vs) (inside s k rows r)
        ≡ read_values vs (inside s src_url rows (record r { src_url = v }))
  unfolding take_value set_column inside
  src_url_step s k rows r v vs e = pair_step src_url v vs (inside s k rows r) _ e refl

  src_type_step :
      (s : Load) (k : Key) (rows : List PackageRow) (r : PackageRow) (v : Bytes) (vs : List Bytes)
      → check_key v ≡ none
      → read_values (codes "TYPE" ∷ v ∷ vs) (inside s k rows r)
        ≡ read_values vs (
            end_record commit_ok (
              inside
                (record s { record_count = s.record_count + 1 })
                src_type
                rows
                (record r { src_type = v })))
  unfolding take_value set_column inside
  src_type_step s k rows r v vs e = pair_step src_type v vs (inside s k rows r) _ e refl

  pub pkg_step :
      (s : Load) (v : Bytes) (vs : List Bytes)
      → ((n : ℕ) → insert_ok n ≡ true)
      → IsBetween s
      → check_key v ≡ none
      → read_values (codes "PKG" ∷ v ∷ vs) s
        ≡ read_values vs (
            inside
              (record s { inserts = s.inserts + 1 })
              pkg
              (opened s.txn)
              (record { name = v; version = []; src_url = []; src_type = [] }))
  unfolding take_value insert inside
  pkg_step s v vs always b e =
      pair_step pkg v vs s _ e
        (rw (begin-opened (record s { current_state = some pkg }) b) (rw (always s.inserts) refl))

  pub package_step :
      (p : Package) (vs : List Bytes) (s : Load)
      → ((n : ℕ) → insert_ok n ≡ true)
      → IsBetween s
      → HasValues p
      → read_values (values p ++ vs) s ≡ read_values vs (add_package p s)
  unfolding add_package inside
  package_step p vs s always b h =
      let s' = record s { inserts = s.inserts + 1 } in
      pkg_step s p.name _ always b h.name_value
      ∙ pv_step s' pkg _ _ p.pv _ h.pv_value
      ∙ srcrev_step s' pv _ _ p.srcrev _ h.srcrev_value
      ∙ src_url_step s' srcrev _ _ p.src_url _ h.src_url_value
      ∙ src_type_step s' src_url _ _ p.src_type vs h.src_type_value
