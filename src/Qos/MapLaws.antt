-- ===== src/Qos/MapLaws.antt =====
-- What the COS and the DSCP map hold after the first configuration.
use native.Mathlib.Nat.{zero-add}
use ops_sysd.Base.{
  ℕ, zero, suc, ◌+◌, ◌^◌, ◌≤◌, ◌<◌, ◌≡◌, inl, inr, refl, ◌∙◌, List, Option, some, arith, length,
  get_elem?, set, replicate, length-set, length-replicate, get_elem?-none, Bool-cases, Option-cases,
  ◌==◌, ==_iff, ==→ne, get_elem?-set, get_elem?-set_other, get_elem?-replicate,
}
use ops_sysd.Base.Int.{ℤ, pos}
use ops_sysd.Base.Text.{Bytes}
use ops_sysd.Base.Outcome.{ok, fault}
use ops_sysd.Qos.Column.{to_unsigned}
use ops_sysd.Qos.Maps.{
  YamlMapEntry, MapEntry, blank, set_row, set_rows, init_map, set_cos_map_entry, set_dscp_map_entry,
  init_default_cos_map, init_cos_map, init_default_dscp_map, init_dscp_map,
}

-- `n` rows for the entries, in order, and blank ones up to `size`.
pub record IsFilled (set_entry : YamlMapEntry → MapEntry → MapEntry) (e : ℕ → YamlMapEntry)
    (n size : ℕ) (rows : List MapEntry) : Type 0 where
  pub count : length rows ≡ size
  pub configured : (i : ℕ) → i < n → get_elem? rows i ≡ some (set_entry (e i) blank)
  pub rest : (i : ℕ) → n ≤ i → i < size → get_elem? rows i ≡ some blank

module _ (set_entry : YamlMapEntry → MapEntry → MapEntry) (entry : ℕ → Option YamlMapEntry)
    (e : ℕ → YamlMapEntry) where
  set_row-blank :
      (ii : ℕ) (rows : List MapEntry)
      → entry ii ≡ some (e ii)
      → get_elem? rows ii ≡ some blank
      → set_row set_entry (entry ii) ii rows ≡ ok (set rows ii (set_entry (e ii) blank))
  unfolding set_row
  set_row-blank ii rows h at = rw h (rw (at, set_row) refl)

  set_row-outside :
      (ii : ℕ) (rows : List MapEntry)
      → length rows ≤ ii
      → set_row set_entry (entry ii) ii rows ≡ fault
  unfolding set_row
  set_row-outside ii rows h = elim (Option-cases (entry ii)) [
    | inl none_there ↦ rw none_there refl
    | inr (y, there) ↦ rw there (rw (get_elem?-none rows ii h, set_row) refl)
  ]

  set-IsFilled :
      (ii size : ℕ) (rows : List MapEntry)
      → ii < size
      → IsFilled set_entry e ii size rows
      → IsFilled set_entry e (ii + 1) size (set rows ii (set_entry (e ii) blank))
  set-IsFilled ii size rows lt f = record {
    count = length-set rows ii _ ∙ f.count;
    configured = λ j le. elim (Bool-cases (j == ii)) [
      | inl same ↦ rw ((==_iff j ii).0 same) (get_elem?-set rows ii _ (omega (arith, f.count)))
      | inr other ↦
          get_elem?-set_other rows ii j _ (omega (arith, ==→ne j ii other))
          ∙ f.configured j (omega (arith, ==→ne j ii other))
    ];
    rest = λ j le lt'. get_elem?-set_other rows ii j _ (omega arith) ∙ f.rest j (omega arith) lt';
  }

  -- The loop from `ii` on, over rows that are blank from there.
  set_rows-IsFilled :
      (n ii size : ℕ) (rows : List MapEntry)
      → ((i : ℕ) → i < ii + n → entry i ≡ some (e i))
      → ii + n ≤ size
      → IsFilled set_entry e ii size rows
      → (rows' : List MapEntry) × (set_rows set_entry entry n ii rows ≡ ok rows')
        × IsFilled set_entry e (ii + n) size rows'
  unfolding set_rows
  set_rows-IsFilled zero ii size rows h fits i =
      let same : ii + 0 ≡ ii = omega arith in (rows, refl, rw same i)
  set_rows-IsFilled (suc n) ii size rows h fits i =
      let run =
        set_row-blank ii rows (h ii (omega arith)) (i.rest ii (omega arith) (omega arith)) in
      let same : ii + suc n ≡ ii + 1 + n = omega arith in
      let (done, loop, filled) =
        set_rows-IsFilled n (ii + 1) size (set rows ii (set_entry (e ii) blank))
          (λ j lt. h j (omega arith)) (omega arith) (set-IsFilled ii size rows (omega arith) i) in
      (done, rw run loop, rw same filled)

  replicate-IsFilled : (size : ℕ) → IsFilled set_entry e 0 size (replicate size blank)
  replicate-IsFilled size = record {
    count = length-replicate size blank;
    configured = λ i lt. absurd (omega arith);
    rest = λ i le lt. get_elem?-replicate size i blank lt;
  }

  init_map-IsFilled :
      (n size : ℕ)
      → 0 < n
      → n ≤ size
      → ((i : ℕ) → i < n → entry i ≡ some (e i))
      → (rows : List MapEntry) × (init_map size
            (λ rows. set_rows set_entry entry n 0 rows)
            (entry 0)
          ≡ ok (some rows))
        × IsFilled set_entry e n size rows
  unfolding init_map
  init_map-IsFilled n size some_entry fits h =
      let (rows, run, filled) =
        set_rows-IsFilled n 0 size (replicate size blank) (λ i lt. h i (omega arith)) (omega arith)
          (replicate-IsFilled size) in
      (rows, rw (h 0 some_entry) (rw run refl), rw zero-add at filled)

  -- Behind the last row.
  set_rows-fault :
      (n ii size : ℕ) (rows : List MapEntry)
      → ((i : ℕ) → i < ii + n → entry i ≡ some (e i))
      → ii ≤ size
      → size < ii + n
      → IsFilled set_entry e ii size rows
      → set_rows set_entry entry n ii rows ≡ fault
  unfolding set_rows
  set_rows-fault zero ii size rows h le lt i = absurd (omega arith)
  set_rows-fault (suc n) ii size rows h le lt i = elim (Bool-cases (ii == size)) [
    | inl last ↦ rw (set_row-outside ii rows (omega (arith, i.count, (==_iff ii size).0 last))) refl
    | inr more ↦
        rw
          (set_row-blank ii rows (h ii (omega arith))
            (i.rest ii (omega arith) (omega (arith, ==→ne ii size more))))
          (set_rows-fault n (ii + 1) size (set rows ii (set_entry (e ii) blank))
            (λ j lt'. h j (omega arith)) (omega (arith, ==→ne ii size more)) (omega arith)
            (set-IsFilled ii size rows (omega (arith, ==→ne ii size more)) i))
  ]

to_unsigned_small : (n : ℕ) → n < 2 ^ 32 → to_unsigned (pos n) ≡ n
to_unsigned_small n h = omega arith

module _ (print : ℤ → Bytes) (entry : ℕ → Option YamlMapEntry) (e : ℕ → YamlMapEntry) (n : ℕ) where
  -- If config-yaml has between one and eight entries, all of them there, the COS map gets eight rows:
  -- those of the entries in order, each with its values and their copies as hardware defaults, and
  -- blank ones behind.
  pub init_cos_map-IsFilled :
      0 < n
      → n ≤ 8
      → ((i : ℕ) → i < n → entry i ≡ some (e i))
      → (rows : List MapEntry) × (init_cos_map print entry (pos n) ≡ ok (some rows))
        × IsFilled (set_cos_map_entry print) e n 8 rows
  unfolding init_cos_map init_default_cos_map
  init_cos_map-IsFilled some_entry fits h =
      let same = to_unsigned_small n (omega arith) in
      let (rows, run, filled) =
        init_map-IsFilled (set_cos_map_entry print) entry e (to_unsigned (pos n)) 8
          (omega (arith, same)) (omega (arith, same)) (λ i lt. h i (omega (arith, same))) in
      (rows, run, rw same at filled)

  -- If config-yaml has between one and 64 entries, all of them there, the DSCP map gets 64 rows: those
  -- of the entries in order, each with its values and their copies as hardware defaults, and blank
  -- ones behind.
  pub init_dscp_map-IsFilled :
      0 < n
      → n ≤ 64
      → ((i : ℕ) → i < n → entry i ≡ some (e i))
      → (rows : List MapEntry) × (init_dscp_map print entry (pos n) ≡ ok (some rows))
        × IsFilled (set_dscp_map_entry print) e n 64 rows
  unfolding init_dscp_map init_default_dscp_map
  init_dscp_map-IsFilled some_entry fits h =
      let same = to_unsigned_small n (omega arith) in
      let (rows, run, filled) =
        init_map-IsFilled (set_dscp_map_entry print) entry e (to_unsigned (pos n)) 64
          (omega (arith, same)) (omega (arith, same)) (λ i lt. h i (omega (arith, same))) in
      (rows, run, rw same at filled)

  -- If config-yaml has more than eight entries for the COS map, all of them there, the loop runs past
  -- the end of its array of rows.
  pub init_cos_map-overrun :
      8 < n
      → n < 2 ^ 32
      → ((i : ℕ) → i < n → entry i ≡ some (e i))
      → init_cos_map print entry (pos n) ≡ fault
  unfolding init_cos_map init_default_cos_map init_map
  init_cos_map-overrun over small h =
      let same = to_unsigned_small n small in
      let run =
        set_rows-fault (set_cos_map_entry print) entry e (to_unsigned (pos n)) 0 8
          (replicate 8 blank) (λ i lt. h i (omega (arith, same))) (omega arith)
          (omega (arith, same)) (replicate-IsFilled (set_cos_map_entry print) entry e 8) in
      rw (h 0 (omega arith)) (rw run refl)
