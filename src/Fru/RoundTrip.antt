-- ===== src/Fru/RoundTrip.antt =====
-- `sysd_process_eeprom` on the images that `Image` makes.
use mathlib.Core.List.{append_assoc}
use ops_sysd.Base.{
  ℕ, zero, suc, ◌+◌, ◌-◌, ◌≤◌, ◌<◌, ◌≡◌, refl, ◌∙◌, true, inl, inr, Bool-cases, List, [], ◌∷◌, ◌++◌,
  none, some, arith, lt→ltb, le→ltb, le→leb, ◌==◌, length, drop, length-append, drop-append,
  take-append,
}
use ops_sysd.Base.Text.{Bytes}
use ops_sysd.Base.Outcome.{ok, ◌>>=◌}
use ops_sysd.Fru.Layout.{
  TlvType, crc, code_of, decode-code_of, FruEeprom, IsWellFormed, fru_header_size, big_endian_32,
}
use ops_sysd.Fru.Eeprom.{
  Crc32, byte_at, check_crc, process_tlv, process_code, next_tlv, process_from, process_eeprom,
}
use ops_sysd.Fru.Image.{Field, image, IsValue, IsImage, take_over, take_all}
use ops_sysd.Fru.Fields.{process_tlv-value, take_over-IsWellFormed}

image-cons :
    (ts : List Field) (x : ℕ) (rest : Bytes)
    → (y : ℕ) × (ys : Bytes) × (image ts ++ (x ∷ rest) ≡ y ∷ ys)
image-cons [] x rest = (x, rest, refl)
image-cons (t ∷ ts) x rest = (_, _, refl)

module _ (crc32 : Crc32) (bp : Bytes) (len : ℕ) where
  -- One round on a TLV with a type and a value as given.
  round :
      (fuel idx : ℕ) (t : TlvType) (v : Bytes) (y : ℕ) (ys : Bytes) (f : FruEeprom)
      → idx < len
      → process_from crc32 (suc fuel) bp len idx (code_of t ∷ length v ∷ (v ++ (y ∷ ys))) f ≡ (
          process_tlv crc32 t bp len (length v) (v ++ (y ∷ ys)) f
          >>= next_tlv (process_from crc32 fuel bp len (idx + (length v + 2)) (y ∷ ys)) f)
  unfolding process_from process_code byte_at
  round fuel idx t v y ys f h =
      let skip : length v + 2 ≡ suc (suc (length v)) = omega arith in
      rw (lt→ltb idx len h) (rw (decode-code_of t) (rw (skip, drop-append v (y ∷ ys)) refl))

  module _ (x : ℕ) (rest : Bytes) where
    round-image :
        (ts : List Field) (fuel idx : ℕ) (t : Field) (f : FruEeprom)
        → IsValue t.type t.value
        → IsWellFormed f
        → idx < len
        → process_from crc32
            (suc fuel)
            bp
            len
            idx
            (code_of t.type ∷ length t.value ∷ (t.value ++ (image ts ++ (x ∷ rest))))
            f
          ≡ process_from crc32 fuel bp len
              (idx + (length t.value + 2))
              (image ts ++ (x ∷ rest))
              (take_over t.type t.value f)
    unfolding next_tlv
    round-image ts fuel idx t f v w h =
        let (y, ys, e) = image-cons ts x rest in
        rw e (
          round fuel idx t.type t.value y ys f h
          ∙ rw (process_tlv-value crc32 bp len y ys t.type t.value f v w))

    pub process_from-image :
        (ts : List Field) (fuel idx : ℕ) (f : FruEeprom)
        → IsImage ts
        → IsWellFormed f
        → idx + length (image ts) < len
        → 0 < fuel
        → len < fuel + idx
        → (k : ℕ) × (process_from crc32 fuel bp len idx (image ts ++ (x ∷ rest)) f
            ≡ process_from crc32 k bp len (idx + length (image ts)) (x ∷ rest) (take_all ts f))
          × (0 < k)
          × (len < k + (idx + length (image ts)))
    process_from-image [] fuel idx f v w n p h =
        let e : idx + 0 ≡ idx = omega arith in (fuel, rw e, p, omega arith)
    process_from-image (t ∷ ts) zero idx f v w n p h = absurd (omega arith)
    process_from-image (t ∷ ts) (suc fuel) idx f v w n p h =
        let next : ℕ = idx + (length t.value + 2) in
        let size : length (t.value ++ image ts) ≡ length t.value + length (image ts) =
          length-append t.value (image ts) in
        let end : next + length (image ts) ≡ idx + suc (suc (length (t.value ++ image ts))) =
          omega (arith, size) in
        let (k, walked, q, r) =
          process_from-image ts fuel next (take_over t.type t.value f) v.1
            (take_over-IsWellFormed t.type t.value f v.0 w) (omega (arith, size))
            (omega (arith, size)) (omega (arith, size)) in
        (
          k,
          rw append_assoc
              (round-image ts fuel idx t f v.0 w (omega (arith, size)) ∙ rw (← end) walked),
          q,
          rw (← end) r,
        )

-- The TLV of the checksum, and the bytes in front of the checksum, which it covers.
abbrev pub crc_tlv : ℕ → ℕ → ℕ → ℕ → Bytes
crc_tlv c0 c1 c2 c3 = code_of crc ∷ 4 ∷ c0 ∷ c1 ∷ c2 ∷ c3 ∷ []

abbrev pub covered : Bytes → List Field → Bytes
covered header ts = header ++ (image ts ++ code_of crc ∷ 4 ∷ [])

module _ (crc32 : Crc32) where
  check_crc-covered :
      (before : Bytes) (len c0 c1 c2 c3 : ℕ) (rest ys : Bytes)
      → len + fru_header_size ≡ length before + 4
      → check_crc crc32 (before ++ rest) len 4 (c0 ∷ c1 ∷ c2 ∷ c3 ∷ ys)
        ≡ ok (crc32 (crc32 0 none) (some before) == big_endian_32 c0 c1 c2 c3)
  unfolding check_crc byte_at
  check_crc-covered before len c0 c1 c2 c3 rest ys e =
      let size : len + fru_header_size - 4 ≡ length before = omega arith in
      rw (le→ltb (len + fru_header_size) 4 (omega arith)) (
        rw size (
          rw
            (le→leb (length before) (length (before ++ rest))
              (omega (arith, length-append before rest)))
            (rw (take-append before rest))))

  stop :
      (fuel : ℕ) (bp : Bytes) (len idx : ℕ) (rest : Bytes) (f : FruEeprom)
      → 0 < fuel
      → len ≤ idx
      → process_from crc32 fuel bp len idx rest f ≡ ok (true, f)
  unfolding process_from
  stop zero bp len idx rest f p h = absurd (omega arith)
  stop (suc fuel) bp len idx rest f p h = rw (le→ltb idx len h)

  last_round :
      (fuel : ℕ) (before : Bytes) (len idx c0 c1 c2 c3 y : ℕ) (ys : Bytes) (f : FruEeprom)
      → len + fru_header_size ≡ length before + 4
      → idx + 6 ≡ len
      → len < fuel + idx
      → process_from crc32 fuel
          (before ++ (c0 ∷ c1 ∷ c2 ∷ c3 ∷ y ∷ ys))
          len
          idx
          (crc_tlv c0 c1 c2 c3 ++ (y ∷ ys))
          f
        ≡ ok (crc32 (crc32 0 none) (some before) == big_endian_32 c0 c1 c2 c3, f)
  unfolding process_tlv next_tlv
  last_round zero before len idx c0 c1 c2 c3 y ys f e n h = absurd (omega arith)
  last_round (suc fuel) before len idx c0 c1 c2 c3 y ys f e n h =
      let bp = before ++ (c0 ∷ c1 ∷ c2 ∷ c3 ∷ y ∷ ys) in
      let same = crc32 (crc32 0 none) (some before) == big_endian_32 c0 c1 c2 c3 in
      round crc32 bp len fuel idx crc (c0 ∷ c1 ∷ c2 ∷ c3 ∷ []) y ys f (omega arith)
      ∙ rw (check_crc-covered before len c0 c1 c2 c3 (c0 ∷ c1 ∷ c2 ∷ c3 ∷ y ∷ ys) (y ∷ ys) e)
          (elim (Bool-cases same) [
            | inl good ↦ rw good (stop fuel bp len (idx + 6) (y ∷ ys) f (omega arith) (omega arith))
            | inr bad ↦ rw bad refl
          ])

  last_round_at :
      (fuel : ℕ) (bp before : Bytes) (len idx c0 c1 c2 c3 y : ℕ) (ys : Bytes) (f : FruEeprom)
      → bp ≡ before ++ (c0 ∷ c1 ∷ c2 ∷ c3 ∷ y ∷ ys)
      → len + fru_header_size ≡ length before + 4
      → idx + 6 ≡ len
      → len < fuel + idx
      → process_from crc32 fuel bp len idx (crc_tlv c0 c1 c2 c3 ++ (y ∷ ys)) f
        ≡ ok (crc32 (crc32 0 none) (some before) == big_endian_32 c0 c1 c2 c3, f)
  last_round_at fuel bp before len idx c0 c1 c2 c3 y ys f split e n h =
      rw split (last_round fuel before len idx c0 c1 c2 c3 y ys f e n h)

  -- An image of valid fields behind an 11-byte header and in front of a checksum, in a block with
  -- at least one byte more: no access leaves an object, the record takes over every field in
  -- order, and the result is true exactly when the stored checksum is that of all that precedes it.
  pub process_eeprom-image :
      (header : Bytes) (ts : List Field) (c0 c1 c2 c3 y : ℕ) (ys : Bytes) (f : FruEeprom)
      → length header ≡ fru_header_size
      → IsImage ts
      → IsWellFormed f
      → process_eeprom crc32
          (header ++ ((image ts ++ crc_tlv c0 c1 c2 c3) ++ (y ∷ ys)))
          f
          (length (image ts ++ crc_tlv c0 c1 c2 c3))
        ≡ ok (
          crc32 (crc32 0 none) (some (covered header ts)) == big_endian_32 c0 c1 c2 c3,
          take_all ts f,
        )
  unfolding process_eeprom
  process_eeprom-image header ts c0 c1 c2 c3 y ys f h v w =
      let tlv = crc_tlv c0 c1 c2 c3 in
      let bp = header ++ ((image ts ++ tlv) ++ (y ∷ ys)) in
      let len = length (image ts ++ tlv) in
      let size : len ≡ length (image ts) + 6 = length-append (image ts) tlv in
      let at : drop fru_header_size bp ≡ image ts ++ (tlv ++ (y ∷ ys)) =
        rw (← h) (drop-append header _ ∙ append_assoc (image ts) tlv (y ∷ ys)) in
      let split : bp ≡ covered header ts ++ (c0 ∷ c1 ∷ c2 ∷ c3 ∷ y ∷ ys) = simp append_assoc in
      let covered_size : length (covered header ts) ≡ 11 + (length (image ts) + 2) =
        omega (arith, h, length-append header _, length-append (image ts) (code_of crc ∷ 4 ∷ [])) in
      let (k, walked, p, q) =
        process_from-image crc32 bp len (code_of crc) (4 ∷ c0 ∷ c1 ∷ c2 ∷ c3 ∷ y ∷ ys) ts (suc len)
          0 f v w (omega (arith, size)) (omega arith) (omega arith) in
      rw at (
        walked
        ∙ last_round_at k bp (covered header ts) len (0 + length (image ts)) c0 c1 c2 c3 y ys
            (take_all ts f) split (omega (arith, size, covered_size)) (omega (arith, size)) q)
