-- ===== src/Fru/EndToEnd.antt =====
-- `sysd_read_fru_eeprom` on a device that holds an image.
use mathlib.Core.List.{append_assoc}
use ops_sysd.Base.{
  ℕ, suc, ◌+◌, ◌*◌, ◌≤◌, ◌<◌, ◌≡◌, refl, sym, ap, ◌∙◌, true, false, List, [], ◌∷◌, ◌++◌, none, some,
  arith, le→ltb, ◌==◌, if◌then◌else◌, length, take, drop, length-append, drop-append, take-append,
}
use ops_sysd.Base.Text.{Bytes}
use ops_sysd.Base.Outcome.{ok, rc_zero, rc_minus_one}
use ops_sysd.Fru.Layout.{FruEeprom, IsWellFormed, fru_header_size, big_endian_32}
use ops_sysd.Fru.Eeprom.{Crc32}
use ops_sysd.Fru.Image.{Field, image, IsImage, take_all}
use ops_sysd.Fru.Fields.{big_endian_16-sum}
use ops_sysd.Fru.RoundTrip.{crc_tlv, covered, process_eeprom-image}
use ops_sysd.Fru.Read.{FruEnv, check_version, read_body, read_fru_eeprom}
use ops_sysd.Fru.ReadLaws.{after_header-version}

-- The whole image on the device: its header, the fields, the checksum, and the bytes behind it.
abbrev pub header_of : Bytes → ℕ → ℕ → ℕ → Bytes
header_of ident version hi lo = ident ++ version ∷ hi ∷ lo ∷ []

abbrev pub fields_of : List Field → ℕ → ℕ → ℕ → ℕ → Bytes
fields_of ts c0 c1 c2 c3 = image ts ++ crc_tlv c0 c1 c2 c3

take-append_suc :
    (xs : Bytes) (y : ℕ) (ys : Bytes) → take (length xs + 1) (xs ++ (y ∷ ys)) ≡ xs ++ y ∷ []
take-append_suc [] y ys = refl
take-append_suc (x ∷ xs) y ys =
    let e : suc (length xs) + 1 ≡ suc (length xs + 1) = omega arith in
    rw e (ap (◌∷◌ x) (take-append_suc xs y ys))

module _ (crc32 : Crc32) (env : FruEnv) where
  -- A device that holds `eeprom` and answers each read that stays inside it.
  abbrev pub Holds : Bytes → Type 0
  Holds eeprom = (n : ℕ) → n ≤ length eeprom → env.i2c_data_read n ≡ some (take n eeprom)

  read_body-image :
      (header : Bytes) (ts : List Field) (c0 c1 c2 c3 y : ℕ) (ys : Bytes) (f : FruEeprom)
      → length header ≡ fru_header_size
      → IsImage ts
      → IsWellFormed f
      → env.calloc_ok ≡ true
      → Holds (header ++ (fields_of ts c0 c1 c2 c3 ++ (y ∷ ys)))
      → read_body crc32 env (length (fields_of ts c0 c1 c2 c3)) f
        ≡ ok (
          if crc32 (crc32 0 none) (some (covered header ts)) == big_endian_32 c0 c1 c2 c3
              then rc_zero
              else rc_minus_one,
          take_all ts f,
        )
  unfolding read_body
  read_body-image header ts c0 c1 c2 c3 y ys f h v w c d =
      let fs = fields_of ts c0 c1 c2 c3 in
      let size : length fs + fru_header_size + 1 ≡ length (header ++ fs) + 1 =
        omega (arith, length-append header fs, h) in
      let all : header ++ (fs ++ (y ∷ ys)) ≡ (header ++ fs) ++ (y ∷ ys) =
        sym (append_assoc header fs (y ∷ ys)) in
      let got : env.i2c_data_read (length fs + fru_header_size + 1)
          ≡ some (header ++ (fs ++ y ∷ [])) =
        d (length fs + fru_header_size + 1)
          (omega (arith, size, length-append header (fs ++ (y ∷ ys)), length-append fs (y ∷ ys), h))
        ∙ rw all (rw size (rw take-append_suc (rw append_assoc))) in
      simp c
        (rw got (rw (process_eeprom-image crc32 header ts c0 c1 c2 c3 y [] f h v w) (ground arith)))

  -- With no fru.yaml, a block to read into, and a device that holds a header of a supported
  -- version and of the length that follows, valid fields, a checksum and at least one byte more:
  -- nothing faults, every field is in the record, and the result is 0 if the checksum is right
  -- and -1 if it is not.
  pub read_fru_eeprom-image :
      (ident : Bytes) (version hi lo : ℕ) (ts : List Field) (c0 c1 c2 c3 y : ℕ) (ys : Bytes)
      (f : FruEeprom)
      → env.fru_yaml ≡ false
      → env.calloc_ok ≡ true
      → length ident ≡ 8
      → version ≤ 1
      → hi < 256
      → lo < 256
      → hi * 256 + lo ≡ length (fields_of ts c0 c1 c2 c3)
      → IsImage ts
      → IsWellFormed f
      → Holds (header_of ident version hi lo ++ (fields_of ts c0 c1 c2 c3 ++ (y ∷ ys)))
      → read_fru_eeprom crc32 env f
        ≡ ok (
          if crc32 (crc32 0 none) (some (covered (header_of ident version hi lo) ts))
                == big_endian_32 c0 c1 c2 c3
              then rc_zero
              else rc_minus_one,
          take_all ts f,
        )
  unfolding read_fru_eeprom check_version
  read_fru_eeprom-image ident version hi lo ts c0 c1 c2 c3 y ys f fy ca hid hv ph pl total v w d =
      let header = header_of ident version hi lo in
      let body = fields_of ts c0 c1 c2 c3 ++ (y ∷ ys) in
      let size : length header ≡ fru_header_size =
        omega (arith, hid, length-append ident (version ∷ hi ∷ lo ∷ [])) in
      let first : env.i2c_data_read fru_header_size ≡ some header =
        d fru_header_size (omega (arith, size, length-append header body))
        ∙ ap some (rw (← size) (take-append header body)) in
      let tail : drop 8 header ≡ version ∷ hi ∷ lo ∷ [] = rw (← hid) (drop-append ident _) in
      simp fy (
        after_header-version crc32 env f header version hi lo first tail
        ∙ rw (le→ltb 1 version hv) (
            rw (big_endian_16-sum hi lo ph pl)
              (rw total (read_body-image header ts c0 c1 c2 c3 y ys f size v w ca d))))
