-- ===== src/Fru/Overflow.antt =====
-- The two arrays inside the record are written with the length that the image gives.
use ops_sysd.Base.{
  ℕ, zero, suc, ◌+◌, ◌≤◌, ◌<◌, ◌≡◌, ◌∙◌, List, ◌∷◌, ◌++◌, arith, lt→ltb, length, drop, drop-append,
}
use ops_sysd.Base.Text.{Bytes}
use ops_sysd.Base.Outcome.{fault}
use ops_sysd.Fru.Layout.{
  decode-code_of, TlvType, manufacture_date, country_code, code_of, FruEeprom, IsWellFormed,
  fru_header_size,
}
use ops_sysd.Fru.Image.{Field, image, IsImage, take_all}
use ops_sysd.Fru.Fields.{take_all-IsWellFormed}
use ops_sysd.Fru.RoundTrip.{process_from-image}
use ops_sysd.Fru.Eeprom.{
  byte_at, process_code, Crc32, copy_to_array, process_tlv, process_from, process_eeprom,
}

-- A field whose array is smaller than the value that the image claims.
abbrev pub IsOverlong : TlvType → ℕ → Type 0
IsOverlong manufacture_date n = 20 ≤ n
IsOverlong country_code n = 3 ≤ n
IsOverlong _ n = ⊥

copy_to_array-fault :
    (array : Bytes) (n : ℕ) (value : Bytes) → length array ≤ n → copy_to_array array n value ≡ fault
unfolding copy_to_array
copy_to_array-fault array n value h = rw (lt→ltb (length array) (n + 1) (omega arith))

process_tlv-overlong :
    (crc32 : Crc32) (t : TlvType) (bp : Bytes) (len n : ℕ) (value : Bytes) (f : FruEeprom)
    → IsOverlong t n
    → IsWellFormed f
    → process_tlv crc32 t bp len n value f ≡ fault
unfolding process_tlv
process_tlv-overlong crc32 manufacture_date bp len n value f h w =
    rw (copy_to_array-fault f.manufacture_date n value (omega (arith, w.manufacture_date_size)))
process_tlv-overlong crc32 country_code bp len n value f h w =
    rw (copy_to_array-fault f.country_code n value (omega (arith, w.country_code_size)))
process_tlv-overlong crc32 _ bp len n value f h w = absurd h

round-overlong :
    (crc32 : Crc32) (fuel : ℕ) (bp : Bytes) (len idx : ℕ) (t : TlvType) (n : ℕ) (rest : Bytes)
    (f : FruEeprom)
    → IsOverlong t n
    → IsWellFormed f
    → idx < len
    → len < fuel + idx
    → process_from crc32 fuel bp len idx (code_of t ∷ n ∷ rest) f ≡ fault
unfolding process_from process_code byte_at
round-overlong crc32 zero bp len idx t n rest f o w h k = absurd (omega arith)
round-overlong crc32 (suc fuel) bp len idx t n rest f o w h k =
    rw (lt→ltb idx len h)
      (rw (decode-code_of t) (rw (process_tlv-overlong crc32 t bp len n rest f o w)))

-- Behind any valid fields, a manufacture date of 20 bytes or more, or a country code of 3 or more,
-- is a write past the end of the array in the record: undefined behaviour, not an error return.
pub process_eeprom-overlong :
    (crc32 : Crc32) (header : Bytes) (ts : List Field) (t : TlvType) (n len : ℕ) (rest : Bytes)
    (f : FruEeprom)
    → length header ≡ fru_header_size
    → IsImage ts
    → IsWellFormed f
    → IsOverlong t n
    → length (image ts) < len
    → process_eeprom crc32 (header ++ (image ts ++ (code_of t ∷ n ∷ rest))) f len ≡ fault
unfolding process_eeprom
process_eeprom-overlong crc32 header ts t n len rest f h v w o inside =
    let bp = header ++ (image ts ++ (code_of t ∷ n ∷ rest)) in
    let at : drop fru_header_size bp ≡ image ts ++ (code_of t ∷ n ∷ rest) =
      rw (← h) (drop-append header _) in
    let (k, walked, p, q) =
      process_from-image crc32 bp len (code_of t) (n ∷ rest) ts (suc len) 0 f v w (omega arith)
        (omega arith) (omega arith) in
    rw at (
      walked
      ∙ round-overlong crc32 k bp len (0 + length (image ts)) t n rest (take_all ts f) o
          (take_all-IsWellFormed ts f v w) (omega arith) q)
