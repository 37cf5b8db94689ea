-- ===== src/Fru/Fields.antt =====
-- What each case of the `switch` in `sysd_process_eeprom` stores for a valid value.
use ops_sysd.Base.{
  List, ℕ, zero, suc, ◌+◌, ◌*◌, ◌<◌, ◌≡◌, refl, ap, Bool, true, ◌&&◌, [], ◌∷◌, ◌++◌, some, arith,
  le→ltb, le→leb, ◌==◌, ==_iff, length, drop, set, All, bit_or, length-append, length-drop,
  take-append,
}
use ops_sysd.Base.Text.{Bytes}
use ops_sysd.Base.Outcome.{ok}
use ops_sysd.Fru.Layout.{
  TlvType, num_mac, base_mac_address, manufacture_date, device_version, country_code,
  vendor_extension, crc, FruEeprom, IsWellFormed, big_endian_16,
}
use ops_sysd.Fru.Eeprom.{
  Crc32, strncpy, read_bytes, copy_string, copy_to_array, byte_at, process_tlv,
}
use ops_sysd.Fru.Image.{Field, IsImage, IsValue, over, take_over, take_all}

strncpy-text : (v rest : Bytes) → All (λ c. 0 < c) v → strncpy (length v) (v ++ rest) ≡ ok v
unfolding strncpy
strncpy-text [] rest h = refl
strncpy-text (c ∷ v) rest h = ground (arith, strncpy-text v rest h.1)

copy_string-text :
    (v rest : Bytes)
    → All (λ c. 0 < c) v
    → copy_string (length v) (v ++ rest) ≡ ok (some (v ++ 0 ∷ []))
unfolding copy_string
copy_string-text v rest h = rw (strncpy-text v rest h)

-- One byte more is copied than the value has; it is overwritten by the NUL.
strncpy-text_suc :
    (v : Bytes) (x : ℕ) (rest : Bytes)
    → All (λ c. 0 < c) v
    → strncpy (suc (length v)) (v ++ (x ∷ rest)) ≡ ok (v ++ x ∷ [])
unfolding strncpy
strncpy-text_suc [] x rest h = ground arith
strncpy-text_suc (c ∷ v) x rest h = ground (arith, strncpy-text_suc v x rest h.1)

set-append :
    (v : Bytes) (x y : ℕ) (rest : Bytes)
    → set ((v ++ x ∷ []) ++ rest) (length v) y ≡ v ++ (y ∷ rest)
set-append [] x y rest = refl
set-append (c ∷ v) x y rest = ap (◌∷◌ c) (set-append v x y rest)

copy_to_array-text :
    (array v : Bytes) (x : ℕ) (rest : Bytes)
    → All (λ c. 0 < c) v
    → length v < length array
    → copy_to_array array (length v) (v ++ (x ∷ rest)) ≡ ok (over array v)
unfolding copy_to_array
copy_to_array-text array v x rest h fits =
    let one : length v + 1 ≡ suc (length v) = omega arith in
    rw (le→ltb (length array) (length v + 1) (omega arith))
      (rw (strncpy-text_suc v x rest h) (rw (one, set-append v x 0) refl))

length-over : (array v : Bytes) → length v < length array → length (over array v) ≡ length array
length-over array v fits =
    omega (arith, length-append v (0 ∷ drop (length v + 1) array), length-drop (length v + 1) array)

-- (a << 8) | b is a * 256 + b on bytes.
on_bytes : (ℕ → Bool) → ℕ → Bool
on_bytes test zero = true
on_bytes test (suc b) = on_bytes test b && test b

on_bytes-at :
    (test : ℕ → Bool) {b : ℕ} (bound : ℕ) → b < bound → on_bytes test bound ≡ true → test b ≡ true
unfolding on_bytes
on_bytes-at test {b} zero small every = absurd (omega arith)
on_bytes-at test {b} (suc bound) small every = ground (arith, on_bytes-at test {b = b} bound)

big_endian_table : on_bytes (λ a. on_bytes (λ b. bit_or (a * 256) b == a * 256 + b) 256) 256 ≡ true
unfolding on_bytes
big_endian_table = refl

pub big_endian_16-sum : (a b : ℕ) → a < 256 → b < 256 → big_endian_16 a b ≡ a * 256 + b
unfolding big_endian_16
big_endian_16-sum a b ha hb =
    let row =
      on_bytes-at (λ a. on_bytes (λ b. bit_or (a * 256) b == a * 256 + b) 256) 256 ha
        big_endian_table in
    (==_iff _ _).0 (on_bytes-at (λ b. bit_or (a * 256) b == a * 256 + b) 256 hb row)

read_bytes-append : (v rest : Bytes) → read_bytes (length v) (v ++ rest) ≡ ok v
unfolding read_bytes
read_bytes-append v rest =
    rw (le→leb (length v) (length (v ++ rest)) (omega (arith, length-append v rest)))
      (rw (take-append v rest))

module _ (crc32 : Crc32) (bp : Bytes) (len x : ℕ) (rest : Bytes) where
  -- For a valid value, with at least one byte of the image behind it, the `switch` stores what
  -- the field stands for and touches no other member of the record.
  pub process_tlv-value :
      (t : TlvType) (v : Bytes) (f : FruEeprom)
      → IsValue t v
      → IsWellFormed f
      → process_tlv crc32 t bp len (length v) (v ++ (x ∷ rest)) f ≡ ok (some (take_over t v f))
  unfolding process_tlv
  process_tlv-value num_mac v f (hi, lo, e, p, q) w =
      rw e (unfold byte_at in rw (big_endian_16-sum hi lo p q) (ground arith))
  process_tlv-value base_mac_address v f h w = rw (← h, read_bytes-append v (x ∷ rest))
  process_tlv-value manufacture_date v f (h, n) w =
      rw (copy_to_array-text f.manufacture_date v x rest h (omega (arith, w.manufacture_date_size)))
  process_tlv-value device_version v f (c, e) w = rw e (unfold byte_at in refl)
  process_tlv-value country_code v f (h, n) w =
      rw (copy_to_array-text f.country_code v x rest h (omega (arith, w.country_code_size)))
  process_tlv-value vendor_extension v f h w = refl
  process_tlv-value crc v f h w = absurd h
  process_tlv-value _ v f h w = rw (copy_string-text v (x ∷ rest) h)

pub take_over-IsWellFormed :
    (t : TlvType) (v : Bytes) (f : FruEeprom)
    → IsValue t v
    → IsWellFormed f
    → IsWellFormed (take_over t v f)
take_over-IsWellFormed num_mac v f (hi, lo, e, p, q) w = rw e (omega arith)
take_over-IsWellFormed base_mac_address v f h w = ground arith
take_over-IsWellFormed manufacture_date v f (h, n) w =
    ground (arith, length-over f.manufacture_date v)
take_over-IsWellFormed country_code v f (h, n) w = ground (arith, length-over f.country_code v)
take_over-IsWellFormed crc v f h w = absurd h
take_over-IsWellFormed _ v f h w = ground arith

pub take_all-IsWellFormed :
    (ts : List Field) (f : FruEeprom) → IsImage ts → IsWellFormed f → IsWellFormed (take_all ts f)
take_all-IsWellFormed [] f v w = w
take_all-IsWellFormed (t ∷ ts) f v w =
    take_all-IsWellFormed ts _ v.1 (take_over-IsWellFormed t.type t.value f v.0 w)
