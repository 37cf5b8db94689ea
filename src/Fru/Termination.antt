-- ===== src/Fru/Termination.antt =====
-- The loop of `sysd_process_eeprom` ends on every image: each round moves `idx` by at least two.
use ops_sysd.Base.{
  ℕ, zero, suc, ◌+◌, ◌<◌, ◌≢◌, inl, inr, Bool, true, false, [], ◌∷◌, Option, none, some, arith, ltb,
  Bool-cases, if◌then◌else◌,
}
use ops_sysd.Base.Text.{Bytes}
use ops_sysd.Base.Outcome.{Outcome, ok, fault, no_fuel, ◌>>=◌}
use ops_sysd.Fru.Layout.{
  TlvType, num_mac, base_mac_address, manufacture_date, device_version, country_code,
  vendor_extension, crc, decode, FruEeprom, fru_tlv_header_size,
}
use ops_sysd.Fru.Eeprom.{
  Crc32, strncpy, read_bytes, copy_string, copy_to_array, byte_at, calc_crc, check_crc, process_tlv,
  process_code, next_tlv, process_from, process_eeprom,
}

-- A run that has not used up its fuel.
data Ends {A : Type 0} : Outcome A → Type 0 where
  with_value : (a : A) → Ends (ok a)
  with_fault : Ends fault

Ends-ne-no_fuel : {A : Type 0} {m : Outcome A} → Ends m → m ≢ no_fuel
Ends-ne-no_fuel (with_value a) e = cc
Ends-ne-no_fuel with_fault e = cc

Ends-bind :
    {A B : Type 0} {m : Outcome A} (f : A → Outcome B)
    → Ends m
    → ((a : A) → Ends (f a))
    → Ends (m >>= f)
Ends-bind f (with_value a) h = h a
Ends-bind f with_fault h = with_fault

Ends-if : {A : Type 0} (b : Bool) {x y : Outcome A} → Ends x → Ends y → Ends (if b then x else y)
Ends-if true h k = h
Ends-if false h k = k

strncpy-Ends : (n : ℕ) (src : Bytes) → Ends (strncpy n src)
unfolding strncpy
strncpy-Ends zero src = with_value []
strncpy-Ends (suc n) [] = with_fault
strncpy-Ends (suc n) (c ∷ src) =
    Ends-if _ (with_value _) (Ends-bind _ (strncpy-Ends n src) (λ cs. with_value (c ∷ cs)))

byte_at-Ends : (cs : Bytes) (i : ℕ) → Ends (byte_at cs i)
unfolding byte_at
byte_at-Ends [] i = with_fault
byte_at-Ends (c ∷ cs) zero = with_value c
byte_at-Ends (c ∷ cs) (suc i) = byte_at-Ends cs i

read_bytes-Ends : (n : ℕ) (src : Bytes) → Ends (read_bytes n src)
unfolding read_bytes
read_bytes-Ends n src = Ends-if _ (with_value _) with_fault

copy_string-Ends : (n : ℕ) (value : Bytes) → Ends (copy_string n value)
unfolding copy_string
copy_string-Ends n value = Ends-bind _ (strncpy-Ends n value) (λ cs. with_value _)

copy_to_array-Ends : (array : Bytes) (n : ℕ) (value : Bytes) → Ends (copy_to_array array n value)
unfolding copy_to_array
copy_to_array-Ends array n value =
    Ends-if _ with_fault (Ends-bind _ (strncpy-Ends (suc n) value) (λ cs. with_value _))

next_tlv-Ends :
    (loop : FruEeprom → Outcome (Bool × FruEeprom)) (f : FruEeprom) (r : Option FruEeprom)
    → ((f' : FruEeprom) → Ends (loop f'))
    → Ends (next_tlv loop f r)
unfolding next_tlv
next_tlv-Ends loop f none h = with_value _
next_tlv-Ends loop f (some f') h = h f'

module _ (crc32 : Crc32) where
  calc_crc-Ends : (buf : Bytes) (len : ℕ) → Ends (calc_crc crc32 buf len)
  unfolding calc_crc
  calc_crc-Ends buf len = Ends-if _ (with_value _) with_fault

  check_crc-Ends : (bp : Bytes) (len n : ℕ) (value : Bytes) → Ends (check_crc crc32 bp len n value)
  unfolding check_crc
  check_crc-Ends bp len n value = Ends-if _ with_fault (
      Ends-bind _ (calc_crc-Ends bp _) λ s. Ends-bind _ (byte_at-Ends value 0) λ a.
        Ends-bind _ (byte_at-Ends value 1) λ b.
          Ends-bind _ (byte_at-Ends value 2)
            λ c. Ends-bind _ (byte_at-Ends value 3) (λ d. with_value _))

  process_tlv-Ends :
      (t : TlvType) (bp : Bytes) (len n : ℕ) (value : Bytes) (f : FruEeprom)
      → Ends (process_tlv crc32 t bp len n value f)
  unfolding process_tlv
  process_tlv-Ends crc bp len n value f =
      Ends-bind _ (check_crc-Ends bp len n value) (λ s. with_value _)
  process_tlv-Ends vendor_extension bp len n value f = with_value _
  process_tlv-Ends num_mac bp len n value f =
      Ends-bind _ (byte_at-Ends value 0) λ a. Ends-bind _ (byte_at-Ends value 1) (λ b. with_value _)
  process_tlv-Ends base_mac_address bp len n value f =
      Ends-bind _ (read_bytes-Ends _ value) (λ s. with_value _)
  process_tlv-Ends manufacture_date bp len n value f =
      Ends-bind _ (copy_to_array-Ends _ n value) (λ s. with_value _)
  process_tlv-Ends country_code bp len n value f =
      Ends-bind _ (copy_to_array-Ends _ n value) (λ s. with_value _)
  process_tlv-Ends device_version bp len n value f =
      Ends-bind _ (byte_at-Ends value 0) (λ a. with_value _)
  process_tlv-Ends _ bp len n value f = Ends-bind _ (copy_string-Ends n value) (λ s. with_value _)

  process_code-Ends :
      (t : Option TlvType) (bp : Bytes) (len n : ℕ) (value : Bytes) (f : FruEeprom)
      → Ends (process_code crc32 t bp len n value f)
  unfolding process_code
  process_code-Ends none bp len n value f = with_value none
  process_code-Ends (some t) bp len n value f = process_tlv-Ends t bp len n value f

  process_from-Ends :
      (fuel : ℕ) (bp : Bytes) (len idx : ℕ) (rest : Bytes) (f : FruEeprom)
      → 0 < fuel
      → len < fuel + idx
      → Ends (process_from crc32 fuel bp len idx rest f)
  unfolding process_from
  process_from-Ends zero bp len idx rest f p h = absurd (omega arith)
  process_from-Ends (suc fuel) bp len idx rest f p h = elim (Bool-cases (ltb idx len)) [
    | inl more ↦ rw more (
        Ends-bind _ (byte_at-Ends rest 0) λ code. Ends-bind _ (byte_at-Ends rest 1) λ n.
          Ends-bind _ (process_code-Ends (decode code) bp len n _ f) λ r. next_tlv-Ends _ f r λ f'.
            process_from-Ends fuel bp len (idx + (n + fru_tlv_header_size)) _ f' (ground arith)
              (ground arith))
    | inr done ↦ rw done (with_value _)
  ]

  -- On every image, of any bytes and any length, the loop returns or faults: the rounds that the
  -- model allows, one more than `len`, are never used up.
  pub process_eeprom_ends :
      (buf : Bytes) (f : FruEeprom) (len : ℕ) → process_eeprom crc32 buf f len ≢ no_fuel
  unfolding process_eeprom
  process_eeprom_ends buf f len =
      Ends-ne-no_fuel (process_from-Ends (suc len) buf len 0 _ f (omega arith) (omega arith))
