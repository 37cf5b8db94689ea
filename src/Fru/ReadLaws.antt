-- ===== src/Fru/ReadLaws.antt =====
-- `sysd_read_fru_eeprom` on every branch.

use native.Mathlib.Nat.{zero-add, suc-add}
use ops_sysd.Base.{
  ℕ, zero, suc, ◌+◌, ◌<◌, ◌≡◌, ◌⊎◌, refl, ◌∙◌, true, false, inl, inr, [], ◌∷◌, none, some, arith,
  lt→ltb, drop,
}
use ops_sysd.Base.Text.{Bytes}
use ops_sysd.Base.Outcome.{ok, Rc, rc_zero, rc_minus_one}
use ops_sysd.Fru.Layout.{FruEeprom, fru_header_size, big_endian_16}
use ops_sysd.Fru.Eeprom.{Crc32, byte_at}
use ops_sysd.Fru.Read.{
  FruEnv, get_fru_info, read_yaml, after_header, check_version, read_fru_eeprom,
}

byte_at-drop : (n k : ℕ) (cs : Bytes) → byte_at cs (n + k) ≡ byte_at (drop n cs) k
unfolding byte_at
byte_at-drop zero k cs = rw zero-add
byte_at-drop (suc n) k [] = refl
byte_at-drop (suc n) k (c ∷ cs) = rw suc-add (byte_at-drop n k cs)

at_drop : (cs : Bytes) (k : ℕ) → byte_at cs (8 + k) ≡ byte_at (drop 8 cs) k
at_drop cs k = byte_at-drop 8 k cs

module _ (crc32 : Crc32) (env : FruEnv) where
  -- With fru.yaml present the function returns 0 whatever `sysd_cfg_yaml_get_fru_info` returns:
  -- the status is kept in a bool, which is never negative.
  pub read_fru_eeprom-yaml :
      (f : FruEeprom)
      → env.fru_yaml ≡ true
      → (status : Rc) (f' : FruEeprom) → get_fru_info env f ≡ ok (status, f')
      → read_fru_eeprom crc32 env f ≡ ok (rc_zero, f')
  unfolding read_fru_eeprom read_yaml
  read_fru_eeprom-yaml f y status f' e = rw y (rw e (ground arith))

  pub after_header-version :
      (f : FruEeprom) (header : Bytes) (v hi lo : ℕ)
      → env.i2c_data_read fru_header_size ≡ some header
      → drop 8 header ≡ v ∷ hi ∷ lo ∷ []
      → after_header crc32 env f (env.i2c_data_read fru_header_size)
        ≡ check_version crc32 env v (big_endian_16 hi lo) f
  unfolding after_header byte_at
  after_header-version f header v hi lo e d =
      rw e (rw (at_drop header 0) (rw (at_drop header 1) (rw (at_drop header 2) (rw d))))

  -- The header cannot be read, or names a version above the supported one: the result is -1 and
  -- the record is as before.
  pub read_fru_eeprom-refused :
      (f : FruEeprom)
      → env.fru_yaml ≡ false
      → (env.i2c_data_read fru_header_size ≡ none)
        ⊎ ((header : Bytes) × (v : ℕ) × (hi : ℕ) × (lo : ℕ) × (env.i2c_data_read fru_header_size
              ≡ some header)
            × (drop 8 header ≡ v ∷ hi ∷ lo ∷ [])
            × (1 < v))
      → read_fru_eeprom crc32 env f ≡ ok (rc_minus_one, f)
  unfolding read_fru_eeprom
  read_fru_eeprom-refused f y (inl e) = simp y (simp e)
  read_fru_eeprom-refused f y (inr (header, v, hi, lo, e, d, h)) =
      simp y (after_header-version f header v hi lo e d ∙ rw (lt→ltb 1 v h))
