-- ===== src/Subsystem/Macs.antt =====
-- The MAC addresses of the base subsystem.
use Prim.Native.Nat.{min}
use mathlib.Core.Path.{subst}
use ops_sysd.Base.{
  some_inj, ℕ, ◌+◌, ◌-◌, ◌^◌, ◌<◌, ◌≡◌, Bool, true, false, some, refl, ap, ◌∙◌, if◌then◌else◌, ltb,
  arith,
}
use ops_sysd.Base.Text.{Bytes}
use ops_sysd.Base.Outcome.{ok, >>=-eq-ok, Rc, rc_zero, rc_minus_one}
use ops_sysd.Fru.Layout.{FruEeprom, cleared}
use ops_sysd.Fru.Eeprom.{Crc32}
use ops_sysd.Fru.Read.{FruEnv, read_fru_eeprom}
use ops_sysd.Subsystem.{Subsystem, store_base, after_fru, get_subsystem_info}

-- How the block of `count` addresses from `base` is split up.
pub record IsSplit (base count : ℕ) (s : Subsystem) : Type 0 where
  pub mgmt_first : s.mgmt_mac_addr ≡ (if ltb 0 count then base else 0)
  pub system_second : s.system_mac_addr ≡ (if ltb 1 count then base + 1 else 0)
  pub next_after : s.nxt_mac_addr ≡ base + min count 2
  pub rest_free : s.num_free_macs ≡ count - 2
  pub covers : s.nxt_mac_addr + s.num_free_macs ≡ base + count

store_base-IsSplit :
    (mac_value : Bytes → ℕ) (fru : FruEeprom)
    → mac_value fru.base_mac_address < 2 ^ 48
    → IsSplit (mac_value fru.base_mac_address) fru.num_macs (store_base mac_value fru)
unfolding store_base
store_base-IsSplit mac_value fru h = ground arith

fru-store_base :
    (mac_value : Bytes → ℕ) (fru : FruEeprom) → (store_base mac_value fru).fru_eeprom ≡ fru
unfolding store_base
fru-store_base mac_value fru = ground arith

after_fru-IsSplit :
    (mac_value : Bytes → ℕ) (read : Rc × FruEeprom) (s : Subsystem)
    → after_fru mac_value read ≡ some s
    → mac_value s.fru_eeprom.base_mac_address < 2 ^ 48
    → (read ≡ (rc_zero, s.fru_eeprom))
      × IsSplit (mac_value s.fru_eeprom.base_mac_address) s.fru_eeprom.num_macs s
unfolding after_fru store_base
after_fru-IsSplit mac_value (rc_minus_one, fru) s h = cc
after_fru-IsSplit mac_value (rc_zero, fru) s h =
    subst
      (λ (t : Subsystem).
        mac_value t.fru_eeprom.base_mac_address < 2 ^ 48
        → (◌≡◌ {A = Rc × FruEeprom} (rc_zero, fru) (rc_zero, t.fru_eeprom))
          × IsSplit (mac_value t.fru_eeprom.base_mac_address) t.fru_eeprom.num_macs t)
      (some_inj h)
      (rw (fru-store_base mac_value fru) (λ b. (refl, store_base-IsSplit mac_value fru b)))

module _ (crc32 : Crc32) (env : FruEnv) (mac_value : Bytes → ℕ) where
  -- Whenever the base subsystem is made, its FRU data is what was read with status 0, and the block
  -- of addresses there is split up in order: the first address goes to the management interface,
  -- the second to the system, each 0 if the block does not reach so far; the free ones follow and
  -- end where the block ends. A 48-bit base address does not wrap the 64-bit counter.
  pub get_subsystem_info-IsSplit :
      (list_ok block_ok : Bool) (s : Subsystem)
      → get_subsystem_info crc32 env mac_value list_ok block_ok ≡ ok (some s)
      → mac_value s.fru_eeprom.base_mac_address < 2 ^ 48
      → (read_fru_eeprom crc32 env cleared ≡ ok (rc_zero, s.fru_eeprom))
        × IsSplit (mac_value s.fru_eeprom.base_mac_address) s.fru_eeprom.num_macs s
  unfolding get_subsystem_info
  get_subsystem_info-IsSplit false block_ok s h b = cc
  get_subsystem_info-IsSplit true false s h b = cc
  get_subsystem_info-IsSplit true true s h b =
      let (read, r, e) = >>=-eq-ok (read_fru_eeprom crc32 env cleared) _ h in
      let (same, split) = after_fru-IsSplit mac_value read s (ground arith) b in
      (r ∙ ap ok same, split)
