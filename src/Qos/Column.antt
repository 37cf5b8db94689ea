-- ===== src/Qos/Column.antt =====
-- A column of OVSDB that maps strings to strings, and OVS's smap_replace on it.
use ops_sysd.Base.{Option, none, some, if◌then◌else◌}
use ops_sysd.Base.Int.{ℤ, pos, negsuc}
use ops_sysd.Base.{ℕ, ◌-◌, ◌%◌, ◌^◌}
use ops_sysd.Base.Text.{Bytes, str_eq}

abbrev pub Smap : Type 0
Smap = Bytes → Option Bytes

abbrev pub smap_init : Smap
smap_init key = none

-- The value of a key is replaced, or the pair is added.
abbrev pub smap_replace : Smap → Bytes → Bytes → Smap
smap_replace m key value key' = if str_eq key' key then some value else m key'

-- An int compared with an unsigned int.
abbrev pub to_unsigned : ℤ → ℕ
to_unsigned (pos n) = n % 2 ^ 32
to_unsigned (negsuc n) = 2 ^ 32 - 1 - n % 2 ^ 32
