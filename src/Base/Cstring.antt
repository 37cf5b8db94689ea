-- ===== src/Base/Cstring.antt =====
-- Copies into arrays of a given size, which need room for the NUL behind the text.
use Prim.Native.Nat.{ℕ, ◌+◌, ◌<◌}
use mathlib.Core.Path.{◌≡◌, refl}
use mathlib.Core.List.{[], ◌++◌}
use native.Mathlib.Omega.{arith}
use ops_sysd.Base.Tests.{ltb, if◌then◌else◌, lt→ltb}
use ops_sysd.Base.Lists.{length}
use ops_sysd.Base.Text.{Bytes}
use ops_sysd.Base.Outcome.{Outcome, ok, fault}

-- strcat into an array of `size` bytes
abbrev pub strcat : ℕ → Bytes → Bytes → Outcome Bytes
strcat size dst src = if ltb (length dst + length src) size then ok (dst ++ src) else fault

-- strcpy into an array of `size` bytes
abbrev pub strcpy : ℕ → Bytes → Outcome Bytes
strcpy size src = strcat size [] src

pub strcat-fits :
    (size : ℕ) (dst src : Bytes)
    → length dst + length src < size
    → strcat size dst src ≡ ok (dst ++ src)
strcat-fits size dst src h = rw (lt→ltb _ _ h) refl

pub strcpy-fits : (size : ℕ) (src : Bytes) → length src < size → strcpy size src ≡ ok src
strcpy-fits size src h = rw (lt→ltb (0 + length src) size (omega (arith, h))) refl
