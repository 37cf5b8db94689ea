-- ===== src/Base/Printf.antt =====
-- The conversions of printf that the source uses: %-Ns and %d.
use Prim.Native.Nat.{ℕ, zero, suc, ◌-◌, ◌/◌}
use mathlib.Core.List.{◌∷◌, ◌++◌}
use ops_sysd.Base.Int.{ℤ, pos, negsuc}
use ops_sysd.Base.Lists.{length, replicate}
use ops_sysd.Base.Text.{Bytes}
use ops_sysd.Base.Decimal.{decimal}

-- %-Ns: a text shorter than the width is filled up with spaces, a longer one is printed whole.
abbrev pub pad_right : ℕ → Bytes → Bytes
pad_right width text = text ++ replicate (width - length text) 32

-- %d, also PRIi64
abbrev pub print_int : ℤ → Bytes
print_int (pos n) = decimal n
print_int (negsuc n) = 45 ∷ decimal (suc n)

-- -n
abbrev pub negate : ℕ → ℤ
negate zero = pos 0
negate (suc n) = negsuc n

-- x / d for a positive d: C cuts towards 0.
abbrev pub quotient : ℤ → ℕ → ℤ
quotient (pos n) d = pos (n / d)
quotient (negsuc n) d = negate (suc n / d)
