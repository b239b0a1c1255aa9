-- ===== src/Runtime/Signs.antt =====
-- The comparisons with zero that test_runtime.c makes, on the numbers that registers stand for.
use cheritest.Common.{ℕ, ◌^◌, ◌<◌, ◌≡◌, if◌then◌else◌, ◌==◌, arith, Bool, true, false, not}
use cheritest.Common.Int.{ltb_ℤ, leb_ℤ, pos}
use cheritest.Runtime.{Context, negative, not_positive}
use cheritest.Runtime.Branch.{gpr, signed}

-- The signs of a register, as the source tests them.
pub negative-signed : (v : ℕ) → v < 2 ^ 64 → negative v ≡ ltb_ℤ (signed v) (pos 0)
negative-signed v h = ground arith

pub not-negative-signed : (v : ℕ) → v < 2 ^ 64 → not (negative v) ≡ leb_ℤ (pos 0) (signed v)
not-negative-signed v h = ground arith

pub not_positive-signed : (v : ℕ) → v < 2 ^ 64 → not_positive v ≡ leb_ℤ (signed v) (pos 0)
not_positive-signed v h = ground arith

pub positive_signed : (v : ℕ) → v < 2 ^ 64 → not (not_positive v) ≡ ltb_ℤ (pos 0) (signed v)
positive_signed v h = ground arith

abbrev pub RegistersFit : Context → Type 0
RegistersFit c = (r : ℕ) → c.mc_regs r < 2 ^ 64

pub gpr_fits : (c : Context) (r : ℕ) → RegistersFit c → gpr c r < 2 ^ 64
gpr_fits c r h = by_zero (r == 0)
  where
    by_zero : (z : Bool) → (if z then 0 else c.mc_regs r) < 2 ^ 64
    by_zero true = omega arith
    by_zero false = h r
