-- ===== src/Runtime/Branch.antt =====
-- The conditional branches of the architecture, independently of test_runtime.c: how a branch is
-- encoded, when it is taken and where it goes.
use cheritest.Common.{ℕ, ◌+◌, ◌-◌, ◌*◌, ◌%◌, ◌^◌, ◌<◌, Bool, false, not, ◌==◌, ltb, if◌then◌else◌}
use cheritest.Common.Int.{ℤ, pos, negsuc, ltb_ℤ, leb_ℤ}
use cheritest.Runtime.{Context}

-- On registers; each on whether it is the likely form, and the last two on whether they link.
-- On capabilities: the branch if a tag is clear, and if it is set.
pub data Branch : Type 0 where
  beq bne : (likely : Bool) (rs rt offset : ℕ) → Branch
  blez bgtz : (likely : Bool) (rs offset : ℕ) → Branch
  bltz bgez : (link likely : Bool) (rs offset : ℕ) → Branch
  cbtu cbts : (cb offset : ℕ) → Branch

abbrev pub IsWellFormed : Branch → Type 0
IsWellFormed (beq l rs rt offset) = (rs < 32) × (rt < 32) × (offset < 65536)
IsWellFormed (bne l rs rt offset) = (rs < 32) × (rt < 32) × (offset < 65536)
IsWellFormed (blez l rs offset) = (rs < 32) × (offset < 65536)
IsWellFormed (bgtz l rs offset) = (rs < 32) × (offset < 65536)
IsWellFormed (bltz k l rs offset) = (rs < 32) × (offset < 65536)
IsWellFormed (bgez k l rs offset) = (rs < 32) × (offset < 65536)
IsWellFormed (cbtu cb offset) = (cb < 26) × (offset < 65536)
IsWellFormed (cbts cb offset) = (cb < 26) × (offset < 65536)

-- Opcode, two operands of five bits, and 16 bits.
abbrev pub word : (op a b imm : ℕ) → ℕ
word op a b imm = ((op * 32 + a) * 32 + b) * 65536 + imm

abbrev pub flag : Bool → ℕ → ℕ
flag b n = if b then n else 0

abbrev pub encode : Branch → ℕ
encode (beq l rs rt offset) = word (4 + flag l 16) rs rt offset
encode (bne l rs rt offset) = word (5 + flag l 16) rs rt offset
encode (blez l rs offset) = word (6 + flag l 16) rs 0 offset
encode (bgtz l rs offset) = word (7 + flag l 16) rs 0 offset
encode (bltz k l rs offset) = word 1 rs (0 + flag l 2 + flag k 16) offset
encode (bgez k l rs offset) = word 1 rs (1 + flag l 2 + flag k 16) offset
encode (cbtu cb offset) = word 18 9 cb offset
encode (cbts cb offset) = word 18 10 cb offset

abbrev pub offset_field : Branch → ℕ
offset_field (beq l rs rt offset) = offset
offset_field (bne l rs rt offset) = offset
offset_field (blez l rs offset) = offset
offset_field (bgtz l rs offset) = offset
offset_field (bltz k l rs offset) = offset
offset_field (bgez k l rs offset) = offset
offset_field (cbtu cb offset) = offset
offset_field (cbts cb offset) = offset

abbrev pub is_likely : Branch → Bool
is_likely (beq l rs rt offset) = l
is_likely (bne l rs rt offset) = l
is_likely (blez l rs offset) = l
is_likely (bgtz l rs offset) = l
is_likely (bltz k l rs offset) = l
is_likely (bgez k l rs offset) = l
is_likely (cbtu cb offset) = false
is_likely (cbts cb offset) = false

-- Register 0 reads as zero.
abbrev pub gpr : Context → ℕ → ℕ
gpr context r = if r == 0 then 0 else context.mc_regs r

-- The number that 64 bits stand for.
abbrev pub signed : ℕ → ℤ
signed v = if ltb v (2 ^ 63) then pos v else negsuc (2 ^ 64 - 1 - v)

abbrev pub is_taken : Branch → Context → Bool
is_taken (beq l rs rt offset) c = gpr c rs == gpr c rt
is_taken (bne l rs rt offset) c = not (gpr c rs == gpr c rt)
is_taken (blez l rs offset) c = leb_ℤ (signed (gpr c rs)) (pos 0)
is_taken (bgtz l rs offset) c = ltb_ℤ (pos 0) (signed (gpr c rs))
is_taken (bltz k l rs offset) c = ltb_ℤ (signed (gpr c rs)) (pos 0)
is_taken (bgez k l rs offset) c = leb_ℤ (pos 0) (signed (gpr c rs))
is_taken (cbtu cb offset) c = not (c.frame.slot cb).tag
is_taken (cbts cb offset) c = (c.frame.slot cb).tag

-- The offset counts instructions from the delay slot and is signed.
abbrev pub target : (pc offset : ℕ) → ℕ
target pc offset =
    if ltb offset 32768
    then (pc + 4 + 4 * offset) % 2 ^ 64
    else (pc + 4 + 2 ^ 64 - 4 * (65536 - offset)) % 2 ^ 64

-- Where execution goes on after the branch at `pc` and its delay slot.
abbrev pub successor : Branch → Context → (pc : ℕ) → ℕ
successor b c pc = if is_taken b c then target pc (offset_field b) else (pc + 8) % 2 ^ 64
