-- ===== src/Runtime/Decode.antt =====
-- The operands that `emulateBranch` reads from an encoded branch, where capabilities have 32 bytes.
use cheritest.Common.{
  ok, fault, ℕ, ◌+◌, ◌*◌, ◌%◌, ◌^◌, ◌<◌, ◌≡◌, refl, ap, ◌∙◌, ltb, if◌then◌else◌, ◌==◌, lt→ltb,
  arith, some, Bool, true, false,
}
use cheritest.Runtime.{
  Context, Code, Operands, BranchOp, branch_ops, label, switch, cf_pcc, get_imm, get_reg, get_s_imm,
  get_adjusted_pc, operands, emulate_branch, emulate_op,
}
use cheritest.Runtime.Fields.{get_imm_field, sign_extend_value, twos_complement}
use cheritest.Runtime.Branch.{word, gpr, target}

module _ (op a b imm : ℕ) (o : op < 64) (p : a < 32) (q : b < 32) (r : imm < 65536) where
  pub opcode_word : get_imm 32 (word op a b imm) 31 6 ≡ ok op
  opcode_word =
      get_imm_field 32 (word op a b imm) 31 6 (omega arith) (omega arith) (omega arith)
        (omega arith) (omega arith) (omega arith)
      ∙ ap ok (omega arith)

  pub first_word : get_imm 32 (word op a b imm) 25 5 ≡ ok a
  first_word =
      get_imm_field 32 (word op a b imm) 25 5 (omega arith) (omega arith) (omega arith)
        (omega arith) (omega arith) (omega arith)
      ∙ ap ok (omega arith)

  pub second_word : get_imm 32 (word op a b imm) 20 5 ≡ ok b
  second_word =
      get_imm_field 32 (word op a b imm) 20 5 (omega arith) (omega arith) (omega arith)
        (omega arith) (omega arith) (omega arith)
      ∙ ap ok (omega arith)

  pub offset_word : get_imm 32 (word op a b imm) 15 16 ≡ ok imm
  offset_word =
      get_imm_field 32 (word op a b imm) 15 16 (omega arith) (omega arith) (omega arith)
        (omega arith) (omega arith) (omega arith)
      ∙ ap ok (omega arith)

read_gpr :
    (c : Context) (a : ℕ)
    → a < 32
    → (if a == 0 then ok 0 else (if ltb a 32 then ok (c.mc_regs a) else fault)) ≡ ok (gpr c a)
read_gpr c a h = rw (lt→ltb a 32 h) (push (a == 0))
  where
    push : (z : Bool) → (if z then ok 0 else ok (c.mc_regs a)) ≡ ok (if z then 0 else c.mc_regs a)
    push true = refl
    push false = refl

branch_target :
    (pc imm : ℕ)
    → imm < 65536
    → (pc + twos_complement (imm % 2 ^ 16) 16 * 4 % 2 ^ 64 + 4) % 2 ^ 64 ≡ target pc imm
branch_target pc imm h = ground arith

-- What the handler may rely on: the program counter's capability covers the branch.
abbrev pub PcInside : Context → (pc : ℕ) → Type 0
PcInside c pc = let pcc = cf_pcc c.frame in (0 < pc) × (pcc.base + pc < 2 ^ 64) × (pc < pcc.length)

abbrev pub branch_address : Context → (pc : ℕ) → ℕ
branch_address c pc = ((cf_pcc c.frame).address + pc) % 2 ^ 64

get_adjusted_pc_lem :
    (c : Context) (pc : ℕ) → PcInside c pc → get_adjusted_pc c pc ≡ ok (branch_address c pc)
unfolding get_adjusted_pc
get_adjusted_pc_lem c pc h =
    rw
      (
        lt→ltb (cf_pcc c.frame).base (((cf_pcc c.frame).base + pc) % 2 ^ 64)
            (omega (arith, h.0, h.1)),
        lt→ltb pc (cf_pcc c.frame).length h.2,
      )
      refl

-- The operands of a word.
abbrev pub word_operands : (op a b imm : ℕ) → Context → (pc : ℕ) → Operands
word_operands op a b imm c pc = record {
  instr = word op a b imm;
  branch_pc = target pc imm;
  normal_pc = (pc + 8) % 2 ^ 64;
  reg_val = gpr c a;
  reg_val2 = gpr c b;
}

module _ (op a b imm : ℕ) (o : op < 64) (p : a < 32) (q : b < 32) (r : imm < 65536) where
  first_reg : (c : Context) → get_reg 32 c (word op a b imm) 25 ≡ ok (gpr c a)
  unfolding get_reg
  first_reg c = rw (first_word op a b imm o p q r) (read_gpr c a p)

  second_reg : (c : Context) → get_reg 32 c (word op a b imm) 20 ≡ ok (gpr c b)
  unfolding get_reg
  second_reg c = rw (second_word op a b imm o p q r) (read_gpr c b q)

  signed_offset : get_s_imm 32 (word op a b imm) 15 16 ≡ ok (twos_complement (imm % 2 ^ 16) 16)
  unfolding get_s_imm
  signed_offset =
      rw (offset_word op a b imm o p q r)
        (ap ok (sign_extend_value imm 16 (omega arith) (omega arith)))

  operands-word :
      (code : Code) (c : Context) (pc : ℕ)
      → PcInside c pc
      → code (branch_address c pc) ≡ word op a b imm
      → operands 32 code c pc ≡ ok (word_operands op a b imm c pc)
  unfolding operands
  operands-word code c pc h e =
      rw (get_adjusted_pc_lem c pc h, e, signed_offset, first_reg c, second_reg c)
        (ap (λ t. ok (record (word_operands op a b imm c pc) { branch_pc = t }))
          (branch_target pc imm r))

  -- A word with one of the opcodes of the outer switch is handled under its label.
  pub emulate_word :
      (code : Code) (c : Context) (pc : ℕ) (label' : BranchOp)
      → PcInside c pc
      → code (branch_address c pc) ≡ word op a b imm
      → label op branch_ops ≡ some label'
      → emulate_branch 32 code c pc ≡ emulate_op 32 label' (word_operands op a b imm c pc) c pc
  unfolding emulate_branch
  emulate_word code c pc l h e s =
      rw (operands-word code c pc h e, opcode_word op a b imm o p q r)
        (ap (λ l. switch l (λ l'. emulate_op 32 l' (word_operands op a b imm c pc) c pc)) s)
