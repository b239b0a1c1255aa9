-- ===== src/Runtime/Emulate.antt =====
-- `emulateBranch` of test_runtime.c on each form of branch of the architecture, where capabilities
-- have 32 bytes.
use cheritest.Common.{
  Run, ok, fault, ℕ, ◌+◌, ◌%◌, ◌^◌, ◌<◌, ◌≡◌, refl, ap, ◌∙◌, if◌then◌else◌, ◌==◌, lt→ltb, arith,
  Option, some, Bool, true, false, not,
}
use cheritest.Common.Int.{ltb_ℤ, leb_ℤ, pos}
use cheritest.Runtime.{
  Context, Code, Operands, BranchOp, branch_ops, label, switch, get_cap_reg, get_cap_reg_at_index,
  emulate_branch, emulate_op, negative, branch_if, mips_branch_regimm, mips_branch_cheri,
  mips_branch_beq, mips_branch_beql, mips_branch_bne, mips_branch_bnel, mips_branch_blez,
  mips_branch_blezl, mips_branch_bgtz, mips_branch_bgtzl, regimm_branch_ops, cheri_branch_ops,
  emulate_regimm, emulate_cheri, asserting, RegimmBranchOp, mips_branch_bltz, mips_branch_bltzal,
  mips_branch_bltzl, mips_branch_bltzall, mips_branch_bgez, mips_branch_bgezl, mips_branch_bgezal,
  mips_branch_bgezall,
}
use cheritest.Runtime.Branch.{
  Branch, beq, bne, blez, bgtz, bltz, bgez, cbtu, cbts, word, encode, is_taken, gpr, signed,
  successor, target,
}
use cheritest.Runtime.Decode.{
  PcInside, branch_address, emulate_word, word_operands, first_word, second_word,
}
use cheritest.Runtime.Signs.{
  RegistersFit, gpr_fits, negative-signed, not-negative-signed, not_positive-signed,
  positive_signed,
}

-- BGEZ and BGEZL, which do not link.
abbrev pub is_plain_bgez : Branch → Bool
is_plain_bgez (bgez k l rs offset) = not k
is_plain_bgez (beq l rs rt offset) = false
is_plain_bgez (bne l rs rt offset) = false
is_plain_bgez (blez l rs offset) = false
is_plain_bgez (bgtz l rs offset) = false
is_plain_bgez (bltz k l rs offset) = false
is_plain_bgez (cbtu cb offset) = false
is_plain_bgez (cbts cb offset) = false

abbrev pub resumed : Branch → Context → (pc : ℕ) → Context
resumed b c pc = record c { mc_pc = successor b c pc }

module _ (code : Code) (c : Context) (pc : ℕ) (inside : PcInside c pc) (fit : RegistersFit c) where
  module _ (op a b imm : ℕ) (o : op < 64) (p : a < 32) (q : b < 32) (r : imm < 65536) where
    -- The branch goes on where `taken` says, if its label's code does so under an equal test.
    compared :
        (l : BranchOp) (test taken : Bool)
        → code (branch_address c pc) ≡ word op a b imm
        → label op branch_ops ≡ some l
        → emulate_op 32 l (word_operands op a b imm c pc) c pc
          ≡ branch_if test (word_operands op a b imm c pc) c
        → test ≡ taken
        → emulate_branch 32 code c pc
          ≡ ok (some (record c { mc_pc = if taken then target pc imm else (pc + 8) % 2 ^ 64 }))
    compared l test taken e s run t =
        emulate_word op a b imm o p q r code c pc l inside e s
        ∙ run
        ∙ ap (λ t. branch_if t (word_operands op a b imm c pc) c) t

  abbrev pub Emulates : Branch → Type 0
  Emulates b = emulate_branch 32 code c pc ≡ ok (some (resumed b c pc))

  -- On each form of branch; the likely forms are emulated as the others are.
  pub emulate_two :
      (l : Bool) (rs rt imm : ℕ) (p : rs < 32) (q : rt < 32) (r : imm < 65536)
      → (code (branch_address c pc) ≡ encode (beq l rs rt imm) → Emulates (beq l rs rt imm))
        × (code (branch_address c pc) ≡ encode (bne l rs rt imm) → Emulates (bne l rs rt imm))
  unfolding emulate_op
  emulate_two false rs rt imm p q r = (
    λ e. compared 4 rs rt imm (omega arith) p q r mips_branch_beq _ _ e refl refl refl,
    λ e. compared 5 rs rt imm (omega arith) p q r mips_branch_bne _ _ e refl refl refl,
  )
  emulate_two true rs rt imm p q r = (
    λ e. compared 20 rs rt imm (omega arith) p q r mips_branch_beql _ _ e refl refl refl,
    λ e. compared 21 rs rt imm (omega arith) p q r mips_branch_bnel _ _ e refl refl refl,
  )

  pub emulate_one :
      (l : Bool) (rs imm : ℕ) (p : rs < 32) (r : imm < 65536)
      → (code (branch_address c pc) ≡ encode (blez l rs imm) → Emulates (blez l rs imm))
        × (code (branch_address c pc) ≡ encode (bgtz l rs imm) → Emulates (bgtz l rs imm))
  unfolding emulate_op
  emulate_one false rs imm p r = (
    λ e.
        compared 6 rs 0 imm (omega arith) p (omega arith) r mips_branch_blez _ _ e refl refl
          (not_positive-signed (gpr c rs) (gpr_fits c rs fit)),
    λ e.
        compared 7 rs 0 imm (omega arith) p (omega arith) r mips_branch_bgtz _ _ e refl refl
          (positive_signed (gpr c rs) (gpr_fits c rs fit)),
  )
  emulate_one true rs imm p r = (
    λ e.
        compared 22 rs 0 imm (omega arith) p (omega arith) r mips_branch_blezl _ _ e refl refl
          (not_positive-signed (gpr c rs) (gpr_fits c rs fit)),
    λ e.
        compared 23 rs 0 imm (omega arith) p (omega arith) r mips_branch_bgtzl _ _ e refl refl
          (positive_signed (gpr c rs) (gpr_fits c rs fit)),
  )

  -- The inner switches read their field of the word.
  module _ (a b imm : ℕ) (p : a < 32) (q : b < 32) (r : imm < 65536) where
    regimm :
        emulate_op 32 mips_branch_regimm (word_operands 1 a b imm c pc) c pc
        ≡ switch
            (label b regimm_branch_ops)
            (λ op. emulate_regimm op (word_operands 1 a b imm c pc) c)
    unfolding emulate_op
    regimm = rw (second_word 1 a b imm (omega arith) p q r) refl

    cheri :
        emulate_op 32 mips_branch_cheri (word_operands 18 a b imm c pc) c pc
        ≡ switch
            (label a cheri_branch_ops)
            (λ op. emulate_cheri 32 op (word_operands 18 a b imm c pc) c)
    unfolding emulate_op
    cheri = rw (first_word 18 a b imm (omega arith) p q r) refl

    cap_operand : b < 26 → get_cap_reg 32 c (word 18 a b imm) 20 ≡ ok (c.frame.slot b)
    unfolding get_cap_reg get_cap_reg_at_index
    cap_operand h =
        rw (second_word 18 a b imm (omega arith) p q r, lt→ltb b 26 h, not_all_ones (b == 255) refl)
          refl
      where
        not_all_ones : (z : Bool) → (b == 255) ≡ z → (b == 255) ≡ false
        not_all_ones z e = ground arith

    against_zero :
        (op : RegimmBranchOp) (test taken : Bool)
        → code (branch_address c pc) ≡ word 1 a b imm
        → label b regimm_branch_ops ≡ some op
        → emulate_regimm op (word_operands 1 a b imm c pc) c
          ≡ branch_if test (word_operands 1 a b imm c pc) c
        → test ≡ taken
        → emulate_branch 32 code c pc
          ≡ ok (some (record c { mc_pc = if taken then target pc imm else (pc + 8) % 2 ^ 64 }))
    against_zero op test taken e s run t =
        compared 1 a b imm (omega arith) p q r mips_branch_regimm test taken e refl
          (regimm
            ∙ ap (λ l. switch l (λ op. emulate_regimm op (word_operands 1 a b imm c pc) c)) s
            ∙ run)
          t

  module _ (a b imm : ℕ) (p : a < 32) (q : b < 32) (r : imm < 65536) where
    failed :
        (op : RegimmBranchOp)
        → code (branch_address c pc) ≡ word 1 a b imm
        → label b regimm_branch_ops ≡ some op
        → emulate_regimm op (word_operands 1 a b imm c pc) c ≡ fault
        → emulate_branch 32 code c pc ≡ fault
    failed op e s run =
        emulate_word 1 a b imm (omega arith) p q r code c pc mips_branch_regimm inside e refl
        ∙ regimm a b imm p q r
        ∙ ap (λ l. switch l (λ op. emulate_regimm op (word_operands 1 a b imm c pc) c)) s
        ∙ run

  sign : (rs : ℕ) → negative (gpr c rs) ≡ ltb_ℤ (signed (gpr c rs)) (pos 0)
  sign rs = negative-signed (gpr c rs) (gpr_fits c rs fit)

  sign_not : (rs : ℕ) → not (negative (gpr c rs)) ≡ leb_ℤ (pos 0) (signed (gpr c rs))
  sign_not rs = not-negative-signed (gpr c rs) (gpr_fits c rs fit)

  -- The assertion on a likely branch.
  asserted : (n : Bool) (o : Operands) → n ≡ true → asserting n (branch_if n o c) ≡ branch_if n o c
  asserted n o h = ap (λ m. asserting m (branch_if n o c)) h

  pub emulate_bltz :
      (k l : Bool) (rs imm : ℕ) (p : rs < 32) (r : imm < 65536)
      → (l ≡ true → is_taken (bltz k l rs imm) c ≡ true)
      → code (branch_address c pc) ≡ encode (bltz k l rs imm)
      → Emulates (bltz k l rs imm)
  unfolding emulate_regimm
  emulate_bltz false false rs imm p r slot e =
      against_zero rs 0 imm p (omega arith) r mips_branch_bltz (negative (gpr c rs)) _ e refl refl
        (sign rs)
  emulate_bltz true false rs imm p r slot e =
      against_zero rs 16 imm p (omega arith) r mips_branch_bltzal (negative (gpr c rs)) _ e refl
        refl (sign rs)
  emulate_bltz false true rs imm p r slot e =
      against_zero rs 2 imm p (omega arith) r mips_branch_bltzl (negative (gpr c rs)) _ e refl
        (asserted (negative (gpr c rs)) (word_operands 1 rs 2 imm c pc) (sign rs ∙ slot refl))
        (sign rs)
  emulate_bltz true true rs imm p r slot e =
      against_zero rs 18 imm p (omega arith) r mips_branch_bltzall (negative (gpr c rs)) _ e refl
        (asserted (negative (gpr c rs)) (word_operands 1 rs 18 imm c pc) (sign rs ∙ slot refl))
        (sign rs)

  pub emulate_bgezal :
      (l : Bool) (rs imm : ℕ) (p : rs < 32) (r : imm < 65536)
      → code (branch_address c pc) ≡ encode (bgez true l rs imm)
      → Emulates (bgez true l rs imm)
  unfolding emulate_regimm
  emulate_bgezal false rs imm p r e =
      against_zero rs 17 imm p (omega arith) r mips_branch_bgezal (not (negative (gpr c rs))) _ e
        refl refl (sign_not rs)
  emulate_bgezal true rs imm p r e =
      against_zero rs 19 imm p (omega arith) r mips_branch_bgezall (not (negative (gpr c rs))) _ e
        refl refl (sign_not rs)

  refuted : (n : Bool) (k : Run (Option Context)) → not n ≡ true → asserting n k ≡ fault
  refuted true k h = grind arith
  refuted false k h = refl

  -- BGEZ and BGEZL fail the assertion of the opposite branch where they are taken.
  pub emulate_bgez_taken :
      (l : Bool) (rs imm : ℕ) (p : rs < 32) (r : imm < 65536)
      → is_taken (bgez false l rs imm) c ≡ true
      → code (branch_address c pc) ≡ encode (bgez false l rs imm)
      → emulate_branch 32 code c pc ≡ fault
  unfolding emulate_regimm
  emulate_bgez_taken false rs imm p r t e =
      failed rs 1 imm p (omega arith) r mips_branch_bgez e refl
        (refuted (negative (gpr c rs)) _ (sign_not rs ∙ t))
  emulate_bgez_taken true rs imm p r t e =
      failed rs 3 imm p (omega arith) r mips_branch_bgezl e refl
        (refuted (negative (gpr c rs)) _ (sign_not rs ∙ t))

  pub emulate_cap :
      (cb imm : ℕ) (p : cb < 26) (r : imm < 65536)
      → (code (branch_address c pc) ≡ encode (cbtu cb imm) → Emulates (cbtu cb imm))
        × (code (branch_address c pc) ≡ encode (cbts cb imm) → Emulates (cbts cb imm))
  unfolding emulate_cheri
  emulate_cap cb imm p r = (
    λ e.
        compared 18 9 cb imm (omega arith) (omega arith) (omega arith) r mips_branch_cheri
          (not (c.frame.slot cb).tag) _ e refl
          (cheri 9 cb imm (omega arith) (omega arith) r
            ∙ rw (cap_operand 9 cb imm (omega arith) (omega arith) r p) refl)
          refl,
    λ e.
        compared 18 10 cb imm (omega arith) (omega arith) (omega arith) r mips_branch_cheri
          (c.frame.slot cb).tag _ e refl
          (cheri 10 cb imm (omega arith) (omega arith) r
            ∙ rw (cap_operand 10 cb imm (omega arith) (omega arith) r p) refl)
          refl,
  )
