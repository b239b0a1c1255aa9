-- ===== src/Runtime/Correct.antt =====
-- The emulation of a branch and the handler of test_runtime.c as wholes, where capabilities have 32
-- bytes.
use cheritest.Common.{
  ok, fault, ◌>>=◌, ℕ, ◌/◌, ◌%◌, ◌^◌, ◌<◌, ◌≡◌, refl, ap, ◌∙◌, ltb, if◌then◌else◌, ◌==◌, lt→ltb,
  ==_self, arith, some, Bool, true, false, not, ◌⊎◌, inl, inr,
}
use cheritest.Runtime.{
  Capability, Context, Code, cf_pcc, get_imm, get_cap_reg_at_index, is_in_delay_slot,
  emulate_branch, negative, capsighandler, mips_branch_j, mips_branch_jal, emulate_op, emulate_jump,
}
use cheritest.Runtime.Branch.{
  Branch, beq, bne, blez, bgtz, bltz, bgez, cbtu, cbts, word, IsWellFormed, encode, is_likely,
  is_taken,
}
use cheritest.Runtime.Decode.{PcInside, branch_address, emulate_word}
use cheritest.Runtime.Fields.{get_imm_field}
use cheritest.Runtime.Signs.{RegistersFit}
use cheritest.Runtime.Emulate.{
  is_plain_bgez, resumed, emulate_two, emulate_one, emulate_bltz, emulate_bgezal,
  emulate_bgez_taken, emulate_cap,
}

-- A conditional branch other than BGEZ and BGEZL at `pc` is emulated as the architecture executes
-- it: the new program counter is the target if the branch is taken and the instruction after the
-- delay slot if not, and nothing else changes. The branch is well formed, the registers hold 64
-- bits, the program counter's capability covers `pc`, and a branch of the likely form is taken, for
-- only then is its delay slot executed.
pub emulate_branch-successor :
    (code : Code) (b : Branch) (c : Context) (pc : ℕ)
    → IsWellFormed b
    → RegistersFit c
    → PcInside c pc
    → code (branch_address c pc) ≡ encode b
    → (is_likely b ≡ true → is_taken b c ≡ true)
    → is_plain_bgez b ≡ false
    → emulate_branch 32 code c pc ≡ ok (some (resumed b c pc))
emulate_branch-successor code (beq l rs rt imm) c pc w fit inside e slot plain =
    (emulate_two code c pc inside fit l rs rt imm w.0 w.1 w.2).0 e
emulate_branch-successor code (bne l rs rt imm) c pc w fit inside e slot plain =
    (emulate_two code c pc inside fit l rs rt imm w.0 w.1 w.2).1 e
emulate_branch-successor code (blez l rs imm) c pc w fit inside e slot plain =
    (emulate_one code c pc inside fit l rs imm w.0 w.1).0 e
emulate_branch-successor code (bgtz l rs imm) c pc w fit inside e slot plain =
    (emulate_one code c pc inside fit l rs imm w.0 w.1).1 e
emulate_branch-successor code (bltz k l rs imm) c pc w fit inside e slot plain =
    emulate_bltz code c pc inside fit k l rs imm w.0 w.1 slot e
emulate_branch-successor code (bgez true l rs imm) c pc w fit inside e slot plain =
    emulate_bgezal code c pc inside fit l rs imm w.0 w.1 e
emulate_branch-successor code (bgez false l rs imm) c pc w fit inside e slot plain =
    absurd (grind arith)
emulate_branch-successor code (cbtu cb imm) c pc w fit inside e slot plain =
    (emulate_cap code c pc inside fit cb imm w.0 w.1).0 e
emulate_branch-successor code (cbts cb imm) c pc w fit inside e slot plain =
    (emulate_cap code c pc inside fit cb imm w.0 w.1).1 e

-- A BGEZ or BGEZL that is taken makes the emulation fail its assertion, for a well-formed branch
-- at a `pc` that the program counter's capability covers, and registers of 64 bits.
pub emulate_branch-bgez :
    (code : Code) (l : Bool) (rs imm : ℕ) (c : Context) (pc : ℕ)
    → IsWellFormed (bgez false l rs imm)
    → RegistersFit c
    → PcInside c pc
    → code (branch_address c pc) ≡ encode (bgez false l rs imm)
    → is_taken (bgez false l rs imm) c ≡ true
    → emulate_branch 32 code c pc ≡ fault
emulate_branch-bgez code l rs imm c pc w fit inside e t =
    emulate_bgez_taken code c pc inside fit l rs imm w.0 w.1 t e

-- A J or JAL makes the emulation shift by 32 bits, for an operand of no bits, which is undefined.
pub emulate_branch-jump :
    (code : Code) (op a b imm : ℕ) (c : Context) (pc : ℕ)
    → (op ≡ 2) ⊎ (op ≡ 3)
    → (a < 32) × (b < 32) × (imm < 65536)
    → PcInside c pc
    → code (branch_address c pc) ≡ word op a b imm
    → emulate_branch 32 code c pc ≡ fault
unfolding emulate_op emulate_jump get_imm
emulate_branch-jump code op a b imm c pc (inl j) w inside e =
    emulate_word 2 a b imm (omega arith) w.0 w.1 w.2 code c pc mips_branch_j inside
      (e ∙ ap (λ op. word op a b imm) j) refl
emulate_branch-jump code op a b imm c pc (inr j) w inside e =
    emulate_word 3 a b imm (omega arith) w.0 w.1 w.2 code c pc mips_branch_jal inside
      (e ∙ ap (λ op. word op a b imm) j) refl

-- The cause register's highest bit of 32.
in_slot :
    (c : Context) (n : ℕ) → c.cause / 2 ^ 31 % 2 ≡ n → is_in_delay_slot 32 c ≡ ok (not (n == 0))
unfolding is_in_delay_slot
in_slot c n e =
    ap (λ r. r >>= λ bit. ok (not (bit == 0)))
      (get_imm_field 32 (c.cause % 2 ^ 32) 31 1 (omega arith) (omega arith) (omega arith)
          (omega arith) (omega arith) (omega arith)
        ∙ ap ok (omega (arith, e)))

-- The capability register that the fault names.
abbrev pub named_index : Context → ℕ
named_index c = c.frame.cf_capcause % 256

abbrev pub NamesRegister : Context → Type 0
NamesRegister c = (named_index c ≡ 255) ⊎ (named_index c < 26)

abbrev pub named_register : Context → Capability
named_register c = if named_index c == 255 then cf_pcc c.frame else c.frame.slot (named_index c)

named :
    (c : Context) → NamesRegister c → get_cap_reg_at_index c (named_index c) ≡ ok (named_register c)
unfolding get_cap_reg_at_index
named c h = by_index (named_index c) h
  where
    push : (z : Bool) (x y : Capability) → (if z then ok x else ok y) ≡ ok (if z then x else y)
    push true x y = refl
    push false x y = refl

    by_index :
        (n : ℕ)
        → (n ≡ 255) ⊎ (n < 26)
        → (if n == 255
            then ok (cf_pcc c.frame)
            else (if ltb n 26 then ok (c.frame.slot n) else fault))
          ≡ ok (if n == 255 then cf_pcc c.frame else c.frame.slot n)
    by_index n (inl e) = rw e refl
    by_index n (inr l) = rw (lt→ltb n 26 l) (push (n == 255) (cf_pcc c.frame) (c.frame.slot n))

abbrev pub Handler : Type 0
Handler = Capability → (cause : ℕ) → ℕ → ℕ

module _ (code : Code) (sig : ℕ) (handler : Handler) (c : Context) (faults : ℕ) where
  -- The count of faults after the test's handler has run.
  abbrev pub counted : ℕ
  counted = handler (named_register c) (c.frame.cf_capcause / 256 % 2 ^ 32) faults

  -- In the delay slot of such a branch as `emulate_branch-successor` is about, at a program counter
  -- above 4 and below 2 ^ 63, for a fault that names a capability register, the handler calls the
  -- test's handler once with that register and the cause, and resumes where the branch goes.
  pub capsighandler_resumes :
      (b : Branch)
      → NamesRegister c
      → c.cause / 2 ^ 31 % 2 ≡ 1
      → 4 < c.mc_pc
      → c.mc_pc < 2 ^ 63
      → IsWellFormed b
      → RegistersFit c
      → PcInside c c.mc_pc
      → code (branch_address c c.mc_pc) ≡ encode b
      → (is_likely b ≡ true → is_taken b c ≡ true)
      → is_plain_bgez b ≡ false
      → capsighandler 32 code sig sig (some handler) c faults ≡ ok (resumed b c c.mc_pc, counted)
  unfolding capsighandler
  capsighandler_resumes b names slot low high w fit inside e likely plain =
      rw
        (
          in_slot c 1 slot,
          named c names,
          ==_self sig,
          lt→ltb 4 c.mc_pc low,
          small,
          emulate_branch-successor code b c c.mc_pc w fit inside e likely plain,
        )
        refl
    where
      small : negative c.mc_pc ≡ false
      small = ground arith
