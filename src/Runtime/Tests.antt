-- ===== src/Runtime/Tests.antt =====
-- The theorems on test_runtime.c at concrete instructions and registers.
use cheritest.Common.{
  ok, fault, some, ℕ, ◌+◌, ◌-◌, ◌/◌, ◌%◌, ◌^◌, ◌≡◌, refl, inl, inr, true, false, arith,
}
use cheritest.Runtime.{
  Capability, Context, handler, get_imm, sign_extend, emulate_branch, capsighandler,
}
use cheritest.Runtime.Branch.{Branch, beq, bgez, encode, word}
use cheritest.Runtime.Fields.{get_imm_field, sign_extend_value}
use cheritest.Runtime.Correct.{
  emulate_branch-successor, emulate_branch-bgez, emulate_branch-jump, capsighandler_resumes,
}

-- A capability of all memory.
abbrev almighty : Capability
almighty = record { tag = true; base = 0; length = 2 ^ 48; address = 0 }

-- Register r holds r, and the fault was in capability register 3 for cause 2.
abbrev context : (cause : ℕ) → Context
context cause = record {
  mc_pc = 4096;
  mc_regs = λ r. r % 2 ^ 64;
  cause = cause;
  frame = record { slot = λ i. almighty; cf_capcause = 515 };
}

abbrev in_delay_slot : ℕ
in_delay_slot = 2 ^ 31 + 18

-- 32 words back.
abbrev backward : Branch
backward = beq true 7 7 65504

get_imm_field_example : get_imm 16 0x8c450010 20 5 ≡ ok (0x8c450010 / 2 ^ 16 % 2 ^ 21)
get_imm_field_example =
    get_imm_field 16 0x8c450010 20 5 (omega arith) (omega arith) (omega arith) (omega arith)
      (omega arith) (omega arith)

sign_extend_value_example : sign_extend 65504 16 ≡ 2 ^ 64 - 32
sign_extend_value_example = sign_extend_value 65504 16 (omega arith) (omega arith)

emulate_branch-successor_example :
    emulate_branch 32 (λ at. encode backward) (context 0) 4096
    ≡ ok (some (record (context 0) { mc_pc = 3972 }))
emulate_branch-successor_example =
    emulate_branch-successor (λ at. encode backward) backward (context 0) 4096
      (omega arith, omega arith, omega arith) (λ r. omega arith)
      (omega arith, omega arith, omega arith) refl (λ l. refl) refl

emulate_branch-bgez_example :
    emulate_branch 32 (λ at. encode (bgez false false 9 16)) (context 0) 4096 ≡ fault
emulate_branch-bgez_example =
    emulate_branch-bgez (λ at. encode (bgez false false 9 16)) false 9 16 (context 0) 4096
      (omega arith, omega arith) (λ r. omega arith) (omega arith, omega arith, omega arith) refl
      refl

emulate_branch-jump_example : emulate_branch 32 (λ at. word 2 0 1 8) (context 0) 4096 ≡ fault
emulate_branch-jump_example =
    emulate_branch-jump (λ at. word 2 0 1 8) 2 0 1 8 (context 0) 4096 (inl refl)
      (omega arith, omega arith, omega arith) (omega arith, omega arith, omega arith) refl

capsighandler_resumes_example :
    capsighandler 32 (λ at. encode backward) 34 34 (some handler) (context in_delay_slot) 0
    ≡ ok (record (context in_delay_slot) { mc_pc = 3972 }, 1)
capsighandler_resumes_example =
    capsighandler_resumes (λ at. encode backward) 34 handler (context in_delay_slot) 0 backward
      (inr (omega arith)) refl (omega arith) (omega arith) (omega arith, omega arith, omega arith)
      (λ r. omega arith) (omega arith, omega arith, omega arith) refl (λ l. refl) refl
