-- ===== src/Runtime.antt =====
-- cheri-c-tests/test_runtime.c: the handler of capability faults, which skips the instruction that
-- faulted or, in a branch delay slot, emulates the branch.
pub mod Branch
pub mod Correct
pub mod Emulate
pub mod Fields
pub mod Decode
pub mod Signs
pub mod Tests
use cheritest.Common.{
  Run, ok, fault, hung, ◌>>=◌, ℕ, zero, suc, ◌+◌, ◌-◌, ◌*◌, ◌/◌, ◌%◌, ◌^◌, Bool, true, false, not,
  ◌&&◌, ◌||◌, ◌==◌, ltb, leb, if◌then◌else◌, bit_and, Option, none, some, List, [], ◌∷◌,
}

-- A capability, with what the compiler's built-in functions read of it.
pub record Capability : Type 0 where
  pub tag : Bool
  pub base : ℕ
  pub length : ℕ
  pub address : ℕ

-- `struct cheri_frame`, as `getCapRegAtIndex` and the handler see it: slots of the size of a
-- capability, with `cf_pcc` the one of index 27.
pub record CheriFrame : Type 0 where
  pub slot : ℕ → Capability
  pub cf_capcause : ℕ

-- `mcontext_t`. Registers hold 64 bits, also where the source reads them as signed.
pub record Context : Type 0 where
  pub mc_pc : ℕ
  pub mc_regs : ℕ → ℕ
  pub cause : ℕ
  pub frame : CheriFrame

abbrev pub pcc_index : ℕ
pcc_index = 27

abbrev pub cf_pcc : CheriFrame → Capability
cf_pcc f = f.slot pcc_index

-- The value of a register as an `int64_t` is negative.
abbrev pub negative : ℕ → Bool
negative v = leb (2 ^ 63) v

-- `ext >> shift` on an `int64_t`, which keeps the sign.
abbrev pub shift_right_signed : ℕ → ℕ → ℕ
shift_right_signed ext shift =
    if negative ext then 2 ^ 64 - 1 - (2 ^ 64 - 1 - ext) / 2 ^ shift else ext / 2 ^ shift

unfoldable pub sign_extend : (val size : ℕ) → ℕ
sign_extend val size = let shift = 64 - size in shift_right_signed (val * 2 ^ shift % 2 ^ 64) shift

-- `cap_size-len` is a `size_t`, which wraps. A shift of 32 bits or more is undefined, a fault here.
unfoldable pub get_imm : (cap_size instr start len : ℕ) → Run ℕ
get_imm cap_size instr start len =
    let shift = (cap_size + 2 ^ 64 - len) % 2 ^ 64 in
    let low = start + 1 - len in
    if ltb shift 32 && ltb low 32
    then (let mask = 4294967295 / 2 ^ shift * 2 ^ low % 2 ^ 32 in ok (bit_and instr mask / 2 ^ low))
    else fault

unfoldable pub get_cap_reg_at_index : Context → ℕ → Run Capability
get_cap_reg_at_index context idx =
    if idx == 255
    then ok (cf_pcc context.frame)
    else (if ltb idx 26 then ok (context.frame.slot idx) else fault)

-- The handler that counts, which tests may replace.
abbrev pub handler : Capability → (cause : ℕ) → (faults : ℕ) → ℕ
handler capreg cause faults = faults + 1

-- The word at an address.
abbrev pub Code : Type 0
Code = ℕ → ℕ

unfoldable pub get_adjusted_pc : Context → (pc : ℕ) → Run ℕ
get_adjusted_pc context pc =
    let pcc = cf_pcc context.frame in
    if ltb pcc.base ((pcc.base + pc) % 2 ^ 64) && ltb pc pcc.length
    then ok ((pcc.address + pc) % 2 ^ 64)
    else fault

-- The values that `emulateBranch` computes before its switch.
pub record Operands : Type 0 where
  pub instr : ℕ
  pub branch_pc : ℕ
  pub normal_pc : ℕ
  pub reg_val : ℕ
  pub reg_val2 : ℕ

-- The enumerations, with the values that the source gives them.
pub data BranchOp : Type 0 where
  mips_branch_regimm mips_branch_cheri mips_branch_j mips_branch_jal mips_branch_jr : BranchOp
  mips_branch_jalr mips_branch_beq mips_branch_bne mips_branch_blez mips_branch_bgtz : BranchOp
  mips_branch_beql mips_branch_bnel mips_branch_blezl mips_branch_bgtzl : BranchOp

pub data RegimmBranchOp : Type 0 where
  mips_branch_bltz mips_branch_bgez mips_branch_bltzal mips_branch_bgezal : RegimmBranchOp
  mips_branch_bltzl mips_branch_bgezl mips_branch_bltzall mips_branch_bgezall : RegimmBranchOp

pub data CheriBranchOp : Type 0 where
  cheri_branch_cbtu cheri_branch_cbts cheri_branch_cjr cheri_branch_cjalr : CheriBranchOp

-- The label of a switch that a number selects.
abbrev pub label {ℓ} : {A : Type ℓ} → ℕ → List (ℕ × A) → Option A
label n [] = none
label n ((m, a) ∷ rest) = if n == m then some a else label n rest

abbrev pub branch_ops : List (ℕ × BranchOp)
branch_ops =
    (1, mips_branch_regimm)
    ∷ (18, mips_branch_cheri)
    ∷ (2, mips_branch_j)
    ∷ (3, mips_branch_jal)
    ∷ (8, mips_branch_jr)
    ∷ (9, mips_branch_jalr)
    ∷ (4, mips_branch_beq)
    ∷ (5, mips_branch_bne)
    ∷ (6, mips_branch_blez)
    ∷ (7, mips_branch_bgtz)
    ∷ (20, mips_branch_beql)
    ∷ (21, mips_branch_bnel)
    ∷ (22, mips_branch_blezl)
    ∷ (23, mips_branch_bgtzl)
    ∷ []

abbrev pub regimm_branch_ops : List (ℕ × RegimmBranchOp)
regimm_branch_ops =
    (0, mips_branch_bltz)
    ∷ (1, mips_branch_bgez)
    ∷ (16, mips_branch_bltzal)
    ∷ (17, mips_branch_bgezal)
    ∷ (2, mips_branch_bltzl)
    ∷ (3, mips_branch_bgezl)
    ∷ (18, mips_branch_bltzall)
    ∷ (19, mips_branch_bgezall)
    ∷ []

abbrev pub cheri_branch_ops : List (ℕ × CheriBranchOp)
cheri_branch_ops =
    (9, cheri_branch_cbtu)
    ∷ (10, cheri_branch_cbts)
    ∷ (7, cheri_branch_cjr)
    ∷ (8, cheri_branch_cjalr)
    ∷ []

-- `context->mc_pc = (taken ? branchPc : normalPc); return true;`, where `none` stands for false.
abbrev pub branch_if : Bool → Operands → Context → Run (Option Context)
branch_if taken o context =
    ok (some (record context { mc_pc = if taken then o.branch_pc else o.normal_pc }))

-- `regVal <= 0`
abbrev pub not_positive : ℕ → Bool
not_positive v = negative v || (v == 0)

-- Not a branch: `abort()`.
abbrev pub resume : Option Context → ℕ → Run (Context × ℕ)
resume none faults = fault
resume (some context) faults = ok (context, faults)

-- A switch with no default, after which the function returns false.
abbrev pub switch {ℓ} : {A : Type ℓ} → Option A → (A → Run (Option Context)) → Run (Option Context)
switch none case = ok none
switch (some a) case = case a

-- `assert(c)` before `k`.
abbrev pub asserting {ℓ} : {A : Type ℓ} → Bool → Run A → Run A
asserting true k = k
asserting false k = fault

unfoldable pub emulate_regimm : RegimmBranchOp → Operands → Context → Run (Option Context)
emulate_regimm op o context = elim op [
  | mips_branch_bltzl ↦ likely_less
  | mips_branch_bltzall ↦ likely_less
  | mips_branch_bltz ↦ less
  | mips_branch_bltzal ↦ less
  | mips_branch_bgezl ↦ asserting (negative o.reg_val) not_less
  | mips_branch_bgez ↦ asserting (negative o.reg_val) not_less
  | mips_branch_bgezal ↦ not_less
  | mips_branch_bgezall ↦ not_less
]
  where
    less : Run (Option Context)
    less = branch_if (negative o.reg_val) o context

    not_less : Run (Option Context)
    not_less = branch_if (not (negative o.reg_val)) o context

    likely_less : Run (Option Context)
    likely_less = asserting (negative o.reg_val) less

module _ (cap_size : ℕ) where
  -- The context saves 32 registers; a number past them reads beyond the array.
  unfoldable pub get_reg : Context → (instr opidx : ℕ) → Run ℕ
  get_reg context instr opidx = get_imm cap_size instr opidx 5 >>= λ regno.
      if regno == 0 then ok 0 else (if ltb regno 32 then ok (context.mc_regs regno) else fault)

  unfoldable pub get_cap_reg : Context → (instr opidx : ℕ) → Run Capability
  get_cap_reg context instr opidx =
      get_imm cap_size instr opidx 5 >>= λ regno. get_cap_reg_at_index context regno

  unfoldable pub get_s_imm : (instr start len : ℕ) → Run ℕ
  get_s_imm instr start len = get_imm cap_size instr start len >>= λ i. ok (sign_extend i len)

  abbrev pub get_opcode : (instr : ℕ) → Run ℕ
  get_opcode instr = get_imm cap_size instr 31 6

  -- `cause` is a register, of which `getImm` takes the low 32 bits.
  unfoldable pub is_in_delay_slot : Context → Run Bool
  is_in_delay_slot context =
      get_imm cap_size (context.cause % 2 ^ 32) 31 1 >>= λ bit. ok (not (bit == 0))

  unfoldable pub operands : Code → Context → (pc : ℕ) → Run Operands
  operands code context pc = get_adjusted_pc context pc >>= λ at.
      let instr = code at in
      get_s_imm instr 15 16 >>= λ imm. get_reg context instr 25 >>= λ reg_val.
      get_reg context instr 20 >>= λ reg_val2. ok (record {
        instr = instr;
        branch_pc = (pc + imm * 4 % 2 ^ 64 + 4) % 2 ^ 64;
        normal_pc = (pc + 8) % 2 ^ 64;
        reg_val = reg_val;
        reg_val2 = reg_val2;
      })

  abbrev pub set_slot : ℕ → Capability → CheriFrame → CheriFrame
  set_slot i c f = record f { slot = λ j. if i == j then c else f.slot j }

  unfoldable pub emulate_cheri : CheriBranchOp → Operands → Context → Run (Option Context)
  emulate_cheri cheri_branch_cbtu o context =
      get_cap_reg context o.instr 20 >>= λ cap. branch_if (not cap.tag) o context
  emulate_cheri cheri_branch_cbts o context =
      get_cap_reg context o.instr 20 >>= λ cap. branch_if cap.tag o context
  emulate_cheri _ o context = get_reg context o.instr 10 >>= λ target.
      get_cap_reg (record context { mc_pc = target }) o.instr 15 >>= λ cap.
      ok (some (record context { mc_pc = target; frame = set_slot pcc_index cap context.frame }))

  -- J and JAL
  unfoldable pub emulate_jump : Operands → Context → (pc : ℕ) → Run (Option Context)
  emulate_jump o context pc = get_imm cap_size o.instr 25 0 >>= λ i.
      ok (some (record context { mc_pc = bit_and (i * 4) (pc / 2 ^ 28 * 2 ^ 28) }))

  -- JR and JALR
  unfoldable pub emulate_register : Operands → Context → Run (Option Context)
  emulate_register o context =
      get_reg context o.instr 25 >>= λ target. ok (some (record context { mc_pc = target }))

  unfoldable pub emulate_op : BranchOp → Operands → Context → (pc : ℕ) → Run (Option Context)
  unfolding emulate_regimm emulate_cheri emulate_jump emulate_register
  emulate_op mips_branch_regimm o context pc = get_imm cap_size o.instr 20 5 >>= λ code.
      switch (label code regimm_branch_ops) (λ op. emulate_regimm op o context)
  emulate_op mips_branch_cheri o context pc = get_imm cap_size o.instr 25 5 >>= λ code.
      switch (label code cheri_branch_ops) (λ op. emulate_cheri op o context)
  emulate_op mips_branch_j o context pc = emulate_jump o context pc
  emulate_op mips_branch_jal o context pc = emulate_jump o context pc
  emulate_op mips_branch_jr o context pc = emulate_register o context
  emulate_op mips_branch_jalr o context pc = emulate_register o context
  emulate_op mips_branch_beql o context pc = branch_if (o.reg_val == o.reg_val2) o context
  emulate_op mips_branch_beq o context pc = branch_if (o.reg_val == o.reg_val2) o context
  emulate_op mips_branch_bnel o context pc = branch_if (not (o.reg_val == o.reg_val2)) o context
  emulate_op mips_branch_bne o context pc = branch_if (not (o.reg_val == o.reg_val2)) o context
  emulate_op mips_branch_blezl o context pc = branch_if (not_positive o.reg_val) o context
  emulate_op mips_branch_blez o context pc = branch_if (not_positive o.reg_val) o context
  emulate_op mips_branch_bgtzl o context pc = branch_if (not (not_positive o.reg_val)) o context
  emulate_op mips_branch_bgtz o context pc = branch_if (not (not_positive o.reg_val)) o context

  -- The branch at `pc`: its successor as the new context, or `none` where it is not a branch.
  unfoldable pub emulate_branch : Code → Context → (pc : ℕ) → Run (Option Context)
  emulate_branch code context pc = operands code context pc >>= λ o.
      get_opcode o.instr >>= λ opcode.
      switch (label opcode branch_ops) (λ op. emulate_op op o context pc)

  -- The signal handler, with `test_fault_handler` as a function of the counter `faults`, or null.
  -- SIGPROT is a number of the system's.
  unfoldable pub capsighandler :
      Code
      → (sigprot signo : ℕ) → (test_fault_handler : Option (Capability → (cause : ℕ) → ℕ → ℕ))
      → Context
      → (faults : ℕ) → Run (Context × ℕ)
  capsighandler code sigprot signo test_fault_handler context faults =
      is_in_delay_slot context >>= λ is_delay_slot.
      let pc = context.mc_pc in
      let capcause = context.frame.cf_capcause in
      get_cap_reg_at_index context (capcause % 256) >>= λ reg.
      asserting (signo == sigprot) (elim test_fault_handler [
        | none ↦ fault
        | some handler ↦
            let faults' = handler reg (capcause / 256 % 2 ^ 32) faults in
            if is_delay_slot
            then asserting (ltb 4 pc && not (negative pc))
                (emulate_branch code context pc >>= λ done. resume done faults')
            else ok (record context { mc_pc = (pc + 4) % 2 ^ 64 }, faults')
      ])
