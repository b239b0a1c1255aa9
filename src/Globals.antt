-- ===== src/Globals.antt =====
-- crt_init_globals.c: the capabilities that a program's globals start with, and strlen. What the
-- compiler's functions on capabilities do is a parameter.
pub mod Correct
pub mod Laws
pub mod Strlen
pub mod Tests
use cheritest.Common.{
  ℕ, ◌-◌, ◌^◌, Bool, true, false, not, ◌&&◌, ◌==◌, if◌then◌else◌, List, [], ◌∷◌, bit_and,
}

-- Fields of 64 bits; a negative `long` stands by its two's complement.
pub record Capreloc : Type 0 where
  pub capability_location : ℕ
  pub object : ℕ
  pub offset : ℕ
  pub size : ℕ
  pub permissions : ℕ

abbrev pub function_reloc_flag : ℕ
function_reloc_flag = 2 ^ 63

-- The complement of an `int` that is not negative, as 64 bits.
abbrev pub complement64 : ℕ → ℕ
complement64 x = 2 ^ 64 - 1 - x

-- The built-in functions and macros.
pub record Builtins : Type 1 where
  pub Cap : Type 0
  pub global_data_get : Cap
  pub program_counter_get : Cap
  pub perms_and : Cap → ℕ → Cap
  pub offset_set : Cap → ℕ → Cap
  pub bounds_set : Cap → ℕ → Cap
  pub offset_increment : Cap → ℕ → Cap
  pub permit_store_capability : ℕ
  pub permit_store : ℕ
  pub permit_execute : ℕ

module _ (b : Builtins) where
  open b use {
    Cap, global_data_get, program_counter_get, perms_and, offset_set, bounds_set, offset_increment,
    permit_store_capability, permit_store, permit_execute,
  }

  abbrev pub function_pointer_permissions : ℕ
  function_pointer_permissions =
      bit_and (bit_and (complement64 0) (complement64 permit_store_capability))
        (complement64 permit_store)

  abbrev pub global_pointer_permissions : ℕ
  global_pointer_permissions = bit_and (complement64 0) (complement64 permit_execute)

  abbrev pub is_function : Capreloc → Bool
  is_function reloc = bit_and reloc.permissions function_reloc_flag == function_reloc_flag

  -- `*dest = src`
  pub record CapabilityStore : Type 0 where
    pub dest : Cap
    pub src : Cap

  -- The body of the loop.
  unfoldable pub init_reloc : (gdc pcc : Cap) → Capreloc → CapabilityStore
  init_reloc gdc pcc reloc =
      let base = if is_function reloc then pcc else gdc in
      let src = offset_set base reloc.object in
      let bounded =
        if not (is_function reloc) && not (reloc.size == 0)
        then bounds_set src reloc.size
        else src in
      record {
        dest = offset_set gdc reloc.capability_location;
        src = offset_increment bounded reloc.offset;
      }

  -- The loop over the relocations.
  unfoldable pub init_relocs : (gdc pcc : Cap) → List Capreloc → List CapabilityStore
  unfolding init_reloc
  init_relocs gdc pcc [] = []
  init_relocs gdc pcc (reloc ∷ relocs) = init_reloc gdc pcc reloc ∷ init_relocs gdc pcc relocs

  -- The stores that the function makes, for the relocations between the two symbols of the linker.
  unfoldable pub crt_init_globals : List Capreloc → List CapabilityStore
  unfolding init_relocs
  crt_init_globals relocs =
      init_relocs (perms_and global_data_get global_pointer_permissions)
        (perms_and program_counter_get function_pointer_permissions) relocs
