-- ===== src/Globals/Laws.antt =====
-- crt_init_globals.c: what the architecture says of the built-in functions, and what a capability is
-- for that a global starts with.
use cheritest.Common.{
  ℕ, ◌+◌, ◌%◌, ◌^◌, ◌≡◌, true, false, ◌==◌, if◌then◌else◌, List, [], ◌∷◌, bit_and,
}
use cheritest.Globals.{Capreloc, Builtins, is_function, CapabilityStore}

-- What the architecture says of a capability, and of the built-in functions on one that is valid
-- and whose bounds can be represented.
pub record Laws (b : Builtins) : Type 0 where
  pub perms : b.Cap → ℕ
  pub base : b.Cap → ℕ
  pub length : b.Cap → ℕ
  pub address : b.Cap → ℕ
  pub perms-perms_and : (c : b.Cap) (m : ℕ) → perms (b.perms_and c m) ≡ bit_and (perms c) m
  pub base-perms_and : (c : b.Cap) (m : ℕ) → base (b.perms_and c m) ≡ base c
  pub length-perms_and : (c : b.Cap) (m : ℕ) → length (b.perms_and c m) ≡ length c
  pub perms-offset_set : (c : b.Cap) (o : ℕ) → perms (b.offset_set c o) ≡ perms c
  pub base-offset_set : (c : b.Cap) (o : ℕ) → base (b.offset_set c o) ≡ base c
  pub length-offset_set : (c : b.Cap) (o : ℕ) → length (b.offset_set c o) ≡ length c
  pub address-offset_set : (c : b.Cap) (o : ℕ) → address (b.offset_set c o) ≡ (base c + o) % 2 ^ 64
  pub perms-bounds_set : (c : b.Cap) (n : ℕ) → perms (b.bounds_set c n) ≡ perms c
  pub base-bounds_set : (c : b.Cap) (n : ℕ) → base (b.bounds_set c n) ≡ address c
  pub length-bounds_set : (c : b.Cap) (n : ℕ) → length (b.bounds_set c n) ≡ n
  pub address-bounds_set : (c : b.Cap) (n : ℕ) → address (b.bounds_set c n) ≡ address c
  pub perms-offset_increment : (c : b.Cap) (o : ℕ) → perms (b.offset_increment c o) ≡ perms c
  pub base-offset_increment : (c : b.Cap) (o : ℕ) → base (b.offset_increment c o) ≡ base c
  pub length-offset_increment : (c : b.Cap) (o : ℕ) → length (b.offset_increment c o) ≡ length c
  pub address-offset_increment :
      (c : b.Cap) (o : ℕ) → address (b.offset_increment c o) ≡ (address c + o) % 2 ^ 64

module _ (b : Builtins) (l : Laws b) where
  open b use {
    Cap, global_data_get, program_counter_get, permit_store_capability, permit_store,
    permit_execute,
  }
  open l use {perms, base, length, address}

  -- A pointer to data: it cannot be executed, and has the bounds of its object if the size of that
  -- is known, else those of all data.
  pub record IsData (reloc : Capreloc) (c : Cap) : Type 0 where
    pub no_execute : bit_and (perms c) permit_execute ≡ 0
    pub start : base c ≡ (
        if reloc.size == 0
        then base global_data_get
        else (base global_data_get + reloc.object) % 2 ^ 64)
    pub extent : length c ≡ (if reloc.size == 0 then length global_data_get else reloc.size)
    pub cursor :
        address c ≡ ((base global_data_get + reloc.object) % 2 ^ 64 + reloc.offset) % 2 ^ 64

  -- A pointer to a function: it cannot be stored through, and has the bounds of the program.
  pub record IsCode (reloc : Capreloc) (c : Cap) : Type 0 where
    pub no_store : bit_and (perms c) permit_store ≡ 0
    pub no_store_capability : bit_and (perms c) permit_store_capability ≡ 0
    pub start : base c ≡ base program_counter_get
    pub extent : length c ≡ length program_counter_get
    pub cursor :
        address c ≡ ((base program_counter_get + reloc.object) % 2 ^ 64 + reloc.offset) % 2 ^ 64

  -- The capability goes to its location, and is one for code or for data as the relocation says.
  pub record IsInit (reloc : Capreloc) (s : CapabilityStore b) : Type 0 where
    pub place : address s.dest ≡ (base global_data_get + reloc.capability_location) % 2 ^ 64
    pub code : is_function b reloc ≡ true → IsCode reloc s.src
    pub data_ : is_function b reloc ≡ false → IsData reloc s.src

  abbrev pub AllInit : List Capreloc → List (CapabilityStore b) → Type 0
  AllInit [] [] = Unit
  AllInit [] (s ∷ ss) = ⊥
  AllInit (r ∷ rs) [] = ⊥
  AllInit (r ∷ rs) (s ∷ ss) = IsInit r s × AllInit rs ss
