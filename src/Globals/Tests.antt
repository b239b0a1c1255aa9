-- ===== src/Globals/Tests.antt =====
-- The start of globals on a concrete capability, and strlen on a concrete string.
use cheritest.Common.{
  ℕ, zero, suc, ◌+◌, ◌%◌, ◌^◌, ◌<◌, ◌≡◌, refl, ok, Option, some, List, [], ◌∷◌, bit_and, get_elem?,
  arith, false, ◌==◌,
}
use cheritest.Globals.{Capreloc, Builtins, crt_init_globals}
use cheritest.Globals.Laws.{Laws, AllInit}
use cheritest.Globals.Correct.{crt_init_globals-AllInit}
use cheritest.Globals.Strlen.{strlen, IsString, strlen-IsString}

record TinyCapability : Type 0 where
  perms : ℕ
  base : ℕ
  length : ℕ
  address : ℕ

abbrev whole : TinyCapability
whole = record { perms = 0xffff; base = 0x1000; length = 0x2000; address = 0x1000 }

abbrev builtins : Builtins
builtins = record {
  Cap = TinyCapability;
  global_data_get = whole;
  program_counter_get = whole;
  perms_and = λ c m. record c { perms = bit_and c.perms m };
  offset_set = λ c o. record c { address = (c.base + o) % 2 ^ 64 };
  bounds_set = λ c n. record c { base = c.address; length = n };
  offset_increment = λ c o. record c { address = (c.address + o) % 2 ^ 64 };
  permit_store_capability = 32;
  permit_store = 8;
  permit_execute = 2;
}

abbrev laws : Laws builtins
laws = record {
  perms = λ c. c.perms;
  base = λ c. c.base;
  length = λ c. c.length;
  address = λ c. c.address;
  perms-perms_and = λ c m. refl;
  base-perms_and = λ c m. refl;
  length-perms_and = λ c m. refl;
  perms-offset_set = λ c o. refl;
  base-offset_set = λ c o. refl;
  length-offset_set = λ c o. refl;
  address-offset_set = λ c o. refl;
  perms-bounds_set = λ c n. refl;
  base-bounds_set = λ c n. refl;
  length-bounds_set = λ c n. refl;
  address-bounds_set = λ c n. refl;
  perms-offset_increment = λ c o. refl;
  base-offset_increment = λ c o. refl;
  length-offset_increment = λ c o. refl;
  address-offset_increment = λ c o. refl;
}

-- An object of 64 bytes, and a function.
abbrev relocs : List Capreloc
relocs =
    record { capability_location = 0x40; object = 0x100; offset = 8; size = 64; permissions = 0 }
    ∷ record {
      capability_location = 0x60;
      object = 0x200;
      offset = 0;
      size = 32;
      permissions = 2 ^ 63;
    }
    ∷ []

crt_init_globals-AllInit_example : AllInit builtins laws relocs (crt_init_globals builtins relocs)
crt_init_globals-AllInit_example =
    crt_init_globals-AllInit builtins laws (omega arith) (omega arith) (omega arith) relocs

abbrev byte : ℕ → Option ℕ
byte a = get_elem? (0 ∷ 0x61 ∷ 0x62 ∷ 0 ∷ []) a

byte-IsString : IsString byte 1 2
byte-IsString = record { chars = chars; end = refl }
  where
    chars : (i : ℕ) → i < 2 → (c : ℕ) × (byte (1 + i) ≡ some c) × ((c == 0) ≡ false)
    chars zero h = (0x61, refl, refl)
    chars (suc zero) h = (0x62, refl, refl)
    chars (suc (suc i)) h = absurd (omega arith)

strlen-IsString_example : strlen byte 5 1 ≡ ok 2
strlen-IsString_example = strlen-IsString byte 2 1 5 byte-IsString (omega arith)
