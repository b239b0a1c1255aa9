-- ===== src/Ctests/Tests.antt =====
-- The test cases on concrete implementations of what they test.
use cheritest.Common.{
  if◌then◌else◌, ◌==◌, false, ok, arith, ℕ, ◌+◌, ◌-◌, ◌*◌, ◌%◌, ◌^◌, ◌≡◌, refl, true,
}
use cheritest.Ctests.Cursor.{CursorBuiltins, CursorLaws, clang_hybrid_cursor}
use cheritest.Ctests.Cursor.Correct.{clang_hybrid_cursor-passes}
use cheritest.Ctests.Malloc.{Allocator, Setting, Capability, libc_malloc}
use cheritest.Ctests.Malloc.Calloc.{libc_malloc-AgreesButLast}

-- Its blocks have the size asked for. The heap is the number of live ones, and all is zero.
abbrev block : (size number : ℕ) → Capability
block size number = record {
  tag = true;
  base = 2 ^ 28 * (number + 1);
  length = size;
  offset = 0;
  perms = 60;
}

abbrev counting : Allocator
counting = record {
  Heap = ℕ;
  malloc = λ n h. (block n h, h + 1);
  calloc = λ n k h. (block (n * k) h, h + 1);
  free = λ c h. h - 1;
  byte = λ h c i. 0;
  malloc_usable_size = λ h c. c.length;
}

abbrev setting : Setting
setting = record {
  execute = 2;
  load = 4;
  store = 8;
  load_capability = 16;
  store_capability = 32;
  sizeof_pointer = 16;
  include_xfail = true;
  have_malloc_usable_size = true;
  slow_tests = false;
}

-- The last byte of a block of calloc is left as 255.
abbrev careless : (h : ℕ) → Capability → ℕ → ℕ
careless h c i = if i + 1 == c.length then 255 else 0

libc_malloc-AgreesButLast_example :
    libc_malloc counting setting 0 ≡ libc_malloc (record counting { byte = careless }) setting 0
libc_malloc-AgreesButLast_example =
    libc_malloc-AgreesButLast counting setting careless (λ n h i l. ground arith) 0

record Bounds : Type 0 where
  base : ℕ
  length : ℕ
  offset : ℕ

abbrev bounds_builtins : CursorBuiltins
bounds_builtins = record {
  Cap = Bounds;
  to_cap = λ p. record { base = 0; length = 2 ^ 64; offset = p };
  from_cap = λ c. (c.base + c.offset) % 2 ^ 64;
  bounds_set = λ c n. record { base = (c.base + c.offset) % 2 ^ 64; length = n; offset = 0 };
  offset_increment = λ c o. record c { offset = (c.offset + o) % 2 ^ 64 };
  offset_set = λ c o. record c { offset = o % 2 ^ 64 };
  base_get = λ c. c.base;
  offset_get = λ c. c.offset;
  length_get = λ c. c.length;
}

bounds_builtins-CursorLaws : CursorLaws bounds_builtins
bounds_builtins-CursorLaws = record {
  from_cap-to_cap = λ p h. omega (arith, h);
  from_cap-address = λ c. refl;
  base_get-bounds_set = λ c n. refl;
  offset_get-bounds_set = λ c n. refl;
  length_get-bounds_set = λ c n. refl;
  base_get-increment = λ c o. refl;
  offset_get-increment = λ c o. refl;
  length_get-increment = λ c o. refl;
  offset_get-set = λ c o. refl;
}

clang_hybrid_cursor-passes_example :
    (m' : ℕ → ℕ) × (clang_hybrid_cursor bounds_builtins 0x4000 (λ p. 7) ≡ ok m')
clang_hybrid_cursor-passes_example =
    clang_hybrid_cursor-passes bounds_builtins bounds_builtins-CursorLaws 0x4000 (omega arith)
      (λ p. 7)
