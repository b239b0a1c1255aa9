-- ===== src/Ctests/Copies.antt =====
-- The tests of memcpy, memmove and qsort on functions that keep their promise: those of memcpy.c, and
-- tables that are sorted.
use cheritest.Common.{
  ℕ, ◌+◌, ◌-◌, ◌*◌, ◌/◌, ◌%◌, ◌^◌, ◌<◌, ◌≡◌, inl, refl, true, false, ◌&&◌, ltb, leb, if◌then◌else◌,
  List, [], ◌∷◌, ok, arith,
}
use cheritest.Common.Text.{codes}
use cheritest.Ctests.Memory.{Memory, Layout, IsLayout}
use cheritest.Ctests.Memcpy.{libc_memcpy, check, invalidate}
use cheritest.Copy.Correct.{block_bounds}
use cheritest.Copy.{memcpy, memmove, cmemcpy_c}
use cheritest.Ctests.Memcpy.Refine.{AllCovered, compiled, compiled-IsMemcpy, compiled-IsMemmove}
use cheritest.Ctests.Memcpy.Hybrid.{clang_hybrid_memcpy, clang_hybrid_memmove, clang_hybrid_bcopy}
use cheritest.Ctests.Memcpy.Hybrid.Correct.{hybrid-passes}
use cheritest.Ctests.Memcpy.Laws.{IsMemcpy}
use cheritest.Ctests.Memcpy.Frame.{check-invalidate}
use cheritest.Ctests.Memcpy.Correct.{libc_memcpy-passes}
use cheritest.Ctests.Memmove.{libc_memmove, libc_memmove-passes, IsStart}
use cheritest.Ctests.Qsort.{
  StringPointer, DictEntry, literal, array, array1, strcmp, compare_strings, compare1, libc_qsort,
  IsSorting,
}
use cheritest.Ctests.Qsort.Correct.{libc_qsort-passes}

block_bounds-AllCovered : AllCovered block_bounds
block_bounds-AllCovered d s n = omega arith

-- A capability of 16 bytes with its address in the low eight.
abbrev layout : Layout
layout = record {
  psize = 16;
  encode = λ a i. a / 256 ^ i % 256;
  decode = λ f.
      f 0
      + (256 * f 1
          + (256 ^ 2 * f 2
              + (256 ^ 3 * f 3
                  + (256 ^ 4 * f 4 + (256 ^ 5 * f 5 + (256 ^ 6 * f 6 + 256 ^ 7 * f 7))))));
}

layout-IsLayout : IsLayout layout
layout-IsLayout = record {
  size = inl refl;
  decode-encode = λ bytes a h e. omega (
    arith,
    h,
    e 0 (omega arith),
    e 1 (omega arith),
    e 2 (omega arith),
    e 3 (omega arith),
    e 4 (omega arith),
    e 5 (omega arith),
    e 6 (omega arith),
    e 7 (omega arith),
  );
}

abbrev empty_memory : Memory
empty_memory = record { byte = λ a. 0; tag = λ g. false }

libc_memcpy-passes_example :
    (m' : Memory) × (libc_memcpy layout (compiled block_bounds memcpy 16) 0x100 0x200 empty_memory
      ≡ ok m')
libc_memcpy-passes_example =
    libc_memcpy-passes layout layout-IsLayout (compiled block_bounds memcpy 16)
      (compiled-IsMemcpy layout (inl refl) block_bounds block_bounds-AllCovered memcpy) 0x100 0x200
      refl refl (inl (omega arith)) (omega arith) (omega arith) empty_memory

compiled-IsMemcpy_example : IsMemcpy layout (compiled block_bounds cmemcpy_c 16)
compiled-IsMemcpy_example =
    compiled-IsMemcpy layout (inl refl) block_bounds block_bounds-AllCovered cmemcpy_c

hybrid-passes_example :
    ((m' : Memory) × (clang_hybrid_memcpy layout block_bounds 0x100 0x200 empty_memory ≡ ok m'))
    × ((m' : Memory) × (clang_hybrid_memmove layout block_bounds 0x100 0x200 empty_memory ≡ ok m'))
    × ((m' : Memory) × (clang_hybrid_bcopy layout block_bounds 0x100 0x200 empty_memory ≡ ok m'))
hybrid-passes_example =
    hybrid-passes layout layout-IsLayout block_bounds block_bounds-AllCovered 0x100 0x200 refl refl
      (inl (omega arith)) (omega arith) (omega arith) empty_memory

check-invalidate_example :
    check layout 0x200 3 29 (invalidate layout 0x200 empty_memory)
    ≡ check layout 0x200 3 29 empty_memory
check-invalidate_example =
    check-invalidate layout 0x200 3 29 empty_memory refl (omega arith) (omega arith)

-- Digits at 0x1000, and ten pointers to them at 0x2000.
abbrev pointers_to_digits : Memory
pointers_to_digits = record {
  byte = λ a.
      if leb 0x2000 a && ltb a (0x2000 + 160)
      then layout.encode (0x1000 + (a - 0x2000) / 16) ((a - 0x2000) % 16)
      else 0x30 + (a - 0x1000);
  tag = λ g. true;
}

entry_byte :
    (encode : (address i : ℕ) → ℕ) (i j : ℕ)
    → i < 10
    → j < 16
    → (if leb 0x2000 (0x2000 + i * 16 + j) && ltb (0x2000 + i * 16 + j) (0x2000 + 160)
        then encode
            (0x1000 + (0x2000 + i * 16 + j - 0x2000) / 16)
            ((0x2000 + i * 16 + j - 0x2000) % 16)
        else 0x30 + (0x2000 + i * 16 + j - 0x1000))
      ≡ encode (0x1000 + i) j
entry_byte encode i j h k = grind (arith, index, offset)
  where
    index : (0x2000 + i * 16 + j - 0x2000) / 16 ≡ i
    index = omega arith

    offset : (0x2000 + i * 16 + j - 0x2000) % 16 ≡ j
    offset = omega arith

pointers_to_digits-IsStart : IsStart layout 0x1000 0x2000 pointers_to_digits
pointers_to_digits-IsStart = record {
  digits = λ i h. ground arith;
  pointers = λ i h j k. entry_byte layout.encode i j (omega (arith, h)) (omega (arith, k));
  tags = λ i h. refl;
}

libc_memmove-passes_example :
    (m' : Memory) × (libc_memmove layout
        (compiled block_bounds memmove 16)
        0x2000
        pointers_to_digits
      ≡ ok m')
libc_memmove-passes_example =
    libc_memmove-passes layout layout-IsLayout (compiled block_bounds memmove 16)
      (compiled-IsMemmove layout (inl refl) block_bounds block_bounds-AllCovered memmove refl)
      0x1000 0x2000 refl (omega arith) (omega arith) (inl (omega arith)) pointers_to_digits
      pointers_to_digits-IsStart

abbrev sorted_array : List StringPointer
sorted_array =
    literal (codes "a")
    ∷ literal (codes "b")
    ∷ literal (codes "c")
    ∷ literal (codes "d")
    ∷ literal (codes "e")
    ∷ literal (codes "f")
    ∷ literal (codes "g")
    ∷ []

abbrev sorted_array1 : List DictEntry
sorted_array1 =
    record { key = 0; value = literal (codes "a") }
    ∷ record { key = 1; value = literal (codes "b") }
    ∷ record { key = 2; value = literal (codes "c") }
    ∷ record { key = 3; value = literal (codes "d") }
    ∷ record { key = 4; value = literal (codes "e") }
    ∷ record { key = 5; value = literal (codes "f") }
    ∷ record { key = 6; value = literal (codes "g") }
    ∷ []

sorted_array-IsSorting : IsSorting compare_strings array sorted_array
unfolding strcmp compare_strings
sorted_array-IsSorting = record {
  kept = λ f. omega arith;
  ascending = (refl, (refl, (refl, (refl, (refl, (refl, record {}))))));
}

sorted_array1-IsSorting : IsSorting compare1 array1 sorted_array1
unfolding strcmp compare1
sorted_array1-IsSorting = record {
  kept = λ f. omega arith;
  ascending = (refl, (refl, (refl, (refl, (refl, (refl, record {}))))));
}

libc_qsort-passes_example : libc_qsort (λ xs. sorted_array) (λ xs. sorted_array1) ≡ true
libc_qsort-passes_example =
    libc_qsort-passes (λ xs. sorted_array) (λ xs. sorted_array1) sorted_array-IsSorting
      sorted_array1-IsSorting
