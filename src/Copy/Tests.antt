-- ===== src/Copy/Tests.antt =====
-- The copying functions at concrete blocks, and their theorems at inputs that meet the hypotheses.
use cheritest.Common.{
  Run, ok, fault, hung, ℕ, ◌%◌, ◌==◌, Bool, true, false, ◌≡◌, refl, inl, inr, arith, List, [], ◌∷◌,
  map,
}
use cheritest.Ctests.Memory.{Memory}
use cheritest.Copy.{
  Variant, Bounds, memmove, memcpy, copy, copy_forward, copy_backward, align_up, align_up_count,
  align_up_words, align_up_words_count, pointers_up, trail_up, align_down, align_down_count,
  align_down_words, align_down_words_count, pointers_down, trail_down, misaligned, mismatched,
  copy_unit, do_loop, mips_loop, step_up, step_down,
}
use cheritest.Copy.Correct.{block_bounds, block_copy, copy_overlap, copy_apart}

abbrev counting : Memory
counting = record { byte = λ a. a % 251; tag = λ g. g % 32 == 0 }

-- A copy of 50 bytes that overlaps its source from above, with capabilities of 16 bytes.
copy_overlap_example :
    copy memmove (block_bounds 1013 1005 50) 16 1013 1005 50 counting
    ≡ ok (block_copy 16 1013 1005 50 counting)
copy_overlap_example =
    copy_overlap memmove (block_bounds 1013 1005 50) 16 1013 1005 50 counting (inr (inl refl))
      (omega arith) (omega arith) (omega arith) refl

copy_apart_example :
    copy memcpy (block_bounds 2003 1003 100) 32 2003 1003 100 counting
    ≡ ok (block_copy 32 2003 1003 100 counting)
copy_apart_example =
    copy_apart memcpy (block_bounds 2003 1003 100) 32 2003 1003 100 counting (inr (inr refl))
      (omega arith) (omega arith) (omega arith) (inr (inl (omega arith)))

-- The bytes at some addresses after a run.
abbrev peek : List ℕ → Run Memory → List ℕ
peek at (ok m) = map m.byte at
peek at fault = []
peek at hung = []

run_within : Variant → Bounds → (psize dst src length : ℕ) → Memory → Run Memory
unfolding copy copy_forward copy_backward align_up align_up_count align_up_words
    align_up_words_count pointers_up trail_up align_down align_down_count align_down_words
    align_down_words_count pointers_down trail_down misaligned mismatched copy_unit do_loop
    mips_loop step_up step_down
run_within = copy

abbrev run : Variant → (psize dst src length : ℕ) → Memory → Run Memory
run v psize d s n = run_within v (block_bounds d s n) psize d s n

-- A block that is one byte longer than the bounds of its capability.
memmove_beyond : run_within memmove (block_bounds 1013 1005 49) 16 1013 1005 50 counting ≡ fault
unfolding run_within
memmove_beyond = refl

memmove_runs :
    peek (1012 ∷ 1013 ∷ 1062 ∷ 1063 ∷ []) (run memmove 16 1013 1005 50 counting)
    ≡ 8 ∷ 1 ∷ 50 ∷ 59 ∷ []
unfolding run_within
memmove_runs = refl

-- Where the destination starts inside the source, memcpy repeats the bytes before it.
memcpy_overlap_runs :
    peek (1005 ∷ 1006 ∷ 1007 ∷ 1008 ∷ []) (run memcpy 16 1006 1005 7 counting) ≡ 1 ∷ 1 ∷ 1 ∷ 1 ∷ []
unfolding run_within
memcpy_overlap_runs = refl

-- The tags of some places after a run.
abbrev peek_tags : List ℕ → Run Memory → List Bool
peek_tags at (ok m) = map m.tag at
peek_tags at fault = []
peek_tags at hung = []

-- A copy at the same alignment takes the tags along, but for the places that it only touches.
memmove_tags :
    peek_tags (2000 ∷ 2016 ∷ 2032 ∷ 2048 ∷ []) (run memmove 16 2010 1002 40 counting)
    ≡ false ∷ false ∷ true ∷ false ∷ []
unfolding run_within
memmove_tags = refl
