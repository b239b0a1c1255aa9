-- ===== src/Tools/Select/Names.antt =====
-- select_init.c: what the file name of a test asks for.
use cheritest.Common.{◌≡◌, refl, Bool, true, false, not, ◌&&◌, ◌||◌, if◌then◌else◌}
use cheritest.Common.Text.{Text, codes, contains}
use cheritest.Tools.Select.{
  BuildKind, build_uncached, build_cached, build_uncached_multi, build_cached_multi, build_of,
}

-- Whether the caches are on, and whether the test runs on several cores.
abbrev pub is_cached : BuildKind → Bool
is_cached build_cached = true
is_cached build_cached_multi = true
is_cached _ = false

abbrev pub is_multi : BuildKind → Bool
is_multi build_uncached_multi = true
is_multi build_cached_multi = true
is_multi _ = false

-- Whether the name asks for caches: the ending of cached multicore tests stands in it, or that of
-- cached tests and not that of multicore tests.
abbrev pub asks_cached : Text → Bool
asks_cached name =
    contains name (codes "_cachedmulti.elf")
    || (contains name (codes "_cached.elf") && not (contains name (codes "_multi.elf")))

-- Whether it asks for several cores: one of the two endings of multicore tests stands in it.
abbrev pub asks_multi : Text → Bool
asks_multi name = contains name (codes "_multi.elf") || contains name (codes "_cachedmulti.elf")

pub build_of-is_cached : (name : Text) → is_cached (build_of name) ≡ asks_cached name
unfolding build_of
build_of-is_cached name =
    by_cases (contains name (codes "_cachedmulti.elf")) (contains name (codes "_multi.elf"))
      (contains name (codes "_cached.elf"))
  where
    by_cases :
        (x y z : Bool)
        → is_cached (
            if x
            then build_cached_multi
            else if y
            then build_uncached_multi
            else if z
            then build_cached
            else build_uncached)
          ≡ (x || (z && not y))
    by_cases true y z = refl
    by_cases false true true = refl
    by_cases false true false = refl
    by_cases false false true = refl
    by_cases false false false = refl

pub build_of-is_multi : (name : Text) → is_multi (build_of name) ≡ asks_multi name
unfolding build_of
build_of-is_multi name =
    by_cases (contains name (codes "_cachedmulti.elf")) (contains name (codes "_multi.elf"))
      (contains name (codes "_cached.elf"))
  where
    by_cases :
        (x y z : Bool)
        → is_multi (
            if x
            then build_cached_multi
            else if y
            then build_uncached_multi
            else if z
            then build_cached
            else build_uncached)
          ≡ (y || x)
    by_cases true true z = refl
    by_cases true false z = refl
    by_cases false true z = refl
    by_cases false false true = refl
    by_cases false false false = refl
