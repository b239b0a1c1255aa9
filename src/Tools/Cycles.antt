-- ===== src/Tools/Cycles.antt =====
-- max_cycles.c: for how many cycles a test runs, from its name.
use cheritest.Common.{
  ◌≡◌, refl, Bool, true, false, ◌||◌, Option, none, some, List, [], ◌∷◌, ◌++◌, if◌then◌else◌,
}
use mathlib.Core.Bool.{or_assoc, or-false}
use cheritest.Common.Text.{Text, codes, text_eq, Lacks}
use cheritest.Tools.Select.{base_name, slash}
use cheritest.Tools.Select.Correct.{base_name-append}

-- The comparisons of the name, in their order.
unfoldable pub is_long : (cp : Text) → Bool
unfolding text_eq
is_long cp =
    text_eq cp (codes "test_tlb_exception_fill.log")
    || (text_eq cp (codes "test_tlb_exception_fill_cached.log")
        || (text_eq cp (codes "test_tlb_exception_fill_multi.log")
            || (text_eq cp (codes "test_tlb_exception_fill_cachedmulti.log")
                || (text_eq cp (codes "test_cp2_tlb_exception_fill.log")
                    || (text_eq cp (codes "test_cp2_tlb_exception_fill_cached.log")
                        || (text_eq cp (codes "test_cp2_tlb_exception_fill_multi.log")
                            || (text_eq cp (codes "test_cp2_tlb_exception_fill_cachedmulti.log")
                                || (text_eq cp (codes "test_mc_llsc.log")
                                    || (text_eq cp (codes "test_mc_llsc_cached.log")
                                        || (text_eq cp (codes "test_mc_llsc_multi.log")
                                            || (text_eq cp (codes "test_mc_llsc_cachedmulti.log")
                                                || (text_eq cp (codes "test_mc_llsc_alias.log")
                                                    || (text_eq cp
                                                          (codes "test_mc_llsc_alias_cached.log")
                                                        || (text_eq cp
                                                            (codes "test_mc_llsc_alias_multi.log")
                                                            || (text_eq cp (
                                                            codes
                                                            "test_mc_llsc_alias_cachedmulti.log")
                                                            || (text_eq cp
                                                            (codes "test_mc_tag_coherence.log")
                                                            || (text_eq cp (
                                                            codes
                                                            "test_mc_tag_coherence_cached.log")
                                                            || (text_eq cp (
                                                            codes "test_mc_tag_coherence_multi.log")
                                                            || (text_eq cp (
                                                            codes
                                                            "test_mc_tag_coherence_cachedmulti.log")
                                                            || (text_eq cp
                                                            (codes "test_mc_addr.log")
                                                            || (text_eq cp
                                                            (codes "test_mc_addr_cached.log")
                                                            || (text_eq cp
                                                            (codes "test_mc_addr_multi.log")
                                                            || (text_eq cp
                                                            (codes "test_mc_addr_cachedmulti.log")
                                                            || (text_eq cp
                                                            (codes "test_clang_memcpy.log")
                                                            || (text_eq cp
                                                            (codes "test_clang_memcpy_cached.log")
                                                            || (text_eq cp
                                                            (codes "test_clang_memcpy_multi.log")
                                                            || (text_eq cp (
                                                            codes
                                                            "test_clang_memcpy_cachedmulti.log")
                                                            || (text_eq cp (
                                                            codes
                                                            "test_clang_dhrystone_ipc.log")))))))))))))))))))))))))))))

-- The output for the arguments after the program's name; none if there are too few, where the
-- program prints how it is used and fails.
unfoldable pub max_cycles : (args : List Text) → Option Text
unfolding is_long base_name
max_cycles (file ∷ short ∷ long ∷ rest) =
    if is_long (base_name file) then some (long ++ codes "\n") else some (short ++ codes "\n")
max_cycles _ = none

-- The long tests, by the family and the variant of the build.
abbrev pub families : List Text
families =
    codes "tlb_exception_fill"
    ∷ codes "cp2_tlb_exception_fill"
    ∷ codes "mc_llsc"
    ∷ codes "mc_llsc_alias"
    ∷ codes "mc_tag_coherence"
    ∷ codes "mc_addr"
    ∷ codes "clang_memcpy"
    ∷ []

abbrev pub variants : List Text
variants = [] ∷ codes "_cached" ∷ codes "_multi" ∷ codes "_cachedmulti" ∷ []

abbrev pub any : (Text → Bool) → List Text → Bool
any p [] = false
any p (x ∷ xs) = p x || any p xs

abbrev pub log_name : Text → Text → Text
log_name family variant = codes "test_" ++ (family ++ (variant ++ codes ".log"))

abbrev pub in_families : Text → Bool
in_families cp = any (λ f. any (λ v. text_eq cp (log_name f v)) variants) families

is_long-families :
    (cp : Text) → is_long cp ≡ (in_families cp || text_eq cp (codes "test_clang_dhrystone_ipc.log"))
unfolding is_long
is_long-families cp = simp (or_assoc, or-false)

if_append :
    (b c : Bool) (s t u : Text)
    → b ≡ c
    → (if b then some (s ++ u) else some (t ++ u)) ≡ some ((if c then s else t) ++ u)
if_append b true s t u e = rw e refl
if_append b false s t u e = rw e refl

-- The limit depends on the last part of the path only. It is the long one exactly for the tests of
-- the seven families, in all four variants of the build, and for the dhrystone test in one.
pub max_cycles-families :
    (dir name short long : Text) (rest : List Text)
    → Lacks slash name
    → max_cycles ((dir ++ slash ∷ name) ∷ short ∷ long ∷ rest)
      ≡ some (
          (if in_families name || text_eq name (codes "test_clang_dhrystone_ipc.log")
            then long
            else short)
          ++ codes "\n")
unfolding max_cycles
max_cycles-families dir name short long rest h =
    rw (base_name-append dir name h)
      (if_append (is_long name) _ long short (codes "\n") (is_long-families name))
