-- ===== src/Tools/Select/Tables.antt =====
-- select_init.c: the commands of its four switches.
use cheritest.Common.{
  ◌≡◌, refl, Bool, true, false, not, ◌&&◌, ◌||◌, List, [], ◌∷◌, ◌++◌, if◌then◌else◌,
}
use cheritest.Common.Text.{Text, codes, text_eq, starts_with, contains, strstr}
use cheritest.Tools.Select.{
  BuildKind, build_uncached, build_cached, build_uncached_multi, build_cached_multi, Command,
  raw_mc_command, raw_command, purecap_command, test_command,
}
use cheritest.Tools.Select.Names.{is_cached, is_multi}

abbrev pub links : Text → List Text → Bool
links o [] = false
links o (p ∷ ps) = text_eq p o || links o ps

-- The name of the linker script: the kind of test, then the caches, then the cores of a raw test that
-- does not handle them itself.
abbrev pub script_of : (cached start_multi raw purecap : Bool) → Text
script_of cached start_multi raw purecap =
    codes "-T"
    ++ (if raw then codes "raw" else if purecap then codes "test_purecap" else codes "test")
    ++ (if cached
        then (if start_multi then codes "_cachedmulti" else codes "_cached")
        else (if start_multi then codes "_multi" else []))
    ++ codes ".ld"

-- What a command must be for a test with caches or without, for several cores or one, that is raw
-- for several cores, raw, or for pure capabilities.
pub record IsCommandOf (cached multi mc raw purecap : Bool) (c : Command) : Type 0 where
  pub script : c.script ≡ script_of cached (multi && (raw && not mc)) raw purecap
  pub start_multi : links (codes "init_multi.o") c.objects ≡ (multi && (raw && not mc))
  pub start_cached :
      (links (codes "init_cached.o") c.objects || links (codes "purecap_init_cached.o") c.objects)
      ≡ (cached && not (multi && (raw && not mc)))
  pub library : links (codes "lib.o") c.objects ≡ (not raw && not purecap)
  pub purecap_library : links (codes "purecap_lib.o") c.objects ≡ (not raw && purecap)

pub raw_mc-IsCommandOf :
    (p : Bool) (b : BuildKind)
    → IsCommandOf (is_cached b) (is_multi b) true true p (raw_mc_command b)
unfolding contains strstr starts_with text_eq
raw_mc-IsCommandOf p build_uncached = record {
  script = refl;
  start_multi = refl;
  start_cached = refl;
  library = refl;
  purecap_library = refl;
}
raw_mc-IsCommandOf p build_cached = record {
  script = refl;
  start_multi = refl;
  start_cached = refl;
  library = refl;
  purecap_library = refl;
}
raw_mc-IsCommandOf p build_uncached_multi = record {
  script = refl;
  start_multi = refl;
  start_cached = refl;
  library = refl;
  purecap_library = refl;
}
raw_mc-IsCommandOf p build_cached_multi = record {
  script = refl;
  start_multi = refl;
  start_cached = refl;
  library = refl;
  purecap_library = refl;
}

pub raw-IsCommandOf :
    (p : Bool) (b : BuildKind) → IsCommandOf (is_cached b) (is_multi b) false true p (raw_command b)
unfolding contains strstr starts_with text_eq
raw-IsCommandOf p build_uncached = record {
  script = refl;
  start_multi = refl;
  start_cached = refl;
  library = refl;
  purecap_library = refl;
}
raw-IsCommandOf p build_cached = record {
  script = refl;
  start_multi = refl;
  start_cached = refl;
  library = refl;
  purecap_library = refl;
}
raw-IsCommandOf p build_uncached_multi = record {
  script = refl;
  start_multi = refl;
  start_cached = refl;
  library = refl;
  purecap_library = refl;
}
raw-IsCommandOf p build_cached_multi = record {
  script = refl;
  start_multi = refl;
  start_cached = refl;
  library = refl;
  purecap_library = refl;
}

pub purecap-IsCommandOf :
    (b : BuildKind) → IsCommandOf (is_cached b) (is_multi b) false false true (purecap_command b)
unfolding contains strstr starts_with text_eq
purecap-IsCommandOf build_uncached = record {
  script = refl;
  start_multi = refl;
  start_cached = refl;
  library = refl;
  purecap_library = refl;
}
purecap-IsCommandOf build_cached = record {
  script = refl;
  start_multi = refl;
  start_cached = refl;
  library = refl;
  purecap_library = refl;
}
purecap-IsCommandOf build_uncached_multi = record {
  script = refl;
  start_multi = refl;
  start_cached = refl;
  library = refl;
  purecap_library = refl;
}
purecap-IsCommandOf build_cached_multi = record {
  script = refl;
  start_multi = refl;
  start_cached = refl;
  library = refl;
  purecap_library = refl;
}

pub test-IsCommandOf :
    (b : BuildKind) → IsCommandOf (is_cached b) (is_multi b) false false false (test_command b)
unfolding contains strstr starts_with text_eq
test-IsCommandOf build_uncached = record {
  script = refl;
  start_multi = refl;
  start_cached = refl;
  library = refl;
  purecap_library = refl;
}
test-IsCommandOf build_cached = record {
  script = refl;
  start_multi = refl;
  start_cached = refl;
  library = refl;
  purecap_library = refl;
}
test-IsCommandOf build_uncached_multi = record {
  script = refl;
  start_multi = refl;
  start_cached = refl;
  library = refl;
  purecap_library = refl;
}
test-IsCommandOf build_cached_multi = record {
  script = refl;
  start_multi = refl;
  start_cached = refl;
  library = refl;
  purecap_library = refl;
}
