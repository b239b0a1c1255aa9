-- ===== src/Tools/Select.antt =====
-- select_init.c: the linker script and the objects that a test is linked with, from its file name.
pub mod Correct
pub mod Names
pub mod Tables
use cheritest.Common.{
  ℕ, ◌≡◌, refl, Bool, true, false, not, ◌&&◌, ◌||◌, Option, none, some, List, [], ◌∷◌, ◌++◌, drop,
  if◌then◌else◌, Bool-cases, inl, inr, ◌==◌, ap, sym, ◌∙◌, arith,
}
use cheritest.Common.Text.{
  Text, codes, text_eq, starts_with, contains, rindex, rindex-append, rindex-Lacks, Lacks, strstr,
}

pub data BuildKind : Type 0 where
  build_uncached build_cached build_uncached_multi build_cached_multi : BuildKind

abbrev pub slash : ℕ
slash = 0x2f

-- `rindex`, then the character after the slash.
unfoldable pub base_name : Text → Text
base_name path = elim (rindex path slash) [ none ↦ path | some r ↦ drop 1 r ]

-- The tests of the name by `strstr`, in their order.
unfoldable pub build_of : (cp : Text) → BuildKind
build_of cp =
    if contains cp (codes "_cachedmulti.elf")
    then build_cached_multi
    else if contains cp (codes "_multi.elf")
    then build_uncached_multi
    else if contains cp (codes "_cached.elf")
    then build_cached
    else build_uncached

-- An option of the linker and the objects, which stand in `objdir`.
pub record Command : Type 0 where
  pub script : Text
  pub objects : List Text

-- The switches of the four branches, for raw multicore tests, raw tests, pure-capability tests and
-- all others.
abbrev pub raw_mc_command : BuildKind → Command
raw_mc_command build_uncached = record { script = codes "-Traw.ld"; objects = [] }
raw_mc_command build_cached = record {
  script = codes "-Traw_cached.ld";
  objects = codes "init_cached.o" ∷ [];
}
raw_mc_command build_uncached_multi = record { script = codes "-Traw.ld"; objects = [] }
raw_mc_command build_cached_multi = record {
  script = codes "-Traw_cached.ld";
  objects = codes "init_cached.o" ∷ [];
}

abbrev pub raw_command : BuildKind → Command
raw_command build_uncached = record { script = codes "-Traw.ld"; objects = [] }
raw_command build_cached = record {
  script = codes "-Traw_cached.ld";
  objects = codes "init_cached.o" ∷ [];
}
raw_command build_uncached_multi = record {
  script = codes "-Traw_multi.ld";
  objects = codes "init_multi.o" ∷ [];
}
raw_command build_cached_multi = record {
  script = codes "-Traw_cachedmulti.ld";
  objects = codes "init_multi.o" ∷ [];
}

-- The text that `asprintf` makes.
abbrev pub purecap_init_objs : List Text
purecap_init_objs =
    codes "purecap_init.o" ∷ codes "purecap_crt_init_globals.o" ∷ codes "purecap_lib.o" ∷ []

abbrev pub purecap_command : BuildKind → Command
purecap_command build_uncached = record {
  script = codes "-Ttest_purecap.ld";
  objects = purecap_init_objs;
}
purecap_command build_cached = record {
  script = codes "-Ttest_purecap_cached.ld";
  objects = codes "purecap_init_cached.o" ∷ purecap_init_objs;
}
purecap_command build_uncached_multi = record {
  script = codes "-Ttest_purecap.ld";
  objects = purecap_init_objs;
}
purecap_command build_cached_multi = record {
  script = codes "-Ttest_purecap_cached.ld";
  objects = codes "purecap_init_cached.o" ∷ purecap_init_objs;
}

abbrev pub test_command : BuildKind → Command
test_command build_uncached = record {
  script = codes "-Ttest.ld";
  objects = codes "init.o" ∷ codes "lib.o" ∷ [];
}
test_command build_cached = record {
  script = codes "-Ttest_cached.ld";
  objects = codes "init_cached.o" ∷ codes "init.o" ∷ codes "lib.o" ∷ [];
}
test_command build_uncached_multi = record {
  script = codes "-Ttest.ld";
  objects = codes "init.o" ∷ codes "lib.o" ∷ [];
}
test_command build_cached_multi = record {
  script = codes "-Ttest_cached.ld";
  objects = codes "init_cached.o" ∷ codes "init.o" ∷ codes "lib.o" ∷ [];
}

unfoldable pub command : (cp : Text) → Command
unfolding build_of
command cp =
    if starts_with cp (codes "test_raw_mc_")
    then raw_mc_command (build_of cp)
    else if starts_with cp (codes "test_raw_")
    then raw_command (build_of cp)
    else if starts_with cp (codes "test_purecap_")
    then purecap_command (build_of cp)
    else test_command (build_of cp)

-- " %s/<object>" for each object.
unfoldable pub print_objects : (objdir : Text) → List Text → Text
print_objects objdir [] = codes "\n"
print_objects objdir (o ∷ os) = codes " " ++ (objdir ++ (slash ∷ (o ++ print_objects objdir os)))

abbrev pub objdir_of : (rest : List Text) → Text
objdir_of [] = codes "obj"
objdir_of (d ∷ ds) = d

-- The output for the arguments after the program's name; none if there are none, where the program
-- prints how it is used and fails.
unfoldable pub select_init : (args : List Text) → Option Text
unfolding base_name command print_objects
select_init [] = none
select_init (file ∷ rest) =
    let c = command (base_name file) in some (c.script ++ print_objects (objdir_of rest) c.objects)
