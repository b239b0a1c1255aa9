-- ===== src/Tools/Select/Correct.antt =====
-- select_init.c: the command suits the name of the test.
use cheritest.Common.{
  ◌≡◌, refl, Bool, true, false, some, List, [], ◌∷◌, ◌++◌, if◌then◌else◌, ap, subst, arith,
}
use cheritest.Common.Text.{Text, codes, starts_with, rindex-append, Lacks}
use cheritest.Tools.Select.{
  BuildKind, slash, base_name, build_of, Command, raw_mc_command, raw_command, purecap_command,
  test_command, command, print_objects, objdir_of, select_init,
}
use cheritest.Tools.Select.Names.{
  is_cached, is_multi, asks_cached, asks_multi, build_of-is_cached, build_of-is_multi,
}
use cheritest.Tools.Select.Tables.{
  IsCommandOf, raw_mc-IsCommandOf, raw-IsCommandOf, purecap-IsCommandOf, test-IsCommandOf,
}

-- What stands before the last slash does not matter.
pub base_name-append : (dir name : Text) → Lacks slash name → base_name (dir ++ slash ∷ name) ≡ name
unfolding base_name
base_name-append dir name h = rw (base_name, rindex-append slash dir name h) refl

-- A raw test has no code of the library around it.
abbrev pub is_raw : Text → Bool
is_raw cp = starts_with cp (codes "test_raw_")

choice-IsCommandOf :
    (m r p : Bool) (b : BuildKind)
    → (m ≡ true → r ≡ true)
    → IsCommandOf (is_cached b) (is_multi b) m r p (
        if m
        then raw_mc_command b
        else if r
        then raw_command b
        else if p
        then purecap_command b
        else test_command b)
choice-IsCommandOf true true p b h = raw_mc-IsCommandOf p b
choice-IsCommandOf true false p b h = let e : false ≡ true = h refl in cc
choice-IsCommandOf false true p b h = raw-IsCommandOf p b
choice-IsCommandOf false false true b h = purecap-IsCommandOf b
choice-IsCommandOf false false false b h = test-IsCommandOf b

-- A name that starts as a longer text starts as every beginning of it.
starts_with-append : (s t u : Text) → starts_with s (t ++ u) ≡ true → starts_with s t ≡ true
unfolding starts_with
starts_with-append s [] u h = refl
starts_with-append [] (d ∷ t) u h = h
starts_with-append (c ∷ s) (d ∷ t) u h = ground (arith, starts_with-append s t u)

-- What the name asks for.
abbrev pub IsCommandFor : Text → Command → Type 0
IsCommandFor name =
    IsCommandOf (asks_cached name) (asks_multi name) (starts_with name (codes "test_raw_mc_"))
      (is_raw name) (starts_with name (codes "test_purecap_"))

command-IsCommandFor : (name : Text) → IsCommandFor name (command name)
unfolding command
command-IsCommandFor name =
    subst
      (λ x.
        IsCommandOf x (asks_multi name) (starts_with name (codes "test_raw_mc_")) (is_raw name)
          (starts_with name (codes "test_purecap_")) (command name))
      (build_of-is_cached name)
      (subst
        (λ y.
          IsCommandOf (is_cached (build_of name)) y (starts_with name (codes "test_raw_mc_"))
            (is_raw name) (starts_with name (codes "test_purecap_")) (command name))
        (build_of-is_multi name)
        (choice-IsCommandOf (starts_with name (codes "test_raw_mc_")) (is_raw name)
          (starts_with name (codes "test_purecap_")) (build_of name)
          (starts_with-append name (codes "test_raw_") (codes "mc_"))))

-- For a path whose last part is the name, the output is an option for a linker script and objects
-- of the object directory that suit what stands in the name. The script is the one for the kind of
-- test, raw, for pure capabilities or neither, with caches exactly if the name contains
-- "_cachedmulti.elf", or "_cached.elf" and not "_multi.elf". The multicore start code is linked, and
-- the script is one for several cores, exactly for raw tests whose name contains one of the two
-- multicore endings and that do not handle the cores themselves; the start code for caches is linked exactly into
-- the other tests with caches. Tests that are not raw, and no others, get the library of their kind.
pub select_init-IsCommandFor :
    (dir name : Text) (rest : List Text)
    → Lacks slash name
    → (c : Command) × (select_init ((dir ++ slash ∷ name) ∷ rest)
        ≡ some (c.script ++ print_objects (objdir_of rest) c.objects))
      × IsCommandFor name c
unfolding select_init
select_init-IsCommandFor dir name rest h = (
  command name,
  ap (λ b. some ((command b).script ++ print_objects (objdir_of rest) (command b).objects))
      (base_name-append dir name h),
  command-IsCommandFor name,
)
