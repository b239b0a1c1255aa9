-- ===== src/Tools/Tests.antt =====
-- The tools on concrete inputs.
use cheritest.Common.{
  ℕ, ◌+◌, ◌^◌, ◌<◌, ◌≡◌, ◌↔◌, ◌∙◌, inl, refl, ◌||◌, Option, none, some, List, [], ◌∷◌, ◌++◌, set,
  replicate, length, ok, fault, arith, if◌then◌else◌,
}
use mathlib.Core.List.{append_assoc, append-nil}
use cheritest.Common.Int.{pos}
use cheritest.Common.Text.{Text, codes, text_eq, starts_with, contains, strstr, rindex, lacks-Lacks}
use cheritest.Common.Numerals.{print_hex, print_int}
use cheritest.Tools.Select.{select_init, print_objects, objdir_of, Command, build_of}
use cheritest.Tools.Select.Correct.{select_init-IsCommandFor, IsCommandFor}
use cheritest.Tools.Cycles.{max_cycles, in_families, max_cycles-families}
use cheritest.Tools.Fuzz.{
  fuzz_fpu, prologue, epilogue, random_word, IsFloat, AllFloats, random_word_range,
  fuzz_fpu-AllFloats,
}
use cheritest.Tools.Gxemul.{Dump, read_line}
use cheritest.Tools.Gxemul.Correct.{line_of, read_line-set, read_line-fault}
use cheritest.Tools.L3.{convert_line, padded, convert_line-register}
use cheritest.Tools.Report.{Xml, Element, atoi, add_children, xmlcat}
use cheritest.Tools.Report.Twice.{xmlcat_twice}

select_init-IsCommandFor_example :
    (c : Command) × (select_init ((codes "obj" ++ 0x2f ∷ codes "test_raw_reg_cached.elf") ∷ [])
      ≡ some (c.script ++ print_objects (objdir_of []) c.objects))
    × IsCommandFor (codes "test_raw_reg_cached.elf") c
select_init-IsCommandFor_example =
    select_init-IsCommandFor (codes "obj") (codes "test_raw_reg_cached.elf") []
      (lacks-Lacks 0x2f (codes "test_raw_reg_cached.elf") refl)

-- The whole output for this test.
select_init_raw_cached :
    select_init (codes "obj/test_raw_reg_cached.elf" ∷ [])
    ≡ some (codes "-Traw_cached.ld obj/init_cached.o\n")
unfolding select_init build_of starts_with contains strstr rindex
select_init_raw_cached = refl

max_cycles-families_example :
    max_cycles ((codes "log" ++ 0x2f ∷ codes "test_mc_addr.log") ∷ codes "5" ∷ codes "9" ∷ [])
    ≡ some (
        (if in_families (codes "test_mc_addr.log")
            || text_eq (codes "test_mc_addr.log") (codes "test_clang_dhrystone_ipc.log")
          then codes "9"
          else codes "5")
        ++ codes "\n")
max_cycles-families_example =
    max_cycles-families (codes "log") (codes "test_mc_addr.log") (codes "5") (codes "9") []
      (lacks-Lacks 0x2f (codes "test_mc_addr.log") refl)

max_cycles_long :
    max_cycles (codes "log/test_mc_addr.log" ∷ codes "5" ∷ codes "9" ∷ []) ≡ some (codes "9\n")
unfolding max_cycles text_eq rindex
max_cycles_long = refl

random_word_range_example :
    IsFloat 0x46200000 ↔ ((r : ℕ) × (r < 2 ^ 31) × (random_word r ≡ 0x46200000))
random_word_range_example = random_word_range 0x46200000

fuzz_fpu-AllFloats_example :
    (ls : List Text) × (fuzz_fpu (λ i. i) ≡ prologue ++ (ls ++ epilogue))
    × (length ls ≡ 1024)
    × AllFloats ls
fuzz_fpu-AllFloats_example = fuzz_fpu-AllFloats (λ i. i)

abbrev no_dump : Dump
no_dump = record { pc = 0; reg = replicate 32 0 }

read_line-set_example :
    read_line
      (line_of 3
        (codes "a0 = 0x")
        (print_hex 16 5 (codes "  s4 = " ++ (codes "0x" ++ print_hex 16 9 (codes "\n")))))
      no_dump
    ≡ ok (record no_dump { reg = set (set no_dump.reg (3 + 1) 5) (3 + 17) 9 })
read_line-set_example =
    read_line-set 3 3 (codes "a0 = 0x") 5 (codes "  s4 = ") 9 (codes "\n") no_dump refl
      (omega arith) (omega arith) (lacks-Lacks 0x78 (codes "  s4 = ") refl) refl refl

read_line-fault_example :
    read_line (line_of 3 (codes "a0 = 0x") (print_hex 16 5 (codes "\n"))) no_dump ≡ fault
read_line-fault_example =
    read_line-fault 3 3 (codes "a0 = 0x") 5 (codes "\n") no_dump refl (omega arith) (refl, tt)

convert_line-register_example :
    convert_line (codes "Reg " ++ (0x20 ∷ 0x37 ∷ 0x20 ∷ codes "00ff")) (pos 0)
    ≡ ok (
      codes "DEBUG MIPS REG "
          ++ (padded (print_int (pos 7) []) ++ (codes " 0x" ++ (codes "00ff" ++ codes "\n"))),
      pos 0,
    )
convert_line-register_example =
    convert_line-register 7 0x20 0x37 0x20 (codes "00ff") (pos 0) (inl (omega arith, refl, refl))
      (lacks-Lacks 0x2d (codes " 00ff") refl)

-- A library whose nodes are numbers, and the report merged from two files.
abbrev tiny_xml : Xml
tiny_xml = record { Node = ℕ; copy_node = λ n. n; add_child = λ ns n. ns ++ n ∷ [] }

abbrev report : Text → Text → List ℕ → Element tiny_xml
report tests skip children = record {
  name = codes "testsuite";
  attrs =
      record { name = codes "tests"; content = some tests }
      ∷ record { name = codes "skip"; content = some skip }
      ∷ [];
  children = children;
}

abbrev both : Element tiny_xml
both = record {
  name = codes "testsuite";
  attrs =
      record { name = codes "name"; content = some (codes "nosetests") }
      ∷ record { name = codes "tests"; content = some (codes "42") }
      ∷ record { name = codes "failures"; content = some (codes "0") }
      ∷ record { name = codes "errors"; content = some (codes "0") }
      ∷ record { name = codes "skip"; content = some (codes "3") }
      ∷ [];
  children = 1 ∷ 2 ∷ 3 ∷ [];
}

abbrev read_report : Text → Option (Option (Element tiny_xml))
read_report name =
    if text_eq name (codes "a")
    then some (some (report (codes "12") (codes "3") (1 ∷ 2 ∷ [])))
    else if text_eq name (codes "b")
    then some (some (report (codes " +30") (codes "0") (3 ∷ [])))
    else if text_eq name (codes "ab")
    then some (some both)
    else none

add_children_tiny : (cs out : List ℕ) → add_children tiny_xml cs out ≡ out ++ cs
unfolding add_children
add_children_tiny [] out = simp append-nil
add_children_tiny (c ∷ cs) out = add_children_tiny cs (out ++ c ∷ []) ∙ simp append_assoc

readd_tiny :
    (cs : List ℕ)
    → add_children tiny_xml (add_children tiny_xml cs []) [] ≡ add_children tiny_xml cs []
readd_tiny cs = simp (add_children_tiny)

merged_both : xmlcat tiny_xml read_report (codes "a" ∷ codes "b" ∷ []) ≡ ok (some both)
unfolding xmlcat atoi
merged_both = refl

xmlcat_twice_example :
    xmlcat tiny_xml read_report (codes "ab" ∷ codes "a" ∷ [])
    ≡ xmlcat tiny_xml read_report ((codes "a" ∷ codes "b" ∷ []) ++ codes "a" ∷ [])
unfolding text_eq
xmlcat_twice_example =
    xmlcat_twice tiny_xml read_report readd_tiny (codes "a" ∷ codes "b" ∷ []) (codes "a" ∷ [])
      (codes "ab") both merged_both refl
