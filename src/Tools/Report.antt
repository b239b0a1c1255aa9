-- ===== src/Tools/Report.antt =====
-- xmlcat.c: several test reports merged into one. The XML library is a parameter: what it reads, how
-- it copies a node and how it adds one to a list of children.
pub mod Correct
pub mod Twice
use cheritest.Common.{
  ℕ, ◌+◌, ◌-◌, ◌^◌, Bool, true, false, ◌&&◌, Option, none, some, List, [], ◌∷◌, ◌++◌, if◌then◌else◌,
  Run, ok, fault, ◌>>=◌,
}
use cheritest.Common.Int.{ℤ, pos, negsuc, ◌+ℤ◌, leb_ℤ}
use cheritest.Common.Text.{Text, codes, text_eq}
use cheritest.Common.Numerals.{strtol, to_int, print_int}

-- An attribute; its value is missing where `children` or `content` is null.
pub record Attr : Type 0 where
  pub name : Text
  pub content : Option Text

-- The variables that the loop over the attributes updates.
pub record Totals : Type 0 where
  pub tests : ℤ
  pub errors : ℤ
  pub failures : ℤ
  pub skip : ℤ

abbrev pub no_totals : Totals
no_totals = record { tests = pos 0; errors = pos 0; failures = pos 0; skip = pos 0 }

unfoldable pub atoi : Text → ℤ
unfolding strtol to_int
atoi s = to_int (strtol 10 s)

abbrev pub is_int : ℤ → Bool
is_int z = leb_ℤ (negsuc (2 ^ 31 - 1)) z && leb_ℤ z (pos (2 ^ 31 - 1))

-- The sum of two numbers of type `int`; overflow is undefined.
unfoldable pub add_int : ℤ → ℤ → Run ℤ
unfolding ◌+ℤ◌
add_int a b = if is_int (a +ℤ b) then ok (a +ℤ b) else fault

-- `if (attr->children && attr->children->content) total += atoi(…)`
unfoldable pub add_content : Option Text → (total : ℤ) → Run ℤ
unfolding add_int atoi
add_content none total = ok total
add_content (some s) total = add_int total (atoi s)

-- The body of the loop over the attributes.
unfoldable pub count_attr : Attr → Totals → Run Totals
unfolding add_content text_eq
count_attr a t =
    if text_eq a.name (codes "tests")
    then (add_content a.content t.tests >>= λ n. ok (record t { tests = n }))
    else if text_eq a.name (codes "errors")
    then (add_content a.content t.errors >>= λ n. ok (record t { errors = n }))
    else if text_eq a.name (codes "failures")
    then (add_content a.content t.failures >>= λ n. ok (record t { failures = n }))
    else if text_eq a.name (codes "skip")
    then (add_content a.content t.skip >>= λ n. ok (record t { skip = n }))
    else ok t

unfoldable pub count_attrs : List Attr → Totals → Run Totals
unfolding count_attr
count_attrs [] t = ok t
count_attrs (a ∷ as') t = count_attr a t >>= count_attrs as'

-- The attributes that the new root has got at the end.
unfoldable pub new_attrs : Totals → List Attr
unfolding print_int
new_attrs t =
    record { name = codes "name"; content = some (codes "nosetests") }
    ∷ record { name = codes "tests"; content = some (print_int t.tests []) }
    ∷ record { name = codes "failures"; content = some (print_int t.failures []) }
    ∷ record { name = codes "errors"; content = some (print_int t.errors []) }
    ∷ record { name = codes "skip"; content = some (print_int t.skip []) }
    ∷ []

-- What the program uses of the XML library.
pub record Xml : Type 1 where
  pub Node : Type 0
  pub copy_node : Node → Node
  pub add_child : List Node → Node → List Node

module _ (x : Xml) where
  open x use {Node, copy_node, add_child}

  -- A root element.
  pub record Element : Type 0 where
    pub name : Text
    pub attrs : List Attr
    pub children : List Node

  -- The loop over the children.
  unfoldable pub add_children : List Node → (out : List Node) → List Node
  add_children [] out = out
  add_children (c ∷ cs) out = add_children cs (add_child out (copy_node c))

  -- What the loop over the files updates.
  pub record Merge : Type 0 where
    pub totals : Totals
    pub out : List Node

  -- How the loop ends: at the last file, or at one that cannot be read, where main returns -1.
  pub data Outcome : Type 0 where
    merged : Merge → Outcome
    failed_to_open : (file : Text) → Outcome

  -- The loop over the files. A document may lack a root, and then a null pointer is read.
  unfoldable pub merge_files :
      (read_file : Text → Option (Option Element)) → List Text → Merge → Run Outcome
  unfolding count_attrs add_children
  merge_files read_file [] m = ok (merged m)
  merge_files read_file (f ∷ fs) m = elim (read_file f) [
    | none ↦ ok (failed_to_open f)
    | some none ↦ fault
    | some (some root) ↦ count_attrs root.attrs m.totals >>= λ t.
        merge_files read_file fs (record { totals = t; out = add_children root.children m.out })
  ]

  unfoldable pub new_root : Merge → Element
  unfolding new_attrs
  new_root m = record { name = codes "testsuite"; attrs = new_attrs m.totals; children = m.out }

  -- The document that is saved; none where main has returned -1.
  abbrev pub saved : Outcome → Run (Option Element)
  saved (merged m) = ok (some (new_root m))
  saved (failed_to_open f) = ok none

  unfoldable pub xmlcat :
      (read_file : Text → Option (Option Element)) → (files : List Text) → Run (Option Element)
  unfolding merge_files new_root
  xmlcat read_file files =
      merge_files read_file files (record { totals = no_totals; out = [] }) >>= saved
