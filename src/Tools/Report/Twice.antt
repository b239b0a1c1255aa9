-- ===== src/Tools/Report/Twice.antt =====
-- xmlcat.c: merging a report that was merged before.
use cheritest.Common.{
  ◌≡◌, refl, ap, sym, ◌∙◌, Option, none, some, List, [], ◌∷◌, ◌++◌, Run, ok, fault, hung, ◌>>=◌,
  Every, Every-bind, Every-ok, Option-cases, inl, inr, Run-cases,
}
use cheritest.Common.Text.{Text}
use cheritest.Tools.Report.{
  no_totals, count_attrs, Xml, Element, add_children, Merge, Outcome, merged, failed_to_open,
  merge_files, new_root, saved, xmlcat,
}
use cheritest.Tools.Report.Correct.{AreInts, count_attrs-new_attrs, count_attrs-AreInts}

module _ (x : Xml) where
  open x use {Node, copy_node, add_child}

  add_children-append :
      (cs ds out : List Node)
      → add_children x (cs ++ ds) out ≡ add_children x ds (add_children x cs out)
  unfolding add_children
  add_children-append [] ds out = refl
  add_children-append (c ∷ cs) ds out = add_children-append cs ds (add_child out (copy_node c))

  -- What the loop keeps: the totals are `int`s, and the children were added to an empty list.
  pub record IsMerge (m : Merge x) : Type 0 where
    pub ints : AreInts m.totals
    pub parts : List Node
    pub built : m.out ≡ add_children x parts []

  abbrev pub HasMerge : Outcome x → Type 0
  HasMerge (merged m) = IsMerge m
  HasMerge (failed_to_open f) = Unit

  module _ (read_file : Text → Option (Option (Element x))) where
    pub merge_files-HasMerge :
        (fs : List Text) (m : Merge x) → IsMerge m → Every HasMerge (merge_files x read_file fs m)
    unfolding merge_files
    merge_files-HasMerge [] m h = h
    merge_files-HasMerge (f ∷ fs) m h = elim (Option-cases (read_file f)) [
      | inl e ↦ rw (merge_files, e) tt
      | inr (none, e) ↦ rw (merge_files, e) tt
      | inr (some root, e) ↦
          rw (merge_files, e)
            (Every-bind HasMerge AreInts (count_attrs root.attrs m.totals) _
              (count_attrs-AreInts root.attrs m.totals h.ints)
              λ t ints. merge_files-HasMerge fs _ (record {
                ints = ints;
                parts = h.parts ++ root.children;
                built =
                    ap (add_children x root.children) h.built
                    ∙ sym (add_children-append h.parts root.children []);
              }))
    ]

    -- The loop goes on where it ended.
    abbrev go_on : List Text → Outcome x → Run (Outcome x)
    go_on fs (merged m) = merge_files x read_file fs m
    go_on fs (failed_to_open f) = ok (failed_to_open f)

    merge_files-append :
        (fs gs : List Text) (m : Merge x)
        → merge_files x read_file (fs ++ gs) m ≡ (merge_files x read_file fs m >>= go_on gs)
    unfolding merge_files
    merge_files-append [] gs m = refl
    merge_files-append (f ∷ fs) gs m = elim (Option-cases (read_file f)) [
      | inl e ↦ rw (merge_files, e) refl
      | inr (none, e) ↦ rw (merge_files, e) refl
      | inr (some root, e) ↦
          rw (merge_files, e)
            (elim (Run-cases (count_attrs root.attrs m.totals)) [
              | inl (t, c) ↦ rw c (merge_files-append fs gs _)
              | inr (inl c) ↦ rw c refl
              | inr (inr c) ↦ rw c refl
            ])
    ]

    abbrev empty_merge : Merge x
    empty_merge = record { totals = no_totals; out = [] }

    empty_merge-IsMerge : IsMerge empty_merge
    unfolding add_children
    empty_merge-IsMerge = record {
      ints = record { tests = refl; errors = refl; failures = refl; skip = refl };
      parts = [];
      built = refl;
    }

    saved_inv :
        (r : Run (Outcome x)) (root : Element x)
        → (r >>= saved x) ≡ ok (some root)
        → (m : Merge x) × (r ≡ ok (merged m)) × (new_root x m ≡ root)
    saved_inv (ok (merged m)) root e = (m, refl, cc)
    saved_inv (ok (failed_to_open f)) root e = cc
    saved_inv fault root e = cc
    saved_inv hung root e = cc

    module _
        (readd : (cs : List Node)
          → add_children x (add_children x cs []) [] ≡ add_children x cs []) where
      -- A file with the report that was merged sets the loop up as the files that it was made of.
      merge_files_twice :
          (f : Text) (gs : List Text) (m : Merge x)
          → IsMerge m
          → read_file f ≡ some (some (new_root x m))
          → merge_files x read_file (f ∷ gs) empty_merge ≡ merge_files x read_file gs m
      unfolding merge_files new_root
      merge_files_twice f gs m h e =
          rw (merge_files, e, count_attrs-new_attrs m.totals h.ints)
            (ap (λ o. merge_files x read_file gs (record { totals = m.totals; out = o })) same)
        where
          same : add_children x m.out [] ≡ m.out
          same = ap (λ o. add_children x o []) h.built ∙ readd h.parts ∙ sym h.built

      -- Merging can be done in steps: if the library makes the same list when it adds copies of the
      -- children of a merged report to an empty element, then the report merged from some files can
      -- stand for them. With a file that holds it in their place, further files give the same
      -- report, or the same failure to open a file, as all the files at once.
      pub xmlcat_twice :
          (files more : List Text) (f : Text) (root : Element x)
          → xmlcat x read_file files ≡ ok (some root)
          → read_file f ≡ some (some root)
          → xmlcat x read_file (f ∷ more) ≡ xmlcat x read_file (files ++ more)
      unfolding xmlcat
      xmlcat_twice files more f root merged_before e =
          let (m, runs, root_is) =
            saved_inv (merge_files x read_file files empty_merge) root merged_before in
          ap (λ r. r >>= saved x)
            (merge_files_twice f more m
                (Every-ok HasMerge _ _ (merge_files-HasMerge files empty_merge empty_merge-IsMerge)
                  runs)
                (e ∙ ap (λ r. some (some r)) (sym root_is))
              ∙ sym (merge_files-append files more empty_merge ∙ ap (λ r. r >>= go_on more) runs))
