-- ===== src/Ctests/Qsort.antt =====
-- cheri-c-tests/libc/libc_qsort.c: the test of qsort, which sorts pointers to strings and records
-- with such pointers. What the two calls of qsort do is a parameter.
pub mod Correct
use cheritest.Common.{
  ℕ, zero, suc, ◌+◌, ◌-◌, ◌≤◌, ◌<◌, ◌≡◌, ◌⊎◌, inl, inr, ◌∙◌, refl, ap, sym, subst, Bool, true,
  false, not, ◌&&◌, ◌==◌, ltb, leb, if◌then◌else◌, List, [], ◌∷◌, map, length, Run, ok, fault,
  ◌>>=◌, arith,
}
use cheritest.Common.Int.{ℤ, pos, negsuc, sub_ℕ, leb_ℤ}
use cheritest.Common.Text.{Text, codes}

-- A pointer to a string, with its tag.
pub record StringPointer : Type 0 where
  pub chars : Text
  pub tag : Bool

pub record DictEntry : Type 0 where
  pub key : ℕ
  pub value : StringPointer

abbrev pub literal : Text → StringPointer
literal s = record { chars = s; tag = true }

abbrev pub array : List StringPointer
array =
    literal (codes "c")
    ∷ literal (codes "d")
    ∷ literal (codes "b")
    ∷ literal (codes "a")
    ∷ literal (codes "f")
    ∷ literal (codes "e")
    ∷ literal (codes "g")
    ∷ []

abbrev pub array1 : List DictEntry
array1 =
    record { key = 2; value = literal (codes "c") }
    ∷ record { key = 3; value = literal (codes "d") }
    ∷ record { key = 1; value = literal (codes "b") }
    ∷ record { key = 0; value = literal (codes "a") }
    ∷ record { key = 5; value = literal (codes "f") }
    ∷ record { key = 4; value = literal (codes "e") }
    ∷ record { key = 6; value = literal (codes "g") }
    ∷ []

-- The difference of the first characters that differ; a text ends with a NUL.
unfoldable pub strcmp : Text → Text → ℤ
strcmp [] [] = pos 0
strcmp [] (d ∷ t) = sub_ℕ 0 d
strcmp (c ∷ s) [] = sub_ℕ c 0
strcmp (c ∷ s) (d ∷ t) = if c == d then strcmp s t else sub_ℕ c d

unfoldable pub compare_strings : (a b : StringPointer) → ℤ
unfolding strcmp
compare_strings a b = strcmp a.chars b.chars

unfoldable pub compare1 : (k1 k2 : DictEntry) → ℤ
unfolding strcmp
compare1 k1 k2 = strcmp k1.value.chars k2.value.chars

-- `p[0]`, through a pointer that has its tag. The test asserts the tag before it reads.
abbrev pub first_char : StringPointer → ℕ
first_char p = elim p.chars [ [] ↦ 0 | c ∷ s ↦ c ]

-- The first loop.
unfoldable pub check_tags : List StringPointer → List DictEntry → Bool
check_tags [] ys = true
check_tags (p ∷ xs) [] = false
check_tags (p ∷ xs) (e ∷ ys) = p.tag && (e.value.tag && check_tags xs ys)

-- The second loop, from the index `i` on.
unfoldable pub check_sorted : (i : ℕ) → List StringPointer → List DictEntry → Bool
check_sorted i [] ys = true
check_sorted i (p ∷ xs) [] = false
check_sorted i (p ∷ xs) (e ∷ ys) =
    p.tag
    && (e.value.tag
        && (first_char p == 0x61 + i
            && (first_char e.value == 0x61 + i && check_sorted (i + 1) xs ys)))

unfoldable pub libc_qsort :
    (qsort : List StringPointer → List StringPointer) (qsort1 : List DictEntry → List DictEntry)
    → Bool
unfolding check_tags check_sorted
libc_qsort qsort qsort1 = check_tags array array1 && check_sorted 0 (qsort array) (qsort1 array1)

abbrev pub count_if {ℓ} : {A : Type ℓ} → (A → Bool) → List A → ℕ
count_if f [] = 0
count_if f (x ∷ xs) = (if f x then 1 else 0) + count_if f xs

abbrev pub IsAscending {ℓ} : {A : Type ℓ} → (A → A → ℤ) → List A → Type 0
IsAscending cmp [] = Unit
IsAscending cmp (x ∷ []) = Unit
IsAscending cmp (x ∷ y ∷ xs) = (leb_ℤ (cmp x y) (pos 0) ≡ true) × IsAscending cmp (y ∷ xs)

-- What qsort promises: the same elements, each as often, in an ascending order.
pub record IsSorting {A : Type 0} (cmp : A → A → ℤ) (xs ys : List A) : Type 0 where
  pub kept : (f : A → Bool) → count_if f ys ≡ count_if f xs
  pub ascending : IsAscending cmp ys
