-- ===== src/Ctests/Qsort/Correct.antt =====
-- libc_qsort.c: the test passes for every qsort that sorts.
use cheritest.Common.{
  ℕ, zero, suc, ◌+◌, ◌≤◌, ◌<◌, ◌≡◌, ◌⊎◌, inl, inr, ◌∙◌, refl, ap, sym, Bool, true, false, not, ◌&&◌,
  ◌==◌, if◌then◌else◌, List, [], ◌∷◌, map, arith,
}
use cheritest.Common.Int.{ℤ, pos, leb_ℤ}
use cheritest.Common.Text.{Text}
use cheritest.Ctests.Qsort.{
  StringPointer, DictEntry, array, array1, strcmp, compare_strings, compare1, first_char,
  check_sorted, libc_qsort, count_if, IsAscending, IsSorting,
}

-- The same for numbers, whose order has the list determined.
abbrev Ascending : List ℕ → Type 0
Ascending [] = Unit
Ascending (x ∷ []) = Unit
Ascending (x ∷ y ∷ xs) = (x ≤ y) × Ascending (y ∷ xs)

abbrev SameItems : List ℕ → List ℕ → Type 0
SameItems xs ys = (a : ℕ) → count_if (λ b. b == a) xs ≡ count_if (λ b. b == a) ys

tail-Ascending : (x : ℕ) (xs : List ℕ) → Ascending (x ∷ xs) → Ascending xs
tail-Ascending x [] h = tt
tail-Ascending x (y ∷ xs) h = h.1

none_below :
    (a x : ℕ) (xs : List ℕ) → Ascending (x ∷ xs) → a < x → count_if (λ b. b == a) (x ∷ xs) ≡ 0
none_below a x [] h l = ground arith
none_below a x (y ∷ xs) h l = ground (arith, none_below a y xs h.1 (omega (arith, h.0)))

nonzero : (x : ℕ) (xs : List ℕ) → count_if (λ b. b == x) (x ∷ xs) ≡ 0 → ⊥
nonzero x xs h = absurd (ground (arith, h))

trichotomy : (x y : ℕ) → (x < y) ⊎ ((y < x) ⊎ (x ≡ y))
trichotomy x y = omega arith

Ascending-unique : (xs ys : List ℕ) → Ascending xs → Ascending ys → SameItems xs ys → xs ≡ ys
Ascending-unique [] [] h k e = refl
Ascending-unique [] (y ∷ ys) h k e = absurd (nonzero y ys (sym (e y)))
Ascending-unique (x ∷ xs) [] h k e = absurd (nonzero x xs (e x))
Ascending-unique (x ∷ xs) (y ∷ ys) h k e = elim (trichotomy x y) [
  | inl l ↦ absurd (nonzero x xs (e x ∙ none_below x y ys k l))
  | inr (inl l) ↦ absurd (nonzero y ys (sym (e y) ∙ none_below y x xs h l))
  | inr (inr same) ↦ cons same (
      Ascending-unique xs ys (tail-Ascending x xs h) (tail-Ascending y ys k)
        λ a. omega (arith, e a, ap {B = ℕ} (λ z. if z == a then 1 else 0) same))
]
  where
    cons : {a b : ℕ} {as' bs : List ℕ} → a ≡ b → as' ≡ bs → a ∷ as' ≡ b ∷ bs
    cons e e' = cc

count_if-map {ℓ} :
    {A : Type ℓ} (g : A → ℕ) (a : ℕ) (xs : List A)
    → count_if (λ b. b == a) (map g xs) ≡ count_if (λ x. g x == a) xs
count_if-map g a [] = refl
count_if-map g a (x ∷ xs) = ap (λ n. (if g x == a then 1 else 0) + n) (count_if-map g a xs)

abbrev AllHold {ℓ} : {A : Type ℓ} → (A → Bool) → List A → Type 0
AllHold f [] = Unit
AllHold f (x ∷ xs) = (f x ≡ true) × AllHold f xs

count_if-AllHold {ℓ} :
    {A : Type ℓ} (f : A → Bool) (xs : List A) → count_if (λ x. not (f x)) xs ≡ 0 → AllHold f xs
count_if-AllHold f [] h = tt
count_if-AllHold f (x ∷ xs) h =
    (holds (f x) (omega (arith, h)), count_if-AllHold f xs (omega (arith, h)))
  where
    holds : (b : Bool) → ◌≡◌ {A = ℕ} (if not b then 1 else 0) 0 → b ≡ true
    holds true e = refl
    holds false e = absurd (omega (arith, e))

-- The letters from the one with number `i` on.
abbrev letters : (i count : ℕ) → List ℕ
letters i zero = []
letters i (suc count) = (0x61 + i) ∷ letters (i + 1) count

-- A pointer with its tag to a string of one character.
abbrev is_letter : StringPointer → Bool
is_letter p = p.tag && elim p.chars [ [] ↦ false | c ∷ s ↦ elim s [ [] ↦ true | d ∷ t ↦ false ] ]

and_left : (a b : Bool) → (a && b) ≡ true → a ≡ true
and_left true b h = refl
and_left false b h = h

and_right : (a b : Bool) → (a && b) ≡ true → b ≡ true
and_right true b h = h
and_right false b h = cc

one_char : Text → Bool
one_char [] = false
one_char (c ∷ []) = true
one_char (c ∷ d ∷ s) = false

head : Text → ℕ
head [] = 0
head (c ∷ s) = c

strcmp-head :
    (s t : Text)
    → one_char s ≡ true
    → one_char t ≡ true
    → leb_ℤ (strcmp s t) (pos 0) ≡ true
    → head s ≤ head t
unfolding strcmp one_char head
strcmp-head [] t h k e = cc
strcmp-head (c ∷ []) [] h k e = cc
strcmp-head (c ∷ []) (d ∷ []) h k e = ground arith
strcmp-head (c ∷ []) (d ∷ d' ∷ t) h k e = cc
strcmp-head (c ∷ c' ∷ s) t h k e = cc

strcmp_letters :
    (p q : StringPointer)
    → is_letter p ≡ true
    → is_letter q ≡ true
    → leb_ℤ (strcmp p.chars q.chars) (pos 0) ≡ true
    → first_char p ≤ first_char q
unfolding head one_char
strcmp_letters p q h k e =
    strcmp-head p.chars q.chars (and_right p.tag (one_char p.chars) h)
      (and_right q.tag (one_char q.chars) k) e

-- Elements with a pointer that are compared by its string.
module _ {A : Type 0} (pointer : A → StringPointer) (cmp : A → A → ℤ)
    (by_string : (a b : A) → cmp a b ≡ strcmp (pointer a).chars (pointer b).chars) where
  abbrev keys : List A → List ℕ
  keys xs = map (λ x. first_char (pointer x)) xs

  keys-Ascending :
      (xs : List A)
      → AllHold (λ x. is_letter (pointer x)) xs
      → IsAscending cmp xs
      → Ascending (keys xs)
  keys-Ascending [] h k = tt
  keys-Ascending (x ∷ []) h k = tt
  keys-Ascending (x ∷ y ∷ xs) h k = (
    strcmp_letters (pointer x) (pointer y) h.0 h.1.0
        (ap (λ z. leb_ℤ z (pos 0)) (sym (by_string x y)) ∙ k.0),
    keys-Ascending (y ∷ xs) h.1 k.1,
  )

  -- Sorting a list whose letters are the first seven gives these in their order.
  keys-letters :
      (xs ys : List A)
      → IsSorting cmp xs ys
      → count_if (λ x. not (is_letter (pointer x))) xs ≡ 0
      → SameItems (keys xs) (letters 0 7)
      → (keys ys ≡ letters 0 7) × AllHold (λ x. is_letter (pointer x)) ys
  keys-letters xs ys s good same = (
    Ascending-unique (keys ys) (letters 0 7) (keys-Ascending ys all s.ascending)
        (omega arith, omega arith)
        λ a. count_if-map _ a ys ∙ s.kept _ ∙ sym (count_if-map _ a xs) ∙ same a,
    all,
  )
    where
      all : AllHold (λ x. is_letter (pointer x)) ys
      all = count_if-AllHold _ ys (s.kept _ ∙ good)

check_sorted_lem :
    (count i : ℕ) (xs : List StringPointer) (ys : List DictEntry)
    → map first_char xs ≡ letters i count
    → map (λ e. first_char e.value) ys ≡ letters i count
    → AllHold is_letter xs
    → AllHold (λ e. is_letter e.value) ys
    → check_sorted i xs ys ≡ true
unfolding check_sorted
check_sorted_lem zero i [] ys e f h k = refl
check_sorted_lem zero i (p ∷ xs) ys e f h k = cc
check_sorted_lem (suc count) i [] ys e f h k = cc
check_sorted_lem (suc count) i (p ∷ xs) [] e f h k = cc
check_sorted_lem (suc count) i (p ∷ xs) (d ∷ ys) e f h k =
    all_five (and_left p.tag _ h.0) (and_left d.value.tag _ k.0) (equal (head_eq e))
      (equal (head_eq f)) (check_sorted_lem count (i + 1) xs ys (tail_eq e) (tail_eq f) h.1 k.1)
  where
    all_five :
        {a b c d e : Bool}
        → a ≡ true
        → b ≡ true
        → c ≡ true
        → d ≡ true
        → e ≡ true
        → (a && (b && (c && (d && e)))) ≡ true
    all_five p q r s t = cc

    equal : {x z : ℕ} → x ≡ z → (x == z) ≡ true
    equal e = ground (arith, e)

    head_eq : {x z : ℕ} {as' bs : List ℕ} → x ∷ as' ≡ z ∷ bs → x ≡ z
    head_eq e = cc

    tail_eq : {x z : ℕ} {as' bs : List ℕ} → x ∷ as' ≡ z ∷ bs → as' ≡ bs
    tail_eq e = cc

-- If the two calls of qsort sort, no assertion of the test fails.
pub libc_qsort-passes :
    (qsort : List StringPointer → List StringPointer) (qsort1 : List DictEntry → List DictEntry)
    → IsSorting compare_strings array (qsort array)
    → IsSorting compare1 array1 (qsort1 array1)
    → libc_qsort qsort qsort1 ≡ true
unfolding libc_qsort compare_strings compare1
libc_qsort-passes qsort qsort1 h k =
    let (e, a) =
      keys-letters (λ p. p) compare_strings (λ a b. refl) array (qsort array) h refl
        λ a. omega arith in
    let (f, b) =
      keys-letters (λ d. d.value) compare1 (λ a b. refl) array1 (qsort1 array1) k refl
        λ a. omega arith in
    check_sorted_lem 7 0 (qsort array) (qsort1 array1) e f a b
