-- ===== src/Tools/Report/Correct.antt =====
-- xmlcat.c: the totals of a merged report are those of its parts.
use cheritest.Common.{
  ℕ, suc, ◌+◌, ◌^◌, ◌<◌, ◌≡◌, refl, ap, sym, ◌∙◌, Bool, true, false, Option, none, some, List, [],
  ◌∷◌, if◌then◌else◌, ok, fault, ◌>>=◌, arith, Bool-cases, inl, inr, subst, Every, Every-bind,
}
use cheritest.Common.Int.{ℤ, pos, negsuc, ◌+ℤ◌}
use cheritest.Common.Text.{Text, codes, text_eq}
use cheritest.Common.Numerals.{strtol, to_int, print_int, print_digits}
use cheritest.Common.Decimal.{strtol-print_digits, strtol-print_digits_minus}
use cheritest.Tools.Report.{
  Attr, Totals, no_totals, atoi, is_int, add_int, add_content, count_attr, count_attrs, new_attrs,
}

int_bound : (n : ℕ) → is_int (pos n) ≡ true → n < 2 ^ 31
int_bound n h = ground arith

int_bound_minus : (n : ℕ) → is_int (negsuc n) ≡ true → n < 2 ^ 31
int_bound_minus n h = ground arith

to_int_pos : (n : ℕ) → n < 2 ^ 31 → to_int (pos n) ≡ pos n
unfolding to_int
to_int_pos n h = ground arith

to_int_negsuc : (n : ℕ) → n < 2 ^ 31 → to_int (negsuc n) ≡ negsuc n
unfolding to_int
to_int_negsuc n h = ground arith

-- Reading an `int` that was printed gives it back.
pub atoi-print_int : (z : ℤ) → is_int z ≡ true → atoi (print_int z []) ≡ z
unfolding atoi print_int
atoi-print_int (pos n) h =
    ap (λ f. to_int (strtol 10 (print_digits f n []))) {x = n + 1} {y = suc n} (omega arith)
    ∙ ap to_int (strtol-print_digits n (omega (arith, int_bound n h)))
    ∙ to_int_pos n (int_bound n h)
atoi-print_int (negsuc n) h =
    ap (λ f. to_int (strtol 10 (0x2d ∷ f))) {x = print_digits (n + 2) (n + 1) []}
      {y = print_digits (suc (suc n)) (suc n) []}
      (same {f = n + 2} {g = suc (suc n)} {m = n + 1} {k = suc n} (omega arith) (omega arith))
    ∙ ap to_int (strtol-print_digits_minus n (omega (arith, int_bound_minus n h)))
    ∙ to_int_negsuc n (int_bound_minus n h)
  where
    same : {f g m k : ℕ} → f ≡ g → m ≡ k → print_digits f m [] ≡ print_digits g k []
    same e e' = cc

zero_add : (z : ℤ) → pos 0 +ℤ z ≡ z
unfolding ◌+ℤ◌
zero_add (pos n) = ground arith
zero_add (negsuc n) = ground arith

-- A count that starts at nothing and reads a printed number.
add_content-print_int :
    (z : ℤ) → is_int z ≡ true → add_content (some (print_int z [])) (pos 0) ≡ ok z
unfolding add_content add_int
add_content-print_int z h =
    ap (λ w. add_int (pos 0) w) (atoi-print_int z h)
    ∙ ap (λ w. if is_int w then ok w else fault) (zero_add z)
    ∙ ap (λ b. if b then ok z else fault) h

pub record AreInts (t : Totals) : Type 0 where
  pub tests : is_int t.tests ≡ true
  pub errors : is_int t.errors ≡ true
  pub failures : is_int t.failures ≡ true
  pub skip : is_int t.skip ≡ true

-- The attributes of a merged report count for what was counted.
pub count_attrs-new_attrs : (t : Totals) → AreInts t → count_attrs (new_attrs t) no_totals ≡ ok t
unfolding count_attrs count_attr new_attrs text_eq
count_attrs-new_attrs t h =
    rw
      (
        add_content-print_int t.tests h.tests,
        add_content-print_int t.failures h.failures,
        add_content-print_int t.errors h.errors,
        add_content-print_int t.skip h.skip,
      )
      refl

abbrev IsInt : ℤ → Type 0
IsInt z = is_int z ≡ true

add_content-IsInt : (c : Option Text) (z : ℤ) → IsInt z → Every IsInt (add_content c z)
unfolding add_content add_int
add_content-IsInt none z h = h
add_content-IsInt (some s) z h = elim (Bool-cases (is_int (z +ℤ atoi s))) [
  | inl e ↦ subst (λ b. Every IsInt (if b then ok (z +ℤ atoi s) else fault)) (sym e) e
  | inr e ↦ subst (λ b. Every IsInt (if b then ok (z +ℤ atoi s) else fault)) (sym e) tt
]

-- The totals stay in the range of an `int`.
count_attr-AreInts : (a : Attr) (t : Totals) → AreInts t → Every AreInts (count_attr a t)
unfolding count_attr
count_attr-AreInts a t h =
    choice (text_eq a.name (codes "tests")) (text_eq a.name (codes "errors"))
      (text_eq a.name (codes "failures")) (text_eq a.name (codes "skip"))
  where
    counted :
        (z : ℤ) (f : ℤ → Totals)
        → IsInt z
        → ((n : ℤ) → IsInt n → AreInts (f n))
        → Every AreInts (add_content a.content z >>= λ n. ok (f n))
    counted z f i k =
        Every-bind AreInts IsInt (add_content a.content z) (λ n. ok (f n))
          (add_content-IsInt a.content z i) k

    choice :
        (b c d e : Bool)
        → Every AreInts (
            if b
            then (add_content a.content t.tests >>= λ n. ok (record t { tests = n }))
            else if c
            then (add_content a.content t.errors >>= λ n. ok (record t { errors = n }))
            else if d
            then (add_content a.content t.failures >>= λ n. ok (record t { failures = n }))
            else if e
            then (add_content a.content t.skip >>= λ n. ok (record t { skip = n }))
            else ok t)
    choice true c d e =
        counted t.tests (λ n. record t { tests = n }) h.tests
          λ n i. record { tests = i; errors = h.errors; failures = h.failures; skip = h.skip }
    choice false true d e =
        counted t.errors (λ n. record t { errors = n }) h.errors
          λ n i. record { tests = h.tests; errors = i; failures = h.failures; skip = h.skip }
    choice false false true e =
        counted t.failures (λ n. record t { failures = n }) h.failures
          λ n i. record { tests = h.tests; errors = h.errors; failures = i; skip = h.skip }
    choice false false false true =
        counted t.skip (λ n. record t { skip = n }) h.skip
          λ n i. record { tests = h.tests; errors = h.errors; failures = h.failures; skip = i }
    choice false false false false = h

pub count_attrs-AreInts :
    (as' : List Attr) (t : Totals) → AreInts t → Every AreInts (count_attrs as' t)
unfolding count_attrs
count_attrs-AreInts [] t h = h
count_attrs-AreInts (a ∷ as') t h =
    Every-bind AreInts AreInts (count_attr a t) (count_attrs as') (count_attr-AreInts a t h)
      (count_attrs-AreInts as')
