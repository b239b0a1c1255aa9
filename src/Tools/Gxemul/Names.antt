-- ===== src/Tools/Gxemul/Names.antt =====
-- gxemultosim.c: which name a line starts with.
use cheritest.Common.{
  ℕ, zero, suc, ◌+◌, ◌<◌, ◌≡◌, refl, ap, ◌∙◌, subst, sym, Bool, true, false, not, ◌&&◌, ◌||◌,
  Option, none, some, List, [], ◌∷◌, ◌++◌, set, get_elem?, drop, length, ok, fault, arith, ◌==◌,
  ==_iff,
}
use cheritest.Common.Text.{Text, codes, starts_with, strstr}
use cheritest.Common.Numerals.{strtoull_hex}
use cheritest.Tools.Gxemul.{try_names, reg_names}

-- Two texts differ at a place that both have.
abbrev pub differ_text : Text → Text → Bool
differ_text [] t = false
differ_text (c ∷ s) [] = false
differ_text (c ∷ s) (d ∷ t) = not (c == d) || differ_text s t

pub differ_text-starts_with :
    (s t x : Text) → differ_text s t ≡ true → starts_with (s ++ x) t ≡ false
unfolding starts_with
differ_text-starts_with [] t x h = cc
differ_text-starts_with (c ∷ s) [] x h = cc
differ_text-starts_with (c ∷ s) (d ∷ t) x h = ground (arith, differ_text-starts_with s t x)

pub starts_with_self : (s x : Text) → starts_with (s ++ x) s ≡ true
unfolding starts_with
starts_with_self [] x = refl
starts_with_self (c ∷ s) x = ground (arith, starts_with_self s x)

pub drop-append : (s x : Text) → drop (length s) (s ++ x) ≡ x
drop-append [] x = refl
drop-append (c ∷ s) x = drop-append s x

-- A name has seven characters and differs from what the code looks for besides the names.
abbrev pub is_name : Text → Bool
is_name n =
    length n == 7
    && (differ_text n (codes " ")
        && (differ_text n (codes "pc = 0x")
            && (differ_text n (codes "s0 = 0x") && differ_text (codes "0x") n)))

abbrev pub all_differ : Text → List Text → Bool
all_differ n [] = true
all_differ n (m ∷ ms) = differ_text m n && all_differ n ms

-- Every entry is a name, and differs from the later ones.
abbrev pub are_names : List Text → Bool
are_names [] = true
are_names (n ∷ ns) = is_name n && (all_differ n ns && are_names ns)

pub reg_names-are_names : are_names reg_names ≡ true
reg_names-are_names = refl

some_inj : {s t : Text} → ◌≡◌ {A = Option Text} (some s) (some t) → s ≡ t
some_inj e = cc

and_split : (a b : Bool) → (a && b) ≡ true → (a ≡ true) × (b ≡ true)
and_split true b h = (refl, h)
and_split false b h = cc

all_differ_cons :
    (n m : Text) (ms : List Text)
    → all_differ n (m ∷ ms) ≡ true
    → (differ_text m n ≡ true) × (all_differ n ms ≡ true)
all_differ_cons n m ms h = and_split (differ_text m n) (all_differ n ms) h

are_names_cons :
    (n : Text) (ns : List Text)
    → are_names (n ∷ ns) ≡ true
    → (is_name n ≡ true) × (all_differ n ns ≡ true) × (are_names ns ≡ true)
are_names_cons n ns h =
    let (a, b) = and_split (is_name n) (all_differ n ns && are_names ns) h in
    let (c, d) = and_split (all_differ n ns) (are_names ns) b in (a, c, d)

all_differ-get_elem? :
    (n m : Text) (ms : List Text) (i : ℕ)
    → all_differ n ms ≡ true
    → get_elem? ms i ≡ some m
    → differ_text m n ≡ true
all_differ-get_elem? n m [] i h e = cc
all_differ-get_elem? n m (k ∷ ms) zero h e =
    subst (λ t. differ_text t n ≡ true) (some_inj e) (all_differ_cons n k ms h).0
all_differ-get_elem? n m (k ∷ ms) (suc i) h e =
    all_differ-get_elem? n m ms i (all_differ_cons n k ms h).1 e

pub get_elem?-is_name :
    (n : Text) (ns : List Text) (i : ℕ)
    → are_names ns ≡ true
    → get_elem? ns i ≡ some n
    → is_name n ≡ true
get_elem?-is_name n [] i h e = cc
get_elem?-is_name n (k ∷ ns) zero h e =
    subst (λ t. is_name t ≡ true) (some_inj e) (are_names_cons k ns h).0
get_elem?-is_name n (k ∷ ns) (suc i) h e = get_elem?-is_name n ns i (are_names_cons k ns h).2 e

-- What the tests say of a name.
pub record IsName (n : Text) : Type 0 where
  pub seven : length n ≡ 7
  pub no_blank : differ_text n (codes " ") ≡ true
  pub no_pc : differ_text n (codes "pc = 0x") ≡ true
  pub no_s0 : differ_text n (codes "s0 = 0x") ≡ true
  pub no_number : differ_text (codes "0x") n ≡ true

pub is_name-IsName : (n : Text) → is_name n ≡ true → IsName n
is_name-IsName n h =
    let (a, h1) = and_split (length n == 7) _ h in
    let (b, h2) = and_split (differ_text n (codes " ")) _ h1 in
    let (c, h3) = and_split (differ_text n (codes "pc = 0x")) _ h2 in
    let (d, e) = and_split (differ_text n (codes "s0 = 0x")) _ h3 in
    record { seven = (==_iff (length n) 7).0 a; no_blank = b; no_pc = c; no_s0 = d; no_number = e }

-- After a second value, no further name matches.
try_names_done :
    (ns : List Text) (j : ℕ) (r : Text) (reg : List ℕ)
    → are_names ns ≡ true
    → try_names ns j (some (codes "0x" ++ r)) reg ≡ ok reg
unfolding try_names
try_names_done [] j r reg h = refl
try_names_done (n ∷ ns) j r reg h =
    let (named, _, later) = are_names_cons n ns h in
    rw (try_names, differ_text-starts_with (codes "0x") n r (is_name-IsName n named).no_number)
      (try_names_done ns (j + 1) r reg later)

-- A line that starts with the name with number `i` sets the two registers of it.
pub try_names_found :
    (ns : List Text) (i j : ℕ) (n x r : Text) (reg : List ℕ)
    → are_names ns ≡ true
    → get_elem? ns i ≡ some n
    → strstr x (codes "0x") ≡ some (codes "0x" ++ r)
    → try_names ns j (some (n ++ x)) reg
      ≡ ok (set (set reg (i + j + 1) (strtoull_hex x)) (i + j + 17) (strtoull_hex r))
unfolding try_names
try_names_found [] i j n x r reg h e f = cc
try_names_found (k ∷ ns) zero j n x r reg h e f =
    subst
      (λ t.
        try_names (k ∷ ns) j (some (t ++ x)) reg
        ≡ ok (set (set reg (0 + j + 1) (strtoull_hex x)) (0 + j + 17) (strtoull_hex r)))
      (some_inj e)
      (rw (try_names, starts_with_self k x, after_name, f)
        (rw after_name (
          try_names_done ns (j + 1) r _ (are_names_cons k ns h).2
          ∙ ap (λ p. ok (set (set reg (p + 1) (strtoull_hex x)) (p + 17) (strtoull_hex r))) {x = j}
              {y = 0 + j} (omega arith))))
  where
    after_name : drop 7 (k ++ x) ≡ x
    after_name =
        ap (λ l. drop l (k ++ x)) (sym (is_name-IsName k (are_names_cons k ns h).0).seven)
        ∙ drop-append k x
try_names_found (k ∷ ns) (suc i) j n x r reg h e f =
    let (_, differs, later) = are_names_cons k ns h in
    rw (try_names, differ_text-starts_with n k x (all_differ-get_elem? k n ns i differs e))
      (try_names_found ns i (j + 1) n x r reg later e f
        ∙ ap (λ p. ok (set (set reg (p + 1) (strtoull_hex x)) (p + 17) (strtoull_hex r)))
            {x = i + (j + 1)} {y = suc i + j} (omega arith))

-- If no second value follows, the next name is compared with a null pointer.
pub try_names_null :
    (ns : List Text) (i j : ℕ) (n x : Text) (reg : List ℕ)
    → are_names ns ≡ true
    → get_elem? ns i ≡ some n
    → suc i < length ns
    → strstr x (codes "0x") ≡ none
    → try_names ns j (some (n ++ x)) reg ≡ fault
unfolding try_names
try_names_null [] i j n x reg h e l f = cc
try_names_null (k ∷ []) i j n x reg h e l f = absurd (omega arith)
try_names_null (k ∷ k' ∷ ns) zero j n x reg h e l f =
    subst (λ t. try_names (k ∷ k' ∷ ns) j (some (t ++ x)) reg ≡ fault) (some_inj e)
      (rw (try_names, starts_with_self k x, after_name, f) refl)
  where
    after_name : drop 7 (k ++ x) ≡ x
    after_name =
        ap (λ l. drop l (k ++ x)) (sym (is_name-IsName k (are_names_cons k (k' ∷ ns) h).0).seven)
        ∙ drop-append k x
try_names_null (k ∷ k' ∷ ns) (suc i) j n x reg h e l f =
    let (_, differs, later) = are_names_cons k (k' ∷ ns) h in
    rw (try_names, differ_text-starts_with n k x (all_differ-get_elem? k n (k' ∷ ns) i differs e))
      (try_names_null (k' ∷ ns) i (j + 1) n x reg later e (omega arith) f)
