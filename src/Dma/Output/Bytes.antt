-- ===== src/Dma/Output/Bytes.antt =====
-- What the printed assignments and checks of generate_dma_test.c do when the test runs.
use cheritest.Common.{
  ℕ, zero, suc, ◌+◌, ◌%◌, ◌^◌, ◌≤◌, ◌<◌, ◌≡◌, refl, ap, ◌∙◌, ◌==◌, if◌then◌else◌, List, [], ◌∷◌,
  ◌++◌, Bool, arith,
}
use cheritest.Dma.Output.{
  Token, source_is, dest_is, source_end, assert_close, instruction, comma, dollar, assert_open,
  print_bytes, advance, offset64,
}

-- The arrays of the test.
abbrev pub Bytes : Type 0
Bytes = ℕ → ℕ

-- The assignments among the tokens, in order.
abbrev pub assigned : List Token → Bytes → Bytes
assigned [] m = m
assigned (source_is at value ∷ ts) m = assigned ts (λ a. if at == a then value else m a)
assigned (dest_is at value ∷ ts) m = assigned ts m
assigned (source_end at ∷ ts) m = assigned ts m
assigned (assert_close at ∷ ts) m = assigned ts m
assigned (instruction word ∷ ts) m = assigned ts m
assigned (comma ∷ ts) m = assigned ts m
assigned (dollar ∷ ts) m = assigned ts m
assigned (assert_open ∷ ts) m = assigned ts m

-- The assertion: every check among the tokens holds.
abbrev pub Passes : Bytes → List Token → Type 0
Passes m [] = Unit
Passes m (dest_is at value ∷ ts) = (m at ≡ value) × Passes m ts
Passes m (source_is at value ∷ ts) = Passes m ts
Passes m (source_end at ∷ ts) = Passes m ts
Passes m (assert_close at ∷ ts) = Passes m ts
Passes m (instruction word ∷ ts) = Passes m ts
Passes m (comma ∷ ts) = Passes m ts
Passes m (dollar ∷ ts) = Passes m ts
Passes m (assert_open ∷ ts) = Passes m ts

pub assigned-append :
    (xs ys : List Token) (m : Bytes) → assigned (xs ++ ys) m ≡ assigned ys (assigned xs m)
assigned-append [] ys m = refl
assigned-append (source_is at value ∷ ts) ys m =
    assigned-append ts ys (λ a. if at == a then value else m a)
assigned-append (dest_is at value ∷ ts) ys m = assigned-append ts ys m
assigned-append (source_end at ∷ ts) ys m = assigned-append ts ys m
assigned-append (assert_close at ∷ ts) ys m = assigned-append ts ys m
assigned-append (instruction word ∷ ts) ys m = assigned-append ts ys m
assigned-append (comma ∷ ts) ys m = assigned-append ts ys m
assigned-append (dollar ∷ ts) ys m = assigned-append ts ys m
assigned-append (assert_open ∷ ts) ys m = assigned-append ts ys m

pub Passes-append :
    (xs ys : List Token) (m : Bytes) → Passes m xs → Passes m ys → Passes m (xs ++ ys)
Passes-append [] ys m p q = q
Passes-append (dest_is at value ∷ ts) ys m p q = (p.0, Passes-append ts ys m p.1 q)
Passes-append (source_is at value ∷ ts) ys m p q = Passes-append ts ys m p q
Passes-append (source_end at ∷ ts) ys m p q = Passes-append ts ys m p q
Passes-append (assert_close at ∷ ts) ys m p q = Passes-append ts ys m p q
Passes-append (instruction word ∷ ts) ys m p q = Passes-append ts ys m p q
Passes-append (comma ∷ ts) ys m p q = Passes-append ts ys m p q
Passes-append (dollar ∷ ts) ys m p q = Passes-append ts ys m p q
Passes-append (assert_open ∷ ts) ys m p q = Passes-append ts ys m p q

module _ (base : ℕ) where
  -- The inner loop assigns nothing below its first byte.
  pub bytes_below :
      (count i n a : ℕ) (m : Bytes)
      → base + i + count ≤ 2 ^ 64
      → a < base + i
      → assigned (print_bytes source_is base count i n) m a ≡ m a
  unfolding print_bytes
  bytes_below zero i n a m h l = refl
  bytes_below (suc count) i n a m h l =
      bytes_below count (i + 1) ((n + 1) % 256) a _ (omega arith) (omega arith)
      ∙ untouched (offset64 base i == a) refl
    where
      untouched : (z : Bool) → (offset64 base i == a) ≡ z → (if z then n else m a) ≡ m a
      untouched z e = ground arith

  -- And each byte gets the number of its access.
  pub bytes_at :
      (count i n j : ℕ) (m : Bytes)
      → base + i + count ≤ 2 ^ 64
      → j < count
      → assigned (print_bytes source_is base count i n) m (base + i + j) ≡ advance n j
  unfolding print_bytes
  bytes_at zero i n j m h l = absurd (omega arith)
  bytes_at (suc count) i n zero m h l =
      bytes_below count (i + 1) ((n + 1) % 256) (base + i + 0) _ (omega arith) (omega arith)
      ∙ ground arith
  bytes_at (suc count) i n (suc j) m h l =
      ap (assigned (print_bytes source_is base count (i + 1) ((n + 1) % 256)) _)
        {x = base + i + suc j} {y = base + (i + 1) + j} (omega arith)
      ∙ bytes_at count (i + 1) ((n + 1) % 256) j _ (omega arith) (omega arith)

  -- The checks pass where each byte is that number.
  pub checks_pass :
      (count i n : ℕ) (m : Bytes)
      → base + i + count ≤ 2 ^ 64
      → ((j : ℕ) → j < count → m (base + i + j) ≡ advance n j)
      → Passes m (print_bytes dest_is base count i n)
  unfolding print_bytes
  checks_pass zero i n m h p = tt
  checks_pass (suc count) i n m h p = (
    ap m {x = offset64 base i} {y = base + i + 0} (omega arith) ∙ p 0 (omega arith),
    checks_pass count (i + 1) ((n + 1) % 256) m (omega arith) (λ j l.
        ap m {x = base + (i + 1) + j} {y = base + i + suc j} (omega arith)
        ∙ p (suc j) (omega arith)),
  )
