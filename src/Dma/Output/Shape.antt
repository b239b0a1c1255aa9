-- ===== src/Dma/Output/Shape.antt =====
-- The shape of the test that generate_dma_test.c prints: the words of the program, then an
-- assignment for each byte that is read, then a check for each byte that is written.
use mathlib.Core.List.{append-nil, append_assoc}
use cheritest.Common.{
  ℕ, zero, suc, ◌+◌, ◌%◌, ◌^◌, ◌≤◌, ◌≡◌, refl, sym, ap, ◌∙◌, ◌==◌, if◌then◌else◌, List, [], ◌∷◌,
  ◌++◌, length, arith,
}
use cheritest.Dma.Transfers.{Transfer}
use cheritest.Dma.Output.{
  Token, instruction, comma, dollar, source_is, source_end, dest_is, assert_open, assert_close,
  print_bytes, advance, offset64,
}
use cheritest.Dma.Output.Correct.{Ascending}
use cheritest.Dma.Output.Tokens.{tokens, source_tokens, destination_tokens}

-- The words up to the first stop.
abbrev pub until : (stop : ℕ) → List ℕ → List ℕ
until stop [] = []
until stop (w ∷ ws) = if w == stop then w ∷ [] else w ∷ until stop ws

-- Words with commas before all but the first.
abbrev pub more : List ℕ → List Token
more [] = []
more (w ∷ ws) = comma ∷ instruction w ∷ more ws

abbrev pub separated : List ℕ → List Token
separated [] = []
separated (w ∷ ws) = instruction w ∷ more ws

abbrev pub range : (a count : ℕ) → List ℕ
range a zero = []
range a (suc count) = a ∷ range (suc a) count

-- The addresses that the transfers read or write, in order, and the one after them.
abbrev pub addresses : (Transfer → ℕ) → List Transfer → List ℕ
addresses address [] = []
addresses address (t ∷ ts) = range (address t) (2 ^ t.size) ++ addresses address ts

abbrev pub past : (Transfer → ℕ) → List Transfer → ℕ
past address [] = 0
past address (t ∷ []) = (address t + 2 ^ t.size) % 2 ^ 64
past address (t ∷ u ∷ ts) = past address (u ∷ ts)

-- A token for each address, with the number of the access in a byte.
abbrev pub accesses : (ℕ → ℕ → Token) → (number : ℕ) → List ℕ → List Token
accesses byte number [] = []
accesses byte number (a ∷ xs) = byte a (number % 256) ∷ accesses byte (suc number) xs

-- The whole text of a test for a program and the transfers that it makes.
abbrev pub IsTest : (stop : ℕ) (words : List ℕ) (ts : List Transfer) (out : List Token) → Type 0
IsTest stop words ts out =
    out
    ≡ separated (until stop words)
      ++ dollar
        ∷ ((accesses source_is 0 (addresses (λ t. t.source) ts)
              ++ source_end (past (λ t. t.source) ts) ∷ [])
            ++ assert_open
              ∷ (accesses dest_is 0 (addresses (λ t. t.destination) ts)
                  ++ assert_close (past (λ t. t.destination) ts) ∷ []))

length-range : (a count : ℕ) → length (range a count) ≡ count
length-range a zero = refl
length-range a (suc count) = ap suc (length-range (suc a) count)

advance_lem : (k count : ℕ) → advance (k % 256) count ≡ (k + count) % 256
advance_lem k zero = ap (λ n. n % 256) (omega arith)
advance_lem k (suc count) =
    ap (λ n. advance n count) {x = (k % 256 + 1) % 256} {y = suc k % 256} (omega arith)
    ∙ advance_lem (suc k) count
    ∙ ap (λ n. n % 256) (omega arith)

module _ (byte : ℕ → ℕ → Token) where
  accesses-append :
      (k : ℕ) (xs bs : List ℕ)
      → accesses byte k (xs ++ bs) ≡ accesses byte k xs ++ accesses byte (k + length xs) bs
  accesses-append k [] bs = ap (λ n. accesses byte n bs) (omega arith)
  accesses-append k (a ∷ xs) bs =
      ap (λ l. byte a (k % 256) ∷ l)
        (accesses-append (suc k) xs bs
          ∙ ap (λ n. accesses byte (suc k) xs ++ accesses byte n bs) (omega arith))

  print_bytes-accesses :
      (base count i k : ℕ)
      → base + i + count ≤ 2 ^ 64
      → print_bytes byte base count i (k % 256) ≡ accesses byte k (range (base + i) count)
  unfolding print_bytes
  print_bytes-accesses base zero i k h = refl
  print_bytes-accesses base (suc count) i k h =
      ap (λ a. byte a (k % 256) ∷ print_bytes byte base count (i + 1) ((k % 256 + 1) % 256))
        {x = offset64 base i} {y = base + i} (omega arith)
      ∙ ap (λ n. byte (base + i) (k % 256) ∷ print_bytes byte base count (i + 1) n)
          {x = (k % 256 + 1) % 256} {y = suc k % 256} (omega arith)
      ∙ ap (λ l. byte (base + i) (k % 256) ∷ l)
          (print_bytes-accesses base count (i + 1) (suc k) (omega arith)
            ∙ ap (λ a. accesses byte (suc k) (range a count)) (omega arith))

-- The addresses are below 2 ^ 64.
abbrev InSpace : (Transfer → ℕ) → List Transfer → Type 0
InSpace address [] = Unit
InSpace address (t ∷ ts) = (address t + 2 ^ t.size ≤ 2 ^ 64) × InSpace address ts

module _ (address : Transfer → ℕ) (byte : ℕ → ℕ → Token) (end : ℕ → Token) where
  bytes-accesses :
      (t : Transfer) (k : ℕ)
      → address t + 2 ^ t.size ≤ 2 ^ 64
      → print_bytes byte (address t) (2 ^ t.size) 0 (k % 256)
        ≡ accesses byte k (range (address t) (2 ^ t.size))
  bytes-accesses t k h =
      print_bytes-accesses byte (address t) (2 ^ t.size) 0 k (omega arith)
      ∙ ap (λ a. accesses byte k (range a (2 ^ t.size))) (omega arith)

  tokens-accesses :
      (t : Transfer) (ts : List Transfer) (k : ℕ)
      → InSpace address (t ∷ ts)
      → tokens address byte end (t ∷ ts) (k % 256)
        ≡ accesses byte k (addresses address (t ∷ ts)) ++ end (past address (t ∷ ts)) ∷ []
  tokens-accesses t [] k h =
      ap (λ l. l ++ end (offset64 (address t) (2 ^ t.size)) ∷ [])
        (bytes-accesses t k h.0
          ∙ ap (accesses byte k) (sym (append-nil (range (address t) (2 ^ t.size)))))
  tokens-accesses t (u ∷ us) k h =
      let count = 2 ^ t.size in
      let here = range (address t) count in
      let rest = addresses address (u ∷ us) in
      let last = end (past address (u ∷ us)) ∷ [] in
      ap (λ l. l ++ tokens address byte end (u ∷ us) (advance (k % 256) count))
        (bytes-accesses t k h.0)
      ∙ ap (λ n. accesses byte k here ++ tokens address byte end (u ∷ us) n) (advance_lem k count)
      ∙ ap (λ l. accesses byte k here ++ l) (tokens-accesses u us (k + count) h.1)
      ∙ sym (append_assoc (accesses byte k here) (accesses byte (k + count) rest) last)
      ∙ ap (λ l. l ++ last)
          (ap (λ n. accesses byte k here ++ accesses byte (k + n) rest)
              (sym (length-range (address t) count))
            ∙ sym (accesses-append byte k here rest))

sources-InSpace : (b c : ℕ) (ts : List Transfer) → Ascending b c ts → InSpace (λ t. t.source) ts
sources-InSpace b c [] a = tt
sources-InSpace b c (t ∷ ts) a =
    (a.2, sources-InSpace (t.source + 2 ^ t.size) (t.destination + 2 ^ t.size) ts a.4)

destinations-InSpace :
    (b c : ℕ) (ts : List Transfer) → Ascending b c ts → InSpace (λ t. t.destination) ts
destinations-InSpace b c [] a = tt
destinations-InSpace b c (t ∷ ts) a =
    (a.3, destinations-InSpace (t.source + 2 ^ t.size) (t.destination + 2 ^ t.size) ts a.4)

-- The output on lists, for transfers that are not none.
pub output-IsTest :
    (stop : ℕ) (words : List ℕ) (printed : List Token) (t : Transfer) (ts : List Transfer)
    → Ascending 0 0 (t ∷ ts)
    → printed ≡ separated (until stop words)
    → IsTest stop words (t ∷ ts) (
        printed
        ++ dollar ∷ (source_tokens (t ∷ ts) 0 ++ assert_open ∷ destination_tokens (t ∷ ts) 0))
output-IsTest stop words printed t ts a w =
    ap
      (λ l. l ++ dollar ∷ (source_tokens (t ∷ ts) 0 ++ assert_open ∷ destination_tokens (t ∷ ts) 0))
      w
    ∙ ap
        (λ l.
          separated (until stop words)
          ++ dollar ∷ (l ++ assert_open ∷ destination_tokens (t ∷ ts) 0))
        (tokens-accesses (λ t. t.source) source_is source_end t ts 0
          (sources-InSpace 0 0 (t ∷ ts) a))
    ∙ ap
        (λ l.
          separated (until stop words)
          ++ dollar
            ∷ ((accesses source_is 0 (addresses (λ t. t.source) (t ∷ ts))
                  ++ source_end (past (λ t. t.source) (t ∷ ts)) ∷ [])
                ++ assert_open ∷ l))
        (tokens-accesses (λ t. t.destination) dest_is assert_close t ts 0
          (destinations-InSpace 0 0 (t ∷ ts) a))
