-- ===== src/Dma/Output/Tokens.antt =====
-- The loops of generate_dma_test.c over the cells of a list print tokens that depend on its
-- transfers only.
use cheritest.Common.{
  ℕ, zero, suc, ◌^◌, ◌<◌, ◌≡◌, refl, List, [], ◌∷◌, ◌++◌, length, ok, arith, true, ◌+◌, ◌≤◌,
}
use cheritest.Dma.Transfers.{Transfer, Heap}
use cheritest.Dma.Transfers.Correct.{Chain}
use cheritest.Dma.Output.{
  Token, source_is, dest_is, source_end, assert_close, print_bytes, print_list, print_sources,
  print_destinations, advance, offset64,
}

-- What marks the end, after the last transfer.
abbrev pub last_end : List Transfer → Token → List Token
last_end [] t = t ∷ []
last_end (u ∷ us) t = []

module _ (address : Transfer → ℕ) (byte : ℕ → ℕ → Token) (end : ℕ → Token) where
  -- The tokens for a list of transfers, which the loop over the cells prints.
  abbrev pub tokens : List Transfer → ℕ → List Token
  tokens [] n = []
  tokens (t ∷ ts) n =
      print_bytes byte (address t) (2 ^ t.size) 0 n
      ++ (last_end ts (end (offset64 (address t) (2 ^ t.size)))
          ++ tokens ts (advance n (2 ^ t.size)))

  print_list-tokens :
      (fuel p n : ℕ) (h : Heap) (ts : List Transfer)
      → Chain h p ts
      → ((q : ℕ) → p < q → q ≤ p + length ts → h.live q ≡ true)
      → length ts < fuel
      → print_list address byte end fuel (h.cell p).next h n ≡ ok (tokens ts n)
  unfolding print_list
  print_list-tokens zero p n h ts c alive l = absurd (omega arith)
  print_list-tokens (suc fuel) p n h [] c alive l = rw c refl
  print_list-tokens (suc fuel) p n h (t ∷ []) c alive l =
      let here : h.live (suc p) ≡ true = alive (suc p) (omega arith) (omega arith) in
      rw
        (
          c.0,
          print_list,
          here,
          c.1,
          print_list-tokens fuel (suc p) (advance n (2 ^ t.size)) h [] c.2
              (λ q a b. alive q (omega arith) (omega arith)) (omega arith),
          c.2,
        )
        refl
  print_list-tokens (suc fuel) p n h (t ∷ u ∷ ts) c alive l =
      let here : h.live (suc p) ≡ true = alive (suc p) (omega arith) (omega arith) in
      rw
        (
          c.0,
          print_list,
          here,
          c.1,
          print_list-tokens fuel (suc p) (advance n (2 ^ t.size)) h (u ∷ ts) c.2
              (λ q a b. alive q (omega arith) (omega arith)) (omega arith),
          c.2.0,
        )
        refl

-- The tokens of the two loops.
abbrev pub source_tokens : List Transfer → ℕ → List Token
source_tokens = tokens (λ t. t.source) source_is source_end

abbrev pub destination_tokens : List Transfer → ℕ → List Token
destination_tokens = tokens (λ t. t.destination) dest_is assert_close

-- The loops over the cells print the tokens.
pub print_sources_lem :
    (fuel p : ℕ) (h : Heap) (ts : List Transfer)
    → Chain h p ts
    → ((q : ℕ) → p < q → q ≤ p + length ts → h.live q ≡ true)
    → length ts < fuel
    → print_sources fuel (h.cell p).next h ≡ ok (source_tokens ts 0)
unfolding print_sources
print_sources_lem fuel p h ts c alive l =
    print_list-tokens (λ t. t.source) source_is source_end fuel p 0 h ts c alive l

pub print_destinations_lem :
    (fuel p : ℕ) (h : Heap) (ts : List Transfer)
    → Chain h p ts
    → ((q : ℕ) → p < q → q ≤ p + length ts → h.live q ≡ true)
    → length ts < fuel
    → print_destinations fuel (h.cell p).next h ≡ ok (destination_tokens ts 0)
unfolding print_destinations
print_destinations_lem fuel p h ts c alive l =
    print_list-tokens (λ t. t.destination) dest_is assert_close fuel p 0 h ts c alive l
