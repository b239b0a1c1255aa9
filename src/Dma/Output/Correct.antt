-- ===== src/Dma/Output/Correct.antt =====
-- The printed test of generate_dma_test.c passes on an engine that moves the bytes.
use cheritest.Common.{
  ℕ, zero, suc, ◌+◌, ◌-◌, ◌%◌, ◌^◌, ◌≤◌, ◌<◌, ◌≡◌, refl, sym, ap, ◌∙◌, ltb, leb, ◌&&◌,
  if◌then◌else◌, List, [], ◌∷◌, ◌++◌, lt→ltb, le→leb, arith,
}
use mathlib.Core.Path.{subst}
use cheritest.Dma.Transfers.{Transfer}
use cheritest.Dma.Output.{
  Token, source_is, dest_is, source_end, assert_close, print_bytes, advance, offset64,
}
use cheritest.Dma.Output.Tokens.{last_end, source_tokens, destination_tokens}
use cheritest.Dma.Output.Bytes.{
  Bytes, assigned, Passes, assigned-append, Passes-append, bytes_below, bytes_at, checks_pass,
}

-- The engine at work: each transfer copies its bytes, in order.
abbrev pub move : List Transfer → (source destination : Bytes) → Bytes
move [] s d = d
move (t ∷ ts) s d = move ts s (λ a.
    if leb t.destination a && ltb a (t.destination + 2 ^ t.size)
    then s (t.source + (a - t.destination))
    else d a)

-- Each transfer starts where the one before it ends, or later, on both sides, for the addresses of
-- the engine only grow; and ends within the address space.
abbrev pub Ascending : (source destination : ℕ) → List Transfer → Type 0
Ascending b c [] = Unit
Ascending b c (t ∷ ts) =
    (b ≤ t.source)
    × (c ≤ t.destination)
    × (t.source + 2 ^ t.size ≤ 2 ^ 64)
    × (t.destination + 2 ^ t.size ≤ 2 ^ 64)
    × Ascending (t.source + 2 ^ t.size) (t.destination + 2 ^ t.size) ts

-- The mark assigns nothing and checks nothing.
mark_assigns :
    (ts : List Transfer) (at : ℕ) (rest : List Token) (m : Bytes)
    → assigned (last_end ts (source_end at) ++ rest) m ≡ assigned rest m
mark_assigns [] at rest m = refl
mark_assigns (u ∷ us) at rest m = refl

mark-Passes : (ts : List Transfer) (at : ℕ) (m : Bytes) → Passes m (last_end ts (assert_close at))
mark-Passes [] at m = tt
mark-Passes (u ∷ us) at m = tt

assigned-tokens :
    (t : Transfer) (ts : List Transfer) (n : ℕ) (m : Bytes)
    → assigned (source_tokens (t ∷ ts) n) m
      ≡ assigned
          (source_tokens ts (advance n (2 ^ t.size)))
          (assigned (print_bytes source_is t.source (2 ^ t.size) 0 n) m)
assigned-tokens t ts n m =
    assigned-append (print_bytes source_is t.source (2 ^ t.size) 0 n)
      (last_end ts (source_end (offset64 t.source (2 ^ t.size)))
        ++ source_tokens ts (advance n (2 ^ t.size)))
      m
    ∙ mark_assigns ts (offset64 t.source (2 ^ t.size)) (source_tokens ts (advance n (2 ^ t.size))) _

sources_below :
    (ts : List Transfer) (b c : ℕ) (n a : ℕ) (m : Bytes)
    → Ascending b c ts
    → a < b
    → assigned (source_tokens ts n) m a ≡ m a
sources_below [] b c n a m h l = refl
sources_below (t ∷ ts) b c n a m h l =
    ap (λ f. f a) (assigned-tokens t ts n m)
    ∙ sources_below ts (t.source + 2 ^ t.size) (t.destination + 2 ^ t.size) (advance n (2 ^ t.size))
        a _ h.4 (omega (arith, h.0))
    ∙ bytes_below t.source (2 ^ t.size) 0 n a m (omega (arith, h.2)) (omega (arith, h.0))

-- The sources hold the numbers of the accesses.
Numbered : List Transfer → ℕ → Bytes → Type 0
Numbered [] n m = Unit
Numbered (t ∷ ts) n m =
    ((j : ℕ) → j < 2 ^ t.size → m (t.source + j) ≡ advance n j)
    × Numbered ts (advance n (2 ^ t.size)) m

Numbered-assigned :
    (ts : List Transfer) (b c : ℕ) (n : ℕ) (m : Bytes)
    → Ascending b c ts
    → Numbered ts n (assigned (source_tokens ts n) m)
unfolding Numbered
Numbered-assigned [] b c n m h = tt
Numbered-assigned (t ∷ ts) b c n m h = (
  λ j l.
      ap (λ f. f (t.source + j)) (assigned-tokens t ts n m)
      ∙ sources_below ts (t.source + 2 ^ t.size) (t.destination + 2 ^ t.size)
          (advance n (2 ^ t.size)) (t.source + j) _ h.4 (omega arith)
      ∙ ap (assigned (print_bytes source_is t.source (2 ^ t.size) 0 n) m) {x = t.source + j}
          {y = t.source + 0 + j} (omega arith)
      ∙ bytes_at t.source (2 ^ t.size) 0 n j m (omega (arith, h.2)) l,
  subst (Numbered ts (advance n (2 ^ t.size))) (sym (assigned-tokens t ts n m)) (
      Numbered-assigned ts (t.source + 2 ^ t.size) (t.destination + 2 ^ t.size)
        (advance n (2 ^ t.size)) _ h.4),
)

moved_below :
    (ts : List Transfer) (b c : ℕ) (a : ℕ) (s d : Bytes)
    → Ascending b c ts
    → a < c
    → move ts s d a ≡ d a
moved_below [] b c a s d h l = refl
moved_below (t ∷ ts) b c a s d h l =
    moved_below ts (t.source + 2 ^ t.size) (t.destination + 2 ^ t.size) a s _ h.4
      (omega (arith, h.1))
    ∙ ground (arith, h.1)

Passes-moved :
    (ts : List Transfer) (b c : ℕ) (n : ℕ) (s d : Bytes)
    → Ascending b c ts
    → Numbered ts n s
    → Passes (move ts s d) (destination_tokens ts n)
unfolding Numbered
Passes-moved [] b c n s d h k = tt
Passes-moved (t ∷ ts) b c n s d h k =
    Passes-append (print_bytes dest_is t.destination (2 ^ t.size) 0 n)
      (last_end ts (assert_close (offset64 t.destination (2 ^ t.size)))
        ++ destination_tokens ts (advance n (2 ^ t.size)))
      (move (t ∷ ts) s d)
      (checks_pass t.destination (2 ^ t.size) 0 n _ (omega (arith, h.3)) (λ j l.
        moved_below ts (t.source + 2 ^ t.size) (t.destination + 2 ^ t.size) (t.destination + 0 + j)
          s _ h.4 (omega arith)
        ∙ copied j l
        ∙ k.0 j l))
      (Passes-append (last_end ts (assert_close (offset64 t.destination (2 ^ t.size))))
        (destination_tokens ts (advance n (2 ^ t.size))) (move (t ∷ ts) s d)
        (mark-Passes ts (offset64 t.destination (2 ^ t.size)) (move (t ∷ ts) s d))
        (Passes-moved ts (t.source + 2 ^ t.size) (t.destination + 2 ^ t.size)
          (advance n (2 ^ t.size)) s _ h.4 k.1))
  where
    copied :
        (j : ℕ)
        → j < 2 ^ t.size
        → (if leb t.destination (t.destination + 0 + j)
              && ltb (t.destination + 0 + j) (t.destination + 2 ^ t.size)
            then s (t.source + (t.destination + 0 + j - t.destination))
            else d (t.destination + 0 + j))
          ≡ s (t.source + j)
    copied j l =
        rw
          (
            le→leb t.destination (t.destination + 0 + j) (omega arith),
            lt→ltb (t.destination + 0 + j) (t.destination + 2 ^ t.size) (omega arith),
          )
          (ap s (omega arith))

-- The checks assign nothing, and the assignments check nothing.
checks_assign :
    (base count i n : ℕ) (rest : List Token) (m : Bytes)
    → assigned (print_bytes dest_is base count i n ++ rest) m ≡ assigned rest m
unfolding print_bytes
checks_assign base zero i n rest m = refl
checks_assign base (suc count) i n rest m = checks_assign base count (i + 1) ((n + 1) % 256) rest m

close_assigns :
    (ts : List Transfer) (at : ℕ) (rest : List Token) (m : Bytes)
    → assigned (last_end ts (assert_close at) ++ rest) m ≡ assigned rest m
close_assigns [] at rest m = refl
close_assigns (u ∷ us) at rest m = refl

pub assigned-destinations :
    (ts : List Transfer) (n : ℕ) (m : Bytes) → assigned (destination_tokens ts n) m ≡ m
assigned-destinations [] n m = refl
assigned-destinations (t ∷ ts) n m =
    checks_assign t.destination (2 ^ t.size) 0 n
      (last_end ts (assert_close (offset64 t.destination (2 ^ t.size)))
        ++ destination_tokens ts (advance n (2 ^ t.size)))
      m
    ∙ close_assigns ts _ (destination_tokens ts (advance n (2 ^ t.size))) m
    ∙ assigned-destinations ts (advance n (2 ^ t.size)) m

assignments_pass :
    (base count i n : ℕ) (rest : List Token) (m : Bytes)
    → Passes m rest
    → Passes m (print_bytes source_is base count i n ++ rest)
unfolding print_bytes
assignments_pass base zero i n rest m p = p
assignments_pass base (suc count) i n rest m p =
    assignments_pass base count (i + 1) ((n + 1) % 256) rest m p

end-Passes :
    (ts : List Transfer) (at : ℕ) (rest : List Token) (m : Bytes)
    → Passes m rest
    → Passes m (last_end ts (source_end at) ++ rest)
end-Passes [] at rest m p = p
end-Passes (u ∷ us) at rest m p = p

pub Passes-sources : (ts : List Transfer) (n : ℕ) (m : Bytes) → Passes m (source_tokens ts n)
Passes-sources [] n m = tt
Passes-sources (t ∷ ts) n m = assignments_pass t.source (2 ^ t.size) 0 n _ m (
    end-Passes ts (offset64 t.source (2 ^ t.size)) _ m
      (Passes-sources ts (advance n (2 ^ t.size)) m))

pub tokens-Passes :
    (ts : List Transfer) (s d : Bytes)
    → Ascending 0 0 ts
    → Passes (move ts (assigned (source_tokens ts 0) s) d) (destination_tokens ts 0)
tokens-Passes ts s d a = Passes-moved ts 0 0 0 _ d a (Numbered-assigned ts 0 0 0 s a)
