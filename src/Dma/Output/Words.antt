-- ===== src/Dma/Output/Words.antt =====
-- The loop of generate_dma_test.c over the words of the program.
use cheritest.Common.{
  ℕ, zero, suc, ◌+◌, ◌<◌, ◌≡◌, refl, sym, ap, ◌∙◌, Option, some, ◌==◌, if◌then◌else◌, ok, ◌>>=◌,
  ==_self, Bool, true, false, List, [], ◌∷◌, ◌++◌, length, get_elem?, arith,
}
use cheritest.Dma.Output.{Token, instruction, comma, print_program}
use cheritest.Dma.Output.Bytes.{Bytes, assigned, Passes}
use cheritest.Dma.Output.Shape.{until, more, separated}

-- The words up to the first stop.
abbrev pub printed : (stop : ℕ) → List ℕ → List Token
printed stop [] = []
printed stop (w ∷ ws) =
    if w == stop then instruction w ∷ [] else instruction w ∷ comma ∷ printed stop ws

pub print_program_lem :
    (stop fuel i : ℕ) (cell : ℕ → Option ℕ) (ws : List ℕ)
    → ((j : ℕ) → cell (i + j) ≡ get_elem? (ws ++ stop ∷ []) j)
    → length ws < fuel
    → print_program stop fuel cell i ≡ ok (printed stop (ws ++ stop ∷ []))
unfolding print_program
print_program_lem stop zero i cell ws e l = absurd (omega arith)
print_program_lem stop (suc fuel) i cell [] e l = rw (print_program, here, ==_self stop) refl
  where
    here : cell i ≡ some stop
    here = ap cell {x = i} {y = i + 0} (omega arith) ∙ e 0
print_program_lem stop (suc fuel) i cell (w ∷ ws) e l =
    rw
      (
        print_program,
        here,
        print_program_lem stop fuel (i + 1) cell ws
            (λ j. ap cell {x = i + 1 + j} {y = i + suc j} (omega arith) ∙ e (suc j)) (omega arith),
      )
      (by_stop (w == stop))
  where
    here : cell i ≡ some w
    here = ap cell {x = i} {y = i + 0} (omega arith) ∙ e 0

    by_stop :
        (z : Bool)
        → (if z
            then ok (instruction w ∷ [])
            else (ok (printed stop (ws ++ stop ∷ [])) >>= λ ts. ok (instruction w ∷ comma ∷ ts)))
          ≡ ok (
              if z
              then instruction w ∷ []
              else instruction w ∷ comma ∷ printed stop (ws ++ stop ∷ []))
    by_stop true = refl
    by_stop false = refl

pub printed_assigns : (stop : ℕ) (ws : List ℕ) (m : Bytes) → assigned (printed stop ws) m ≡ m
printed_assigns stop [] m = refl
printed_assigns stop (w ∷ ws) m = by_stop (w == stop) (printed_assigns stop ws m)
  where
    by_stop :
        (z : Bool)
        → assigned (printed stop ws) m ≡ m
        → assigned (if z then instruction w ∷ [] else instruction w ∷ comma ∷ printed stop ws) m ≡ m
    by_stop true r = refl
    by_stop false r = r

pub printed-Passes : (stop : ℕ) (ws : List ℕ) (m : Bytes) → Passes m (printed stop ws)
printed-Passes stop [] m = tt
printed-Passes stop (w ∷ ws) m = by_stop (w == stop) (printed-Passes stop ws m)
  where
    by_stop :
        (z : Bool)
        → Passes m (printed stop ws)
        → Passes m (if z then instruction w ∷ [] else instruction w ∷ comma ∷ printed stop ws)
    by_stop true r = tt
    by_stop false r = r

-- The words up to the first stop are printed with commas between them.
until_some :
    (stop : ℕ) (ws : List ℕ) → (x : ℕ) × (xs : List ℕ) × (until stop (ws ++ stop ∷ []) ≡ x ∷ xs)
until_some stop [] = (stop, [], rw (==_self stop) refl)
until_some stop (w ∷ ws) = by_stop (w == stop)
  where
    by_stop :
        (z : Bool)
        → (x : ℕ) × (xs : List ℕ) × ((if z then w ∷ [] else w ∷ until stop (ws ++ stop ∷ []))
            ≡ x ∷ xs)
    by_stop true = (w, [], refl)
    by_stop false = (w, until stop (ws ++ stop ∷ []), refl)

more_lem : (x : ℕ) (xs ws : List ℕ) → ws ≡ x ∷ xs → comma ∷ separated ws ≡ more ws
more_lem x xs ws e = ap (λ l. comma ∷ separated l) e ∙ sym (ap more e)

pub printed-separated :
    (stop : ℕ) (ws : List ℕ)
    → printed stop (ws ++ stop ∷ []) ≡ separated (until stop (ws ++ stop ∷ []))
printed-separated stop [] = rw (==_self stop) refl
printed-separated stop (w ∷ ws) = by_stop (w == stop) (printed-separated stop ws)
  where
    by_stop :
        (z : Bool)
        → printed stop (ws ++ stop ∷ []) ≡ separated (until stop (ws ++ stop ∷ []))
        → (if z then instruction w ∷ [] else instruction w ∷ comma ∷ printed stop (ws ++ stop ∷ []))
          ≡ separated (if z then w ∷ [] else w ∷ until stop (ws ++ stop ∷ []))
    by_stop true r = refl
    by_stop false r =
        let (x, xs, e) = until_some stop ws in
        ap (λ l. instruction w ∷ comma ∷ l) r ∙ ap (λ l. instruction w ∷ l) (more_lem x xs _ e)
