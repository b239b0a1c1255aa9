-- ===== src/Dma/Output/Whole.antt =====
-- The whole output of generate_dma_test.c, for a seed and an engine.
use mathlib.Core.Path.{subst}
use cheritest.Common.{
  ℕ, ◌+◌, ◌≤◌, ◌<◌, ◌≡◌, refl, sym, ap, ◌∙◌, some, ok, true, List, [], ◌∷◌, ◌++◌, length, arith,
}
use cheritest.Dma.Program.{DmaAsm, Program, structure, generate_random_dma_program}
use cheritest.Dma.Program.Correct.{Holds, generate-IsProgram}
use cheritest.Dma.Tree.{Tree, loop_depth, dma_program_length}
use cheritest.Dma.Transfers.{Transfer, Thread, Execute, Heap, first_thread}
use cheritest.Dma.Transfers.Correct.{transfers_of, list_transfers-IsList}
use cheritest.Dma.Output.{Token, dollar, assert_open, print_test_information}
use cheritest.Dma.Output.Bytes.{Bytes, assigned, Passes, assigned-append, Passes-append}
use cheritest.Dma.Output.Correct.{
  Ascending, move, assigned-destinations, Passes-sources, tokens-Passes,
}
use cheritest.Dma.Output.Shape.{IsTest, output-IsTest}
use cheritest.Dma.Output.Tokens.{
  source_tokens, destination_tokens, print_sources_lem, print_destinations_lem,
}
use cheritest.Dma.Output.Words.{
  printed, print_program_lem, printed_assigns, printed-Passes, printed-separated,
}

-- The whole output on lists.
abbrev output : (stop : ℕ) → List ℕ → List Transfer → List Token
output stop ws ts =
    printed stop ws ++ dollar ∷ (source_tokens ts 0 ++ assert_open ∷ destination_tokens ts 0)

output_assigns :
    (stop : ℕ) (ws : List ℕ) (ts : List Transfer) (s : Bytes)
    → assigned (output stop ws ts) s ≡ assigned (source_tokens ts 0) s
output_assigns stop ws ts s =
    assigned-append (printed stop ws)
      (dollar ∷ (source_tokens ts 0 ++ assert_open ∷ destination_tokens ts 0)) s
    ∙ ap (assigned (source_tokens ts 0 ++ assert_open ∷ destination_tokens ts 0))
        (printed_assigns stop ws s)
    ∙ assigned-append (source_tokens ts 0) (assert_open ∷ destination_tokens ts 0) s
    ∙ assigned-destinations ts 0 (assigned (source_tokens ts 0) s)

Passes-output :
    (stop : ℕ) (ws : List ℕ) (ts : List Transfer) (s d : Bytes)
    → Ascending 0 0 ts
    → Passes (move ts (assigned (output stop ws ts) s) d) (output stop ws ts)
Passes-output stop ws ts s d a =
    Passes-append (printed stop ws)
      (dollar ∷ (source_tokens ts 0 ++ assert_open ∷ destination_tokens ts 0)) _
      (printed-Passes stop ws _)
      (Passes-append (source_tokens ts 0) (assert_open ∷ destination_tokens ts 0) _
        (Passes-sources ts 0 _)
        (subst (λ m. Passes (move ts m d) (destination_tokens ts 0))
          (sym (output_assigns stop ws ts s)) (tokens-Passes ts s d a)))

some_output-IsTest :
    (stop : ℕ) (ws : List ℕ) (ts : List Transfer)
    → 0 < length ts
    → Ascending 0 0 ts
    → IsTest stop (ws ++ stop ∷ []) ts (output stop (ws ++ stop ∷ []) ts)
some_output-IsTest stop ws [] h a = absurd (omega arith)
some_output-IsTest stop ws (t ∷ ts) h a =
    output-IsTest stop (ws ++ stop ∷ []) (printed stop (ws ++ stop ∷ [])) t ts a
      (printed-separated stop ws)

-- What an engine must do with a program, in memory at `at`: stop within the fuel after the transfers
-- `ts`, with one at most for each instruction and addresses that only grow.
pub record Runs (execute : Execute) (fuel at : ℕ) (ts : List Transfer) : Type 0 where
  pub single : (th : Thread) → length (execute th).1 ≤ 1
  pub transfers : transfers_of execute fuel (first_thread execute at) ≡ some ts
  pub short : length ts < fuel
  pub ascending : Ascending 0 0 ts

-- For a seed whose loops nest at most four deep, and an engine that runs the program which the seed
-- generates and makes a transfer, with fuel for the words of the program and the transfers, the text
-- that is printed is exactly this: the words of the program up to the first stop, with commas
-- between them; an assignment for each byte that is read, and the address after the last; and one
-- closed assertion with a check for each byte that is written, and the address after the last. The
-- bytes come in the order of the transfers, with the number of the access modulo 256. When the
-- assignments have been made and the engine has moved the bytes, all checks hold, whatever the two
-- arrays held before.
pub print_test_information-Passes :
    (asm : DmaAsm) (execute : Program → Execute) (fuel at : ℕ) (h : Heap) (seed : ℕ) (t : Tree)
    (next : ℕ) (ts : List Transfer) (s d : Bytes)
    → structure seed ≡ ok (t, next)
    → loop_depth t ≤ 4
    → dma_program_length t < fuel
    → 0 < length ts
    → ((p : Program) → generate_random_dma_program asm seed ≡ ok p → Runs (execute p) fuel at ts)
    → (tokens : List Token) × (p : Program) × (words : List ℕ) × (print_test_information asm execute
          fuel at h seed
        ≡ ok tokens)
      × (generate_random_dma_program asm seed ≡ ok p)
      × Holds p words
      × IsTest asm.dma_op_stop words ts tokens
      × Passes (move ts (assigned tokens s) d) tokens
unfolding print_test_information
print_test_information-Passes asm execute fuel at h seed t next ts s d shape shallow enough busy
      engine =
    let (p, generated, is) = generate-IsProgram asm seed t next shape shallow in
    let r = engine p generated in
    let (l, h', listed, list) =
      list_transfers-IsList (execute p) r.single fuel at h ts r.transfers in
    let alive : (q : ℕ) → h.used < q → q ≤ h.used + length ts → h'.live q ≡ true =
      λ q a b. ground (arith, list.live q, list.used) in
    (
      output asm.dma_op_stop (is.body ++ asm.dma_op_stop ∷ []) ts,
      p,
      is.body ++ asm.dma_op_stop ∷ [],
      rw
          (
            generated,
            print_program_lem asm.dma_op_stop fuel 0 p.cell is.body
                (λ j. ap p.cell {x = 0 + j} {y = j} (omega arith) ∙ is.holds.1 j)
                (omega (arith, is.body_length)),
            listed,
            list.head,
            print_sources_lem fuel h.used h' ts list.chain alive r.short,
            print_destinations_lem fuel h.used h' ts list.chain alive r.short,
          )
          refl,
      generated,
      is.holds,
      some_output-IsTest asm.dma_op_stop is.body ts busy r.ascending,
      Passes-output asm.dma_op_stop _ ts s d r.ascending,
    )
