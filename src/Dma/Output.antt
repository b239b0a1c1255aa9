-- ===== src/Dma/Output.antt =====
-- fuzz_dma/generate_dma_test.c: the test that `print_test_information` prints around a program. The
-- output is a list of tokens, one for each piece that a call of `printf` formats.
pub mod Correct
pub mod Bytes
pub mod Shape
pub mod Tokens
pub mod Whole
pub mod Words
use cheritest.Common.{
  ℕ, zero, suc, ◌+◌, ◌*◌, ◌%◌, ◌^◌, Option, none, some, ◌==◌, if◌then◌else◌, List, [], ◌∷◌, ◌++◌,
  Run, ok, fault, hung, ◌>>=◌,
}
use cheritest.Dma.Program.{DmaAsm, Program, generate_random_dma_program}
use cheritest.Dma.Transfers.{Transfer, Execute, Link, unset, null, to, Heap, deref, list_transfers}

-- "0x%08x"; ", "; "$"; "source[%lld] = %d;"; "$%lld$"; "assert(1"; " && dest[%lld] == %d";
-- ");$%lld"
pub data Token : Type 0 where
  instruction : (word : ℕ) → Token
  comma dollar : Token
  source_is : (at value : ℕ) → Token
  source_end : (at : ℕ) → Token
  assert_open : Token
  dest_is : (at value : ℕ) → Token
  assert_close : (at : ℕ) → Token

-- The loop over the words from `i`; a word that the program does not have is a read past it.
pub print_program : (stop fuel : ℕ) → (cell : ℕ → Option ℕ) → (i : ℕ) → Run (List Token)
print_program stop zero cell i = hung
print_program stop (suc fuel) cell i = elim (cell i) [
  | none ↦ fault
  | some word ↦
      let rest = print_program stop fuel cell (i + 1) in
      if word == stop
      then ok (instruction word ∷ [])
      else (rest >>= λ ts. ok (instruction word ∷ comma ∷ ts))
]

-- An address of 64 bits.
abbrev pub offset64 : (base i : ℕ) → ℕ
offset64 base i = (base + i) % 2 ^ 64

-- The inner loop from `i` on, for `count` more bytes; `access_number` is a `uint8_t`.
pub print_bytes : (token : ℕ → ℕ → Token) (base count i access_number : ℕ) → List Token
print_bytes token base zero i access_number = []
print_bytes token base (suc count) i access_number =
    token (offset64 base i) access_number
    ∷ print_bytes token base count (i + 1) ((access_number + 1) % 256)

-- `access_number` after the inner loop.
abbrev pub advance : (access_number count : ℕ) → ℕ
advance access_number zero = access_number
advance access_number (suc count) = advance ((access_number + 1) % 256) count

-- What follows the bytes of the last transfer.
abbrev pub at_end : Link → Token → List Token
at_end null t = t ∷ []
at_end _ t = []

-- The two loops over the list, which differ in what they print: `address` of a transfer, a byte and
-- the end. A cell that holds no transfer, or no next pointer, is a read of memory never written.
module _ (address : Transfer → ℕ) (byte : ℕ → ℕ → Token) (end : ℕ → Token) where
  pub print_list : (fuel : ℕ) → (current : Link) → Heap → (access_number : ℕ) → Run (List Token)
  print_list zero current h n = hung
  print_list (suc fuel) unset h n = fault
  print_list (suc fuel) null h n = ok []
  print_list (suc fuel) (to p) h n = deref p h >>= λ c. elim c.item [
    | none ↦ fault
    | some t ↦
        let count = 2 ^ t.size in
        print_list fuel c.next h (advance n count) >>= λ rest. ok (
          print_bytes byte (address t) count 0 n
          ++ (at_end c.next (end (offset64 (address t) count)) ++ rest))
  ]

pub print_sources : (fuel : ℕ) → Link → Heap → Run (List Token)
print_sources fuel l h = print_list (λ t. t.source) source_is source_end fuel l h 0

pub print_destinations : (fuel : ℕ) → Link → Heap → Run (List Token)
print_destinations fuel l h = print_list (λ t. t.destination) dest_is assert_close fuel l h 0

-- The whole test. `execute` is the engine with the program in its memory at `at`, `fuel` bounds
-- each loop.
pub print_test_information :
    DmaAsm → (execute : Program → Execute) → (fuel at : ℕ) → Heap → (seed : ℕ) → Run (List Token)
print_test_information asm execute fuel at h seed =
    generate_random_dma_program asm seed >>= λ program.
    print_program asm.dma_op_stop fuel program.cell 0 >>= λ words.
    list_transfers (execute program) fuel at h >>= λ (transfer_list, h').
    print_sources fuel transfer_list h' >>= λ sources.
    print_destinations fuel transfer_list h' >>= λ destinations.
    ok (words ++ dollar ∷ (sources ++ assert_open ∷ destinations))
