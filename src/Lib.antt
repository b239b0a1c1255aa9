-- ===== src/Lib.antt =====
-- Verified models of the C programs of cheritest, the test suite of the BERI and CHERI processors.
--
-- The suite runs assembly and C tests on a processor model and checks the registers that the model
-- reports. Its C code has these parts that this library follows:
--
-- * fuzz_dma/ writes random programs for the DMA engine, works out which bytes they should move, and
--   prints tests around them. Dma/Rand is the random number generator of dma_test_generation.c;
--   Dma/Structure is `random_dma_program_structure`, over an explicit store of nodes, and its Free is
--   `free_dma_program_structure`; Dma/Tree and Dma/Program are the recursions over a finished
--   structure, `write_random_dma_program` and `generate_random_dma_program`; Dma/Transfers is
--   `list_transfers` and `free_transfer_list`, over an explicit heap; Dma/Output is
--   `print_test_information` of generate_dma_test.c, which prints the test around a program, with
--   the text as a list of tokens; Dma/Schedule is the loop of multithread_test_template.c that
--   switches between the threads of the engine.
-- * cheri-c-tests/clang-hybrid/memcpy.c is the copying routine under test: one body that macros turn
--   into memcpy, memmove, bcopy and the variants on capabilities. Copy has a function for each phase
--   of that body, over a memory of bytes and of tags for the capabilities in it. Every access is
--   checked for its alignment and against the bounds of the two capabilities.
-- * cheri-c-tests/test_runtime.c handles the capability faults that the C tests provoke. Runtime has
--   its functions under their names, with the saved registers as a record; Runtime/Branch states
--   independently how the architecture encodes and executes a conditional branch.
-- * elfhdr.c puts an ELF header before a program, for a loader of the processor model. Elf has the
--   structures that its main fills in as the lists of their bytes.
-- * crt_init_globals.c gives a program's globals their capabilities before it starts. Globals has the
--   loop over the relocations, and Globals/Strlen the strlen of that file.
-- * The small tools of the build and the harness are under Tools: Select is select_init.c, which
--   chooses the linker script and objects of a test; Cycles is max_cycles.c, which chooses how long
--   it runs; Fuzz is fuzz_fpu.c, which makes a test of random instructions; Gxemul and L3 are
--   gxemultosim.c and l3tosim.c, which rewrite register dumps; Report is xmlcat.c, which merges test
--   reports. Each has its main as one function from the arguments or the input to the output.
-- * cheri-c-tests/ has the test cases of the C compiler and library. Ctests/Math is
--   clang_purecap_uintcapmath.c, as the list of its assertions over the operators that it tests.
--   Ctests/Memcpy, Ctests/Memmove and Ctests/Qsort are libc_memcpy.c, libc_memmove.c and
--   libc_qsort.c, over the function that they test; Ctests/Memcpy/Hybrid is the three tests that
--   include memcpy.c, and Ctests/Memcpy/Refine joins that code to what the tests ask of a memcpy;
--   Ctests/Memory is the memory that they share, its bytes and the tags of the capabilities in it.
--   Ctests/Malloc is libc_malloc.c, over an allocator, and Ctests/Cursor is clang_hybrid_cursor.c.
--
-- A run that a fault ends (a misaligned access or one out of bounds, a field read that was never
-- written, a node or a cell of a list that is read, written or freed after it was freed, a write past
-- an array, an assertion that fails, a shift by 32 bits or more, a remainder by zero) and a run that
-- outlasts its fuel are values of Common/Outcome, so a theorem that a run is `ok` says that neither
-- happens. There is one exception: `round` of Dma/Structure moves the value of `dmapn_next_space`
-- also where nothing was written there, as the source does in the last round of every run, and
-- faults only where such a pointer is followed.
--
-- Bounds and fuel. `size_t`, addresses and `unsigned long` have 64 bits, and wrap where the source
-- lets them. A loop of memcpy.c gets one round more than the bytes that it copies;
-- `random_dma_program_structure` gets 51 rounds; a structure is read 26 levels deep and released
-- 25 levels deep, since none is longer than 25; `list_transfers` takes its fuel as an argument, for
-- how long a program runs is up to the engine.
--
-- Not under version control here, hence parameters: the instruction macros of DMAAsm.h, the
-- functions of DMAControl.h, and `dma_execute_instruction` of DMAModel.h, which is assumed to record
-- one transfer at most for each instruction, and addresses that only grow, where a theorem says so.
-- The engine that DMAControl.h controls is assumed to get on with its work where one says so.
-- `malloc` is taken to succeed. Copy has the bytes and the tags of capabilities in memory; the
-- bounds of the two that it copies through are a parameter, since __builtin_cheri_bounds_set may
-- round them. In Runtime the frame of capability registers is laid out as the assertions of the
-- source say, machine/cheri.h being the system's, and the code that faulted is a function from
-- addresses to words.
--
-- The XML library, the built-in functions on capabilities and the operators of the tested integer
-- type are parameters too, with what the theorems assume of them as hypotheses. Common/Text and
-- Common/Numerals have the functions of the C library on texts and numerals that the tools use.
--
-- Not modelled: the generator of multithreaded tests, which is C++, the assembly of
-- crt_init_globals.c for links with a table of capabilities, the registration of the fault handler
-- with the system, and most test cases of cheri-c-tests, each of which is one run of straight-line
-- code.
mod Common
pub mod Copy
pub mod Ctests
pub mod Dma
pub mod Elf
pub mod Globals
pub mod Runtime
pub mod Tools
