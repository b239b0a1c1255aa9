-- ===== src/Copy.antt =====
-- cheri-c-tests/clang-hybrid/memcpy.c: memcpy, memmove, bcopy and their capability variants, which
-- are one body under different macros. Memory has a byte at each 64-bit address, and a tag for each
-- place that a capability fits in.
pub mod Backward
pub mod Copied
pub mod Correct
pub mod Fills
pub mod Forward
pub mod Loops
pub mod Masks
pub mod Tests
use cheritest.Common.{
  Run, ok, fault, hung, ◌>>=◌, ℕ, zero, suc, ◌+◌, ◌-◌, ◌*◌, ◌/◌, ◌%◌, ◌^◌, Bool, true, false, not,
  ◌&&◌, ◌||◌, ◌==◌, ltb, leb, if◌then◌else◌, bit_and, bit_or, bit_xor,
}
use cheritest.Ctests.Memory.{Memory}

-- `size_t` and addresses have 64 bits.
abbrev pub word_mod : ℕ
word_mod = 2 ^ 64

abbrev pub add64 : ℕ → ℕ → ℕ
add64 a b = (a + b) % word_mod

abbrev pub sub64 : ℕ → ℕ → ℕ
sub64 a b = (a + word_mod - b) % word_mod

abbrev pub neg64 : ℕ → ℕ
neg64 a = (word_mod - a) % word_mod

-- sizeof(word), and the test `psize > wsize`.
abbrev pub wsize : ℕ
wsize = 8

abbrev pub bigptr : ℕ → Bool
bigptr psize = ltb wsize psize

-- The functions that the file is compiled to.
pub data Variant : Type 0 where
  memcpy_c memmove cmemmove memmove_c memcpy cmemcpy_c cmemcpy bcopy : Variant

abbrev pub handle_overlap : Variant → Bool
handle_overlap memmove = true
handle_overlap bcopy = true
handle_overlap cmemmove = true
handle_overlap memmove_c = true
handle_overlap _ = false

-- `unit` bytes from `s` replace those at `d`, all read before any is written. A capability takes its
-- tag along; a smaller unit clears the tag of each place that it touches.
abbrev pub store_unit : (psize unit d s : ℕ) → Memory → Memory
store_unit psize unit d s m = record {
  byte = λ a. if leb d a && ltb a (d + unit) then m.byte (s + (a - d)) else m.byte a;
  tag = λ g.
      if bigptr psize && g % psize == 0 && ltb d (g + psize) && ltb g (d + unit)
      then (if unit == psize then m.tag s else false)
      else m.tag g;
}

-- The bounds of the two capabilities that the body copies through.
pub record Bounds : Type 0 where
  pub dst_base : ℕ
  pub dst_top : ℕ
  pub src_base : ℕ
  pub src_top : ℕ

-- Where pointers are addresses they have no bounds.
abbrev pub access_allowed : (caps : Bounds) (psize unit d s : ℕ) → Bool
access_allowed caps psize unit d s =
    not (bigptr psize)
    || (leb caps.dst_base d
        && leb (d + unit) caps.dst_top
        && leb caps.src_base s
        && leb (s + unit) caps.src_top)

-- `*(T *)(dst + t) = *(const T *)(src + t)` at a type of `unit` bytes, which must be aligned and in
-- the bounds of the capabilities.
pub copy_unit : (caps : Bounds) (psize unit dst src t : ℕ) → Memory → Run Memory
copy_unit caps psize unit dst src t m =
    let d = add64 dst t in
    let s = add64 src t in
    if (d % unit == 0) && (s % unit == 0) && access_allowed caps psize unit d s
    then ok (store_unit psize unit d s m)
    else fault

-- The `do` loop of MIPSLOOP, with the `daddiu` that steps its index.
pub do_loop :
    (body : ℕ → Memory → Run Memory) (last increment : ℕ) (fuel index : ℕ) → Memory → Run Memory
do_loop body last increment zero index m = hung
do_loop body last increment (suc fuel) index m =
    let next = add64 index increment in
    body next m >>= λ m'. elim (next == last) [
      | true ↦ ok m'
      | false ↦ do_loop body last increment fuel next m'
    ]

pub mips_loop : (fuel index last increment : ℕ) → (ℕ → Memory → Run Memory) → Memory → Run Memory
mips_loop fuel index last increment body m =
    do_loop body last increment fuel (sub64 index increment) m

-- The variables that the body updates, with the memory.
pub record Cursor : Type 0 where
  pub dst : ℕ
  pub src : ℕ
  pub length : ℕ
  pub mem : Memory

-- `dst += t; src += t; t = -t; MIPSLOOP(t, -unit, …, unit)`
pub step_up : (caps : Bounds) (psize unit t : ℕ) → Cursor → Run Cursor
unfolding mips_loop
step_up caps psize unit t c =
    let dst = add64 c.dst t in
    let src = add64 c.src t in
    mips_loop (t + 1) (neg64 t) (neg64 unit) unit (copy_unit caps psize unit dst src) c.mem >>= λ m.
    ok (record c { dst = dst; src = src; mem = m })

-- `dst -= t; src -= t; t -= unit; MIPSLOOP(t, 0, …, -unit)`
pub step_down : (caps : Bounds) (psize unit t : ℕ) → Cursor → Run Cursor
unfolding mips_loop
step_down caps psize unit t c =
    let dst = sub64 c.dst t in
    let src = sub64 c.src t in
    mips_loop (t + 1) (sub64 t unit) 0 (neg64 unit) (copy_unit caps psize unit dst src) c.mem
    >>= λ m. ok (record c { dst = dst; src = src; mem = m })

-- `length -= t`
abbrev pub consume : ℕ → Cursor → Cursor
consume t c = record c { length = sub64 c.length t }

-- `(t | dst) & mask` and `(t ^ dst) & mask` for a mask of `unit - 1`.
pub misaligned : (unit t dst : ℕ) → Bool
misaligned unit t dst = not (bit_and (bit_or t dst) (unit - 1) == 0)

pub mismatched : (unit t dst : ℕ) → Bool
mismatched unit t dst = not (bit_and (bit_xor t dst) (unit - 1) == 0)

-- Copying forward: bytes up to a word boundary. The count is everything if the low bits differ.
pub align_up_count : Cursor → ℕ
align_up_count c =
    if mismatched wsize c.src c.dst || ltb c.length wsize
    then c.length
    else wsize - bit_and c.src (wsize - 1)

pub align_up : (caps : Bounds) (psize : ℕ) → Cursor → Run Cursor
align_up caps psize c =
    if misaligned wsize c.src c.dst
    then (let t = align_up_count c in step_up caps psize 1 t (consume t c))
    else ok c

-- Words up to a pointer boundary, the count in words.
pub align_up_words_count : (psize : ℕ) → Cursor → ℕ
align_up_words_count psize c =
    if mismatched psize c.src c.dst || ltb c.length psize
    then c.length / wsize
    else (psize - bit_and c.src (psize - 1)) / wsize

-- `if (t)` and the loop over `t` units, as `if` guards it in every later phase.
abbrev pub unless_zero : ℕ → Run Cursor → Cursor → Run Cursor
unless_zero t r c = if t == 0 then ok c else r

pub align_up_words : (caps : Bounds) (psize : ℕ) → Cursor → Run Cursor
align_up_words caps psize c =
    if bigptr psize && misaligned psize c.src c.dst
    then (let t = align_up_words_count psize c in
        unless_zero t (step_up caps psize wsize (t * wsize) (consume (t * wsize) c)) c)
    else ok c

-- Whole pointers; `length` keeps its value.
pub pointers_up : (caps : Bounds) (psize : ℕ) → Cursor → Run Cursor
pointers_up caps psize c =
    let t = c.length / psize in unless_zero t (step_up caps psize psize (t * psize) c) c

-- Trailing bytes.
pub trail_up : (caps : Bounds) (psize : ℕ) → Cursor → Run Cursor
trail_up caps psize c =
    let t = bit_and c.length (psize - 1) in unless_zero t (step_up caps psize 1 t c) c

pub copy_forward : (caps : Bounds) (psize : ℕ) → Cursor → Run Cursor
copy_forward caps psize c =
    align_up caps psize c
    >>= align_up_words caps psize
    >>= pointers_up caps psize
    >>= trail_up caps psize

-- Copying backwards.
pub align_down_count : Cursor → ℕ
align_down_count c =
    if mismatched wsize c.src c.dst || leb c.length wsize
    then c.length
    else bit_and c.src (wsize - 1)

pub align_down : (caps : Bounds) (psize : ℕ) → Cursor → Run Cursor
align_down caps psize c =
    if misaligned wsize c.src c.dst
    then (let t = align_down_count c in step_down caps psize 1 t (consume t c))
    else ok c

pub align_down_words_count : (psize : ℕ) → Cursor → ℕ
align_down_words_count psize c =
    if mismatched psize c.src c.dst || ltb c.length psize
    then c.length / wsize
    else bit_and c.src (psize - 1) / wsize

pub align_down_words : (caps : Bounds) (psize : ℕ) → Cursor → Run Cursor
align_down_words caps psize c =
    if bigptr psize && misaligned psize c.src c.dst
    then (let t = align_down_words_count psize c in
        unless_zero t (step_down caps psize wsize (t * wsize) (consume (t * wsize) c)) c)
    else ok c

pub pointers_down : (caps : Bounds) (psize : ℕ) → Cursor → Run Cursor
pointers_down caps psize c =
    let t = c.length / psize in unless_zero t (step_down caps psize psize (t * psize) c) c

pub trail_down : (caps : Bounds) (psize : ℕ) → Cursor → Run Cursor
trail_down caps psize c =
    let t = bit_and c.length (psize - 1) in unless_zero t (step_down caps psize 1 t c) c

-- `src += length; dst += length` comes first.
pub copy_backward : (caps : Bounds) (psize : ℕ) → Cursor → Run Cursor
copy_backward caps psize c =
    align_down caps psize (record c { dst = add64 c.dst c.length; src = add64 c.src c.length })
    >>= align_down_words caps psize
    >>= pointers_down caps psize
    >>= trail_down caps psize

-- The whole body. The bounds of `dst` and `src` are a parameter: memcpy_c, memmove_c and cmemcpy_c
-- have them from their arguments, the others from __builtin_cheri_bounds_set. `bcopy` takes the
-- same two pointers in the other order. `psize` is 8 where _MIPS_SZCAP is not defined, else 16 or
-- 32.
pub copy : Variant → (caps : Bounds) (psize dst0 src0 length : ℕ) → Memory → Run Memory
copy v caps psize dst0 src0 length m =
    let start : Cursor = record { dst = dst0; src = src0; length = length; mem = m } in
    if length == 0 || src0 == dst0
    then ok m
    else ((if ltb dst0 src0 || not (handle_overlap v)
          then copy_forward caps psize start
          else copy_backward caps psize start)
        >>= λ c. ok c.mem)
