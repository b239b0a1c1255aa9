-- ===== src/Elf/Tests.antt =====
-- The theorems on elfhdr.c at a small file.
use cheritest.Common.{ℕ, ◌≡◌, refl, List, [], ◌∷◌, arith}
use cheritest.Elf.{store, load, flip64}
use cheritest.Elf.Bytes.{eight, read, flip64_big_endian}

-- Two instructions.
abbrev code : List ℕ
code = 0x24 ∷ 0x02 ∷ 0 ∷ 7 ∷ 0x03 ∷ 0xe0 ∷ 0 ∷ 8 ∷ []

-- The bytes of the load address.
flip64_big_endian_example :
    (flip64 (load (eight 0x90 0 0 0 0x40 0 0 0)) ≡ read 0 (eight 0x90 0 0 0 0x40 0 0 0))
    × (store 8 (flip64 (read 0 (eight 0x90 0 0 0 0x40 0 0 0))) ≡ eight 0x90 0 0 0 0x40 0 0 0)
flip64_big_endian_example = flip64_big_endian 0x90 0 0 0 0x40 0 0 0 (
  omega arith,
  (
    omega arith,
    (omega arith, (omega arith, (omega arith, (omega arith, (omega arith, (omega arith, tt)))))),
  ),
)

flip64_runs : flip64 0x9000000040000000 ≡ 0x4000000090
unfolding flip64
flip64_runs = refl
