-- ===== src/Elf.antt =====
-- elfhdr.c: the tool that puts an ELF header before a file, to be loaded as one segment. It runs on
-- a little-endian machine, where its byte swaps make big-endian fields.
pub mod Bytes
pub mod Correct
pub mod Tests
use cheritest.Common.{
  ℕ, zero, suc, ◌+◌, ◌-◌, ◌*◌, ◌/◌, ◌%◌, ◌^◌, List, [], ◌∷◌, ◌++◌, length, replicate,
}

-- The bytes of a number in memory, and the number that bytes in memory stand for.
abbrev pub store : (count x : ℕ) → List ℕ
store zero x = []
store (suc count) x = x % 256 ∷ store count (x / 256)

abbrev pub load : List ℕ → ℕ
load [] = 0
load (b ∷ bs) = b + 256 * load bs

-- fp[0] to fp[7].
unfoldable pub flip64 : ℕ → ℕ
flip64 x = load (
    x / 2 ^ 56 % 256
    ∷ x / 2 ^ 48 % 256
    ∷ x / 2 ^ 40 % 256
    ∷ x / 2 ^ 32 % 256
    ∷ x / 2 ^ 24 % 256
    ∷ x / 2 ^ 16 % 256
    ∷ x / 2 ^ 8 % 256
    ∷ x % 256
    ∷ [])

-- The system's swaps of 16 and of 32 bits.
unfoldable pub htons : ℕ → ℕ
htons x = load (x / 2 ^ 8 % 256 ∷ x % 256 ∷ [])

unfoldable pub htonl : ℕ → ℕ
htonl x = load (x / 2 ^ 24 % 256 ∷ x / 2 ^ 16 % 256 ∷ x / 2 ^ 8 % 256 ∷ x % 256 ∷ [])

-- The address that the file is loaded at, and where it is in physical memory.
abbrev pub load_address : ℕ
load_address = 0x9000000040000000

abbrev pub physical_address : ℕ
physical_address = 0x40000000

-- The structures of elf.h, as the bytes that `fwrite` takes from them.
unfoldable pub ehdr : List ℕ
unfolding flip64 htons htonl
ehdr =
    0x7f
    ∷ 0x45
    ∷ 0x4c
    ∷ 0x46
    ∷ 2
    ∷ 2
    ∷ 1
    ∷ (replicate 9 0
        ++ store 2 (htons 2)
        ++ store 2 (htons 8)
        ++ store 4 (htonl 1)
        ++ store 8 (flip64 load_address)
        ++ store 8 (flip64 64)
        ++ store 8 (flip64 (64 + 56))
        ++ store 4 (htonl 0x60000001)
        ++ store 2 (htons 64)
        ++ store 2 (htons 56)
        ++ store 2 (htons 1)
        ++ store 2 (htons 64)
        ++ store 2 (htons 3)
        ++ store 2 (htons 2))

unfoldable pub phdr : (st_size : ℕ) → List ℕ
phdr st_size =
    store 4 (htonl 1)
    ++ store 4 (htonl 7)
    ++ store 8 (flip64 1024)
    ++ store 8 (flip64 load_address)
    ++ store 8 (flip64 physical_address)
    ++ store 8 (flip64 st_size)
    ++ store 8 (flip64 st_size)
    ++ store 8 (flip64 1024)

-- A section header: name, type, flags, address, offset, size, alignment and the size of an entry;
-- `sh_link` and `sh_info` stay 0.
unfoldable pub shdr : (name type flags addr offset size addralign entsize : ℕ) → List ℕ
shdr name type flags addr offset size addralign entsize =
    store 4 name
    ++ store 4 type
    ++ store 8 flags
    ++ store 8 addr
    ++ store 8 offset
    ++ store 8 size
    ++ replicate 8 0
    ++ store 8 addralign
    ++ store 8 entsize

unfoldable pub sh0 : List ℕ
sh0 = shdr 0 (htonl 0) 0 0 0 (flip64 0) 0 0

unfoldable pub sh1 : (st_size : ℕ) → List ℕ
sh1 st_size =
    shdr (htonl 11) (htonl 1) (flip64 7) (flip64 load_address) (flip64 1024) (flip64 st_size)
      (flip64 8) 0

unfoldable pub sh2 : List ℕ
sh2 = shdr (htonl 1) (htonl 3) 0 0 (flip64 (64 + 56 + 3 * 64)) (flip64 17) 0 (flip64 0)

abbrev pub strtab : List ℕ
strtab =
    0 ∷ 0x2e ∷ 0x73 ∷ 0x68 ∷ 0x73 ∷ 0x74 ∷ 0x72 ∷ 0x74 ∷ 0x61 ∷ 0x62 ∷ 0 ∷ 0x2e ∷ 0x64 ∷ 0x61 ∷ 0x74
    ∷ 0x61 ∷ 0 ∷ []

-- `fputc(fgetc(f_in), f_out)`, `count` times: past the end of the input the byte is that of EOF.
unfoldable pub copy_file : (count : ℕ) → List ℕ → List ℕ
copy_file zero input = []
copy_file (suc count) [] = 255 ∷ copy_file count []
copy_file (suc count) (b ∷ bs) = b ∷ copy_file count bs

unfoldable pub headers : (st_size : ℕ) → List ℕ
headers st_size = ehdr ++ phdr st_size ++ sh0 ++ sh1 st_size ++ sh2 ++ strtab

-- `fseek` to 1024 from `at`: what it skips reads as zeros, once a byte is written after it.
abbrev pub after_seek : (at : ℕ) → List ℕ → List ℕ
after_seek at [] = []
after_seek at (b ∷ bs) = replicate (1024 - at) 0 ++ b ∷ bs

unfoldable pub elf_file : (st_size : ℕ) → List ℕ → List ℕ
elf_file st_size input =
    headers st_size ++ after_seek (length (headers st_size)) (copy_file st_size input)
