-- ===== src/Elf/Correct.antt =====
-- What a reader of big-endian ELF files finds in the file that elfhdr.c writes.
use cheritest.Common.{ℕ, ◌+◌, ◌*◌, ◌≡◌, List, [], ◌∷◌, length, take, drop, replicate}
use cheritest.Elf.{load_address}
use cheritest.Elf.Bytes.{read}

-- The big-endian number of `count` bytes at an offset of the file.
abbrev pub field : (count at : ℕ) → List ℕ → ℕ
field count at file = read 0 (take count (drop at file))

-- Where the header of a section is.
abbrev pub section_at : (index : ℕ) → List ℕ → ℕ
section_at index file = field 8 40 file + index * field 2 58 file

-- Where its contents are.
abbrev pub contents_at : (index : ℕ) → List ℕ → ℕ
contents_at index file = field 8 (section_at index file + 24) file

-- What a loader needs: the identification of a big-endian ELF file of 64 bits in version 1, for an
-- executable of a MIPS machine; the entry point is the address of the one segment, and the segment's
-- bytes are the input. So are those of section 1, which is named .data in the section of names.
pub record IsElfOf (input file : List ℕ) : Type 0 where
  pub magic : take 4 file ≡ 0x7f ∷ 0x45 ∷ 0x4c ∷ 0x46 ∷ []
  pub elfclass64 : field 1 4 file ≡ 2
  pub elfdata2msb : field 1 5 file ≡ 2
  pub ev_current : field 1 6 file ≡ 1
  pub padding : take 9 (drop 7 file) ≡ replicate 9 0
  pub et_exec : field 2 16 file ≡ 2
  pub em_mips : field 2 18 file ≡ 8
  pub version : field 4 20 file ≡ 1
  pub header_size : field 2 52 file ≡ 64
  pub segment_header_size : field 2 54 file ≡ 56
  pub section_header_size : field 2 58 file ≡ 64
  pub entry : field 8 24 file ≡ load_address
  pub header_at : field 8 32 file ≡ 64
  pub header_count : field 2 56 file ≡ 1
  pub segment_type : field 4 64 file ≡ 1
  pub segment_address : field 8 (64 + 16) file ≡ load_address
  pub segment_size : field 8 (64 + 32) file ≡ length input
  pub segment : take (length input) (drop (field 8 (64 + 8) file) file) ≡ input
  pub section_count : field 2 60 file ≡ 3
  pub section_size : field 8 (section_at 1 file + 32) file ≡ length input
  pub section : take (length input) (drop (contents_at 1 file) file) ≡ input
  pub section_name :
      take 6 (drop (contents_at (field 2 62 file) file + field 4 (section_at 1 file) file) file)
      ≡ 0x2e ∷ 0x64 ∷ 0x61 ∷ 0x74 ∷ 0x61 ∷ 0 ∷ []
