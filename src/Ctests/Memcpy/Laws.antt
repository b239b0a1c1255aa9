-- ===== src/Ctests/Memcpy/Laws.antt =====
-- What memcpy promises, and when a run of the test ends well.
use cheritest.Common.{
  ℕ, ◌+◌, ◌-◌, ◌%◌, ◌^◌, ◌≤◌, ◌<◌, ◌≡◌, ◌≢◌, ◌⊎◌, ◌∙◌, ap, false, ◌&&◌, ltb, leb, if◌then◌else◌,
  Run, ok, ◌>>=◌,
}
use cheritest.Ctests.Memory.{Memory, Layout}

abbrev pub Apart : (d s n : ℕ) → Type 0
Apart d s n = (d + n ≤ s) ⊎ (s + n ≤ d)

-- The memory `m'` after a copy of `n` bytes: the block at `d` has the bytes that the block at `s` had,
-- and no other byte has changed. A place for a capability that is copied whole takes its tag along if
-- it is aligned alike on both sides, and loses it otherwise; the tags of places outside are as before.
pub record IsBlockCopy (l : Layout) (d s n : ℕ) (m m' : Memory) : Type 0 where
  pub bytes :
      (a : ℕ) → m'.byte a ≡ (if leb d a && ltb a (d + n) then m.byte (s + (a - d)) else m.byte a)
  pub tag_outside : (g : ℕ) → g % l.psize ≡ 0 → (g + l.psize ≤ d) ⊎ (d + n ≤ g) → m'.tag g ≡ m.tag g
  pub tag_moved :
      (g : ℕ)
      → g % l.psize ≡ 0
      → d ≤ g
      → g + l.psize ≤ d + n
      → (s + (g - d)) % l.psize ≡ 0
      → m'.tag g ≡ m.tag (s + (g - d))
  pub tag_lost :
      (g : ℕ)
      → g % l.psize ≡ 0
      → d ≤ g
      → g + l.psize ≤ d + n
      → (s + (g - d)) % l.psize ≢ 0
      → m'.tag g ≡ false

-- What memcpy promises for blocks within the address space that do not overlap: it ends, it returns the
-- destination, and the block is copied.
pub record IsMemcpy (l : Layout) (memcpy : (dst src n : ℕ) → Memory → Run (ℕ × Memory))
    : Type 0 where
  pub ends :
      (d s n : ℕ) (m : Memory)
      → Apart d s n
      → d + n < 2 ^ 64
      → s + n < 2 ^ 64
      → (m' : Memory) × (memcpy d s n m ≡ ok (d, m')) × IsBlockCopy l d s n m m'

-- What memmove promises: the same for any two blocks, but tags where a block is moved onto itself.
pub record IsMemmove (l : Layout) (memmove : (dst src n : ℕ) → Memory → Run (ℕ × Memory))
    : Type 0 where
  pub ends :
      (d s n : ℕ) (m : Memory)
      → d ≢ s
      → d + n < 2 ^ 64
      → s + n < 2 ^ 64
      → (m' : Memory) × (memmove d s n m ≡ ok (d, m')) × IsBlockCopy l d s n m m'

-- The run ends with a memory that satisfies `P`.
abbrev pub Good : (Memory → Type 0) → Run Memory → Type 0
Good P r = (m : Memory) × (r ≡ ok m) × P m

pub Good-bind :
    (P Q : Memory → Type 0) (r : Run Memory) (f : Memory → Run Memory)
    → Good P r
    → ((m : Memory) → P m → Good Q (f m))
    → Good Q (r >>= f)
Good-bind P Q r f (m, e, p) h = let (m', e', q) = h m p in (m', ap (λ r. r >>= f) e ∙ e', q)
