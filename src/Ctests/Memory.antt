-- ===== src/Ctests/Memory.antt =====
-- Memory as the C tests see it: bytes, and a tag for each place that a capability fits in. The size
-- of a capability and how it is laid out in memory are parameters.
use cheritest.Common.{
  ℕ, ◌+◌, ◌-◌, ◌%◌, ◌^◌, ◌<◌, ◌≡◌, ◌⊎◌, Bool, true, false, ◌&&◌, ◌==◌, ltb, leb, if◌then◌else◌,
}

-- A tag belongs to the address where the capability starts.
pub record Memory : Type 0 where
  pub byte : ℕ → ℕ
  pub tag : ℕ → Bool

-- The bytes of a capability for an address, and the address that bytes stand for.
pub record Layout : Type 0 where
  pub psize : ℕ
  pub encode : (address i : ℕ) → ℕ
  pub decode : (ℕ → ℕ) → ℕ

pub record IsLayout (l : Layout) : Type 0 where
  pub size : (l.psize ≡ 16) ⊎ (l.psize ≡ 32)
  pub decode-encode :
      (bytes : ℕ → ℕ) (a : ℕ)
      → a < 2 ^ 64
      → ((i : ℕ) → i < l.psize → bytes i ≡ l.encode a i)
      → l.decode bytes ≡ a

module _ (l : Layout) where
  open l use {psize, encode, decode}

  abbrev pub place_of : ℕ → ℕ
  place_of a = a - a % psize

  -- Storing a byte clears the tag of the place that it is in.
  unfoldable pub store_byte : (a v : ℕ) → Memory → Memory
  store_byte a v m = record {
    byte = λ b. if b == a then v else m.byte b;
    tag = λ g. if g == place_of a then false else m.tag g;
  }

  -- At an address that is aligned for it.
  unfoldable pub store_pointer : (a address : ℕ) → Memory → Memory
  store_pointer a address m = record {
    byte = λ b. if leb a b && ltb b (a + psize) then encode address (b - a) else m.byte b;
    tag = λ g. if g == a then true else m.tag g;
  }

  unfoldable pub load_pointer : (a : ℕ) → Memory → ℕ
  load_pointer a m = decode (λ i. m.byte (a + i))
