-- ===== src/Elf/Bytes.antt =====
-- Big-endian numbers, which is what elfhdr.c makes of its fields.
use cheritest.Common.{
  ℕ, ◌+◌, ◌*◌, ◌/◌, ◌%◌, ◌^◌, ◌<◌, ◌≡◌, refl, ap, ◌∙◌, List, [], ◌∷◌, length, arith,
}
use cheritest.Elf.{store, load, flip64}

abbrev pub AreBytes : List ℕ → Type 0
AreBytes [] = Unit
AreBytes (b ∷ bs) = (b < 256) × AreBytes bs

-- Memory gives back the bytes of the number that they stand for.
pub store-load : (bs : List ℕ) → AreBytes bs → store (length bs) (load bs) ≡ bs
store-load [] h = refl
store-load (b ∷ bs) h =
    ap (λ c. c ∷ store (length bs) ((b + 256 * load bs) / 256)) {x = (b + 256 * load bs) % 256}
      {y = b} (omega (arith, h.0))
    ∙ ap (λ n. b ∷ store (length bs) n) {x = (b + 256 * load bs) / 256} {y = load bs}
        (omega (arith, h.0))
    ∙ ap (λ l. b ∷ l) (store-load bs h.1)

-- The eight bytes of a number from the highest.
abbrev pub big : ℕ → List ℕ
big x =
    x / 2 ^ 56 % 256
    ∷ x / 2 ^ 48 % 256
    ∷ x / 2 ^ 40 % 256
    ∷ x / 2 ^ 32 % 256
    ∷ x / 2 ^ 24 % 256
    ∷ x / 2 ^ 16 % 256
    ∷ x / 2 ^ 8 % 256
    ∷ x % 256
    ∷ []

pub store-flip64 : (x : ℕ) → store 8 (flip64 x) ≡ big x
unfolding flip64
store-flip64 x = store-load (big x) (
  omega arith,
  (
    omega arith,
    (omega arith, (omega arith, (omega arith, (omega arith, (omega arith, (omega arith, tt)))))),
  ),
)

-- How a reader of the file takes a number from it.
abbrev pub read : (acc : ℕ) → List ℕ → ℕ
read acc [] = acc
read acc (b ∷ bs) = read (acc * 256 + b) bs

pub read-big : (x : ℕ) → x < 2 ^ 64 → read 0 (big x) ≡ x
read-big x h = omega arith

-- A field that was written by flip64.
pub read-flip64 : (x : ℕ) → x < 2 ^ 64 → read 0 (store 8 (flip64 x)) ≡ x
read-flip64 x h = ap (read 0) (store-flip64 x) ∙ read-big x h

abbrev pub eight : (a b c d e f g h : ℕ) → List ℕ
eight a b c d e f g h = a ∷ b ∷ c ∷ d ∷ e ∷ f ∷ g ∷ h ∷ []

-- For any eight bytes: where memory has them in this order, flip64 turns the number that a
-- little-endian machine loads into the one that a big-endian machine loads; and when it turns the
-- latter, the little-endian machine stores these bytes in this order.
pub flip64_big_endian :
    (a b c d e f g h : ℕ)
    → AreBytes (eight a b c d e f g h)
    → (flip64 (load (eight a b c d e f g h)) ≡ read 0 (eight a b c d e f g h))
      × (store 8 (flip64 (read 0 (eight a b c d e f g h))) ≡ eight a b c d e f g h)
unfolding flip64
flip64_big_endian a b c d e f g h bytes = (
  turned bytes,
  ap (store 8) {x = flip64 (read 0 (eight a b c d e f g h))} {y = load (eight a b c d e f g h)}
        (back bytes)
      ∙ store-load (eight a b c d e f g h) bytes,
)
  where
    turned :
        AreBytes (eight a b c d e f g h)
        → flip64 (load (eight a b c d e f g h)) ≡ read 0 (eight a b c d e f g h)
    turned (pa, (pb, (pc, (pd, (pe, (pf, (pg, (ph, u)))))))) = omega arith

    back :
        AreBytes (eight a b c d e f g h)
        → flip64 (read 0 (eight a b c d e f g h)) ≡ load (eight a b c d e f g h)
    back (pa, (pb, (pc, (pd, (pe, (pf, (pg, (ph, u)))))))) = omega arith
