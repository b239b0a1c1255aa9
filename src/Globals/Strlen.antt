-- ===== src/Globals/Strlen.antt =====
-- crt_init_globals.c: strlen, on a memory of bytes.
use cheritest.Common.{
  ℕ, zero, suc, ◌+◌, ◌-◌, ◌<◌, ◌≡◌, ap, ◌∙◌, true, false, ◌==◌, Run, ok, fault, hung, ◌>>=◌, Option,
  none, some, arith,
}

-- `while (*p != '\0') p++`; a byte that is not there is a load that traps.
unfoldable pub walk : (byte : ℕ → Option ℕ) (fuel p : ℕ) → Run ℕ
walk byte zero p = hung
walk byte (suc fuel) p = elim (byte p) [
  | none ↦ fault
  | some c ↦ elim (c == 0) [ true ↦ ok p | false ↦ walk byte fuel (p + 1) ]
]

unfoldable pub strlen : (byte : ℕ → Option ℕ) (fuel str : ℕ) → Run ℕ
unfolding walk
strlen byte fuel str = walk byte fuel str >>= λ p. ok (p - str)

-- A string of `n` bytes, none of them NUL, and then a NUL.
pub record IsString (byte : ℕ → Option ℕ) (p n : ℕ) : Type 0 where
  pub chars : (i : ℕ) → i < n → (c : ℕ) × (byte (p + i) ≡ some c) × ((c == 0) ≡ false)
  pub end : byte (p + n) ≡ some 0

walk-IsString :
    (byte : ℕ → Option ℕ) (n p fuel : ℕ)
    → IsString byte p n
    → n < fuel
    → walk byte fuel p ≡ ok (p + n)
unfolding walk
walk-IsString byte n p zero h l = absurd (omega arith)
walk-IsString byte zero p (suc fuel) h l =
    rw (walk, ap byte {x = p} {y = p + 0} (omega arith) ∙ h.end) (ap ok (omega arith))
walk-IsString byte (suc n) p (suc fuel) h l =
    let (c, e, ne) = h.chars 0 (omega arith) in
    rw (walk, ap byte {x = p} {y = p + 0} (omega arith) ∙ e, ne)
      (walk-IsString byte n (p + 1) fuel rest (omega arith) ∙ ap ok (omega arith))
  where
    rest : IsString byte (p + 1) n
    rest = record {
      chars = λ i k.
          let (c, e, ne) = h.chars (i + 1) (omega arith) in
          (c, ap byte {x = p + 1 + i} {y = p + (i + 1)} (omega arith) ∙ e, ne);
      end = ap byte {x = p + 1 + n} {y = p + suc n} (omega arith) ∙ h.end;
    }

-- On a string that ends within the fuel, strlen returns the number of bytes before the NUL and reads
-- nothing after it.
pub strlen-IsString :
    (byte : ℕ → Option ℕ) (n str fuel : ℕ)
    → IsString byte str n
    → n < fuel
    → strlen byte fuel str ≡ ok n
unfolding strlen
strlen-IsString byte n str fuel h l =
    ap (λ r. r >>= λ p. ok (p - str)) (walk-IsString byte n str fuel h l) ∙ ap ok (omega arith)
