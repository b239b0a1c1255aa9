-- ===== src/Ctests/Memcpy/Frame.antt =====
-- libc_memcpy.c: what the loops of the test that only store bytes change.
use cheritest.Common.{
  ℕ, zero, suc, ◌+◌, ◌-◌, ◌%◌, ◌≤◌, ◌<◌, ◌≡◌, ◌≢◌, ◌⊎◌, inl, inr, ◌∙◌, refl, ap, subst, fun_ext,
  Bool, true, ◌&&◌, ◌==◌, arith,
}
use cheritest.Ctests.Memory.{Memory, Layout, store_byte, place_of, load_pointer}
use cheritest.Ctests.Memcpy.{
  for_all, pad0, pad1, check, invalidate_loop, invalidate, fill_pads, sizeof_test,
}

pub for_all_lem :
    (count i : ℕ) (f : ℕ → Bool)
    → ((j : ℕ) → i ≤ j → j < i + count → f j ≡ true)
    → for_all count i f ≡ true
unfolding for_all
for_all_lem zero i f h = refl
for_all_lem (suc count) i f h =
    ap (λ b. b && for_all count (i + 1) f) (h i (omega arith) (omega arith))
    ∙ for_all_lem count (i + 1) f (λ j a b. h j (omega arith) (omega arith))

eq_or_gt : (i j : ℕ) → i ≤ j → (i ≡ j) ⊎ (i < j)
eq_or_gt i j h = omega arith

module _ (l : Layout) where
  store_byte_other : (a v b : ℕ) (m : Memory) → b ≢ a → (store_byte l a v m).byte b ≡ m.byte b
  unfolding store_byte
  store_byte_other a v b m h = ground arith

  store_byte_same : (a v : ℕ) (m : Memory) → (store_byte l a v m).byte a ≡ v
  unfolding store_byte
  store_byte_same a v m = ground arith

  store_byte_tag :
      (a v g : ℕ) (m : Memory) → g ≢ place_of l a → (store_byte l a v m).tag g ≡ m.tag g
  unfolding store_byte
  store_byte_tag a v g m h = ground arith

  module _ (x : ℕ) where
    loop_byte : (count b : ℕ) (m : Memory) → b ≢ x → (invalidate_loop l count x m).byte b ≡ m.byte b
    unfolding invalidate_loop
    loop_byte zero b m h = refl
    loop_byte (suc count) b m h =
        loop_byte count b (store_byte l x 0xa5 m) h ∙ store_byte_other x 0xa5 b m h

    loop_tag :
        (count g : ℕ) (m : Memory)
        → g ≢ place_of l x
        → (invalidate_loop l count x m).tag g ≡ m.tag g
    unfolding invalidate_loop
    loop_tag zero g m h = refl
    loop_tag (suc count) g m h =
        loop_tag count g (store_byte l x 0xa5 m) h ∙ store_byte_tag x 0xa5 g m h

    pub invalidate_byte : (b : ℕ) (m : Memory) → b ≢ x → (invalidate l x m).byte b ≡ m.byte b
    unfolding invalidate
    invalidate_byte b m h = loop_byte (sizeof_test l) b m h

    pub invalidate_tag :
        (g : ℕ) (m : Memory) → g ≢ place_of l x → (invalidate l x m).tag g ≡ m.tag g
    unfolding invalidate
    invalidate_tag g m h = loop_tag (sizeof_test l) g m h

  -- The loop fills both pads with their indices, from `i` on, and leaves what is before.
  module _ (t : ℕ) where
    fill_step : (i : ℕ) (m : Memory) → Memory
    fill_step i m = store_byte l (pad1 l t + i) i (store_byte l (pad0 l t + i) i m)

    fill_other :
        (count i b : ℕ) (m : Memory)
        → (b < t + i) ⊎ ((t + i + count ≤ b) × (b < t + 32 + l.psize + i))
        → (fill_pads l count i t m).byte b ≡ m.byte b
    unfolding fill_pads
    fill_other zero i b m h = refl
    fill_other (suc count) i b m h =
        fill_other count (i + 1) b _ (omega (arith, h))
        ∙ store_byte_other (pad1 l t + i) i b _ (omega (arith, h))
        ∙ store_byte_other (pad0 l t + i) i b m (omega (arith, h))

    pub fill_pad0 :
        (count i j : ℕ) (m : Memory)
        → i + count ≤ 32
        → i ≤ j
        → j < i + count
        → (fill_pads l count i t m).byte (t + j) ≡ j
    unfolding fill_pads
    fill_pad0 zero i j m c a h = absurd (omega arith)
    fill_pad0 (suc count) i j m c a h = elim (eq_or_gt i j a) [
      | inl e ↦
          subst (λ k. (fill_pads l (suc count) i t m).byte (t + k) ≡ k) e
            (fill_other count (i + 1) (t + i) _ (inl (omega arith))
              ∙ store_byte_other (pad1 l t + i) i (t + i) _ (omega arith)
              ∙ store_byte_same (t + i) i m)
      | inr k ↦ fill_pad0 count (i + 1) j _ (omega arith) (omega arith) (omega arith)
    ]

    pub fill_pad1 :
        (count i j : ℕ) (m : Memory)
        → i + count ≤ 32
        → i ≤ j
        → j < i + count
        → (fill_pads l count i t m).byte (t + 32 + l.psize + j) ≡ j
    unfolding fill_pads
    fill_pad1 zero i j m c a h = absurd (omega arith)
    fill_pad1 (suc count) i j m c a h = elim (eq_or_gt i j a) [
      | inl e ↦
          subst (λ k. (fill_pads l (suc count) i t m).byte (t + 32 + l.psize + k) ≡ k) e
            (fill_other count (i + 1) (pad1 l t + i) _ (inr (omega arith, omega arith))
              ∙ store_byte_same (pad1 l t + i) i _)
      | inr k ↦ fill_pad1 count (i + 1) j _ (omega arith) (omega arith) (omega arith)
    ]

for_all_cong :
    (count i : ℕ) (f g : ℕ → Bool)
    → ((j : ℕ) → i ≤ j → f j ≡ g j)
    → for_all count i f ≡ for_all count i g
unfolding for_all
for_all_cong zero i f g h = refl
for_all_cong (suc count) i f g h =
    both (h i (omega arith)) (for_all_cong count (i + 1) f g (λ j a. h j (omega arith)))
  where
    both : {a b c d : Bool} → a ≡ b → c ≡ d → (a && c) ≡ (b && d)
    both e e' = cc

-- What `invalidate` leaves behind: of the assertions of `check`, from the start 1 on, none fails that
-- did not fail before, so a copy that does nothing passes them if one before it did its work.
pub check-invalidate :
    (l : Layout) (t start end : ℕ) (m : Memory)
    → t % l.psize ≡ 0
    → 0 < start
    → 0 < l.psize
    → check l t start end (invalidate l t m) ≡ check l t start end m
unfolding check load_pointer
check-invalidate l t start end m aligned h size =
    all_four
      (for_all_cong (32 - start) start _ _
        λ j a. ap (λ b. b == j) (invalidate_byte l t (t + j) m (omega arith)))
      (ap (λ f. l.decode f == t) (fun_ext λ i. invalidate_byte l t (t + 32 + i) m (omega arith)))
      (invalidate_tag l t (t + 32) m (omega (arith, aligned)))
      (for_all_cong end 0 _ _
        λ j a. ap (λ b. b == j) (invalidate_byte l t (t + 32 + l.psize + j) m (omega arith)))
  where
    all_four :
        {a b c d e f g h : Bool}
        → a ≡ b
        → c ≡ d
        → e ≡ f
        → g ≡ h
        → (a && (c && (e && g))) ≡ (b && (d && (f && h)))
    all_four p q r s = cc
