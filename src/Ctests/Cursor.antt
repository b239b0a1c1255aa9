-- ===== src/Ctests/Cursor.antt =====
-- cheri-c-tests/clang-hybrid/clang_hybrid_cursor.c: the test of arithmetic on capabilities. The
-- compiler's functions on capabilities are a parameter; arithmetic on a pointer is
-- `offset_increment`, as the compiler translates it.
pub mod Correct
use cheritest.Common.{
  ℕ, zero, suc, ◌+◌, ◌-◌, ◌*◌, ◌%◌, ◌^◌, ◌≤◌, ◌<◌, ◌≡◌, ◌∙◌, refl, ap, subst, ◌⊎◌, inl, inr, Bool,
  true, ◌&&◌, ◌==◌, leb, if◌then◌else◌, Run, ok, fault, ◌>>=◌, arith,
}

pub record CursorBuiltins : Type 1 where
  pub Cap : Type 0
  pub to_cap : ℕ → Cap
  pub from_cap : Cap → ℕ
  pub bounds_set : Cap → ℕ → Cap
  pub offset_increment : Cap → ℕ → Cap
  pub offset_set : Cap → ℕ → Cap
  pub base_get : Cap → ℕ
  pub offset_get : Cap → ℕ
  pub length_get : Cap → ℕ

-- What the architecture says of them while the bounds can be represented. An offset is a number of
-- 64 bits that wraps.
pub record CursorLaws (b : CursorBuiltins) : Type 0 where
  pub from_cap-to_cap : (p : ℕ) → p < 2 ^ 64 → b.from_cap (b.to_cap p) ≡ p
  pub from_cap-address : (c : b.Cap) → b.from_cap c ≡ (b.base_get c + b.offset_get c) % 2 ^ 64
  pub base_get-bounds_set : (c : b.Cap) (n : ℕ) → b.base_get (b.bounds_set c n) ≡ b.from_cap c
  pub offset_get-bounds_set : (c : b.Cap) (n : ℕ) → b.offset_get (b.bounds_set c n) ≡ 0
  pub length_get-bounds_set : (c : b.Cap) (n : ℕ) → b.length_get (b.bounds_set c n) ≡ n
  pub base_get-increment : (c : b.Cap) (o : ℕ) → b.base_get (b.offset_increment c o) ≡ b.base_get c
  pub offset_get-increment :
      (c : b.Cap) (o : ℕ) → b.offset_get (b.offset_increment c o) ≡ (b.offset_get c + o) % 2 ^ 64
  pub length_get-increment :
      (c : b.Cap) (o : ℕ) → b.length_get (b.offset_increment c o) ≡ b.length_get c
  pub offset_get-set : (c : b.Cap) (o : ℕ) → b.offset_get (b.offset_set c o) ≡ o % 2 ^ 64

module _ (b : CursorBuiltins) where
  open b use {
    Cap, to_cap, from_cap, bounds_set, offset_increment, offset_set, base_get, offset_get,
    length_get,
  }

  -- The `int` at an address; an access out of bounds traps.
  abbrev pub in_bounds : Cap → Bool
  in_bounds c = leb (offset_get c + 4) (length_get c)

  unfoldable pub store_int : Cap → ℕ → (ℕ → ℕ) → Run (ℕ → ℕ)
  store_int c v m = if in_bounds c then ok (λ p. if p == from_cap c then v else m p) else fault

  unfoldable pub load_int : Cap → (ℕ → ℕ) → Run ℕ
  load_int c m = if in_bounds c then ok (m (from_cap c)) else fault

  -- The loop, for `count` more indices from `i` on.
  unfoldable pub set_loop : (count i : ℕ) (x : Cap) → (ℕ → ℕ) → Run (ℕ → ℕ)
  unfolding store_int
  set_loop zero i x m = ok m
  set_loop (suc count) i x m =
      store_int (offset_increment x (4 * i)) i m >>= set_loop count (i + 1) x

  -- The loop, with `n` indices left, the next of which is `n - 1`.
  unfoldable pub get_loop : (n : ℕ) (x : Cap) → (ℕ → ℕ) → Run (ℕ → ℕ)
  unfolding load_int
  get_loop zero x m = ok m
  get_loop (suc i) x m = load_int x m >>= λ v.
      let rest = get_loop i (offset_increment x (2 ^ 64 - 4)) m in if v == i then rest else fault

  abbrev pub assert_that : Bool → (ℕ → ℕ) → Run (ℕ → ℕ)
  assert_that t m = if t then ok m else fault

  unfoldable pub clang_hybrid_cursor : (buffer : ℕ) → (ℕ → ℕ) → Run (ℕ → ℕ)
  unfolding set_loop get_loop
  clang_hybrid_cursor buffer m =
      let c = bounds_set (to_cap buffer) (42 * 4) in
      let d = offset_increment c (41 * 4) in
      let v = offset_set (offset_increment d 42) 0 in
      assert_that (buffer == base_get c && (0 == offset_get c && 42 * 4 == length_get c)) m
      >>= set_loop 42 0 c
      >>= assert_that (41 * 4 == offset_get d && from_cap d == buffer + 41 * 4)
      >>= get_loop 42 d
      >>= assert_that (offset_get v == 0)
