-- ===== src/Copy/Copied.antt =====
-- memcpy.c: memory with part of a block copied, and what one more unit does to it.
use cheritest.Common.{
  ℕ, ◌+◌, ◌-◌, ◌%◌, ◌≤◌, ◌<◌, ◌≡◌, ◌≢◌, ◌⊎◌, inl, inr, ◌∙◌, sym, ap, false, ◌&&◌, ◌==◌, ltb, leb,
  if◌then◌else◌, arith,
}
use cheritest.Ctests.Memory.{Memory}
use cheritest.Copy.{bigptr, store_unit}
use cheritest.Copy.Masks.{IsPointerSize, by_size}

-- `m` with bytes `lo` up to `hi` of the block at `d` taken from the block at `s`. Of the places that
-- this touches, those that it fills take their tags along if they are aligned alike in both blocks;
-- the others lose them.
abbrev pub copied : (p : ℕ) → Memory → (d s lo hi : ℕ) → Memory
copied p m d s lo hi = record {
  byte = λ a. if leb (d + lo) a && ltb a (d + hi) then m.byte (s + (a - d)) else m.byte a;
  tag = λ g.
      if bigptr p && g % p == 0 && ltb lo hi && ltb (d + lo) (g + p) && ltb g (d + hi)
      then (if leb (d + lo) g && leb (g + p) (d + hi) && (s + (g - d)) % p == 0
          then m.tag (s + (g - d))
          else false)
      else m.tag g;
}

pub Memory-path :
    (m m' : Memory) → ((a : ℕ) → m.byte a ≡ m'.byte a) → ((g : ℕ) → m.tag g ≡ m'.tag g) → m ≡ m'
Memory-path m m' h k = λ i. record { byte = λ a. h a i; tag = λ g. k g i }

-- Where a place lies to a range of offsets of the block at `d`.
module _ (p d s lo hi g : ℕ) where
  -- There is no capability here, or it is not in the range.
  abbrev pub Far : Type 0
  Far = (p ≤ 8) ⊎ ((g % p ≢ 0) ⊎ ((hi ≤ lo) ⊎ ((g + p ≤ d + lo) ⊎ (d + hi ≤ g))))

  abbrev pub Filled : Type 0
  Filled = (8 < p) × (g % p ≡ 0) × (d + lo ≤ g) × (g + p ≤ d + hi) × ((s + (g - d)) % p ≡ 0)

  abbrev pub Cleared : Type 0
  Cleared =
      (8 < p)
      × (g % p ≡ 0)
      × (lo < hi)
      × (d + lo < g + p)
      × (g < d + hi)
      × ((g < d + lo) ⊎ ((d + hi < g + p) ⊎ ((s + (g - d)) % p ≢ 0)))

  pub place_cases : Far ⊎ (Filled ⊎ Cleared)
  place_cases = omega arith

  module _ (m : Memory) where
    pub copied-Far : Far → (copied p m d s lo hi).tag g ≡ m.tag g
    copied-Far h = ground (arith, h)

    pub copied-Filled : Filled → (copied p m d s lo hi).tag g ≡ m.tag (s + (g - d))
    copied-Filled h = ground (arith, h)

    pub copied-Cleared : Cleared → (copied p m d s lo hi).tag g ≡ false
    copied-Cleared h = ground (arith, h)

module _ (p unit a b g : ℕ) (m : Memory) where
  store_unit-Far : 0 < unit → Far p a b 0 unit g → (store_unit p unit a b m).tag g ≡ m.tag g
  store_unit-Far pos h = ground (arith, h)

  store_unit-part :
      unit ≢ p
      → 8 < p
      → g % p ≡ 0
      → a < g + p
      → g < a + unit
      → (store_unit p unit a b m).tag g ≡ false
  store_unit-part ne big al low high = ground arith

  store_unit-whole :
      unit ≡ p → 8 < p → g % p ≡ 0 → g ≡ a → (store_unit p unit a b m).tag g ≡ m.tag b
  store_unit-whole e big al at = ground arith

-- A unit at offset `j` that follows the range `lo` up to `hi`, or precedes it.
abbrev pub Extends : (unit j lo hi lo' hi' : ℕ) → Type 0
Extends unit j lo hi lo' hi' =
    ((lo' ≡ lo) × (hi ≡ j) × (hi' ≡ j + unit) × (lo ≤ j))
    ⊎ ((hi' ≡ hi) × (lo ≡ j + unit) × (lo' ≡ j) × (j + unit ≤ hi))

-- The unit is read from bytes that are not written yet.
abbrev pub Unread : (d s unit j lo hi : ℕ) → Type 0
Unread d s unit j lo hi = (hi ≤ lo) ⊎ ((s + j + unit ≤ d + lo) ⊎ (d + hi ≤ s + j))

-- The longer range fills no place that the shorter one does not.
abbrev pub FillsNone : (p d s lo hi lo' hi' : ℕ) → Type 0
FillsNone p d s lo hi lo' hi' =
    (g : ℕ)
    → 8 < p
    → g % p ≡ 0
    → (s + (g - d)) % p ≡ 0
    → d + lo' ≤ g
    → g + p ≤ d + hi'
    → (d + lo ≤ g) × (g + p ≤ d + hi)

-- Two places are the same, or apart.
places_apart :
    (p a b : ℕ) → IsPointerSize p → a % p ≡ 0 → b % p ≡ 0 → (a + p ≤ b) ⊎ ((a ≡ b) ⊎ (b + p ≤ a))
places_apart p a b size =
    by_size (λ p. a % p ≡ 0 → b % p ≡ 0 → (a + p ≤ b) ⊎ ((a ≡ b) ⊎ (b + p ≤ a))) p size
      (λ h k. omega (arith, h, k)) (λ h k. omega (arith, h, k)) (λ h k. omega (arith, h, k))

module _ (p d s unit j lo hi lo' hi' g : ℕ) (ext : Extends unit j lo hi lo' hi') (pos : 0 < unit)
    (m : Memory) where
  -- The place is apart from the unit: it stays far, filled or cleared.
  tag_beside :
      Far p (d + j) (s + j) 0 unit g
      → (store_unit p unit (d + j) (s + j) (copied p m d s lo hi)).tag g
        ≡ (copied p m d s lo' hi').tag g
  tag_beside far =
      store_unit-Far p unit (d + j) (s + j) g (copied p m d s lo hi) pos far
      ∙ elim (place_cases p d s lo hi g) [
        | inl h ↦ copied-Far p d s lo hi g m h ∙ sym (copied-Far p d s lo' hi' g m (omega arith))
        | inr (inl h) ↦
            copied-Filled p d s lo hi g m h ∙ sym (copied-Filled p d s lo' hi' g m (omega arith))
        | inr (inr h) ↦
            copied-Cleared p d s lo hi g m h ∙ sym (copied-Cleared p d s lo' hi' g m (omega arith))
      ]

  -- A unit smaller than a capability.
  tag_part :
      unit ≢ p
      → FillsNone p d s lo hi lo' hi'
      → (store_unit p unit (d + j) (s + j) (copied p m d s lo hi)).tag g
        ≡ (copied p m d s lo' hi').tag g
  tag_part ne none = elim (place_cases p (d + j) (s + j) 0 unit g) [
    | inl far ↦ tag_beside far
    | inr (inl (big, al, low, high, _)) ↦ touched big al (omega arith) (omega arith)
    | inr (inr (big, al, _, low, high, _)) ↦ touched big al (omega arith) (omega arith)
  ]
    where
      touched :
          8 < p
          → g % p ≡ 0
          → d + j < g + p
          → g < d + j + unit
          → (store_unit p unit (d + j) (s + j) (copied p m d s lo hi)).tag g
            ≡ (copied p m d s lo' hi').tag g
      touched big al low high =
          store_unit-part p unit (d + j) (s + j) g (copied p m d s lo hi) ne big al low high
          ∙ sym (elim (place_cases p d s lo' hi' g) [
            | inl far ↦ absurd (omega arith)
            | inr (inl f) ↦ absurd (omega (arith, none g big al f.4 f.2 f.3))
            | inr (inr c) ↦ copied-Cleared p d s lo' hi' g m c
          ])

  -- A whole capability, which is read from a place that is not written yet.
  tag_whole :
      IsPointerSize p
      → unit ≡ p
      → (d + j) % p ≡ 0
      → (s + j) % p ≡ 0
      → Unread d s unit j lo hi
      → (store_unit p unit (d + j) (s + j) (copied p m d s lo hi)).tag g
        ≡ (copied p m d s lo' hi').tag g
  tag_whole size e dal sal unread = elim (place_cases p (d + j) (s + j) 0 unit g) [
    | inl far ↦ tag_beside far
    | inr (inl (big, al, low, high, _)) ↦
        here big al (omega (arith, places_apart p g (d + j) size al dal))
    | inr (inr (big, al, _, low, high, _)) ↦
        here big al (omega (arith, places_apart p g (d + j) size al dal))
  ]
    where
      here :
          8 < p
          → g % p ≡ 0
          → g ≡ d + j
          → (store_unit p unit (d + j) (s + j) (copied p m d s lo hi)).tag g
            ≡ (copied p m d s lo' hi').tag g
      here big al at =
          store_unit-whole p unit (d + j) (s + j) g (copied p m d s lo hi) e big al at
          ∙ copied-Far p d s lo hi (s + j) m (omega arith)
          ∙ ap m.tag {x = s + j} {y = s + (g - d)} (omega arith)
          ∙ sym (
              copied-Filled p d s lo' hi' g m (
                big,
                al,
                omega arith,
                omega arith,
                ap (λ a. a % p) {x = s + (g - d)} {y = s + j} (omega arith) ∙ sal,
              ))

  bytes_follow :
      Unread d s unit j lo hi
      → (a : ℕ)
      → (store_unit p unit (d + j) (s + j) (copied p m d s lo hi)).byte a
        ≡ (copied p m d s lo' hi').byte a
  bytes_follow unread a = elim ext [ inl up ↦ ground arith | inr down ↦ ground arith ]

-- Units of `unit` bytes are whole capabilities, or fill none.
abbrev pub Units : (p d s unit lo hi lo' hi' : ℕ) → Type 0
Units p d s unit lo hi lo' hi' = (unit ≡ p) ⊎ ((unit ≢ p) × FillsNone p d s lo hi lo' hi')

-- One more unit.
pub store_unit-copied :
    (p d s unit j lo hi lo' hi' : ℕ) (m : Memory)
    → IsPointerSize p
    → Extends unit j lo hi lo' hi'
    → 0 < unit
    → (d + j) % unit ≡ 0
    → (s + j) % unit ≡ 0
    → Unread d s unit j lo hi
    → Units p d s unit lo hi lo' hi'
    → store_unit p unit (d + j) (s + j) (copied p m d s lo hi) ≡ copied p m d s lo' hi'
store_unit-copied p d s unit j lo hi lo' hi' m size ext pos dal sal unread units =
    Memory-path _ _ (bytes_follow p d s unit j lo hi lo' hi' 0 ext pos m unread) λ g. elim units [
      | inl e ↦
          tag_whole p d s unit j lo hi lo' hi' g ext pos m size e
            (ap (λ u. (d + j) % u) (sym e) ∙ dal) (ap (λ u. (s + j) % u) (sym e) ∙ sal) unread
      | inr (ne, none) ↦ tag_part p d s unit j lo hi lo' hi' g ext pos m ne none
    ]
