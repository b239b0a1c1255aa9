-- ===== src/Common/Text.antt =====
-- Texts as the C library's functions see them: the characters before the NUL.
use Prim.Native.Char.{code}
use Prim.Native.String.{String}
use Prim.Native.Nat.{ℕ, ◌-◌}
use mathlib.Core.Path.{◌≡◌, refl, ap, ◌∙◌, subst}
use mathlib.Core.Bool.{Bool, true, false, ◌&&◌, ◌||◌}
use mathlib.Core.List.{List, [], ◌∷◌, ◌++◌}
use mathlib.Core.Option.{Option, none, some}
use mathlib.Core.Logic.{inl, inr}
use native.Mathlib.Omega.{arith}
use cheritest.Common.Tests.{◌==◌, leb, if◌then◌else◌, Bool-cases}

abbrev pub Text : Type 0
Text = List ℕ

abbrev pub codes : String → Text
codes String.[] = []
codes (String.◌∷◌ c s) = code c ∷ codes s

-- strcmp(s, t) == 0
unfoldable pub text_eq : Text → Text → Bool
text_eq [] [] = true
text_eq [] (d ∷ t) = false
text_eq (c ∷ s) [] = false
text_eq (c ∷ s) (d ∷ t) = c == d && text_eq s t

-- strncmp(s, t, strlen(t)) == 0
unfoldable pub starts_with : Text → Text → Bool
starts_with s [] = true
starts_with [] (d ∷ t) = false
starts_with (c ∷ s) (d ∷ t) = c == d && starts_with s t

-- strstr: the text from the first place where `t` stands.
unfoldable pub strstr : Text → Text → Option Text
strstr [] t = if starts_with [] t then some [] else none
strstr (c ∷ s) t = if starts_with (c ∷ s) t then some (c ∷ s) else strstr s t

unfoldable pub contains : Text → Text → Bool
contains s t = elim (strstr s t) [ none ↦ false | some r ↦ true ]

-- rindex: the text from the last place where the character stands.
unfoldable pub rindex : Text → ℕ → Option Text
rindex [] c = none
rindex (d ∷ s) c = elim (rindex s c) [
  | some r ↦ some r
  | none ↦ if d == c then some (d ∷ s) else none
]

-- No character of the text is `c`.
abbrev pub Lacks : ℕ → Text → Type 0
Lacks c [] = Unit
Lacks c (d ∷ s) = ((d == c) ≡ false) × Lacks c s

pub rindex-Lacks : (c : ℕ) (s : Text) → Lacks c s → rindex s c ≡ none
unfolding rindex
rindex-Lacks c [] h = refl
rindex-Lacks c (d ∷ s) h = rw (rindex-Lacks c s h.1, h.0) refl

pub rindex-append : (c : ℕ) (s t : Text) → Lacks c t → rindex (s ++ c ∷ t) c ≡ some (c ∷ t)
unfolding rindex
rindex-append c [] t h = rw (rindex-Lacks c t h) (ground arith)
rindex-append c (d ∷ s) t h = rw (rindex-append c s t h) refl

-- A piece of the text with one more character before it.
abbrev pub push : ℕ → List Text → List Text
push c [] = (c ∷ []) ∷ []
push c (l ∷ ls) = (c ∷ l) ∷ ls

-- The pieces that `fgets` reads one after the other into a buffer with room for `size` characters
-- and the NUL, `room` of them still free: up to a newline, or to the end of the room.
unfoldable pub lines : (size room : ℕ) → Text → List Text
lines size room [] = []
lines size room (c ∷ s) =
    let next = if c == 0x0a || leb room 1 then size else room - 1 in
    let rest = lines size next s in if c == 0x0a || leb room 1 then (c ∷ []) ∷ rest else push c rest

abbrev pub concat : List Text → Text
concat [] = []
concat (l ∷ ls) = l ++ concat ls

concat-push : (c : ℕ) (ls : List Text) → concat (push c ls) ≡ c ∷ concat ls
concat-push c [] = refl
concat-push c (l ∷ ls) = refl

-- The pieces make up the text.
pub concat-lines : (size room : ℕ) (s : Text) → concat (lines size room s) ≡ s
unfolding lines
concat-lines size room [] = refl
concat-lines size room (c ∷ s) = elim (Bool-cases (c == 0x0a || leb room 1)) [
  | inl e ↦ rw (lines, e) (ap (λ t. c ∷ t) (concat-lines size size s))
  | inr e ↦
      rw (lines, e)
        (concat-push c (lines size (room - 1) s) ∙ ap (λ t. c ∷ t) (concat-lines size (room - 1) s))
]

-- A place that is found is the first one, if the text before it lacks the second character.
pub strstr-append :
    (c d : ℕ) (s r : Text)
    → Lacks d s
    → (c == d) ≡ false
    → strstr (s ++ c ∷ d ∷ r) (c ∷ d ∷ []) ≡ some (c ∷ d ∷ r)
unfolding strstr starts_with
strstr-append c d [] r h ne = ground arith
strstr-append c d (x ∷ []) r h ne = ground arith
strstr-append c d (x ∷ y ∷ s) r h ne = ground (arith, strstr-append c d (y ∷ s) r h.1 ne)

-- Nothing is found in a text that lacks the second character.
pub strstr-Lacks : (c d : ℕ) (s : Text) → Lacks d s → strstr s (c ∷ d ∷ []) ≡ none
unfolding strstr starts_with
strstr-Lacks c d [] h = refl
strstr-Lacks c d (x ∷ []) h = ground arith
strstr-Lacks c d (x ∷ y ∷ s) h = ground (arith, strstr-Lacks c d (y ∷ s) h.1)

pub Lacks-append : (c : ℕ) (s t : Text) → Lacks c s → Lacks c t → Lacks c (s ++ t)
Lacks-append c [] t h k = k
Lacks-append c (d ∷ s) t h k = (h.0, Lacks-append c s t h.1 k)

-- The same as a test.
abbrev pub lacks : ℕ → Text → Bool
lacks c [] = true
lacks c (d ∷ s) = if d == c then false else lacks c s

false-true : false ≡ true → ⊥
false-true e = cc

pub lacks-Lacks : (c : ℕ) (s : Text) → lacks c s ≡ true → Lacks c s
lacks-Lacks c [] h = tt
lacks-Lacks c (d ∷ s) h = elim (Bool-cases (d == c)) [
  | inl e ↦ absurd (false-true (subst (λ b. (if b then false else lacks c s) ≡ true) e h))
  | inr e ↦ (e, lacks-Lacks c s (subst (λ b. (if b then false else lacks c s) ≡ true) e h))
]
