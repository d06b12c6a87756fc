-- ===== src/Prelude/Trim.antt =====
-- `str::trim`, and what it keeps.
use Prim.Native.Nat.{ℕ}
use mathlib.Core.Path.{◌≡◌, refl, ap, ◌∙◌}
use mathlib.Core.Bool.{Bool, true, false}
use mathlib.Core.List.{[], ◌∷◌}
use native.Mathlib.Omega.{arith}
use p2s.Prelude.Tests.{if◌then◌else◌}
use p2s.Prelude.Lists.{all}
use p2s.Prelude.Chars.{Text, is_whitespace}

-- `str::trim_start`.
unfoldable pub trim_start : Text → Text
trim_start [] = []
trim_start (c ∷ s) = if is_whitespace c then trim_start s else c ∷ s

-- A whitespace at the end is dropped, and stays where something stays behind it.
cons_trimmed : ℕ → Text → Text
cons_trimmed c [] = if is_whitespace c then [] else c ∷ []
cons_trimmed c (d ∷ r) = c ∷ d ∷ r

-- `str::trim_end`.
unfoldable pub trim_end : Text → Text
unfolding cons_trimmed
trim_end [] = []
trim_end (c ∷ s) = cons_trimmed c (trim_end s)

unfoldable pub trim : Text → Text
unfolding trim_start trim_end
trim s = trim_end (trim_start s)

all-trim_start : (q : ℕ → Bool) (s : Text) → all q s ≡ true → all q (trim_start s) ≡ true
unfolding trim_start
all-trim_start q [] h = refl
all-trim_start q (c ∷ s) h = ground (arith, all-trim_start q s)

all-cons_trimmed :
    (q : ℕ → Bool) (c : ℕ) (r : Text)
    → q c ≡ true
    → all q r ≡ true
    → all q (cons_trimmed c r) ≡ true
unfolding cons_trimmed
all-cons_trimmed q c [] h k = ground arith
all-cons_trimmed q c (d ∷ r) h k = ground arith

all-trim_end : (q : ℕ → Bool) (s : Text) → all q s ≡ true → all q (trim_end s) ≡ true
unfolding trim_end
all-trim_end q [] h = refl
all-trim_end q (c ∷ s) h =
    all-cons_trimmed q c (trim_end s) (ground arith) (all-trim_end q s (ground arith))

-- Trimming brings in no character.
pub all-trim : (q : ℕ → Bool) (s : Text) → all q s ≡ true → all q (trim s) ≡ true
unfolding trim
all-trim q s h = all-trim_end q (trim_start s) (all-trim_start q s h)

trim_end-cons_trimmed :
    (c : ℕ) (r : Text) → trim_end r ≡ r → trim_end (cons_trimmed c r) ≡ cons_trimmed c r
unfolding trim_end cons_trimmed
trim_end-cons_trimmed c [] h = ground arith
trim_end-cons_trimmed c (d ∷ r) h = ap (cons_trimmed c) h

trim_end-trim_end : (s : Text) → trim_end (trim_end s) ≡ trim_end s
unfolding trim_end
trim_end-trim_end [] = refl
trim_end-trim_end (c ∷ s) = trim_end-cons_trimmed c (trim_end s) (trim_end-trim_end s)

trim_start-cons_trimmed :
    (c : ℕ) (r : Text) → is_whitespace c ≡ false → trim_start (cons_trimmed c r) ≡ cons_trimmed c r
unfolding trim_start cons_trimmed
trim_start-cons_trimmed c [] h = ground arith
trim_start-cons_trimmed c (d ∷ r) h = ground arith

trim_start-trim : (s : Text) → trim_start (trim s) ≡ trim s
unfolding trim
trim_start-trim [] = refl
trim_start-trim (c ∷ s) = ground (arith, trim_start-trim s, trim_start-cons_trimmed c (trim_end s))

-- Trimming once is enough.
pub trim-trim : (s : Text) → trim (trim s) ≡ trim s
trim-trim s = unfold trim in ap trim_end (trim_start-trim s) ∙ trim_end-trim_end (trim_start s)
