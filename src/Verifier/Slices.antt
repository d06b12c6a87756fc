-- ===== src/Verifier/Slices.antt =====
-- `&str` slices by byte offsets, as the loops of verifier/src use them: an offset inside a
-- character or behind the end is a panic.
pub mod Cuts
use p2s.Prelude.{
  ℕ, zero, suc, ◌+◌, ◌-◌, Bool, Option, none, some, [], ◌∷◌, ◌++◌, ltb, leb, ◌==◌, if◌then◌else◌,
  nat_eq, list_eq, length, Result, ok, err, ◌>>=◌, ◌>>◌, reject_if, Text, utf8_char, starts_with,
}

-- A loop that has no fuel left is told apart from a panic of the program.
pub data Fault : Type 0 where
  panic out_of_fuel : Fault

abbrev pub Run : Type 0 → Type 0
Run A = Result Fault A

abbrev pub len_utf8 : ℕ → ℕ
len_utf8 c = length (utf8_char c)

-- `s.len()`
unfoldable pub byte_len : Text → ℕ
byte_len [] = 0
byte_len (c ∷ s) = len_utf8 c + byte_len s

-- `&s[n..]`
unfoldable pub slice_from : ℕ → Text → Run Text
slice_from zero s = ok s
slice_from (suc n) [] = err panic
slice_from (suc n) (c ∷ s) =
    if leb (len_utf8 c) (suc n) then slice_from (suc n - len_utf8 c) s else err panic

-- `&s[..n]`
unfoldable pub slice_to : ℕ → Text → Run Text
slice_to zero s = ok []
slice_to (suc n) [] = err panic
slice_to (suc n) (c ∷ s) =
    let rest = slice_to (suc n - len_utf8 c) s in
    if leb (len_utf8 c) (suc n) then (rest >>= λ r. ok (c ∷ r)) else err panic

-- `&s[a..b]`; a range that ends before it begins is a panic too.
unfoldable pub slice : ℕ → ℕ → Text → Run Text
slice a b s = do reject_if (ltb b a) panic; tail ← slice_from a s; slice_to (b - a) tail

abbrev shift : ℕ → Option ℕ → Option ℕ
shift n none = none
shift n (some i) = some (n + i)

-- `s.find(pat)`: the byte offset of the first occurrence.
unfoldable pub find : Text → Text → Option ℕ
find [] pat = if starts_with [] pat then some 0 else none
find (c ∷ s) pat = if starts_with (c ∷ s) pat then some 0 else shift (len_utf8 c) (find s pat)

-- `s.find(|c| …)`
unfoldable pub find_char : (ℕ → Bool) → Text → Option ℕ
find_char p [] = none
find_char p (c ∷ s) = if p c then some 0 else shift (len_utf8 c) (find_char p s)

-- `s.rfind(c)` of a character: the offset of the last occurrence.
unfoldable pub rfind_char : ℕ → Text → Option ℕ
rfind_char x [] = none
rfind_char x (c ∷ s) = elim (rfind_char x s) [
  | some i ↦ some (len_utf8 c + i)
  | none ↦ if c == x then some 0 else none
]

-- `s.replace(from, to)`: the occurrences from the left, which do not overlap. `skip` characters of
-- the last one are still to be passed over.
unfoldable pub replace_from : ℕ → Text → Text → Text → Text
replace_from skip from to [] = []
replace_from (suc skip) from to (c ∷ s) = replace_from skip from to s
replace_from zero from to (c ∷ s) =
    if starts_with (c ∷ s) from
    then to ++ replace_from (length from - 1) from to s
    else c ∷ replace_from 0 from to s

-- The pattern is not empty wherever the program calls this.
unfoldable pub replace : Text → Text → Text → Text
unfolding replace_from
replace s from to = replace_from 0 from to s

-- `o.unwrap_or(0)`
abbrev pub unwrap_or_zero : Option ℕ → ℕ
unwrap_or_zero none = 0
unwrap_or_zero (some n) = n
