-- ===== src/Verifier/Agent/Panics.antt =====
-- An answer on which the parser of the agent panics (agent.rs, `parse_agent_response`).
use p2s.Prelude.{
  ℕ, ◌+◌, ◌≤◌, ◌<◌, ◌≡◌, refl, Bool, true, not, none, some, [], ◌∷◌, ◌++◌, arith, ◌==◌, nat_eq,
  list_eq, length, all, err, Text, codes, trim, utf8_char, starts_with,
}
use p2s.Float.{Float}
use p2s.Json.{Json}
use p2s.Verifier.Slices.{panic, byte_len, slice, find_char, rfind_char}
use p2s.Verifier.Slices.Cuts.{len_utf8-pos}
use p2s.Verifier.Agent.{json_part, parse_agent_response}

find_char_behind :
    (q : ℕ → Bool) (s t : Text) (i : ℕ)
    → all (λ c. not (q c)) s ≡ true
    → find_char q t ≡ some i
    → find_char q (s ++ t) ≡ some (byte_len s + i)
unfolding find_char byte_len
find_char_behind q [] t i h f = ground (arith, f)
find_char_behind q (c ∷ s) t i h f = ground (arith, h, find_char_behind q s t i, f)

rfind_char_absent : (x : ℕ) (s : Text) → all (λ c. not (c == x)) s ≡ true → rfind_char x s ≡ none
unfolding rfind_char
rfind_char_absent x [] h = refl
rfind_char_absent x (c ∷ s) h = ground (arith, h, rfind_char_absent x s)

rfind_char_last :
    (x : ℕ) (s t : Text)
    → all (λ c. not (c == x)) t ≡ true
    → rfind_char x (s ++ x ∷ t) ≡ some (byte_len s)
unfolding rfind_char byte_len
rfind_char_last x [] t h = ground (arith, rfind_char_absent x t h)
rfind_char_last x (c ∷ s) t h = ground (arith, rfind_char_last x s t h)

all-++ : (q : ℕ → Bool) (s t : Text) → all q s ≡ true → all q t ≡ true → all q (s ++ t) ≡ true
all-++ q [] t h g = g
all-++ q (c ∷ s) t h g = ground (arith, h, all-++ q s t, g)

byte_len-pos : (s : Text) → 1 ≤ length s → 1 ≤ byte_len s
unfolding byte_len
byte_len-pos [] h = absurd (omega (arith, h))
byte_len-pos (c ∷ s) h = omega (arith, len_utf8-pos c)

-- The slice begins behind its end.
json_part_panics :
    (s : Text) (start last : ℕ)
    → starts_with s (codes "```") ≡ true
    → find_char (λ c. c == b'{') s ≡ some start
    → rfind_char b'}' s ≡ some last
    → last + 1 < start
    → json_part s ≡ err panic
unfolding json_part slice
json_part_panics s start last f o c lt = ground arith

-- An answer that begins with a fence and closes its last brace before it opens its first, with a text
-- between the two.
abbrev pub crossed : (a b c : Text) → Text
crossed a b c = (codes "```" ++ a) ++ b'}' ∷ (b ++ b'{' ∷ c)

crossed-starts_with : (a b c : Text) → starts_with (crossed a b c) (codes "```") ≡ true
unfolding starts_with
crossed-starts_with a b c = refl

crossed-find_char :
    (a b c : Text)
    → all (λ x. not (x == b'{')) a ≡ true
    → all (λ x. not (x == b'{')) b ≡ true
    → find_char (λ x. x == b'{') (crossed a b c)
      ≡ some (byte_len (codes "```" ++ a) + (byte_len (b'}' ∷ b) + 0))
unfolding find_char byte_len utf8_char
crossed-find_char a b c h g =
    let rest : find_char (λ x. x == b'{') (b'}' ∷ (b ++ b'{' ∷ c))
        ≡ some (byte_len (b'}' ∷ b) + 0) =
      find_char_behind (λ x. x == b'{') (b'}' ∷ b) (b'{' ∷ c) 0 (ground (arith, g)) refl in
    find_char_behind (λ x. x == b'{') (codes "```" ++ a) _ _ (ground (arith, h)) rest

crossed-rfind_char :
    (a b c : Text)
    → all (λ x. not (x == b'}')) b ≡ true
    → all (λ x. not (x == b'}')) c ≡ true
    → rfind_char b'}' (crossed a b c) ≡ some (byte_len (codes "```" ++ a))
crossed-rfind_char a b c h g =
    rfind_char_last b'}' (codes "```" ++ a) (b ++ b'{' ∷ c)
      (all-++ (λ x. not (x == b'}')) b (b'{' ∷ c) h (ground (arith, g)))

module _ (fl : Float) (j : Json fl) where
  -- On a response that, trimmed, is a fence, a text without "{", a "}", one character or more, none of
  -- them a brace, a "{", and a text without "}", the parser panics, whatever the JSON reader does.
  pub parse_agent_response_panics :
      (response a b c : Text)
      → trim response ≡ crossed a b c
      → all (λ x. not (x == b'{')) a ≡ true
      → all (λ x. not (x == b'{')) b ≡ true
      → all (λ x. not (x == b'}')) b ≡ true
      → all (λ x. not (x == b'}')) c ≡ true
      → 1 ≤ length b
      → parse_agent_response fl j response ≡ err panic
  unfolding parse_agent_response byte_len utf8_char
  parse_agent_response_panics response a b c e ha hb hb' hc pos =
      let part =
        json_part_panics (crossed a b c) _ _ (crossed-starts_with a b c)
          (crossed-find_char a b c ha hb) (crossed-rfind_char a b c hb' hc)
          (ground (arith, byte_len-pos b pos)) in
      rw (e, part, parse_agent_response) refl
