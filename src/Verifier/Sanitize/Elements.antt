-- ===== src/Verifier/Sanitize/Elements.antt =====
-- The loop over hidden elements stands at a character of the text in each round, where the lower case
-- of the text has the same widths.
use p2s.Prelude.{
  ℕ, zero, suc, ◌+◌, ◌≡◌, refl, sym, inl, inr, Bool, true, ◌&&◌, ◌||◌, none, some, [], ◌∷◌, ◌++◌,
  arith, ltb, ◌==◌, Bool-cases, Option-cases, nat_eq, list_eq, all, all-append, ok, ◌>>=◌, Text,
  codes, is_whitespace, utf8_char, starts_with, contains,
}
use mathlib.Core.Path.{subst}
use p2s.Verifier.Slices.{
  Run, len_utf8, byte_len, slice_from, slice, find, find_char, unwrap_or_zero,
}
use p2s.Verifier.Slices.Cuts.{
  same_offset, slice_from-add, slice_from-len_utf8, slice-ok, find-cut, find_char-cut,
  starts_with-cut, SameWidths, SameWidths-sym, aligned_cut, all-slice_from,
}
use p2s.Verifier.Sanitize.{element_end, hidden_element, elements_loop}
use p2s.Verifier.Sanitize.Calm.{Calm, bind-Calm}

bind-eq :
    {A B : Type 0} (m : Run A) (f : A → Run B) (a : A) (b : B)
    → m ≡ ok a
    → f a ≡ ok b
    → (m >>= f) ≡ ok b
bind-eq m f a b e h = subst (λ x. (x >>= f) ≡ ok b) (sym e) h

-- An offset that is behind `i` at a character of the text.
abbrev CutAt : Text → ℕ → Type 0
CutAt s k = (r : Text) × (slice_from k s ≡ ok r)

cut_behind : (s on : Text) (i j : ℕ) → slice_from i s ≡ ok on → CutAt on j → CutAt s (i + j)
cut_behind s on i j h (r, g) = (r, slice_from-add i j s on r h g)

-- Where the opening tag and the element end there are characters.
element_end-cut :
    (lower on : Text) (i tag_end : ℕ)
    → slice_from i lower ≡ ok on
    → starts_with on (codes "<") ≡ true
    → CutAt on (tag_end + 1)
    → (e : ℕ) × (element_end lower i tag_end ≡ ok e) × CutAt lower e
unfolding element_end byte_len utf8_char
element_end-cut lower on i tag_end h open_at closed =
    let (name_on, n) = cut_behind lower on i 1 h (starts_with-cut on (codes "<") open_at) in
    let name_end = unwrap_or_zero (find_char (λ c. is_whitespace c || (c == b'>')) name_on) in
    let (behind, x) = find_char-cut (λ c. is_whitespace c || (c == b'>')) name_on in
    let (tag_name, y) = slice-ok (i + 1) name_end lower name_on behind n x in
    let (content, z) = cut_behind lower on i (tag_end + 1) h closed in
    let z' = same_offset {j = i + tag_end + 1} lower content (omega arith) z in
    let close_tag = codes "</" ++ (tag_name ++ codes ">") in
    elim (Option-cases (find content close_tag)) [
      | inl f ↦ (
        i + (tag_end + 1),
        bind-eq _ _ name_on (i + (tag_end + 1)) n (
            bind-eq _ _ tag_name (i + (tag_end + 1)) y
              (bind-eq _ _ content (i + (tag_end + 1)) z' (rw f refl))),
        (content, z),
      )
      | inr (close, f) ↦
          let e = i + tag_end + 1 + close + byte_len close_tag in
          let (closing, g, w) = find-cut content close_tag close f in
          let (rest, v) = starts_with-cut closing close_tag w in
          (
            e,
            bind-eq _ _ name_on e n
                (bind-eq _ _ tag_name e y (bind-eq _ _ content e z' (rw f refl))),
            cut_behind lower closing (i + tag_end + 1 + close) (byte_len close_tag)
                (slice_from-add (i + tag_end + 1) close lower content closing z' g) (rest, v),
          )
    ]

-- What a round finds at a character: no hidden element, or one that ends at a character.
data Found (s lower pattern : Text) (i : ℕ) : Type 0 where
  visible : hidden_element s lower pattern i ≡ ok none → Found s lower pattern i
  hidden :
      (e : ℕ)
      → hidden_element s lower pattern i ≡ ok (some e)
      → CutAt lower e
      → Found s lower pattern i

hidden_element-Found :
    (s lower pattern on lower_on : Text) (i : ℕ)
    → slice_from i s ≡ ok on
    → slice_from i lower ≡ ok lower_on
    → SameWidths on lower_on
    → Found s lower pattern i
unfolding hidden_element byte_len utf8_char
hidden_element-Found s lower pattern on lower_on i h g w =
    elim (Bool-cases (starts_with lower_on (codes "<"))) [
      | inr a ↦ visible (bind-eq _ _ lower_on none g (bind-eq _ _ on none h (rw a refl)))
      | inl a ↦ elim (Option-cases (find on (codes ">"))) [
        | inl b ↦ visible (bind-eq _ _ lower_on none g (bind-eq _ _ on none h (rw (a, b) refl)))
        | inr (tag_end, b) ↦
            let (closing, f, v) = find-cut on (codes ">") tag_end b in
            let (rest, x) =
              cut_behind on closing tag_end 1 f (starts_with-cut closing (codes ">") v) in
            let (lower_rest, y, _) = aligned_cut (tag_end + 1) on lower_on rest w x in
            let (tag, t) = slice-ok i (tag_end + 1) lower lower_on lower_rest g y in
            let t' : slice i (i + tag_end + 1) lower ≡ ok tag =
              subst (λ n. slice i n lower ≡ ok tag) (omega arith) t in
            elim (Bool-cases (contains tag (codes "style=") && contains tag pattern)) [
              | inr c ↦ visible (
                  bind-eq _ _ lower_on none g
                    (bind-eq _ _ on none h (rw (a, b) (bind-eq _ _ tag none t' (rw c refl)))))
              | inl c ↦
                  let (e, z, cut) = element_end-cut lower lower_on i tag_end g a (lower_rest, y) in
                  hidden e
                    (bind-eq _ _ lower_on (some e) g (
                      bind-eq _ _ on (some e) h (
                        rw (a, b)
                          (bind-eq _ _ tag (some e) t' (rw c (bind-eq _ _ e (some e) z refl))))))
                    cut
            ]
      ]
    ]

module _ (q : ℕ → Bool) where
  pub elements_loop-Calm :
      (fuel : ℕ) (s lower pattern on : Text) (i : ℕ) (result : Text)
      → SameWidths s lower
      → slice_from i s ≡ ok on
      → all q s ≡ true
      → all q result ≡ true
      → Calm q (elements_loop fuel s lower pattern i result)
  unfolding elements_loop
  elements_loop-Calm zero s lower pattern on i result w h a b = tt
  elements_loop-Calm (suc fuel) s lower pattern on i result w h a b =
      elim (Bool-cases (ltb i (byte_len s))) [
        | inr e ↦ rw (e, elements_loop) b
        | inl e ↦
            let (lower_on, g, w') = aligned_cut i s lower on w h in
            elim (hidden_element-Found s lower pattern on lower_on i h g w') [
              | hidden end f (rest, cut) ↦
                  let (on', cut', _) =
                    aligned_cut end lower s rest (SameWidths-sym s lower w) cut in
                  rw (e, elements_loop)
                    (bind-Calm q (hidden_element s lower pattern i) _ (some end) f
                      (elements_loop-Calm fuel s lower pattern on' end result w cut' a b))
              | visible f ↦
                  rw (e, elements_loop)
                    (bind-Calm q (hidden_element s lower pattern i) _ none f (
                      bind-Calm q (slice_from i s) _ on h (
                        (elim on
                            as (λ k.
                              slice_from i s ≡ ok k
                              → all q k ≡ true
                              → Calm q (elim k [
                                | [] ↦ ok result
                                | c ∷ _ ↦
                                    elements_loop fuel s lower pattern (i + len_utf8 c)
                                      (result ++ c ∷ [])
                              ])) [
                                | [] ↦ λ here p. b
                                | c ∷ rest ↦ λ here p.
                                    elements_loop-Calm fuel s lower pattern rest (i + len_utf8 c)
                                      (result ++ c ∷ []) w
                                      (slice_from-add i (len_utf8 c) s (c ∷ rest) rest here
                                        (slice_from-len_utf8 c rest))
                                      a (all-append q result (c ∷ []) b (ground (arith, p)))
                              ])
                          h (all-slice_from q i s on h a))))
            ]
      ]
