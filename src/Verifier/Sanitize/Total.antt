-- ===== src/Verifier/Sanitize/Total.antt =====
-- The filter ends: the loop over the elements, and all steps together.
use p2s.Prelude.{
  ℕ, zero, suc, ◌+◌, ◌-◌, ◌≤◌, ◌<◌, ◌≡◌, refl, ap, ◌∙◌, ◌⊎◌, inl, inr, ◌&&◌, ◌||◌, some, List, [],
  ◌∷◌, ◌++◌, arith, ltb, ◌==◌, Bool-cases, Option-cases, nat_eq, list_eq, length, ok, err,
  >>=-eq-ok, Text, codes, is_whitespace, starts_with, contains,
}
use p2s.Verifier.Slices.Cuts.{len_utf8-pos}
use p2s.Verifier.Slices.{
  panic, out_of_fuel, Run, byte_len, len_utf8, slice_from, slice, find, find_char, unwrap_or_zero,
}
use p2s.Verifier.Sanitize.{
  strip_html_comments, element_end, hidden_element, elements_loop, strip_tag_pair,
  strip_script_tags, strip_elements_with_style, strip_patterns, strip_style_hidden_elements,
  strip_suspicious_meta_tags, sanitize_content, hiding_styles,
}
use p2s.Verifier.Sanitize.Ends.{
  Ends, ok-Ends, bind-Ends, slice_from-Ends, slice-Ends, comments_loop-Ends, tag_pair_loop-Ends,
  meta_loop-Ends,
}

element_end-Ends : (lower : Text) (i tag_end : ℕ) → Ends (element_end lower i tag_end)
unfolding element_end
element_end-Ends lower i tag_end =
    bind-Ends (slice_from (i + 1) lower) _ (slice_from-Ends (i + 1) lower) (λ name_on q.
      let name_end = unwrap_or_zero (find_char (λ c. is_whitespace c || (c == b'>')) name_on) in
      bind-Ends (slice (i + 1) (i + 1 + name_end) lower) _
        (slice-Ends (i + 1) (i + 1 + name_end) lower)
        (λ tag_name q1.
          bind-Ends (slice_from (i + tag_end + 1) lower) _ (slice_from-Ends (i + tag_end + 1) lower)
            (λ content q2.
              elim (Option-cases (find content (codes "</" ++ (tag_name ++ codes ">")))) [
                | inl f ↦ rw f (ok-Ends _)
                | inr (close, f) ↦ rw f (ok-Ends _)
              ])))

element_end-after : (lower : Text) (i tag_end e : ℕ) → element_end lower i tag_end ≡ ok e → i < e
unfolding element_end
element_end-after lower i tag_end e h =
    let (name_on, q, h1) = >>=-eq-ok (slice_from (i + 1) lower) _ e h in
    let name_end = unwrap_or_zero (find_char (λ c. is_whitespace c || (c == b'>')) name_on) in
    let (tag_name, q1, h2) = >>=-eq-ok (slice (i + 1) (i + 1 + name_end) lower) _ e h1 in
    let (content, q2, h3) = >>=-eq-ok (slice_from (i + tag_end + 1) lower) _ e h2 in
    elim (Option-cases (find content (codes "</" ++ (tag_name ++ codes ">")))) [
      | inl f ↦ ground (arith, h3, f)
      | inr (close, f) ↦ ground (arith, h3, f)
    ]

hidden_element-Ends : (s lower pattern : Text) (i : ℕ) → Ends (hidden_element s lower pattern i)
unfolding hidden_element
hidden_element-Ends s lower pattern i =
    bind-Ends (slice_from i lower) _ (slice_from-Ends i lower) (λ lower_on q.
      bind-Ends (slice_from i s) _ (slice_from-Ends i s) (λ on q1.
        elim (Bool-cases (starts_with lower_on (codes "<"))) [
          | inr e ↦ rw e (ok-Ends _)
          | inl e ↦ elim (Option-cases (find on (codes ">"))) [
            | inl f ↦ rw (e, f) (ok-Ends _)
            | inr (tag_end, f) ↦
                rw (e, f)
                  (bind-Ends (slice i (i + tag_end + 1) lower) _
                    (slice-Ends i (i + tag_end + 1) lower)
                    (λ tag q2.
                      elim (Bool-cases (contains tag (codes "style=") && contains tag pattern)) [
                        | inr g ↦ rw g (ok-Ends _)
                        | inl g ↦ rw g (
                            bind-Ends (element_end lower i tag_end) _
                              (element_end-Ends lower i tag_end) (λ end q3. ok-Ends _))
                      ]))
          ]
        ]))

hidden_element-after :
    (s lower pattern : Text) (i e : ℕ) → hidden_element s lower pattern i ≡ ok (some e) → i < e
unfolding hidden_element
hidden_element-after s lower pattern i e h =
    let (lower_on, q, h1) = >>=-eq-ok (slice_from i lower) _ (some e) h in
    let (on, q1, h2) = >>=-eq-ok (slice_from i s) _ (some e) h1 in
    elim (Bool-cases (starts_with lower_on (codes "<"))) [
      | inr f ↦ absurd (ground (arith, h2, f))
      | inl f ↦ elim (Option-cases (find on (codes ">"))) [
        | inl g ↦ absurd (ground (arith, h2, f, g))
        | inr (tag_end, g) ↦
            let (tag, q2, h3) =
              >>=-eq-ok (slice i (i + tag_end + 1) lower) _ (some e) (rw (f, g) at h2) in
            elim (Bool-cases (contains tag (codes "style=") && contains tag pattern)) [
              | inr k ↦ absurd (ground (arith, h3, k))
              | inl k ↦
                  let (end, q3, h4) =
                    >>=-eq-ok (element_end lower i tag_end) _ (some e) (rw k at h3) in
                  element_end-after lower i tag_end e (ground (arith, q3, h4))
            ]
      ]
    ]

elements_loop-Ends :
    (fuel : ℕ) (s lower pattern : Text) (i : ℕ) (result : Text)
    → byte_len s - i < fuel
    → Ends (elements_loop fuel s lower pattern i result)
unfolding elements_loop
elements_loop-Ends zero s lower pattern i result b = absurd (omega (arith, b))
elements_loop-Ends (suc fuel) s lower pattern i result b = elim (Bool-cases (ltb i (byte_len s))) [
  | inr e ↦ rw (e, elements_loop) (ok-Ends _)
  | inl e ↦
      rw (e, elements_loop)
        (bind-Ends (hidden_element s lower pattern i) _ (hidden_element-Ends s lower pattern i)
          (λ o q. elim (Option-cases o) [
            | inr (end, f) ↦ rw f (
                elements_loop-Ends fuel s lower pattern end result
                  (ground (arith, b, e, hidden_element-after s lower pattern i end (q ∙ ap ok f))))
            | inl f ↦ rw f (
                bind-Ends (slice_from i s) _ (slice_from-Ends i s) (λ on q1.
                  elim on
                    as (λ k. Ends {A = Text} (elim k [
                      | [] ↦ ok result
                      | c ∷ _ ↦
                          elements_loop fuel s lower pattern (i + len_utf8 c) (result ++ c ∷ [])
                    ])) [
                      | [] ↦ ok-Ends result
                      | c ∷ rest ↦
                          elements_loop-Ends fuel s lower pattern (i + len_utf8 c)
                            (result ++ c ∷ []) (ground (arith, b, e, len_utf8-pos c))
                    ]))
          ]))
]

strip_html_comments-Ends : (s : Text) → Ends (strip_html_comments s)
unfolding strip_html_comments
strip_html_comments-Ends s = comments_loop-Ends (suc (length s)) s [] (omega arith)

closing-pos : (body : Text) → 1 ≤ byte_len (b'<' ∷ body)
unfolding byte_len
closing-pos body = omega (arith, len_utf8-pos b'<')

result_or_panic : (m : Run Text) → Ends m → ((r : Text) × (m ≡ ok r)) ⊎ (m ≡ err panic)
result_or_panic (ok r) e = inl (r, refl)
result_or_panic (err panic) e = inr refl
result_or_panic (err out_of_fuel) e = absurd (e refl)

module _ (to_lowercase : Text → Text) where
  strip_tag_pair-Ends :
      (s open_tag close : Text)
      → 1 ≤ byte_len close
      → Ends (strip_tag_pair to_lowercase s open_tag close)
  unfolding strip_tag_pair
  strip_tag_pair-Ends s open_tag close c =
      tag_pair_loop-Ends (suc (length (to_lowercase s))) open_tag close s (to_lowercase s) [] c
        (omega arith)

  strip_patterns-Ends :
      (patterns : List Text) (s : Text) → Ends (strip_patterns to_lowercase patterns s)
  unfolding strip_patterns strip_elements_with_style
  strip_patterns-Ends [] s = ok-Ends s
  strip_patterns-Ends (pattern ∷ patterns) s =
      bind-Ends (strip_elements_with_style to_lowercase s pattern) _
        (elements_loop-Ends (suc (byte_len s)) s (to_lowercase s) pattern 0 [] (omega arith))
        (λ r q. strip_patterns-Ends patterns r)

  strip_style_hidden_elements-Ends : (s : Text) → Ends (strip_style_hidden_elements to_lowercase s)
  unfolding strip_style_hidden_elements
  strip_style_hidden_elements-Ends s =
      bind-Ends (strip_tag_pair to_lowercase s (codes "<style") (codes "</style>")) _
        (strip_tag_pair-Ends s (codes "<style") (codes "</style>") (closing-pos (codes "/style>")))
        (λ r q. strip_patterns-Ends hiding_styles r)

  strip_script_tags-Ends : (s : Text) → Ends (strip_script_tags to_lowercase s)
  unfolding strip_script_tags
  strip_script_tags-Ends s =
      strip_tag_pair-Ends s (codes "<script") (codes "</script>") (closing-pos (codes "/script>"))

  strip_suspicious_meta_tags-Ends : (s : Text) → Ends (strip_suspicious_meta_tags to_lowercase s)
  unfolding strip_suspicious_meta_tags
  strip_suspicious_meta_tags-Ends s =
      meta_loop-Ends (suc (length (to_lowercase s))) s (to_lowercase s) [] (omega arith)

  all_steps : (raw : Text) → Ends (sanitize_content to_lowercase raw)
  unfolding sanitize_content
  all_steps raw = bind-Ends (strip_html_comments raw) _ (strip_html_comments-Ends raw) (λ a q.
      bind-Ends (strip_style_hidden_elements to_lowercase a) _ (strip_style_hidden_elements-Ends a)
        (λ b q1. bind-Ends (strip_script_tags to_lowercase b) _ (strip_script_tags-Ends b) (λ c q2.
          bind-Ends (strip_suspicious_meta_tags to_lowercase c) _
            (strip_suspicious_meta_tags-Ends c) (λ d q3. ok-Ends _))))

  -- Whatever the site serves, and whatever lowercasing does, the fuel of every loop is enough: the filter
  -- hands on a content, or the program panics, where Rust would panic on a slice.
  pub sanitize_content-ends :
      (raw : Text)
      → ((r : Text) × (sanitize_content to_lowercase raw ≡ ok r))
        ⊎ (sanitize_content to_lowercase raw ≡ err panic)
  sanitize_content-ends raw = result_or_panic (sanitize_content to_lowercase raw) (all_steps raw)
