-- ===== src/Verifier/Sanitize/Kept.antt =====
-- The filter does not panic on a text whose characters keep their widths in lower case.
use p2s.Prelude.{
  ℕ, suc, ◌≡◌, refl, ◌≢◌, inl, inr, Bool, true, List, [], ◌∷◌, nat_eq, list_eq, length, all, ok,
  err, ◌>>=◌, Text, codes,
}
use p2s.Verifier.Slices.{Run, panic, out_of_fuel, byte_len, slice_from}
use p2s.Verifier.Slices.Cuts.{SameWidths}
use p2s.Verifier.Sanitize.{
  strip_html_comments, strip_tag_pair, strip_script_tags, strip_elements_with_style, strip_patterns,
  strip_style_hidden_elements, strip_suspicious_meta_tags, sanitize_content, hiding_styles,
}
use p2s.Verifier.Sanitize.Calm.{Calm, comments_loop-Calm, tag_pair_loop-Calm, meta_loop-Calm}
use p2s.Verifier.Sanitize.Elements.{elements_loop-Calm}
use p2s.Verifier.Sanitize.Total.{sanitize_content-ends}

-- The next step of a run that has not panicked.
then-Calm :
    (q : ℕ → Bool) (m : Run Text) (f : Text → Run Text)
    → Calm q m
    → ((t : Text) → all q t ≡ true → Calm q (f t))
    → Calm q (m >>= f)
then-Calm q (ok t) f c g = g t c
then-Calm q (err panic) f c g = c
then-Calm q (err out_of_fuel) f c g = tt

then-NoPanic :
    (q : ℕ → Bool) (m : Run Text) (f : Text → Run Text)
    → Calm q m
    → ((t : Text) → all q t ≡ true → f t ≢ err panic)
    → (m >>= f) ≢ err panic
then-NoPanic q (ok t) f c g = g t c
then-NoPanic q (err panic) f c g = absurd c
then-NoPanic q (err out_of_fuel) f c g = λ h. cc

module _ (to_lowercase : Text → Text) (q : ℕ → Bool)
    (keeps : (s : Text) → all q s ≡ true → SameWidths s (to_lowercase s)) where
  strip_tag_pair-Calm :
      (s open_tag close : Text)
      → all q s ≡ true
      → Calm q (strip_tag_pair to_lowercase s open_tag close)
  unfolding strip_tag_pair
  strip_tag_pair-Calm s open_tag close a =
      tag_pair_loop-Calm q (suc (length (to_lowercase s))) open_tag close s (to_lowercase s) []
        (keeps s a) a refl

  strip_elements_with_style-Calm :
      (s pattern : Text)
      → all q s ≡ true
      → Calm q (strip_elements_with_style to_lowercase s pattern)
  unfolding strip_elements_with_style slice_from
  strip_elements_with_style-Calm s pattern a =
      elements_loop-Calm q (suc (byte_len s)) s (to_lowercase s) pattern s 0 [] (keeps s a) refl a
        refl

  strip_patterns-Calm :
      (patterns : List Text) (s : Text)
      → all q s ≡ true
      → Calm q (strip_patterns to_lowercase patterns s)
  unfolding strip_patterns
  strip_patterns-Calm [] s a = a
  strip_patterns-Calm (pattern ∷ patterns) s a =
      then-Calm q (strip_elements_with_style to_lowercase s pattern) _
        (strip_elements_with_style-Calm s pattern a) (strip_patterns-Calm patterns)

  strip_style_hidden_elements-Calm :
      (s : Text) → all q s ≡ true → Calm q (strip_style_hidden_elements to_lowercase s)
  unfolding strip_style_hidden_elements
  strip_style_hidden_elements-Calm s a =
      then-Calm q (strip_tag_pair to_lowercase s (codes "<style") (codes "</style>")) _
        (strip_tag_pair-Calm s (codes "<style") (codes "</style>") a)
        (strip_patterns-Calm hiding_styles)

  strip_script_tags-Calm : (s : Text) → all q s ≡ true → Calm q (strip_script_tags to_lowercase s)
  unfolding strip_script_tags
  strip_script_tags-Calm s a = strip_tag_pair-Calm s (codes "<script") (codes "</script>") a

  strip_suspicious_meta_tags-Calm :
      (s : Text) → all q s ≡ true → Calm q (strip_suspicious_meta_tags to_lowercase s)
  unfolding strip_suspicious_meta_tags
  strip_suspicious_meta_tags-Calm s a =
      meta_loop-Calm q (suc (length (to_lowercase s))) s (to_lowercase s) [] (keeps s a) a refl

  no_panic : (raw : Text) → all q raw ≡ true → sanitize_content to_lowercase raw ≢ err panic
  unfolding sanitize_content strip_html_comments
  no_panic raw a =
      then-NoPanic q (strip_html_comments raw) _
        (comments_loop-Calm q (suc (length raw)) raw [] a refl)
        (λ s1 a1.
          then-NoPanic q (strip_style_hidden_elements to_lowercase s1) _
            (strip_style_hidden_elements-Calm s1 a1)
            (λ s2 a2.
              then-NoPanic q (strip_script_tags to_lowercase s2) _ (strip_script_tags-Calm s2 a2)
                (λ s3 a3.
                  then-NoPanic q (strip_suspicious_meta_tags to_lowercase s3) _
                    (strip_suspicious_meta_tags-Calm s3 a3) (λ s4 a4 h. cc))))

  -- For a class of characters on whose texts lowercasing keeps the width in bytes of each character: on
  -- a site of such characters the filter does not panic and does not run out of fuel, but hands on a
  -- content.
  pub sanitize_content-total :
      (raw : Text) → all q raw ≡ true → (r : Text) × (sanitize_content to_lowercase raw ≡ ok r)
  sanitize_content-total raw a = elim (sanitize_content-ends to_lowercase raw) [
    | inl r ↦ r
    | inr p ↦ absurd (no_panic raw a p)
  ]
