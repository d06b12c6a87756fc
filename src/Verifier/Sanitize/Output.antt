-- ===== src/Verifier/Sanitize/Output.antt =====
-- What `sanitize_content` guarantees of every text that it returns.
use p2s.Prelude.{
  ℕ, zero, suc, ◌+◌, ◌-◌, ◌≤◌, ◌≡◌, refl, inl, inr, Bool, true, false, not, [], ◌∷◌, arith, leb,
  Bool-cases, nat_eq, list_eq, length, length-append, take, length-take, all, all-filterb_self,
  all-take, all-append, ok, >>=-eq-ok, ok-injective, Text, codes, is_whitespace, starts_with,
  contains,
}
use mathlib.Core.Path.{subst}
use p2s.Verifier.Slices.{replace, replace_from}
use p2s.Verifier.Sanitize.{
  sanitize_content, strip_html_comments, strip_style_hidden_elements, strip_script_tags,
  strip_suspicious_meta_tags, finish, collapse, collapse_whitespace, escape_data_boundary_tags,
  strip_invisible_text, truncate_if_excessive, closing_tag, opening_tag, is_invisible,
}
use p2s.Verifier.Sanitize.Boundary.{
  plain, contains-replace_from, contains-replace_self, contains-collapse, contains-cut,
}

abbrev pub max_output : ℕ
max_output = 50020

-- The filtered content: the prompt's delimiters do not occur in it, nor do invisible characters,
-- and its length is bounded.
pub record IsFiltered (r : Text) : Type 0 where
  pub no_closing : contains r closing_tag ≡ false
  pub no_opening : contains r opening_tag ≡ false
  pub visible : all (λ c. not (is_invisible c)) r ≡ true
  pub bounded : length r ≤ max_output

abbrev pub closing_body : Text
closing_body = codes "/UNTRUSTED_DATA>"

abbrev opening_body : Text
opening_body = codes "UNTRUSTED_DATA>"

pub closing_plain : all plain closing_body ≡ true
unfolding is_whitespace
closing_plain = refl

opening_plain : all plain opening_body ≡ true
unfolding is_whitespace
opening_plain = refl

escape-no_closing : (s : Text) → contains (escape_data_boundary_tags s) closing_tag ≡ false
unfolding escape_data_boundary_tags replace
escape-no_closing s =
    contains-replace_from closing_body closing_plain (codes "lt;UNTRUSTED_DATA&gt;") refl
      opening_tag 0 (replace s closing_tag (codes "&lt;/UNTRUSTED_DATA&gt;"))
      (contains-replace_self closing_body closing_plain (codes "lt;/UNTRUSTED_DATA&gt;") refl 0 s)

escape-no_opening : (s : Text) → contains (escape_data_boundary_tags s) opening_tag ≡ false
unfolding escape_data_boundary_tags replace
escape-no_opening s =
    contains-replace_self opening_body opening_plain (codes "lt;UNTRUSTED_DATA&gt;") refl 0
      (replace s closing_tag (codes "&lt;/UNTRUSTED_DATA&gt;"))

truncate-contains :
    (body : Text)
    → all plain body ≡ true
    → (s : Text) (n : ℕ) → contains s (b'<' ∷ body) ≡ false
    → contains (truncate_if_excessive s n) (b'<' ∷ body) ≡ false
unfolding truncate_if_excessive
truncate-contains body is_plain s n h = elim (Bool-cases (leb (length s) n)) [
  | inl e ↦ rw e h
  | inr e ↦ rw e (contains-cut body is_plain n s (codes "[CONTENT TRUNCATED]") refl h)
]

length-truncate : (s : Text) (n : ℕ) → length (truncate_if_excessive s n) ≤ n + 20
unfolding truncate_if_excessive
length-truncate s n =
    ground (arith, length-append (take n s) (10 ∷ codes "[CONTENT TRUNCATED]"), length-take n s)

module _ (q : ℕ → Bool) where
  all-replace_from :
      (from to : Text)
      → all q to ≡ true
      → (k : ℕ) (s : Text) → all q s ≡ true
      → all q (replace_from k from to s) ≡ true
  unfolding replace_from
  all-replace_from from to ht k [] h = refl
  all-replace_from from to ht (suc k) (c ∷ s) h = all-replace_from from to ht k s (ground arith)
  all-replace_from from to ht zero (c ∷ s) h = elim (Bool-cases (starts_with (c ∷ s) from)) [
    | inl e ↦
        rw e (all-append q to _ ht (all-replace_from from to ht (length from - 1) s (ground arith)))
    | inr e ↦ rw e (ground (arith, all-replace_from from to ht 0 s))
  ]

  all-collapse :
      q b' ' ≡ true → (prev : Bool) (s : Text) → all q s ≡ true → all q (collapse prev s) ≡ true
  unfolding collapse
  all-collapse qs prev [] h = refl
  all-collapse qs prev (c ∷ s) h = ground (arith, all-collapse qs true s, all-collapse qs false s)

  all-truncate :
      all q (10 ∷ codes "[CONTENT TRUNCATED]") ≡ true
      → (s : Text) (n : ℕ) → all q s ≡ true
      → all q (truncate_if_excessive s n) ≡ true
  unfolding truncate_if_excessive
  all-truncate hm s n h = elim (Bool-cases (leb (length s) n)) [
    | inl e ↦ rw e h
    | inr e ↦ rw e (all-append q (take n s) _ (all-take q n s h) hm)
  ]

abbrev visible_char : ℕ → Bool
visible_char c = not (is_invisible c)

escape-visible :
    (s : Text) → all visible_char s ≡ true → all visible_char (escape_data_boundary_tags s) ≡ true
unfolding escape_data_boundary_tags replace
escape-visible s h =
    all-replace_from visible_char opening_tag (codes "&lt;UNTRUSTED_DATA&gt;") refl 0 _
      (all-replace_from visible_char closing_tag (codes "&lt;/UNTRUSTED_DATA&gt;") refl 0 s h)

finish-IsFiltered : (s : Text) → IsFiltered (finish s)
unfolding finish collapse_whitespace strip_invisible_text
finish-IsFiltered s =
    let seen = strip_invisible_text s in
    let escaped = escape_data_boundary_tags seen in
    record {
      no_closing =
          truncate-contains closing_body closing_plain (collapse false escaped) 50000
            (contains-collapse closing_body closing_plain false escaped (escape-no_closing seen));
      no_opening =
          truncate-contains opening_body opening_plain (collapse false escaped) 50000
            (contains-collapse opening_body opening_plain false escaped (escape-no_opening seen));
      visible = all-truncate visible_char refl (collapse false escaped) 50000 (
          all-collapse visible_char refl false escaped
            (escape-visible seen (all-filterb_self visible_char s)));
      bounded = length-truncate (collapse false escaped) 50000;
    }

-- Whatever the site serves, and whatever lowercasing does: in the content that the filter hands on
-- neither delimiter of the agent's prompt occurs, nor an invisible character, and it has 50,020
-- characters at most.
pub sanitize_content-IsFiltered :
    (to_lowercase : Text → Text) (raw r : Text)
    → sanitize_content to_lowercase raw ≡ ok r
    → IsFiltered r
unfolding sanitize_content
sanitize_content-IsFiltered to_lowercase raw r h =
    let (a, _, h1) = >>=-eq-ok (strip_html_comments raw) _ r h in
    let (b, _, h2) = >>=-eq-ok (strip_style_hidden_elements to_lowercase a) _ r h1 in
    let (c, _, h3) = >>=-eq-ok (strip_script_tags to_lowercase b) _ r h2 in
    let (d, _, h4) = >>=-eq-ok (strip_suspicious_meta_tags to_lowercase c) _ r h3 in
    subst IsFiltered (ok-injective h4) (finish-IsFiltered d)
