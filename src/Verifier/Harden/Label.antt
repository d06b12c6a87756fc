-- ===== src/Verifier/Harden/Label.antt =====
-- What harden.rs guarantees of the labels and descriptions that it returns.
use p2s.Prelude.{
  ℕ, ◌≤◌, ◌≡◌, refl, Bool, true, false, not, [], ◌∷◌, arith, nat_eq, list_eq, length, length-take,
  filterb, all, all-filterb_self, all-take, ok, Text, is_control, trim, all-trim, trim-trim,
}
use p2s.Verifier.Harden.{
  default_max_description_len, max_label_len, has_newline, is_empty, label_char, checked_label,
  harden_label, description_char, harden_description, harden_tool_description,
}

-- What a hardened label is.
pub record IsHardened (r : Text) : Type 0 where
  pub not_empty : 1 ≤ length r
  pub bounded : length r ≤ max_label_len
  pub printable : all (λ c. not (is_control c)) r ≡ true
  pub trimmed : trim r ≡ r

-- The label that passed the checks is the one that was checked.
checked_label-eq :
    (t r : Text) → checked_label t ≡ ok r → (t ≡ r) × (1 ≤ length t) × (length t ≤ max_label_len)
unfolding checked_label
checked_label-eq [] r h = absurd (ground arith)
checked_label-eq (c ∷ t) r h = ground arith

passed : (s r : Text) → harden_label s ≡ ok r → checked_label (trim (filterb label_char s)) ≡ ok r
unfolding harden_label
passed s r h = ground arith

all-filterb_le :
    (p q : ℕ → Bool) (s : Text) → ((c : ℕ) → p c ≡ true → q c ≡ true) → all q (filterb p s) ≡ true
all-filterb_le p q [] h = refl
all-filterb_le p q (c ∷ s) h = ground (arith, h c, all-filterb_le p q s h)

label_char-printable : (c : ℕ) → label_char c ≡ true → not (is_control c) ≡ true
unfolding is_control
label_char-printable c h = ground arith

-- A label that is returned has 1 to 64 characters, no control character, and no white space at its
-- ends.
pub harden_label-IsHardened : (s r : Text) → harden_label s ≡ ok r → IsHardened r
harden_label-IsHardened s r h =
    let cleaned = filterb label_char s in
    let (e, low, high) = checked_label-eq (trim cleaned) r (passed s r h) in
    record {
      not_empty = rw e at low;
      bounded = rw e at high;
      printable = rw e at (all-trim _ cleaned (all-filterb_le label_char _ s label_char-printable));
      trimmed = rw e at (trim-trim cleaned);
    }

filterb-all : (p : ℕ → Bool) (s : Text) → all p s ≡ true → filterb p s ≡ s
filterb-all p [] h = refl
filterb-all p (c ∷ s) h = ground (arith, filterb-all p s)

all-le :
    (p q : ℕ → Bool) (pq : (c : ℕ) → p c ≡ true → q c ≡ true) (s : Text)
    → all p s ≡ true
    → all q s ≡ true
all-le p q pq [] h = refl
all-le p q pq (c ∷ s) h = ground (arith, pq c, all-le p q pq s)

printable-label_char : (c : ℕ) → not (is_control c) ≡ true → label_char c ≡ true
printable-label_char c h = ground arith

no_newline : (s : Text) → all (λ c. not (is_control c)) s ≡ true → has_newline s ≡ false
unfolding is_control
no_newline [] h = refl
no_newline (c ∷ s) h = ground (arith, no_newline s)

is_empty-pos : (s : Text) → 1 ≤ length s → is_empty s ≡ false
is_empty-pos [] h = absurd (omega arith)
is_empty-pos (c ∷ s) h = refl

-- Hardening a hardened label changes nothing: what is stored passes again as it is.
pub harden_label-harden_label : (s r : Text) → harden_label s ≡ ok r → harden_label r ≡ ok r
unfolding harden_label checked_label
harden_label-harden_label s r h =
    let v = harden_label-IsHardened s r h in
    ground (
      arith,
      no_newline r v.printable,
      filterb-all label_char r (all-le _ label_char printable-label_char r v.printable),
      v.trimmed,
      is_empty-pos r v.not_empty,
      v.bounded,
    )

-- A description that is kept has at most the given number of characters, and no control character
-- but tabs and line feeds.
pub harden_description_bounds :
    (s : Text) (n : ℕ)
    → (length (harden_description s n) ≤ n) × (all description_char (harden_description s n) ≡ true)
unfolding harden_description
harden_description_bounds s n =
    let kept = all-trim description_char _ (all-filterb_self description_char s) in
    ground (
      arith,
      kept,
      length-take n (trim (filterb description_char s)),
      all-take description_char n (trim (filterb description_char s)) kept,
    )

pub harden_tool_description_bounds :
    (s : Text)
    → (length (harden_tool_description s) ≤ default_max_description_len)
      × (all description_char (harden_tool_description s) ≡ true)
unfolding harden_tool_description
harden_tool_description_bounds s = harden_description_bounds s default_max_description_len
