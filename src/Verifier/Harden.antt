-- ===== src/Verifier/Harden.antt =====
-- verifier/src/harden.rs: labels and descriptions made safe to store and to display.
pub mod Label
use p2s.Prelude.{
  ℕ, Bool, true, false, not, ◌||◌, [], ◌∷◌, ◌++◌, ltb, leb, ◌==◌, if◌then◌else◌, nat_eq, list_eq,
  length, take, filterb, any, Result, ok, err, Text, codes, is_control, trim, decimal, contains,
}

abbrev pub max_label_len : ℕ
max_label_len = 64

abbrev pub default_max_description_len : ℕ
default_max_description_len = 512

pub data HardenError : Type 0 where
  label_too_long : ℕ → HardenError
  label_contains_newlines : HardenError
  label_empty : HardenError

pub harden_error_display : HardenError → Text
unfolding decimal
harden_error_display (label_too_long n) =
    codes "label exceeds "
    ++ (decimal max_label_len ++ (codes " characters (got " ++ (decimal n ++ codes ")")))
harden_error_display label_contains_newlines = codes "label contains newlines"
harden_error_display label_empty = codes "label is empty after normalization"

-- `s.contains('\n') || s.contains('\r')`
abbrev pub has_newline : Text → Bool
has_newline s = any (λ c. (c == 10) || (c == 13)) s

abbrev pub is_empty : Text → Bool
is_empty [] = true
is_empty (c ∷ s) = false

-- What the filter of `harden_label` keeps.
abbrev pub label_char : ℕ → Bool
label_char c = not (is_control c) || (c == 32)

-- The checks on the cleaned and trimmed label.
pub checked_label : Text → Result HardenError Text
checked_label trimmed =
    if is_empty trimmed
    then err label_empty
    else if ltb max_label_len (length trimmed)
    then err (label_too_long (length trimmed))
    else ok trimmed

unfoldable pub harden_label : Text → Result HardenError Text
unfolding checked_label
harden_label s =
    if has_newline s
    then err label_contains_newlines
    else checked_label (trim (filterb label_char s))

-- What the filter of `harden_description` keeps.
abbrev pub description_char : ℕ → Bool
description_char c = not (is_control c) || ((c == 32) || (c == 10) || (c == 9))

pub harden_description : Text → ℕ → Text
harden_description s max_len =
    let trimmed = trim (filterb description_char s) in
    if leb (length trimmed) max_len then trimmed else take max_len trimmed

unfoldable pub harden_tool_description : Text → Text
unfolding harden_description
harden_tool_description s = harden_description s default_max_description_len
