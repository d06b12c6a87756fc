-- ===== src/Verifier/Sanitize.antt =====
-- verifier/src/sanitize.rs: the filter over a site's content before the agent reads it. The
-- Unicode tables behind `str::to_lowercase` are a parameter.
pub mod Tests
pub mod Output
pub mod Boundary
pub mod Ends
pub mod Total
pub mod Calm
pub mod Elements
pub mod Kept
use p2s.Prelude.{
  ℕ, zero, suc, ◌+◌, Bool, true, false, not, ◌&&◌, ◌||◌, Option, none, some, List, [], ◌∷◌, ◌++◌,
  ltb, leb, ◌==◌, if◌then◌else◌, nat_eq, list_eq, length, take, filterb, ok, err, ◌>>=◌, ◌>>◌, Text,
  codes, is_whitespace, starts_with, contains,
}
use p2s.Verifier.Slices.{
  Fault, panic, out_of_fuel, Run, len_utf8, byte_len, slice_from, slice_to, slice, find, find_char,
  replace, unwrap_or_zero,
}

-- The loop of `strip_html_comments`; each round takes four characters at least.
pub comments_loop : ℕ → Text → Text → Run Text
comments_loop zero remaining result = err out_of_fuel
comments_loop (suc fuel) remaining result = elim (find remaining (codes "<!--")) [
  | none ↦ ok (result ++ remaining)
  | some start ↦ do
    before ← slice_to start remaining
    after ← slice_from start remaining
    elim (find after (codes "-->")) [
      | none ↦ ok (result ++ before)
      | some end ↦ do
        rest ← slice_from (start + end + 3) remaining
        comments_loop fuel rest (result ++ before)
    ]
]

pub strip_html_comments : Text → Run Text
unfolding comments_loop
strip_html_comments s = comments_loop (suc (length s)) s []

-- The loop of `strip_tag_pair`: offsets found in the lowercased text cut the original one too.
pub tag_pair_loop : ℕ → Text → Text → Text → Text → Text → Run Text
tag_pair_loop zero open_tag close remaining lower_remaining result = err out_of_fuel
tag_pair_loop (suc fuel) open_tag close remaining lower_remaining result =
    elim (find lower_remaining open_tag) [
      | none ↦ ok (result ++ remaining)
      | some start ↦ do
        before ← slice_to start remaining
        after ← slice_from start lower_remaining
        elim (find after close) [
          | none ↦ ok (result ++ before)
          | some end ↦ do
            rest ← slice_from (start + (end + byte_len close)) remaining
            lower_rest ← slice_from (start + (end + byte_len close)) lower_remaining
            tag_pair_loop fuel open_tag close rest lower_rest (result ++ before)
        ]
    ]

-- The loop of `strip_suspicious_meta_tags`.
pub meta_loop : ℕ → Text → Text → Text → Run Text
meta_loop zero remaining lower_remaining result = err out_of_fuel
meta_loop (suc fuel) remaining lower_remaining result =
    elim (find lower_remaining (codes "<meta")) [
      | none ↦ ok (result ++ remaining)
      | some start ↦ do
        before ← slice_to start remaining
        after ← slice_from start remaining
        elim (find after (codes ">")) [
          | none ↦ ok (result ++ (before ++ after))
          | some end ↦ do
            meta_tag ← slice start (start + end + 1) lower_remaining
            kept ←
                (if contains meta_tag (codes "content=") && ltb 200 (byte_len meta_tag)
                  then ok []
                  else slice start (start + end + 1) remaining)
            rest ← slice_from (start + end + 1) remaining
            lower_rest ← slice_from (start + end + 1) lower_remaining
            meta_loop fuel rest lower_rest (result ++ (before ++ kept))
        ]
    ]

-- Where the element that opens at `i` with a tag of `tag_end + 1` bytes ends: behind its closing
-- tag, or behind the opening tag where there is none.
element_end : Text → ℕ → ℕ → Run ℕ
element_end lower i tag_end = do
  name_on ← slice_from (i + 1) lower
  let name_end = unwrap_or_zero (find_char (λ c. is_whitespace c || (c == b'>')) name_on)
  tag_name ← slice (i + 1) (i + 1 + name_end) lower
  content ← slice_from (i + tag_end + 1) lower
  let close_tag = codes "</" ++ (tag_name ++ codes ">")
  elim (find content close_tag) [
    | some close_pos ↦ ok (i + tag_end + 1 + close_pos + byte_len close_tag)
    | none ↦ ok (i + (tag_end + 1))
  ]

-- The element that opens at `i`, if its tag hides it: the offset behind it.
hidden_element : Text → Text → Text → ℕ → Run (Option ℕ)
hidden_element s lower pattern i = do
  lower_on ← slice_from i lower
  on ← slice_from i s
  elim (starts_with lower_on (codes "<")) [
    | false ↦ ok none
    | true ↦ elim (find on (codes ">")) [
      | none ↦ ok none
      | some tag_end ↦ do
        tag ← slice i (i + tag_end + 1) lower
        elim (contains tag (codes "style=") && contains tag pattern) [
          | false ↦ ok none
          | true ↦ do end ← element_end lower i tag_end; ok (some end)
        ]
    ]
  ]

-- The loop of `strip_elements_with_style`; `i` grows in each round.
pub elements_loop : ℕ → Text → Text → Text → ℕ → Text → Run Text
elements_loop zero s lower pattern i result = err out_of_fuel
elements_loop (suc fuel) s lower pattern i result = elim (ltb i (byte_len s)) [
  | false ↦ ok result
  | true ↦ do
    hidden ← hidden_element s lower pattern i
    elim hidden [
      | some end ↦ elements_loop fuel s lower pattern end result
      | none ↦ do
        on ← slice_from i s
        elim on [
          | [] ↦ ok result
          | c ∷ _ ↦ elements_loop fuel s lower pattern (i + len_utf8 c) (result ++ c ∷ [])
        ]
    ]
]

hiding_styles : List Text
hiding_styles =
    codes "display:none"
    ∷ codes "display: none"
    ∷ codes "visibility:hidden"
    ∷ codes "visibility: hidden"
    ∷ codes "font-size:0"
    ∷ codes "font-size: 0"
    ∷ codes "opacity:0"
    ∷ codes "opacity: 0"
    ∷ []

-- The zero-width and other invisible characters.
abbrev pub is_invisible : ℕ → Bool
is_invisible c = (leb 0x200b c && leb c 0x200f) || (leb 0x2060 c && leb c 0x2064) || (c == 0xfeff)

strip_invisible_text : Text → Text
strip_invisible_text s = filterb (λ c. not (is_invisible c)) s

abbrev pub closing_tag : Text
closing_tag = codes "</UNTRUSTED_DATA>"

abbrev pub opening_tag : Text
opening_tag = codes "<UNTRUSTED_DATA>"

escape_data_boundary_tags : Text → Text
escape_data_boundary_tags s =
    replace (replace s closing_tag (codes "&lt;/UNTRUSTED_DATA&gt;")) opening_tag
      (codes "&lt;UNTRUSTED_DATA&gt;")

-- The loop of `collapse_whitespace`, its result from `s` on.
pub collapse : Bool → Text → Text
collapse prev_was_space [] = []
collapse prev_was_space (c ∷ s) =
    let spaced = collapse true s in
    let kept = collapse false s in
    if is_whitespace c then (if prev_was_space then spaced else b' ' ∷ spaced) else c ∷ kept

collapse_whitespace : Text → Text
collapse_whitespace s = collapse false s

truncate_if_excessive : Text → ℕ → Text
truncate_if_excessive s max_chars =
    if leb (length s) max_chars then s else take max_chars s ++ (10 ∷ codes "[CONTENT TRUNCATED]")

-- The steps of `sanitize_content` that cannot fail.
finish : Text → Text
finish s =
    truncate_if_excessive (collapse_whitespace (escape_data_boundary_tags (strip_invisible_text s)))
      50000

module _ (to_lowercase : Text → Text) where
  strip_tag_pair : Text → Text → Text → Run Text
  strip_tag_pair s open_tag close =
      let lower = to_lowercase s in tag_pair_loop (suc (length lower)) open_tag close s lower []

  strip_script_tags : Text → Run Text
  strip_script_tags s = strip_tag_pair s (codes "<script") (codes "</script>")

  strip_elements_with_style : Text → Text → Run Text
  strip_elements_with_style s pattern =
      elements_loop (suc (byte_len s)) s (to_lowercase s) pattern 0 []

  -- The loop over the patterns of hiding styles.
  strip_patterns : List Text → Text → Run Text
  strip_patterns [] s = ok s
  strip_patterns (pattern ∷ patterns) s = do
    result ← strip_elements_with_style s pattern
    strip_patterns patterns result

  strip_style_hidden_elements : Text → Run Text
  strip_style_hidden_elements s = do
    result ← strip_tag_pair s (codes "<style") (codes "</style>")
    strip_patterns hiding_styles result

  strip_suspicious_meta_tags : Text → Run Text
  strip_suspicious_meta_tags s =
      let lower = to_lowercase s in meta_loop (suc (length lower)) s lower []

  pub sanitize_content : Text → Run Text
  sanitize_content raw_html = do
    no_comments ← strip_html_comments raw_html
    no_hidden ← strip_style_hidden_elements no_comments
    no_scripts ← strip_script_tags no_hidden
    no_meta ← strip_suspicious_meta_tags no_scripts
    ok (finish no_meta)
