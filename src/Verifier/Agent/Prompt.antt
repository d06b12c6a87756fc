-- ===== src/Verifier/Agent/Prompt.antt =====
-- How the prompt isolates the site's content (agent.rs over sanitize.rs).
use p2s.Prelude.{
  ◌+◌, ◌≡◌, refl, true, false, Option, some, [], ◌∷◌, ◌++◌, arith, nat_eq, list_eq, length, all, ok,
  Text, codes, is_whitespace, utf8_char, starts_with, contains,
}
use p2s.Verifier.Slices.{byte_len, find}
use p2s.Verifier.Sanitize.{sanitize_content, closing_tag}
use p2s.Verifier.Sanitize.Boundary.{plain}
use p2s.Verifier.Sanitize.Output.{closing_plain, sanitize_content-IsFiltered}
use p2s.Verifier.Agent.{build_agent_prompt, prompt_head, prompt_tail}

starts_with-append_newline :
    (s r b : Text)
    → all plain b ≡ true
    → starts_with (s ++ 10 ∷ r) b ≡ true
    → starts_with s b ≡ true
unfolding starts_with is_whitespace
starts_with-append_newline s r [] p h = ground arith
starts_with-append_newline [] r (x ∷ b) p h = absurd (ground arith)
starts_with-append_newline (c ∷ s) r (x ∷ b) p h = ground (arith, starts_with-append_newline s r b)

len_utf8-newline : length (utf8_char 10) ≡ 1
unfolding utf8_char
len_utf8-newline = refl

starts_with_self : (b r : Text) → starts_with (b ++ r) b ≡ true
unfolding starts_with
starts_with_self [] r = ground arith
starts_with_self (x ∷ b) r = ground (arith, starts_with_self b r)

-- The first occurrence of a tag behind a text without it and a line feed is the one written there.
find-tag :
    (body : Text)
    → all plain body ≡ true
    → (s r : Text) → contains s (b'<' ∷ body) ≡ false
    → find (s ++ 10 ∷ ((b'<' ∷ body) ++ r)) (b'<' ∷ body) ≡ some (byte_len s + 1)
unfolding find contains byte_len
find-tag body p [] r h = ground (arith, starts_with_self body r, len_utf8-newline)
find-tag body p (c ∷ s) r h =
    ground (arith, find-tag body p s r, starts_with-append_newline s ((b'<' ∷ body) ++ r) body p)

module _ (to_lowercase : Text → Text) (endpoint domain : Text) (label : Option Text) where
  -- The user's prompt is a head that the content has no part in, the filtered content, and a tail.
  -- Read from the content's beginning on, the first closing delimiter is the prompt's own, right
  -- behind the content: no site can close the block of untrusted data.
  pub build_agent_prompt_isolates :
      (raw content : Text)
      → sanitize_content to_lowercase raw ≡ ok content
      → ((build_agent_prompt endpoint domain label content).1
          ≡ prompt_head endpoint domain label ++ (content ++ prompt_tail))
        × (find (content ++ prompt_tail) closing_tag ≡ some (byte_len content + 1))
  unfolding build_agent_prompt prompt_tail
  build_agent_prompt_isolates raw content h = (
    refl,
    find-tag (codes "/UNTRUSTED_DATA>") closing_plain content
        (codes "\n\nReturn ONLY a JSON object with the assessment fields.")
        (sanitize_content-IsFiltered to_lowercase raw content h).no_closing,
  )
