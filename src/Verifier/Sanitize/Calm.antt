-- ===== src/Verifier/Sanitize/Calm.antt =====
-- The loops over comments, tag pairs and meta tags cut a text at its characters, where the lower case
-- of the text has the same widths.
use p2s.Prelude.{
  ℕ, zero, suc, ◌+◌, ◌≡◌, refl, sym, inl, inr, Bool, true, false, ◌&&◌, some, [], ◌++◌, arith, ltb,
  if◌then◌else◌, Option-cases, nat_eq, list_eq, all, all-append, ok, err, ◌>>=◌, Text, codes,
  utf8_char, contains,
}
use mathlib.Core.Path.{subst}
use p2s.Verifier.Slices.{Run, panic, out_of_fuel, byte_len, slice_from, slice, find}
use p2s.Verifier.Slices.Cuts.{
  same_offset, slice_from-add, slice_to-ok, slice-ok, find-cut, starts_with-cut, SameWidths,
  SameWidths-sym, aligned_cut, all-slice_from, all-slice_to, all-slice,
}
use p2s.Verifier.Sanitize.{comments_loop, tag_pair_loop, meta_loop}

-- The cuts around a meta tag that opens at `start` and has its end `end` bytes later.
record TagCut (start end : ℕ) (remaining lower : Text) : Type 0 where
  tag : Text
  piece : Text
  rest : Text
  lower_rest : Text
  lowered : slice start (start + end + 1) lower ≡ ok tag
  original : slice start (start + end + 1) remaining ≡ ok piece
  behind : slice_from (start + end + 1) remaining ≡ ok rest
  lower_behind : slice_from (start + end + 1) lower ≡ ok lower_rest
  aligned : SameWidths rest lower_rest

tag_cut :
    (start end : ℕ) (remaining lower after lower_after : Text)
    → slice_from start remaining ≡ ok after
    → slice_from start lower ≡ ok lower_after
    → SameWidths lower_after after
    → find after (codes ">") ≡ some end
    → TagCut start end remaining lower
unfolding byte_len utf8_char
tag_cut start end remaining lower after lower_after f g w k =
    let (closing, f2, v) = find-cut after (codes ">") end k in
    let (rest, f3) = starts_with-cut closing (codes ">") v in
    let one : slice_from (end + 1) after ≡ ok rest =
      slice_from-add end 1 after closing rest f2 f3 in
    let (lower_rest, one', w2) =
      aligned_cut (end + 1) after lower_after rest (SameWidths-sym lower_after after w) one in
    let (tag, t) = slice-ok start (end + 1) lower lower_after lower_rest g one' in
    let (piece, u) = slice-ok start (end + 1) remaining after rest f one in
    let stop : start + (end + 1) ≡ start + end + 1 = omega arith in
    record {
      tag = tag;
      piece = piece;
      rest = rest;
      lower_rest = lower_rest;
      lowered = subst (λ n. slice start n lower ≡ ok tag) stop t;
      original = subst (λ n. slice start n remaining ≡ ok piece) stop u;
      behind =
          same_offset remaining rest stop
            (slice_from-add start (end + 1) remaining after rest f one);
      lower_behind =
          same_offset lower lower_rest stop
            (slice_from-add start (end + 1) lower lower_after lower_rest g one');
      aligned = w2;
    }

module _ (q : ℕ → Bool) where
  -- A run that does not panic, and whose text has characters with `q` only.
  abbrev pub Calm : Run Text → Type 0
  Calm (ok t) = all q t ≡ true
  Calm (err panic) = ⊥
  Calm (err out_of_fuel) = Unit

  pub bind-Calm :
      {A : Type 0} (m : Run A) (f : A → Run Text) (a : A) → m ≡ ok a → Calm (f a) → Calm (m >>= f)
  bind-Calm m f a e c = subst (λ x. Calm (x >>= f)) (sym e) c

  pub comments_loop-Calm :
      (fuel : ℕ) (remaining result : Text)
      → all q remaining ≡ true
      → all q result ≡ true
      → Calm (comments_loop fuel remaining result)
  unfolding comments_loop byte_len utf8_char
  comments_loop-Calm zero remaining result a b = tt
  comments_loop-Calm (suc fuel) remaining result a b =
      elim (Option-cases (find remaining (codes "<!--"))) [
        | inl e ↦ rw (e, comments_loop) (all-append q result remaining b a)
        | inr (start, e) ↦
            let (after, f, _) = find-cut remaining (codes "<!--") start e in
            let (before, g) = slice_to-ok start remaining after f in
            let b' = all-append q result before b (all-slice_to q start remaining before g a) in
            elim (Option-cases (find after (codes "-->"))) [
              | inl k ↦
                  rw (e, comments_loop) (bind-Calm _ _ before g (bind-Calm _ _ after f (rw k b')))
              | inr (end, k) ↦
                  let (closing, f2, w) = find-cut after (codes "-->") end k in
                  let (rest, f3) = starts_with-cut closing (codes "-->") w in
                  let cut : slice_from (start + end + 3) remaining ≡ ok rest =
                    same_offset {k = start + (end + 3)} remaining rest (omega arith) (
                      slice_from-add start (end + 3) remaining after rest f
                        (slice_from-add end 3 after closing rest f2 f3)) in
                  let again =
                    comments_loop-Calm fuel rest (result ++ before)
                      (all-slice_from q (start + end + 3) remaining rest cut a) b' in
                  rw (e, comments_loop)
                    (bind-Calm _ _ before g
                      (bind-Calm _ _ after f (rw k (bind-Calm _ _ rest cut again))))
            ]
      ]

  pub tag_pair_loop-Calm :
      (fuel : ℕ) (open_tag close remaining lower result : Text)
      → SameWidths remaining lower
      → all q remaining ≡ true
      → all q result ≡ true
      → Calm (tag_pair_loop fuel open_tag close remaining lower result)
  unfolding tag_pair_loop
  tag_pair_loop-Calm zero open_tag close remaining lower result w a b = tt
  tag_pair_loop-Calm (suc fuel) open_tag close remaining lower result w a b =
      elim (Option-cases (find lower open_tag)) [
        | inl e ↦ rw (e, tag_pair_loop) (all-append q result remaining b a)
        | inr (start, e) ↦
            let (after, f, _) = find-cut lower open_tag start e in
            let (on, f', _) =
              aligned_cut start lower remaining after (SameWidths-sym remaining lower w) f in
            let (before, g) = slice_to-ok start remaining on f' in
            let b' = all-append q result before b (all-slice_to q start remaining before g a) in
            elim (Option-cases (find after close)) [
              | inl k ↦
                  rw (e, tag_pair_loop) (bind-Calm _ _ before g (bind-Calm _ _ after f (rw k b')))
              | inr (end, k) ↦
                  let skip = start + (end + byte_len close) in
                  let (closing, f2, v) = find-cut after close end k in
                  let (lower_rest, f3) = starts_with-cut closing close v in
                  let cut : slice_from skip lower ≡ ok lower_rest =
                    slice_from-add start (end + byte_len close) lower after lower_rest f
                      (slice_from-add end (byte_len close) after closing lower_rest f2 f3) in
                  let (rest, cut', w') =
                    aligned_cut skip lower remaining lower_rest (SameWidths-sym remaining lower w)
                      cut in
                  let again =
                    tag_pair_loop-Calm fuel open_tag close rest lower_rest (result ++ before)
                      (SameWidths-sym lower_rest rest w')
                      (all-slice_from q skip remaining rest cut' a) b' in
                  rw (e, tag_pair_loop)
                    (bind-Calm _ _ before g (
                      bind-Calm _ _ after f
                        (rw k (bind-Calm _ _ rest cut' (bind-Calm _ _ lower_rest cut again)))))
            ]
      ]

  -- What the loop over meta tags keeps of a tag.
  kept_part :
      (b : Bool) (m : Run Text) (x : Text)
      → m ≡ ok x
      → all q x ≡ true
      → (k : Text) × ((if b then ok [] else m) ≡ ok k) × (all q k ≡ true)
  kept_part true m x e a = ([], refl, refl)
  kept_part false m x e a = (x, e, a)

  pub meta_loop-Calm :
      (fuel : ℕ) (remaining lower result : Text)
      → SameWidths remaining lower
      → all q remaining ≡ true
      → all q result ≡ true
      → Calm (meta_loop fuel remaining lower result)
  unfolding meta_loop byte_len utf8_char
  meta_loop-Calm zero remaining lower result w a b = tt
  meta_loop-Calm (suc fuel) remaining lower result w a b =
      elim (Option-cases (find lower (codes "<meta"))) [
        | inl e ↦ rw (e, meta_loop) (all-append q result remaining b a)
        | inr (start, e) ↦
            let (lower_after, f, _) = find-cut lower (codes "<meta") start e in
            let (after, f', w1) =
              aligned_cut start lower remaining lower_after (SameWidths-sym remaining lower w) f in
            let (before, g) = slice_to-ok start remaining after f' in
            let before_q = all-slice_to q start remaining before g a in
            elim (Option-cases (find after (codes ">"))) [
              | inl k ↦
                  rw (e, meta_loop)
                    (bind-Calm _ _ before g (
                      bind-Calm _ _ after f' (
                        rw k (
                          all-append q result (before ++ after) b (
                            all-append q before after before_q
                              (all-slice_from q start remaining after f' a))))))
              | inr (end, k) ↦
                  let c = tag_cut start end remaining lower after lower_after f' f w1 k in
                  let (kept, h, kept_q) =
                    kept_part (contains c.tag (codes "content=") && ltb 200 (byte_len c.tag))
                      (slice start (start + end + 1) remaining) c.piece c.original
                      (all-slice q start (start + end + 1) remaining c.piece c.original a) in
                  let again =
                    meta_loop-Calm fuel c.rest c.lower_rest (result ++ (before ++ kept)) c.aligned
                      (all-slice_from q (start + end + 1) remaining c.rest c.behind a)
                      (all-append q result (before ++ kept) b
                        (all-append q before kept before_q kept_q)) in
                  rw (e, meta_loop)
                    (bind-Calm _ _ before g (
                      bind-Calm _ _ after f' (
                        rw k (
                          bind-Calm _ _ c.tag c.lowered (
                            bind-Calm _ _ kept h (
                              bind-Calm _ _ c.rest c.behind
                                (bind-Calm _ _ c.lower_rest c.lower_behind again)))))))
            ]
      ]
