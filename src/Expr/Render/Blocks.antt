-- ===== src/Expr/Render/Blocks.antt =====
-- What RenderString of api/pkg/expr/render.go does with a block inside a text.
use mathlib.Core.List.{append_assoc, append-nil}
use helios_ci_cd.Prelude.{
  ℕ, ◌+◌, false, ◌≡◌, ◌≢◌, refl, sym, ap, ◌∙◌, Option, none, some, [], ◌∷◌, ◌++◌, All, ◌==◌, length,
  length-append, arith,
}
use helios_ci_cd.Expr.{Bytes, codes, Go}
use helios_ci_cd.Expr.Texts.{has_prefix}
use helios_ci_cd.Expr.Eval.{Context}
use helios_ci_cd.Expr.Render.{
  trim, before_close, block_at, whole_block, attempt, Piece, replace_block, after_piece, block_of,
  render_from, rebuilt, render_string,
}

-- No $ in a text.
abbrev pub HasNoDollar : Bytes → Type 0
HasNoDollar = All (λ b. b ≢ 36)

pub whole_block-plain : (c : ℕ) (s : Bytes) → c ≢ 36 → whole_block (c ∷ s) ≡ none
unfolding whole_block
whole_block-plain c [] h = refl
whole_block-plain c (a ∷ []) h = refl
whole_block-plain c (a ∷ b ∷ s) h = ground (arith, h)

block_at-plain : (c : ℕ) (s : Bytes) → c ≢ 36 → block_at (c ∷ s) ≡ none
unfolding block_at
block_at-plain c [] h = refl
block_at-plain c (a ∷ []) h = refl
block_at-plain c (a ∷ b ∷ s) h = ground (arith, h)

before_close-open :
    (inner post : Bytes)
    → All (λ b. b ≢ 125) inner
    → before_close (inner ++ (codes "}}" ++ post)) ≡ some inner
unfolding before_close has_prefix
before_close-open [] post h = refl
before_close-open (b ∷ inner) post h =
    let closed : b == 125 ≡ false = ground (arith, h.0) in
    rw (closed, before_close-open inner post h.1) refl

module _ {F : Type 0} (go : Go F) (ctx : Option (Context F)) (path : Bytes) where
  after_piece-nil : (p : Piece go) → after_piece go (some ([], [])) p ≡ p
  after_piece-nil none = refl
  after_piece-nil (some (s, es)) = refl

  after_piece-cons :
      (b : ℕ) (s : Bytes) (p : Piece go)
      → after_piece go (some (b ∷ [], [])) (after_piece go (some (s, [])) p)
        ≡ after_piece go (some (b ∷ s, [])) p
  after_piece-cons b s none = refl
  after_piece-cons b s (some (t, es)) = refl

  -- Text without $ is copied.
  render_from-plain :
      (pre rest : Bytes)
      → HasNoDollar pre
      → render_from go ctx path 0 (pre ++ rest)
        ≡ after_piece go (some (pre, [])) (render_from go ctx path 0 rest)
  unfolding render_from
  render_from-plain [] rest h = sym (after_piece-nil (render_from go ctx path 0 rest))
  render_from-plain (b ∷ pre) rest h =
      rw (block_at-plain b (pre ++ rest) h.0, render_from)
        (ap (after_piece go (some (b ∷ [], []))) (render_from-plain pre rest h.1)
          ∙ after_piece-cons b pre (render_from go ctx path 0 rest))

  render_from-skip :
      (passed rest : Bytes)
      → render_from go ctx path (length passed) (passed ++ rest) ≡ render_from go ctx path 0 rest
  unfolding render_from
  render_from-skip [] rest = refl
  render_from-skip (b ∷ passed) rest = render_from-skip passed rest

  -- Text, a block's replacement, text.
  abbrev pub surround : Bytes → Bytes → Piece go → Piece go
  surround pre post none = none
  surround pre post (some (s, es)) = some (pre ++ (s ++ post), es)

  surround_lem :
      (pre post : Bytes) (p : Piece go)
      → after_piece go (some (pre, [])) (after_piece go p (some (post, []))) ≡ surround pre post p
  surround_lem pre post none = refl
  surround_lem pre post (some (s, es)) = rw (append-nil es) refl

  pub render_from-end :
      (post : Bytes) → HasNoDollar post → render_from go ctx path 0 post ≡ some (post, [])
  unfolding render_from
  render_from-end [] h = refl
  render_from-end (b ∷ post) h =
      rw (block_at-plain b post h.0, render_from)
        (ap (after_piece go (some (b ∷ [], []))) (render_from-end post h.1))

  block_at-block :
      (inner post : Bytes)
      → All (λ b. b ≢ 125) inner
      → block_at (36 ∷ 123 ∷ 123 ∷ (inner ++ (codes "}}" ++ post))) ≡ some inner
  unfolding block_at
  block_at-block inner post h = before_close-open inner post h

  render_from-block :
      (inner post : Bytes)
      → All (λ b. b ≢ 125) inner
      → render_from go ctx path 0 (36 ∷ 123 ∷ 123 ∷ (inner ++ (codes "}}" ++ post)))
        ≡ after_piece go
            (replace_block go path (block_of inner) (attempt go ctx (trim inner)))
            (render_from go ctx path 0 post)
  unfolding render_from
  render_from-block inner post h =
      rw (block_at-block inner post h, render_from)
        (ap (after_piece go (replace_block go path (block_of inner) (attempt go ctx (trim inner))))
          passed)
    where
      long : length inner + 4 ≡ length (123 ∷ 123 ∷ (inner ++ codes "}}"))
      long = omega (arith, length-append inner (codes "}}"))

      passed :
          render_from go ctx path (length inner + 4) (123 ∷ 123 ∷ (inner ++ (codes "}}" ++ post)))
          ≡ render_from go ctx path 0 post
      passed =
          ap (λ n. render_from go ctx path n (123 ∷ 123 ∷ (inner ++ (codes "}}" ++ post)))) long
          ∙ ap
              (λ s.
                render_from go ctx path (length (123 ∷ 123 ∷ (inner ++ codes "}}")))
                  (123 ∷ 123 ∷ s))
              (sym (append_assoc inner (codes "}}") post))
          ∙ render_from-skip (123 ∷ 123 ∷ (inner ++ codes "}}")) post

  -- RenderString replaces a block that stands after some text: the text before and after it is kept, and
  -- the block becomes its value as a text, or is kept with one error where it does not parse or has no
  -- value. The text has no $, what the block holds no }, and the text before it is not empty.
  pub render_string-block :
      (c : ℕ) (pre inner post : Bytes)
      → HasNoDollar (c ∷ pre)
      → All (λ b. b ≢ 125) inner
      → HasNoDollar post
      → render_string go ctx path ((c ∷ pre) ++ (block_of inner ++ post))
        ≡ rebuilt go (
            surround
              (c ∷ pre)
              post
              (replace_block go path (block_of inner) (attempt go ctx (trim inner))))
  unfolding render_string
  render_string-block c pre inner post plain open_inner plain_post =
      rw (whole_block-plain c (pre ++ (block_of inner ++ post)) plain.0, render_string)
        (ap (rebuilt go) (
          ap (λ s. render_from go ctx path 0 ((c ∷ pre) ++ (36 ∷ 123 ∷ 123 ∷ s)))
            (append_assoc inner (codes "}}") post)
          ∙ render_from-plain (c ∷ pre) (36 ∷ 123 ∷ 123 ∷ (inner ++ (codes "}}" ++ post))) plain
          ∙ ap (after_piece go (some (c ∷ pre, []))) (
              render_from-block inner post open_inner
              ∙ ap (after_piece go _) (render_from-end post plain_post))
          ∙ surround_lem (c ∷ pre) post _))
