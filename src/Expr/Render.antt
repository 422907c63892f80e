-- ===== src/Expr/Render.antt =====
-- api/pkg/expr/render.go. The two regular expressions are written out: a block is `${{`, the bytes before
-- the next `}}`, and `}}`; what it holds is trimmed.
pub mod Blocks
use helios_ci_cd.Prelude.{
  ℕ, zero, suc, ◌+◌, ◌-◌, String, Bool, true, false, ◌&&◌, ◌||◌, Option, none, some, List, [], ◌∷◌,
  ◌++◌, leb, ◌==◌, length, if◌then◌else◌,
}
use helios_ci_cd.Expr.{Bytes, codes, Go, Value, null, text, Node, Message}
use helios_ci_cd.Expr.Texts.{has_prefix, has_suffix, trim_left, trim_right}
use helios_ci_cd.Expr.Values.{to_string}
use helios_ci_cd.Expr.Parser.{parse}
use helios_ci_cd.Expr.Parser.Outcome
use helios_ci_cd.Expr.Parser.Outcome.{Parsed}
use helios_ci_cd.Expr.Eval
use helios_ci_cd.Expr.Eval.{Context, Reason, Evaluated, eval_node}

-- The Err of a RenderError.
pub data Cause (F : Type 0) : Type 0 where
  parse_error : ℕ → Message F → Cause F
  eval_error : ℕ → Reason F → Cause F

pub record RenderError (F : Type 0) : Type 0 where
  pub path : Bytes
  pub expr : Bytes
  pub err : Cause F

-- Parse and Eval of what a block holds.
pub data Attempt (F : Type 0) : Type 0 where
  value : Value F → Attempt F
  error : Cause F → Attempt F
  panicked : Attempt F

-- What RenderString returns, or a panic of Eval.
pub data Rendered (F : Type 0) : Type 0 where
  done : Bytes → Value F → List (RenderError F) → Rendered F
  panicked : Rendered F

unfoldable pub trim : Bytes → Bytes
unfolding trim_left trim_right
trim s = trim_right (trim_left s)

-- The bytes before the first }}.
unfoldable pub before_close : Bytes → Option Bytes
before_close [] = none
before_close (b ∷ s) =
    let rest : Option Bytes = elim (before_close s) [ none ↦ none | some v ↦ some (b ∷ v) ] in
    if has_prefix (b ∷ s) (codes "}}") then some [] else rest

-- What a block holds that the text starts with.
unfoldable pub block_at : Bytes → Option Bytes
unfolding before_close
block_at (a ∷ b ∷ c ∷ s) = if a == b'$' && b == b'{' && c == b'{' then before_close s else none
block_at _ = none

-- The bytes between the first three and the last two of a text that is one block.
unfoldable pub drop_last_2 : Bytes → Bytes
drop_last_2 (a ∷ b ∷ c ∷ s) = a ∷ drop_last_2 (b ∷ c ∷ s)
drop_last_2 _ = []

-- wholeTplPattern: the text starts with ${{ and ends with }}.
unfoldable pub whole_block : Bytes → Option Bytes
unfolding drop_last_2
whole_block (a ∷ b ∷ c ∷ s) =
    if a == b'$' && b == b'{' && c == b'{' && has_suffix s (codes "}}")
    then some (drop_last_2 s)
    else none
whole_block _ = none

-- The bytes of a block with this inside.
abbrev pub block_of : Bytes → Bytes
block_of inner = codes "${{" ++ (inner ++ codes "}}")

module _ {F : Type 0} (go : Go F) where
  -- Eval, for a node that is there.
  unfoldable pub eval : Option (Context F) → Node F → Evaluated F (Value F)
  eval none n = eval_node go (record { values = []; run_status = [] }) n
  eval (some ctx) n = eval_node go ctx n

  evaluated : Evaluated F (Value F) → Attempt F
  evaluated (Evaluated.ok v) = value v
  evaluated (Evaluated.failed p m) = error (eval_error p m)
  evaluated Evaluated.panicked = Attempt.panicked

  parsed : Option (Context F) → Parsed F (Node F) → Attempt F
  unfolding eval evaluated
  parsed ctx (Parsed.ok n) = evaluated (eval ctx n)
  parsed ctx (Parsed.failed p m) = error (parse_error p m)
  parsed ctx Parsed.crashed = Attempt.panicked
  parsed ctx Parsed.out_of_fuel = Attempt.panicked

  unfoldable pub attempt : Option (Context F) → Bytes → Attempt F
  unfolding parse parsed
  attempt ctx src = parsed ctx (parse go src)

  -- What is written in place of a block, and the errors.
  abbrev pub Piece : Type 0
  Piece = Option (Bytes × List (RenderError F))

  unfoldable pub replace_block : Bytes → Bytes → Attempt F → Piece
  replace_block path block (value v) = some (to_string go v, [])
  replace_block path block (error e) =
      some (block, record { path = path; expr = block; err = e } ∷ [])
  replace_block path block Attempt.panicked = none

  abbrev pub after_piece : Piece → Piece → Piece
  after_piece none rest = none
  after_piece (some (s, es)) none = none
  after_piece (some (s, es)) (some (t, fs)) = some (s ++ t, es ++ fs)

  -- The loop over the blocks; the number is what is left of a block that was replaced.
  unfoldable pub render_from : Option (Context F) → Bytes → ℕ → Bytes → Piece
  unfolding block_at attempt replace_block trim
  render_from ctx path skip [] = some ([], [])
  render_from ctx path (suc skip) (b ∷ s) = render_from ctx path skip s
  render_from ctx path zero (b ∷ s) = elim (block_at (b ∷ s)) [
    | none ↦ after_piece (some (b ∷ [], [])) (render_from ctx path 0 s)
    | some inner ↦
        after_piece (replace_block path (block_of inner) (attempt ctx (trim inner)))
          (render_from ctx path (length inner + 4) s)
  ]

  unfoldable pub rebuilt : Piece → Rendered F
  rebuilt none = Rendered.panicked
  rebuilt (some (s, es)) = done s (text s) es

  unfoldable pub render_whole : Bytes → Bytes → Attempt F → Rendered F
  render_whole path s (value v) = done (to_string go v) v []
  render_whole path s (error e) = done [] null (record { path = path; expr = s; err = e } ∷ [])
  render_whole path s Attempt.panicked = Rendered.panicked

  -- RenderString
  unfoldable pub render_string : Option (Context F) → Bytes → Bytes → Rendered F
  unfolding whole_block render_from rebuilt render_whole attempt trim
  render_string ctx path s = elim (whole_block s) [
    | none ↦ rebuilt (render_from ctx path 0 s)
    | some inner ↦ render_whole path s (attempt ctx (trim inner))
  ]
