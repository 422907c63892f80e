-- ===== src/Expr/Examples.antt =====
-- Concrete expressions of api/pkg/expr, with numbers of tenths in place of float64.
use helios_ci_cd.Prelude.{
  ℕ, ◌+◌, ◌-◌, ◌*◌, ◌/◌, ◌≤◌, false, ◌≡◌, ◌≢◌, refl, none, some, [], ◌∷◌, ◌++◌, leb, ltb, ◌==◌,
  arith, if◌then◌else◌,
}
use helios_ci_cd.Prelude.Json.{pos, negsuc}
use helios_ci_cd.Expr.{
  Bytes, codes, Go, null, num, fields, no_fields, Node, literal, ident, member, binary, pos_of,
  unexpected_character,
}
use helios_ci_cd.Expr.Texts
use helios_ci_cd.Expr.Lexer
use helios_ci_cd.Expr.Lexer.{tokenize}
use helios_ci_cd.Expr.Lexer.Tiling.{Scanned, tokenize-Scanned}
use helios_ci_cd.Expr.Parser
use helios_ci_cd.Expr.Parser.{parse}
use helios_ci_cd.Expr.Parser.Outcome.{Parsed, Yields}
use helios_ci_cd.Expr.Parsing.{Reads, parse-Yields}
use helios_ci_cd.Expr.Values
use helios_ci_cd.Expr.Eval
use helios_ci_cd.Expr.Eval.{Context, Evaluated, eval_node, division_by_zero}
use helios_ci_cd.Expr.Eval.Panics.{uses_risky, eval_node-ne-panicked}
use helios_ci_cd.Expr.Eval.Names.{Agrees, eval_node-Agrees}
use helios_ci_cd.Expr.Eval.Places.{eval_node-parse}
use helios_ci_cd.Expr.Render.{
  replace_block, block_of, attempt, trim, rebuilt, done, parse_error, render_string,
}
use helios_ci_cd.Expr.Render.Blocks.{surround, render_string-block}

-- Digits, then at most one digit after a point.
abbrev read_tenths : ℕ → Bytes → ℕ
read_tenths whole [] = whole * 10
read_tenths whole (c ∷ []) = (whole * 10 + (c - b'0')) * 10
read_tenths whole (c ∷ d ∷ s) =
    let more = read_tenths (whole * 10 + (c - b'0')) (d ∷ s) in
    if c == b'.' then whole * 10 + (d - b'0') else more

abbrev pub tenths : Go ℕ
tenths = record {
  zero_num = 0;
  of_int = λ z. elim z [ pos n ↦ n * 10 | negsuc n ↦ 0 ];
  to_int = λ x. pos (x / 10);
  add = λ x y. x + y;
  sub = λ x y. x - y;
  mul = λ x y. x * y / 10;
  div = λ x y. x * 10 / y;
  neg = λ x. x;
  eq = λ x y. x == y;
  lt = λ x y. ltb x y;
  le = λ x y. leb x y;
  scan_float = λ s. some (read_tenths 0 s);
  parse_float = λ s. none;
  format_float = λ x. codes "?";
  is_letter = λ r. false;
  is_digit = λ r. false;
  sprint = λ v. codes "map[]";
  unmarshal = λ s. none;
  marshal = λ v. none;
}

abbrev context : Context ℕ
context = record { values = (codes "needs", fields no_fields) ∷ []; run_status = codes "running" }

-- 1 + 2 * 3
abbrev sum : Node ℕ
sum =
    binary (codes "+") (literal (num 10) 0)
      (binary (codes "*") (literal (num 20) 4) (literal (num 30) 8) 4) 0

tighter_first : parse tenths (codes "1 + 2 * 3") ≡ Parsed.ok sum
unfolding parse Lexer.lexeme Parser.parse_ternary Texts.bytes_eq pos_of
tighter_first = refl

-- A hyphen goes on a name: this is no subtraction.
hyphen_in_name : parse tenths (codes "a-1") ≡ Parsed.ok (ident (codes "a-1") 0)
unfolding parse Lexer.lexeme Parser.parse_ternary Texts.bytes_eq pos_of Texts.decode_rune
hyphen_in_name = refl

-- 5 % 0.5
abbrev half : Node ℕ
half = binary (codes "%") (literal (num 50) 0) (literal (num 5) 4) 0

-- The divisor is not 0, but int() of it is.
remainder_panics : eval_node tenths context half ≡ Evaluated.panicked
unfolding eval_node Texts.bytes_eq Values.to_number Eval.int_mod
remainder_panics = refl

-- needs == needs
abbrev same_map : Node ℕ
same_map = binary (codes "==") (ident (codes "needs") 0) (ident (codes "needs") 9) 0

maps_panic : eval_node tenths context same_map ≡ Evaluated.panicked
unfolding eval_node Texts.bytes_eq Values.find Values.loose_eq
maps_panic = refl

-- A text that starts with a block and ends with another is taken for one block.
two_blocks :
    render_string tenths (some context) (codes "env.X") (codes "${{ 1 }}-${{ 2 }}")
    ≡ done [] null (
        record {
          path = codes "env.X";
          expr = codes "${{ 1 }}-${{ 2 }}";
          err = parse_error 2 (unexpected_character 125);
        }
        ∷ [])
unfolding parse Lexer.lexeme Parser.parse_ternary Texts.bytes_eq pos_of render_string
    Texts.has_suffix
two_blocks = refl

tokenize-Scanned_example :
    Scanned tenths 0 (codes "a.b == 'x'") (tokenize tenths (codes "a.b == 'x'"))
tokenize-Scanned_example = tokenize-Scanned tenths (codes "a.b == 'x'")

parse-Yields_example :
    Yields (Reads tenths (codes "f(1, 2)[0]")) (parse tenths (codes "f(1, 2)[0]"))
parse-Yields_example = parse-Yields tenths (codes "f(1, 2)[0]")

eval_node-ne-panicked_example : eval_node tenths context sum ≢ Evaluated.panicked
unfolding uses_risky Texts.bytes_eq
eval_node-ne-panicked_example = eval_node-ne-panicked tenths context sum refl

-- 1 + 2 / 0
abbrev by_zero : Node ℕ
by_zero =
    binary (codes "+") (literal (num 10) 0)
      (binary (codes "/") (literal (num 20) 4) (literal (num 0) 8) 4) 0

eval_node-parse_example : 4 ≤ 9
unfolding parse Lexer.lexeme Parser.parse_ternary Texts.bytes_eq pos_of eval_node Values.to_number
eval_node-parse_example =
    eval_node-parse tenths (codes "1 + 2 / 0") context by_zero 4 division_by_zero refl refl

abbrev wider : Context ℕ
wider = record { values = (codes "run", null) ∷ context.values; run_status = codes "failed" }

abbrev needs_build : Node ℕ
needs_build = member (ident (codes "needs") 0) (codes "build") 0

eval_node-Agrees_example : eval_node tenths context needs_build ≡ eval_node tenths wider needs_build
unfolding Agrees Values.find Texts.bytes_eq
eval_node-Agrees_example = eval_node-Agrees context wider tenths needs_build refl

render_string-block_example :
    render_string tenths
      (some context)
      []
      (codes "tag-" ++ (block_of (codes " 1 + 2 ") ++ codes "!"))
    ≡ rebuilt tenths (
        surround tenths (some context) [] (codes "tag-") (codes "!") (
          replace_block tenths []
            (block_of (codes " 1 + 2 "))
            (attempt tenths (some context) (trim (codes " 1 + 2 ")))))
render_string-block_example =
    render_string-block tenths (some context) [] b't' (codes "ag-") (codes " 1 + 2 ") (codes "!")
      (omega arith) (omega arith) (omega arith)
