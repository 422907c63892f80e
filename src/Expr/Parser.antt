-- ===== src/Expr/Parser.antt =====
-- api/pkg/expr/parser.go. The parser's state is the list of the tokens from p.pos on; p.eat drops the
-- first. Beyond the end Go would stop with an index out of range, here `crashed`.
pub mod Outcome
pub mod Grammar
pub mod Reading
pub mod Steps
pub mod Soundness
use helios_ci_cd.Prelude.{
  ℕ, zero, suc, ◌+◌, ◌*◌, String, Bool, true, false, not, ◌&&◌, ◌||◌, List, [], ◌∷◌, ◌++◌, length,
  any, if◌then◌else◌,
}
use helios_ci_cd.Expr.{
  Bytes, codes, Go, Token, TokenKind, eof, number, string, ident, bool_lit, null_lit, punct, Value,
  null, bool, num, text, Node, Args, literal, member, index, unary, binary, ternary, call, no_args,
  arg, pos_of, Message, trailing_token, expected, no_identifier, not_callable, unexpected_token,
}
use helios_ci_cd.Expr.Texts.{bytes_eq}
use helios_ci_cd.Expr.Lexer
use helios_ci_cd.Expr.Lexer.{Lexed, tokenize}
use helios_ci_cd.Expr.Parser.Outcome.{Parsed, ok, failed, crashed, out_of_fuel, bind}

-- The levels of the binary operators, from || to * / %.
pub data Level : Type 0 where
  or_level and_level eq_level cmp_level add_level mul_level : Level

abbrev pub operators : Level → List Bytes
operators or_level = codes "||" ∷ []
operators and_level = codes "&&" ∷ []
operators eq_level = codes "==" ∷ codes "!=" ∷ []
operators cmp_level = codes "<" ∷ codes ">" ∷ codes "<=" ∷ codes ">=" ∷ []
operators add_level = codes "+" ∷ codes "-" ∷ []
operators mul_level = codes "*" ∷ codes "/" ∷ codes "%" ∷ []

abbrev pub prefix_operators : List Bytes
prefix_operators = codes "!" ∷ codes "-" ∷ []

abbrev pub Parser : Type 0 → Type 0 → Type 0
Parser F A = List (Token F) → Parsed F (A × List (Token F))

unfoldable pub is_punct : TokenKind → Bool
is_punct punct = true
is_punct _ = false

module _ {F : Type 0} where
  -- t.Kind == TokPunct and t.Value is one of these.
  unfoldable pub one_of : List Bytes → Token F → Bool
  unfolding is_punct
  one_of values t = is_punct t.kind && any (λ v. bytes_eq t.value v) values

  unfoldable pub expect_punct : Bytes → Parser F (Unit {0})
  unfolding one_of
  expect_punct v [] = crashed
  expect_punct v (t ∷ ts) = if one_of (v ∷ []) t then ok (tt, ts) else failed t.at (expected v t)

  -- The identifier after a point.
  unfoldable pub member_name : Node F → Parser F (Node F)
  member_name left [] = crashed
  member_name left (t ∷ ts) = elim t.kind [
    | ident ↦ ok (member left t.value (pos_of left), ts)
    | _ ↦ failed t.at no_identifier
  ]

  unfoldable pub is_callable : Node F → Bool
  is_callable (Node.ident x p) = true
  is_callable (member l x p) = true
  is_callable _ = false

  unfoldable pub flatten_name : Node F → Bytes
  flatten_name (Node.ident x p) = x
  flatten_name (member l x p) = flatten_name l ++ (codes "." ++ x)
  flatten_name _ = []

  -- The parsers for an operand of a level, for the rest after a left operand, and so on, each with
  -- one unit of fuel less for what it calls.
  unfoldable mutual
    unfolding one_of expect_punct member_name is_callable flatten_name

    pub parse_ternary : ℕ → Parser F (Node F)
    parse_ternary zero ts = out_of_fuel
    parse_ternary (suc f) ts =
        bind (parse_binary f or_level ts) λ (cond, rest). ternary_rest f cond rest

    pub ternary_rest : ℕ → Node F → Parser F (Node F)
    ternary_rest zero cond ts = out_of_fuel
    ternary_rest (suc f) cond [] = crashed
    ternary_rest (suc f) cond (t ∷ ts) =
        let branches = bind (parse_ternary f ts) λ (then_node, rest).
          bind (expect_punct (codes ":") rest) λ (done, after).
            bind (parse_ternary f after)
              λ (else_node, others). ok (ternary cond then_node else_node (pos_of cond), others) in
        if one_of (codes "?" ∷ []) t then branches else ok (cond, t ∷ ts)

    -- parseOr, parseAnd, parseEq, parseCmp, parseAdd and parseMul.
    pub parse_binary : ℕ → Level → Parser F (Node F)
    parse_binary zero l ts = out_of_fuel
    parse_binary (suc f) l ts =
        bind (parse_operand f l ts) λ (left, rest). binary_rest f l left rest

    pub parse_operand : ℕ → Level → Parser F (Node F)
    parse_operand zero l ts = out_of_fuel
    parse_operand (suc f) or_level ts = parse_binary f and_level ts
    parse_operand (suc f) and_level ts = parse_binary f eq_level ts
    parse_operand (suc f) eq_level ts = parse_binary f cmp_level ts
    parse_operand (suc f) cmp_level ts = parse_binary f add_level ts
    parse_operand (suc f) add_level ts = parse_binary f mul_level ts
    parse_operand (suc f) mul_level ts = parse_unary f ts

    -- Their loops.
    pub binary_rest : ℕ → Level → Node F → Parser F (Node F)
    binary_rest zero l left ts = out_of_fuel
    binary_rest (suc f) l left [] = crashed
    binary_rest (suc f) l left (t ∷ ts) =
        let more =
          bind (parse_operand f l ts)
            λ (right, rest). binary_rest f l (binary t.value left right (pos_of left)) rest in
        if one_of (operators l) t then more else ok (left, t ∷ ts)

    pub parse_unary : ℕ → Parser F (Node F)
    parse_unary zero ts = out_of_fuel
    parse_unary (suc f) [] = crashed
    parse_unary (suc f) (t ∷ ts) =
        let negated =
          bind (parse_unary f ts) λ (right, rest). ok (unary t.value right t.at, rest) in
        let plain = parse_postfix f (t ∷ ts) in if one_of prefix_operators t then negated else plain

    pub parse_postfix : ℕ → Parser F (Node F)
    parse_postfix zero ts = out_of_fuel
    parse_postfix (suc f) ts = bind (parse_primary f ts) λ (left, rest). postfix_rest f left rest

    pub postfix_rest : ℕ → Node F → Parser F (Node F)
    postfix_rest zero left ts = out_of_fuel
    postfix_rest (suc f) left [] = crashed
    postfix_rest (suc f) left (t ∷ ts) =
        let member_step = bind (member_name left ts) λ (node, rest). postfix_rest f node rest in
        let index_step = bind (parse_ternary f ts) λ (at, rest).
          bind (expect_punct (codes "]") rest)
            λ (done, after). postfix_rest f (index left at (pos_of left)) after in
        let call_step =
          bind (parse_args f ts)
            λ (args, rest). postfix_rest f (call (flatten_name left) args (pos_of left)) rest in
        if one_of (codes "." ∷ []) t
        then member_step
        else if one_of (codes "[" ∷ []) t
        then index_step
        else if one_of (codes "(" ∷ []) t
        then (if is_callable left then call_step else failed t.at not_callable)
        else ok (left, t ∷ ts)

    -- The arguments, after `(`.
    pub parse_args : ℕ → Parser F (Args F)
    parse_args zero ts = out_of_fuel
    parse_args (suc f) [] = crashed
    parse_args (suc f) (t ∷ ts) =
        let some_args = args_from f (t ∷ ts) in
        if one_of (codes ")" ∷ []) t then ok (no_args, ts) else some_args

    pub args_from : ℕ → Parser F (Args F)
    args_from zero ts = out_of_fuel
    args_from (suc f) ts = bind (parse_ternary f ts) λ (a, rest). args_rest f a rest

    -- After an argument: a comma and the others, or the end.
    pub args_rest : ℕ → Node F → Parser F (Args F)
    args_rest zero a ts = out_of_fuel
    args_rest (suc f) a [] = crashed
    args_rest (suc f) a (t ∷ ts) =
        let others = bind (args_from f ts) λ (args, rest). ok (arg a args, rest) in
        let last =
          bind (expect_punct (codes ")") (t ∷ ts)) λ (done, rest). ok (arg a no_args, rest) in
        if one_of (codes "," ∷ []) t then others else last

    pub parse_primary : ℕ → Parser F (Node F)
    parse_primary zero ts = out_of_fuel
    parse_primary (suc f) [] = crashed
    parse_primary (suc f) (t ∷ ts) =
        let inner =
          bind (parse_ternary f ts) λ (node, rest).
            bind (expect_punct (codes ")") rest) λ (done, after). ok (node, after) in
        let bracket =
          if one_of (codes "(" ∷ []) t then inner else failed t.at (unexpected_token t) in
        elim t.kind [
          | number ↦ ok (literal (num t.number) t.at, ts)
          | string ↦ ok (literal (text t.value) t.at, ts)
          | bool_lit ↦ ok (literal (bool t.truth) t.at, ts)
          | null_lit ↦ ok (literal null t.at, ts)
          | ident ↦ ok (Node.ident t.value t.at, ts)
          | punct ↦ bracket
          | eof ↦ failed t.at (unexpected_token t)
        ]

-- The end of Parse: nothing but EOF may be left.
unfoldable pub finish : {F : Type 0} → Node F → List (Token F) → Parsed F (Node F)
finish node [] = crashed
finish node (t ∷ ts) = elim t.kind [ eof ↦ ok node | _ ↦ failed t.at (trailing_token t) ]

unfoldable pub parse_tokens : {F : Type 0} → List (Token F) → Parsed F (Node F)
unfolding finish
parse_tokens ts = bind (parse_ternary (32 * length ts + 32) ts) λ (node, rest). finish node rest

unfoldable pub parse_lexed : {F : Type 0} → Lexed F → Parsed F (Node F)
unfolding parse_tokens
parse_lexed (Lexer.Lexed.ok ts) = parse_tokens ts
parse_lexed (Lexer.Lexed.failed p m) = failed p m

-- Parse
unfoldable pub parse : {F : Type 0} → Go F → Bytes → Parsed F (Node F)
unfolding parse_lexed tokenize
parse go src = parse_lexed (tokenize go src)
