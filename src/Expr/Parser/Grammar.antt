-- ===== src/Expr/Parser/Grammar.antt =====
-- The grammar that the comment of api/pkg/expr/parser.go lays down, with its precedences, as rules that
-- derive a node from a list of tokens.
use helios_ci_cd.Prelude.{true, ◌≡◌, List, [], ◌∷◌, ◌++◌}
use helios_ci_cd.Expr.{
  codes, Token, number, string, ident, bool_lit, null_lit, null, bool, num, text, Node, Args,
  literal, member, index, unary, binary, ternary, call, no_args, arg, pos_of,
}
use helios_ci_cd.Expr.Parser.{
  Level, or_level, and_level, eq_level, cmp_level, add_level, mul_level, operators,
  prefix_operators, one_of, is_callable, flatten_name,
}

-- What a rule is for: a ternary, a binary level, a unary, a postfix chain, a primary.
pub data Phrase : Type 0 where
  ternaries : Phrase
  level : Level → Phrase
  unaries : Phrase
  postfixes : Phrase
  primaries : Phrase

-- An operand of a level is a phrase of the level that binds next tighter.
abbrev pub operand : Level → Phrase
operand or_level = level and_level
operand and_level = level eq_level
operand eq_level = level cmp_level
operand cmp_level = level add_level
operand add_level = level mul_level
operand mul_level = unaries

mutual
  pub data Derives (F : Type 0) : Phrase → List (Token F) → Node F → Type 0 where
    no_choice :
        {ts : List (Token F)} {n : Node F}
        → Derives F (level or_level) ts n
        → Derives F ternaries ts n
    choice :
        (cs xs ys ts : List (Token F)) (q k : Token F) (c x y : Node F)
        → Derives F (level or_level) cs c
        → one_of (codes "?" ∷ []) q ≡ true
        → Derives F ternaries xs x
        → one_of (codes ":" ∷ []) k ≡ true
        → Derives F ternaries ys y
        → ts ≡ cs ++ (q ∷ (xs ++ (k ∷ ys)))
        → Derives F ternaries ts (ternary c x y (pos_of c))
    single :
        (l : Level) {ts : List (Token F)} {n : Node F}
        → Derives F (operand l) ts n
        → Derives F (level l) ts n
    -- Operators of a level associate to the left.
    chain :
        (l : Level) (ls rs ts : List (Token F)) (t : Token F) (left right : Node F)
        → Derives F (level l) ls left
        → one_of (operators l) t ≡ true
        → Derives F (operand l) rs right
        → ts ≡ ls ++ (t ∷ rs)
        → Derives F (level l) ts (binary t.value left right (pos_of left))
    no_prefix :
        {ts : List (Token F)} {n : Node F} → Derives F postfixes ts n → Derives F unaries ts n
    prefix :
        (t : Token F) (ts : List (Token F)) (right : Node F)
        → one_of prefix_operators t ≡ true
        → Derives F unaries ts right
        → Derives F unaries (t ∷ ts) (unary t.value right t.at)
    start : {ts : List (Token F)} {n : Node F} → Derives F primaries ts n → Derives F postfixes ts n
    dot :
        (ls ts : List (Token F)) (p t : Token F) (left : Node F)
        → Derives F postfixes ls left
        → one_of (codes "." ∷ []) p ≡ true
        → t.kind ≡ ident
        → ts ≡ ls ++ (p ∷ t ∷ [])
        → Derives F postfixes ts (member left t.value (pos_of left))
    subscript :
        (ls is ts : List (Token F)) (o c : Token F) (left i : Node F)
        → Derives F postfixes ls left
        → one_of (codes "[" ∷ []) o ≡ true
        → Derives F ternaries is i
        → one_of (codes "]" ∷ []) c ≡ true
        → ts ≡ ls ++ (o ∷ (is ++ (c ∷ [])))
        → Derives F postfixes ts (index left i (pos_of left))
    apply :
        (ls as_given ts : List (Token F)) (o : Token F) (left : Node F) (args : Args F)
        → Derives F postfixes ls left
        → is_callable left ≡ true
        → one_of (codes "(" ∷ []) o ≡ true
        → DerivesArgs F as_given args
        → ts ≡ ls ++ (o ∷ as_given)
        → Derives F postfixes ts (call (flatten_name left) args (pos_of left))
    a_number :
        (t : Token F) → t.kind ≡ number → Derives F primaries (t ∷ []) (literal (num t.number) t.at)
    a_string :
        (t : Token F) → t.kind ≡ string → Derives F primaries (t ∷ []) (literal (text t.value) t.at)
    a_bool :
        (t : Token F)
        → t.kind ≡ bool_lit
        → Derives F primaries (t ∷ []) (literal (bool t.truth) t.at)
    a_null : (t : Token F) → t.kind ≡ null_lit → Derives F primaries (t ∷ []) (literal null t.at)
    a_name : (t : Token F) → t.kind ≡ ident → Derives F primaries (t ∷ []) (Node.ident t.value t.at)
    bracket :
        (o c : Token F) (is ts : List (Token F)) (n : Node F)
        → one_of (codes "(" ∷ []) o ≡ true
        → Derives F ternaries is n
        → one_of (codes ")" ∷ []) c ≡ true
        → ts ≡ o ∷ (is ++ (c ∷ []))
        → Derives F primaries ts n

  -- The arguments, with the closing bracket.
  pub data DerivesArgs (F : Type 0) : List (Token F) → Args F → Type 0 where
    none_given : (c : Token F) → one_of (codes ")" ∷ []) c ≡ true → DerivesArgs F (c ∷ []) no_args
    some_given : {ts : List (Token F)} {args : Args F} → SomeArgs F ts args → DerivesArgs F ts args

  pub data SomeArgs (F : Type 0) : List (Token F) → Args F → Type 0 where
    last_given :
        (is ts : List (Token F)) (c : Token F) (n : Node F)
        → Derives F ternaries is n
        → one_of (codes ")" ∷ []) c ≡ true
        → ts ≡ is ++ (c ∷ [])
        → SomeArgs F ts (arg n no_args)
    more_given :
        (is others ts : List (Token F)) (c : Token F) (n : Node F) (args : Args F)
        → Derives F ternaries is n
        → one_of (codes "," ∷ []) c ≡ true
        → SomeArgs F others args
        → ts ≡ is ++ (c ∷ others)
        → SomeArgs F ts (arg n args)
