-- ===== src/Expr.antt =====
-- api/pkg/expr: the language of `${{ … }}`. A text is the list of its bytes. A float64 is of a type that
-- is an argument, with the operations of Go on it, its Unicode tables above Latin-1, and its printing
-- and JSON of whole values, in a record.
pub mod Texts
pub mod Lexer
pub mod Parser
pub mod Parsing
pub mod Values
pub mod Eval
pub mod Render
pub mod Examples
use helios_ci_cd.Prelude.{ℕ, String, Bool, Option, List, [], ◌∷◌, if◌then◌else◌}
use helios_ci_cd.Prelude.Json.{ℤ}
use Prim.Native.Char.{code}

abbrev pub Bytes : Type 0
Bytes = List ℕ

-- The bytes of an ASCII literal of the source.
abbrev pub codes : String → Bytes
codes String.[] = []
codes (String.◌∷◌ c s) = code c ∷ codes s

-- The dynamic values of `any` that the callers put in: nil, bool, float64, int, int64, string, []any,
-- map[string]any, []string and map[string]string.
mutual
  pub data Value (F : Type 0) : Type 0 where
    null : Value F
    bool : Bool → Value F
    num : F → Value F
    int : ℤ → Value F
    int64 : ℤ → Value F
    text : Bytes → Value F
    items : Items F → Value F
    fields : Fields F → Value F
    texts : List Bytes → Value F
    text_map : List (Bytes × Bytes) → Value F

  pub data Items (F : Type 0) : Type 0 where
    no_items : Items F
    item : Value F → Items F → Items F

  pub data Fields (F : Type 0) : Type 0 where
    no_fields : Fields F
    field : Bytes → Value F → Fields F → Fields F

-- What the program uses of Go: float64 with its literals, conversions and operations, the letters and
-- digits above U+00FF, and %v, json.Unmarshal and json.Marshal on values.
pub record Go (F : Type 0) : Type 0 where
  pub zero_num : F
  pub of_int : ℤ → F
  pub to_int : F → ℤ
  pub add : F → F → F
  pub sub : F → F → F
  pub mul : F → F → F
  pub div : F → F → F
  pub neg : F → F
  pub eq : F → F → Bool
  pub lt : F → F → Bool
  pub le : F → F → Bool
  pub scan_float : Bytes → Option F
  pub parse_float : Bytes → Option F
  pub format_float : F → Bytes
  pub is_letter : ℕ → Bool
  pub is_digit : ℕ → Bool
  pub sprint : Value F → Bytes
  pub unmarshal : Bytes → Option (Value F)
  pub marshal : Value F → Option Bytes

pub data TokenKind : Type 0 where
  eof number string ident bool_lit null_lit punct : TokenKind

pub record Token (F : Type 0) : Type 0 where
  pub kind : TokenKind
  pub value : Bytes
  pub number : F
  pub truth : Bool
  pub at : ℕ

-- A node carries its Pos. The name of a call is flattened, as `a.b`.
mutual
  pub data Node (F : Type 0) : Type 0 where
    literal : Value F → ℕ → Node F
    ident : Bytes → ℕ → Node F
    member : Node F → Bytes → ℕ → Node F
    index : Node F → Node F → ℕ → Node F
    unary : Bytes → Node F → ℕ → Node F
    binary : Bytes → Node F → Node F → ℕ → Node F
    ternary : Node F → Node F → Node F → ℕ → Node F
    call : Bytes → Args F → ℕ → Node F

  pub data Args (F : Type 0) : Type 0 where
    no_args : Args F
    arg : Node F → Args F → Args F

unfoldable pub pos_of : {F : Type 0} → Node F → ℕ
pos_of (literal v p) = p
pos_of (ident x p) = p
pos_of (member l x p) = p
pos_of (index l i p) = p
pos_of (unary op r p) = p
pos_of (binary op l r p) = p
pos_of (ternary c t e p) = p
pos_of (call f args p) = p

-- The messages of a ParseError, with what they print.
pub data Message (F : Type 0) : Type 0 where
  invalid_number : Bytes → Message F
  unterminated_string : Message F
  lone : ℕ → Message F
  unexpected_character : ℕ → Message F
  trailing_token : Token F → Message F
  expected : Bytes → Token F → Message F
  no_identifier : Message F
  not_callable : Message F
  unexpected_token : Token F → Message F
