-- ===== src/Expr/Lexer.antt =====
-- api/pkg/expr/lexer.go.
pub mod Spelling
pub mod Lexemes
pub mod Tiling
use helios_ci_cd.Prelude.{
  ℕ, zero, suc, ◌+◌, ◌-◌, String, Bool, true, false, not, ◌&&◌, ◌||◌, Option, none, some, List, [],
  ◌∷◌, ◌++◌, ltb, leb, ◌==◌, length, if◌then◌else◌,
}
use helios_ci_cd.Expr.{
  Bytes, codes, Go, Token, TokenKind, eof, number, string, ident, bool_lit, null_lit, punct,
  Message, invalid_number, unterminated_string, lone, unexpected_character,
}
use helios_ci_cd.Expr.Texts.{bytes_eq, decode_rune}

-- What Tokenize returns.
pub data Lexed (F : Type 0) : Type 0 where
  ok : List (Token F) → Lexed F
  failed : ℕ → Message F → Lexed F

-- What stands at a place of the source: nothing, a token of that many bytes, or an error.
pub data Lexeme (F : Type 0) : Type 0 where
  blank : Lexeme F
  token : ℕ → Token F → Lexeme F
  bad : Message F → Lexeme F

unfoldable pub is_space : ℕ → Bool
is_space c = c == 32 || c == 9 || c == 10 || c == 13

unfoldable pub is_number : ℕ → Bool
is_number c = leb b'0' c && leb c b'9'

-- unicode.IsLetter and unicode.IsDigit below U+0100.
latin_letter : ℕ → Bool
latin_letter r =
    (leb 65 r && leb r 90)
    || (leb 97 r && leb r 122)
    || r == 0xAA
    || r == 0xB5
    || r == 0xBA
    || (leb 0xC0 r && leb r 0xFF && not (r == 0xD7) && not (r == 0xF7))

abbrev pub single : ℕ → Bytes
single c = c ∷ []

-- Digits with one point at most.
unfoldable pub number_span : Bool → Bytes → Bytes
unfolding is_number
number_span dot [] = []
number_span dot (b ∷ s) =
    let more = b ∷ number_span (dot || b == b'.') s in
    if is_number b || (b == b'.' && not dot) then more else []

-- The bytes before the next quote, if there is one.
unfoldable pub until : ℕ → Bytes → Option Bytes
until quote [] = none
until quote (b ∷ s) =
    let rest : Option Bytes = elim (until quote s) [ none ↦ none | some v ↦ some (b ∷ v) ] in
    if b == quote then some [] else rest

-- src[i+1] == c, for a source that goes on with these bytes.
unfoldable pub next_is : ℕ → Bytes → Bool
next_is c [] = false
next_is c (d ∷ s) = d == c

unfoldable pub is_compare : ℕ → Bool
is_compare c = c == b'=' || c == b'!' || c == b'<' || c == b'>'

unfoldable pub is_single : ℕ → Bool
is_single c =
    c == b'+'
    || c == b'-'
    || c == b'*'
    || c == b'/'
    || c == b'%'
    || c == b'('
    || c == b')'
    || c == b'['
    || c == b']'
    || c == b','
    || c == b'.'
    || c == b'?'
    || c == b':'

module _ {F : Type 0} (go : Go F) where
  letter : ℕ → Bool
  unfolding latin_letter
  letter r = if ltb r 256 then latin_letter r else go.is_letter r

  unfoldable pub is_ident_start : ℕ → Bool
  unfolding letter
  is_ident_start r = r == b'_' || letter r

  unfoldable pub is_ident_cont : ℕ → Bool
  unfolding letter is_number
  is_ident_cont r =
      r == b'_' || r == b'-' || letter r || (if ltb r 256 then is_number r else go.is_digit r)

  -- The rest of a name; the first number counts the bytes that are left of a rune.
  unfoldable pub ident_rest : ℕ → Bytes → Bytes
  unfolding is_ident_cont
  ident_rest skip [] = []
  ident_rest (suc skip) (b ∷ s) = b ∷ ident_rest skip s
  ident_rest zero (b ∷ s) =
      let rune = decode_rune b s in
      let more = b ∷ ident_rest (rune.1 - 1) s in if is_ident_cont rune.0 then more else []

  abbrev pub plain : TokenKind → Bytes → ℕ → Token F
  plain kind value i = record {
    kind = kind;
    value = value;
    number = go.zero_num;
    truth = false;
    at = i;
  }

  unfoldable pub number_lexeme : ℕ → Bytes → Lexeme F
  number_lexeme i digits = elim (go.scan_float digits) [
    | none ↦ bad (invalid_number digits)
    | some n ↦
        token (length digits)
          (record { kind = number; value = digits; number = n; truth = false; at = i })
  ]

  unfoldable pub string_lexeme : ℕ → Option Bytes → Lexeme F
  string_lexeme i none = bad unterminated_string
  string_lexeme i (some v) = token (length v + 2) (plain string v i)

  unfoldable pub ident_lexeme : ℕ → Bytes → Lexeme F
  ident_lexeme i name =
      if bytes_eq name (codes "true")
      then token (length name) (record (plain bool_lit name i) { truth = true })
      else if bytes_eq name (codes "false")
      then token (length name) (plain bool_lit name i)
      else if bytes_eq name (codes "null")
      then token (length name) (plain null_lit name i)
      else token (length name) (plain ident name i)

  -- The switch of Tokenize at the byte c, with the bytes after it.
  unfoldable pub lexeme : ℕ → ℕ → Bytes → Lexeme F
  unfolding is_space is_number is_ident_start ident_rest number_span until number_lexeme
      string_lexeme ident_lexeme next_is is_compare is_single
  lexeme i c s =
      if is_space c
      then blank
      else if is_number c
      then number_lexeme i (number_span false (c ∷ s))
      else if c == 39 || c == 34
      then string_lexeme i (until c s)
      else if is_ident_start c
      then ident_lexeme i (c ∷ ident_rest 0 s)
      else if is_compare c
      then (if next_is b'=' s
          then token 2 (plain punct (c ∷ b'=' ∷ []) i)
          else token 1 (plain punct (single c) i))
      else if c == b'&' || c == b'|'
      then (if next_is c s then token 2 (plain punct (c ∷ c ∷ []) i) else bad (lone c))
      else if is_single c
      then token 1 (plain punct (single c) i)
      else bad (unexpected_character c)

  abbrev pub prepend : Token F → Lexed F → Lexed F
  prepend t (ok ts) = ok (t ∷ ts)
  prepend t (failed p m) = failed p m

  -- The loop of Tokenize at offset i. The second number is what is left of the last token.
  unfoldable pub tokenize_from : ℕ → ℕ → Bytes → Lexed F
  tokenize_from i skip [] = ok (plain eof [] i ∷ [])
  tokenize_from i (suc skip) (c ∷ s) = tokenize_from (suc i) skip s
  tokenize_from i zero (c ∷ s) = elim (lexeme i c s) [
    | blank ↦ tokenize_from (suc i) 0 s
    | token n t ↦ prepend t (tokenize_from (suc i) (n - 1) s)
    | bad m ↦ failed i m
  ]

  unfoldable pub tokenize : Bytes → Lexed F
  unfolding tokenize_from
  tokenize src = tokenize_from 0 0 src
