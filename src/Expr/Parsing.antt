-- ===== src/Expr/Parsing.antt =====
-- Parse of api/pkg/expr/parser.go as a whole: the lexer, then the parser.
use helios_ci_cd.Prelude.{ℕ, ◌≡◌, refl, ◌≢◌, sym, ◌∙◌, List, [], ◌∷◌}
use helios_ci_cd.Expr.{Bytes, Go, Token, eof, Node}
use helios_ci_cd.Expr.Lexer.{Lexed, tokenize}
use helios_ci_cd.Expr.Lexer.Spelling.{Spells, digits, quoted, name, truth_value, nil_value, mark}
use helios_ci_cd.Expr.Lexer.Tiling.{
  Tiles, close, space, tile, Scanned, scanned, stuck, tokenize-Scanned,
}
use helios_ci_cd.Expr.Parser.{parse_lexed, parse}
use helios_ci_cd.Expr.Parser.Outcome.{Parsed, Yields, good, refused}
use helios_ci_cd.Expr.Parser.Soundness.{Closed, IsParse, parse_tokens-Yields}

module _ {F : Type 0} (go : Go F) where
  Spells-kind : {rest s : Bytes} {t : Token F} → Spells go rest s t → t.kind ≢ eof
  Spells-kind (digits t k h d) e = cc (sym k ∙ e)
  Spells-kind (quoted t q s k one apart whole) e = cc (sym k ∙ e)
  Spells-kind (name t k w a b c) e = cc (sym k ∙ e)
  Spells-kind (truth_value t k w h) e = cc (sym k ∙ e)
  Spells-kind (nil_value t k w h) e = cc (sym k ∙ e)
  Spells-kind (mark t k m) e = cc (sym k ∙ e)

  Closed-cons : (t : Token F) (ts : List (Token F)) → t.kind ≢ eof → Closed ts → Closed (t ∷ ts)
  Closed-cons t [] k c = absurd c
  Closed-cons t (u ∷ ts) k c = (k, c)

  Tiles-Closed : {i : ℕ} {s : Bytes} {ts : List (Token F)} → Tiles go i s ts → Closed ts
  Tiles-Closed (close i t k at) = k
  Tiles-Closed (space i c s ts sp rest) = Tiles-Closed rest
  Tiles-Closed (tile i src text rest t ts e sp at later) =
      Closed-cons t ts (Spells-kind sp) (Tiles-Closed later)

  -- The node is derived by the grammar from the tokens of Tokenize, which tile the source.
  pub record Reads (src : Bytes) (n : Node F) : Type 0 where
    pub tokens : List (Token F)
    pub scanned_tokens : tokenize go src ≡ Lexed.ok tokens
    pub tiled : Tiles go 0 src tokens
    pub parsed : IsParse tokens n

  lift_parse :
      (src : Bytes) (ts : List (Token F))
      → tokenize go src ≡ Lexed.ok ts
      → Tiles go 0 src ts
      → {r : Parsed F (Node F)} → Yields (IsParse ts) r
      → Yields (Reads src) r
  lift_parse src ts same tiles (good n h) =
      good n (record { tokens = ts; scanned_tokens = same; tiled = tiles; parsed = h })
  lift_parse src ts same tiles (refused p m) = refused p m

  parse_lexed-Yields :
      (src : Bytes) {l : Lexed F}
      → tokenize go src ≡ l
      → Scanned go 0 src l
      → Yields (Reads src) (parse_lexed l)
  unfolding parse_lexed
  parse_lexed-Yields src same (scanned ts tiles) =
      lift_parse src ts same tiles (parse_tokens-Yields ts (Tiles-Closed tiles))
  parse_lexed-Yields src same (stuck p c before after m split place why) = refused p m

  -- Parse ends for every source, with a ParseError or with a node that the grammar derives from the tokens
  -- of Tokenize but EOF; these tile the source, each written as its kind is.
  pub parse-Yields : (src : Bytes) → Yields (Reads src) (parse go src)
  unfolding parse
  parse-Yields src = parse_lexed-Yields src refl (tokenize-Scanned go src)
