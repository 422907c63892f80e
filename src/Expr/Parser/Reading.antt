-- ===== src/Expr/Parser/Reading.antt =====
-- What a parser of api/pkg/expr/parser.go reads and leaves.
use helios_ci_cd.Prelude.{
  ℕ, ◌<◌, true, ◌≡◌, ◌≢◌, refl, sym, ◌∙◌, ◌⊎◌, inl, inr, List, [], ◌∷◌, ◌++◌, length, arith,
}
use helios_ci_cd.Expr.{
  Bytes, Token, TokenKind, eof, number, string, ident, bool_lit, null_lit, punct, Node, Args,
  member, pos_of, Message,
}
use helios_ci_cd.Expr.Parser.Outcome.{ok, failed, Yields, good, refused, Yields-if}
use helios_ci_cd.Expr.Parser.{is_punct, one_of, expect_punct, member_name}
use helios_ci_cd.Expr.Parser.Grammar.{Phrase, Derives}

-- There is an EOF among the tokens.
abbrev pub Ended : {F : Type 0} → List (Token F) → Type 0
Ended [] = ⊥
Ended (t ∷ ts) = (t.kind ≡ eof) ⊎ Ended ts

kind_punct : (k : TokenKind) → is_punct k ≡ true → k ≡ punct
unfolding is_punct
kind_punct punct h = refl
kind_punct eof h = cc
kind_punct number h = cc
kind_punct string h = cc
kind_punct ident h = cc
kind_punct bool_lit h = cc
kind_punct null_lit h = cc

module _ {F : Type 0} where
  pub one_of-punct : (vs : List Bytes) (t : Token F) → one_of vs t ≡ true → t.kind ≡ punct
  unfolding one_of
  one_of-punct vs t h = kind_punct t.kind (ground (arith, h))

  -- A token that is no EOF leaves the EOF in the rest.
  pub Ended-rest :
      (t : Token F) (ts : List (Token F)) (k : TokenKind)
      → t.kind ≡ k
      → k ≢ eof
      → Ended (t ∷ ts)
      → Ended ts
  Ended-rest t ts k e other (inl at_end) = absurd (other (sym e ∙ at_end))
  Ended-rest t ts k e other (inr later) = later

  pub Ended-punct :
      (vs : List Bytes) (t : Token F) (ts : List (Token F))
      → one_of vs t ≡ true
      → Ended (t ∷ ts)
      → Ended ts
  Ended-punct vs t ts h = Ended-rest t ts punct (one_of-punct vs t h) (cc)

  -- What a parser read of `whole`, and what it left: fewer tokens than the bound, with the EOF.
  pub record Reads (ph : Phrase) (whole : List (Token F)) (bound : ℕ) (r : Node F × List (Token F))
      : Type 0 where
    pub used : List (Token F)
    pub split : whole ≡ used ++ r.1
    pub derived : Derives F ph used r.0
    pub ended : Ended r.1
    pub fewer : length r.1 < bound

  pub record ReadsArgs (Given : List (Token F) → Args F → Type 0) (whole : List (Token F))
      (bound : ℕ) (r : Args F × List (Token F)) : Type 0 where
    pub used : List (Token F)
    pub split : whole ≡ used ++ r.1
    pub derived : Given used r.0
    pub ended : Ended r.1
    pub fewer : length r.1 < bound

  pub record Expected (v : Bytes) (ts : List (Token F)) (r : Unit {0} × List (Token F))
      : Type 0 where
    pub token : Token F
    pub split : ts ≡ token ∷ r.1
    pub fits : one_of (v ∷ []) token ≡ true
    pub ended : Ended r.1

  pub expect_punct-Yields :
      (v : Bytes) (ts : List (Token F)) → Ended ts → Yields (Expected v ts) (expect_punct v ts)
  unfolding expect_punct
  expect_punct-Yields v [] e = absurd e
  expect_punct-Yields v (t ∷ ts) e =
      Yields-if (one_of (v ∷ []) t)
        (λ h.
          good _
            (record { token = t; split = refl; fits = h; ended = Ended-punct (v ∷ []) t ts h e }))
        (λ h. refused _ _)

  pub record Named (left : Node F) (ts : List (Token F)) (r : Node F × List (Token F))
      : Type 0 where
    pub token : Token F
    pub split : ts ≡ token ∷ r.1
    pub named : token.kind ≡ ident
    pub node : r.0 ≡ member left token.value (pos_of left)
    pub ended : Ended r.1

  pub member_name-Yields :
      (left : Node F) (ts : List (Token F))
      → Ended ts
      → Yields (Named left ts) (member_name left ts)
  unfolding member_name
  member_name-Yields left [] e = absurd e
  member_name-Yields left (t ∷ ts) e = by_kind t.kind refl
    where
      by_kind :
          (k : TokenKind)
          → t.kind ≡ k
          → Yields {F = F} (Named left (t ∷ ts)) (elim k [
            | ident ↦ ok (member left t.value (pos_of left), ts)
            | _ ↦ failed t.at Message.no_identifier
          ])
      by_kind ident k = good _ (record {
        token = t;
        split = refl;
        named = k;
        node = refl;
        ended = Ended-rest t ts ident k (cc) e;
      })
      by_kind eof k = refused _ _
      by_kind number k = refused _ _
      by_kind string k = refused _ _
      by_kind bool_lit k = refused _ _
      by_kind null_lit k = refused _ _
      by_kind punct k = refused _ _
