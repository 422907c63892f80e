-- ===== src/Expr/Parser/Steps.antt =====
-- The steps of the parser of api/pkg/expr/parser.go that its loops share: how the outcome of a reader and
-- the outcome of what follows it make the outcome of both.
use mathlib.Core.List.{append_assoc}
use helios_ci_cd.Prelude.{ℕ, suc, ◌≤◌, ◌≡◌, ◌≢◌, refl, ◌∙◌, List, [], ◌∷◌, ◌++◌, length, arith}
use helios_ci_cd.Expr.{
  Token, TokenKind, eof, number, string, ident, bool_lit, null_lit, punct, null, bool, num, text,
  Node, Args, literal, Message,
}
use helios_ci_cd.Expr.Parser.Outcome.{Parsed, ok, failed, Yields, good, refused}
use helios_ci_cd.Expr.Parser.{Level, or_level, and_level, eq_level, cmp_level, add_level, mul_level}
use helios_ci_cd.Expr.Parser.Grammar.{
  Phrase, primaries, Derives, SomeArgs, a_number, a_string, a_bool, a_null, a_name,
}
use helios_ci_cd.Expr.Parser.Reading.{Ended, Ended-rest, Reads, ReadsArgs}

-- Fuel for the calls on one token, by phrase.
unfoldable pub rank : Level → ℕ
rank or_level = 14
rank and_level = 12
rank eq_level = 10
rank cmp_level = 8
rank add_level = 6
rank mul_level = 4

pub rank_pos : (l : Level) → (4 ≤ rank l) × (rank l ≤ 14)
unfolding rank
rank_pos or_level = omega arith
rank_pos and_level = omega arith
rank_pos eq_level = omega arith
rank_pos cmp_level = omega arith
rank_pos add_level = omega arith
rank_pos mul_level = omega arith

module _ {F : Type 0} where
  -- A reader, then a loop on what it left.
  pub joined :
      {ph : Phrase} {whole : List (Token F)} {bound small : ℕ} (used rest : List (Token F))
      → whole ≡ used ++ rest
      → small ≤ bound
      → (r : Node F × List (Token F)) → Reads ph (used ++ rest) small r
      → Reads ph whole bound r
  joined used rest e le r q = record {
    used = q.used;
    split = e ∙ q.split;
    derived = q.derived;
    ended = q.ended;
    fewer = omega (arith, q.fewer, le);
  }

  pub joined_args :
      {whole : List (Token F)} {bound small : ℕ} (used rest : List (Token F))
      → whole ≡ used ++ rest
      → small ≤ bound
      → (r : Args F × List (Token F)) → ReadsArgs (SomeArgs F) (used ++ rest) small r
      → ReadsArgs (SomeArgs F) whole bound r
  joined_args used rest e le r q = record {
    used = q.used;
    split = e ∙ q.split;
    derived = q.derived;
    ended = q.ended;
    fewer = omega (arith, q.fewer, le);
  }

  pub lift :
      {ph other : Phrase} {whole : List (Token F)} {bound : ℕ}
      → ((ts : List (Token F)) (n : Node F) → Derives F ph ts n → Derives F other ts n)
      → (r : Node F × List (Token F)) → Reads ph whole bound r
      → Reads other whole bound r
  lift rule r q = record {
    used = q.used;
    split = q.split;
    derived = rule q.used r.0 q.derived;
    ended = q.ended;
    fewer = q.fewer;
  }

  pub Yields-map :
      {A : Type 0} {Good Fine : A → Type 0} {r : Parsed F A}
      → ((a : A) → Good a → Fine a)
      → Yields Good r
      → Yields Fine r
  Yields-map f (good a h) = good a (f a h)
  Yields-map f (refused p m) = refused p m

  -- A loop that stops has read what it was given.
  pub stopped :
      {ph : Phrase} (cs ts : List (Token F)) (n : Node F)
      → Derives F ph cs n
      → Ended ts
      → Reads ph (cs ++ ts) (suc (length ts)) (n, ts)
  stopped cs ts n d e = record {
    used = cs;
    split = refl;
    derived = d;
    ended = e;
    fewer = omega arith;
  }

  pub regroup :
      (xs : List (Token F)) (t : Token F) (ys zs : List (Token F))
      → xs ++ (t ∷ (ys ++ zs)) ≡ (xs ++ (t ∷ ys)) ++ zs
  regroup xs t ys zs = simp append_assoc

  pub ternary_step :
      (cs xs ys us vs ts zs : List (Token F)) (q k : Token F)
      → ts ≡ xs ++ us
      → us ≡ k ∷ vs
      → vs ≡ ys ++ zs
      → cs ++ (q ∷ ts) ≡ (cs ++ (q ∷ (xs ++ (k ∷ ys)))) ++ zs
  ternary_step cs xs ys us vs ts zs q k e1 e2 e3 = rw (e1, e2, e3) (simp append_assoc)

  pub subscript_step :
      (cs is us vs ts : List (Token F)) (o c : Token F)
      → ts ≡ is ++ us
      → us ≡ c ∷ vs
      → cs ++ (o ∷ ts) ≡ (cs ++ (o ∷ (is ++ (c ∷ [])))) ++ vs
  subscript_step cs is us vs ts o c e1 e2 = rw (e1, e2) (simp append_assoc)

  -- A primary that is one token, or what is read of a bracket.
  pub primary_of-Yields :
      (t : Token F) (ts : List (Token F)) {bracketed : Parsed F (Node F × List (Token F))}
      → Ended (t ∷ ts)
      → Yields (Reads primaries (t ∷ ts) (suc (length ts))) bracketed
      → Yields (Reads primaries (t ∷ ts) (suc (length ts))) (elim t.kind [
        | number ↦ ok (literal (num t.number) t.at, ts)
        | string ↦ ok (literal (text t.value) t.at, ts)
        | bool_lit ↦ ok (literal (bool t.truth) t.at, ts)
        | null_lit ↦ ok (literal null t.at, ts)
        | ident ↦ ok (Node.ident t.value t.at, ts)
        | punct ↦ bracketed
        | eof ↦ failed t.at (Message.unexpected_token t)
      ])
  primary_of-Yields t ts {bracketed} e in_brackets = by_kind t.kind refl
    where
      one :
          (n : Node F) (k : TokenKind)
          → t.kind ≡ k
          → k ≢ eof
          → Derives F primaries (t ∷ []) n
          → Reads primaries (t ∷ ts) (suc (length ts)) (n, ts)
      one n k same other d = record {
        used = t ∷ [];
        split = refl;
        derived = d;
        ended = Ended-rest t ts k same other e;
        fewer = omega arith;
      }

      by_kind :
          (k : TokenKind)
          → t.kind ≡ k
          → Yields {F = F} (Reads primaries (t ∷ ts) (suc (length ts))) (elim k [
            | number ↦ ok (literal (num t.number) t.at, ts)
            | string ↦ ok (literal (text t.value) t.at, ts)
            | bool_lit ↦ ok (literal (bool t.truth) t.at, ts)
            | null_lit ↦ ok (literal null t.at, ts)
            | ident ↦ ok (Node.ident t.value t.at, ts)
            | punct ↦ bracketed
            | eof ↦ failed t.at (Message.unexpected_token t)
          ])
      by_kind number k = good _ (one _ number k (cc) (a_number t k))
      by_kind string k = good _ (one _ string k (cc) (a_string t k))
      by_kind bool_lit k = good _ (one _ bool_lit k (cc) (a_bool t k))
      by_kind null_lit k = good _ (one _ null_lit k (cc) (a_null t k))
      by_kind ident k = good _ (one _ ident k (cc) (a_name t k))
      by_kind punct k = in_brackets
      by_kind eof k = refused _ _
