-- ===== src/Expr/Lexer/Tiling.antt =====
-- The tokens of Tokenize (api/pkg/expr/lexer.go) lie in the source side by side, with spaces between.
use mathlib.Core.Path.{subst}
use mathlib.Core.List.{append_assoc}
use helios_ci_cd.Prelude.{
  ℕ, zero, suc, ◌+◌, ◌-◌, ◌<◌, true, ◌≡◌, refl, sym, ap, ◌∙◌, List, [], ◌∷◌, ◌++◌, length,
  length-append, arith,
}
use helios_ci_cd.Expr.{Bytes, Go, Token, eof, Message}
use helios_ci_cd.Expr.Lexer.Spelling.{among, Spells, IsError}
use helios_ci_cd.Expr.Lexer.{Lexed, Lexeme, blank, token, bad, prepend, tokenize_from, tokenize}
use helios_ci_cd.Expr.Lexer.Lexemes.{IsToken, Stands, a_blank, a_token, an_error, lexeme-Stands}

module _ {F : Type 0} (go : Go F) where
  -- The source from offset i on is these tokens, each where its offset says, with spaces between; EOF is
  -- at its end.
  pub data Tiles : ℕ → Bytes → List (Token F) → Type 0 where
    close : (i : ℕ) (t : Token F) → t.kind ≡ eof → t.at ≡ i → Tiles i [] (t ∷ [])
    space :
        (i c : ℕ) (s : Bytes) (ts : List (Token F))
        → among c (32 ∷ 9 ∷ 10 ∷ 13 ∷ []) ≡ true
        → Tiles (suc i) s ts
        → Tiles i (c ∷ s) ts
    tile :
        (i : ℕ) (src text rest : Bytes) (t : Token F) (ts : List (Token F))
        → src ≡ text ++ rest
        → Spells go rest text t
        → t.at ≡ i
        → Tiles (length text + i) rest ts
        → Tiles i src (t ∷ ts)

  -- Bytes of the last token are passed over.
  tokenize_from-skip :
      (i : ℕ) (text rest : Bytes)
      → tokenize_from go i (length text) (text ++ rest) ≡ tokenize_from go (length text + i) 0 rest
  unfolding tokenize_from
  tokenize_from-skip i [] rest = ap (λ k. tokenize_from go k 0 rest) (omega arith)
  tokenize_from-skip i (c ∷ text) rest =
      tokenize_from-skip (suc i) text rest ∙ ap (λ k. tokenize_from go k 0 rest) (omega arith)

  -- The tokens tile the source, or the error is at a byte of it, for a reason that is found there.
  pub data Scanned (i : ℕ) (s : Bytes) : Lexed F → Type 0 where
    scanned : (ts : List (Token F)) → Tiles i s ts → Scanned i s (Lexed.ok ts)
    stuck :
        (p c : ℕ) (before after : Bytes) (m : Message F)
        → s ≡ before ++ (c ∷ after)
        → p ≡ length before + i
        → IsError go c after m
        → Scanned i s (Lexed.failed p m)

  after_space :
      (i c : ℕ) (s : Bytes) {r : Lexed F}
      → among c (32 ∷ 9 ∷ 10 ∷ 13 ∷ []) ≡ true
      → Scanned (suc i) s r
      → Scanned i (c ∷ s) r
  after_space i c s h (scanned ts t) = scanned ts (space i c s ts h t)
  after_space i c s h (stuck p d before after m split place why) =
      stuck p d (c ∷ before) after m (ap (λ x. c ∷ x) split) (omega (arith, place)) why

  after_token :
      (i n : ℕ) (s : Bytes) (t : Token F) {r : Lexed F} (k : IsToken go i n s t)
      → Scanned (length k.text + i) k.rest r
      → Scanned i s (prepend go t r)
  after_token i n s t k (scanned ts tiles) =
      scanned (t ∷ ts) (tile i s k.text k.rest t ts k.whole k.spelled k.placed tiles)
  after_token i n s t k (stuck p d before after m split place why) =
      stuck p d (k.text ++ before) after m
        (k.whole ∙ ap (λ x. k.text ++ x) split ∙ sym (append_assoc k.text before (d ∷ after)))
        (omega (arith, place, length-append k.text before)) why

  passed_over :
      (i n c : ℕ) (s text rest : Bytes)
      → length text ≡ suc n
      → c ∷ s ≡ text ++ rest
      → tokenize_from go (suc i) n s ≡ tokenize_from go (length text + i) 0 rest
  passed_over i n c s [] rest long e = absurd (omega (arith, long))
  passed_over i n c s (d ∷ text) rest long e =
      let tail_eq : s ≡ text ++ rest = cc in
      let short : n ≡ length text = omega (arith, long) in
      ap (λ m. tokenize_from go (suc i) m s) short
      ∙ ap (λ r. tokenize_from go (suc i) (length text) r) tail_eq
      ∙ tokenize_from-skip (suc i) text rest
      ∙ ap (λ k. tokenize_from go k 0 rest) (omega arith)

  tokenize_from-Scanned :
      (f i : ℕ) (s : Bytes) → length s < f → Scanned i s (tokenize_from go i 0 s)
  unfolding tokenize_from
  tokenize_from-Scanned zero i s h = absurd (omega arith)
  tokenize_from-Scanned (suc f) i [] h = scanned _ (close i _ refl refl)
  tokenize_from-Scanned (suc f) i (c ∷ s) h =
      by_lexeme (lexeme-Stands go i c s) (tokenize_from-Scanned f (suc i) s (omega arith))
        (λ j rest fits. tokenize_from-Scanned f j rest fits)
    where
      by_lexeme :
          {l : Lexeme F}
          → Stands go i c s l
          → Scanned (suc i) s (tokenize_from go (suc i) 0 s)
          → ((j : ℕ) (rest : Bytes) → length rest < f → Scanned j rest (tokenize_from go j 0 rest))
          → Scanned i (c ∷ s) (elim l [
            | blank ↦ tokenize_from go (suc i) 0 s
            | token n t ↦ prepend go t (tokenize_from go (suc i) (n - 1) s)
            | bad m ↦ Lexed.failed i m
          ])
      by_lexeme (a_blank sp) next later = after_space i c s sp next
      by_lexeme (a_token k n t e q) next later =
          subst (λ r. Scanned i (c ∷ s) (prepend go t r))
            (sym (
              ap (λ m. tokenize_from go (suc i) m s) (omega arith)
              ∙ passed_over i n c s q.text q.rest q.long q.whole))
            (after_token i n (c ∷ s) t q (
              later (length q.text + i) q.rest
                (omega (arith, ap length q.whole, length-append q.text q.rest, q.long))))
      by_lexeme (an_error m why) next later = stuck i c [] s m refl (omega arith) why

  -- Tokenize ends for every source, with an error at a byte of it, or with tokens that lie in it
  -- side by side from its start to its end, at their offsets, with white space between and EOF last. A
  -- word is a letter or _ with letters, digits, _ and - after it, where a byte that is not ASCII is free;
  -- true, false and null are no names; a numeral has digits and at most one point; a string has no
  -- quote of its kind; a mark is one of the listed ones, and = ! < > with = where that follows. A word
  -- and a numeral end where no ASCII byte (no digit) goes on with them. An error is a numeral that is no
  -- number, a quote that is not closed, one of & | that is not doubled, or a byte that starts nothing.
  pub tokenize-Scanned : (src : Bytes) → Scanned 0 src (tokenize go src)
  unfolding tokenize
  tokenize-Scanned src = tokenize_from-Scanned (suc (length src)) 0 src (omega arith)
