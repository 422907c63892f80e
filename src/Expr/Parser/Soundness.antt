-- ===== src/Expr/Parser/Soundness.antt =====
-- Parse of api/pkg/expr/parser.go ends, within its tokens, and what it returns is derived by the grammar.
use mathlib.Core.Path.{subst}
use helios_ci_cd.Prelude.{
  ℕ, zero, suc, ◌+◌, ◌*◌, ◌<◌, ◌≡◌, ◌≢◌, refl, sym, ap, ◌∙◌, inl, inr, List, [], ◌∷◌, ◌++◌, length,
  arith,
}
use helios_ci_cd.Expr.{
  codes, Token, TokenKind, eof, number, string, ident, bool_lit, null_lit, punct, Node, Args, index,
  binary, call, pos_of, Message,
}
use helios_ci_cd.Expr.Parser.Outcome.{ok, failed, Yields, good, refused, Yields-if, Yields-bind}
use helios_ci_cd.Expr.Parser.{
  Level, or_level, and_level, eq_level, cmp_level, add_level, mul_level, operators,
  prefix_operators, one_of, is_callable, flatten_name, parse_ternary, ternary_rest, parse_binary,
  parse_operand, binary_rest, parse_unary, parse_postfix, postfix_rest, parse_args, args_from,
  args_rest, parse_primary, finish, parse_tokens,
}
use helios_ci_cd.Expr.Parser.Grammar.{
  ternaries, level, unaries, postfixes, primaries, operand, Derives, DerivesArgs, SomeArgs,
  no_choice, choice, single, chain, no_prefix, prefix, start, dot, subscript, apply, bracket,
  none_given, some_given, last_given, more_given,
}
use helios_ci_cd.Expr.Parser.Reading.{
  Ended, Ended-punct, Reads, ReadsArgs, expect_punct-Yields, member_name-Yields,
}
use helios_ci_cd.Expr.Parser.Steps.{
  rank, rank_pos, joined, joined_args, lift, Yields-map, stopped, regroup, ternary_step,
  subscript_step, primary_of-Yields,
}

module _ {F : Type 0} where
  mutual
    unfolding parse_ternary ternary_rest parse_binary parse_operand binary_rest parse_unary
        parse_postfix postfix_rest parse_args args_from args_rest parse_primary rank

    parse_ternary-Yields :
        (f : ℕ) (ts : List (Token F))
        → 32 * length ts + 16 < f
        → Ended ts
        → Yields (Reads ternaries ts (length ts)) (parse_ternary f ts)
    parse_ternary-Yields zero ts h e = absurd (omega arith)
    parse_ternary-Yields (suc f) ts h e =
        Yields-bind (parse_binary-Yields f or_level ts (omega arith) e) λ (cond, rest) q.
          let less = q.fewer in
          Yields-map (joined q.used rest q.split (omega (arith, less)))
            (ternary_rest-Yields f q.used cond rest (omega (arith, less)) q.derived q.ended)

    ternary_rest-Yields :
        (f : ℕ) (cs : List (Token F)) (c : Node F) (ts : List (Token F))
        → 32 * length ts + 1 < f
        → Derives F (level or_level) cs c
        → Ended ts
        → Yields (Reads ternaries (cs ++ ts) (suc (length ts))) (ternary_rest f c ts)
    ternary_rest-Yields zero cs c ts h d e = absurd (omega arith)
    ternary_rest-Yields (suc f) cs c [] h d e = absurd e
    ternary_rest-Yields (suc f) cs c (t ∷ ts) h d e =
        Yields-if (one_of (codes "?" ∷ []) t)
          (λ is_q.
            Yields-bind
              (parse_ternary-Yields f ts (omega (arith, h))
                (Ended-punct (codes "?" ∷ []) t ts is_q e))
              λ (x, r1) a. Yields-bind (expect_punct-Yields (codes ":") r1 a.ended) λ (done, r2) b.
                let fewer_a = a.fewer in
                let len_b = ap length b.split in
                Yields-bind (parse_ternary-Yields f r2 (omega (arith, h, fewer_a, len_b)) b.ended)
                  λ (y, r3) k.
                    let fewer_k = k.fewer in
                    good _ (record {
                      used = cs ++ (t ∷ (a.used ++ (b.token ∷ k.used)));
                      split =
                          ternary_step cs a.used k.used r1 r2 ts r3 t b.token a.split b.split
                            k.split;
                      derived =
                          choice cs a.used k.used _ t b.token c x y d is_q a.derived b.fits
                            k.derived refl;
                      ended = k.ended;
                      fewer = omega (arith, fewer_a, len_b, fewer_k);
                    }))
          (λ no_q. good _ (stopped cs (t ∷ ts) c (no_choice d) e))

    parse_binary-Yields :
        (f : ℕ) (l : Level) (ts : List (Token F))
        → 32 * length ts + suc (rank l) < f
        → Ended ts
        → Yields (Reads (level l) ts (length ts)) (parse_binary f l ts)
    parse_binary-Yields zero l ts h e = absurd (omega arith)
    parse_binary-Yields (suc f) l ts h e =
        Yields-bind (parse_operand-Yields f l ts (omega arith) e) λ (left, rest) q.
          let less = q.fewer in
          Yields-map (joined q.used rest q.split (omega (arith, less))) (
            binary_rest-Yields f l q.used left rest (omega (arith, less)) (single l q.derived)
              q.ended)

    parse_operand-Yields :
        (f : ℕ) (l : Level) (ts : List (Token F))
        → 32 * length ts + rank l < f
        → Ended ts
        → Yields (Reads (operand l) ts (length ts)) (parse_operand f l ts)
    parse_operand-Yields zero l ts h e = absurd (omega arith)
    parse_operand-Yields (suc f) or_level ts h e =
        parse_binary-Yields f and_level ts (omega (arith, h)) e
    parse_operand-Yields (suc f) and_level ts h e =
        parse_binary-Yields f eq_level ts (omega (arith, h)) e
    parse_operand-Yields (suc f) eq_level ts h e =
        parse_binary-Yields f cmp_level ts (omega (arith, h)) e
    parse_operand-Yields (suc f) cmp_level ts h e =
        parse_binary-Yields f add_level ts (omega (arith, h)) e
    parse_operand-Yields (suc f) add_level ts h e =
        parse_binary-Yields f mul_level ts (omega (arith, h)) e
    parse_operand-Yields (suc f) mul_level ts h e = parse_unary-Yields f ts (omega (arith, h)) e

    binary_rest-Yields :
        (f : ℕ) (l : Level) (cs : List (Token F)) (left : Node F) (ts : List (Token F))
        → 32 * length ts + 1 < f
        → Derives F (level l) cs left
        → Ended ts
        → Yields (Reads (level l) (cs ++ ts) (suc (length ts))) (binary_rest f l left ts)
    binary_rest-Yields zero l cs left ts h d e = absurd (omega arith)
    binary_rest-Yields (suc f) l cs left [] h d e = absurd e
    binary_rest-Yields (suc f) l cs left (t ∷ ts) h d e =
        Yields-if (one_of (operators l) t)
          (λ is_op.
            let small = rank_pos l in
            Yields-bind
              (parse_operand-Yields f l ts (omega (arith, h, small))
                (Ended-punct (operators l) t ts is_op e))
              λ (right, r) a.
                let less = a.fewer in
                Yields-map
                  (joined (cs ++ (t ∷ a.used)) r
                    (ap (λ us. cs ++ (t ∷ us)) a.split ∙ regroup cs t a.used r)
                    (omega (arith, less)))
                  (binary_rest-Yields f l (cs ++ (t ∷ a.used))
                    (binary t.value left right (pos_of left)) r (omega (arith, h, less))
                    (chain l cs a.used _ t left right d is_op a.derived refl) a.ended))
          (λ no_op. good _ (stopped cs (t ∷ ts) left d e))

    parse_unary-Yields :
        (f : ℕ) (ts : List (Token F))
        → 32 * length ts + 3 < f
        → Ended ts
        → Yields (Reads unaries ts (length ts)) (parse_unary f ts)
    parse_unary-Yields zero ts h e = absurd (omega arith)
    parse_unary-Yields (suc f) [] h e = absurd e
    parse_unary-Yields (suc f) (t ∷ ts) h e =
        Yields-if (one_of prefix_operators t)
          (λ is_op.
            Yields-bind
              (parse_unary-Yields f ts (omega (arith, h))
                (Ended-punct prefix_operators t ts is_op e))
              λ (right, r) a.
                let less = a.fewer in
                good _ (record {
                  used = t ∷ a.used;
                  split = ap (λ us. t ∷ us) a.split;
                  derived = prefix t a.used right is_op a.derived;
                  ended = a.ended;
                  fewer = omega (arith, less);
                }))
          (λ no_op.
            Yields-map (lift (λ us n d. no_prefix d))
              (parse_postfix-Yields f (t ∷ ts) (omega (arith, h)) e))

    parse_postfix-Yields :
        (f : ℕ) (ts : List (Token F))
        → 32 * length ts + 2 < f
        → Ended ts
        → Yields (Reads postfixes ts (length ts)) (parse_postfix f ts)
    parse_postfix-Yields zero ts h e = absurd (omega arith)
    parse_postfix-Yields (suc f) ts h e =
        Yields-bind (parse_primary-Yields f ts (omega arith) e) λ (left, rest) q.
          let less = q.fewer in
          Yields-map (joined q.used rest q.split (omega (arith, less)))
            (postfix_rest-Yields f q.used left rest (omega (arith, less)) (start q.derived) q.ended)

    postfix_rest-Yields :
        (f : ℕ) (cs : List (Token F)) (left : Node F) (ts : List (Token F))
        → 32 * length ts + 1 < f
        → Derives F postfixes cs left
        → Ended ts
        → Yields (Reads postfixes (cs ++ ts) (suc (length ts))) (postfix_rest f left ts)
    postfix_rest-Yields zero cs left ts h d e = absurd (omega arith)
    postfix_rest-Yields (suc f) cs left [] h d e = absurd e
    postfix_rest-Yields (suc f) cs left (t ∷ ts) h d e =
        Yields-if (one_of (codes "." ∷ []) t)
          (λ is_dot.
            Yields-bind (member_name-Yields left ts (Ended-punct (codes "." ∷ []) t ts is_dot e))
              λ (node, r) m.
                let len = ap length m.split in
                Yields-map
                  (joined (cs ++ (t ∷ m.token ∷ [])) r
                    (ap (λ us. cs ++ (t ∷ us)) m.split ∙ regroup cs t (m.token ∷ []) r)
                    (omega (arith, len)))
                  (postfix_rest-Yields f (cs ++ (t ∷ m.token ∷ [])) node r (omega (arith, h, len))
                    (subst (λ n. Derives F postfixes (cs ++ (t ∷ m.token ∷ [])) n) (sym m.node)
                      (dot cs _ t m.token left d is_dot m.named refl))
                    m.ended))
          (λ no_dot.
            Yields-if (one_of (codes "[" ∷ []) t)
              (λ is_open.
                Yields-bind
                  (parse_ternary-Yields f ts (omega (arith, h))
                    (Ended-punct (codes "[" ∷ []) t ts is_open e))
                  λ (i, r1) a.
                    let fewer_a = a.fewer in
                    Yields-bind (expect_punct-Yields (codes "]") r1 a.ended) λ (done, r2) b.
                      let len_b = ap length b.split in
                      Yields-map
                        (joined (cs ++ (t ∷ (a.used ++ (b.token ∷ [])))) r2
                          (subscript_step cs a.used r1 r2 ts t b.token a.split b.split)
                          (omega (arith, fewer_a, len_b)))
                        (postfix_rest-Yields f (cs ++ (t ∷ (a.used ++ (b.token ∷ []))))
                          (index left i (pos_of left)) r2 (omega (arith, h, fewer_a, len_b))
                          (subscript cs a.used _ t b.token left i d is_open a.derived b.fits refl)
                          b.ended))
              (λ no_open.
                Yields-if (one_of (codes "(" ∷ []) t)
                  (λ is_call.
                    Yields-if (is_callable left)
                      (λ able.
                        Yields-bind
                          (parse_args-Yields f ts (omega (arith, h))
                            (Ended-punct (codes "(" ∷ []) t ts is_call e))
                          λ (args, r) a.
                            let less = a.fewer in
                            Yields-map
                              (joined (cs ++ (t ∷ a.used)) r
                                (ap (λ us. cs ++ (t ∷ us)) a.split ∙ regroup cs t a.used r)
                                (omega (arith, less)))
                              (postfix_rest-Yields f (cs ++ (t ∷ a.used))
                                (call (flatten_name left) args (pos_of left)) r
                                (omega (arith, h, less))
                                (apply cs a.used _ t left args d able is_call a.derived refl)
                                a.ended))
                      (λ unable. refused _ _))
                  (λ no_call. good _ (stopped cs (t ∷ ts) left d e))))

    parse_args-Yields :
        (f : ℕ) (ts : List (Token F))
        → 32 * length ts + 18 < f
        → Ended ts
        → Yields (ReadsArgs (DerivesArgs F) ts (length ts)) (parse_args f ts)
    parse_args-Yields zero ts h e = absurd (omega arith)
    parse_args-Yields (suc f) [] h e = absurd e
    parse_args-Yields (suc f) (t ∷ ts) h e =
        Yields-if (one_of (codes ")" ∷ []) t)
          (λ is_close. good _ (record {
            used = t ∷ [];
            split = refl;
            derived = none_given t is_close;
            ended = Ended-punct (codes ")" ∷ []) t ts is_close e;
            fewer = omega arith;
          }))
          (λ no_close. Yields-map given (args_from-Yields f (t ∷ ts) (omega (arith, h)) e))
      where
        given :
            (r : Args F × List (Token F))
            → ReadsArgs (SomeArgs F) (t ∷ ts) (suc (length ts)) r
            → ReadsArgs (DerivesArgs F) (t ∷ ts) (suc (length ts)) r
        given r q = record {
          used = q.used;
          split = q.split;
          derived = some_given q.derived;
          ended = q.ended;
          fewer = q.fewer;
        }

    args_from-Yields :
        (f : ℕ) (ts : List (Token F))
        → 32 * length ts + 17 < f
        → Ended ts
        → Yields (ReadsArgs (SomeArgs F) ts (length ts)) (args_from f ts)
    args_from-Yields zero ts h e = absurd (omega arith)
    args_from-Yields (suc f) ts h e =
        Yields-bind (parse_ternary-Yields f ts (omega (arith, h)) e) λ (a, rest) q.
          let less = q.fewer in
          Yields-map (joined_args q.used rest q.split (omega (arith, less)))
            (args_rest-Yields f q.used a rest (omega (arith, h, less)) q.derived q.ended)

    args_rest-Yields :
        (f : ℕ) (is : List (Token F)) (a : Node F) (ts : List (Token F))
        → 32 * length ts + 1 < f
        → Derives F ternaries is a
        → Ended ts
        → Yields (ReadsArgs (SomeArgs F) (is ++ ts) (suc (length ts))) (args_rest f a ts)
    args_rest-Yields zero is a ts h d e = absurd (omega arith)
    args_rest-Yields (suc f) is a [] h d e = absurd e
    args_rest-Yields (suc f) is a (t ∷ ts) h d e =
        Yields-if (one_of (codes "," ∷ []) t)
          (λ is_comma.
            Yields-bind
              (args_from-Yields f ts (omega (arith, h))
                (Ended-punct (codes "," ∷ []) t ts is_comma e))
              λ (args, r) q.
                let less = q.fewer in
                good _ (record {
                  used = is ++ (t ∷ q.used);
                  split = ap (λ us. is ++ (t ∷ us)) q.split ∙ regroup is t q.used r;
                  derived = more_given is q.used _ t a args d is_comma q.derived refl;
                  ended = q.ended;
                  fewer = omega (arith, less);
                }))
          (λ no_comma. Yields-bind (expect_punct-Yields (codes ")") (t ∷ ts) e) λ (done, r) b.
            let len = ap length b.split in
            good _ (record {
              used = is ++ (b.token ∷ []);
              split = ap (λ us. is ++ us) b.split ∙ regroup is b.token [] r;
              derived = last_given is _ b.token a d b.fits refl;
              ended = b.ended;
              fewer = omega (arith, len);
            }))

    parse_primary-Yields :
        (f : ℕ) (ts : List (Token F))
        → 32 * length ts + 1 < f
        → Ended ts
        → Yields (Reads primaries ts (length ts)) (parse_primary f ts)
    parse_primary-Yields zero ts h e = absurd (omega arith)
    parse_primary-Yields (suc f) [] h e = absurd e
    parse_primary-Yields (suc f) (t ∷ ts) h e = primary_of-Yields t ts e (
        Yields-if (one_of (codes "(" ∷ []) t)
          (λ is_open.
            Yields-bind
              (parse_ternary-Yields f ts (omega (arith, h))
                (Ended-punct (codes "(" ∷ []) t ts is_open e))
              λ (node, r1) a.
                let fewer_a = a.fewer in
                Yields-bind (expect_punct-Yields (codes ")") r1 a.ended) λ (done, r2) b.
                  let len_b = ap length b.split in
                  good _ (record {
                    used = t ∷ (a.used ++ (b.token ∷ []));
                    split = subscript_step [] a.used r1 r2 ts t b.token a.split b.split;
                    derived = bracket t b.token a.used _ node is_open a.derived b.fits refl;
                    ended = b.ended;
                    fewer = omega (arith, fewer_a, len_b);
                  }))
          (λ no_open. refused _ _))

-- EOF is the last token, and only that.
abbrev pub Closed : {F : Type 0} → List (Token F) → Type 0
Closed [] = ⊥
Closed (t ∷ []) = t.kind ≡ eof
Closed (t ∷ u ∷ ts) = (t.kind ≢ eof) × Closed (u ∷ ts)

Closed-Ended : {F : Type 0} (ts : List (Token F)) → Closed ts → Ended ts
Closed-Ended [] c = c
Closed-Ended (t ∷ []) c = inl c
Closed-Ended (t ∷ u ∷ ts) c = inr (Closed-Ended (u ∷ ts) c.1)

-- What is left of closed tokens when it starts with EOF is that EOF.
Closed-rest :
    {F : Type 0} (us ts : List (Token F)) (t : Token F)
    → Closed (us ++ (t ∷ ts))
    → t.kind ≡ eof
    → ts ≡ []
Closed-rest [] [] t c e = refl
Closed-rest [] (u ∷ ts) t c e = absurd (c.0 e)
Closed-rest (v ∷ []) ts t c e = Closed-rest [] ts t c.1 e
Closed-rest (v ∷ w ∷ us) ts t c e = Closed-rest (w ∷ us) ts t c.1 e

-- The grammar derives the node from all tokens but the EOF at their end.
pub record IsParse {F : Type 0} (ts : List (Token F)) (n : Node F) : Type 0 where
  pub used : List (Token F)
  pub close : Token F
  pub whole : ts ≡ used ++ (close ∷ [])
  pub at_end : close.kind ≡ eof
  pub derived : Derives F ternaries used n

finish-Yields :
    {F : Type 0} (ts rest us : List (Token F)) (n : Node F)
    → Closed ts
    → ts ≡ us ++ rest
    → Ended rest
    → Derives F ternaries us n
    → Yields (IsParse ts) (finish n rest)
unfolding finish
finish-Yields ts [] us n c e ended d = absurd ended
finish-Yields {F} ts (t ∷ rest) us n c e ended d = by_kind t.kind refl
  where
    by_kind :
        (k : TokenKind)
        → t.kind ≡ k
        → Yields {F = F}
            (IsParse ts)
            (elim k [ eof ↦ ok n | _ ↦ failed t.at (Message.trailing_token t) ])
    by_kind eof k = good _ (record {
      used = us;
      close = t;
      whole = e ∙ ap (λ r. us ++ (t ∷ r)) (Closed-rest us rest t (subst Closed e c) k);
      at_end = k;
      derived = d;
    })
    by_kind number k = refused _ _
    by_kind string k = refused _ _
    by_kind ident k = refused _ _
    by_kind bool_lit k = refused _ _
    by_kind null_lit k = refused _ _
    by_kind punct k = refused _ _

-- On tokens that end with their only EOF the parser ends within its fuel and its tokens, with a
-- ParseError or with a node that the grammar derives from all of them but the EOF.
pub parse_tokens-Yields :
    {F : Type 0} (ts : List (Token F)) → Closed ts → Yields (IsParse ts) (parse_tokens ts)
unfolding parse_tokens
parse_tokens-Yields ts c =
    Yields-bind (parse_ternary-Yields (32 * length ts + 32) ts (omega arith) (Closed-Ended ts c))
      λ (n, rest) q. finish-Yields ts rest q.used n c q.split q.ended q.derived
