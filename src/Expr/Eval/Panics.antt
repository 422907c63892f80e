-- ===== src/Expr/Eval/Panics.antt =====
-- When an evaluation of api/pkg/expr/eval.go cannot panic.
use mathlib.Core.Path.{subst}
use helios_ci_cd.Prelude.{Bool, false, ◌||◌, ◌≡◌, ◌≢◌, sym, ◌∙◌, arith}
use helios_ci_cd.Expr.{
  Go, Node, Args, literal, ident, member, index, unary, binary, ternary, call, no_args, arg,
}
use helios_ci_cd.Expr.Eval.{Context, panicked, eval_node}
use helios_ci_cd.Expr.Eval.Outcomes.{is_risky, Within, Placed, PlacedArgs, eval_node-Within}

-- Whether ==, != or % is in an expression.
unfoldable mutual
  unfolding is_risky

  pub uses_risky : {F : Type 0} → Node F → Bool
  uses_risky (literal v p) = false
  uses_risky (ident x p) = false
  uses_risky (member l x p) = uses_risky l
  uses_risky (index l i p) = uses_risky l || uses_risky i
  uses_risky (unary op r p) = uses_risky r
  uses_risky (binary op l r p) = is_risky op || (uses_risky l || uses_risky r)
  uses_risky (ternary c t e p) = uses_risky c || (uses_risky t || uses_risky e)
  uses_risky (call f args p) = risky_args args

  pub risky_args : {F : Type 0} → Args F → Bool
  risky_args no_args = false
  risky_args (arg n ns) = uses_risky n || risky_args ns

or_left : (a b : Bool) → (a || b) ≡ false → a ≡ false
or_left a b h = ground (arith, h)

or_right : (a b : Bool) → (a || b) ≡ false → b ≡ false
or_right a b h = ground (arith, h)

module _ {F : Type 0} where
  mutual
    unfolding uses_risky risky_args Placed PlacedArgs

    careful : (n : Node F) → uses_risky n ≡ false → Placed {F = F} (λ p. Unit) ⊥ n
    careful (literal v p) h = tt
    careful (ident x p) h = tt
    careful (member l x p) h = careful l h
    careful (index l i p) h = (careful l (or_left _ _ h), careful i (or_right (uses_risky l) _ h))
    careful (unary op r p) h = (tt, careful r h)
    careful (binary op l r p) h =
        let rest = or_right (is_risky op) _ h in
        (
          tt,
          (λ risky. cc (sym risky ∙ or_left (is_risky op) _ h)),
          careful l (or_left _ _ rest),
          careful r (or_right (uses_risky l) _ rest),
        )
    careful (ternary c t e p) h =
        let rest = or_right (uses_risky c) _ h in
        (
          careful c (or_left _ _ h),
          careful t (or_left _ _ rest),
          careful e (or_right (uses_risky t) _ rest),
        )
    careful (call f args p) h = (tt, careful_args args h)

    careful_args : (ns : Args F) → risky_args ns ≡ false → PlacedArgs {F = F} (λ p. Unit) ⊥ ns
    careful_args no_args h = tt
    careful_args (arg n ns) h =
        (careful n (or_left _ _ h), careful_args ns (or_right (uses_risky n) _ h))

  -- An expression without ==, != and % never panics, whatever the context: it has a value or an
  -- EvalError. (With them it may: two maps are compared, or int() of the divisor is 0.)
  pub eval_node-ne-panicked :
      (go : Go F) (ctx : Context F) (n : Node F)
      → uses_risky n ≡ false
      → eval_node go ctx n ≢ panicked
  eval_node-ne-panicked go ctx n h e =
      subst (λ r. Within {F = F} (λ p. Unit) ⊥ r) e
        (eval_node-Within (λ p. Unit) ⊥ go ctx n (careful n h))
