-- ===== src/Expr/Eval/Names.antt =====
-- What an evaluation of api/pkg/expr/eval.go reads of its context.
use helios_ci_cd.Prelude.{ℕ, ◌≡◌, refl, List}
use helios_ci_cd.Expr.{
  Bytes, Go, Value, Node, Args, literal, ident, member, index, unary, binary, ternary, call,
  no_args, arg,
}
use helios_ci_cd.Expr.Values.{find}
use helios_ci_cd.Expr.Eval.{Context, Evaluated, apply_function, count_args, eval_node, eval_args}

module _ {F : Type 0} (c d : Context F) where
  -- The contexts give each name of the expression the same value, and have the same run status if it
  -- calls a function.
  unfoldable mutual
    pub Agrees : Node F → Type 0
    Agrees (literal v p) = Unit
    Agrees (ident x p) = find x c.values ≡ find x d.values
    Agrees (member l x p) = Agrees l
    Agrees (index l i p) = Agrees l × Agrees i
    Agrees (unary op r p) = Agrees r
    Agrees (binary op l r p) = Agrees l × Agrees r
    Agrees (ternary b t e p) = Agrees b × Agrees t × Agrees e
    Agrees (call f args p) = (c.run_status ≡ d.run_status) × AgreesArgs args

    pub AgreesArgs : Args F → Type 0
    AgreesArgs no_args = Unit
    AgreesArgs (arg n ns) = Agrees n × AgreesArgs ns

  apply_function-Agrees :
      (go : Go F) (name : Bytes) (p count : ℕ) (vs : Evaluated F (List (Value F)))
      → c.run_status ≡ d.run_status
      → apply_function go c name p count vs ≡ apply_function go d name p count vs
  unfolding apply_function
  apply_function-Agrees go name p count vs h = rw h refl

  mutual
    unfolding Agrees AgreesArgs eval_node eval_args

    node_same : (go : Go F) (n : Node F) → Agrees n → eval_node go c n ≡ eval_node go d n
    node_same go (literal v p) h = refl
    node_same go (ident x p) h = rw h refl
    node_same go (member l x p) h = rw (node_same go l h) refl
    node_same go (index l i p) h = rw (node_same go l h.0, node_same go i h.1) refl
    node_same go (unary op r p) h = rw (node_same go r h) refl
    node_same go (binary op l r p) h = rw (node_same go l h.0, node_same go r h.1) refl
    node_same go (ternary b t e p) h =
        rw (node_same go b h.0, node_same go t h.1, node_same go e h.2) refl
    node_same go (call f args p) h =
        rw (args_same go args h.1)
          (apply_function-Agrees go f p (count_args args) (eval_args go d args) h.0)

    args_same : (go : Go F) (ns : Args F) → AgreesArgs ns → eval_args go c ns ≡ eval_args go d ns
    args_same go no_args h = refl
    args_same go (arg n ns) h = rw (node_same go n h.0, args_same go ns h.1) refl

  -- The value of an expression, its error or its panic, depends on the values of the names that it
  -- has, and on the run status if it calls a function, and on nothing else of the context.
  pub eval_node-Agrees : (go : Go F) (n : Node F) → Agrees n → eval_node go c n ≡ eval_node go d n
  eval_node-Agrees = node_same
