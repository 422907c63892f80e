-- ===== src/Expr/Eval.antt =====
-- api/pkg/expr/eval.go: the evaluator.
pub mod Outcomes
pub mod Panics
pub mod Places
pub mod Names
use helios_ci_cd.Prelude.{
  ℕ, zero, suc, ◌+◌, ◌%◌, String, Bool, true, false, not, ◌&&◌, ◌||◌, Option, none, some, List, [],
  ◌∷◌, ◌++◌, map, ◌==◌, length, if◌then◌else◌,
}
use helios_ci_cd.Prelude.Json.{ℤ, pos, negsuc}
use helios_ci_cd.Prelude.Texts.{itoa}
use helios_ci_cd.Expr.{
  Bytes, codes, Go, Value, null, bool, num, text, items, texts, Node, Args, literal, ident, member,
  index, unary, binary, ternary, call, no_args, arg,
}
use helios_ci_cd.Expr.Texts.{bytes_eq, has_prefix, contains, has_suffix, replace_all, join}
use helios_ci_cd.Expr.Values.{
  find, list_of, is_str, member_access, truthy, to_number, to_string, index_access, loose_eq,
  cmp_num_or_str,
}

pub record Context (F : Type 0) : Type 0 where
  pub values : List (Bytes × Value F)
  pub run_status : Bytes

-- The messages of an EvalError, with what they print.
pub data Reason (F : Type 0) : Type 0 where
  cannot_negate : Value F → Reason F
  unknown_unary : Bytes → Reason F
  cannot_operate : Bytes → Value F → Value F → Reason F
  division_by_zero : Reason F
  modulo_by_zero : Reason F
  unknown_binary : Bytes → Reason F
  wrong_arguments : Bytes → Reason F
  not_json : Reason F
  no_json : Reason F
  not_array : Reason F
  unknown_function : Bytes → Reason F

-- `panicked` is a panic of Go: a comparison of maps or slices, or an integer division by zero.
pub data Evaluated (F : Type 0) (A : Type 0) : Type 0 where
  ok : A → Evaluated F A
  failed : ℕ → Reason F → Evaluated F A
  panicked : Evaluated F A

abbrev pub bind : {F : Type 0} {A B : Type 0} → Evaluated F A → (A → Evaluated F B) → Evaluated F B
bind (ok a) k = k a
bind (failed p m) k = failed p m
bind panicked k = panicked

-- The result of a call that may panic.
abbrev pub or_panic : {F : Type 0} {A : Type 0} → Option A → Evaluated F A
or_panic none = panicked
or_panic (some a) = ok a

-- Go's % on integers, which panics at 0.
magnitude : ℤ → ℕ
magnitude (pos n) = n
magnitude (negsuc n) = suc n

remainder : ℤ → ℕ → ℤ
remainder (pos n) m = pos (n % m)
remainder (negsuc n) m = elim (suc n % m) [ zero ↦ pos 0 | suc r ↦ negsuc r ]

unfoldable pub int_mod : ℤ → ℤ → Option ℤ
unfolding magnitude remainder
int_mod a b = if magnitude b == 0 then none else some (remainder a (magnitude b))

-- {0}, {1}, … of format()
unfoldable pub fill : ℕ → List Bytes → Bytes → Bytes
fill i [] out = out
fill i (s ∷ ss) out =
    fill (suc i) ss (replace_all out (codes "{" ++ (codes (itoa i) ++ codes "}")) s)

unfoldable pub is_comparison : Bytes → Bool
is_comparison op =
    bytes_eq op (codes "<")
    || bytes_eq op (codes ">")
    || bytes_eq op (codes "<=")
    || bytes_eq op (codes ">=")

unfoldable pub is_arithmetic : Bytes → Bool
is_arithmetic op =
    bytes_eq op (codes "-")
    || bytes_eq op (codes "*")
    || bytes_eq op (codes "/")
    || bytes_eq op (codes "%")

unfoldable pub count_args : {F : Type 0} → Args F → ℕ
count_args no_args = 0
count_args (arg n ns) = suc (count_args ns)

unfoldable pub value_or_null : {F : Type 0} → Option (Value F) → Value F
value_or_null none = null
value_or_null (some v) = v

module _ {F : Type 0} (go : Go F) where
  -- The end of evalUnary.
  unfoldable pub apply_unary : Bytes → ℕ → Value F → Evaluated F (Value F)
  apply_unary op p r =
      if bytes_eq op (codes "!")
      then ok (bool (not (truthy go r)))
      else if bytes_eq op (codes "-")
      then elim (to_number go r) [
        | none ↦ failed p (cannot_negate r)
        | some x ↦ ok (num (go.neg x))
      ]
      else failed p (unknown_unary op)

  modulo : ℕ → F → F → Evaluated F (Value F)
  modulo p x y =
      if go.eq y go.zero_num
      then failed p modulo_by_zero
      else elim (int_mod (go.to_int x) (go.to_int y)) [
        | none ↦ panicked
        | some z ↦ ok (num (go.of_int z))
      ]

  arithmetic : Bytes → ℕ → F → F → Evaluated F (Value F)
  unfolding modulo
  arithmetic op p x y =
      if bytes_eq op (codes "-")
      then ok (num (go.sub x y))
      else if bytes_eq op (codes "*")
      then ok (num (go.mul x y))
      else if bytes_eq op (codes "/")
      then (if go.eq y go.zero_num then failed p division_by_zero else ok (num (go.div x y)))
      else modulo p x y

  on_numbers :
      Bytes
      → ℕ
      → Value F
      → Value F
      → (F → F → Evaluated F (Value F))
      → Option F
      → Option F
      → Evaluated F (Value F)
  on_numbers op p a b use_both (some x) (some y) = use_both x y
  on_numbers op p a b use_both _ _ = failed p (cannot_operate op a b)

  -- The switch of evalBinary, after && and ||.
  unfoldable pub apply_binary : Bytes → ℕ → Value F → Value F → Evaluated F (Value F)
  unfolding arithmetic on_numbers is_comparison is_arithmetic
  apply_binary op p a b =
      if bytes_eq op (codes "==")
      then bind (or_panic (loose_eq go a b)) (λ e. ok (bool e))
      else if bytes_eq op (codes "!=")
      then bind (or_panic (loose_eq go a b)) (λ e. ok (bool (not e)))
      else if is_comparison op
      then ok (bool (cmp_num_or_str go op a b))
      else if bytes_eq op (codes "+")
      then (if is_str a || is_str b
          then ok (text (to_string go a ++ to_string go b))
          else on_numbers op p a b (λ x y. ok (num (go.add x y))) (to_number go a) (to_number go b))
      else if is_arithmetic op
      then on_numbers op p a b (arithmetic op p) (to_number go a) (to_number go b)
      else failed p (unknown_binary op)

  -- call2, on the values of the arguments.
  call_2 :
      Bytes → ℕ → (Bytes → Bytes → Bool) → Evaluated F (List (Value F)) → ℕ → Evaluated F (Value F)
  call_2 name p test vs (suc (suc zero)) = bind vs λ values. both values
    where
      both : List (Value F) → Evaluated F (Value F)
      both (a ∷ b ∷ []) = ok (bool (test (to_string go a) (to_string go b)))
      both _ = failed p (wrong_arguments name)
  call_2 name p test vs _ = failed p (wrong_arguments name)

  format : ℕ → List (Value F) → Evaluated F (Value F)
  format p [] = failed p (wrong_arguments (codes "format"))
  format p (tpl ∷ args) = ok (text (fill 0 (map (to_string go) args) (to_string go tpl)))

  from_json : ℕ → List (Value F) → Evaluated F (Value F)
  from_json p (a ∷ []) = elim (go.unmarshal (to_string go a)) [
    | none ↦ failed p not_json
    | some v ↦ ok v
  ]
  from_json p _ = failed p (wrong_arguments (codes "fromJSON"))

  to_json : ℕ → List (Value F) → Evaluated F (Value F)
  to_json p (a ∷ []) = elim (go.marshal a) [ none ↦ failed p no_json | some s ↦ ok (text s) ]
  to_json p _ = failed p (wrong_arguments (codes "toJSON"))

  join_items : ℕ → Value F → Bytes → Evaluated F (Value F)
  join_items p (items vs) sep = ok (text (join sep (map (to_string go) (list_of vs))))
  join_items p (texts ss) sep = ok (text (join sep ss))
  join_items p _ sep = failed p not_array

  join_values : ℕ → List (Value F) → Evaluated F (Value F)
  unfolding join_items
  join_values p (a ∷ sep ∷ []) = join_items p a (to_string go sep)
  join_values p _ = failed p (wrong_arguments (codes "join"))

  -- The arguments are evaluated only if there are as many as the function takes.
  when_count :
      Bytes
      → ℕ
      → Bool
      → Evaluated F (List (Value F))
      → (List (Value F) → Evaluated F (Value F))
      → Evaluated F (Value F)
  when_count name p fits vs next = if fits then bind vs next else failed p (wrong_arguments name)

  -- The switch of evalCall, with the number of arguments and what evaluating them in order gives.
  unfoldable pub apply_function :
      Context F → Bytes → ℕ → ℕ → Evaluated F (List (Value F)) → Evaluated F (Value F)
  unfolding call_2 format from_json to_json join_values when_count
  apply_function ctx name p count vs =
      if bytes_eq name (codes "success")
      then ok (bool (bytes_eq ctx.run_status [] || bytes_eq ctx.run_status (codes "success")))
      else if bytes_eq name (codes "failure")
      then ok (
          bool
            (bytes_eq ctx.run_status (codes "failure") || bytes_eq ctx.run_status (codes "failed")))
      else if bytes_eq name (codes "always")
      then ok (bool true)
      else if bytes_eq name (codes "cancelled") || bytes_eq name (codes "canceled")
      then ok (
          bool (
            bytes_eq ctx.run_status (codes "cancelled")
            || bytes_eq ctx.run_status (codes "canceled")))
      else if bytes_eq name (codes "contains")
      then call_2 name p contains vs count
      else if bytes_eq name (codes "startsWith")
      then call_2 name p has_prefix vs count
      else if bytes_eq name (codes "endsWith")
      then call_2 name p has_suffix vs count
      else if bytes_eq name (codes "format")
      then when_count name p (not (count == 0)) vs (format p)
      else if bytes_eq name (codes "fromJSON")
      then when_count name p (count == 1) vs (from_json p)
      else if bytes_eq name (codes "toJSON")
      then when_count name p (count == 1) vs (to_json p)
      else if bytes_eq name (codes "join")
      then when_count name p (count == 2) vs (join_values p)
      else failed p (unknown_function name)

  unfoldable mutual
    unfolding apply_unary apply_binary apply_function value_or_null count_args

    pub eval_node : Context F → Node F → Evaluated F (Value F)
    eval_node ctx (literal v p) = ok v
    eval_node ctx (ident x p) = ok (value_or_null (find x ctx.values))
    eval_node ctx (member l x p) = bind (eval_node ctx l) λ left. ok (member_access left x)
    eval_node ctx (index l i p) =
        bind (eval_node ctx l) λ left. bind (eval_node ctx i) λ at. ok (index_access go left at)
    eval_node ctx (unary op r p) = bind (eval_node ctx r) λ right. apply_unary op p right
    eval_node ctx (binary op l r p) =
        if bytes_eq op (codes "&&")
        then bind (eval_node ctx l) (λ left. if truthy go left then eval_node ctx r else ok left)
        else if bytes_eq op (codes "||")
        then bind (eval_node ctx l) (λ left. if truthy go left then ok left else eval_node ctx r)
        else bind (eval_node ctx l)
            λ left. bind (eval_node ctx r) λ right. apply_binary op p left right
    eval_node ctx (ternary c t e p) =
        bind (eval_node ctx c) λ cond. if truthy go cond then eval_node ctx t else eval_node ctx e
    eval_node ctx (call name args p) =
        apply_function ctx name p (count_args args) (eval_args ctx args)

    pub eval_args : Context F → Args F → Evaluated F (List (Value F))
    eval_args ctx no_args = ok []
    eval_args ctx (arg n ns) = bind (eval_node ctx n) λ v. bind (eval_args ctx ns) λ vs. ok (v ∷ vs)
