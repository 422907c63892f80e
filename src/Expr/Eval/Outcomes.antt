-- ===== src/Expr/Eval/Outcomes.antt =====
-- Where an evaluation of api/pkg/expr/eval.go may fail and where it may panic: one induction for both.
use helios_ci_cd.Prelude.{
  ℕ, zero, suc, Bool, true, false, not, ◌||◌, ◌≡◌, refl, Option, none, some, List, [], ◌∷◌, ◌==◌,
  arith, if◌then◌else◌,
}
use helios_ci_cd.Prelude.Json.{ℤ}
use helios_ci_cd.Expr.{
  Bytes, codes, Go, Value, null, bool, num, int, int64, text, items, fields, texts, text_map, Node,
  Args, literal, ident, member, index, unary, binary, ternary, call, no_args, arg,
}
use helios_ci_cd.Expr.Texts.{bytes_eq, contains, has_prefix, has_suffix}
use helios_ci_cd.Expr.Values.{is_str, truthy, to_number, to_string, loose_eq}
use helios_ci_cd.Expr.Eval.{
  Context, Evaluated, cannot_negate, not_json, no_json, unknown_function, ok, failed, panicked,
  bind, or_panic, int_mod, apply_unary, modulo, arithmetic, on_numbers, is_comparison,
  is_arithmetic, apply_binary, call_2, format, from_json, to_json, join_items, join_values,
  when_count, apply_function, count_args, eval_node, eval_args,
}

-- == and != may compare maps, % may divide by 0 as an integer.
unfoldable pub is_risky : Bytes → Bool
is_risky op = bytes_eq op (codes "==") || bytes_eq op (codes "!=") || bytes_eq op (codes "%")

eq-risky : (op : Bytes) → bytes_eq op (codes "==") ≡ true → is_risky op ≡ true
unfolding is_risky
eq-risky op e = rw e refl

ne-risky : (op : Bytes) → bytes_eq op (codes "!=") ≡ true → is_risky op ≡ true
unfolding is_risky
ne-risky op e = ground (arith, e)

module _ {F : Type 0} (Place : ℕ → Type 0) (Panic : Type 0) where
  -- An error is at a place with `Place`, and there is a panic only if `Panic`.
  abbrev pub Within : {A : Type 0} → Evaluated F A → Type 0
  Within (ok a) = Unit
  Within (failed p m) = Place p
  Within panicked = Panic

  Within-bind :
      {A B : Type 0} (r : Evaluated F A) (k : A → Evaluated F B)
      → Within r
      → ((a : A) → Within (k a))
      → Within (bind r k)
  Within-bind (ok a) k h next = next a
  Within-bind (failed p m) k h next = h
  Within-bind panicked k h next = h

  Within-if :
      {A : Type 0} (b : Bool) (x y : Evaluated F A)
      → (b ≡ true → Within x)
      → (b ≡ false → Within y)
      → Within (if b then x else y)
  Within-if true x y hx hy = hx refl
  Within-if false x y hx hy = hy refl

  -- Each operation has its place with `Place`, and each risky one has `Panic`.
  unfoldable mutual
    pub Placed : Node F → Type 0
    Placed (literal v p) = Unit
    Placed (ident x p) = Unit
    Placed (member l x p) = Placed l
    Placed (index l i p) = Placed l × Placed i
    Placed (unary op r p) = Place p × Placed r
    Placed (binary op l r p) = Place p × (is_risky op ≡ true → Panic) × Placed l × Placed r
    Placed (ternary c t e p) = Placed c × Placed t × Placed e
    Placed (call f args p) = Place p × PlacedArgs args

    pub PlacedArgs : Args F → Type 0
    PlacedArgs no_args = Unit
    PlacedArgs (arg n ns) = Placed n × PlacedArgs ns

  module _ (go : Go F) where
    apply_unary-Within :
        (op : Bytes) (p : ℕ) (r : Value F) → Place p → Within (apply_unary go op p r)
    unfolding apply_unary
    apply_unary-Within op p r h =
        Within-if (bytes_eq op (codes "!")) _ _ (λ _. tt)
          (λ _. Within-if (bytes_eq op (codes "-")) _ _ (λ _. negated (to_number go r)) (λ _. h))
      where
        negated :
            (o : Option F)
            → Within (elim o [ none ↦ failed p (cannot_negate r) | some x ↦ ok (num (go.neg x)) ])
        negated none = h
        negated (some x) = tt

    modulo-Within : (p : ℕ) (x y : F) → Place p → Panic → Within (modulo go p x y)
    unfolding modulo
    modulo-Within p x y h may =
        Within-if (go.eq y go.zero_num) _ _ (λ _. h)
          (λ _. divided (int_mod (go.to_int x) (go.to_int y)))
      where
        divided :
            (o : Option ℤ)
            → Within {A = Value F} (elim o [ none ↦ panicked | some z ↦ ok (num (go.of_int z)) ])
        divided none = may
        divided (some z) = tt

    arithmetic-Within :
        (op : Bytes) (p : ℕ) (x y : F)
        → Place p
        → (is_risky op ≡ true → Panic)
        → is_arithmetic op ≡ true
        → Within (arithmetic go op p x y)
    unfolding arithmetic is_arithmetic is_risky
    arithmetic-Within op p x y h may fits =
        Within-if (bytes_eq op (codes "-")) _ _ (λ _. tt)
          (λ a.
            Within-if (bytes_eq op (codes "*")) _ _ (λ _. tt)
              (λ b.
                Within-if (bytes_eq op (codes "/")) _ _
                  (λ _. Within-if (go.eq y go.zero_num) _ _ (λ _. h) (λ _. tt))
                  (λ c. modulo-Within p x y h (may (ground (arith, a, b, c, fits))))))

    on_numbers-Within :
        (op : Bytes) (p : ℕ) (a b : Value F) (use_both : F → F → Evaluated F (Value F))
        (x y : Option F)
        → Place p
        → ((m n : F) → Within (use_both m n))
        → Within (on_numbers go op p a b use_both x y)
    unfolding on_numbers
    on_numbers-Within op p a b f (some x) (some y) h k = k x y
    on_numbers-Within op p a b f none y h k = h
    on_numbers-Within op p a b f (some x) none h k = h

    or_panic-Within :
        (o : Option Bool) (k : Bool → Bool)
        → Panic
        → Within {A = Value F} (bind (or_panic o) (λ e. ok (bool (k e))))
    or_panic-Within none k may = may
    or_panic-Within (some b) k may = tt

    apply_binary-Within :
        (op : Bytes) (p : ℕ) (a b : Value F)
        → Place p
        → (is_risky op ≡ true → Panic)
        → Within (apply_binary go op p a b)
    unfolding apply_binary
    apply_binary-Within op p a b h may =
        Within-if (bytes_eq op (codes "==")) _ _
          (λ e. or_panic-Within (loose_eq go a b) (λ x. x) (may (eq-risky op e)))
          (λ _.
            Within-if (bytes_eq op (codes "!=")) _ _
              (λ e. or_panic-Within (loose_eq go a b) not (may (ne-risky op e)))
              (λ _.
                Within-if (is_comparison op) _ _ (λ _. tt)
                  (λ _.
                    Within-if (bytes_eq op (codes "+")) _ _
                      (λ _.
                        Within-if (is_str a || is_str b) _ _ (λ _. tt)
                          (λ _.
                            on_numbers-Within op p a b _ (to_number go a) (to_number go b) h
                              (λ m n. tt)))
                      (λ _.
                        Within-if (is_arithmetic op) _ _
                          (λ fits.
                            on_numbers-Within op p a b _ (to_number go a) (to_number go b) h
                              (λ m n. arithmetic-Within op p m n h may fits))
                          (λ _. h)))))

    call_2-Within :
        (name : Bytes) (p : ℕ) (test : Bytes → Bytes → Bool) (vs : Evaluated F (List (Value F)))
        (count : ℕ)
        → Place p
        → Within vs
        → Within (call_2 go name p test vs count)
    unfolding call_2
    call_2-Within name p test vs zero h k = h
    call_2-Within name p test vs (suc zero) h k = h
    call_2-Within name p test vs (suc (suc (suc n))) h k = h
    call_2-Within name p test vs (suc (suc zero)) h k = Within-bind vs _ k both_values
      where
        both_values : (values : List (Value F)) → Within (call_2 go name p test (ok values) 2)
        both_values (a ∷ b ∷ []) = tt
        both_values [] = h
        both_values (a ∷ []) = h
        both_values (a ∷ b ∷ c ∷ vs) = h

    when_count-Within :
        (name : Bytes) (p : ℕ) (fits : Bool) (vs : Evaluated F (List (Value F)))
        (next : List (Value F) → Evaluated F (Value F))
        → Place p
        → Within vs
        → ((values : List (Value F)) → Within (next values))
        → Within (when_count go name p fits vs next)
    unfolding when_count
    when_count-Within name p fits vs next h k after =
        Within-if fits _ _ (λ _. Within-bind vs next k after) (λ _. h)

    format-Within : (p : ℕ) (vs : List (Value F)) → Place p → Within (format go p vs)
    unfolding format
    format-Within p [] h = h
    format-Within p (v ∷ vs) h = tt

    from_json-Within : (p : ℕ) (vs : List (Value F)) → Place p → Within (from_json go p vs)
    unfolding from_json
    from_json-Within p [] h = h
    from_json-Within p (a ∷ b ∷ vs) h = h
    from_json-Within p (a ∷ []) h = decoded (go.unmarshal (to_string go a))
      where
        decoded :
            (o : Option (Value F))
            → Within {A = Value F} (elim o [ none ↦ failed p not_json | some v ↦ ok v ])
        decoded none = h
        decoded (some v) = tt

    to_json-Within : (p : ℕ) (vs : List (Value F)) → Place p → Within (to_json go p vs)
    unfolding to_json
    to_json-Within p [] h = h
    to_json-Within p (a ∷ b ∷ vs) h = h
    to_json-Within p (a ∷ []) h = encoded (go.marshal a)
      where
        encoded :
            (o : Option Bytes)
            → Within {A = Value F} (elim o [ none ↦ failed p no_json | some s ↦ ok (text s) ])
        encoded none = h
        encoded (some s) = tt

    join_items-Within :
        (p : ℕ) (v : Value F) (sep : Bytes) → Place p → Within (join_items go p v sep)
    unfolding join_items
    join_items-Within p (items vs) sep h = tt
    join_items-Within p (texts ss) sep h = tt
    join_items-Within p null sep h = h
    join_items-Within p (bool b) sep h = h
    join_items-Within p (num x) sep h = h
    join_items-Within p (int z) sep h = h
    join_items-Within p (int64 z) sep h = h
    join_items-Within p (text s) sep h = h
    join_items-Within p (fields fs) sep h = h
    join_items-Within p (text_map m) sep h = h

    join_values-Within : (p : ℕ) (vs : List (Value F)) → Place p → Within (join_values go p vs)
    unfolding join_values
    join_values-Within p [] h = h
    join_values-Within p (a ∷ []) h = h
    join_values-Within p (a ∷ b ∷ c ∷ vs) h = h
    join_values-Within p (a ∷ sep ∷ []) h = join_items-Within p a (to_string go sep) h

    other_function-Within :
        (name : Bytes) (p count : ℕ) (vs : Evaluated F (List (Value F)))
        → Place p
        → Within vs
        → Within (
            if bytes_eq name (codes "format")
            then when_count go name p (not (count == 0)) vs (format go p)
            else if bytes_eq name (codes "fromJSON")
            then when_count go name p (count == 1) vs (from_json go p)
            else if bytes_eq name (codes "toJSON")
            then when_count go name p (count == 1) vs (to_json go p)
            else if bytes_eq name (codes "join")
            then when_count go name p (count == 2) vs (join_values go p)
            else failed p (unknown_function name))
    other_function-Within name p count vs h k =
        Within-if (bytes_eq name (codes "format")) _ _
          (λ _.
            when_count-Within name p (not (count == 0)) vs (format go p) h k
              (λ l. format-Within p l h))
          (λ _.
            Within-if (bytes_eq name (codes "fromJSON")) _ _
              (λ _.
                when_count-Within name p (count == 1) vs (from_json go p) h k
                  (λ l. from_json-Within p l h))
              (λ _.
                Within-if (bytes_eq name (codes "toJSON")) _ _
                  (λ _.
                    when_count-Within name p (count == 1) vs (to_json go p) h k
                      (λ l. to_json-Within p l h))
                  (λ _.
                    Within-if (bytes_eq name (codes "join")) _ _
                      (λ _.
                        when_count-Within name p (count == 2) vs (join_values go p) h k
                          (λ l. join_values-Within p l h))
                      (λ _. h))))

    apply_function-Within :
        (ctx : Context F) (name : Bytes) (p count : ℕ) (vs : Evaluated F (List (Value F)))
        → Place p
        → Within vs
        → Within (apply_function go ctx name p count vs)
    unfolding apply_function
    apply_function-Within ctx name p count vs h k =
        Within-if (bytes_eq name (codes "success")) _ _ (λ _. tt)
          (λ _.
            Within-if (bytes_eq name (codes "failure")) _ _ (λ _. tt)
              (λ _.
                Within-if (bytes_eq name (codes "always")) _ _ (λ _. tt)
                  (λ _.
                    Within-if
                      (bytes_eq name (codes "cancelled") || bytes_eq name (codes "canceled")) _ _
                      (λ _. tt)
                      (λ _.
                        Within-if (bytes_eq name (codes "contains")) _ _
                          (λ _. call_2-Within name p contains vs count h k)
                          (λ _.
                            Within-if (bytes_eq name (codes "startsWith")) _ _
                              (λ _. call_2-Within name p has_prefix vs count h k)
                              (λ _.
                                Within-if (bytes_eq name (codes "endsWith")) _ _
                                  (λ _. call_2-Within name p has_suffix vs count h k)
                                  (λ _. other_function-Within name p count vs h k)))))))

    mutual
      unfolding eval_node eval_args Placed PlacedArgs

      pub eval_node-Within : (ctx : Context F) (n : Node F) → Placed n → Within (eval_node go ctx n)
      eval_node-Within ctx (literal v p) h = tt
      eval_node-Within ctx (ident x p) h = tt
      eval_node-Within ctx (member l x p) h =
          Within-bind (eval_node go ctx l) _ (eval_node-Within ctx l h) (λ a. tt)
      eval_node-Within ctx (index l i p) h =
          Within-bind (eval_node go ctx l) _ (eval_node-Within ctx l h.0)
            λ a. Within-bind (eval_node go ctx i) _ (eval_node-Within ctx i h.1) (λ b. tt)
      eval_node-Within ctx (unary op r p) h =
          Within-bind (eval_node go ctx r) _ (eval_node-Within ctx r h.1)
            (λ v. apply_unary-Within op p v h.0)
      eval_node-Within ctx (binary op l r p) h =
          Within-if (bytes_eq op (codes "&&")) _ _
            (λ _.
              Within-bind (eval_node go ctx l) _ (eval_node-Within ctx l h.2)
                λ a. Within-if (truthy go a) _ _ (λ _. eval_node-Within ctx r h.3) (λ _. tt))
            (λ _.
              Within-if (bytes_eq op (codes "||")) _ _
                (λ _.
                  Within-bind (eval_node go ctx l) _ (eval_node-Within ctx l h.2)
                    λ a. Within-if (truthy go a) _ _ (λ _. tt) (λ _. eval_node-Within ctx r h.3))
                (λ _. Within-bind (eval_node go ctx l) _ (eval_node-Within ctx l h.2) λ a.
                  Within-bind (eval_node go ctx r) _ (eval_node-Within ctx r h.3)
                    λ b. apply_binary-Within op p a b h.0 h.1))
      eval_node-Within ctx (ternary c t e p) h =
          Within-bind (eval_node go ctx c) _ (eval_node-Within ctx c h.0) λ a.
            Within-if (truthy go a) _ _ (λ _. eval_node-Within ctx t h.1)
              (λ _. eval_node-Within ctx e h.2)
      eval_node-Within ctx (call f args p) h =
          apply_function-Within ctx f p (count_args args) (eval_args go ctx args) h.0
            (eval_args-Within ctx args h.1)

      pub eval_args-Within :
          (ctx : Context F) (ns : Args F) → PlacedArgs ns → Within (eval_args go ctx ns)
      eval_args-Within ctx no_args h = tt
      eval_args-Within ctx (arg n ns) h =
          Within-bind (eval_node go ctx n) _ (eval_node-Within ctx n h.0)
            λ v. Within-bind (eval_args go ctx ns) _ (eval_args-Within ctx ns h.1) (λ vs. tt)
