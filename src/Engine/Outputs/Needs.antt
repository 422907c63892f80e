-- ===== src/Engine/Outputs/Needs.antt =====
-- What later stages read of RunOutputs of api/pkg/engine/outputs.go.
use mathlib.Core.Path.{subst}
use helios_ci_cd.Prelude.{
  ℕ, ◌≡◌, ◌↔◌, refl, ◌∙◌, ap, inl, inr, true, Option, some, List, [], ◌∷◌, arith, Bool-cases,
  if◌then◌else◌,
}
use helios_ci_cd.Expr.{Bytes, codes, Go, fields, Fields, Node, ident, member}
use helios_ci_cd.Expr.Texts.{bytes_eq}
use helios_ci_cd.Expr.Values.{find, find_field, member_access}
use helios_ci_cd.Expr.Eval.{Context, Evaluated, eval_node, value_or_null}
use helios_ci_cd.Engine.Outputs.{
  put, StepOutputs, outputs_by_id, or_empty, RunOutputs, set, build_needs_context,
}

pub bytes_eq_refl : (s : Bytes) → bytes_eq s s ≡ true
unfolding bytes_eq
bytes_eq_refl [] = refl
bytes_eq_refl (b ∷ s) = ground (arith, bytes_eq_refl s)

pub eq_of_bytes_eq : (s t : Bytes) → bytes_eq s t ≡ true → s ≡ t
unfolding bytes_eq
eq_of_bytes_eq [] [] h = refl
eq_of_bytes_eq [] (c ∷ t) h = cc h
eq_of_bytes_eq (b ∷ s) [] h = cc h
eq_of_bytes_eq (b ∷ s) (c ∷ t) h =
    let same : b ≡ c = ground (arith, h) in
    let more = eq_of_bytes_eq s t (ground (arith, h)) in cc (same, more)

-- bytes_eq decides equality.
pub bytes_eq_iff : (s t : Bytes) → (bytes_eq s t ≡ true) ↔ (s ≡ t)
bytes_eq_iff s t = (eq_of_bytes_eq s t, λ e. subst (λ z. bytes_eq s z ≡ true) e (bytes_eq_refl s))

pub find-put {ℓ} :
    {V : Type ℓ} (k x : Bytes) (v : V) (m : List (Bytes × V))
    → find x (put k v m) ≡ (if bytes_eq k x then some v else find x m)
unfolding find put
find-put k x v [] = refl
find-put k x v (e ∷ m) =
    ground (arith, find-put k x v m, bytes_eq_iff e.0 k, bytes_eq_iff e.0 x, bytes_eq_iff k x)

module _ {F : Type 0} where
  -- The outputs of a stage in the map, where one that is not there has none.
  abbrev pub outputs_of : StepOutputs F → Bytes → Fields F
  outputs_of m sid = or_empty (find sid m)

  -- needs.<sid>.outputs.<key>, or steps.<sid>.outputs.<key>
  abbrev pub reference : (root sid key : Bytes) → ℕ → ℕ → ℕ → ℕ → Node F
  reference root sid key p q r t =
      member (member (member (ident root p) sid q) (codes "outputs") r) key t

  access-outputs_by_id :
      (m : StepOutputs F) (sid key : Bytes)
      → member_access (member_access (find_field sid (outputs_by_id m)) (codes "outputs")) key
        ≡ find_field key (outputs_of m sid)
  unfolding member_access find_field outputs_by_id find or_empty bytes_eq
  access-outputs_by_id [] sid key = refl
  access-outputs_by_id (e ∷ m) sid key = elim (Bool-cases (bytes_eq e.0 sid)) [
    | inl same ↦ rw same refl
    | inr other ↦ rw other (access-outputs_by_id m sid key)
  ]

  -- A reference is evaluated to the output, when the root has the outputs by their ids.
  pub eval_node-reference :
      (go : Go F) (ctx : Context F) (m : StepOutputs F) (root sid key : Bytes) (p q r t : ℕ)
      → find root ctx.values ≡ some (fields (outputs_by_id m))
      → eval_node go ctx (reference root sid key p q r t)
        ≡ Evaluated.ok (find_field key (outputs_of m sid))
  unfolding eval_node value_or_null member_access find_field
  eval_node-reference go ctx m root sid key p q r t h =
      rw (h, value_or_null) (ap Evaluated.ok (access-outputs_by_id m sid key))

  -- Calls of Set, one after the other.
  abbrev pub set_all : RunOutputs F → List (Bytes × Option (Fields F)) → RunOutputs F
  set_all r [] = r
  set_all r (call ∷ calls) = set_all (set r call.0 call.1) calls

  -- What the last call for the stage stores, or else what was there.
  abbrev pub latest : Bytes → List (Bytes × Option (Fields F)) → Fields F → Fields F
  latest sid [] outs = outs
  latest sid (call ∷ calls) outs =
      latest sid calls (if bytes_eq call.0 sid then or_empty call.1 else outs)

  pub outputs_of-put :
      (m : StepOutputs F) (k sid : Bytes) (outs : Fields F)
      → outputs_of (put k outs m) sid ≡ (if bytes_eq k sid then outs else outputs_of m sid)
  unfolding or_empty
  outputs_of-put m k sid outs = elim (Bool-cases (bytes_eq k sid)) [
    | inl same ↦ rw (find-put k sid outs m, same) refl
    | inr other ↦ rw (find-put k sid outs m, other) refl
  ]

  outputs_of-set_all :
      (calls : List (Bytes × Option (Fields F))) (r : RunOutputs F) (sid : Bytes)
      → outputs_of (set_all r calls).m sid ≡ latest sid calls (outputs_of r.m sid)
  unfolding set
  outputs_of-set_all [] r sid = refl
  outputs_of-set_all (call ∷ calls) r sid =
      outputs_of-set_all calls (set r call.0 call.1) sid
      ∙ ap (latest sid calls) (outputs_of-put r.m call.0 sid (or_empty call.1))

  -- A context with the outputs as its `needs`.
  abbrev pub with_needs : Context F → RunOutputs F → Context F
  with_needs base r = record base {
    values = put (codes "needs") (fields (build_needs_context r)) base.values;
  }

  -- What a stage has stored is what a later stage reads: after any calls of Set, needs.<id>.outputs.<key>
  -- is the value of that key in the last outputs that Set stored for the stage, and nil if these do not
  -- have it, whatever Set stored for other stages and whatever else the context holds.
  pub eval_node-set_all :
      (go : Go F) (base : Context F) (r : RunOutputs F) (calls : List (Bytes × Option (Fields F)))
      (sid key : Bytes) (p q s t : ℕ)
      → eval_node go (with_needs base (set_all r calls)) (reference (codes "needs") sid key p q s t)
        ≡ Evaluated.ok (find_field key (latest sid calls (outputs_of r.m sid)))
  unfolding build_needs_context
  eval_node-set_all go base r calls sid key p q s t =
      eval_node-reference go (with_needs base (set_all r calls)) (set_all r calls).m (codes "needs")
        sid key p q s t
        (find-put (codes "needs") (codes "needs") _ base.values
          ∙ rw (bytes_eq_refl (codes "needs")) refl)
      ∙ ap (λ outs. Evaluated.ok (find_field key outs)) (outputs_of-set_all calls r sid)
