-- ===== src/Runstate/Edges.antt =====
-- The transition matrix of api/pkg/runstate/runstate.go as a diagram, and its ways.
use mathlib.Core.Path.{subst}
use helios_ci_cd.Prelude.{
  String, ◌≡◌, refl, ap, ◌↔◌, ◌⊎◌, inl, inr, ◌&&◌, str_eq, ne_of_str_eq, Bool, true, false, not,
  arith, eq_iff, if◌then◌else◌,
}
use helios_ci_cd.Runstate.{
  pending, running, approval, success, failed, canceled, timeout, is_terminal, can_transition,
  allowed_from, is_valid_status,
}

-- The diagram at the head of the file: every arrow of it, and no other.
infix 40 ◌⟶◌ ◌⟶*◌
pub data ◌⟶◌ : String → String → Type 0 where
  start : pending ⟶ running
  drop : pending ⟶ canceled
  wait : running ⟶ approval
  succeed : running ⟶ success
  fail : running ⟶ failed
  stop : running ⟶ canceled
  resume : approval ⟶ running
  reject : approval ⟶ failed
  expire : approval ⟶ timeout
  abandon : approval ⟶ canceled

pub data ◌⟶*◌ : String → String → Type 0 where
  here : {s : String} → s ⟶* s
  next : {s t u : String} → s ⟶* t → t ⟶ u → s ⟶* u

pub can_transition_of_edge : {from to : String} → from ⟶ to → can_transition from to ≡ true
unfolding can_transition
can_transition_of_edge start = refl
can_transition_of_edge drop = refl
can_transition_of_edge wait = refl
can_transition_of_edge succeed = refl
can_transition_of_edge fail = refl
can_transition_of_edge stop = refl
can_transition_of_edge resume = refl
can_transition_of_edge reject = refl
can_transition_of_edge expire = refl
can_transition_of_edge abandon = refl

allowed_from-edge : (from to : String) → allowed_from from to ≡ true → from ⟶ to
unfolding allowed_from
allowed_from-edge from to h = grind (
  arith,
  eq_iff from pending,
  eq_iff from running,
  eq_iff from approval,
  eq_iff to running,
  eq_iff to canceled,
  eq_iff to approval,
  eq_iff to success,
  eq_iff to failed,
  eq_iff to timeout,
  start,
  drop,
  wait,
  succeed,
  fail,
  stop,
  resume,
  reject,
  expire,
  abandon,
)

guarded :
    (valid same terminal allowed : Bool)
    → (if not valid then false else if same then false else if terminal then false else allowed)
      ≡ true
    → allowed ≡ true
guarded valid same terminal allowed h = ground arith

edge_of_can_transition : (from to : String) → can_transition from to ≡ true → from ⟶ to
unfolding can_transition
edge_of_can_transition from to h = allowed_from-edge from to (
    guarded (is_valid_status from && is_valid_status to) (str_eq from to) (is_terminal from)
      (allowed_from from to) h)

-- CanTransition allows exactly the arrows of the diagram, for every two texts.
pub can_transition_iff : (from to : String) → (can_transition from to ≡ true) ↔ (from ⟶ to)
can_transition_iff from to = (edge_of_can_transition from to, can_transition_of_edge)

-- An arrow leaves only a status that is not terminal.
pub edge_from_live : {from to : String} → from ⟶ to → is_terminal from ≡ false
unfolding is_terminal
edge_from_live start = refl
edge_from_live wait = refl
edge_from_live resume = refl
edge_from_live _ = refl

-- A terminal status has no way out: what can be reached from it is itself.
pub terminal_absorbs : {from to : String} → is_terminal from ≡ true → from ⟶* to → to ≡ from
terminal_absorbs h here = refl
terminal_absorbs h (next r e) =
    let same = terminal_absorbs h r in cc (edge_from_live e, ap is_terminal same)

pub ⟶*_trans : {s t u : String} → s ⟶* t → t ⟶* u → s ⟶* u
⟶*_trans r here = r
⟶*_trans r (next q e) = next (⟶*_trans r q) e

edge_to_success : {s t : String} → s ⟶ t → t ≡ success → s ≡ running
edge_to_success start e = absurd (ne_of_str_eq _ _ refl e)
edge_to_success succeed e = refl
edge_to_success _ e = absurd (ne_of_str_eq _ _ refl e)

-- Success is reached only through running: no intermediate status is skipped.
pub success_through_running : {s t : String} → s ⟶* t → t ≡ success → (s ≡ success) ⊎ (s ⟶* running)
success_through_running here e = inl e
success_through_running {s} (next r a) e = inr (subst (λ q. s ⟶* q) (edge_to_success a e) r)
