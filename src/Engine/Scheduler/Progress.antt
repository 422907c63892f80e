-- ===== src/Engine/Scheduler/Progress.antt =====
-- The scheduler of api/pkg/engine/scheduler.go does not get stuck on a graph without cycles.
use mathlib.Core.Path.{subst}
use helios_ci_cd.Prelude.{
  ℕ, zero, suc, ◌<◌, String, ◌≡◌, ◌≢◌, refl, sym, ap, ◌∙◌, ◌⊎◌, inl, inr, Bool, true, false, some,
  List, [], ◌∷◌, arith, all, member, lookup, lookup-insert, str_eq, eq_refl, Bool-cases,
  str_eq-cases, if◌then◌else◌,
}
use helios_ci_cd.Engine.Dag.{Dag, Node}
use helios_ci_cd.Engine.Scheduler.{
  NodeStatus, pending, ready, running, waiting_approval, skipped, is_terminal, is_dispatched,
  is_approval, Scheduler, status_of, compute_ready_or_skip, compute, judge, survey, Upstream,
  none_seen, see, dispatch, set_status, visit, next_ready_from, next_ready,
}
use helios_ci_cd.Engine.Scheduler.Settled.{all_congr}
use helios_ci_cd.Engine.Scheduler.Advance.{visit-Advance, next_ready_from-Advance}
use helios_ci_cd.Engine.Scheduler.Rounds.{
  left, passed_over, handed_out, visit-Round, status-dispatch, status-set_status,
}

-- The graph has no cycle, by a rank that grows along its edges, and its edges and its order name
-- nodes that it has.
pub record IsRanked (dag : Dag) (rank : String → ℕ) : Type 0 where
  pub known :
      (id : String) → member id dag.order ≡ true → (n : Node) × (lookup id dag.nodes ≡ some n)
  pub closed :
      (id d : String) (n : Node)
      → lookup id dag.nodes ≡ some n
      → member d n.in_edges ≡ true
      → member d dag.order ≡ true
  pub below :
      (id d : String) (n : Node)
      → lookup id dag.nodes ≡ some n
      → member d n.in_edges ≡ true
      → rank d < rank id

-- Nothing is handed out: each stage is pending or has ended.
pub record IsIdle (s : Scheduler) : Type 0 where
  pub waiting :
      (id : String)
      → member id s.dag.order ≡ true
      → (status_of s id ≡ pending) ⊎ (is_terminal (status_of s id) ≡ true)
  pub free : (id : String) → status_of s id ≡ pending → is_dispatched s id ≡ false

see_done :
    (st : NodeStatus) (u : Upstream)
    → is_terminal st ≡ true
    → u.all_done ≡ true
    → (see st u).all_done ≡ true
unfolding see
see_done st u t e = ground arith

survey-all_done :
    (s : Scheduler) (deps : List String) (u : Upstream)
    → all (λ d. is_terminal (status_of s d)) deps ≡ true
    → u.all_done ≡ true
    → (survey s deps u).all_done ≡ true
unfolding survey
survey-all_done s [] u h e = e
survey-all_done s (d ∷ deps) u h e =
    survey-all_done s deps (see (status_of s d) u) (ground arith)
      (see_done (status_of s d) u (ground arith) e)

abbrev Decided : NodeStatus → Type 0
Decided st = (st ≡ ready) ⊎ (st ≡ skipped)

judge-Decided : (cond : String) (u : Upstream) → u.all_done ≡ true → Decided (judge cond u)
unfolding judge
judge-Decided cond u h = ground arith

compute-Decided :
    (s : Scheduler) (cond : String) (deps : List String)
    → all (λ d. is_terminal (status_of s d)) deps ≡ true
    → Decided (compute s cond deps)
unfolding compute
compute-Decided s cond [] h = ground arith
compute-Decided s cond (d ∷ deps) h =
    judge-Decided cond (survey s (d ∷ deps) none_seen)
      (survey-all_done s (d ∷ deps) none_seen h refl)

verdict-Decided :
    (s : Scheduler) (id : String) (n : Node)
    → lookup id s.dag.nodes ≡ some n
    → all (λ d. is_terminal (status_of s d)) n.in_edges ≡ true
    → Decided (compute_ready_or_skip s id)
unfolding compute_ready_or_skip
verdict-Decided s id n found h =
    rw (found, compute_ready_or_skip) (compute-Decided s n.stage.if_expr n.in_edges h)

dispatched_st-ne-pending : (b : Bool) → (if b then waiting_approval else running) ≢ pending
dispatched_st-ne-pending b e = ground arith

-- The stage's own round takes it out of pending.
visit_self :
    (s : Scheduler) (id : String) (n : Node) (picked : List String)
    → lookup id s.dag.nodes ≡ some n
    → all (λ d. is_terminal (status_of s d)) n.in_edges ≡ true
    → status_of s id ≡ pending
    → is_dispatched s id ≡ false
    → status_of (visit s id picked).0 id ≢ pending
visit_self s id n picked found h p free now = elim (visit-Round s id picked) [
  | left why e ↦ elim (verdict-Decided s id n found h) [
    | inl r ↦ (why p free).0 r
    | inr k ↦ (why p free).1 k
  ]
  | passed_over q e ↦ ground (arith, rw e at now, status-set_status s id id skipped, eq_refl id)
  | handed_out q e ↦
      dispatched_st-ne-pending (is_approval (lookup id s.dag.nodes))
        (sym (status-dispatch s id id ∙ rw eq_refl refl) ∙ rw e at now)
]

dispatched-dispatch :
    (s : Scheduler) (x id : String)
    → str_eq x id ≡ false
    → is_dispatched (dispatch s x) id ≡ is_dispatched s id
unfolding dispatch
dispatched-dispatch s x id h = rw lookup-insert (rw h refl)

dispatched-visit :
    (s : Scheduler) (x id : String) (picked : List String)
    → str_eq x id ≡ false
    → is_dispatched (visit s x picked).0 id ≡ is_dispatched s id
unfolding set_status
dispatched-visit s x id picked h = elim (visit-Round s x picked) [
  | left why e ↦ rw e refl
  | passed_over q e ↦ rw e refl
  | handed_out q e ↦ rw e (dispatched-dispatch s x id h)
]

-- So does the whole loop, whatever else it does.
loop_moves :
    (s : Scheduler) (id : String) (n : Node) (picked order : List String)
    → member id order ≡ true
    → lookup id s.dag.nodes ≡ some n
    → all (λ d. is_terminal (status_of s d)) n.in_edges ≡ true
    → status_of s id ≡ pending
    → is_dispatched s id ≡ false
    → status_of (next_ready_from s picked order).0 id ≢ pending
unfolding next_ready_from
loop_moves s id n picked [] m found h p free still = cc m
loop_moves s id n picked (x ∷ order) m found h p free still =
    let s' = (visit s x picked).0 in
    let picked' = (visit s x picked).1 in
    let step = visit-Advance s x picked in
    let p' : status_of s' id ≡ pending =
      (next_ready_from-Advance s' picked' order).spent id still in
    elim (str_eq-cases x id) [
      | inl same ↦
          visit_self s id n picked found h p free
            (subst (λ k. status_of (visit s k picked).0 id ≡ pending) same p')
      | inr other ↦
          loop_moves s' id n picked' order (rw other at m)
            (ap (λ g. lookup id g.nodes) step.same_dag ∙ found)
            (all_congr is_terminal is_terminal s s' n.in_edges (λ d t. rw (step.keeps d t) t) h) p'
            (dispatched-visit s x id picked other ∙ free) still
    ]

find_live :
    (s : Scheduler) (deps : List String)
    → (all (λ d. is_terminal (status_of s d)) deps ≡ true)
      ⊎ ((d : String) × (member d deps ≡ true) × (is_terminal (status_of s d) ≡ false))
find_live s [] = inl refl
find_live s (d ∷ deps) = elim (Bool-cases (is_terminal (status_of s d))) [
  | inr live ↦ inr (d, rw eq_refl refl, live)
  | inl ended ↦ elim (find_live s deps) [
    | inl all_ended ↦ inl (rw ended all_ended)
    | inr (e, m, live) ↦ inr (e, ground (arith, m), live)
  ]
]

abbrev Moves : Scheduler → Type 0
Moves s = (id : String) × (status_of s id ≡ pending) × (status_of (next_ready s).0 id ≢ pending)

Moves-below :
    (s : Scheduler) (rank : String → ℕ)
    → IsRanked s.dag rank
    → IsIdle s
    → (k : ℕ) (id : String) → rank id < k
    → member id s.dag.order ≡ true
    → status_of s id ≡ pending
    → Moves s
unfolding next_ready
Moves-below s rank g i zero id lt m p = absurd (omega arith)
Moves-below s rank g i (suc k) id lt m p =
    let (n, found) = g.known id m in
    elim (find_live s n.in_edges) [
      | inl ended ↦ (id, p, loop_moves s id n [] s.dag.order m found ended p (i.free id p))
      | inr (d, dm, live) ↦
          let m' = g.closed id d n found dm in
          elim (i.waiting d m') [
            | inl p' ↦ Moves-below s rank g i k d (omega (arith, g.below id d n found dm)) m' p'
            | inr ended ↦ cc (ended, live)
          ]
    ]

-- On a graph without cycles, when nothing is handed out and some stage is pending, NextReady hands
-- out or skips a pending stage: the scheduler is never stuck before all stages have ended.
pub next_ready_progress :
    (s : Scheduler) (rank : String → ℕ) (id : String)
    → IsRanked s.dag rank
    → IsIdle s
    → member id s.dag.order ≡ true
    → status_of s id ≡ pending
    → (j : String) × (status_of s j ≡ pending) × (status_of (next_ready s).0 j ≢ pending)
next_ready_progress s rank id g i m p = Moves-below s rank g i (suc (rank id)) id (omega arith) m p
