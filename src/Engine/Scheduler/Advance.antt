-- ===== src/Engine/Scheduler/Advance.antt =====
-- How the operations of api/pkg/engine/scheduler.go move the statuses: forward only.
use mathlib.Core.Path.{subst}
use helios_ci_cd.Prelude.{
  String, ◌≡◌, ◌≢◌, refl, ap, ◌∙◌, ◌⊎◌, inl, inr, true, false, Option, none, some, List, [], ◌∷◌,
  arith, lookup, insert, lookup-insert, str_eq, eq_iff, Dict, Bool-cases, str_eq-cases,
  if◌then◌else◌,
}
use helios_ci_cd.Engine.Dag.{Node}
use helios_ci_cd.Engine.Scheduler.{
  NodeStatus, unset, pending, ready, running, waiting_approval, skipped, canceled, is_terminal,
  is_pending, is_dispatched, Scheduler, status_of, or_unset, compute_ready_or_skip, is_approval,
  dispatch, set_status, settle, visit, next_ready_from, next_ready,
}
use helios_ci_cd.Engine.Scheduler.Reports.{
  is_result, finish, complete, complete_from, cancel_all, cancel_statuses,
}
use helios_ci_cd.Engine.Scheduler.Settled.{has_started, Settled, ready-Settled, Settled-mono}

-- From `s` to `s'` the graph is the same, ended stages keep their statuses, no stage becomes pending
-- again, and a stage starts only when its upstream has settled.
pub record Advance (s s' : Scheduler) : Type 0 where
  pub same_dag : s'.dag ≡ s.dag
  pub keeps : (j : String) → is_terminal (status_of s j) ≡ true → status_of s' j ≡ status_of s j
  pub spent : (j : String) → status_of s' j ≡ pending → status_of s j ≡ pending
  pub starts :
      (j : String) (n : Node)
      → lookup j s.dag.nodes ≡ some n
      → has_started (status_of s' j) ≡ true
      → (has_started (status_of s j) ≡ true) ⊎ Settled s' n

pub Advance-refl : (s : Scheduler) → Advance s s
Advance-refl s = record {
  same_dag = refl;
  keeps = λ j t. refl;
  spent = λ j p. p;
  starts = λ j n f h. inl h;
}

pub Advance-trans : (s t u : Scheduler) → Advance s t → Advance t u → Advance s u
Advance-trans s t u a b = record {
  same_dag = b.same_dag ∙ a.same_dag;
  keeps = λ j e. b.keeps j (rw (a.keeps j e) e) ∙ a.keeps j e;
  spent = λ j p. a.spent j (b.spent j p);
  starts = λ j n f h. elim (b.starts j n (ap (λ g. lookup j g.nodes) a.same_dag ∙ f) h) [
    | inl earlier ↦ elim (a.starts j n f earlier) [
      | inl before ↦ inl before
      | inr settled ↦ inr (Settled-mono t u n b.keeps settled)
    ]
    | inr settled ↦ inr settled
  ];
}

-- Writing one status that is not pending, at a stage that has not ended.
module _ (s s' : Scheduler) (id : String) (st : NodeStatus) where
  status-assign :
      (j : String)
      → s'.status ≡ insert id st s.status
      → status_of s' j ≡ (if str_eq id j then st else status_of s j)
  unfolding status_of
  status-assign j e = rw (e, lookup-insert) (ground arith)

  assign-Advance :
      s'.dag ≡ s.dag
      → s'.status ≡ insert id st s.status
      → is_terminal (status_of s id) ≡ false
      → st ≢ pending
      → ((n : Node)
          → lookup id s.dag.nodes ≡ some n
          → has_started st ≡ true
          → (has_started (status_of s id) ≡ true) ⊎ Settled s n)
      → Advance s s'
  assign-Advance d e live moved why = record {
    same_dag = d;
    keeps = keeps;
    spent = λ j p. ground (arith, status-assign j e, moved);
    starts = λ j n f h. starts j n f h (str_eq-cases id j);
  }
    where
      keeps : (j : String) → is_terminal (status_of s j) ≡ true → status_of s' j ≡ status_of s j
      keeps j t = ground (arith, status-assign j e, eq_iff id j, live, t)

      starts :
          (j : String) (n : Node)
          → lookup j s.dag.nodes ≡ some n
          → has_started (status_of s' j) ≡ true
          → (id ≡ j) ⊎ (str_eq id j ≡ false)
          → (has_started (status_of s j) ≡ true) ⊎ Settled s' n
      starts j n f h (inl same) =
          elim (why n (rw same f) (ground (arith, status-assign j e, eq_iff id j))) [
            | inl before ↦ inl (subst (λ k. has_started (status_of s k) ≡ true) same before)
            | inr settled ↦ inr (Settled-mono s s' n keeps settled)
          ]
      starts j n f h (inr other) = inl (ground (arith, status-assign j e))

-- One round of NextReady.
settle-Advance :
    (s : Scheduler) (id : String) (picked : List String) (verdict : NodeStatus)
    → status_of s id ≡ pending
    → compute_ready_or_skip s id ≡ verdict
    → Advance s (settle verdict s id picked).0
unfolding settle dispatch set_status
settle-Advance s id picked ready p v =
    let st = if is_approval (lookup id s.dag.nodes) then waiting_approval else running in
    assign-Advance s (dispatch s id) id st refl refl (rw p) (λ e. ground arith)
      (λ n f h. inr (ready-Settled s id n f v))
settle-Advance s id picked skipped p v =
    assign-Advance s (set_status s id skipped) id skipped refl refl (rw p) (λ e. cc e)
      (λ n f h. cc h)
settle-Advance s id picked _ p v = Advance-refl s

pub pending_of : (st : NodeStatus) → is_pending st ≡ true → st ≡ pending
pending_of st h = ground arith

pub visit-Advance :
    (s : Scheduler) (id : String) (picked : List String) → Advance s (visit s id picked).0
unfolding visit
visit-Advance s id picked = elim (Bool-cases (is_pending (status_of s id))) [
  | inl p ↦ elim (Bool-cases (is_dispatched s id)) [
    | inl d ↦ rw (p, d) (Advance-refl s)
    | inr d ↦
        rw (p, d)
          (settle-Advance s id picked (compute_ready_or_skip s id) (pending_of (status_of s id) p)
            refl)
  ]
  | inr p ↦ rw p (Advance-refl s)
]

pub next_ready_from-Advance :
    (s : Scheduler) (picked order : List String) → Advance s (next_ready_from s picked order).0
unfolding next_ready_from
next_ready_from-Advance s picked [] = Advance-refl s
next_ready_from-Advance s picked (id ∷ order) =
    let (s', picked') = visit s id picked in
    Advance-trans s s' _ (visit-Advance s id picked) (next_ready_from-Advance s' picked' order)

-- NextReady moves the statuses forward only.
pub next_ready-Advance : (s : Scheduler) → Advance s (next_ready s).0
unfolding next_ready
next_ready-Advance s = next_ready_from-Advance s [] s.dag.order

complete_from-Advance :
    (s : Scheduler) (id : String) (result : NodeStatus) (cur : Option NodeStatus)
    → lookup id s.status ≡ cur
    → has_started (or_unset cur) ≡ true
    → Advance s (complete_from cur s id result).1
unfolding complete_from status_of
complete_from-Advance s id result none e h = Advance-refl s
complete_from-Advance s id result (some cur) e h = elim (Bool-cases (is_terminal cur)) [
  | inl t ↦ rw t (Advance-refl s)
  | inr t ↦ elim (Bool-cases (is_result result)) [
    | inl r ↦
        rw (t, r)
          (assign-Advance s (finish s id result) id result refl refl (rw e t)
            (result_moves result r) (λ n f g. inl (rw e h)))
    | inr r ↦ rw (t, r) (Advance-refl s)
  ]
]
  where
    result_moves : (st : NodeStatus) → is_result st ≡ true → st ≢ pending
    result_moves st r e = ground arith

-- Complete does so for a stage that has been handed out, whatever it answers.
pub complete-Advance :
    (s : Scheduler) (id : String) (result : NodeStatus)
    → has_started (status_of s id) ≡ true
    → Advance s (complete s id result).1
unfolding complete status_of
complete-Advance s id result h = complete_from-Advance s id result (lookup id s.status) refl h

-- What CancelAll leaves of a status.
abbrev cancel_one : Option NodeStatus → NodeStatus
cancel_one none = unset
cancel_one (some st) = if is_terminal st then st else canceled

cancel_lem :
    (j : String) (m : Dict NodeStatus)
    → or_unset (lookup j (cancel_statuses m)) ≡ cancel_one (lookup j m)
unfolding cancel_statuses lookup
cancel_lem j [] = refl
cancel_lem j ((i, st) ∷ m) = elim (Bool-cases (str_eq i j)) [
  | inl e ↦ rw e refl
  | inr e ↦ rw e (cancel_lem j m)
]

status-cancel_all :
    (s : Scheduler) (j : String) → status_of (cancel_all s) j ≡ cancel_one (lookup j s.status)
unfolding cancel_all status_of
status-cancel_all s j = cancel_lem j s.status

pub cancel_all-Advance : (s : Scheduler) → Advance s (cancel_all s)
unfolding status_of
cancel_all-Advance s = record {
  same_dag = same;
  keeps = λ j t. ground (arith, status-cancel_all s j);
  spent = λ j p. ground (arith, status-cancel_all s j);
  starts = λ j n f h. inl (ground (arith, status-cancel_all s j));
}
  where
    same : (cancel_all s).dag ≡ s.dag
    same = unfold cancel_all in refl
