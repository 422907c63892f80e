-- ===== src/Engine/Scheduler/Rounds.antt =====
-- One round of the loop of NextReady (api/pkg/engine/scheduler.go) and the loop itself.
use helios_ci_cd.Prelude.{
  String, ◌≡◌, ◌≢◌, refl, sym, ◌∙◌, inl, inr, true, false, List, [], ◌∷◌, ◌++◌, arith,
  lookup-insert, str_eq, eq_iff, Bool-cases, if◌then◌else◌, lookup,
}
use helios_ci_cd.Engine.Scheduler.{
  NodeStatus, pending, ready, running, waiting_approval, skipped, is_pending, is_dispatched,
  Scheduler, status_of, compute_ready_or_skip, is_approval, dispatch, set_status, settle, visit,
  next_ready_from,
}
use helios_ci_cd.Engine.Scheduler.Advance.{pending_of}

module _ (s : Scheduler) (id : String) (picked : List String) where
  -- A round leaves the state, for a reason; or marks the stage skipped; or hands it out.
  pub data Round (out : Scheduler × List String) : Type 0 where
    left :
        (status_of s id ≡ pending
          → is_dispatched s id ≡ false
          → (compute_ready_or_skip s id ≢ ready) × (compute_ready_or_skip s id ≢ skipped))
        → out ≡ (s, picked)
        → Round out
    passed_over : status_of s id ≡ pending → out ≡ (set_status s id skipped, picked) → Round out
    handed_out : status_of s id ≡ pending → out ≡ (dispatch s id, picked ++ id ∷ []) → Round out

  settle-Round :
      (verdict : NodeStatus)
      → compute_ready_or_skip s id ≡ verdict
      → status_of s id ≡ pending
      → Round (settle verdict s id picked)
  unfolding settle
  settle-Round ready v p = handed_out p refl
  settle-Round skipped v p = passed_over p refl
  settle-Round _ v p = left (λ q d. ((λ e. cc (v, e)), (λ e. cc (v, e)))) refl

  pub visit-Round : Round (visit s id picked)
  unfolding visit
  visit-Round = elim (Bool-cases (is_pending (status_of s id))) [
    | inl p ↦ elim (Bool-cases (is_dispatched s id)) [
      | inl d ↦ rw (p, d) (left (λ q e. cc (d, e)) refl)
      | inr d ↦
          rw (p, d) (settle-Round (compute_ready_or_skip s id) refl (pending_of (status_of s id) p))
    ]
    | inr p ↦ rw p (left (λ q e. cc (not_pending q p)) refl)
  ]
    where
      not_pending : status_of s id ≡ pending → is_pending (status_of s id) ≡ false → true ≡ false
      not_pending q p = ground arith

pub status-dispatch :
    (s : Scheduler) (id j : String)
    → status_of (dispatch s id) j ≡ (
        if str_eq id j
        then (if is_approval (lookup id s.dag.nodes) then waiting_approval else running)
        else status_of s j)
unfolding status_of dispatch
status-dispatch s id j = rw lookup-insert (ground arith)

pub status-set_status :
    (s : Scheduler) (id j : String) (st : NodeStatus)
    → status_of (set_status s id st) j ≡ (if str_eq id j then st else status_of s j)
unfolding status_of set_status
status-set_status s id j st = rw lookup-insert (ground arith)

-- What a round does not find pending, it leaves alone.
pub visit_other :
    (s : Scheduler) (id j : String) (picked : List String)
    → status_of s j ≢ pending
    → status_of (visit s id picked).0 j ≡ status_of s j
visit_other s id j picked h = elim (visit-Round s id picked) [
  | left r e ↦ rw e refl
  | passed_over p e ↦ rw e (ground (arith, status-set_status s id j skipped, eq_iff id j, h))
  | handed_out p e ↦ rw e (ground (arith, status-dispatch s id j, eq_iff id j, h))
]

pub next_ready_from_other :
    (s : Scheduler) (j : String) (picked order : List String)
    → status_of s j ≢ pending
    → status_of (next_ready_from s picked order).0 j ≡ status_of s j
unfolding next_ready_from
next_ready_from_other s j picked [] h = refl
next_ready_from_other s j picked (id ∷ order) h =
    let (s', picked') = visit s id picked in
    let same = visit_other s id j picked h in
    next_ready_from_other s' j picked' order (λ e. h (sym same ∙ e)) ∙ same
