-- ===== src/Engine/Scheduler/Drives.antt =====
-- A scheduler of api/pkg/engine/scheduler.go that one process drives from New: NextReady, Complete of a
-- stage that was handed out, and CancelAll, in any order and number. RestoreFromDB, with which each
-- tick of the worker starts, is not among them, and neither is Complete of a stage that was not.
use mathlib.Core.Path.{subst}
use helios_ci_cd.Engine.Scheduler.Rounds.{
  left, passed_over, handed_out, visit-Round, status-dispatch, next_ready_from_other,
}
use helios_ci_cd.Prelude.{
  member-append, eq_refl, String, ◌≡◌, ◌≢◌, refl, ◌∙◌, ◌⊎◌, inl, inr, true, false, some, List, [],
  ◌∷◌, member, lookup, str_eq, Dict, Bool-cases,
}
use helios_ci_cd.Engine.Dag.{Dag, Node}
use helios_ci_cd.Engine.Scheduler.{
  NodeStatus, pending, running, waiting_approval, Scheduler, status_of, or_unset, is_approval,
  dispatch, visit, next_ready_from, next_ready, new_scheduler, all_pending,
}
use helios_ci_cd.Engine.Scheduler.Reports.{complete, cancel_all}
use helios_ci_cd.Engine.Scheduler.Settled.{has_started, Settled}
use helios_ci_cd.Engine.Scheduler.Advance.{
  Advance, Advance-refl, Advance-trans, next_ready-Advance, complete-Advance, cancel_all-Advance,
  visit-Advance,
}

pub data Drive (s : Scheduler) : Scheduler → Type 0 where
  pick : Drive s (next_ready s).0
  report :
      (id : String) (result : NodeStatus)
      → has_started (status_of s id) ≡ true
      → Drive s (complete s id result).1
  cancel : Drive s (cancel_all s)

pub data Drives (s : Scheduler) : Scheduler → Type 0 where
  here : Drives s s
  next : {t u : Scheduler} → Drives s t → Drive t u → Drives s u

Drive-Advance : {s t : Scheduler} → Drive s t → Advance s t
Drive-Advance {s} pick = next_ready-Advance s
Drive-Advance {s} (report id result h) = complete-Advance s id result h
Drive-Advance {s} cancel = cancel_all-Advance s

-- Through any number of NextReady, Complete of a stage that runs or waits, and CancelAll (RestoreFromDB
-- not among them), the graph stays, an ended stage keeps its status, no stage becomes pending again,
-- and a stage starts only when its upstream has settled.
pub Drives-Advance : {s t : Scheduler} → Drives s t → Advance s t
Drives-Advance {s} here = Advance-refl s
Drives-Advance {s} (next {t} {u} r d) = Advance-trans s t u (Drives-Advance r) (Drive-Advance d)

unstarted :
    (nodes : Dict Node) (j : String) → has_started (or_unset (lookup j (all_pending nodes))) ≡ false
unfolding all_pending lookup
unstarted [] j = refl
unstarted ((i, n) ∷ nodes) j = elim (Bool-cases (str_eq i j)) [
  | inl e ↦ rw e refl
  | inr e ↦ rw e (unstarted nodes j)
]

-- In a new scheduler that is driven by NextReady, by Complete of a stage that runs or waits and by
-- CancelAll (RestoreFromDB not among them), a stage that has started has only ended stages upstream,
-- and only successful ones unless its condition names always() or failure().
pub started-Settled :
    (dag : Dag) (s : Scheduler) (id : String) (n : Node)
    → Drives (new_scheduler dag) s
    → lookup id dag.nodes ≡ some n
    → has_started (status_of s id) ≡ true
    → Settled s n
unfolding new_scheduler status_of
started-Settled dag s id n r found h = elim ((Drives-Advance r).starts id n found h) [
  | inl early ↦ cc (early, unstarted dag.nodes id)
  | inr settled ↦ settled
]

abbrev pub InHand : NodeStatus → Type 0
InHand st = (st ≡ running) ⊎ (st ≡ waiting_approval)

dispatch-InHand : (s : Scheduler) (id : String) → InHand (status_of (dispatch s id) id)
dispatch-InHand s id = elim (Bool-cases (is_approval (lookup id s.dag.nodes))) [
  | inl a ↦ inr (status-dispatch s id id ∙ rw (eq_refl, a) refl)
  | inr a ↦ inl (status-dispatch s id id ∙ rw (eq_refl, a) refl)
]

InHand-ne-pending : (st : NodeStatus) → InHand st → st ≢ pending
InHand-ne-pending st (inl h) e = cc (h, e)
InHand-ne-pending st (inr h) e = cc (h, e)

-- A stage is among those handed out, or was there before the loop.
visit-picked :
    (s : Scheduler) (id j : String) (picked : List String)
    → member j (visit s id picked).1 ≡ true
    → (member j picked ≡ true)
      ⊎ ((status_of s j ≡ pending) × InHand (status_of (visit s id picked).0 j))
visit-picked s id j picked h = elim (visit-Round s id picked) [
  | left r e ↦ inl (rw e at h)
  | passed_over p e ↦ inl (rw e at h)
  | handed_out p e ↦ elim (member-append j picked id (rw e at h)) [
    | inl old ↦ inl old
    | inr same ↦ inr (
      subst (λ k. status_of s k ≡ pending) same p,
      rw e (subst (λ k. InHand (status_of (dispatch s id) k)) same (dispatch-InHand s id)),
    )
  ]
]

next_ready_from-picked :
    (s : Scheduler) (j : String) (picked order : List String)
    → member j (next_ready_from s picked order).1 ≡ true
    → (member j picked ≡ true)
      ⊎ ((status_of s j ≡ pending) × InHand (status_of (next_ready_from s picked order).0 j))
unfolding next_ready_from
next_ready_from-picked s j picked [] h = inl h
next_ready_from-picked s j picked (id ∷ order) h =
    let s' = (visit s id picked).0 in
    let picked' = (visit s id picked).1 in
    elim (next_ready_from-picked s' j picked' order h) [
      | inl old ↦ elim (visit-picked s id j picked old) [
        | inl older ↦ inl older
        | inr (p, hand) ↦ inr (
          p,
          rw (next_ready_from_other s' j picked' order (InHand-ne-pending (status_of s' j) hand))
              hand,
        )
      ]
      | inr (p, hand) ↦ inr ((visit-Advance s id picked).spent j p, hand)
    ]

-- What NextReady returns was pending, and is then running or waits for an approval.
pub next_ready_picks :
    (s : Scheduler) (id : String)
    → member id (next_ready s).1 ≡ true
    → (status_of s id ≡ pending) × InHand (status_of (next_ready s).0 id)
unfolding next_ready
next_ready_picks s id h = elim (next_ready_from-picked s id [] s.dag.order h) [
  | inl none_before ↦ cc none_before
  | inr picked ↦ picked
]

-- A stage that NextReady has returned is not returned again by the scheduler as long as it is driven by
-- NextReady, by Complete of a stage that runs or waits and by CancelAll; RestoreFromDB is not among them.
pub handed_out_once :
    (s t : Scheduler) (id : String)
    → member id (next_ready s).1 ≡ true
    → Drives (next_ready s).0 t
    → member id (next_ready t).1 ≡ false
handed_out_once s t id h r = elim (Bool-cases (member id (next_ready t).1)) [
  | inl again ↦ absurd (
      InHand-ne-pending _ (next_ready_picks s id h).1
        ((Drives-Advance r).spent id (next_ready_picks t id again).0))
  | inr not_again ↦ not_again
]
