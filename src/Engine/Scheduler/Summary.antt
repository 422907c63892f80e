-- ===== src/Engine/Scheduler/Summary.antt =====
-- What Outcome reports and what RestoreFromDB rebuilds (api/pkg/engine/scheduler.go).
use mathlib.Core.Path.{subst}
use helios_ci_cd.Prelude.{
  String, ◌≡◌, ◌≢◌, refl, sym, ◌∙◌, ◌⊎◌, inl, inr, Bool, true, false, Option, none, some, [], ◌∷◌,
  arith, all, any, member, lookup, has_key, lookup-insert, str_eq, eq_refl, Dict, Bool-cases,
  str_eq-cases, ne_of_str_eq, if◌then◌else◌,
}
use helios_ci_cd.Engine.Scheduler.{
  NodeStatus, unset, pending, running, waiting_approval, success, failed, skipped, canceled,
  Scheduler, status_of, next_ready,
}
use helios_ci_cd.Engine.Scheduler.Reports.{
  done, outcome, has_ended, has_failed, has_canceled, from_db, restore_all, restore_one,
  restore_from_db,
}
use helios_ci_cd.Engine.Scheduler.Drives.{next_ready_picks}

-- An entry that a lookup finds passes every test that all entries pass, and makes `any` true.
all-lookup :
    (p : String × NodeStatus → Bool) (id : String) (m : Dict NodeStatus) {st : NodeStatus}
    → lookup id m ≡ some st
    → all p m ≡ true
    → (j : String) × (p (j, st) ≡ true)
unfolding lookup
all-lookup p id [] f h = cc f
all-lookup p id ((j, s) ∷ m) {st} f h = elim (Bool-cases (str_eq j id)) [
  | inl e ↦
      let same : s ≡ st = ground (arith, f, e) in
      (j, subst (λ q. p (j, q) ≡ true) same (ground arith))
  | inr e ↦ all-lookup p id m (rw e at f) (ground arith)
]

any-lookup :
    (p : String × NodeStatus → Bool) (id : String) (m : Dict NodeStatus) {st : NodeStatus}
    → ((j : String) → p (j, st) ≡ true)
    → lookup id m ≡ some st
    → any p m ≡ true
unfolding lookup
any-lookup p id [] h f = cc f
any-lookup p id ((j, s) ∷ m) {st} h f = elim (Bool-cases (str_eq j id)) [
  | inl e ↦
      let same : st ≡ s = ground (arith, f, e) in rw (subst (λ q. p (j, q) ≡ true) same (h j)) refl
  | inr e ↦ ground (arith, any-lookup p id m h (rw e at f))
]

-- When all stages have ended and the outcome is success, each stage has succeeded or was skipped.
pub outcome-success :
    (s : Scheduler) (id : String) (st : NodeStatus)
    → done s ≡ true
    → outcome s ≡ success
    → lookup id s.status ≡ some st
    → (st ≡ success) ⊎ (st ≡ skipped)
unfolding done outcome
outcome-success s id success d o f = inl refl
outcome-success s id skipped d o f = inr refl
outcome-success s id failed d o f = cc (o, any-lookup has_failed id s.status (λ j. refl) f)
outcome-success s id canceled d o f =
    ground (arith, o, any-lookup has_canceled id s.status (λ j. refl) f)
outcome-success s id st d o f = cc (all-lookup has_ended id s.status f d).1

-- One failed stage makes the outcome failed, whatever the others did.
pub outcome-failed :
    (s : Scheduler) (id : String) → lookup id s.status ≡ some failed → outcome s ≡ failed
unfolding outcome
outcome-failed s id f = rw (any-lookup has_failed id s.status (λ j. refl) f) refl

abbrev pub restored : Option String → NodeStatus → NodeStatus
restored none st = st
restored (some db) st = (from_db db).0

restore_one_lem :
    (id j : String) (db : Option String) (s : Scheduler)
    → status_of (restore_one id db s) j
      ≡ (if str_eq id j then restored db (status_of s j) else status_of s j)
unfolding restore_one status_of
restore_one_lem id j none s = ground arith
restore_one_lem id j (some db) s = rw lookup-insert (ground arith)

restored_twice :
    (db : Option String) (st : NodeStatus) → restored db (restored db st) ≡ restored db st
restored_twice none st = refl
restored_twice (some db) st = refl

restore_all_lem :
    (statuses : Dict String) (l : Dict NodeStatus) (s : Scheduler) (j : String)
    → status_of (restore_all statuses l s) j
      ≡ (if has_key j l then restored (lookup j statuses) (status_of s j) else status_of s j)
unfolding restore_all has_key
restore_all_lem statuses [] s j = refl
restore_all_lem statuses ((i, st) ∷ l) s j =
    restore_all_lem statuses l (restore_one i (lookup i statuses) s) j
    ∙ rw restore_one_lem (merge (has_key j l) (str_eq-cases i j))
  where
    merge :
        (more : Bool)
        → (i ≡ j) ⊎ (str_eq i j ≡ false)
        → (if more
            then restored
                (lookup j statuses)
                (if str_eq i j then restored (lookup i statuses) (status_of s j) else status_of s j)
            else if str_eq i j
            then restored (lookup i statuses) (status_of s j)
            else status_of s j)
          ≡ (if if str_eq i j then true else more
              then restored (lookup j statuses) (status_of s j)
              else status_of s j)
    merge more (inr other) = rw other refl
    merge true (inl same) = rw (same, eq_refl) (restored_twice (lookup j statuses) (status_of s j))
    merge false (inl same) = rw (same, eq_refl) refl

status-restored :
    (s : Scheduler) (statuses : Dict String) (id : String)
    → has_key id s.status ≡ true
    → status_of (restore_from_db s statuses) id ≡ restored (lookup id statuses) (status_of s id)
unfolding restore_from_db
status-restored s statuses id h = restore_all_lem statuses s.status s id ∙ rw h refl

-- The status of a stage by the text of the column.
pub data StoredAs : String → NodeStatus → Type 0 where
  as_success : StoredAs "success" success
  as_failed : StoredAs "failed" failed
  as_skipped : StoredAs "skipped" skipped
  as_canceled : StoredAs "canceled" canceled
  as_running : StoredAs "running" running
  as_approval : StoredAs "approval" waiting_approval
  as_other :
      {db : String}
      → db ≢ "success"
      → db ≢ "failed"
      → db ≢ "skipped"
      → db ≢ "canceled"
      → db ≢ "running"
      → db ≢ "approval"
      → StoredAs db pending

-- The status after the rebuild, by what is stored and by the status before.
pub data Restored : Option String → NodeStatus → NodeStatus → Type 0 where
  kept : {st : NodeStatus} → Restored none st st
  stored : {db : String} {st st' : NodeStatus} → StoredAs db st' → Restored (some db) st st'

from_db-StoredAs : (db : String) → StoredAs db (from_db db).0
unfolding from_db
from_db-StoredAs db = elim (str_eq-cases db "success") [
  | inl e ↦ subst (λ d. StoredAs d (from_db d).0) (sym e) as_success
  | inr not_success ↦ elim (str_eq-cases db "failed") [
    | inl e ↦ subst (λ d. StoredAs d (from_db d).0) (sym e) as_failed
    | inr not_failed ↦ elim (str_eq-cases db "skipped") [
      | inl e ↦ subst (λ d. StoredAs d (from_db d).0) (sym e) as_skipped
      | inr not_skipped ↦ elim (str_eq-cases db "canceled") [
        | inl e ↦ subst (λ d. StoredAs d (from_db d).0) (sym e) as_canceled
        | inr not_canceled ↦ elim (str_eq-cases db "running") [
          | inl e ↦ subst (λ d. StoredAs d (from_db d).0) (sym e) as_running
          | inr not_running ↦ elim (str_eq-cases db "approval") [
            | inl e ↦ subst (λ d. StoredAs d (from_db d).0) (sym e) as_approval
            | inr not_approval ↦
                rw (not_success, not_failed, not_skipped, not_canceled, not_running, not_approval)
                  (as_other (ne_of_str_eq _ _ not_success) (ne_of_str_eq _ _ not_failed)
                    (ne_of_str_eq _ _ not_skipped) (ne_of_str_eq _ _ not_canceled)
                    (ne_of_str_eq _ _ not_running) (ne_of_str_eq _ _ not_approval))
          ]
        ]
      ]
    ]
  ]
]

restored-Restored : (db : Option String) (st : NodeStatus) → Restored db st (restored db st)
restored-Restored none st = kept
restored-Restored (some db) st = stored (from_db-StoredAs db)

-- RestoreFromDB gives each stage that the scheduler knows the status that is stored for it: an ended one
-- (success, failed, skipped, canceled) as it is, running as running, approval as waiting for approval,
-- and any other text as pending. A stage with none stored keeps its status.
pub status-restore_from_db :
    (s : Scheduler) (statuses : Dict String) (id : String)
    → has_key id s.status ≡ true
    → Restored (lookup id statuses) (status_of s id) (status_of (restore_from_db s statuses) id)
status-restore_from_db s statuses id h =
    subst (Restored (lookup id statuses) (status_of s id)) (sym (status-restored s statuses id h))
      (restored-Restored (lookup id statuses) (status_of s id))

-- A stage that is stored with anything but a pending status is not handed out after the rebuild.
pub restored_not_picked :
    (s : Scheduler) (statuses : Dict String) (id db : String)
    → has_key id s.status ≡ true
    → lookup id statuses ≡ some db
    → (from_db db).0 ≢ pending
    → member id (next_ready (restore_from_db s statuses)).1 ≡ false
restored_not_picked s statuses id db h f ne =
    elim (Bool-cases (member id (next_ready (restore_from_db s statuses)).1)) [
      | inl picked ↦ absurd (
          ne (
            sym (status-restored s statuses id h ∙ rw f refl)
            ∙ (next_ready_picks (restore_from_db s statuses) id picked).0))
      | inr no_pick ↦ no_pick
    ]

no_key-lookup : (id : String) (m : Dict NodeStatus) → has_key id m ≡ false → lookup id m ≡ none
unfolding has_key lookup
no_key-lookup id [] h = refl
no_key-lookup id ((j, st) ∷ m) h = elim (Bool-cases (str_eq j id)) [
  | inl e ↦ cc (rw e at h)
  | inr e ↦ rw e (no_key-lookup id m (rw e at h))
]

-- What is pending after the rebuild is stored as pending, if it is stored.
pub pending_restored :
    (s : Scheduler) (statuses : Dict String) (id db : String)
    → status_of (restore_from_db s statuses) id ≡ pending
    → lookup id statuses ≡ some db
    → (from_db db).0 ≡ pending
unfolding restore_from_db status_of
pending_restored s statuses id db h f = elim (Bool-cases (has_key id s.status)) [
  | inl k ↦ sym (known k) ∙ h
  | inr k ↦ cc (sym (unknown k) ∙ h)
]
  where
    known : has_key id s.status ≡ true → status_of (restore_from_db s statuses) id ≡ (from_db db).0
    known k = restore_all_lem statuses s.status s id ∙ rw (k, f) refl

    unknown : has_key id s.status ≡ false → status_of (restore_from_db s statuses) id ≡ unset
    unknown k = restore_all_lem statuses s.status s id ∙ rw (k, no_key-lookup id s.status k) refl
