-- ===== src/Engine/Scheduler/Settled.antt =====
-- What it takes for NextReady to hand a stage out (api/pkg/engine/scheduler.go, the loop and the
-- tests of computeReadyOrSkip).
use helios_ci_cd.Prelude.{
  String, ◌≡◌, refl, Bool, true, false, some, List, [], ◌∷◌, arith, all, lookup,
}
use helios_ci_cd.Engine.Dag.{Node}
use helios_ci_cd.Engine.Scheduler.{
  NodeStatus, ready, running, waiting_approval, success, failed, is_terminal, Scheduler, status_of,
  contains, Upstream, none_seen, see, survey, judge, compute, compute_ready_or_skip,
}

abbrev pub is_success : NodeStatus → Bool
is_success success = true
is_success _ = false

-- The stage has been handed out, and may have come back.
abbrev pub has_started : NodeStatus → Bool
has_started running = true
has_started waiting_approval = true
has_started success = true
has_started failed = true
has_started _ = false

-- Every upstream stage has ended; and each has succeeded, unless the condition of this one names
-- always() or failure().
pub record Settled (s : Scheduler) (n : Node) : Type 0 where
  pub ended : all (λ d. is_terminal (status_of s d)) n.in_edges ≡ true
  pub passed :
      contains n.stage.if_expr "always()" ≡ false
      → contains n.stage.if_expr "failure()" ≡ false
      → all (λ d. is_success (status_of s d)) n.in_edges ≡ true

see_lem :
    (st : NodeStatus) (u : Upstream)
    → ((see st u).all_done ≡ true → (u.all_done ≡ true) × (is_terminal st ≡ true))
      × ((see st u).has_failed ≡ false → u.has_failed ≡ false)
      × ((see st u).has_skipped ≡ false → u.has_skipped ≡ false)
      × ((see st u).has_canceled ≡ false → u.has_canceled ≡ false)
      × ((see st u).all_done ≡ true
          → (see st u).has_failed ≡ false
          → (see st u).has_skipped ≡ false
          → (see st u).has_canceled ≡ false
          → is_success st ≡ true)
unfolding see
see_lem success u = ground arith
see_lem _ u = ground arith

survey-done :
    (s : Scheduler) (deps : List String) (u : Upstream)
    → (survey s deps u).all_done ≡ true
    → (u.all_done ≡ true) × (all (λ d. is_terminal (status_of s d)) deps ≡ true)
unfolding survey
survey-done s [] u h = (h, refl)
survey-done s (d ∷ deps) u h =
    let rest = survey-done s deps (see (status_of s d) u) h in
    let here = (see_lem (status_of s d) u).0 rest.0 in (here.0, rw here.1 rest.1)

record Clear (u : Upstream) : Type 0 where
  done : u.all_done ≡ true
  failed : u.has_failed ≡ false
  skipped : u.has_skipped ≡ false
  canceled : u.has_canceled ≡ false

survey-Clear :
    (s : Scheduler) (deps : List String) (u : Upstream)
    → Clear (survey s deps u)
    → Clear u × (all (λ d. is_success (status_of s d)) deps ≡ true)
unfolding survey
survey-Clear s [] u h = (h, refl)
survey-Clear s (d ∷ deps) u h =
    let (c, rest) = survey-Clear s deps (see (status_of s d) u) h in
    let l = see_lem (status_of s d) u in
    (
      record {
        done = (l.0 c.done).0;
        failed = l.1 c.failed;
        skipped = l.2 c.skipped;
        canceled = l.3 c.canceled;
      },
      rw (l.4 c.done c.failed c.skipped c.canceled) rest,
    )

judge-ready-done : (cond : String) (u : Upstream) → judge cond u ≡ ready → u.all_done ≡ true
unfolding judge
judge-ready-done cond u h = ground arith

judge-ready-Clear :
    (cond : String) (u : Upstream)
    → judge cond u ≡ ready
    → contains cond "always()" ≡ false
    → contains cond "failure()" ≡ false
    → Clear u
unfolding judge
judge-ready-Clear cond u h a f = record {
  done = ground arith;
  failed = ground arith;
  skipped = ground arith;
  canceled = ground arith;
}

compute-Settled :
    (s : Scheduler) (cond : String) (deps : List String)
    → compute s cond deps ≡ ready
    → (all (λ d. is_terminal (status_of s d)) deps ≡ true)
      × (contains cond "always()" ≡ false
          → contains cond "failure()" ≡ false
          → all (λ d. is_success (status_of s d)) deps ≡ true)
unfolding compute
compute-Settled s cond [] h = (refl, λ a f. refl)
compute-Settled s cond (d ∷ deps) h =
    let u = survey s (d ∷ deps) none_seen in
    (
      (survey-done s (d ∷ deps) none_seen (judge-ready-done cond u h)).1,
      λ a f. (survey-Clear s (d ∷ deps) none_seen (judge-ready-Clear cond u h a f)).1,
    )

-- A stage that is judged ready has its upstream settled.
pub ready-Settled :
    (s : Scheduler) (id : String) (n : Node)
    → lookup id s.dag.nodes ≡ some n
    → compute_ready_or_skip s id ≡ ready
    → Settled s n
unfolding compute_ready_or_skip
ready-Settled s id n found h =
    let facts =
      compute-Settled s n.stage.if_expr n.in_edges (rw (found, compute_ready_or_skip) at h) in
    record { ended = facts.0; passed = facts.1 }

pub all_congr :
    (p q : NodeStatus → Bool) (s s' : Scheduler) (deps : List String)
    → ((d : String) → p (status_of s d) ≡ true → q (status_of s' d) ≡ true)
    → all (λ d. p (status_of s d)) deps ≡ true
    → all (λ d. q (status_of s' d)) deps ≡ true
all_congr p q s s' [] h a = refl
all_congr p q s s' (d ∷ deps) h a =
    rw (h d (ground arith)) (all_congr p q s s' deps h (ground arith))

-- What has settled stays so while ended stages keep their statuses.
pub Settled-mono :
    (s s' : Scheduler) (n : Node)
    → ((j : String) → is_terminal (status_of s j) ≡ true → status_of s' j ≡ status_of s j)
    → Settled s n
    → Settled s' n
Settled-mono s s' n keeps h = record {
  ended = all_congr is_terminal is_terminal s s' n.in_edges (λ d t. rw (keeps d t) t) h.ended;
  passed = λ a f.
      all_congr is_success is_success s s' n.in_edges
        (λ d t. rw (keeps d (ended (status_of s d) t)) t) (h.passed a f);
}
  where
    ended : (st : NodeStatus) → is_success st ≡ true → is_terminal st ≡ true
    ended st h = ground arith
