-- ===== src/Approval/Accepted.antt =====
-- When `vote` of api/internal/service/approval.go counts a vote, and what it then does.
use mathlib.Core.Path.{subst}
use helios_ci_cd.Prelude.{
  ◌⊎◌, ℕ, sym, ◌≤◌, ◌<◌, String, Bool, true, false, not, ◌&&◌, ◌≡◌, ◌≢◌, inl, inr, refl, ap, Option,
  none, some, List, [], ◌∷◌, ◌++◌, length, leb, arith, str_eq, eq_iff, ne_of_str_eq, Bool-cases,
  str_eq-cases, if◌then◌else◌,
}
use helios_ci_cd.Runstate.{approval}
use helios_ci_cd.Runstate.Machine.{
  Run, Db, Error, TransitionOpts, transition, only_error, mark_running, mark_failed,
}
use helios_ci_cd.Approval.{
  Decision, approve, reject, ApprovalRequest, Approval, Store, Service, Outside, ApprovalError,
  Reply, done, refused, find_pending, has_voted, approve_count, is_approver, not_found,
  not_approver, already_voted,
}
use helios_ci_cd.Approval.Voting.{
  VoteInput, VoteResult, ballot, resolve, counts, settle, cast, vote_locked, push_run, finish_vote,
  vote, vote_audit, vote_reason, vote_opts, after_move, resume_orchestrate, decided_request,
  decided_requests,
}

-- The status of the request after the vote and the run's next one, by the votes with the new one.
pub data Verdict (d : Decision) (r : ApprovalRequest) (votes : List Approval)
    : String → String → Type 0 where
  refusing : d ≡ reject → Verdict d r votes "rejected" "failed"
  any_one : d ≡ approve → r.mode ≡ "any" → Verdict d r votes "approved" "running"
  enough :
      d ≡ approve
      → r.mode ≡ "all"
      → length r.required_approvers ≤ approve_count r.id votes
      → Verdict d r votes "approved" "running"
  too_few :
      d ≡ approve
      → r.mode ≡ "all"
      → approve_count r.id votes < length r.required_approvers
      → Verdict d r votes r.status ""
  other_mode : d ≡ approve → r.mode ≢ "any" → r.mode ≢ "all" → Verdict d r votes r.status ""

-- How the run moves after the commit, from the store s.
pub data Moved (service : Service) (o : Outside) (i : VoteInput) (next : String) (s : Store)
    : Store → Type 0 where
  no_machine : service.has_machine ≡ false → Moved service o i next s s
  no_move : next ≡ "" → Moved service o i next s s
  to_running :
      (opts : TransitionOpts) (ticks : List (ℕ × ℕ))
      → service.has_machine ≡ true
      → next ≡ "running"
      → (ticks ≡ s.orchestrate_tasks)
        ⊎ (ticks ≡ s.orchestrate_tasks ++ (i.run_id, s.project_of i.run_id) ∷ [])
      → Moved service o i next s (record s {
        core = (transition o.machine s.core i.run_id "running" opts).1;
        orchestrate_tasks = ticks;
      })
  to_failed :
      (opts : TransitionOpts)
      → service.has_machine ≡ true
      → next ≡ "failed"
      → Moved service o i next s
          (record s { core = (transition o.machine s.core i.run_id "failed" opts).1 })

resolve-Verdict :
    (d : Decision) (r : ApprovalRequest) (votes : List Approval)
    → Verdict d r votes (resolve d r votes).0 (resolve d r votes).1
unfolding resolve
resolve-Verdict reject r votes = refusing refl
resolve-Verdict approve r votes = elim (str_eq-cases r.mode "any") [
  | inl any ↦ rw ((eq_iff _ _).1 any) (any_one refl any)
  | inr not_any ↦ rw not_any (elim (str_eq-cases r.mode "all") [
    | inr not_all ↦
        rw not_all (other_mode refl (ne_of_str_eq _ _ not_any) (ne_of_str_eq _ _ not_all))
    | inl all ↦
        rw ((eq_iff _ _).1 all)
          (elim (Bool-cases (leb (length r.required_approvers) (approve_count r.id votes))) [
            | inl many ↦ rw many (enough refl all (ground (arith, many)))
            | inr few ↦ rw few (too_few refl all (ground (arith, few)))
          ])
  ])
]

module _ (service : Service) (o : Outside) (i : VoteInput) where
  after_move-Moved :
      (opts : TransitionOpts) (next : String) (s : Store) (out : Option Error × Db)
      → service.has_machine ≡ true
      → next ≡ "running"
      → out ≡ only_error (transition o.machine s.core i.run_id "running" opts)
      → Moved service o i next s (after_move service o i.run_id s out)
  unfolding after_move resume_orchestrate
  after_move-Moved opts next s (some e, db) machine to is =
      subst (λ x. Moved service o i next s (record s { core = x })) (sym (ap (λ x. x.1) is))
        (to_running opts s.orchestrate_tasks machine to (inl refl))
  after_move-Moved opts next s (none, db) machine to is =
      subst
        (λ x.
          Moved service o i next s (resume_orchestrate service o i.run_id (record s { core = x })))
        (sym (ap (λ x. x.1) is))
        (elim (Bool-cases (service.has_orchestrate_queue && (o.load_run_ok && o.queue_ok))) [
          | inl queued ↦ rw queued (to_running opts _ machine to (inr refl))
          | inr unqueued ↦ rw unqueued (to_running opts s.orchestrate_tasks machine to (inl refl))
        ])

  push_run-Moved :
      (d : Decision) (r : ApprovalRequest) (votes : List Approval) {status next : String}
      (s : Store)
      → Verdict d r votes status next
      → Moved service o i next s (push_run service o i d next s)
  unfolding push_run mark_running mark_failed vote_reason vote_opts
  push_run-Moved d r votes {status} {next} s v = by_machine service.has_machine refl
    where
      by_verdict :
          {status next : String}
          → service.has_machine ≡ true
          → Verdict d r votes status next
          → Moved service o i next s (
              if str_eq next "running"
              then after_move service o i.run_id s
                  (mark_running o.machine s.core i.run_id (vote_opts i (vote_reason i d)))
              else if str_eq next "failed"
              then record s {
                core = (mark_failed o.machine s.core i.run_id (vote_reason i d) (vote_opts i "")).1;
              }
              else s)
      by_verdict m (refusing e) = to_failed _ m refl
      by_verdict m (any_one e a) = after_move-Moved _ "running" s _ m refl refl
      by_verdict m (enough e a h) = after_move-Moved _ "running" s _ m refl refl
      by_verdict m (too_few e a h) = no_move refl
      by_verdict m (other_mode e a h) = no_move refl

      by_machine :
          (b : Bool)
          → service.has_machine ≡ b
          → Moved service o i next s (
              if not b
              then s
              else if str_eq next "running"
              then after_move service o i.run_id s
                  (mark_running o.machine s.core i.run_id (vote_opts i (vote_reason i d)))
              else if str_eq next "failed"
              then record s {
                core = (mark_failed o.machine s.core i.run_id (vote_reason i d) (vote_opts i "")).1;
              }
              else s)
      by_machine true m = by_verdict m v
      by_machine false m = no_machine m

module _ (service : Service) (o : Outside) (s t : Store) (i : VoteInput) (d : Decision) where
  abbrev pub result : ApprovalRequest → String → String → VoteResult
  result r status next = record {
    request = decided_request o r status;
    vote = ballot o i d r;
    next_run_status = next;
  }

  -- The store as the transaction leaves it.
  abbrev pub committed : ApprovalRequest → String → Store
  committed r status = record t {
    requests = decided_requests o r status t.requests;
    votes = t.votes ++ ballot o i d r ∷ [];
    audit_logs = t.audit_logs ++ vote_audit o i d r ∷ [];
  }

  pub data Accepted (out : Reply VoteResult × Store) : Type 0 where
    rejected : (e : ApprovalError) → out ≡ (refused e, t) → Accepted out
    counted :
        (run : Run) (r : ApprovalRequest) (status next : String) (after : Store)
        → s.core.runs i.run_id ≡ some run
        → run.status ≡ approval
        → find_pending i.run_id i.stage_id s.requests ≡ some r
        → is_approver i.username r.required_approvers ≡ true
        → has_voted r.id i.username t.votes ≡ false
        → Verdict d r (t.votes ++ ballot o i d r ∷ []) status next
        → Moved service o i next (committed r status) after
        → out ≡ (done (result r status next), after)
        → Accepted out

  guard-Accepted :
      (b : Bool) (e : ApprovalError) (out : Reply VoteResult × Store)
      → Accepted (finish_vote service o i d out)
      → Accepted (finish_vote service o i d (if b then (refused e, t) else out))
  unfolding finish_vote
  guard-Accepted true e out h = rejected e refl
  guard-Accepted false e out h = h

  outer_guard-Accepted :
      (b : Bool) (e : ApprovalError) (out : Reply VoteResult × Store)
      → Accepted out
      → Accepted (if b then (refused e, t) else out)
  outer_guard-Accepted true e out h = rejected e refl
  outer_guard-Accepted false e out h = h

  settle-Accepted :
      (r : ApprovalRequest) (to : String × String)
      → Accepted (finish_vote service o i d (done (result r to.0 to.1), committed r to.0))
      → Accepted (finish_vote service o i d (settle o t i d r to))
  unfolding settle
  settle-Accepted r (status, next_run) h =
      guard-Accepted (not (str_eq status "pending") && not o.update_ok) _ _
        (guard-Accepted (not o.audit_ok) _ _ (guard-Accepted (not o.commit_ok) _ _ h))

  cast-Accepted :
      (run : Run) (row : Option ApprovalRequest)
      → s.core.runs i.run_id ≡ some run
      → run.status ≡ approval
      → find_pending i.run_id i.stage_id s.requests ≡ row
      → Accepted (finish_vote service o i d (cast o t i d row))
  unfolding cast finish_vote
  cast-Accepted run none f a e = rejected not_found refl
  cast-Accepted run (some r) f a e =
      elim (Bool-cases (is_approver i.username r.required_approvers)) [
        | inr stranger ↦ rw stranger (rejected not_approver refl)
        | inl member ↦ rw member (elim (Bool-cases (has_voted r.id i.username t.votes)) [
          | inl voted ↦ rw voted (rejected already_voted refl)
          | inr new ↦ rw new (
              let votes = t.votes ++ ballot o i d r ∷ [] in
              let to = resolve d r votes in
              guard-Accepted (not o.insert_ok) _ _ (
                guard-Accepted (counts d r && not o.count_ok) _ _ (
                  settle-Accepted r to (
                    counted run r to.0 to.1 _ f a e member new (resolve-Verdict d r votes)
                      (push_run-Moved service o i d r votes (committed r to.0)
                        (resolve-Verdict d r votes))
                      refl))))
        ])
      ]

  vote_locked-Accepted :
      (row : Option Run)
      → s.core.runs i.run_id ≡ row
      → Accepted (finish_vote service o i d (vote_locked o s t i d row))
  unfolding vote_locked finish_vote
  vote_locked-Accepted none e = rejected not_found refl
  vote_locked-Accepted (some run) e =
      guard-Accepted (str_eq run.status "") _ _ (elim (str_eq-cases run.status approval) [
        | inr other ↦ rw other (rejected _ refl)
        | inl held ↦
            rw ((eq_iff _ _).1 held)
              (guard-Accepted (not o.load_ok) _ _ (cast-Accepted run _ e held refl))
      ])

  -- Every vote is either refused, with nothing changed at all, or it is counted. It is counted only when,
  -- at the read, the run is held in approval, the stage has a pending request and the user is one of its
  -- approvers, and, at the insert, the user has not voted on it. Then the vote and one audit row are
  -- written. A reject makes the request rejected and moves the run to failed; an approve makes it approved
  -- and moves the run to running, in mode any at once, in mode all when the approvals are as many as the
  -- approvers; otherwise request and run stay. The run moves by one Transition after the commit, if there
  -- is a machine; after a move to running a tick may be queued, and nothing else is changed.
  pub vote-Accepted : Accepted (vote service o s t i d)
  unfolding vote
  vote-Accepted = outer_guard-Accepted (not service.has_db) _ _ (
      outer_guard-Accepted (str_eq i.username "") _ _ (
        outer_guard-Accepted (not o.begin_ok) _ _
          (outer_guard-Accepted (not o.select_ok) _ _ (vote_locked-Accepted _ refl))))
