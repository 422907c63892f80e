-- ===== src/Approval/Outcomes/Votes.antt =====
-- What `vote` of api/internal/service/approval.go does to the approval tables.
use helios_ci_cd.Prelude.{
  ℕ, ◌≤◌, String, Bool, true, false, not, ◌&&◌, ◌≡◌, inl, inr, refl, sym, ap, ◌∙◌, Option, none,
  some, List, [], ◌∷◌, ◌++◌, length, leb, str_eq, eq_iff, arith, Bool-cases, str_eq-cases,
  ne_of_str_eq,
}
use helios_ci_cd.Runstate.{running, failed, approval}
use helios_ci_cd.Runstate.Machine.{Run, Db, Error}
use helios_ci_cd.Approval.{
  Decision, approve, reject, ApprovalRequest, Approval, Store, Service, Outside, Reply, done,
  refused, is_pending, is_waiting, find_pending, find_request, has_voted, approve_count,
  is_approver,
}
use helios_ci_cd.Approval.Voting.{
  VoteInput, VoteResult, ballot, resolve, counts, settle, cast, vote_locked, resume_orchestrate,
  after_move, push_run, finish_vote, vote,
}
use helios_ci_cd.Approval.Soundness.{
  IsKeyed, IsJustified, Cast, one, Change, same, decided, find_request_of_pending, KeepsColumns,
}
use mathlib.Core.Path.{subst}
use helios_ci_cd.Approval.Changes.{
  KeepsRows, pending-IsJustified, approved-IsJustified, rejected-IsJustified,
}
use helios_ci_cd.Approval.Outcomes.{
  unchanged, guard-Change, Change-later, SameTables, kept, if-SameTables,
}
use helios_ci_cd.Approval.Votes.{approve_count-append, has_rejected-append}

module _ (service : Service) (o : Outside) where
  resume-SameTables :
      (run_id : ℕ) (s : Store) (db : Db)
      → SameTables s (resume_orchestrate service o run_id (record s { core = db }))
  unfolding resume_orchestrate
  resume-SameTables run_id s db =
      if-SameTables s (service.has_orchestrate_queue && (o.load_run_ok && o.queue_ok)) _ _
        (kept refl refl) (kept refl refl)

  after_move-SameTables :
      (run_id : ℕ) (s : Store) (out : Option Error × Db)
      → SameTables s (after_move service o run_id s out)
  unfolding after_move
  after_move-SameTables run_id s (none, db) = resume-SameTables run_id s db
  after_move-SameTables run_id s (some e, db) = kept refl refl

  push_run-SameTables :
      (i : VoteInput) (d : Decision) (next_run : String) (s : Store)
      → SameTables s (push_run service o i d next_run s)
  unfolding push_run
  push_run-SameTables i d next_run s =
      if-SameTables s (not service.has_machine) s _ (kept refl refl) (
        if-SameTables s (str_eq next_run running) _ _ (after_move-SameTables i.run_id s _)
          (if-SameTables s (str_eq next_run failed) _ s (kept refl refl) (kept refl refl)))

  finish_vote-Change :
      {read : List ApprovalRequest} (i : VoteInput) (d : Decision) (s : Store)
      (out : Reply VoteResult × Store)
      → Change read s out.1
      → Change read s (finish_vote service o i d out).1
  unfolding finish_vote
  finish_vote-Change i d s (refused e, s') h = h
  finish_vote-Change i d s (done v, s') h =
      let tables = push_run-SameTables i d v.next_run_status s' in
      Change-later s s' _ h tables.requests_kept tables.votes_kept

  -- What the table needs of the request that the vote writes: `r` is the row that was read, and `cur` the
  -- one that is there.
  settle-Change :
      {read : List ApprovalRequest} (s : Store) (i : VoteInput) (d : Decision)
      (r cur : ApprovalRequest) (to : String × String)
      → find_request r.id read ≡ some r
      → is_pending r ≡ true
      → find_request r.id s.requests ≡ some cur
      → KeepsColumns r cur
      → is_approver i.username r.required_approvers ≡ true
      → has_voted r.id i.username s.votes ≡ false
      → IsJustified
          (s.votes ++ ballot o i d r ∷ [])
          (record r { status = to.0; updated_at = o.now })
      → Change read s (settle o s i d r to).1
  unfolding settle ballot
  settle-Change {read} s i d r cur (status, next_run) seen was found k voter new j =
      elim (Bool-cases (str_eq status "pending")) [
        | inl e ↦ rw e (
            guard-Change s (not o.audit_ok) _ _
              (guard-Change s (not o.commit_ok) _ _ (same refl cast_one)))
        | inr e ↦ rw e (
            guard-Change s (not o.update_ok) _ _ (
              guard-Change s (not o.audit_ok) _ _ (
                guard-Change s (not o.commit_ok) _ _
                  (decided r cur _ seen_own was own kept_columns refl cast_one j))))
      ]
    where
      same_id : r.id ≡ cur.id
      same_id = sym (ap (λ x. x.id) k)

      own : find_request cur.id s.requests ≡ some cur
      own = subst (λ n. find_request n s.requests ≡ some cur) same_id found

      seen_own : find_request cur.id read ≡ some r
      seen_own = subst (λ n. find_request n read ≡ some r) same_id seen

      kept_columns : KeepsColumns cur (record r { status = status; updated_at = o.now })
      kept_columns =
          ap {A = ApprovalRequest} (λ x. record x { status = status; updated_at = o.now }) (sym k)

      cast_one : Cast s.requests s.votes (s.votes ++ ballot o i d r ∷ [])
      cast_one =
          one (ballot o i d r) cur found
            (inr (
              subst (λ l. is_approver i.username l ≡ true) (sym (ap (λ x. x.required_approvers) k))
                voter))
            new refl

  resolve-IsJustified :
      (s : Store) (i : VoteInput) (d : Decision) (r : ApprovalRequest)
      → is_pending r ≡ true
      → let votes = s.votes ++ ballot o i d r ∷ [] in
        IsJustified votes (record r { status = (resolve d r votes).0; updated_at = o.now })
  unfolding resolve ballot
  resolve-IsJustified s i reject r p =
      rejected-IsJustified _ r o.now
        (ground (arith, has_rejected-append (ballot o i reject r) r.id s.votes))
  resolve-IsJustified s i approve r p = elim (str_eq-cases r.mode "any") [
    | inl any ↦ rw ((eq_iff _ _).1 any) (
        approved-IsJustified _ r o.now counted
          (λ m. absurd (ne_of_str_eq "any" "all" refl (sym any ∙ m))))
    | inr not_any ↦ rw not_any (elim (Bool-cases (str_eq r.mode "all" && enough)) [
      | inl all ↦ rw all (approved-IsJustified _ r o.now counted (λ m. inl (ground (arith, all))))
      | inr other ↦ rw other (pending-IsJustified _ _ p)
    ])
  ]
    where
      votes : List Approval
      votes = s.votes ++ ballot o i approve r ∷ []

      enough : Bool
      enough = leb (length r.required_approvers) (approve_count r.id votes)

      counted : 1 ≤ approve_count r.id votes
      counted = ground (arith, approve_count-append (ballot o i approve r) r.id s.votes)

  cast-Change :
      (s t : Store) (i : VoteInput) (d : Decision) (row : Option ApprovalRequest)
      → IsKeyed s.requests
      → KeepsRows s t
      → find_pending i.run_id i.stage_id s.requests ≡ row
      → Change s.requests t (cast o t i d row).1
  unfolding cast
  cast-Change s t i d none k rows e = unchanged t
  cast-Change s t i d (some r) k rows e =
      elim (Bool-cases (is_approver i.username r.required_approvers)) [
        | inr stranger ↦ rw stranger (unchanged t)
        | inl voter ↦ rw voter (elim (Bool-cases (has_voted r.id i.username t.votes)) [
          | inl voted ↦ rw voted (unchanged t)
          | inr new ↦ rw new (
              guard-Change t (not o.insert_ok) _ _
                (guard-Change t (counts d r && not o.count_ok) _ _ (written voter new)))
        ])
      ]
    where
      found : (find_request r.id s.requests ≡ some r) × (is_waiting i.run_id i.stage_id r ≡ true)
      found = find_request_of_pending i.run_id i.stage_id s.requests r k e

      waiting : is_pending r ≡ true
      waiting = ground (arith, found.1)

      written :
          is_approver i.username r.required_approvers ≡ true
          → has_voted r.id i.username t.votes ≡ false
          → Change s.requests t (settle o t i d r (resolve d r (t.votes ++ ballot o i d r ∷ []))).1
      written voter new =
          let (cur, there, columns) = rows r.id r found.0 in
          settle-Change t i d r cur _ found.0 waiting there columns voter new
            (resolve-IsJustified t i d r waiting)

  vote_locked-Change :
      (s t : Store) (i : VoteInput) (d : Decision) (row : Option Run)
      → IsKeyed s.requests
      → KeepsRows s t
      → Change s.requests t (vote_locked o s t i d row).1
  unfolding vote_locked
  vote_locked-Change s t i d none k rows = unchanged t
  vote_locked-Change s t i d (some run) k rows = guard-Change t (str_eq run.status "") _ _ (
      guard-Change t (not (str_eq run.status approval)) _ _
        (guard-Change t (not o.load_ok) _ _ (cast-Change s t i d _ k rows refl)))

  pub vote-Change :
      (s t : Store) (i : VoteInput) (d : Decision)
      → IsKeyed s.requests
      → KeepsRows s t
      → Change s.requests t (vote service o s t i d).1
  unfolding vote
  vote-Change s t i d k rows = guard-Change t (not service.has_db) _ _ (
      guard-Change t (str_eq i.username "") _ _ (
        guard-Change t (not o.begin_ok) _ _ (
          guard-Change t (not o.select_ok) _ _
            (finish_vote-Change i d t _ (vote_locked-Change s t i d _ k rows)))))
