-- ===== src/Approval/Histories.antt =====
-- Any sequence of operations on the approval tables, by the API (api/internal/service/approval.go)
-- and by the worker (api/pkg/approval/timeout.go), with Transitions of runs by anybody in between.
use helios_ci_cd.Prelude.{◌≡◌, ℕ, false, some, refl, List, [], ◌∷◌}
use helios_ci_cd.Runstate.Machine.Histories.{Request, serve}
use helios_ci_cd.Approval.{
  Decision, ApprovalRequest, Store, Service, Outside, find_request, is_pending,
}
use helios_ci_cd.Approval.Requests.{CreateInput, create}
use helios_ci_cd.Approval.Voting.{VoteInput, vote}
use helios_ci_cd.Approval.Timeouts.{handle_timeout}
use helios_ci_cd.Approval.Soundness.{IsSound, no_vote, Change, same}
use helios_ci_cd.Approval.Changes.{
  Change-IsSound, Change-decided, KeepsRows, KeepsRows-refl, KeepsRows-trans, Change-KeepsRows,
}
use helios_ci_cd.Approval.Outcomes.Votes.{vote-Change}
use helios_ci_cd.Approval.Outcomes.Creates.{create-Change}
use helios_ci_cd.Approval.Outcomes.Timeouts.{handle_timeout-Change}

-- What is one step on the tables: the transaction of HandleTimeout locks the row that it reads.
pub data Step : Type 0 where
  creating : Service → Outside → CreateInput → Step
  expiring : Service → Outside → ℕ → Step
  transitioning : List Request → Step

unfoldable pub take_step : Store → Step → Store
take_step s (creating service o i) = (create service o s i).1
take_step s (expiring service o id) = (handle_timeout service o s id).1
take_step s (transitioning requests) = record s { core = serve s.core requests }

unfoldable pub take_steps : Store → List Step → Store
take_steps s [] = s
take_steps s (x ∷ rest) = take_steps (take_step s x) rest

-- A vote, with the steps that others take between its read of the request and its writes. Another vote
-- on the run waits for the lock of the run's row, and one on another run meets other rows.
pub data Act : Type 0 where
  step : Step → Act
  voting : Service → Outside → VoteInput → Decision → List Step → Act

unfoldable pub act : Store → Act → Store
unfolding take_step take_steps
act s (step x) = take_step s x
act s (voting service o i d steps) = (vote service o s (take_steps s steps) i d).1

unfoldable pub act_all : Store → List Act → Store
act_all s [] = s
act_all s (a ∷ rest) = act_all (act s a) rest

take_step-Change : (s : Store) (x : Step) → Change s.requests s (take_step s x)
unfolding take_step
take_step-Change s (creating service o i) = create-Change service o s i
take_step-Change s (expiring service o id) = handle_timeout-Change service o s id
take_step-Change s (transitioning requests) = same refl (no_vote refl)

take_steps_lem :
    (s : Store) (xs : List Step)
    → IsSound s
    → IsSound (take_steps s xs) × KeepsRows s (take_steps s xs)
unfolding take_steps
take_steps_lem s [] h = (h, KeepsRows-refl s)
take_steps_lem s (x ∷ xs) h =
    let change = take_step-Change s x in
    let (sound, rows) = take_steps_lem (take_step s x) xs (Change-IsSound s _ change h) in
    (
      sound,
      KeepsRows-trans s (take_step s x) (take_steps (take_step s x) xs)
          (Change-KeepsRows s _ change) rows,
    )

-- The steps that others take between the reads and the writes.
abbrev pub between : Act → List Step
between (step x) = []
between (voting service o i d steps) = steps

-- The store s' comes from t by one change, and t from s, where the requests were read, by the steps of
-- others.
abbrev pub IsChange : (s t s' : Store) → Type 0
IsChange s t s' = IsSound t × KeepsRows s t × Change s.requests t s'

-- Each step, and each vote in its writes, after any steps of others between its reads and these, changes
-- sound approval tables only so: it leaves the requests, adds one pending request with a key of its
-- own, or writes the status and the time of change, and no other column, of one request that was
-- pending when it was read, on votes that justify the status; and it adds at most one vote, on a
-- request that exists, of a user who had none on that request and is among its approvers (or is the
-- system). The steps in between leave the tables sound and each row its other columns.
pub act-Change : (s : Store) (a : Act) → IsSound s → IsChange s (take_steps s (between a)) (act s a)
unfolding act take_steps
act-Change s (step x) h = (h, KeepsRows-refl s, take_step-Change s x)
act-Change s (voting service o i d steps) h =
    let (sound, rows) = take_steps_lem s steps h in
    (sound, rows, vote-Change service o s _ i d h.keyed rows)

-- Whatever is done to sound approval tables, they stay sound: distinct keys, at most one vote of a
-- user on a request, votes only on requests that exist and only by their approvers (or the system), an
-- approval for each approved request (in mode all as many as it has approvers, unless the system
-- approved it), and a rejection for each rejected request.
pub act_all-IsSound : (s : Store) (acts : List Act) → IsSound s → IsSound (act_all s acts)
unfolding act_all
act_all-IsSound s [] h = h
act_all-IsSound s (a ∷ rest) h =
    let (sound, rows, change) = act-Change s a h in
    act_all-IsSound (act s a) rest
      (Change-IsSound (take_steps s (between a)) (act s a) change sound)

take_steps-decided :
    (s : Store) (xs : List Step) (id : ℕ) (r : ApprovalRequest)
    → find_request id s.requests ≡ some r
    → is_pending r ≡ false
    → find_request id (take_steps s xs).requests ≡ some r
unfolding take_steps
take_steps-decided s [] id r f d = f
take_steps-decided s (x ∷ xs) id r f d =
    take_steps-decided (take_step s x) xs id r
      (Change-decided s (take_step s x) id r r (take_step-Change s x) f d f) d

-- A request that is decided at a time when no vote on it is under way is never changed again, in any
-- column, by whatever votes, creations, timeouts and Transitions, from sound tables.
pub act_all_decided :
    (s : Store) (acts : List Act) (id : ℕ) (r : ApprovalRequest)
    → IsSound s
    → find_request id s.requests ≡ some r
    → is_pending r ≡ false
    → find_request id (act_all s acts).requests ≡ some r
unfolding act_all
act_all_decided s [] id r h f d = f
act_all_decided s (a ∷ rest) id r h f d =
    let t = take_steps s (between a) in
    let (sound, rows, change) = act-Change s a h in
    act_all_decided (act s a) rest id r (Change-IsSound t (act s a) change sound)
      (Change-decided t (act s a) id r r change f d (take_steps-decided s (between a) id r f d)) d
