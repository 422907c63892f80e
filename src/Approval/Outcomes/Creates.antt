-- ===== src/Approval/Outcomes/Creates.antt =====
-- What `Create` of api/internal/service/approval.go does to the approval tables.
use helios_ci_cd.Prelude.{
  String, true, false, not, ◌&&◌, ◌≡◌, inl, inr, refl, List, [], ◌∷◌, arith, Bool-cases,
}
use helios_ci_cd.Approval.{
  ApprovalRequest, Store, Service, Outside, Reply, refused, no_approvers, has_id,
}
use helios_ci_cd.Approval.Requests.{
  CreateInput, create, insert_request, announce, new_request, can_insert,
}
use helios_ci_cd.Approval.Soundness.{no_vote, Change, added}
use helios_ci_cd.Approval.Outcomes.{unchanged, guard-Change}

module _ (service : Service) (o : Outside) (s : Store) (i : CreateInput) where
  insert_request-Change : Change s.requests s (insert_request service o i s).1
  unfolding insert_request announce new_request can_insert
  insert_request-Change = elim (Bool-cases (o.insert_ok && can_insert (new_request o i) s)) [
    | inl fits ↦ rw fits (added (new_request o i) (fresh fits) refl refl (no_vote refl))
    | inr unfit ↦ rw unfit (unchanged s)
  ]
    where
      fresh :
          (o.insert_ok && can_insert (new_request o i) s) ≡ true
          → has_id o.new_id s.requests ≡ false
      fresh h = ground (arith, h)

  pub create-Change : Change s.requests s (create service o s i).1
  unfolding create
  create-Change =
      guard-Change s (not service.has_db) _ _
        (guard-Change s _ _ _ (by_approvers i.required_approvers))
    where
      by_approvers :
          (names : List String)
          → Change s.requests s
              (elim names as (λ x. Reply ApprovalRequest × Store) [
                | [] ↦ (refused no_approvers, s)
                | a ∷ rest ↦ insert_request service o i s
              ]).1
      by_approvers [] = unchanged s
      by_approvers (a ∷ rest) = insert_request-Change
