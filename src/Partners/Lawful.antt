-- ===== src/Partners/Lawful.antt =====
-- What happens between a package's partners changes the database lawfully.
use eventy_backend.Base.{ℕ, List, ◌==◌, nat_eq, Bool-cases, inl, inr}
use eventy_backend.Model.{
  Db, Package, PackageService, Provider, PackageServiceStatus, NoticeKind, find_first,
  provider_of_user, transaction,
}
use eventy_backend.Change.Tables.{set_packages, set_package_services}
use eventy_backend.Change.Rules.{
  LawfulAt, after_read, after_lookup, after_check, after_refusal, after_write, then_step,
  lawful_emit, Lawful-write, lawful_transaction, lawful_when, lawful_for_each,
}
use eventy_backend.Discounts.{suspend_discounts_for_package}
use eventy_backend.Discounts.Lawful.{suspend_discounts_for_package-Lawful}
use eventy_backend.Packages.{package_by_id}
use eventy_backend.Partners.{
  owned_package, tell_partners, activate_package, is_join_request, answer_join_request,
  accept_join_request, reject_join_request, cancel_owned_package, is_partner, leave_partnership,
  leave_package, expire_join_request, expire_pending_join_requests,
}

tell_partners-Lawful :
    (kind : NoticeKind) (u owner k : ℕ) (rows : List PackageService) (db : Db)
    → LawfulAt (tell_partners kind u owner k rows) db
unfolding tell_partners
tell_partners-Lawful kind u owner k rows db =
    after_read (λ d. d) _ db
      (lawful_for_each _ (λ s d. lawful_when _ _ d λ _. lawful_emit kind u _ k d) rows db)

pub activate_package-Lawful : (u k : ℕ) (db : Db) → LawfulAt (activate_package u k) db
unfolding activate_package
activate_package-Lawful u k db =
    after_read (λ d. d) _ db
      (after_lookup (provider_of_user db u) _ _ db λ provider _.
        after_lookup (find_first (owned_package provider.id k) db.packages) _ _ db λ owned _.
          after_check _ _ _ db λ _. after_refusal _ _ _ db λ _.
            after_write _ _ db (set_packages db _) (
              then_step (suspend_discounts_for_package k) _ _
                (suspend_discounts_for_package-Lawful k _)
                (after_read (λ d. d) _ _
                  (tell_partners-Lawful NoticeKind.package_activated u provider.id k _ _))))

answer_join_request-Lawful :
    (status : PackageServiceStatus) (kind : NoticeKind) (u k : ℕ) (db : Db)
    → LawfulAt (answer_join_request status kind u k) db
unfolding answer_join_request
answer_join_request-Lawful status kind u k db =
    after_read (λ d. d) _ db
      (after_lookup (provider_of_user db u) _ _ db λ provider _.
        after_lookup (find_first (is_join_request k provider.id) db.package_services) _ _ db
          λ row _. after_write _ _ db (set_package_services db _) (lawful_emit kind u _ k _))

pub accept_join_request-Lawful : (u k : ℕ) (db : Db) → LawfulAt (accept_join_request u k) db
unfolding accept_join_request
accept_join_request-Lawful u k db = answer_join_request-Lawful _ _ u k db

pub reject_join_request-Lawful : (u k : ℕ) (db : Db) → LawfulAt (reject_join_request u k) db
unfolding reject_join_request
reject_join_request-Lawful u k db = answer_join_request-Lawful _ _ u k db

cancel_owned_package-Lawful :
    (u provider_id : ℕ) (owned : Package) (db : Db)
    → LawfulAt (cancel_owned_package u provider_id owned) db
unfolding cancel_owned_package
cancel_owned_package-Lawful u provider_id owned db =
    after_read (λ d. d) _ db
      (after_refusal _ _ _ db λ _. after_refusal _ _ _ db λ _.
        then_step (transaction _) _ db
          (lawful_transaction _ db
            (after_write _ _ db (set_package_services db _) (Lawful-write _ _ (set_packages _ _))))
          (tell_partners-Lawful NoticeKind.package_cancelled u provider_id owned.id _ _))

leave_partnership-Lawful :
    (u : ℕ) (provider : Provider) (left : Package) (db : Db)
    → LawfulAt (leave_partnership u provider left) db
unfolding leave_partnership
leave_partnership-Lawful u provider left db =
    after_read (λ d. d) _ db
      (after_lookup (find_first (is_partner left.id provider.id) db.package_services) _ _ db
        λ membership _. after_refusal _ _ _ db λ _. after_write _ _ db (set_package_services db _) (
          then_step _ _ _ (lawful_emit NoticeKind.package_partner_left u _ left.id _)
            (after_read (λ d. d) _ _ (lawful_when _ _ _ λ _. Lawful-write _ _ (set_packages _ _)))))

pub leave_package-Lawful : (u k : ℕ) (db : Db) → LawfulAt (leave_package u k) db
unfolding leave_package
leave_package-Lawful u k db =
    after_read (λ d. d) _ db
      (after_lookup (provider_of_user db u) _ _ db λ provider _.
        after_lookup (package_by_id db k) _ _ db λ left _.
          elim (Bool-cases (left.provider_id == provider.id)) [
            | inl h ↦ rw h (cancel_owned_package-Lawful u provider.id left db)
            | inr h ↦ rw h (leave_partnership-Lawful u provider left db)
          ])

expire_join_request-Lawful : (s : PackageService) (db : Db) → LawfulAt (expire_join_request s) db
unfolding expire_join_request
expire_join_request-Lawful s db =
    after_read (λ d. d) _ db
      (after_write _ _ db (set_package_services db _) (
        then_step _ _ _ (lawful_emit NoticeKind.package_join_expired _ _ s.package_id _)
          (lawful_emit NoticeKind.package_join_expired _ _ s.package_id _)))

pub expire_pending_join_requests-Lawful :
    (now : ℕ) (db : Db) → LawfulAt (expire_pending_join_requests now) db
unfolding expire_pending_join_requests
expire_pending_join_requests-Lawful now db =
    after_read _ _ db (lawful_for_each _ expire_join_request-Lawful _ db)
