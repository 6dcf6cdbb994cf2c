-- ===== src/Refusal/Partners.antt =====
-- The handlers between a package's partners write only once every check has passed.
use eventy_backend.Base.{ℕ, ◌==◌, nat_eq, List, Bool-cases, inl, inr}
use eventy_backend.Model.{
  Db, Package, PackageService, PackageServiceStatus, Provider, NoticeKind, find_first,
  provider_of_user,
}
use eventy_backend.Refusal.{
  Harmless, Settled, Harmless-read, Harmless-lookup, Harmless-check, Harmless-refusal,
  Harmless-write, Harmless-then_transaction, Settled-bind, Settled-then, Settled-gets,
  Settled-for_each, Settled-modify, Settled-emit, Settled-when,
}
use eventy_backend.Discounts.{suspend_discounts_for_package}
use eventy_backend.Packages.{package_by_id}
use eventy_backend.Partners.{
  owned_package, tell_partners, activate_package, is_join_request, answer_join_request,
  accept_join_request, reject_join_request, cancel_owned_package, is_partner, leave_partnership,
  leave_package, expire_join_request, expire_pending_join_requests,
}

tell_partners-Settled :
    (kind : NoticeKind) (u owner k : ℕ) (rows : List PackageService)
    → Settled (tell_partners kind u owner k rows)
unfolding tell_partners
tell_partners-Settled kind u owner k rows =
    Settled-bind _ _ (Settled-gets (λ d. d))
      λ db. Settled-for_each _ (λ s. Settled-when _ _ (Settled-emit kind u _ k)) rows

suspend-Settled : (k : ℕ) → Settled (suspend_discounts_for_package k)
unfolding suspend_discounts_for_package
suspend-Settled k = Settled-modify _

pub activate_package-Harmless : (u k : ℕ) (db : Db) → Harmless (activate_package u k) db
unfolding activate_package
activate_package-Harmless u k db =
    Harmless-read (λ d. d) _ db
      (Harmless-lookup (provider_of_user db u) _ _ db λ p.
        Harmless-lookup (find_first (owned_package p.id k) db.packages) _ _ db λ owned.
          Harmless-check _ _ _ db (
            Harmless-refusal _ _ _ db (
              Harmless-write _ _ db (
                Settled-then _ _ (suspend-Settled k) (
                  Settled-bind _ _ (Settled-gets (λ d. d))
                    λ after. tell_partners-Settled NoticeKind.package_activated u p.id k _)))))

answer_join_request-Harmless :
    (status : PackageServiceStatus) (kind : NoticeKind) (u k : ℕ) (db : Db)
    → Harmless (answer_join_request status kind u k) db
unfolding answer_join_request
answer_join_request-Harmless status kind u k db =
    Harmless-read (λ d. d) _ db
      (Harmless-lookup (provider_of_user db u) _ _ db λ p.
        Harmless-lookup (find_first (is_join_request k p.id) db.package_services) _ _ db
          λ row. Harmless-write _ _ db (Settled-emit kind u _ k))

pub accept_join_request-Harmless : (u k : ℕ) (db : Db) → Harmless (accept_join_request u k) db
unfolding accept_join_request
accept_join_request-Harmless u k db = answer_join_request-Harmless _ _ u k db

pub reject_join_request-Harmless : (u k : ℕ) (db : Db) → Harmless (reject_join_request u k) db
unfolding reject_join_request
reject_join_request-Harmless u k db = answer_join_request-Harmless _ _ u k db

cancel_owned_package-Harmless :
    (u provider_id : ℕ) (owned : Package) (db : Db)
    → Harmless (cancel_owned_package u provider_id owned) db
unfolding cancel_owned_package
cancel_owned_package-Harmless u provider_id owned db =
    Harmless-read (λ d. d) _ db
      (Harmless-refusal _ _ _ db (
        Harmless-refusal _ _ _ db (
          Harmless-then_transaction _ _ db
            (tell_partners-Settled NoticeKind.package_cancelled u provider_id owned.id _))))

leave_partnership-Harmless :
    (u : ℕ) (provider : Provider) (left : Package) (db : Db)
    → Harmless (leave_partnership u provider left) db
unfolding leave_partnership
leave_partnership-Harmless u provider left db =
    Harmless-read (λ d. d) _ db
      (Harmless-lookup (find_first (is_partner left.id provider.id) db.package_services) _ _ db
        λ row. Harmless-refusal _ _ _ db (
          Harmless-write _ _ db (
            Settled-then _ _ (Settled-emit NoticeKind.package_partner_left u _ left.id) (
              Settled-bind _ _ (Settled-gets (λ d. d))
                λ after. Settled-when _ _ (Settled-modify _)))))

pub leave_package-Harmless : (u k : ℕ) (db : Db) → Harmless (leave_package u k) db
unfolding leave_package
leave_package-Harmless u k db =
    Harmless-read (λ d. d) _ db
      (Harmless-lookup (provider_of_user db u) _ _ db λ p.
        Harmless-lookup (package_by_id db k) _ _ db λ left.
          elim (Bool-cases (left.provider_id == p.id)) [
            | inl h ↦ rw h (cancel_owned_package-Harmless u p.id left db)
            | inr h ↦ rw h (leave_partnership-Harmless u p left db)
          ])

expire_join_request-Settled : (s : PackageService) → Settled (expire_join_request s)
unfolding expire_join_request
expire_join_request-Settled s = Settled-bind _ _ (Settled-gets (λ d. d)) λ db.
    Settled-then _ _ (Settled-modify _) (
      Settled-then _ _ (Settled-emit NoticeKind.package_join_expired _ _ s.package_id)
        (Settled-emit NoticeKind.package_join_expired _ _ s.package_id))

pub expire_pending_join_requests-Settled : (now : ℕ) → Settled (expire_pending_join_requests now)
unfolding expire_pending_join_requests
expire_pending_join_requests-Settled now =
    Settled-bind _ _ (Settled-gets _) λ stale. Settled-for_each _ expire_join_request-Settled stale
