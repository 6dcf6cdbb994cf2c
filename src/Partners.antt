-- ===== src/Partners.antt =====
-- src/modules/packages/packages.service.ts: the partners of a package, their requests to join and their
-- leaving, the activation and the cancellation of the package itself; and the job of
-- src/modules/packages/packages-cron.service.ts that ends old requests.
pub mod Lawful
use eventy_backend.Base.{
  ℕ, ◌-◌, Bool, not, ◌&&◌, Option, none, some, List, [], ◌∷◌, ◌==◌, nat_eq, includes, is_some,
  length, if◌then◌else◌, any, keep, leb, ltb,
}
use eventy_backend.Model.{
  BookingStatus, booking_status_eq, PackageStatus, package_status_eq, PackageServiceStatus,
  package_service_status_eq, PackageBookingStatus, package_booking_status_eq, Db, Booking, Package,
  PackageService, PackageBooking, Provider, NoticeKind, Action, HttpError, ◌>>=◌, ◌>>◌, pure, gets,
  or_raise, raise_if, raise_unless, modify, when, for_each, emit, transaction, update_where,
  find_first, provider_of_user, provider_user, hours_ms,
}
use eventy_backend.Packages.{package_by_id, owner_user}
use eventy_backend.PackageBookings.Expiry.{system_actor}
use eventy_backend.Discounts.{suspend_discounts_for_package}

abbrev pub join_request_timeout_hours : ℕ
join_request_timeout_hours = 24

-- `getOwnedPackageOrThrow`, for the provider that was resolved
abbrev pub owned_package : ℕ → ℕ → Package → Bool
owned_package provider_id package_id p = p.id == package_id && p.provider_id == provider_id

abbrev pub set_package : ℕ → PackageStatus → Db → Db
set_package k status db = record db {
  packages = update_where (λ p. p.id == k) (λ p. record p { status = status }) db.packages;
}

-- The services of a package that are ACTIVE.
abbrev pub is_active_in : ℕ → PackageService → Bool
is_active_in package_id s = s.package_id == package_id && s.status == PackageServiceStatus.active

abbrev pub active_services : Db → ℕ → List PackageService
active_services db package_id = keep (is_active_in package_id) db.package_services

-- Every ACTIVE partner but the owner is told.
unfoldable pub tell_partners : NoticeKind → ℕ → ℕ → ℕ → List PackageService → Action (Unit {0})
tell_partners kind user_id owner_id package_id rows = do
  db ← gets (λ d. d)
  for_each rows (λ s.
      when (not (s.provider_id == owner_id))
        (emit kind user_id (provider_user db s.provider_id) package_id))

unfoldable pub activate_package : ℕ → ℕ → Action (Unit {0})
activate_package user_id package_id = do
  db ← gets (λ d. d)
  provider ← or_raise (provider_of_user db user_id) (HttpError.not_found "Provider not found")
  owned ←
      or_raise (find_first (owned_package provider.id package_id) db.packages)
        (HttpError.not_found "Package not found")
  raise_unless (owned.status == PackageStatus.draft)
      (HttpError.bad_request "Only DRAFT packages can be activated")
  raise_if (ltb (length (active_services db package_id)) 2)
      (HttpError.bad_request "A package needs at least 2 active services before activation")
  modify (set_package package_id PackageStatus.active)
  suspend_discounts_for_package package_id
  after ← gets (λ d. d)
  tell_partners NoticeKind.package_activated user_id provider.id package_id
      (active_services after package_id)

abbrev pub is_join_request : ℕ → ℕ → PackageService → Bool
is_join_request package_id provider_id s =
    s.package_id == package_id
    && (s.provider_id == provider_id && s.status == PackageServiceStatus.pending_provider_approval)

abbrev pub set_partner : ℕ → PackageServiceStatus → Db → Db
set_partner k status db = record db {
  package_services =
      update_where (λ s. s.id == k) (λ s. record s { status = status }) db.package_services;
}

-- The answer to a request to join.
unfoldable pub answer_join_request : PackageServiceStatus → NoticeKind → ℕ → ℕ → Action (Unit {0})
answer_join_request status kind user_id package_id = do
  db ← gets (λ d. d)
  provider ← or_raise (provider_of_user db user_id) (HttpError.not_found "Provider not found")
  row ←
      or_raise (find_first (is_join_request package_id provider.id) db.package_services)
        (HttpError.not_found "Join request not found or already resolved")
  modify (set_partner row.id status)
  emit kind user_id (owner_user db (package_by_id db package_id)) package_id

unfoldable pub accept_join_request : ℕ → ℕ → Action (Unit {0})
accept_join_request =
    answer_join_request PackageServiceStatus.active NoticeKind.package_join_accepted

unfoldable pub reject_join_request : ℕ → ℕ → Action (Unit {0})
reject_join_request =
    answer_join_request PackageServiceStatus.rejected NoticeKind.package_join_rejected

abbrev pub active_package_booking_statuses : List PackageBookingStatus
active_package_booking_statuses =
    PackageBookingStatus.pending ∷ PackageBookingStatus.confirmed
    ∷ PackageBookingStatus.pending_payment ∷ PackageBookingStatus.in_progress ∷ []

abbrev pub is_active_booking_of : ℕ → PackageBooking → Bool
is_active_booking_of package_id p =
    p.package_id == package_id && includes active_package_booking_statuses p.status

abbrev pub is_open_partner : ℕ → PackageService → Bool
is_open_partner package_id s =
    s.package_id == package_id
    && includes (PackageServiceStatus.active ∷ PackageServiceStatus.pending_provider_approval ∷ [])
        s.status

unfoldable pub cancel_owned_package : ℕ → ℕ → Package → Action (Unit {0})
cancel_owned_package user_id provider_id owned = do
  db ← gets (λ d. d)
  raise_if (owned.status == PackageStatus.cancelled)
      (HttpError.bad_request "Package is already cancelled")
  raise_if (any (is_active_booking_of owned.id) db.package_bookings)
      (HttpError.bad_request "Cannot cancel a package that has active bookings")
  transaction (do
    modify (λ d. record d {
      package_services =
          update_where (is_open_partner owned.id)
            (λ s. record s { status = PackageServiceStatus.rejected }) d.package_services;
    })
    modify (set_package owned.id PackageStatus.cancelled))
  tell_partners NoticeKind.package_cancelled user_id provider_id owned.id
      (active_services db owned.id)

abbrev pub is_partner : ℕ → ℕ → PackageService → Bool
is_partner package_id provider_id s =
    s.package_id == package_id
    && (s.provider_id == provider_id && s.status == PackageServiceStatus.active)

-- A booking of the partner's service that came with a package and is under way.
abbrev pub is_engagement : ℕ → Booking → Bool
is_engagement service_id b =
    b.service_id == service_id
    && (is_some b.package_event_booking_id
        && includes (BookingStatus.confirmed ∷ BookingStatus.in_progress ∷ []) b.status)

unfoldable pub leave_partnership : ℕ → Provider → Package → Action (Unit {0})
leave_partnership user_id provider left = do
  db ← gets (λ d. d)
  membership ←
      or_raise (find_first (is_partner left.id provider.id) db.package_services)
        (HttpError.not_found "You are not an active partner in this package")
  raise_if (any (is_engagement membership.service_id) db.bookings)
      (HttpError.bad_request "Cannot leave while you have an active package booking engagement")
  modify (set_partner membership.id PackageServiceStatus.rejected)
  emit NoticeKind.package_partner_left user_id (owner_user db (some left)) left.id
  after ← gets (λ d. d)
  when (ltb (length (active_services after left.id)) 2 && left.status == PackageStatus.active)
      (modify (set_package left.id PackageStatus.draft))

unfoldable pub leave_package : ℕ → ℕ → Action (Unit {0})
unfolding cancel_owned_package leave_partnership
leave_package user_id package_id = do
  db ← gets (λ d. d)
  provider ← or_raise (provider_of_user db user_id) (HttpError.not_found "Provider not found")
  left ← or_raise (package_by_id db package_id) (HttpError.not_found "Package not found")
  if left.provider_id == provider.id
      then cancel_owned_package user_id provider.id left
      else leave_partnership user_id provider left

abbrev pub is_old_request : ℕ → PackageService → Bool
is_old_request now s =
    s.status == PackageServiceStatus.pending_provider_approval
    && ltb s.created_at (now - hours_ms join_request_timeout_hours)

-- One round of the job: the owner and the partner are told.
unfoldable pub expire_join_request : PackageService → Action (Unit {0})
expire_join_request s = do
  db ← gets (λ d. d)
  modify (set_partner s.id PackageServiceStatus.rejected)
  emit NoticeKind.package_join_expired system_actor (owner_user db (package_by_id db s.package_id))
      s.package_id
  emit NoticeKind.package_join_expired system_actor (provider_user db s.provider_id) s.package_id

unfoldable pub expire_pending_join_requests : ℕ → Action (Unit {0})
expire_pending_join_requests now = do
  stale ← gets (λ d. keep (is_old_request now) d.package_services)
  for_each stale expire_join_request
