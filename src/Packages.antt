-- ===== src/Packages.antt =====
-- src/modules/packages/packages.service.ts: how a payment moves a booked package on.
pub mod Lawful
pub mod Composition
pub mod Creation
use eventy_backend.Base.{
  ℕ, Bool, true, false, not, ◌&&◌, ◌||◌, Option, none, some, List, [], ◌∷◌, map, ◌==◌, nat_eq,
  includes, if◌then◌else◌, all, keep, distinct,
}
use eventy_backend.Model.{
  BookingStatus, booking_status_eq, EventStatus, event_status_eq, PaymentMethod, payment_method_eq,
  PaymentStatus, payment_status_eq, PackageBookingStatus, package_booking_status_eq,
  PackageServiceStatus, package_service_status_eq, Db, Booking, Event, Payment, Package,
  PackageBooking, NoticeKind, Action, HttpError, ◌>>=◌, ◌>>◌, pure, gets, or_raise, raise_unless,
  modify, when, for_each, emit, transaction, update_where, is_id, event_of, find_first,
  package_booking_by_id, provider_of_user, provider_user,
}
use eventy_backend.Bookings.{terminal_statuses, is_paid, is_empty, started, set_event_status}

abbrev pub of_package : ℕ → Booking → Bool
of_package package_booking_id b = is_id b.package_event_booking_id package_booking_id

abbrev pub package_payment : Db → ℕ → Option Payment
package_payment db k = find_first (λ p. is_id p.package_event_booking_id k) db.payments

abbrev pub package_by_id : Db → ℕ → Option Package
package_by_id db k = find_first (λ p. p.id == k) db.packages

-- `getPackagePartnerUserIds`
unfoldable pub package_partner_user_ids : Db → ℕ → List ℕ
package_partner_user_ids db package_id = distinct (
    map (λ s. provider_user db s.provider_id)
      (keep (λ s. s.package_id == package_id && s.status == PackageServiceStatus.active)
        db.package_services))

abbrev set_package_status : ℕ → PackageBookingStatus → Db → Db
set_package_status k status db = record db {
  package_bookings =
      update_where (λ p. p.id == k) (λ p. record p { status = status }) db.package_bookings;
}

unfoldable pub event_in_progress : Option ℕ → Action (Unit {0})
event_in_progress none = pure tt
event_in_progress (some event_id) = modify (set_event_status event_id EventStatus.in_progress)

unfoldable pub progress_package_to_in_progress : ℕ → ℕ → Option ℕ → Action (Unit {0})
unfolding event_in_progress
progress_package_to_in_progress now package_booking_id event_id = transaction (do
  modify (set_package_status package_booking_id PackageBookingStatus.in_progress)
  modify (λ d. record d {
    bookings =
        update_where (λ b. of_package package_booking_id b && b.status == BookingStatus.confirmed)
          (started now) d.bookings;
  })
  event_in_progress event_id)

-- The cash payment that awaits the owner's word.
abbrev awaits_cash : Payment → Bool
awaits_cash p = p.method == PaymentMethod.cash && p.status == PaymentStatus.processing

abbrev pub paid_now : ℕ → Payment → Payment
paid_now now p = record p { status = PaymentStatus.paid; paid_at = some now }

unfoldable pub confirm_package_cash_payment : ℕ → ℕ → ℕ → Action (Unit {0})
confirm_package_cash_payment now user_id package_booking_id = do
  db ← gets (λ d. d)
  provider ← or_raise (provider_of_user db user_id) (HttpError.not_found "Provider not found")
  pb ←
      or_raise (package_booking_by_id db package_booking_id)
        (HttpError.not_found "Package booking not found")
  owned ← or_raise (package_by_id db pb.package_id) HttpError.type_error
  raise_unless (owned.provider_id == provider.id) (HttpError.forbidden "Access denied")
  raise_unless (pb.status == PackageBookingStatus.pending_payment)
      (HttpError.bad_request "Package booking cannot have its payment confirmed")
  payment ←
      or_raise (package_payment db package_booking_id)
        (HttpError.bad_request "No pending cash payment found")
  raise_unless (awaits_cash payment) (HttpError.bad_request "No pending cash payment found")
  modify (λ d. record d {
    payments = update_where (λ p. p.id == payment.id) (paid_now now) d.payments;
  })
  progress_package_to_in_progress now package_booking_id pb.event_id
  for_each (package_partner_user_ids db pb.package_id)
      (λ partner. emit NoticeKind.package_payment_confirmed user_id partner package_booking_id)

-- Paid, final or already under way.
unfoldable pub is_settled_in_package : Db → Booking → Bool
is_settled_in_package db b =
    if b.status == BookingStatus.confirmed
    then is_paid db b.id
    else includes terminal_statuses b.status || b.status == BookingStatus.in_progress

-- The ids of the package's bookings that are CONFIRMED and paid.
unfoldable pub package_to_advance : Db → ℕ → List ℕ
package_to_advance db k =
    map (λ b. b.id)
      (keep (λ b. of_package k b && (b.status == BookingStatus.confirmed && is_paid db b.id))
        db.bookings)

unfoldable pub progress_draft_event : Option Event → Action (Unit {0})
progress_draft_event none = pure tt
progress_draft_event (some e) =
    when (e.status == EventStatus.draft) (modify (set_event_status e.id EventStatus.in_progress))

unfoldable pub owner_user : Db → Option Package → ℕ
owner_user db none = 0
owner_user db (some p) = provider_user db p.provider_id

unfoldable pub progress_package_found : ℕ → Option PackageBooking → Action (Unit {0})
unfolding progress_draft_event
progress_package_found now none = pure tt
progress_package_found now (some pb) = do
  db ← gets (λ d. d)
  let ids = package_to_advance db pb.id
  when
      ((pb.status == PackageBookingStatus.confirmed
          || pb.status == PackageBookingStatus.pending_payment)
        && (all (is_settled_in_package db) (keep (of_package pb.id) db.bookings)
            && not (is_empty ids)))
      (do
        transaction (do
          modify (λ d. record d {
            bookings = update_where (λ b. includes ids b.id) (started now) d.bookings;
          })
          modify (set_package_status pb.id PackageBookingStatus.in_progress)
          progress_draft_event (event_of db pb.event_id))
        emit NoticeKind.package_payment_confirmed pb.customer_id
            (owner_user db (package_by_id db pb.package_id)) pb.id)

unfoldable pub try_progress_package_booking : ℕ → ℕ → Action (Unit {0})
unfolding progress_package_found
try_progress_package_booking now package_booking_id = do
  found ← gets (λ d. package_booking_by_id d package_booking_id)
  progress_package_found now found
