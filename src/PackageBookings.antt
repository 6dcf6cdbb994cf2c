-- ===== src/PackageBookings.antt =====
-- src/modules/packages/packages.service.ts: the life of a booked package, from the owner's answer over
-- the customer's payment to its completion or its end.
pub mod Lawful
pub mod Paying
pub mod Expiry
use eventy_backend.Base.{
  ℕ, suc, ◌+◌, Bool, not, ◌&&◌, ◌||◌, Option, none, some, List, [], ◌∷◌, ◌++◌, String, ◌==◌, nat_eq,
  includes, is_some,
}
use eventy_backend.Model.{
  BookingStatus, booking_status_eq, EventStatus, PaymentMethod, PaymentStatus, payment_status_eq,
  PackageBookingStatus, package_booking_status_eq, CancelledBy, Db, Booking, Payment,
  PackageBooking, NoticeKind, Action, HttpError, ◌>>=◌, ◌>>◌, pure, gets, or_raise, raise_if,
  raise_unless, modify, when, emit, transaction, update_where, or_default, package_booking_by_id,
  provider_of_user, hours_ms,
}
use eventy_backend.Bookings.{cancelled_now, set_event_status}
use eventy_backend.Cleanup.{finished}
use eventy_backend.Packages.{of_package, package_payment, package_by_id}

abbrev pub package_payment_timeout_hours : ℕ
package_payment_timeout_hours = 24

abbrev pub set_package_booking : ℕ → (PackageBooking → PackageBooking) → Db → Db
set_package_booking k f db = record db {
  package_bookings = update_where (λ p. p.id == k) f db.package_bookings;
}

abbrev pub with_package_status : PackageBookingStatus → PackageBooking → PackageBooking
with_package_status s p = record p { status = s }

-- `tx.booking.updateMany({ where: { packageEventBookingId, status: { in: statuses } } })`
abbrev pub is_child_in : ℕ → List BookingStatus → Booking → Bool
is_child_in k statuses b = of_package k b && includes statuses b.status

abbrev pub update_children : ℕ → List BookingStatus → (Booking → Booking) → Db → Db
update_children k statuses f db = record db {
  bookings = update_where (is_child_in k statuses) f db.bookings;
}

-- `getPackageEventBookingOrThrow` with the provider's or with the customer's id
unfoldable pub owned_package_booking : ℕ → ℕ → Action PackageBooking
owned_package_booking provider_id k = do
  db ← gets (λ d. d)
  pb ← or_raise (package_booking_by_id db k) (HttpError.not_found "Package booking not found")
  owned ← or_raise (package_by_id db pb.package_id) HttpError.type_error
  raise_unless (owned.provider_id == provider_id) (HttpError.forbidden "Access denied")
  pure pb

unfoldable pub own_package_booking : ℕ → ℕ → Action PackageBooking
own_package_booking customer_id k = do
  db ← gets (λ d. d)
  pb ← or_raise (package_booking_by_id db k) (HttpError.not_found "Package booking not found")
  raise_unless (pb.customer_id == customer_id) (HttpError.forbidden "Access denied")
  pure pb

-- The payment that the acceptance opens; its method is a placeholder.
unfoldable pub opened_payment : ℕ → PackageBooking → Payment
opened_payment id pb = record {
  id = id;
  booking_id = none;
  package_event_booking_id = some pb.id;
  payer_id = pb.customer_id;
  amount = pb.total_amount;
  subtotal_amount = pb.total_amount;
  method = PaymentMethod.cash;
  status = PaymentStatus.pending;
  discount_id = none;
  discount_amount = none;
  provider_reference = none;
  paid_at = none;
}

-- The column `packageEventBookingId` of the payments is unique.
unfoldable pub open_payment : PackageBooking → Action (Unit {0})
unfolding opened_payment
open_payment pb = do
  db ← gets (λ d. d)
  raise_if (is_some (package_payment db pb.id)) HttpError.unique_violation
  modify (λ d. record d {
    payments = d.payments ++ opened_payment d.next_id pb ∷ [];
    next_id = suc d.next_id;
  })

abbrev pub awaiting_payment : ℕ → PackageBooking → PackageBooking
awaiting_payment deadline p = record p {
  status = PackageBookingStatus.pending_payment;
  payment_expires_at = some deadline;
}

abbrev pub confirmed_with_package : Booking → Booking
confirmed_with_package b = record b { status = BookingStatus.confirmed }

unfoldable pub accept_package_booking : ℕ → ℕ → ℕ → Action (Unit {0})
accept_package_booking now user_id k = do
  db ← gets (λ d. d)
  provider ← or_raise (provider_of_user db user_id) (HttpError.not_found "Provider not found")
  pb ← owned_package_booking provider.id k
  raise_unless (pb.status == PackageBookingStatus.pending)
      (HttpError.bad_request "Package booking cannot be accepted")
  transaction (do
    modify (set_package_booking k (awaiting_payment (now + hours_ms package_payment_timeout_hours)))
    modify (update_children k (BookingStatus.pending ∷ []) confirmed_with_package)
    open_payment pb)
  emit NoticeKind.package_booking_accepted user_id pb.customer_id k

abbrev pub rejectable_statuses : List PackageBookingStatus
rejectable_statuses =
    PackageBookingStatus.pending ∷ PackageBookingStatus.confirmed
    ∷ PackageBookingStatus.pending_payment ∷ []

abbrev pub open_statuses : List BookingStatus
open_statuses = BookingStatus.pending ∷ BookingStatus.confirmed ∷ BookingStatus.in_progress ∷ []

unfoldable pub reject_package_booking : ℕ → ℕ → ℕ → Option String → Action (Unit {0})
reject_package_booking now user_id k reason = do
  db ← gets (λ d. d)
  provider ← or_raise (provider_of_user db user_id) (HttpError.not_found "Provider not found")
  pb ← owned_package_booking provider.id k
  raise_unless (includes rejectable_statuses pb.status)
      (HttpError.bad_request "Package booking cannot be rejected")
  transaction (do
    modify (set_package_booking k (with_package_status PackageBookingStatus.rejected))
    modify (
        update_children k open_statuses (
          cancelled_now now CancelledBy.provider
            (or_default reason "Package booking rejected by provider"))))
  emit NoticeKind.package_booking_rejected user_id pb.customer_id k

unfoldable pub complete_event_of : Option ℕ → Action (Unit {0})
complete_event_of none = pure tt
complete_event_of (some event_id) = modify (set_event_status event_id EventStatus.completed)

unfoldable pub complete_package_booking : ℕ → ℕ → ℕ → Action (Unit {0})
unfolding complete_event_of
complete_package_booking now user_id k = do
  db ← gets (λ d. d)
  provider ← or_raise (provider_of_user db user_id) (HttpError.not_found "Provider not found")
  pb ← owned_package_booking provider.id k
  raise_unless (pb.status == PackageBookingStatus.in_progress)
      (HttpError.bad_request "Package booking cannot be completed")
  transaction (do
    modify (set_package_booking k (with_package_status PackageBookingStatus.completed))
    modify (update_children k (BookingStatus.in_progress ∷ []) (finished now))
    complete_event_of pb.event_id)

-- A payment that is not PAID, if there is one.
abbrev pub is_unpaid : Payment → Bool
is_unpaid p = not (p.status == PaymentStatus.paid)

unfoldable pub may_cancel : PackageBooking → Option Payment → Bool
may_cancel pb none =
    pb.status == PackageBookingStatus.pending || pb.status == PackageBookingStatus.pending_payment
may_cancel pb (some p) =
    pb.status == PackageBookingStatus.pending
    || pb.status == PackageBookingStatus.pending_payment && is_unpaid p

abbrev pub cancelled_payment : Payment → Payment
cancelled_payment p = record p { status = PaymentStatus.cancelled }

unfoldable pub cancel_unpaid : Option Payment → Action (Unit {0})
cancel_unpaid none = pure tt
cancel_unpaid (some p) = when (is_unpaid p) (
    modify
      (λ d. record d { payments = update_where (λ x. x.id == p.id) cancelled_payment d.payments }))

unfoldable pub cancel_package_booking : ℕ → ℕ → ℕ → Option String → Action (Unit {0})
unfolding may_cancel cancel_unpaid
cancel_package_booking now user_id k reason = do
  pb ← own_package_booking user_id k
  payment ← gets (λ d. package_payment d k)
  raise_unless (may_cancel pb payment) (HttpError.bad_request "Package booking cannot be cancelled")
  transaction (do
    modify (set_package_booking k (with_package_status PackageBookingStatus.cancelled))
    modify (
        update_children k (BookingStatus.pending ∷ BookingStatus.confirmed ∷ [])
          (cancelled_now now CancelledBy.customer (or_default reason "Cancelled by customer")))
    cancel_unpaid payment)
