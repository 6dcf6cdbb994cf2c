-- ===== src/PackageBookings/Expiry.antt =====
-- src/modules/packages/packages-cron.service.ts: what the job does with booked packages whose time has
-- come.
pub mod Lawful
use eventy_backend.Base.{
  ℕ, Bool, false, not, ◌&&◌, Option, none, some, List, [], ◌∷◌, ◌==◌, nat_eq, is_some, keep, leb,
  ltb,
}
use eventy_backend.Model.{
  BookingStatus, EventStatus, PaymentStatus, payment_status_eq, PackageBookingStatus,
  package_booking_status_eq, CancelledBy, Event, Payment, PackageBooking, NoticeKind, Action, ◌>>=◌,
  ◌>>◌, pure, gets, modify, when, for_each, emit, transaction, event_of,
}
use eventy_backend.Bookings.{cancelled_now, set_event_status}
use eventy_backend.Cleanup.{event_end, finished}
use eventy_backend.Packages.{package_payment, package_by_id, owner_user}
use eventy_backend.PackageBookings.{
  set_package_booking, with_package_status, update_children, open_statuses, is_unpaid,
  cancel_unpaid,
}

-- The actor 'SYSTEM', which is the id of no user.
abbrev pub system_actor : ℕ
system_actor = 0

-- `{ lt: new Date() }`, which an empty deadline never meets.
abbrev pub has_lapsed : ℕ → Option ℕ → Bool
has_lapsed now none = false
has_lapsed now (some t) = ltb t now

unfoldable pub complete_finished : ℕ → PackageBooking → Option Event → Action (Unit {0})
complete_finished now pb none = pure tt
complete_finished now pb (some e) = when (leb (event_end e) now) (
    transaction (do
      modify (set_package_booking pb.id (with_package_status PackageBookingStatus.completed))
      modify (update_children pb.id (BookingStatus.in_progress ∷ []) (finished now))
      modify (set_event_status e.id EventStatus.completed)))

unfoldable pub complete_finished_package_bookings : ℕ → Action (Unit {0})
unfolding complete_finished
complete_finished_package_bookings now = do
  db ← gets (λ d. d)
  for_each
      (keep (λ p. p.status == PackageBookingStatus.in_progress && is_some p.event_id)
        db.package_bookings)
      (λ p. complete_finished now p (event_of db p.event_id))

-- The customer and the owner are told.
unfoldable pub tell_both : NoticeKind → PackageBooking → Action (Unit {0})
tell_both kind pb = do
  db ← gets (λ d. d)
  emit kind system_actor pb.customer_id pb.id
  emit kind system_actor (owner_user db (package_by_id db pb.package_id)) pb.id

unfoldable pub expire_pending : ℕ → PackageBooking → Action (Unit {0})
unfolding tell_both
expire_pending now pb = do
  transaction (do
    modify (set_package_booking pb.id (with_package_status PackageBookingStatus.expired))
    modify (
        update_children pb.id (BookingStatus.pending ∷ BookingStatus.confirmed ∷ [])
          (cancelled_now now CancelledBy.system "Package booking request expired (48h timeout)")))
  tell_both NoticeKind.package_booking_expired pb

abbrev pub is_stale_request : ℕ → PackageBooking → Bool
is_stale_request now p =
    p.status == PackageBookingStatus.pending && has_lapsed now p.pending_expires_at

unfoldable pub expire_pending_package_bookings : ℕ → Action (Unit {0})
expire_pending_package_bookings now = do
  stale ← gets (λ d. keep (is_stale_request now) d.package_bookings)
  for_each stale (expire_pending now)

-- Whether the payment that was read with the booking is PAID.
abbrev pub is_paid_payment : Option Payment → Bool
is_paid_payment none = false
is_paid_payment (some p) = p.status == PaymentStatus.paid

unfoldable pub expire_unpaid : ℕ → PackageBooking → Option Payment → Action (Unit {0})
expire_unpaid now pb payment = when (not (is_paid_payment payment)) (do
  transaction (do
    modify (set_package_booking pb.id (with_package_status PackageBookingStatus.cancelled))
    modify (
        update_children pb.id open_statuses (
          cancelled_now now CancelledBy.system
            "Package booking expired before payment (24h timeout)"))
    cancel_unpaid payment)
  tell_both NoticeKind.package_payment_expired pb)

abbrev pub is_overdue : ℕ → PackageBooking → Bool
is_overdue now p =
    p.status == PackageBookingStatus.pending_payment && has_lapsed now p.payment_expires_at

unfoldable pub expire_unpaid_package_bookings : ℕ → Action (Unit {0})
expire_unpaid_package_bookings now = do
  db ← gets (λ d. d)
  for_each (keep (is_overdue now) db.package_bookings)
      (λ p. expire_unpaid now p (package_payment db p.id))
