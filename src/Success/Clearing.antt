-- ===== src/Success/Clearing.antt =====
-- What a payment that clears does to its booking and the event.
use eventy_backend.Base.{ℕ, ◌≡◌, refl, Option, none, some, nat_eq}
use eventy_backend.Model.{
  Reference, Db, Booking, Payment, booking_by_id, has_id, update_where, run_handler,
}
use eventy_backend.Evolution.Lookups.{find-update_self, find-update_none}
use eventy_backend.Bookings.{progress_found, progress_booking_and_event}
use eventy_backend.Payments.{
  payment_by_id, paid_with, without_deadline, progress_paid, announce_paid, settle_booking,
  mark_paid,
}

-- When the payment of a booking that belongs to an event, and to no package, clears, and no booking has
-- the id of that event, the bookings change in the deadline of that booking at most, and no event
-- changes.
pub mark_paid_lem :
    (now j k event_id : ℕ) (reference : Option Reference) (p : Payment) (b : Booking) (db : Db)
    → payment_by_id db j ≡ some p
    → p.booking_id ≡ some k
    → booking_by_id db k ≡ some b
    → b.package_event_booking_id ≡ none
    → b.event_id ≡ some event_id
    → booking_by_id db event_id ≡ none
    → ((mark_paid now j reference db).0.bookings
        ≡ update_where (has_id k) without_deadline db.bookings)
      × ((mark_paid now j reference db).0.events ≡ db.events)
unfolding mark_paid settle_booking announce_paid progress_paid progress_booking_and_event
    progress_found run_handler
mark_paid_lem now j k event_id reference p b db paid own booked alone at_event free =
    let paid2 =
      find-update_self (λ x. x.id) (paid_with now reference) j (λ x. refl) db.payments p paid in
    let booked2 =
      find-update_self (λ x. x.id) without_deadline k (λ x. refl) db.bookings b booked in
    let free2 =
      find-update_none (λ x. x.id) without_deadline event_id k (λ x. refl) db.bookings free in
    rw (paid2, own, booked2, alone, at_event, free2) (refl, refl)
