-- ===== src/Cleanup.antt =====
-- The cron jobs: src/modules/bookings/booking-cleanup.service.ts and
-- src/modules/event/event-cleanup.service.ts.
pub mod Lawful
use eventy_backend.Base.{
  ℕ, ◌+◌, ◌-◌, ◌*◌, ◌%◌, Bool, true, false, not, ◌&&◌, ◌||◌, Option, none, some, List, [], ◌∷◌,
  String, ◌==◌, nat_eq, includes, keep, if◌then◌else◌, leb, ltb,
}
use eventy_backend.Model.{
  BookingStatus, booking_status_eq, EventStatus, event_status_eq, CancelledBy, Db, Booking, Event,
  NoticeKind, Action, ◌>>=◌, ◌>>◌, pure, gets, modify, emit, for_each, update_where, in_event,
  has_id, provider_user, day_ms, when,
}
use eventy_backend.Bookings.{is_paid, cancelled_now, set_event_status, pending_statuses}

-- `cancellationDeadline: { lte: new Date() }`, which an empty deadline never meets.
abbrev pub has_passed : ℕ → Option ℕ → Bool
has_passed now none = false
has_passed now (some t) = leb t now

abbrev pub expirable_statuses : List BookingStatus
expirable_statuses = BookingStatus.pending ∷ BookingStatus.quote_sent ∷ BookingStatus.confirmed ∷ []

abbrev pub is_expired : ℕ → Booking → Bool
is_expired now b = includes expirable_statuses b.status && has_passed now b.cancellation_deadline

-- `REASONS[status].provider`, which is also the reason that the row keeps.
unfoldable pub provider_reason : BookingStatus → String
provider_reason BookingStatus.pending = "You did not respond to this booking request in time."
provider_reason BookingStatus.quote_sent = "The customer did not respond to your quote in time."
provider_reason _ = "The customer did not complete the cash payment in time."

-- One round of the loop over the expired bookings.
unfoldable pub expire_booking : ℕ → Booking → Action (Unit {0})
expire_booking now b = do
  db ← gets (λ d. d)
  when (not (b.status == BookingStatus.confirmed && is_paid db b.id)) (do
    modify (λ d. record d {
      bookings =
          update_where (has_id b.id)
            (cancelled_now now CancelledBy.system (provider_reason b.status)) d.bookings;
    })
    emit NoticeKind.booking_cancelled b.customer_id b.customer_id b.id
    emit NoticeKind.booking_cancelled b.customer_id (provider_user db b.provider_id) b.id)

unfoldable pub handle_expired_bookings : ℕ → Action (Unit {0})
handle_expired_bookings now = do
  expired ← gets (λ d. keep (is_expired now) d.bookings)
  for_each expired (expire_booking now)

-- The end of an event, on the day of its date or, if its end hour is below its start hour, on the
-- next one. The server's time zone is UTC.
unfoldable pub event_end : Event → ℕ
event_end e =
    let midnight = e.event_date - e.event_date % day_ms in
    let same_day = midnight + e.event_end_time.hour * 3600000 + e.event_end_time.minute * 60000 in
    if ltb e.event_end_time.hour e.event_start_time.hour then same_day + day_ms else same_day

-- The two `updateMany` of a round, and what they write.
abbrev pub is_undecided : ℕ → Booking → Bool
is_undecided event_id b = in_event event_id b && includes pending_statuses b.status

abbrev pub is_running : ℕ → Booking → Bool
is_running event_id b = in_event event_id b && b.status == BookingStatus.in_progress

abbrev pub finished : ℕ → Booking → Booking
finished now b = record b { status = BookingStatus.completed; completed_at = some now }

unfoldable pub complete_event : ℕ → Event → Action (Unit {0})
complete_event now e = when (leb (event_end e) now) (do
  modify (λ d. record d {
    bookings =
        update_where (is_undecided e.id)
          (cancelled_now now CancelledBy.system "Event date has passed without a final decision")
          d.bookings;
  })
  modify (λ d. record d { bookings = update_where (is_running e.id) (finished now) d.bookings })
  modify (set_event_status e.id EventStatus.completed))

unfoldable pub complete_past_events : ℕ → Action (Unit {0})
complete_past_events now = do
  events ←
      gets (λ d. keep (λ e. e.status == EventStatus.in_progress && leb e.event_date now) d.events)
  for_each events (complete_event now)
