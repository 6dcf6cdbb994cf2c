-- ===== src/Bookings.antt =====
-- src/modules/bookings/bookings.service.ts: what the customer does with a quote, and how a payment
-- moves a booking and its event on.
pub mod Lawful
pub mod Bulk
use eventy_backend.Base.{
  ℕ, suc, ◌+◌, Bool, true, false, not, ◌&&◌, ◌||◌, Option, none, some, List, [], ◌∷◌, ◌++◌, map,
  String, ◌==◌, nat_eq, includes, is_some, if◌then◌else◌, all, any, keep,
}
use eventy_backend.Model.{
  BookingStatus, booking_status_eq, EventStatus, event_status_eq, PaymentStatus, payment_status_eq,
  CancelledBy, Db, Booking, Event, Payment, NoticeKind, Action, HttpError, ◌>>=◌, ◌>>◌, pure, gets,
  raise, or_raise, raise_unless, modify, when, emit, transaction, update_where, booking_by_id,
  payment_of_booking, event_by_id, event_of, find_first, has_id, in_event, hours_ms, provider_user,
}
use eventy_backend.Deliveries.{create_if_required}

abbrev pub pending_timeout_hours : ℕ
pending_timeout_hours = 24

abbrev pub quote_sent_timeout_hours : ℕ
quote_sent_timeout_hours = 24

abbrev pub confirmed_unpaid_timeout_hours : ℕ
confirmed_unpaid_timeout_hours = 48

abbrev pub terminal_statuses : List BookingStatus
terminal_statuses = BookingStatus.completed ∷ BookingStatus.cancelled ∷ BookingStatus.rejected ∷ []

abbrev pub pending_statuses : List BookingStatus
pending_statuses = BookingStatus.pending ∷ BookingStatus.quote_sent ∷ []

has_status : PaymentStatus → Option Payment → Bool
has_status s none = false
has_status s (some p) = p.status == s

unfoldable pub is_paid : Db → ℕ → Bool
unfolding has_status
is_paid db booking_id = has_status PaymentStatus.paid (payment_of_booking db booking_id)

-- A CONFIRMED booking is settled once it is paid, and one that is under way or final at once.
unfoldable pub is_settled : Db → Booking → Bool
is_settled db b =
    if b.status == BookingStatus.confirmed
    then is_paid db b.id
    else includes terminal_statuses b.status || b.status == BookingStatus.in_progress

abbrev pub is_empty : {A : Type 0} → List A → Bool
is_empty [] = true
is_empty (_ ∷ _) = false

-- The booking is under way: `{ status: 'IN_PROGRESS', acceptedAt: new Date() }`.
abbrev pub started : ℕ → Booking → Booking
started now b = record b { status = BookingStatus.in_progress; accepted_at = some now }

abbrev pub set_event_status : ℕ → EventStatus → Db → Db
set_event_status event_id status db = record db {
  events = update_where (λ e. e.id == event_id) (λ e. record e { status = status }) db.events;
}

-- The ids of the event's bookings that are CONFIRMED and paid.
unfoldable pub to_advance : Db → ℕ → List ℕ
to_advance db event_id =
    map (λ b. b.id)
      (keep (λ b. in_event event_id b && (b.status == BookingStatus.confirmed && is_settled db b))
        db.bookings)

unfoldable pub try_progress_event : ℕ → ℕ → Action (Unit {0})
try_progress_event now event_id = do
  db ← gets (λ d. d)
  let bookings = keep (in_event event_id) db.bookings
  let ids = to_advance db event_id
  when (not (is_empty bookings) && (all (is_settled db) bookings && not (is_empty ids))) (
      transaction (do
        modify (λ d. record d {
          bookings = update_where (λ b. includes ids b.id) (started now) d.bookings;
        })
        modify (set_event_status event_id EventStatus.in_progress)))

-- The booking that a customer may decide on.
abbrev pub awaits_customer : ℕ → ℕ → Booking → Bool
awaits_customer customer_id booking_id b =
    b.id == booking_id && (b.customer_id == customer_id && b.status == BookingStatus.quote_sent)

unfoldable pub progress_event_of : ℕ → Option ℕ → Action (Unit {0})
progress_event_of now none = pure tt
progress_event_of now (some event_id) = try_progress_event now event_id

abbrev pub confirmed_until : ℕ → Booking → Booking
confirmed_until deadline b = record b {
  status = BookingStatus.confirmed;
  cancellation_deadline = some deadline;
}

status_or_confirmed : Option Booking → BookingStatus
status_or_confirmed none = BookingStatus.confirmed
status_or_confirmed (some b) = b.status

unfoldable pub confirm_quote : ℕ → ℕ → ℕ → Action BookingStatus
unfolding progress_event_of status_or_confirmed
confirm_quote now customer_id booking_id = do
  db ← gets (λ d. d)
  booking ←
      or_raise (find_first (awaits_customer customer_id booking_id) db.bookings)
        (HttpError.not_found "Booking not found or not awaiting confirmation")
  modify (λ d. record d {
    bookings =
        update_where (has_id booking_id)
          (confirmed_until (now + hours_ms confirmed_unpaid_timeout_hours)) d.bookings;
  })
  create_if_required booking_id
  progress_event_of now booking.event_id
  updated ← gets (λ d. booking_by_id d booking_id)
  or_raise (event_of db booking.event_id) HttpError.type_error
  emit NoticeKind.booking_accepted customer_id (provider_user db booking.provider_id) booking_id
  pure (status_or_confirmed updated)

abbrev pub cancelled_now : ℕ → CancelledBy → String → Booking → Booking
cancelled_now now by reason b = record b {
  status = BookingStatus.cancelled;
  cancelled_at = some now;
  cancelled_by = some by;
  cancellation_reason = some reason;
}

-- What the rejection of one quote makes of the event; `none` leaves it alone.
unfoldable pub status_after_rejection : List Booking → Option EventStatus
status_after_rejection siblings =
    if all (λ s. includes terminal_statuses s.status) siblings
    then some EventStatus.cancelled
    else (if any (λ s. includes pending_statuses s.status) siblings
        then some EventStatus.draft
        else none)

unfoldable pub set_event_status_if : ℕ → Option EventStatus → Action (Unit {0})
set_event_status_if event_id none = pure tt
set_event_status_if event_id (some s) = modify (set_event_status event_id s)

event_is : EventStatus → Option Event → Bool
event_is s none = false
event_is s (some e) = e.status == s

unfoldable pub reject_quote : ℕ → ℕ → ℕ → Action (Unit {0})
unfolding set_event_status_if event_is
reject_quote now customer_id booking_id = do
  db ← gets (λ d. d)
  booking ←
      or_raise (find_first (awaits_customer customer_id booking_id) db.bookings)
        (HttpError.not_found "Booking not found or not in QUOTE_SENT status")
  event ←
      or_raise (event_of db booking.event_id)
        (HttpError.bad_request "Booking is not associated with an event")
  let siblings = keep (λ b. in_event event.id b && not (b.id == booking_id)) db.bookings
  transaction (do
    modify (λ d. record d {
      bookings =
          update_where (has_id booking_id)
            (cancelled_now now CancelledBy.customer "Customer rejected the quote") d.bookings;
    })
    set_event_status_if event.id (status_after_rejection siblings))
  after ← gets (λ d. d)
  emit NoticeKind.booking_rejected customer_id (provider_user db booking.provider_id) booking_id
  when (event_is EventStatus.cancelled (event_by_id after event.id))
      (emit NoticeKind.event_cancelled customer_id customer_id event.id)

unfoldable pub progress_found : ℕ → ℕ → Option Booking → Option Event → Action (Unit {0})
progress_found now booking_id none event = pure tt
progress_found now booking_id (some b) none = pure tt
progress_found now booking_id (some b) (some e) = when (b.status == BookingStatus.confirmed) (do
  transaction (do
    modify (λ d. record d { bookings = update_where (has_id booking_id) (started now) d.bookings })
    when (e.status == EventStatus.draft) (modify (set_event_status e.id EventStatus.in_progress)))
  db ← gets (λ d. d)
  emit NoticeKind.booking_accepted b.customer_id (provider_user db b.provider_id) b.id)

unfoldable pub progress_booking_and_event : ℕ → ℕ → ℕ → Action (Unit {0})
unfolding progress_found
progress_booking_and_event now booking_id event_id = do
  db ← gets (λ d. d)
  progress_found now booking_id (booking_by_id db booking_id) (event_by_id db event_id)
