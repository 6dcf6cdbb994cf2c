-- ===== src/Events.antt =====
-- src/modules/event/event.service.ts: cancelling an event and archiving it.
pub mod Lawful
use eventy_backend.Base.{
  ℕ, Bool, true, false, not, ◌&&◌, ◌||◌, Option, none, some, List, [], ◌∷◌, map, String, ◌==◌,
  nat_eq, string_eq, includes, any, keep, if◌then◌else◌,
}
use eventy_backend.Model.{
  BookingStatus, booking_status_eq, EventStatus, event_status_eq, CancelledBy, Db, Booking, Event,
  NoticeKind, Action, HttpError, ◌>>=◌, ◌>>◌, pure, gets, or_raise, raise_unless, raise_if, modify,
  emit, for_each, transaction, update_where, event_by_id, in_event, provider_user,
}
use eventy_backend.Bookings.{is_paid, cancelled_now, set_event_status}

-- A booking that stands in the way of cancelling its event.
unfoldable pub is_blocking : Db → Booking → Bool
is_blocking db b =
    (b.status == BookingStatus.in_progress || b.status == BookingStatus.completed)
    || (b.status == BookingStatus.confirmed && is_paid db b.id)

abbrev pub is_closed : Booking → Bool
is_closed b = b.status == BookingStatus.cancelled || b.status == BookingStatus.rejected

-- The bookings of the event that its cancellation cancels.
unfoldable pub to_cancel : Db → ℕ → List Booking
to_cancel db event_id = keep (λ b. in_event event_id b && not (is_closed b)) db.bookings

-- `reason || 'Event cancelled by customer'`, for a trimmed reason
reason_text : String → String
reason_text reason = if reason == "" then "Event cancelled by customer" else reason

unfoldable pub cancel_event : ℕ → ℕ → ℕ → String → Action (List ℕ)
unfolding reason_text
cancel_event now customer_id event_id reason = do
  db ← gets (λ d. d)
  event ← or_raise (event_by_id db event_id) (HttpError.not_found "Event not found")
  raise_unless (event.customer_id == customer_id)
      (HttpError.forbidden "Access denied — not your event")
  raise_if (event.status == EventStatus.cancelled || event.status == EventStatus.completed)
      (HttpError.bad_request "Event is already closed")
  raise_unless (any (in_event event_id) db.bookings)
      (HttpError.bad_request "This event has no bookings")
  raise_if (any (λ b. in_event event_id b && is_blocking db b) db.bookings)
      (HttpError.bad_request "Cannot cancel event")
  let ids = map (λ b. b.id) (to_cancel db event_id)
  transaction (do
    modify (λ d. record d {
      bookings =
          update_where (λ b. includes ids b.id)
            (cancelled_now now CancelledBy.customer (reason_text reason)) d.bookings;
    })
    modify (set_event_status event_id EventStatus.cancelled))
  for_each (to_cancel db event_id)
      (λ b. emit NoticeKind.booking_cancelled customer_id (provider_user db b.provider_id) b.id)
  pure ids

-- The signed-in user; only an admin may archive the events of others.
pub record User : Type 0 where
  pub sub : ℕ
  pub is_admin : Bool

unfoldable pub set_archived : ℕ → User → ℕ → Bool → Action (Unit {0})
set_archived now user event_id archived = do
  db ← gets (λ d. d)
  event ← or_raise (event_by_id db event_id) (HttpError.not_found "Event not found")
  raise_unless (user.is_admin || event.customer_id == user.sub)
      (HttpError.forbidden "Access denied — not your event")
  raise_unless (event.status == EventStatus.completed || event.status == EventStatus.cancelled)
      (HttpError.bad_request "Only COMPLETED or CANCELLED events can be archived/unarchived")
  modify (λ d. record d {
    events =
        update_where (λ e. e.id == event_id)
          (λ e. record e { archived_at = if archived then some now else none }) d.events;
  })
