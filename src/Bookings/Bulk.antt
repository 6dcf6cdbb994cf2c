-- ===== src/Bookings/Bulk.antt =====
-- src/modules/bookings/bookings.service.ts: the customer's decision on several quotes of one event at
-- once, with its request in src/modules/bookings/dto/bulk-quote-decision.dto.ts.
mod Rounds
pub mod Lawful
use eventy_backend.Base.{
  ℕ, suc, ◌+◌, ◌*◌, Bool, true, false, not, ◌&&◌, ◌||◌, Option, none, some, List, [], ◌∷◌, ◌++◌,
  String, string_eq, ◌==◌, nat_eq, includes, is_some, if◌then◌else◌, all, any, keep, length, leb,
  distinct,
}
use eventy_backend.Model.{
  BookingStatus, booking_status_eq, EventStatus, PaymentMethod, payment_method_eq, PaymentStatus,
  Reference, CancelledBy, Db, Booking, Event, Payment, NoticeKind, Action, HttpError, ◌>>=◌, ◌>>◌,
  pure, gets, or_raise, raise_if, raise_unless, modify, when, for_each, emit, transaction,
  update_where, or_default, payment_of_booking, event_by_id, has_id, in_event, hours_ms, day_ms,
  provider_user,
}
use eventy_backend.Deliveries.{create_for}
use eventy_backend.Bookings.{
  confirmed_unpaid_timeout_hours, pending_statuses, is_empty, set_event_status, cancelled_now,
  progress_booking_and_event,
}

-- The reason is trimmed, and empty if there is none.
pub record BulkQuoteDecision : Type 0 where
  pub event_id : ℕ
  pub accepted_booking_ids : List ℕ
  pub rejected_booking_ids : List ℕ
  pub method : Option PaymentMethod
  pub rejection_reason : String

-- What the validators of the request ask for.
unfoldable pub check_decision : BulkQuoteDecision → Action (Unit {0})
check_decision dto = do
  raise_unless (not (is_empty dto.accepted_booking_ids && is_empty dto.rejected_booking_ids))
      (HttpError.bad_request "At least one booking ID must be provided")
  raise_unless (is_empty dto.accepted_booking_ids || is_some dto.method)
      (HttpError.bad_request "method is required when accepting at least one booking")

abbrev pub is_transfer : PaymentMethod → Bool
is_transfer method = method == PaymentMethod.bank_transfer

-- A transfer is taken as paid at once, and so there is no deadline.
unfoldable pub accepted : ℕ → PaymentMethod → Booking → Booking
accepted now method b = record b {
  status = BookingStatus.confirmed;
  cancellation_deadline =
      if is_transfer method then none else some (now + hours_ms confirmed_unpaid_timeout_hours);
}

unfoldable pub bulk_payment : ℕ → ℕ → ℕ → PaymentMethod → Booking → Payment
bulk_payment id now customer_id method b =
    let subtotal = or_default b.final_amount b.total_amount in
    record {
      id = id;
      booking_id = some b.id;
      package_event_booking_id = none;
      payer_id = customer_id;
      amount = subtotal;
      subtotal_amount = subtotal;
      method = method;
      status = if is_transfer method then PaymentStatus.paid else PaymentStatus.processing;
      discount_id = none;
      discount_amount = none;
      provider_reference =
          if is_transfer method then some (Reference.mock_transfer b.id now) else none;
      paid_at = if is_transfer method then some now else none;
    }

-- The column `bookingId` of the payments is unique.
unfoldable pub insert_bulk_payment : ℕ → ℕ → PaymentMethod → Booking → Action (Unit {0})
insert_bulk_payment now customer_id method b = do
  db ← gets (λ d. d)
  raise_if (is_some (payment_of_booking db b.id)) HttpError.unique_violation
  modify (λ d. record d {
    payments = d.payments ++ bulk_payment d.next_id now customer_id method b ∷ [];
    next_id = suc d.next_id;
  })

-- One round of the loop over the accepted bookings. Without a method the insertion throws.
unfoldable pub accept_quote : ℕ → ℕ → Option PaymentMethod → Booking → Action (Unit {0})
accept_quote now customer_id o b = do
  method ← or_raise o HttpError.query_error
  modify (λ d. record d { bookings = update_where (has_id b.id) (accepted now method) d.bookings })
  insert_bulk_payment now customer_id method b
  create_for (some b)

-- `rejectionReason || 'Customer rejected the quote'`, and the column that is written if there is one.
unfoldable pub declined : ℕ → String → Booking → Booking
declined now reason b =
    let row =
      cancelled_now now CancelledBy.customer
        (if reason == "" then "Customer rejected the quote" else reason) b in
    if reason == "" then row else record row { rejection_reason = some reason }

unfoldable pub decline_quote : ℕ → String → Booking → Action (Unit {0})
decline_quote now reason b =
    modify
      (λ d. record d { bookings = update_where (has_id b.id) (declined now reason) d.bookings })

abbrev pub lost_statuses : List BookingStatus
lost_statuses = BookingStatus.cancelled ∷ BookingStatus.rejected ∷ []

-- An event all of whose bookings are CANCELLED or REJECTED is cancelled with them.
unfoldable pub close_event : ℕ → Action Bool
close_event event_id = do
  db ← gets (λ d. d)
  let rows = keep (in_event event_id) db.bookings
  if all (λ b. includes lost_statuses b.status) rows && not (is_empty rows)
      then (do modify (set_event_status event_id EventStatus.cancelled); pure true)
      else pure false

-- What the customer reads.
pub data BulkMessage : Type 0 where
  event_cancelled : BulkMessage
  processed : Bool → Bool → BulkMessage

-- `evaluateEventFinalization`
unfoldable pub is_finalized : Db → ℕ → Bool
is_finalized db event_id =
    let rows = keep (in_event event_id) db.bookings in
    not (is_empty rows) && all (λ b. not (includes pending_statuses b.status)) rows

-- `buildBulkDecisionMessage`: whether all is final, and whether there is time to add bookings.
unfoldable pub bulk_message : ℕ → Db → Event → Bool → BulkMessage
bulk_message now db e cancelled =
    if cancelled
    then BulkMessage.event_cancelled
    else BulkMessage.processed (is_finalized db e.id) (leb (now + 4 * day_ms) e.event_date)

unfoldable pub decide_all :
    ℕ → ℕ → ℕ → BulkQuoteDecision → List Booking → List Booking → Action Bool
decide_all now customer_id event_id dto yeses noes = transaction (do
  for_each yeses (accept_quote now customer_id dto.method)
  for_each noes (decline_quote now dto.rejection_reason)
  close_event event_id)

unfoldable pub progress_if_transfer :
    ℕ → ℕ → Option PaymentMethod → List Booking → Action (Unit {0})
progress_if_transfer now event_id none yeses = pure tt
progress_if_transfer now event_id (some method) yeses =
    when (is_transfer method) (for_each yeses (λ b. progress_booking_and_event now b.id event_id))

-- The bookings of the event that the decision names.
abbrev pub named_in : List ℕ → ℕ → Booking → Bool
named_in ids event_id b = includes ids b.id && in_event event_id b

unfoldable pub bulk_quote_decision : ℕ → ℕ → ℕ → BulkQuoteDecision → Action BulkMessage
unfolding decide_all progress_if_transfer
bulk_quote_decision now customer_id event_id dto = do
  check_decision dto
  raise_unless (dto.event_id == event_id)
      (HttpError.bad_request "eventId in the request body must match the event in the URL")
  let yes_ids = distinct dto.accepted_booking_ids
  let no_ids = distinct dto.rejected_booking_ids
  let ids = distinct (yes_ids ++ no_ids)
  raise_if (any (includes no_ids) yes_ids)
      (HttpError.bad_request "A booking cannot appear in both lists")
  db ← gets (λ d. d)
  event ← or_raise (event_by_id db event_id) (HttpError.not_found "Event not found")
  raise_unless (event.customer_id == customer_id)
      (HttpError.forbidden "Access denied — not your event")
  let bookings = keep (named_in ids event_id) db.bookings
  raise_unless (length bookings == length ids)
      (HttpError.bad_request "Every booking ID must belong to the specified event")
  raise_unless (all (λ b. b.status == BookingStatus.quote_sent) bookings)
      (HttpError.bad_request "Every booking must be in QUOTE_SENT status")
  let yeses = keep (λ b. includes yes_ids b.id) bookings
  let noes = keep (λ b. includes no_ids b.id) bookings
  raise_if (any (λ b. is_some (payment_of_booking db b.id)) yeses)
      (HttpError.bad_request "Payment already exists")
  cancelled ← decide_all now customer_id event_id dto yeses noes
  for_each yeses
      (λ b. emit NoticeKind.booking_accepted customer_id (provider_user db b.provider_id) b.id)
  for_each noes
      (λ b. emit NoticeKind.booking_rejected customer_id (provider_user db b.provider_id) b.id)
  when cancelled (emit NoticeKind.event_cancelled customer_id customer_id event_id)
  progress_if_transfer now event_id dto.method yeses
  after ← gets (λ d. d)
  pure (bulk_message now after event cancelled)
