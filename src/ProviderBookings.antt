-- ===== src/ProviderBookings.antt =====
-- src/modules/bookings/provider-bookings.service.ts: the provider's quote, completion and rejection.
pub mod Lawful
use eventy_backend.Base.{
  ℕ, suc, ◌+◌, ◌*◌, Bool, true, false, not, ◌&&◌, ◌||◌, Option, none, some, List, [], ◌∷◌, map,
  String, ◌==◌, nat_eq, includes, is_some, all, keep, length,
}
use eventy_backend.Model.{
  BookingStatus, booking_status_eq, Db, Booking, BookingItem, NoticeKind, Action, HttpError, ◌>>=◌,
  ◌>>◌, pure, gets, or_raise, raise_unless, raise_if, modify, emit, for_each, transaction,
  update_where, find_first, has_id, hours_ms, provider_of_user, given, event_of,
}
use eventy_backend.Bookings.{quote_sent_timeout_hours}

pub record QuoteItem : Type 0 where
  pub booking_item_id : ℕ
  pub final_unit_price : ℕ

-- `SendQuoteDto`; absent items are an empty list.
pub record SendQuote : Type 0 where
  pub items : List QuoteItem
  pub final_amount : Option ℕ
  pub provider_notes : Option String

-- `findFirst({ where: { id: bookingId, providerId: provider.id } })`
abbrev pub owned_by : ℕ → ℕ → Booking → Bool
owned_by provider_id booking_id b = b.id == booking_id && b.provider_id == provider_id

-- `new Set(ids).size === ids.length`
unfoldable pub no_duplicates : List ℕ → Bool
no_duplicates [] = true
no_duplicates (x ∷ xs) = not (includes xs x) && no_duplicates xs

unfoldable pub items_of : Db → ℕ → List BookingItem
items_of db booking_id = keep (λ i. i.booking_id == booking_id) db.booking_items

-- The checks on the items of a quote, in the source's order.
unfoldable pub check_quote : List BookingItem → SendQuote → Action (Unit {0})
check_quote [] dto =
    raise_unless (is_some dto.final_amount)
      (HttpError.bad_request "finalAmount is required for services without sub-services")
check_quote (i ∷ is) dto = do
  let own = map (λ x. x.id) (i ∷ is)
  let sent = map (λ q. q.booking_item_id) dto.items
  raise_if (length dto.items == 0)
      (HttpError.bad_request "Quote items are required for this service type")
  raise_unless (all (includes own) sent)
      (HttpError.bad_request "BookingItem does not belong to this booking")
  raise_unless (length dto.items == length (i ∷ is))
      (HttpError.bad_request "A quote price must be provided for every booking item")
  raise_unless (no_duplicates sent)
      (HttpError.bad_request "Duplicate booking items are not allowed")

unfoldable pub quantity_of : Option BookingItem → ℕ
quantity_of none = 0
quantity_of (some i) = i.quantity

-- `qi.finalUnitPrice * item.quantity`, for the booking's item that the quote names.
unfoldable pub line_total : List BookingItem → QuoteItem → ℕ
unfolding quantity_of
line_total items q =
    q.final_unit_price * quantity_of (find_first (λ i. i.id == q.booking_item_id) items)

unfoldable pub sum_lines : List BookingItem → List QuoteItem → ℕ
sum_lines items [] = 0
sum_lines items (q ∷ qs) = line_total items q + sum_lines items qs

-- The final amount of a quote; a booking without items takes the amount that the provider gives.
unfoldable pub final_amount_of : List BookingItem → SendQuote → ℕ
final_amount_of [] dto = elim dto.final_amount [ none ↦ 0 | some a ↦ a ]
final_amount_of (i ∷ is) dto = sum_lines (i ∷ is) dto.items

unfoldable pub price_item : List BookingItem → QuoteItem → Action (Unit {0})
price_item items q = modify λ d. record d {
  booking_items =
      update_where (λ i. i.id == q.booking_item_id)
        (λ i. record i {
          final_unit_price = some q.final_unit_price;
          final_total_price = some (line_total items q);
        })
        d.booking_items;
}

-- Only a booking with items has their prices written.
pub quoted_lines : List BookingItem → SendQuote → List QuoteItem
quoted_lines [] dto = []
quoted_lines (i ∷ is) dto = dto.items

abbrev pub quoted : ℕ → ℕ → Option String → Booking → Booking
quoted amount deadline notes b = record b {
  final_amount = some amount;
  provider_notes = given notes b.provider_notes;
  status = BookingStatus.quote_sent;
  cancellation_deadline = some deadline;
}

unfoldable pub send_quote : ℕ → ℕ → ℕ → SendQuote → Action ℕ
unfolding price_item quoted_lines
send_quote now user_id booking_id dto = do
  db ← gets (λ d. d)
  provider ← or_raise (provider_of_user db user_id) (HttpError.not_found "Provider not found")
  booking ←
      or_raise (find_first (owned_by provider.id booking_id) db.bookings)
        (HttpError.not_found "Booking not found")
  raise_unless (booking.status == BookingStatus.pending) (HttpError.bad_request "Cannot send quote")
  let items = items_of db booking_id
  check_quote items dto
  let amount = final_amount_of items dto
  transaction (do
    for_each (quoted_lines items dto) (price_item items)
    modify (λ d. record d {
      bookings =
          update_where (has_id booking_id)
            (quoted amount (now + hours_ms quote_sent_timeout_hours) dto.provider_notes) d.bookings;
    }))
  or_raise (event_of db booking.event_id) HttpError.type_error
  emit NoticeKind.booking_quote_sent user_id booking.customer_id booking_id
  pure amount

abbrev pub completed : ℕ → Booking → Booking
completed now b = record b { status = BookingStatus.completed; completed_at = some now }

unfoldable pub complete_booking : ℕ → ℕ → ℕ → Action (Unit {0})
complete_booking now user_id booking_id = do
  db ← gets (λ d. d)
  provider ← or_raise (provider_of_user db user_id) (HttpError.not_found "Provider not found")
  booking ←
      or_raise (find_first (owned_by provider.id booking_id) db.bookings)
        (HttpError.not_found "Booking not found")
  raise_unless (booking.status == BookingStatus.in_progress)
      (HttpError.bad_request "Booking cannot be completed")
  modify (λ d. record d { bookings = update_where (has_id booking_id) (completed now) d.bookings })
  emit NoticeKind.booking_completed user_id booking.customer_id booking_id

-- The source stamps `completedAt` on a rejection too.
abbrev pub rejected : ℕ → Option String → Booking → Booking
rejected now why b = record b {
  status = BookingStatus.rejected;
  completed_at = some now;
  rejection_reason = given why b.rejection_reason;
}

unfoldable pub reject_booking : ℕ → ℕ → ℕ → Option String → Action (Unit {0})
reject_booking now user_id booking_id why = do
  db ← gets (λ d. d)
  provider ← or_raise (provider_of_user db user_id) (HttpError.not_found "Provider not found")
  booking ←
      or_raise (find_first (owned_by provider.id booking_id) db.bookings)
        (HttpError.not_found "Booking not found")
  raise_unless (booking.status == BookingStatus.pending)
      (HttpError.bad_request "Booking cannot be rejected")
  modify
      (λ d. record d { bookings = update_where (has_id booking_id) (rejected now why) d.bookings })
  emit NoticeKind.booking_rejected user_id booking.customer_id booking_id
