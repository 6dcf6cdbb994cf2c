-- ===== src/Examples/Handlers.antt =====
-- Single handlers on the small database.
use eventy_backend.Base.{String, ◌≢◌, some, ◌≡◌, refl, true, false, none, [], ◌∷◌, All, nat_eq}
use eventy_backend.Model.{
  BookingStatus, EventStatus, HttpError, ok, in_event, has_id, update_where, find_first,
  run_handler,
}
use eventy_backend.Discounts.Redeem.{
  is_currently_valid, match_or_null, resolve_active_discount_for_service,
}
use eventy_backend.Bookings.{is_paid}
use eventy_backend.Events.{is_blocking, is_closed, to_cancel, cancel_event}
use eventy_backend.Cleanup.{is_expired, handle_expired_bookings}
use eventy_backend.Payments.{without_deadline, mark_paid, refund_payment}
use eventy_backend.System.{Request, respond, outcome, error_of}
use eventy_backend.Refusal.Requests.{respond_refused}
use eventy_backend.Success.Events.{cancel_event_lem}
use eventy_backend.Success.Expiry.{handle_expired_bookings_lem}
use eventy_backend.Success.Checkout.{IsOffered, resolve_active_discount_for_service_lem}
use eventy_backend.Success.Clearing.{mark_paid_lem}
use eventy_backend.Examples.{sample, gateway, payment, booking, tenth_off}

-- A payment that is not PAID is not refunded.
respond_refused_example : (respond gateway 100 (Request.admin_refunds 6) sample).0 ≡ sample
unfolding respond outcome error_of refund_payment run_handler find_first
respond_refused_example =
    respond_refused gateway 100 (Request.admin_refunds 6) sample
      (HttpError.bad_request "Only a PAID payment can be refunded") refl refl

-- Customer 20 cancels event 3.
cancel_event_lem_example :
    All (λ b. in_event 3 b ≡ true → is_blocking sample b ≡ false) sample.bookings
    × All
        (λ b. in_event 3 b ≡ true → is_closed b ≡ true)
        (cancel_event 100 20 3 "" sample).0.bookings
    × All
        (λ e. e.id ≡ 3 → e.status ≡ EventStatus.cancelled)
        (cancel_event 100 20 3 "" sample).0.events
unfolding cancel_event run_handler find_first is_blocking is_paid to_cancel
cancel_event_lem_example = cancel_event_lem 100 20 3 "" sample (4 ∷ 5 ∷ []) refl

-- At 2000 the deadline of bookings 4 and 5 has passed.
handle_expired_bookings_lem_example :
    ((handle_expired_bookings 2000 sample).1 ≡ ok tt)
    × (let after = (handle_expired_bookings 2000 sample).0 in
        All (λ b. is_expired 2000 b ≡ true → is_paid after b.id ≡ true) after.bookings)
handle_expired_bookings_lem_example = handle_expired_bookings_lem 2000 sample

-- The discount of a tenth applies by itself.
resolve_active_discount_for_service_lem_example :
    IsOffered 100 2 tenth_off × ((s : String) → tenth_off.code ≡ some s → s ≢ "" → none ≡ some s)
unfolding resolve_active_discount_for_service match_or_null is_currently_valid run_handler
    find_first
resolve_active_discount_for_service_lem_example =
    resolve_active_discount_for_service_lem 100 2 none sample tenth_off refl

-- The cash for booking 5 arrives.
mark_paid_lem_example :
    ((mark_paid 100 6 none sample).0.bookings
      ≡ update_where (has_id 5) without_deadline sample.bookings)
    × ((mark_paid 100 6 none sample).0.events ≡ sample.events)
unfolding find_first
mark_paid_lem_example =
    mark_paid_lem 100 6 5 3 none payment (booking 5 BookingStatus.confirmed) sample refl refl refl
      refl refl refl
