-- ===== src/Examples/Runs.antt =====
-- Runs from the small database.
use eventy_backend.Base.{ℕ, ◌≡◌, refl, none, some, List, [], ◌∷◌, arith, true, is_some}
use eventy_backend.Model.{
  DiscountScope, run_handler, Booking, Payment, Delivery, PaymentMethod, FulfillmentStatus,
  BookingStatus, booking_by_id, find_first,
}
use eventy_backend.Lifecycle.{◌⟶*◌}
use eventy_backend.Change.{Sound, later_payment, later_delivery, has_been_paid}
use eventy_backend.Discounts.Overlap.{AllReal, NoConflicts}
use eventy_backend.Payments.{payment_by_id}
use eventy_backend.Deliveries.{delivery_by_id}
use eventy_backend.System.{Request, run, effect, respond, outcome}
use eventy_backend.Discounts.{
  create_provider_discount, resolve_owned_target, names_target, assert_no_overlapping_auto_discount,
  insert_discount,
}
use eventy_backend.System.Guarantees.{
  run-Sound, run-booking_by_id, run-terminal_statuses, run-payment_by_id, run-delivery_by_id,
  run-NoConflicts,
}
use eventy_backend.Examples.{sample, gateway, payment, delivery, booking}

-- Customer 20 confirms the quote of booking 4, provider 1 is paid in cash for booking 5, its delivery
-- goes out, and the bookings that have expired are cancelled.
abbrev day : List (ℕ × Request)
day =
    (100, Request.customer_confirms 20 4)
    ∷ (200, Request.provider_receives_cash 11 6)
    ∷ (300, Request.provider_moves_delivery 11 7 FulfillmentStatus.out_for_delivery none)
    ∷ (400, Request.bookings_expire)
    ∷ []

sample-Sound : Sound sample
sample-Sound = record {
  booking_ids = ground arith;
  payments = record {
    ids = ground arith;
    fresh = ground arith;
    one_each = ground arith;
    stamped = ground arith;
    separate = ground arith;
  };
  deliveries = record { ids = ground arith; fresh = ground arith; one_each = ground arith };
}

-- The run keeps the small database sound.
run-Sound_example : Sound (run gateway day sample)
run-Sound_example = run-Sound gateway day sample sample-Sound

-- Booking 4, whose quote is confirmed, is still there.
run-booking_by_id_example :
    (c : Booking) × (booking_by_id (run gateway day sample) 4 ≡ some c)
    × (c.customer_id ≡ 20)
    × (c.provider_id ≡ 1)
    × (c.service_id ≡ 2)
    × (c.event_id ≡ some 3)
    × (BookingStatus.quote_sent ⟶* c.status)
unfolding find_first
run-booking_by_id_example =
    run-booking_by_id gateway day sample 4 (booking 4 BookingStatus.quote_sent) sample-Sound refl

-- Booking 9 stays REJECTED.
run-terminal_statuses_example :
    (c : Booking) × (booking_by_id (run gateway day sample) 9 ≡ some c)
    × (c.status ≡ BookingStatus.rejected)
unfolding find_first
run-terminal_statuses_example =
    run-terminal_statuses gateway day sample 9 (booking 9 BookingStatus.rejected) sample-Sound refl
      refl

-- Payment 6 keeps its amount.
run-payment_by_id_example :
    (q : Payment) × (payment_by_id (run gateway day sample) 6 ≡ some q)
    × (q.booking_id ≡ some 5)
    × (q.payer_id ≡ 20)
    × (q.amount ≡ 4500)
    × (q.method ≡ PaymentMethod.cash)
    × (later_payment payment.status q.status ≡ true)
    × (has_been_paid q.status ≡ true → is_some q.paid_at ≡ true)
unfolding find_first
run-payment_by_id_example = run-payment_by_id gateway day sample 6 payment sample-Sound refl refl

-- Delivery 7 is still that of booking 5.
run-delivery_by_id_example :
    (e : Delivery) × (delivery_by_id (run gateway day sample) 7 ≡ some e)
    × (e.booking_id ≡ 5)
    × (later_delivery FulfillmentStatus.scheduled e.status ≡ true)
unfolding find_first
run-delivery_by_id_example = run-delivery_by_id gateway day sample 7 delivery sample-Sound refl

-- Provider 1 adds a discount on service 2 that takes a code.
abbrev coded : List (ℕ × Request)
coded =
    (
      100,
      Request.provider_adds_discount 11 (record {
        scope = DiscountScope.service;
        service_id = some 2;
        package_id = none;
        percent_off = 5000000;
        code = some "SPRING";
        starts_at = none;
        ends_at = none;
      }),
    )
    ∷ []

both_real : AllReal (run gateway coded sample).discounts
unfolding run run_handler find_first effect respond outcome create_provider_discount
    resolve_owned_target names_target assert_no_overlapping_auto_discount insert_discount
both_real = (refl, (refl, tt))

-- The two discounts do not conflict.
run-NoConflicts_example : NoConflicts (run gateway coded sample).discounts
run-NoConflicts_example = run-NoConflicts gateway coded sample sample-Sound (tt, tt) both_real
