-- ===== src/Payments.antt =====
-- src/modules/payments/payments.service.ts: one payment for a booking, from its creation to the
-- moment it clears, fails or is refunded.
pub mod Lawful
pub mod Amounts
use eventy_backend.Base.{
  ℕ, suc, Bool, true, false, not, ◌||◌, Option, none, some, List, [], ◌∷◌, ◌++◌, String, ◌==◌,
  nat_eq, is_some, if◌then◌else◌,
}
use eventy_backend.Model.{
  BookingStatus, booking_status_eq, PaymentMethod, payment_method_eq, PaymentStatus,
  payment_status_eq, Reference, Db, Booking, Payment, Discount, NoticeKind, Action, HttpError,
  ◌>>=◌, ◌>>◌, pure, gets, raise, or_raise, raise_unless, modify, emit, given, or_default,
  update_where, has_id, find_first, booking_by_id, payment_of_booking, provider_of_user,
  provider_user,
}
use eventy_backend.Pricing.{compute_price_with_discount}
use eventy_backend.Discounts.Redeem.{resolve_active_discount_for_service}
use eventy_backend.Bookings.{progress_booking_and_event}
use eventy_backend.Packages.{try_progress_package_booking, confirm_package_cash_payment}

-- `ChargeResult`
pub record ChargeResult : Type 0 where
  pub success : Bool
  pub provider_reference : Option Reference

-- `IntentResult`: `clientSecret` says that a real gateway is connected.
pub record IntentResult : Type 0 where
  pub client_secret : Option String
  pub intent_id : Option Reference

-- `PaymentGatewayService`; its answers are arbitrary.
pub record Gateway : Type 0 where
  pub charge : Payment → ChargeResult
  pub create_intent : Payment → IntentResult
  pub verify_intent : Reference → ChargeResult

abbrev pub payment_by_id : Db → ℕ → Option Payment
payment_by_id db k = find_first (λ p. p.id == k) db.payments

abbrev pub set_payment : ℕ → (Payment → Payment) → Db → Db
set_payment k f db = record db { payments = update_where (λ p. p.id == k) f db.payments }

abbrev pub with_payment_status : PaymentStatus → Payment → Payment
with_payment_status s p = record p { status = s }

abbrev pub paid_with : ℕ → Option Reference → Payment → Payment
paid_with now reference p = record p {
  status = PaymentStatus.paid;
  paid_at = some now;
  provider_reference = given reference p.provider_reference;
}

abbrev pub without_deadline : Booking → Booking
without_deadline b = record b { cancellation_deadline = none }

-- A paid booking moves on with its package, or with its event. Both arguments of
-- `progressBookingAndEvent` are the id of the event.
unfoldable pub progress_paid : ℕ → Booking → Action (Unit {0})
progress_paid now b = elim b.package_event_booking_id [
  | some k ↦ try_progress_package_booking now k
  | none ↦ elim b.event_id [
    | some event_id ↦ progress_booking_and_event now event_id event_id
    | none ↦ pure tt
  ]
]

unfoldable pub announce_paid : ℕ → Payment → Option Booking → Action (Unit {0})
unfolding progress_paid
announce_paid now paid none = pure tt
announce_paid now paid (some b) = do
  db ← gets (λ d. d)
  emit NoticeKind.payment_confirmed paid.payer_id paid.payer_id paid.id
  emit NoticeKind.payment_confirmed paid.payer_id (provider_user db b.provider_id) paid.id
  progress_paid now b

-- The booking's part: the update of its deadline may fail unseen, but the lookup of a null id throws.
unfoldable pub settle_booking : ℕ → Payment → Option ℕ → Action (Unit {0})
unfolding announce_paid
settle_booking now paid none = raise HttpError.query_error
settle_booking now paid (some k) = do
  modify (λ d. record d { bookings = update_where (has_id k) without_deadline d.bookings })
  booking ← gets (λ d. booking_by_id d k)
  announce_paid now paid booking

unfoldable pub mark_paid : ℕ → ℕ → Option Reference → Action (Unit {0})
unfolding settle_booking
mark_paid now payment_id reference = do
  modify (set_payment payment_id (paid_with now reference))
  found ← gets (λ d. payment_by_id d payment_id)
  paid ← or_raise found HttpError.query_error
  settle_booking now paid paid.booking_id

-- The notice of a failure goes to the payer, if the booking is still there.
unfoldable pub announce_failed : Payment → Option Booking → Action (Unit {0})
announce_failed payment none = pure tt
announce_failed payment (some b) =
    emit NoticeKind.payment_failed payment.payer_id payment.payer_id payment.id

-- What the customer or the provider is told.
pub data PaymentAnswer : Type 0 where
  already_exists cash_recorded intent_created confirmed failed : PaymentAnswer

unfoldable pub process_electronic_payment : Gateway → ℕ → Payment → Action PaymentAnswer
unfolding announce_failed
process_electronic_payment gateway now payment = do
  modify (set_payment payment.id (with_payment_status PaymentStatus.processing))
  if (gateway.charge payment).success
      then (do
        mark_paid now payment.id (gateway.charge payment).provider_reference
        pure PaymentAnswer.confirmed)
      else (do
        modify (set_payment payment.id (with_payment_status PaymentStatus.failed))
        k ← or_raise payment.booking_id HttpError.query_error
        booking ← gets (λ d. booking_by_id d k)
        announce_failed payment booking
        pure PaymentAnswer.failed)

-- A booking that came with a package has its price already.
unfoldable pub checkout_discount : ℕ → Booking → Option String → Action (Option Discount)
checkout_discount now b code =
    if is_some b.package_event_booking_id
    then pure none
    else resolve_active_discount_for_service now b.service_id code

discount_id_of : Option Discount → Option ℕ
discount_id_of none = none
discount_id_of (some d) = some d.id

discount_amount_at : ℕ → Option Discount → Option ℕ
discount_amount_at subtotal none = none
discount_amount_at subtotal (some d) =
    some (compute_price_with_discount subtotal (some d)).discount_amount

unfoldable pub new_payment : ℕ → ℕ → Booking → PaymentMethod → Option Discount → Payment
unfolding discount_id_of discount_amount_at
new_payment id payer_id b method discount =
    let subtotal = or_default b.final_amount b.total_amount in
    record {
      id = id;
      booking_id = some b.id;
      package_event_booking_id = none;
      payer_id = payer_id;
      amount = (compute_price_with_discount subtotal discount).final_price;
      subtotal_amount = subtotal;
      method = method;
      status = PaymentStatus.pending;
      discount_id = discount_id_of discount;
      discount_amount = discount_amount_at subtotal discount;
      provider_reference = none;
      paid_at = none;
    }

unfoldable pub insert_payment : ℕ → Booking → PaymentMethod → Option Discount → Action Payment
insert_payment payer_id b method discount = do
  db ← gets (λ d. d)
  let row = new_payment db.next_id payer_id b method discount
  modify (λ d. record d { payments = d.payments ++ row ∷ []; next_id = suc d.next_id })
  pure row

abbrev awaits_intent : Option Reference → Payment → Payment
awaits_intent reference p = record p {
  status = PaymentStatus.processing;
  provider_reference = given reference p.provider_reference;
}

-- CASH waits for the provider; a transfer goes to the gateway.
unfoldable pub collect : Gateway → ℕ → Payment → Action PaymentAnswer
collect gateway now payment =
    if payment.method == PaymentMethod.cash
    then pure PaymentAnswer.cash_recorded
    else (if is_some (gateway.create_intent payment).client_secret
        then (do
          modify (set_payment payment.id (awaits_intent (gateway.create_intent payment).intent_id))
          pure PaymentAnswer.intent_created)
        else process_electronic_payment gateway now payment)

unfoldable pub create_payment_for_booking :
    Gateway → ℕ → ℕ → Booking → PaymentMethod → Option String → Action PaymentAnswer
unfolding checkout_discount insert_payment collect
create_payment_for_booking gateway now payer_id b method code = do
  db ← gets (λ d. d)
  if is_some (payment_of_booking db b.id) then pure PaymentAnswer.already_exists else (do
    discount ← checkout_discount now b code
    payment ← insert_payment payer_id b method discount
    collect gateway now payment)

unfoldable pub create_payment :
    Gateway → ℕ → ℕ → ℕ → PaymentMethod → Option String → Action PaymentAnswer
create_payment gateway now user_id booking_id method code = do
  db ← gets (λ d. d)
  booking ← or_raise (booking_by_id db booking_id) (HttpError.not_found "Booking not found")
  raise_unless (booking.customer_id == user_id) (HttpError.forbidden "Access denied")
  raise_unless (booking.status == BookingStatus.confirmed)
      (HttpError.bad_request "Booking must be CONFIRMED before payment")
  create_payment_for_booking gateway now user_id booking method code

unfoldable pub confirm_payment : Gateway → ℕ → ℕ → ℕ → Action PaymentAnswer
confirm_payment gateway now user_id payment_id = do
  db ← gets (λ d. d)
  payment ← or_raise (payment_by_id db payment_id) (HttpError.not_found "Payment not found")
  raise_unless (payment.payer_id == user_id) (HttpError.forbidden "Access denied")
  raise_unless (payment.status == PaymentStatus.processing)
      (HttpError.bad_request "Payment cannot be confirmed")
  reference ←
      or_raise payment.provider_reference
        (HttpError.bad_request "No pending gateway intent found for this payment")
  if (gateway.verify_intent reference).success
      then (do
        mark_paid now payment.id (gateway.verify_intent reference).provider_reference
        pure PaymentAnswer.confirmed)
      else (do
        modify (set_payment payment.id (with_payment_status PaymentStatus.failed))
        pure PaymentAnswer.failed)

abbrev pub is_confirmable : PaymentStatus → Bool
is_confirmable s = s == PaymentStatus.pending || s == PaymentStatus.processing

is_booked_with : ℕ → Option Booking → Bool
is_booked_with provider_id none = false
is_booked_with provider_id (some b) = b.provider_id == provider_id

booking_of : Db → Option ℕ → Option Booking
booking_of db none = none
booking_of db (some k) = booking_by_id db k

unfoldable pub mark_own_cash_paid : ℕ → ℕ → Payment → Action (Unit {0})
unfolding is_booked_with booking_of
mark_own_cash_paid now user_id payment = do
  db ← gets (λ d. d)
  provider ← or_raise (provider_of_user db user_id) (HttpError.not_found "Provider not found")
  raise_unless (is_booked_with provider.id (booking_of db payment.booking_id))
      (HttpError.forbidden "Access denied")
  raise_unless (is_confirmable payment.status) (HttpError.bad_request "Payment cannot be confirmed")
  mark_paid now payment.id none

unfoldable pub mark_cash_paid : ℕ → ℕ → ℕ → Action (Unit {0})
unfolding mark_own_cash_paid
mark_cash_paid now user_id payment_id = do
  db ← gets (λ d. d)
  payment ← or_raise (payment_by_id db payment_id) (HttpError.not_found "Payment not found")
  raise_unless (payment.method == PaymentMethod.cash)
      (HttpError.bad_request "Only cash payments can be confirmed this way")
  elim payment.package_event_booking_id [
    | some k ↦ confirm_package_cash_payment now user_id k
    | none ↦ mark_own_cash_paid now user_id payment
  ]

unfoldable pub refund_payment : ℕ → Action (Unit {0})
refund_payment payment_id = do
  db ← gets (λ d. d)
  payment ← or_raise (payment_by_id db payment_id) (HttpError.not_found "Payment not found")
  raise_unless (payment.status == PaymentStatus.paid)
      (HttpError.bad_request "Only a PAID payment can be refunded")
  modify (set_payment payment_id (with_payment_status PaymentStatus.refunded))
