-- ===== src/System/Guarantees.antt =====
-- What holds of every run of requests, whoever sends them, in whatever order and at whatever time.
use eventy_backend.Base.{ℕ, Bool, true, ◌≡◌, List, some, arith, ◌==◌, nat_eq, includes, is_some}
use eventy_backend.Model.{
  BookingStatus, booking_status_eq, PaymentStatus, payment_status_eq, Db, Booking, Payment,
  Delivery, booking_by_id,
}
use eventy_backend.Evolution.Updates.{All-found}
use eventy_backend.Evolution.Lookups.{find-Evolves}
use eventy_backend.Lifecycle.{◌⟶*◌, later, BookingMove}
use eventy_backend.Lifecycle.Order.{later_iff}
use eventy_backend.Change.{
  PaymentMove, DeliveryMove, Sound, has_been_paid, IsStamped, later_payment, later_for,
  later_delivery,
}
use eventy_backend.Discounts.Overlap.{AllReal, NoConflicts}
use eventy_backend.Bookings.{terminal_statuses}
use eventy_backend.Payments.{Gateway, payment_by_id}
use eventy_backend.Deliveries.{delivery_by_id}
use eventy_backend.System.{Request, run}
use eventy_backend.System.Runs.{run-Lawful}

-- A run keeps the tables sound: no two bookings, payments or deliveries share an id, no booking has
-- two payments or two deliveries, and each PAID or REFUNDED payment has its time of payment.
pub run-Sound :
    (gateway : Gateway) (rs : List (ℕ × Request)) (db : Db) → Sound db → Sound (run gateway rs db)
run-Sound gateway rs db s = (run-Lawful gateway rs db s).sound

-- In a sound database, a booking that is there before a run is there after it, with the same customer,
-- provider, service and event, and its status has followed the moves of a booking's life.
pub run-booking_by_id :
    (gateway : Gateway) (rs : List (ℕ × Request)) (db : Db) (k : ℕ) (b : Booking)
    → Sound db
    → booking_by_id db k ≡ some b
    → (c : Booking) × (booking_by_id (run gateway rs db) k ≡ some c)
      × (c.customer_id ≡ b.customer_id)
      × (c.provider_id ≡ b.provider_id)
      × (c.service_id ≡ b.service_id)
      × (c.event_id ≡ b.event_id)
      × (b.status ⟶* c.status)
run-booking_by_id gateway rs db k b s found =
    let (c, there, m) =
      find-Evolves (λ x. x.id) BookingMove (λ x y m. m.same_id) k db.bookings _ b
        (run-Lawful gateway rs db s).bookings found in
    (
      c,
      there,
      m.same_customer,
      m.same_provider,
      m.same_service,
      m.same_event,
      (later_iff b.status c.status).0 m.forward,
    )

final_stays : (s t : BookingStatus) → includes terminal_statuses s ≡ true → later s t ≡ true → t ≡ s
final_stays s t h m = ground arith

-- In a sound database, a COMPLETED, CANCELLED or REJECTED booking has the same status after any run.
pub run-terminal_statuses :
    (gateway : Gateway) (rs : List (ℕ × Request)) (db : Db) (k : ℕ) (b : Booking)
    → Sound db
    → booking_by_id db k ≡ some b
    → includes terminal_statuses b.status ≡ true
    → (c : Booking) × (booking_by_id (run gateway rs db) k ≡ some c) × (c.status ≡ b.status)
run-terminal_statuses gateway rs db k b s found h =
    let (c, there, m) =
      find-Evolves (λ x. x.id) BookingMove (λ x y m. m.same_id) k db.bookings _ b
        (run-Lawful gateway rs db s).bookings found in
    (c, there, final_stays b.status c.status h m.forward)

booking_forward :
    (c : Bool) (s t : PaymentStatus) → c ≡ true → later_for c s t ≡ true → later_payment s t ≡ true
booking_forward c s t h k = ground arith

-- In a sound database, the payment of a booking keeps its booking, payer, amount and method through any
-- run, its status only moves forward, and if it is then PAID or REFUNDED, the time of payment is recorded.
pub run-payment_by_id :
    (gateway : Gateway) (rs : List (ℕ × Request)) (db : Db) (k : ℕ) (p : Payment)
    → Sound db
    → payment_by_id db k ≡ some p
    → is_some p.booking_id ≡ true
    → (q : Payment) × (payment_by_id (run gateway rs db) k ≡ some q)
      × (q.booking_id ≡ p.booking_id)
      × (q.payer_id ≡ p.payer_id)
      × (q.amount ≡ p.amount)
      × (q.method ≡ p.method)
      × (later_payment p.status q.status ≡ true)
      × (has_been_paid q.status ≡ true → is_some q.paid_at ≡ true)
run-payment_by_id gateway rs db k p s found of_booking =
    let change = run-Lawful gateway rs db s in
    let (q, there, m) =
      find-Evolves (λ x. x.id) PaymentMove (λ x y m. m.same_id) k db.payments _ p change.payments
        found in
    (
      q,
      there,
      m.same_booking,
      m.same_payer,
      m.same_amount,
      m.same_method of_booking,
      booking_forward _ _ _ of_booking m.forward,
      All-found (λ x. x.id == k) IsStamped _ q change.sound.payments.stamped there,
    )

-- In a sound database, a delivery keeps its booking through any run and its status only moves forward,
-- so that a DELIVERED or FAILED one keeps its status.
pub run-delivery_by_id :
    (gateway : Gateway) (rs : List (ℕ × Request)) (db : Db) (k : ℕ) (d : Delivery)
    → Sound db
    → delivery_by_id db k ≡ some d
    → (e : Delivery) × (delivery_by_id (run gateway rs db) k ≡ some e)
      × (e.booking_id ≡ d.booking_id)
      × (later_delivery d.status e.status ≡ true)
run-delivery_by_id gateway rs db k d s found =
    let (e, there, m) =
      find-Evolves (λ x. x.id) DeliveryMove (λ x y m. m.same_id) k db.deliveries _ d
        (run-Lawful gateway rs db s).deliveries found in
    (e, there, m.same_booking, m.forward)

-- If no two ACTIVE discounts without a code are for one service or package and within their dates at one
-- instant, then none are after any run from a sound database, provided that the run leaves no discount with
-- the empty code. An empty code counts as none; a discount that awaits its reconfirmation counts as ACTIVE.
pub run-NoConflicts :
    (gateway : Gateway) (rs : List (ℕ × Request)) (db : Db)
    → Sound db
    → NoConflicts db.discounts
    → AllReal (run gateway rs db).discounts
    → NoConflicts (run gateway rs db).discounts
run-NoConflicts gateway rs db s h real = ((run-Lawful gateway rs db s).discounts real).1 h
