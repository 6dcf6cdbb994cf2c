-- ===== src/Change.antt =====
-- What any handler may do to the database: the invariant of the tables, the moves that their rows
-- may make, and the rules by which a handler's steps add up.
pub mod Tables
pub mod Payments
pub mod Deliveries
pub mod Rules
pub mod Keeps
pub mod Ids
use eventy_backend.Base.{
  ℕ, ◌≡◌, ◌≢◌, ◌<◌, Bool, true, false, Option, none, some, List, [], ◌∷◌, All, is_some,
}
use eventy_backend.Model.{PaymentStatus, FulfillmentStatus, Db, Booking, Event, Payment, Delivery}
use eventy_backend.Evolution.{Evolves, Distinct}
use eventy_backend.Lifecycle.{BookingMove}
use eventy_backend.Discounts.Overlap.{DiscountsKept}

-- How far the payment of a booking is: PAID can only be refunded, FAILED, REFUNDED and CANCELLED are
-- final.
abbrev pub later_payment : PaymentStatus → PaymentStatus → Bool
later_payment PaymentStatus.pending PaymentStatus.cancelled = false
later_payment PaymentStatus.pending _ = true
later_payment PaymentStatus.processing PaymentStatus.pending = false
later_payment PaymentStatus.processing PaymentStatus.cancelled = false
later_payment PaymentStatus.processing _ = true
later_payment PaymentStatus.paid PaymentStatus.paid = true
later_payment PaymentStatus.paid PaymentStatus.refunded = true
later_payment PaymentStatus.paid _ = false
later_payment PaymentStatus.failed PaymentStatus.failed = true
later_payment PaymentStatus.failed _ = false
later_payment PaymentStatus.refunded PaymentStatus.refunded = true
later_payment PaymentStatus.refunded _ = false
later_payment PaymentStatus.cancelled PaymentStatus.cancelled = true
later_payment PaymentStatus.cancelled _ = false

-- How far the payment of a booked package is: it may be tried again, but does not return to PENDING.
abbrev pub later_package_payment : PaymentStatus → PaymentStatus → Bool
later_package_payment PaymentStatus.pending _ = true
later_package_payment _ PaymentStatus.pending = false
later_package_payment _ _ = true

abbrev pub later_for : Bool → PaymentStatus → PaymentStatus → Bool
later_for true s t = later_payment s t
later_for false s t = later_package_payment s t

-- Only the payment of a booked package may change its method.
pub record PaymentMove (a b : Payment) : Type 0 where
  pub same_id : b.id ≡ a.id
  pub same_booking : b.booking_id ≡ a.booking_id
  pub same_package : b.package_event_booking_id ≡ a.package_event_booking_id
  pub same_payer : b.payer_id ≡ a.payer_id
  pub same_amount : b.amount ≡ a.amount
  pub same_method : is_some a.booking_id ≡ true → b.method ≡ a.method
  pub forward : later_for (is_some a.booking_id) a.status b.status ≡ true
  pub still_dated : is_some a.paid_at ≡ true → is_some b.paid_at ≡ true

-- How far a delivery is: DELIVERED and FAILED are final.
abbrev pub later_delivery : FulfillmentStatus → FulfillmentStatus → Bool
later_delivery FulfillmentStatus.scheduled t = true
later_delivery FulfillmentStatus.out_for_delivery FulfillmentStatus.scheduled = false
later_delivery FulfillmentStatus.out_for_delivery _ = true
later_delivery FulfillmentStatus.delivered FulfillmentStatus.delivered = true
later_delivery FulfillmentStatus.delivered _ = false
later_delivery FulfillmentStatus.failed FulfillmentStatus.failed = true
later_delivery FulfillmentStatus.failed _ = false

pub record DeliveryMove (a b : Delivery) : Type 0 where
  pub same_id : b.id ≡ a.id
  pub same_booking : b.booking_id ≡ a.booking_id
  pub forward : later_delivery a.status b.status ≡ true

pub record EventMove (a b : Event) : Type 0 where
  pub same_id : b.id ≡ a.id
  pub same_customer : b.customer_id ≡ a.customer_id
  pub same_date : b.event_date ≡ a.event_date

-- Whether money has been received: then the time is recorded.
abbrev pub has_been_paid : PaymentStatus → Bool
has_been_paid PaymentStatus.paid = true
has_been_paid PaymentStatus.refunded = true
has_been_paid _ = false

abbrev pub IsStamped : Payment → Type 0
IsStamped p = has_been_paid p.status ≡ true → is_some p.paid_at ≡ true

-- A payment is for one booking or for one booked package, not for both.
abbrev pub IsSeparate : Payment → Type 0
IsSeparate p = is_some p.package_event_booking_id ≡ true → is_some p.booking_id ≡ false

-- The two payments are not for one booking.
abbrev pub Apart : Payment → Payment → Type 0
Apart p q = (k : ℕ) → p.booking_id ≡ some k → q.booking_id ≢ some k

-- No booking has two payments.
abbrev pub OnePerBooking : List Payment → Type 0
OnePerBooking [] = Unit {0}
OnePerBooking (p ∷ ps) = All (Apart p) ps × OnePerBooking ps

-- The invariants of the tables; `next` is the next fresh id.
pub record PaymentsSound (next : ℕ) (ps : List Payment) : Type 0 where
  pub ids : Distinct (λ p. p.id) ps
  pub fresh : All (λ p. p.id < next) ps
  pub one_each : OnePerBooking ps
  pub stamped : All IsStamped ps
  pub separate : All IsSeparate ps

pub record DeliveriesSound (next : ℕ) (ds : List Delivery) : Type 0 where
  pub ids : Distinct (λ d. d.id) ds
  pub fresh : All (λ d. d.id < next) ds
  pub one_each : Distinct (λ d. d.booking_id) ds

pub record Sound (db : Db) : Type 0 where
  pub booking_ids : Distinct (λ b. b.id) db.bookings
  pub payments : PaymentsSound db.next_id db.payments
  pub deliveries : DeliveriesSound db.next_id db.deliveries

-- What a sound database may become.
pub record Change (before after : Db) : Type 0 where
  pub sound : Sound after
  pub bookings : Evolves BookingMove before.bookings after.bookings
  pub payments : Evolves PaymentMove before.payments after.payments
  pub deliveries : Evolves DeliveryMove before.deliveries after.deliveries
  pub events : Evolves EventMove before.events after.events
  pub discounts : DiscountsKept before.discounts after.discounts

abbrev pub Lawful : Db → Db → Type 0
Lawful before after = Sound before → Change before after
