-- ===== src/Model/Query.antt =====
-- The lookups that several services share, and the clock's units.
use eventy_backend.Base.{ℕ, ◌*◌, Bool, false, Option, none, some, ◌==◌, nat_eq}
use eventy_backend.Model.Rows.{
  Db, Provider, Service, Booking, Event, Payment, Delivery, PackageBooking,
}
use eventy_backend.Model.Table.{find_first, is_id}

abbrev pub hours_ms : ℕ → ℕ
hours_ms n = n * 60 * 60 * 1000

abbrev pub day_ms : ℕ
day_ms = 1000 * 60 * 60 * 24

-- A column that an update leaves alone when it is given `undefined`.
abbrev pub given : {A : Type 0} → Option A → Option A → Option A
given none old = old
given (some a) old = some a

-- `x ?? d`
abbrev pub or_default : {A : Type 0} → Option A → A → A
or_default none d = d
or_default (some a) d = a

abbrev pub has_id : ℕ → Booking → Bool
has_id k b = b.id == k

abbrev pub in_event : ℕ → Booking → Bool
in_event event_id b = is_id b.event_id event_id

abbrev pub booking_by_id : Db → ℕ → Option Booking
booking_by_id db k = find_first (has_id k) db.bookings

abbrev pub event_by_id : Db → ℕ → Option Event
event_by_id db k = find_first (λ e. e.id == k) db.events

abbrev pub payment_of_booking : Db → ℕ → Option Payment
payment_of_booking db k = find_first (λ p. is_id p.booking_id k) db.payments

abbrev pub delivery_of_booking : Db → ℕ → Option Delivery
delivery_of_booking db k = find_first (λ d. d.booking_id == k) db.deliveries

abbrev pub provider_of_user : Db → ℕ → Option Provider
provider_of_user db user_id = find_first (λ p. p.user_id == user_id) db.providers

abbrev pub service_by_id : Db → ℕ → Option Service
service_by_id db k = find_first (λ s. s.id == k) db.services

abbrev pub package_booking_by_id : Db → ℕ → Option PackageBooking
package_booking_by_id db k = find_first (λ p. p.id == k) db.package_bookings

-- `booking.event`
unfoldable pub event_of : Db → Option ℕ → Option Event
event_of db none = none
event_of db (some k) = event_by_id db k

user_id_of : Option Provider → ℕ
user_id_of none = 0
user_id_of (some p) = p.user_id

-- `booking.provider.user.id`: the foreign key says that the row is there.
unfoldable pub provider_user : Db → ℕ → ℕ
unfolding user_id_of
provider_user db provider_id = user_id_of (find_first (λ p. p.id == provider_id) db.providers)

delivery_flag : Option Service → Bool
delivery_flag none = false
delivery_flag (some s) = s.requires_delivery

-- `booking.service.serviceType.requiresDeliveryByDefault`
unfoldable pub requires_delivery : Db → ℕ → Bool
unfolding delivery_flag
requires_delivery db service_id = delivery_flag (service_by_id db service_id)
