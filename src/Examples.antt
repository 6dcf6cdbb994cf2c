-- ===== src/Examples.antt =====
-- A small database, and what the theorems say of it.
mod Runs
mod Prices
mod Handlers
mod Quotes
mod Feedback
mod Calendar
mod Packages
mod Composition
use eventy_backend.Base.{ℕ, Bool, true, false, none, some, List, [], ◌∷◌}
use eventy_backend.Model.{
  BookingStatus, EventStatus, PaymentMethod, PaymentStatus, FulfillmentStatus, DiscountScope,
  DiscountOrigin, DiscountStatus, TimeOfDay, Provider, Service, Booking, Event, Payment, Delivery,
  Discount, Db, Reference,
}
use eventy_backend.Payments.{Gateway, ChargeResult, IntentResult}

-- Provider 1 is user 11, offers service 2, which is delivered, and holds two bookings of customer 20.
abbrev provider : Provider
provider = record { id = 1; user_id = 11; is_approved = true }

abbrev service : Service
service = record {
  id = 2;
  provider_id = 1;
  service_type = "FOOD";
  requires_delivery = true;
  is_active = true;
  is_packaged = false;
  rating = record { total = 0; count = 0 };
  total_reviews = 0;
}

abbrev booking : ℕ → BookingStatus → Booking
booking id status = record {
  id = id;
  customer_id = 20;
  provider_id = 1;
  service_id = 2;
  event_id = some 3;
  package_event_booking_id = none;
  provider_notes = none;
  rejection_reason = none;
  total_amount = 5000000000;
  final_amount = some 4500000000;
  status = status;
  accepted_at = none;
  completed_at = none;
  cancelled_at = none;
  cancellation_deadline = some 1000;
  cancelled_by = none;
  cancellation_reason = none;
}

abbrev event : Event
event = record {
  id = 3;
  customer_id = 20;
  event_date = 864000000;
  event_start_time = record { hour = 20; minute = 0 };
  event_end_time = record { hour = 2; minute = 0 };
  event_location = some "the hall";
  status = EventStatus.draft;
  archived_at = none;
}

abbrev payment : Payment
payment = record {
  id = 6;
  booking_id = some 5;
  package_event_booking_id = none;
  payer_id = 20;
  amount = 4500;
  subtotal_amount = 4500;
  method = PaymentMethod.cash;
  status = PaymentStatus.pending;
  discount_id = none;
  discount_amount = none;
  provider_reference = none;
  paid_at = none;
}

abbrev delivery : Delivery
delivery = record {
  id = 7;
  booking_id = 5;
  status = FulfillmentStatus.scheduled;
  address = "the hall";
  scheduled_at = none;
  delivered_at = none;
  notes = none;
}

abbrev tenth_off : Discount
tenth_off = record {
  id = 8;
  scope = DiscountScope.service;
  service_id = some 2;
  package_id = none;
  origin = DiscountOrigin.provider;
  code = none;
  percent_off = 10000000;
  status = DiscountStatus.active;
  needs_reconfirmation = false;
  starts_at = none;
  ends_at = none;
  created_by_user_id = 11;
}

abbrev sample : Db
sample = record {
  providers = provider ∷ [];
  services = service ∷ [];
  bookings =
      booking 4 BookingStatus.quote_sent
      ∷ booking 5 BookingStatus.confirmed
      ∷ booking 9 BookingStatus.rejected
      ∷ [];
  booking_items = [];
  events = event ∷ [];
  payments = payment ∷ [];
  deliveries = delivery ∷ [];
  discounts = tenth_off ∷ [];
  packages = [];
  package_services = [];
  package_bookings = [];
  reviews = [];
  complaints = [];
  blocked_slots = [];
  favorites = [];
  notices = [];
  next_id = 30;
}

-- A gateway that takes every charge at once.
abbrev gateway : Gateway
gateway = record {
  charge = λ p. record { success = true; provider_reference = some (Reference.gateway "ch") };
  create_intent = λ p. record { client_secret = none; intent_id = none };
  verify_intent = λ r. record { success = true; provider_reference = some r };
}
