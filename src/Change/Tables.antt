-- ===== src/Change/Tables.antt =====
-- Changing one table lawfully.
use eventy_backend.Base.{ℕ, ◌≡◌, Bool, true, some, List, [], ◌∷◌, All, arith, nat_eq}
use eventy_backend.Model.{
  Db, Booking, Event, Payment, Delivery, Notice, BookingItem, PackageBooking, find_first,
  update_where, has_id, PaymentStatus, Package, PackageService,
}
use eventy_backend.Evolution.{Evolves, Distinct, Evolves-refl, Evolves-trans}
use eventy_backend.Evolution.Updates.{Distinct-update_where, Evolves-update_All, found_only}
use eventy_backend.Lifecycle.{BookingMove}
use eventy_backend.Lifecycle.Order.{BookingMove-refl, BookingMove-trans}
use eventy_backend.Change.{
  PaymentMove, DeliveryMove, EventMove, Sound, Lawful, later_payment, later_for,
}

-- A move of the booking's payment is one of the package's too.
pub later_for_both :
    (c : Bool) (s t : PaymentStatus) → later_payment s t ≡ true → later_for c s t ≡ true
later_for_both c s t h = ground arith

pub PaymentMove-refl : (p : Payment) → PaymentMove p p
PaymentMove-refl p = ground arith

PaymentMove-trans : (a b c : Payment) → PaymentMove a b → PaymentMove b c → PaymentMove a c
PaymentMove-trans a b c h k = ground arith

pub DeliveryMove-refl : (d : Delivery) → DeliveryMove d d
DeliveryMove-refl d = ground arith

DeliveryMove-trans : (a b c : Delivery) → DeliveryMove a b → DeliveryMove b c → DeliveryMove a c
DeliveryMove-trans a b c h k = ground arith

pub EventMove-refl : (e : Event) → EventMove e e
EventMove-refl e = ground arith

EventMove-trans : (a b c : Event) → EventMove a b → EventMove b c → EventMove a c
EventMove-trans a b c h k = ground arith

pub Lawful-refl : (db : Db) → Lawful db db
Lawful-refl db s = record {
  sound = s;
  bookings = Evolves-refl BookingMove BookingMove-refl db.bookings;
  payments = Evolves-refl PaymentMove PaymentMove-refl db.payments;
  deliveries = Evolves-refl DeliveryMove DeliveryMove-refl db.deliveries;
  events = Evolves-refl EventMove EventMove-refl db.events;
  discounts = λ real. (real, (λ h. h));
}

pub Lawful-trans : (a b c : Db) → Lawful a b → Lawful b c → Lawful a c
Lawful-trans a b c h k s =
    let p = h s in
    let q = k p.sound in
    record {
      sound = q.sound;
      bookings = Evolves-trans BookingMove BookingMove-trans _ _ _ p.bookings q.bookings;
      payments = Evolves-trans PaymentMove PaymentMove-trans _ _ _ p.payments q.payments;
      deliveries = Evolves-trans DeliveryMove DeliveryMove-trans _ _ _ p.deliveries q.deliveries;
      events = Evolves-trans EventMove EventMove-trans _ _ _ p.events q.events;
      discounts = λ real.
          let (before, g) = q.discounts real in
          let (first, f) = p.discounts before in (first, (λ h. g (f h)));
    }

module _ (db : Db) where
  set_bookings :
      (bs : List Booking)
      → Evolves BookingMove db.bookings bs
      → Distinct (λ b. b.id) bs
      → Lawful db (record db { bookings = bs })
  set_bookings bs ev d s = record {
    sound = record { booking_ids = d; payments = s.payments; deliveries = s.deliveries };
    bookings = ev;
    payments = Evolves-refl PaymentMove PaymentMove-refl db.payments;
    deliveries = Evolves-refl DeliveryMove DeliveryMove-refl db.deliveries;
    events = Evolves-refl EventMove EventMove-refl db.events;
    discounts = λ real. (real, (λ h. h));
  }

  -- An update of the bookings that a test selects, by moves.
  pub update_bookings :
      (p : Booking → Bool) (f : Booking → Booking)
      → ((b : Booking) → (f b).id ≡ b.id)
      → (Sound db → All (λ b. p b ≡ true → BookingMove b (f b)) db.bookings)
      → Lawful db (record db { bookings = update_where p f db.bookings })
  update_bookings p f same h s =
      set_bookings _ (Evolves-update_All p BookingMove f BookingMove-refl db.bookings (h s))
        (Distinct-update_where p (λ b. b.id) f same db.bookings s.booking_ids) s

  -- An update by id of the booking that a lookup found.
  pub update_found_booking :
      (p : Booking → Bool) (k : ℕ) (f : Booking → Booking)
      → ((b : Booking) → p b ≡ true → b.id ≡ k)
      → ((b : Booking) → (f b).id ≡ b.id)
      → (r : Booking) → find_first p db.bookings ≡ some r
      → BookingMove r (f r)
      → Lawful db (record db { bookings = update_where (has_id k) f db.bookings })
  update_found_booking p k f by_key same r e m = update_bookings (has_id k) f same λ s.
      found_only (λ b. b.id) p (λ b. BookingMove b (f b)) k by_key db.bookings r s.booking_ids e m

  pub update_events :
      (p : Event → Bool) (f : Event → Event)
      → ((e : Event) → EventMove e (f e))
      → Lawful db (record db { events = update_where p f db.events })
  update_events p f h s = record {
    sound = record {
      booking_ids = s.booking_ids;
      payments = s.payments;
      deliveries = s.deliveries;
    };
    bookings = Evolves-refl BookingMove BookingMove-refl db.bookings;
    payments = Evolves-refl PaymentMove PaymentMove-refl db.payments;
    deliveries = Evolves-refl DeliveryMove DeliveryMove-refl db.deliveries;
    events = Evolves-update_All p EventMove f EventMove-refl db.events (each db.events);
    discounts = λ real. (real, (λ h. h));
  }
    where
      each : (es : List Event) → All (λ e. p e ≡ true → EventMove e (f e)) es
      each [] = tt
      each (e ∷ es) = ((λ _. h e), each es)

  pub set_notices : (ns : List Notice) → Lawful db (record db { notices = ns })
  set_notices ns s = record {
    sound = record {
      booking_ids = s.booking_ids;
      payments = s.payments;
      deliveries = s.deliveries;
    };
    bookings = Evolves-refl BookingMove BookingMove-refl db.bookings;
    payments = Evolves-refl PaymentMove PaymentMove-refl db.payments;
    deliveries = Evolves-refl DeliveryMove DeliveryMove-refl db.deliveries;
    events = Evolves-refl EventMove EventMove-refl db.events;
    discounts = λ real. (real, (λ h. h));
  }

  pub set_items : (items : List BookingItem) → Lawful db (record db { booking_items = items })
  set_items items s = record {
    sound = record {
      booking_ids = s.booking_ids;
      payments = s.payments;
      deliveries = s.deliveries;
    };
    bookings = Evolves-refl BookingMove BookingMove-refl db.bookings;
    payments = Evolves-refl PaymentMove PaymentMove-refl db.payments;
    deliveries = Evolves-refl DeliveryMove DeliveryMove-refl db.deliveries;
    events = Evolves-refl EventMove EventMove-refl db.events;
    discounts = λ real. (real, (λ h. h));
  }

  pub set_package_bookings :
      (rows : List PackageBooking) → Lawful db (record db { package_bookings = rows })
  set_package_bookings rows s = record {
    sound = record {
      booking_ids = s.booking_ids;
      payments = s.payments;
      deliveries = s.deliveries;
    };
    bookings = Evolves-refl BookingMove BookingMove-refl db.bookings;
    payments = Evolves-refl PaymentMove PaymentMove-refl db.payments;
    deliveries = Evolves-refl DeliveryMove DeliveryMove-refl db.deliveries;
    events = Evolves-refl EventMove EventMove-refl db.events;
    discounts = λ real. (real, (λ h. h));
  }

  pub set_packages : (rows : List Package) → Lawful db (record db { packages = rows })
  set_packages rows s = record {
    sound = record {
      booking_ids = s.booking_ids;
      payments = s.payments;
      deliveries = s.deliveries;
    };
    bookings = Evolves-refl BookingMove BookingMove-refl db.bookings;
    payments = Evolves-refl PaymentMove PaymentMove-refl db.payments;
    deliveries = Evolves-refl DeliveryMove DeliveryMove-refl db.deliveries;
    events = Evolves-refl EventMove EventMove-refl db.events;
    discounts = λ real. (real, (λ h. h));
  }

  pub set_package_services :
      (rows : List PackageService) → Lawful db (record db { package_services = rows })
  set_package_services rows s = record {
    sound = record {
      booking_ids = s.booking_ids;
      payments = s.payments;
      deliveries = s.deliveries;
    };
    bookings = Evolves-refl BookingMove BookingMove-refl db.bookings;
    payments = Evolves-refl PaymentMove PaymentMove-refl db.payments;
    deliveries = Evolves-refl DeliveryMove DeliveryMove-refl db.deliveries;
    events = Evolves-refl EventMove EventMove-refl db.events;
    discounts = λ real. (real, (λ h. h));
  }
