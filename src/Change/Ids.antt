-- ===== src/Change/Ids.antt =====
-- Tables without an invariant of their own, whose new rows take ids.
use eventy_backend.Base.{ℕ, ◌<◌, ◌≤◌, List, arith}
use eventy_backend.Model.{Db, BlockedSlot, Favorite}
use eventy_backend.Evolution.{Evolves-refl}
use eventy_backend.Evolution.Updates.{All-map}
use eventy_backend.Lifecycle.{BookingMove}
use eventy_backend.Lifecycle.Order.{BookingMove-refl}
use eventy_backend.Change.{PaymentMove, DeliveryMove, EventMove, Sound, Lawful}
use eventy_backend.Change.Tables.{PaymentMove-refl, DeliveryMove-refl, EventMove-refl}

-- Taking ids leaves the tables sound.
module _ (db : Db) (next : ℕ) (more : db.next_id ≤ next) where
  Sound-next : Sound db → Sound (record db { next_id = next })
  Sound-next s = record {
    booking_ids = s.booking_ids;
    payments = record {
      ids = s.payments.ids;
      fresh =
          All-map (λ p. p.id < db.next_id) (λ p. p.id < next) (λ p l. omega arith) db.payments
            s.payments.fresh;
      one_each = s.payments.one_each;
      stamped = s.payments.stamped;
      separate = s.payments.separate;
    };
    deliveries = record {
      ids = s.deliveries.ids;
      fresh =
          All-map (λ d. d.id < db.next_id) (λ d. d.id < next) (λ d l. omega arith) db.deliveries
            s.deliveries.fresh;
      one_each = s.deliveries.one_each;
    };
  }

  pub set_blocked_slots :
      (rows : List BlockedSlot) → Lawful db (record db { blocked_slots = rows; next_id = next })
  set_blocked_slots rows s =
      let t = Sound-next s in
      record {
        sound = record {
          booking_ids = t.booking_ids;
          payments = t.payments;
          deliveries = t.deliveries;
        };
        bookings = Evolves-refl BookingMove BookingMove-refl db.bookings;
        payments = Evolves-refl PaymentMove PaymentMove-refl db.payments;
        deliveries = Evolves-refl DeliveryMove DeliveryMove-refl db.deliveries;
        events = Evolves-refl EventMove EventMove-refl db.events;
        discounts = λ real. (real, (λ h. h));
      }

  pub set_favorites :
      (rows : List Favorite) → Lawful db (record db { favorites = rows; next_id = next })
  set_favorites rows s =
      let t = Sound-next s in
      record {
        sound = record {
          booking_ids = t.booking_ids;
          payments = t.payments;
          deliveries = t.deliveries;
        };
        bookings = Evolves-refl BookingMove BookingMove-refl db.bookings;
        payments = Evolves-refl PaymentMove PaymentMove-refl db.payments;
        deliveries = Evolves-refl DeliveryMove DeliveryMove-refl db.deliveries;
        events = Evolves-refl EventMove EventMove-refl db.events;
        discounts = λ real. (real, (λ h. h));
      }
