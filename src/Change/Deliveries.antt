-- ===== src/Change/Deliveries.antt =====
-- Changing the deliveries lawfully.
use eventy_backend.Base.{
  ℕ, suc, ◌<◌, ◌≡◌, ◌≢◌, Bool, true, false, none, some, List, [], ◌∷◌, ◌++◌, arith, ◌==◌, nat_eq,
}
use eventy_backend.Model.{Db, Delivery, find_first, update_where}
use eventy_backend.Evolution.{Evolves, Evolves-refl, Evolves-append}
use eventy_backend.Evolution.Updates.{
  All-map, All-update_where, All-append, Distinct-append, Distinct-update_where, Evolves-update_All,
  found_only, none-found,
}
use eventy_backend.Lifecycle.{BookingMove}
use eventy_backend.Lifecycle.Order.{BookingMove-refl}
use eventy_backend.Change.{
  PaymentMove, DeliveryMove, EventMove, PaymentsSound, DeliveriesSound, Sound, Lawful,
}
use eventy_backend.Change.Tables.{PaymentMove-refl, DeliveryMove-refl, EventMove-refl}
use eventy_backend.Change.Payments.{payments_next}

-- Such a change leaves the bookings, the payments and the events as they are.
set_deliveries :
    (db : Db) (ds : List Delivery) (next : ℕ)
    → (Sound db → PaymentsSound next db.payments)
    → (Sound db → DeliveriesSound next ds)
    → (Sound db → Evolves DeliveryMove db.deliveries ds)
    → Lawful db (record db { deliveries = ds; next_id = next })
set_deliveries db ds next ps h ev s = record {
  sound = record { booking_ids = s.booking_ids; payments = ps s; deliveries = h s };
  bookings = Evolves-refl BookingMove BookingMove-refl db.bookings;
  payments = Evolves-refl PaymentMove PaymentMove-refl db.payments;
  deliveries = ev s;
  events = Evolves-refl EventMove EventMove-refl db.events;
  discounts = λ real. (real, (λ h. h));
}

-- A new delivery for a booking that has none.
pub add_delivery :
    (db : Db) (row : Delivery)
    → row.id ≡ db.next_id
    → find_first (λ d. d.booking_id == row.booking_id) db.deliveries ≡ none
    → Lawful db (record db { deliveries = db.deliveries ++ row ∷ []; next_id = suc db.next_id })
add_delivery db row id absent =
    set_deliveries db _ (suc db.next_id) (λ s. payments_next db.next_id db.payments s.payments)
      sound (λ s. Evolves-append DeliveryMove DeliveryMove-refl db.deliveries (row ∷ []))
  where
    sound : Sound db → DeliveriesSound (suc db.next_id) (db.deliveries ++ row ∷ [])
    sound s = record {
      ids =
          Distinct-append (λ d. d.id) db.deliveries row s.deliveries.ids
            (All-map (λ d. d.id < db.next_id) (λ d. d.id ≢ row.id) (λ d l e. omega arith)
              db.deliveries s.deliveries.fresh);
      fresh =
          All-append (λ d. d.id < suc db.next_id) db.deliveries row
            (All-map (λ d. d.id < db.next_id) (λ d. d.id < suc db.next_id) (λ d l. omega arith)
              db.deliveries s.deliveries.fresh)
            (omega arith);
      one_each =
          Distinct-append (λ d. d.booking_id) db.deliveries row s.deliveries.one_each
            (All-map (λ d. (d.booking_id == row.booking_id) ≡ false)
              (λ d. d.booking_id ≢ row.booking_id) (λ d ne e. ground arith) db.deliveries
              (none-found (λ d. d.booking_id == row.booking_id) db.deliveries absent));
    }

-- An update by id of the delivery that a lookup found.
pub update_found_delivery :
    (db : Db) (p : Delivery → Bool) (k : ℕ) (f : Delivery → Delivery)
    → ((x : Delivery) → p x ≡ true → x.id ≡ k)
    → ((x : Delivery) → (f x).id ≡ x.id)
    → ((x : Delivery) → (f x).booking_id ≡ x.booking_id)
    → (r : Delivery) → find_first p db.deliveries ≡ some r
    → DeliveryMove r (f r)
    → Lawful db (record db { deliveries = update_where (λ x. x.id == k) f db.deliveries })
update_found_delivery db p k f by_key same_id same_booking r e move =
    set_deliveries db _ db.next_id (λ s. s.payments) sound evolves
  where
    here : Delivery → Bool
    here x = x.id == k

    sound : Sound db → DeliveriesSound db.next_id (update_where here f db.deliveries)
    sound s = record {
      ids = Distinct-update_where here (λ x. x.id) f same_id db.deliveries s.deliveries.ids;
      fresh =
          All-update_where (λ x. x.id < db.next_id) here f db.deliveries s.deliveries.fresh
            (All-map (λ x. x.id < db.next_id) (λ x. here x ≡ true → (f x).id < db.next_id)
              (λ x l _. rw (same_id x) l) db.deliveries s.deliveries.fresh);
      one_each =
          Distinct-update_where here (λ x. x.booking_id) f same_booking db.deliveries
            s.deliveries.one_each;
    }

    evolves : Sound db → Evolves DeliveryMove db.deliveries (update_where here f db.deliveries)
    evolves s = Evolves-update_All here DeliveryMove f DeliveryMove-refl db.deliveries (
        found_only (λ x. x.id) p (λ x. DeliveryMove x (f x)) k by_key db.deliveries r
          s.deliveries.ids e move)
