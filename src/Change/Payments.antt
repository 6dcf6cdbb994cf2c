-- ===== src/Change/Payments.antt =====
-- Changing the payments lawfully.
use eventy_backend.Base.{
  ℕ, suc, ◌<◌, ◌≡◌, ◌≢◌, sym, ◌∙◌, Bool, true, false, none, some, ◌⊎◌, List, [], ◌∷◌, ◌++◌, All,
  arith, is_some, Bool-cases, inl, inr, ◌==◌, nat_eq,
}
use eventy_backend.Model.{Db, Payment, Delivery, Discount, find_first, update_where, is_id}
use eventy_backend.Evolution.{Evolves, Evolves-refl, Evolves-append}
use eventy_backend.Evolution.Updates.{
  All-map, All-update_where, All-append, Distinct-append, Distinct-update_where, Evolves-update_All,
  found_only, found_own, none-found, All-both, find_first_sound, All-found,
}
use eventy_backend.Lifecycle.{BookingMove}
use eventy_backend.Lifecycle.Order.{BookingMove-refl}
use eventy_backend.Change.{
  PaymentMove, DeliveryMove, EventMove, IsStamped, IsSeparate, Apart, OnePerBooking, PaymentsSound,
  DeliveriesSound, Sound, Lawful,
}
use eventy_backend.Discounts.Overlap.{DiscountsKept}
use eventy_backend.Change.Tables.{PaymentMove-refl, DeliveryMove-refl, EventMove-refl}

-- Such a change leaves the bookings and the events as they are.
set_payments :
    (db : Db) (ps : List Payment) (next : ℕ)
    → (Sound db → DeliveriesSound next db.deliveries)
    → (Sound db → PaymentsSound next ps)
    → (Sound db → Evolves PaymentMove db.payments ps)
    → Lawful db (record db { payments = ps; next_id = next })
set_payments db ps next ds h ev s = record {
  sound = record { booking_ids = s.booking_ids; payments = h s; deliveries = ds s };
  bookings = Evolves-refl BookingMove BookingMove-refl db.bookings;
  payments = ev s;
  deliveries = Evolves-refl DeliveryMove DeliveryMove-refl db.deliveries;
  events = Evolves-refl EventMove EventMove-refl db.events;
  discounts = λ real. (real, (λ h. h));
}

-- Taking an id leaves the tables sound.
pub payments_next : (n : ℕ) (ps : List Payment) → PaymentsSound n ps → PaymentsSound (suc n) ps
payments_next n ps h = record {
  ids = h.ids;
  fresh = All-map (λ p. p.id < n) (λ p. p.id < suc n) (λ p l. omega arith) ps h.fresh;
  one_each = h.one_each;
  stamped = h.stamped;
  separate = h.separate;
}

pub deliveries_next :
    (n : ℕ) (ds : List Delivery) → DeliveriesSound n ds → DeliveriesSound (suc n) ds
deliveries_next n ds h = record {
  ids = h.ids;
  fresh = All-map (λ d. d.id < n) (λ d. d.id < suc n) (λ d l. omega arith) ds h.fresh;
  one_each = h.one_each;
}

-- A change of the discounts that may take ids.
pub set_discounts :
    (db : Db) (ds : List Discount) (next : ℕ)
    → ((next ≡ db.next_id) ⊎ (next ≡ suc db.next_id))
    → DiscountsKept db.discounts ds
    → Lawful db (record db { discounts = ds; next_id = next })
set_discounts db ds next n h s = record {
  sound = record {
    booking_ids = s.booking_ids;
    payments = elim n [
      | inl e ↦ rw e s.payments
      | inr e ↦ rw e (payments_next db.next_id db.payments s.payments)
    ];
    deliveries = elim n [
      | inl e ↦ rw e s.deliveries
      | inr e ↦ rw e (deliveries_next db.next_id db.deliveries s.deliveries)
    ];
  };
  bookings = Evolves-refl BookingMove BookingMove-refl db.bookings;
  payments = Evolves-refl PaymentMove PaymentMove-refl db.payments;
  deliveries = Evolves-refl DeliveryMove DeliveryMove-refl db.deliveries;
  events = Evolves-refl EventMove EventMove-refl db.events;
  discounts = h;
}

OnePerBooking-update :
    (p : Payment → Bool) (f : Payment → Payment)
    → ((x : Payment) → (f x).booking_id ≡ x.booking_id)
    → (ps : List Payment) → OnePerBooking ps
    → OnePerBooking (update_where p f ps)
unfolding update_where
OnePerBooking-update p f same [] h = tt
OnePerBooking-update p f same (x ∷ xs) h =
    let rest = OnePerBooking-update p f same xs h.1 in
    let apart : All (Apart x) (update_where p f xs) = All-update_where (Apart x) p f xs h.0 (
      All-map (Apart x) (λ y. p y ≡ true → Apart x (f y)) (λ y a _ k e c. a k e (sym (same y) ∙ c))
        xs h.0) in
    elim (Bool-cases (p x)) [
      | inl hit ↦ rw hit (
        All-map (Apart x) (Apart (f x)) (λ y a k e. a k (sym (same x) ∙ e)) (update_where p f xs)
            apart,
        rest,
      )
      | inr miss ↦ rw miss (apart, rest)
    ]

-- What an update may do to a payment.
record PaymentStep (f : Payment → Payment) (x : Payment) : Type 0 where
  move : PaymentMove x (f x)
  stamp : IsStamped x → IsStamped (f x)

IsSeparate-move : (a b : Payment) → PaymentMove a b → IsSeparate a → IsSeparate b
IsSeparate-move a b m h = rw (m.same_booking, m.same_package) h

update_payments :
    (db : Db) (here : Payment → Bool) (f : Payment → Payment)
    → ((x : Payment) → (f x).id ≡ x.id)
    → ((x : Payment) → (f x).booking_id ≡ x.booking_id)
    → (Sound db → All (λ x. here x ≡ true → PaymentStep f x) db.payments)
    → Lawful db (record db { payments = update_where here f db.payments })
update_payments db here f same_id same_booking h =
    set_payments db _ db.next_id (λ s. s.deliveries) sound
      (λ s.
        Evolves-update_All here PaymentMove f PaymentMove-refl db.payments
          (All-map _ _ (λ x g e. (g e).move) db.payments (h s)))
  where
    sound : Sound db → PaymentsSound db.next_id (update_where here f db.payments)
    sound s = record {
      ids = Distinct-update_where here (λ x. x.id) f same_id db.payments s.payments.ids;
      fresh =
          All-update_where (λ x. x.id < db.next_id) here f db.payments s.payments.fresh
            (All-map (λ x. x.id < db.next_id) (λ x. here x ≡ true → (f x).id < db.next_id)
              (λ x l _. rw (same_id x) l) db.payments s.payments.fresh);
      one_each = OnePerBooking-update here f same_booking db.payments s.payments.one_each;
      stamped = All-update_where IsStamped here f db.payments s.payments.stamped (
          All-map _ _ (λ x both e. (both.1 e).stamp both.0) db.payments
            (All-both IsStamped _ db.payments s.payments.stamped (h s)));
      separate = All-update_where IsSeparate here f db.payments s.payments.separate (
          All-map _ _ (λ x both e. IsSeparate-move x (f x) (both.1 e).move both.0) db.payments
            (All-both IsSeparate _ db.payments s.payments.separate (h s)));
    }

-- An update by id of the payment that a lookup found by id.
pub update_found_payment :
    (db : Db) (p : Payment → Bool) (k : ℕ) (f : Payment → Payment)
    → ((x : Payment) → p x ≡ true → x.id ≡ k)
    → ((x : Payment) → (f x).id ≡ x.id)
    → ((x : Payment) → (f x).booking_id ≡ x.booking_id)
    → (r : Payment) → find_first p db.payments ≡ some r
    → PaymentMove r (f r)
    → (IsStamped r → IsStamped (f r))
    → Lawful db (record db { payments = update_where (λ x. x.id == k) f db.payments })
update_found_payment db p k f by_key same_id same_booking r e move stamp =
    update_payments db (λ x. x.id == k) f same_id same_booking
      λ s.
        found_only (λ x. x.id) p (PaymentStep f) k by_key db.payments r s.payments.ids e
          (record { move = move; stamp = stamp })

-- An update of the payment that a lookup found in another way.
pub update_own_payment :
    (db : Db) (p : Payment → Bool) (f : Payment → Payment)
    → ((x : Payment) → (f x).id ≡ x.id)
    → ((x : Payment) → (f x).booking_id ≡ x.booking_id)
    → (r : Payment) → find_first p db.payments ≡ some r
    → PaymentMove r (f r)
    → (IsStamped r → IsStamped (f r))
    → Lawful db (record db { payments = update_where (λ x. x.id == r.id) f db.payments })
update_own_payment db p f same_id same_booking r e move stamp =
    update_payments db (λ x. x.id == r.id) f same_id same_booking
      λ s.
        found_own (λ x. x.id) p (PaymentStep f) db.payments r s.payments.ids e
          (record { move = move; stamp = stamp })

-- The rows that a lookup by package finds are for no single booking.
abbrev pub AreAlone : ℕ → List Payment → Type 0
AreAlone k ps = All (λ x. (x.id == k) ≡ true → is_some x.booking_id ≡ false) ps

pub found-AreAlone :
    (db : Db) (k : ℕ) (r : Payment)
    → Sound db
    → find_first (λ p. is_id p.package_event_booking_id k) db.payments ≡ some r
    → AreAlone r.id db.payments
found-AreAlone db k r s e =
    let ours : is_id r.package_event_booking_id k ≡ true =
      find_first_sound (λ p. is_id p.package_event_booking_id k) db.payments r e in
    found_own (λ x. x.id) (λ p. is_id p.package_event_booking_id k)
      (λ x. is_some x.booking_id ≡ false) db.payments r s.payments.ids e
      (All-found (λ p. is_id p.package_event_booking_id k) IsSeparate db.payments r
        s.payments.separate e (ground arith))

-- An update of such rows.
pub update_alone_payments :
    (db : Db) (k : ℕ) (f : Payment → Payment)
    → ((x : Payment) → (f x).id ≡ x.id)
    → ((x : Payment) → (f x).booking_id ≡ x.booking_id)
    → (Sound db → AreAlone k db.payments)
    → ((x : Payment) → is_some x.booking_id ≡ false → PaymentMove x (f x))
    → ((x : Payment) → IsStamped x → IsStamped (f x))
    → Lawful db (record db { payments = update_where (λ x. x.id == k) f db.payments })
update_alone_payments db k f same_id same_booking alone move stamp =
    update_payments db (λ x. x.id == k) f same_id same_booking
      λ s.
        All-map _ _ (λ x h e. record { move = move x (h e); stamp = stamp x }) db.payments (alone s)

Apart-of_absent :
    (k : ℕ) (row : Payment) (ps : List Payment)
    → row.booking_id ≡ some k
    → All (λ p. is_id p.booking_id k ≡ false) ps
    → All (λ p. Apart p row) ps
Apart-of_absent k row [] own h = tt
Apart-of_absent k row (p ∷ ps) own h = (apart, Apart-of_absent k row ps own h.1)
  where
    apart : Apart p row
    apart j e c = ground (arith, h.0)

OnePerBooking-append :
    (ps : List Payment) (row : Payment)
    → OnePerBooking ps
    → All (λ p. Apart p row) ps
    → OnePerBooking (ps ++ row ∷ [])
OnePerBooking-append [] row h a = (tt, tt)
OnePerBooking-append (p ∷ ps) row h a =
    (All-append (Apart p) ps row h.0 a.0, OnePerBooking-append ps row h.1 a.1)

-- A new payment for what has none.
insert_row :
    (db : Db) (row : Payment)
    → row.id ≡ db.next_id
    → IsStamped row
    → IsSeparate row
    → All (λ p. Apart p row) db.payments
    → Lawful db (record db { payments = db.payments ++ row ∷ []; next_id = suc db.next_id })
insert_row db row id stamp separate apart =
    set_payments db _ (suc db.next_id) (λ s. deliveries_next db.next_id db.deliveries s.deliveries)
      sound (λ s. Evolves-append PaymentMove PaymentMove-refl db.payments (row ∷ []))
  where
    sound : Sound db → PaymentsSound (suc db.next_id) (db.payments ++ row ∷ [])
    sound s = record {
      ids =
          Distinct-append (λ p. p.id) db.payments row s.payments.ids
            (All-map (λ p. p.id < db.next_id) (λ p. p.id ≢ row.id) (λ p l e. omega arith)
              db.payments s.payments.fresh);
      fresh =
          All-append (λ p. p.id < suc db.next_id) db.payments row
            (All-map (λ p. p.id < db.next_id) (λ p. p.id < suc db.next_id) (λ p l. omega arith)
              db.payments s.payments.fresh)
            (omega arith);
      one_each = OnePerBooking-append db.payments row s.payments.one_each apart;
      stamped = All-append IsStamped db.payments row s.payments.stamped stamp;
      separate = All-append IsSeparate db.payments row s.payments.separate separate;
    }

-- A new payment for a booking that has none.
pub add_payment :
    (db : Db) (k : ℕ) (row : Payment)
    → row.id ≡ db.next_id
    → row.booking_id ≡ some k
    → row.package_event_booking_id ≡ none
    → IsStamped row
    → find_first (λ p. is_id p.booking_id k) db.payments ≡ none
    → Lawful db (record db { payments = db.payments ++ row ∷ []; next_id = suc db.next_id })
add_payment db k row id own alone stamp absent =
    insert_row db row id stamp (λ e. ground arith)
      (Apart-of_absent k row db.payments own
        (none-found (λ p. is_id p.booking_id k) db.payments absent))

-- A new payment that is for no single booking.
pub add_package_payment :
    (db : Db) (row : Payment)
    → row.id ≡ db.next_id
    → row.booking_id ≡ none
    → IsStamped row
    → Lawful db (record db { payments = db.payments ++ row ∷ []; next_id = suc db.next_id })
add_package_payment db row id own stamp =
    insert_row db row id stamp (λ _. ground arith) (each db.payments)
  where
    each : (ps : List Payment) → All (λ p. Apart p row) ps
    each [] = tt
    each (p ∷ ps) = ((λ k _ e. cc), each ps)
