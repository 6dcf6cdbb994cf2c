-- ===== src/Bookings/Bulk/Rounds.antt =====
-- The rounds of a decision on several quotes are lawful, and leave the rows of the other rounds as they
-- were read.
use eventy_backend.Base.{
  none_of_absent, ℕ, Bool, true, false, not, ◌&&◌, ◌≡◌, ◌≢◌, refl, ◌∙◌, Option, none, some, List,
  String, string_eq, ◌==◌, nat_eq, nat_beq_iff, includes, is_some, if◌then◌else◌, all, keep, All,
  arith, Bool-cases, inl, inr,
}
use eventy_backend.Model.{
  BookingStatus, booking_status_eq, EventStatus, PaymentMethod, PaymentStatus, Db, Booking,
  run_handler, booking_by_id, has_id, in_event, for_each, Action, update_where,
}
use eventy_backend.Evolution.{Distinct}
use eventy_backend.Evolution.Updates.{All-map, All-both}
use eventy_backend.Evolution.Lookups.{find-update_other}
use eventy_backend.Lifecycle.{BookingMove}
use eventy_backend.Change.{has_been_paid}
use eventy_backend.Change.Tables.{update_found_booking}
use eventy_backend.Change.Payments.{add_payment}
use eventy_backend.Change.Rules.{
  LawfulAt, then_step, after_read, after_lookup, after_refusal, after_write, Lawful-write,
  lawful_pure, lawful_loop,
}
use eventy_backend.Change.Keeps.{
  Keeps, Keeps-bind, Keeps-then, Keeps-read, Keeps-lookup, Keeps-refusal, Keeps-write, Keeps-when,
}
use eventy_backend.Deliveries.{create_for, create_delivery}
use eventy_backend.Deliveries.Lawful.{create_for-Lawful}
use eventy_backend.Bookings.{is_empty}
use eventy_backend.Bookings.Lawful.{set_event_status-Lawful}
use eventy_backend.Bookings.Bulk.{
  lost_statuses, is_transfer, accepted, bulk_payment, insert_bulk_payment, accept_quote, declined,
  decline_quote, close_event,
}

accept_move :
    (now : ℕ) (method : PaymentMethod) (b : Booking)
    → b.status ≡ BookingStatus.quote_sent
    → BookingMove b (accepted now method b)
unfolding accepted
accept_move now method b h = ground arith

decline_move :
    (now : ℕ) (reason : String) (b : Booking)
    → b.status ≡ BookingStatus.quote_sent
    → BookingMove b (declined now reason b)
unfolding declined
decline_move now reason b h = elim (Bool-cases (reason == "")) [
  | inl e ↦ rw e (ground arith)
  | inr e ↦ rw e (ground arith)
]

declined_id : (now : ℕ) (reason : String) (b : Booking) → (declined now reason b).id ≡ b.id
unfolding declined
declined_id now reason b = elim (Bool-cases (reason == "")) [
  | inl e ↦ rw e refl
  | inr e ↦ rw e refl
]

-- The row is still as it was read, and QUOTE_SENT.
abbrev pub Quoted : Db → Booking → Type 0
Quoted db b = (booking_by_id db b.id ≡ some b) × (b.status ≡ BookingStatus.quote_sent)

-- A change of another row leaves it so.
Quoted-other :
    (f : Booking → Booking) (k : ℕ) (db : Db) (b : Booking)
    → ((x : Booking) → (f x).id ≡ x.id)
    → b.id ≢ k
    → Quoted db b
    → Quoted (record db { bookings = update_where (has_id k) f db.bookings }) b
Quoted-other f k db b same ne h =
    (find-update_other (λ x. x.id) f b.id k same ne db.bookings ∙ h.0, h.1)

bulk_stamp :
    (now : ℕ) (c : Bool)
    → has_been_paid (if c then PaymentStatus.paid else PaymentStatus.processing) ≡ true
    → is_some (if c then some now else none) ≡ true
bulk_stamp now true h = refl
bulk_stamp now false h = cc

insert_bulk_payment-Lawful :
    (now u : ℕ) (method : PaymentMethod) (b : Booking) (db : Db)
    → LawfulAt (insert_bulk_payment now u method b) db
unfolding insert_bulk_payment bulk_payment
insert_bulk_payment-Lawful now u method b db =
    after_read (λ d. d) _ db
      (after_refusal _ _ _ db λ none_yet. Lawful-write _ db (
        add_payment db b.id (bulk_payment db.next_id now u method b) refl refl refl
          (bulk_stamp now (is_transfer method)) (none_of_absent _ none_yet)))

pub accept_quote-Lawful :
    (now u : ℕ) (o : Option PaymentMethod) (b : Booking) (db : Db)
    → Quoted db b
    → LawfulAt (accept_quote now u o b) db
unfolding accept_quote accepted
accept_quote-Lawful now u o b db h = after_lookup o _ _ db λ method _.
    after_write _ _ db
      (update_found_booking db (has_id b.id) b.id (accepted now method)
        (λ x e. (nat_beq_iff x.id b.id).0 e) (λ x. refl) b h.0 (accept_move now method b h.1))
      (then_step (insert_bulk_payment now u method b) _ _
        (insert_bulk_payment-Lawful now u method b _) (create_for-Lawful (some b) _))

pub decline_quote-Lawful :
    (now : ℕ) (reason : String) (b : Booking) (db : Db)
    → Quoted db b
    → LawfulAt (decline_quote now reason b) db
unfolding decline_quote
decline_quote-Lawful now reason b db h = Lawful-write _ db (
    update_found_booking db (has_id b.id) b.id (declined now reason)
      (λ x e. (nat_beq_iff x.id b.id).0 e) (declined_id now reason) b h.0
      (decline_move now reason b h.1))

create_delivery-Keeps :
    (K : Db → Type 0)
    → ((db after : Db) → after.bookings ≡ db.bookings → K db → K after)
    → (b : Booking) → Keeps K (create_delivery b)
unfolding create_delivery Keeps run_handler
create_delivery-Keeps K only b db k = only db _ refl k

create_for-Keeps :
    (K : Db → Type 0)
    → ((db after : Db) → after.bookings ≡ db.bookings → K db → K after)
    → (b : Booking) → Keeps K (create_for (some b))
unfolding create_for
create_for-Keeps K only b =
    Keeps-bind K _ _ (Keeps-read K _) λ db. Keeps-when K _ _ (create_delivery-Keeps K only b)

-- A round leaves the other rows.
pub accept_quote_others :
    (now u : ℕ) (o : Option PaymentMethod) (b x : Booking)
    → x.id ≢ b.id
    → Keeps (λ d. Quoted d x) (accept_quote now u o b)
unfolding accept_quote insert_bulk_payment accepted
accept_quote_others now u o b x ne =
    let K : Db → Type 0 = λ d. Quoted d x in
    Keeps-bind K _ _ (Keeps-lookup K o _) λ method.
      Keeps-then K _ _
        (Keeps-write K _ λ d h. Quoted-other (accepted now method) b.id d x (λ y. refl) ne h)
        (Keeps-then K _ _
          (Keeps-bind K _ _ (Keeps-read K _)
            λ d. Keeps-then K _ _ (Keeps-refusal K _ _) (Keeps-write K _ λ e h. h))
          (create_for-Keeps K (λ d after same h. (rw same h.0, h.1)) b))

-- The bookings that are left are as they were read.
unfoldable pub Left : List Booking → Db → Type 0
Left rest db = All (Quoted db) rest × Distinct (λ b. b.id) rest

-- A loop whose rounds are lawful at a quoted row and leave the other rows.
pub Quoted-loop :
    (f : Booking → Action (Unit {0}))
    → ((b : Booking) (db : Db) → Quoted db b → LawfulAt (f b) db)
    → ((b x : Booking) → x.id ≢ b.id → Keeps (λ d. Quoted d x) (f b))
    → (bs : List Booking) (db : Db) → Left bs db
    → LawfulAt (for_each bs f) db
unfolding Left Keeps
Quoted-loop f lawful others bs db left =
    lawful_loop Left f
      (λ b rest d j. (
        lawful b d j.0.0,
        (All-map _ _ (λ x h. others b x h.1 d h.0) rest (All-both _ _ rest j.0.1 j.1.0), j.1.1),
      ))
      bs db left

pub decline_quote_others :
    (now : ℕ) (reason : String) (b x : Booking)
    → x.id ≢ b.id
    → Keeps (λ d. Quoted d x) (decline_quote now reason b)
unfolding decline_quote
decline_quote_others now reason b x ne =
    Keeps-write (λ d. Quoted d x) _
      λ d h. Quoted-other (declined now reason) b.id d x (declined_id now reason) ne h

pub close_event-Lawful : (k : ℕ) (db : Db) → LawfulAt (close_event k) db
unfolding close_event
close_event-Lawful k db =
    after_read (λ d. d) _ db
      (elim (Bool-cases (
        all (λ b. includes lost_statuses b.status) (keep (in_event k) db.bookings)
        && not (is_empty (keep (in_event k) db.bookings)))) [
          | inl h ↦ rw h (
              after_write _ _ db (set_event_status-Lawful k EventStatus.cancelled db)
                (lawful_pure true _))
          | inr h ↦ rw h (lawful_pure false db)
        ])
