-- ===== src/Success/Decisions.antt =====
-- Who may decide on a quote, and what the decision makes of the booking.

use eventy_backend.Base.{
  Bool, ◌||◌, ℕ, ◌≡◌, refl, true, Option, none, some, arith, nat_eq, ◌==◌, List, All,
}
use eventy_backend.Model.{
  CancelledBy, EventStatus, Action, update_where, has_id, ◌>>◌, modify, BookingStatus,
  booking_status_eq, Db, Booking, NoticeKind, find_first, event_of, run_handler, ok, emit,
  transaction,
}
use eventy_backend.Evolution.Updates.{find_first_sound}
use eventy_backend.Bookings.{awaits_customer, reject_quote, set_event_status_if, cancelled_now}
use eventy_backend.Success.{
  Ensures, Ensures-read, Ensures-lookup, Ensures-then, All-updated, All-each,
}
use eventy_backend.Change.Keeps.{Keeps, Keeps-read, Keeps-bind, Keeps-then, Keeps-when}

-- The booking with this id awaits the decision of this customer.
pub record MayDecide (db : Db) (u k : ℕ) : Type 0 where
  pub target : Booking
  pub listed : find_first (awaits_customer u k) db.bookings ≡ some target
  pub same_id : target.id ≡ k
  pub own_booking : target.customer_id ≡ u
  pub is_quoted : target.status ≡ BookingStatus.quote_sent

may_decide :
    (db : Db) (u k : ℕ) (b : Booking)
    → find_first (awaits_customer u k) db.bookings ≡ some b
    → MayDecide db u k
may_decide db u k b found =
    let hit : awaits_customer u k b ≡ true =
      find_first_sound (awaits_customer u k) db.bookings b found in
    record {
      target = b;
      listed = found;
      same_id = ground arith;
      own_booking = ground arith;
      is_quoted = ground arith;
    }

-- The customer's decision that the rows with this id carry.
abbrev pub AllAre : ℕ → (BookingStatus → Bool) → Db → Type 0
AllAre k p db = All (λ b. b.id ≡ k → p b.status ≡ true) db.bookings

abbrev pub is_accepted : BookingStatus → Bool
is_accepted s = s == BookingStatus.confirmed || s == BookingStatus.in_progress

abbrev pub is_cancelled : BookingStatus → Bool
is_cancelled s = s == BookingStatus.cancelled

updated-AllAre :
    (k : ℕ) (p : BookingStatus → Bool) (f : Booking → Booking) (bs : List Booking)
    → ((b : Booking) → p (f b).status ≡ true)
    → All (λ b. b.id ≡ k → p b.status ≡ true) (update_where (has_id k) f bs)
updated-AllAre k p f bs h =
    All-updated _ (has_id k) f bs (All-each _ (λ b. ((λ _ _. h b), (λ miss e. ground arith))) bs)

set_event_status_if-Keeps :
    (k j : ℕ) (p : BookingStatus → Bool) (o : Option EventStatus)
    → Keeps (AllAre k p) (set_event_status_if j o)
unfolding set_event_status_if Keeps run_handler
set_event_status_if-Keeps k j p none db h = h
set_event_status_if-Keeps k j p (some s) db h = h

Ensures-kept :
    {A : Type 0} (K : Db → Type 0) (Q : A → Db → Type 0) (m : Action A) (db : Db)
    → Keeps K m
    → K db
    → ((a : A) (after : Db) → K after → Q a after)
    → Ensures Q m db
unfolding Ensures Keeps
Ensures-kept K Q m db keeps holds q a e = q a (m db).0 (keeps db holds)

Keeps-emit :
    (k : ℕ) (p : BookingStatus → Bool) (kind : NoticeKind) (actor target entity : ℕ)
    → Keeps (AllAre k p) (emit kind actor target entity)
unfolding Keeps run_handler
Keeps-emit k p kind actor target entity db h = h

abbrev write_cancelled : ℕ → ℕ → Db → Db
write_cancelled now k db = record db {
  bookings =
      update_where (has_id k) (cancelled_now now CancelledBy.customer "Customer rejected the quote")
        db.bookings;
}

transaction_cancelled :
    (now k j : ℕ) (o : Option EventStatus) (db : Db)
    → AllAre k is_cancelled
        (transaction (modify (write_cancelled now k) >> set_event_status_if j o) db).0
unfolding set_event_status_if run_handler
transaction_cancelled now k j none db = updated-AllAre k is_cancelled _ db.bookings (λ x. refl)
transaction_cancelled now k j (some s) db = updated-AllAre k is_cancelled _ db.bookings (λ x. refl)

reject_quote-Ensures :
    (now u k : ℕ) (db : Db)
    → Ensures (λ _ after. MayDecide db u k × AllAre k is_cancelled after) (reject_quote now u k) db
unfolding reject_quote
reject_quote-Ensures now u k db =
    let K = AllAre k is_cancelled in
    Ensures-read _ (λ d. d) _ db
      (Ensures-lookup _ (find_first (awaits_customer u k) db.bookings) _ _ db λ b found.
        Ensures-lookup _ (event_of db b.event_id) _ _ db λ event _.
          Ensures-then _ (transaction _) _ db (
            Ensures-kept K _ _ _
              (Keeps-bind K _ _ (Keeps-read K _) λ after.
                Keeps-then K _ _ (Keeps-emit k is_cancelled _ _ _ _)
                  (Keeps-when K _ _ (Keeps-emit k is_cancelled _ _ _ _)))
              (transaction_cancelled now k event.id _ db)
              (λ a after kept. (may_decide db u k b found, kept))))

-- If a quote is rejected, its booking was the customer's and QUOTE_SENT, and it is then CANCELLED.
pub reject_quote_lem :
    (now u k : ℕ) (db : Db)
    → (reject_quote now u k db).1 ≡ ok tt
    → MayDecide db u k × AllAre k is_cancelled (reject_quote now u k db).0
unfolding Ensures
reject_quote_lem now u k db e = reject_quote-Ensures now u k db tt e
