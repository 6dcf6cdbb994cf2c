-- ===== src/PackageBookings/Lawful.antt =====
-- The decisions on a booked package change the database lawfully.
use eventy_backend.Base.{
  ℕ, true, false, Bool, ◌≡◌, refl, Option, none, some, List, [], ◌∷◌, String, arith, includes, All,
  ◌==◌, nat_eq, is_some,
}
use eventy_backend.Model.{
  BookingStatus, booking_status_eq, EventStatus, PaymentStatus, payment_status_eq, CancelledBy, Db,
  Booking, Payment, PackageBooking, NoticeKind, transaction, run_handler, provider_of_user,
}
use eventy_backend.Lifecycle.{BookingMove}
use eventy_backend.Change.{PaymentMove, Sound, Lawful, later_for}
use eventy_backend.Change.Tables.{update_bookings, set_package_bookings}
use eventy_backend.Change.Payments.{
  add_package_payment, AreAlone, found-AreAlone, update_alone_payments,
}
use eventy_backend.Change.Rules.{
  LawfulAt, after_guard, after_read, after_lookup, after_check, after_refusal, after_write,
  then_step, lawful_emit, lawful_pure, Lawful-write, lawful_transaction, lawful_when,
}
use eventy_backend.Bookings.{cancelled_now}
use eventy_backend.Bookings.Lawful.{set_event_status-Lawful}
use eventy_backend.Cleanup.{finished}
use eventy_backend.Packages.{package_payment}
use eventy_backend.PackageBookings.{
  is_child_in, update_children, owned_package_booking, own_package_booking, opened_payment,
  open_payment, confirmed_with_package, accept_package_booking, open_statuses,
  reject_package_booking, complete_event_of, complete_package_booking, is_unpaid, cancelled_payment,
  cancel_unpaid, cancel_package_booking,
}

-- The lookups only read.
pub owned_same : (u k : ℕ) (db : Db) → (owned_package_booking u k db).0 ≡ db
unfolding owned_package_booking run_handler
owned_same u k db = ground arith

pub own_same : (u k : ℕ) (db : Db) → (own_package_booking u k db).0 ≡ db
unfolding own_package_booking run_handler
own_same u k db = ground arith

-- An update of a package's bookings by moves from the given statuses.
pub update_children-Lawful :
    (k : ℕ) (statuses : List BookingStatus) (f : Booking → Booking) (db : Db)
    → ((b : Booking) → (f b).id ≡ b.id)
    → ((b : Booking) → includes statuses b.status ≡ true → BookingMove b (f b))
    → Lawful db (update_children k statuses f db)
update_children-Lawful k statuses f db same move =
    update_bookings db (is_child_in k statuses) f same (λ _. each db.bookings)
  where
    each : (bs : List Booking) → All (λ b. is_child_in k statuses b ≡ true → BookingMove b (f b)) bs
    each [] = tt
    each (b ∷ bs) = ((λ h. move b (ground arith)), each bs)

pub cancel_child :
    (now : ℕ) (by : CancelledBy) (why : String) (b : Booking)
    → includes open_statuses b.status ≡ true
    → BookingMove b (cancelled_now now by why b)
cancel_child now by why b h = ground arith

pub finish_child :
    (now : ℕ) (b : Booking)
    → includes (BookingStatus.in_progress ∷ []) b.status ≡ true
    → BookingMove b (finished now b)
finish_child now b h = ground arith

accept_child :
    (b : Booking)
    → includes (BookingStatus.pending ∷ []) b.status ≡ true
    → BookingMove b (confirmed_with_package b)
accept_child b h = ground arith

open_payment-Lawful : (pb : PackageBooking) (db : Db) → LawfulAt (open_payment pb) db
unfolding open_payment opened_payment
open_payment-Lawful pb db =
    after_read (λ d. d) _ db
      (after_refusal _ _ _ db λ _.
        Lawful-write _ db
          (add_package_payment db (opened_payment db.next_id pb) refl refl (λ e. cc)))

pub accept_package_booking-Lawful :
    (now u k : ℕ) (db : Db) → LawfulAt (accept_package_booking now u k) db
unfolding accept_package_booking
accept_package_booking-Lawful now u k db =
    after_read (λ d. d) _ db
      (after_lookup (provider_of_user db u) _ _ db λ provider _.
        after_guard (owned_package_booking provider.id k) _ db (owned_same provider.id k db) λ pb.
          after_check _ _ _ db λ _.
            then_step (transaction _) _ db
              (lawful_transaction _ db (
                after_write _ _ db (set_package_bookings db _) (
                  after_write _ _ _
                    (update_children-Lawful k (BookingStatus.pending ∷ []) _ _ (λ b. refl)
                      accept_child)
                    (open_payment-Lawful pb _))))
              (lawful_emit NoticeKind.package_booking_accepted u pb.customer_id k _))

pub reject_package_booking-Lawful :
    (now u k : ℕ) (why : Option String) (db : Db) → LawfulAt (reject_package_booking now u k why) db
unfolding reject_package_booking
reject_package_booking-Lawful now u k why db =
    after_read (λ d. d) _ db
      (after_lookup (provider_of_user db u) _ _ db λ provider _.
        after_guard (owned_package_booking provider.id k) _ db (owned_same provider.id k db) λ pb.
          after_check _ _ _ db λ _.
            then_step (transaction _) _ db
              (lawful_transaction _ db (
                after_write _ _ db (set_package_bookings db _) (
                  Lawful-write _ _ (
                    update_children-Lawful k open_statuses _ _ (λ b. refl)
                      (cancel_child now CancelledBy.provider _)))))
              (lawful_emit NoticeKind.package_booking_rejected u pb.customer_id k _))

complete_event_of-Lawful : (o : Option ℕ) (db : Db) → LawfulAt (complete_event_of o) db
unfolding complete_event_of
complete_event_of-Lawful none db = lawful_pure tt db
complete_event_of-Lawful (some k) db =
    Lawful-write _ db (set_event_status-Lawful k EventStatus.completed db)

pub complete_package_booking-Lawful :
    (now u k : ℕ) (db : Db) → LawfulAt (complete_package_booking now u k) db
unfolding complete_package_booking
complete_package_booking-Lawful now u k db =
    after_read (λ d. d) _ db
      (after_lookup (provider_of_user db u) _ _ db λ provider _.
        after_guard (owned_package_booking provider.id k) _ db (owned_same provider.id k db) λ pb.
          after_check _ _ _ db λ _. lawful_transaction _ db (
            after_write _ _ db (set_package_bookings db _) (
              after_write _ _ _
                (update_children-Lawful k (BookingStatus.in_progress ∷ []) _ _ (λ b. refl)
                  (finish_child now))
                (complete_event_of-Lawful pb.event_id _))))

-- A package's payment may take any status but PENDING.
pub package_forward :
    (c : Bool) (s t : PaymentStatus)
    → c ≡ false
    → (t == PaymentStatus.pending) ≡ false
    → later_for c s t ≡ true
package_forward c s t e h = ground arith

cancel-PaymentMove :
    (p : Payment) → is_some p.booking_id ≡ false → PaymentMove p (cancelled_payment p)
cancel-PaymentMove p alone = record {
  same_id = refl;
  same_booking = refl;
  same_package = refl;
  same_payer = refl;
  same_amount = refl;
  same_method = λ _. refl;
  forward = package_forward _ _ PaymentStatus.cancelled alone refl;
  still_dated = λ d. d;
}

-- What the cancellation of a payment that was read earlier needs.
abbrev pub IsAlone : Option Payment → List Payment → Type 0
IsAlone none ps = Unit {0}
IsAlone (some p) ps = AreAlone p.id ps

pub found-IsAlone :
    (k : ℕ) (o : Option Payment) (db : Db)
    → Sound db
    → package_payment db k ≡ o
    → IsAlone o db.payments
found-IsAlone k none db s e = tt
found-IsAlone k (some p) db s e = found-AreAlone db k p s e

pub cancel_unpaid-Lawful :
    (o : Option Payment) (db : Db)
    → (Sound db → IsAlone o db.payments)
    → LawfulAt (cancel_unpaid o) db
unfolding cancel_unpaid
cancel_unpaid-Lawful none db alone = lawful_pure tt db
cancel_unpaid-Lawful (some p) db alone = lawful_when (is_unpaid p) _ db λ _. Lawful-write _ db (
    update_alone_payments db p.id cancelled_payment (λ x. refl) (λ x. refl) alone cancel-PaymentMove
      (λ _ _ e. cc))

pub cancellable_child :
    (now : ℕ) (by : CancelledBy) (why : String) (b : Booking)
    → includes (BookingStatus.pending ∷ BookingStatus.confirmed ∷ []) b.status ≡ true
    → BookingMove b (cancelled_now now by why b)
cancellable_child now by why b h = ground arith

pub cancel_package_booking-Lawful :
    (now u k : ℕ) (why : Option String) (db : Db) → LawfulAt (cancel_package_booking now u k why) db
unfolding cancel_package_booking
cancel_package_booking-Lawful now u k why db =
    after_guard (own_package_booking u k) _ db (own_same u k db) λ pb.
      after_read (λ d. package_payment d k) _ db
        (after_check _ _ _ db λ _. lawful_transaction _ db (
          after_write _ _ db (set_package_bookings db _) (
            after_write _ _ _
              (update_children-Lawful k (BookingStatus.pending ∷ BookingStatus.confirmed ∷ []) _ _
                (λ b. refl) (cancellable_child now CancelledBy.customer _))
              (cancel_unpaid-Lawful (package_payment db k) _ (λ s. found-IsAlone k _ _ s refl)))))
