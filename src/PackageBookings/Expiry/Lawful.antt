-- ===== src/PackageBookings/Expiry/Lawful.antt =====
-- The jobs on booked packages change the database lawfully.
use eventy_backend.Base.{
  ℕ, refl, Option, none, some, List, [], ◌∷◌, All, ◌==◌, nat_eq, keep, Bool-cases, inl, inr,
}
use eventy_backend.Model.{
  BookingStatus, EventStatus, PaymentStatus, payment_status_eq, CancelledBy, Db, Event, Payment,
  PackageBooking, NoticeKind, transaction, run_handler, event_of, update_where,
}
use eventy_backend.Evolution.Updates.{All-map, All-update_where}
use eventy_backend.Change.Tables.{set_package_bookings}
use eventy_backend.Change.Payments.{AreAlone}
use eventy_backend.Change.Rules.{
  LawfulAt, after_read, after_write, then_step, lawful_emit, lawful_pure, Lawful-write,
  lawful_transaction, lawful_when, lawful_for_each, lawful_loop, with-Sound,
}
use eventy_backend.Bookings.Lawful.{set_event_status-Lawful}
use eventy_backend.Packages.{package_payment}
use eventy_backend.PackageBookings.{open_statuses, cancel_unpaid, cancelled_payment}
use eventy_backend.PackageBookings.Lawful.{
  update_children-Lawful, cancel_child, finish_child, cancellable_child, IsAlone, found-IsAlone,
  cancel_unpaid-Lawful,
}
use eventy_backend.PackageBookings.Expiry.{
  complete_finished, complete_finished_package_bookings, tell_both, expire_pending,
  expire_pending_package_bookings, expire_unpaid, is_overdue, expire_unpaid_package_bookings,
}

complete_finished-Lawful :
    (now : ℕ) (pb : PackageBooking) (o : Option Event) (db : Db)
    → LawfulAt (complete_finished now pb o) db
unfolding complete_finished
complete_finished-Lawful now pb none db = lawful_pure tt db
complete_finished-Lawful now pb (some e) db = lawful_when _ _ db λ _. lawful_transaction _ db (
    after_write _ _ db (set_package_bookings db _) (
      after_write _ _ _
        (update_children-Lawful pb.id (BookingStatus.in_progress ∷ []) _ _ (λ b. refl)
          (finish_child now))
        (Lawful-write _ _ (set_event_status-Lawful e.id EventStatus.completed _))))

pub complete_finished_package_bookings-Lawful :
    (now : ℕ) (db : Db) → LawfulAt (complete_finished_package_bookings now) db
unfolding complete_finished_package_bookings
complete_finished_package_bookings-Lawful now db =
    after_read (λ d. d) _ db
      (lawful_for_each _ (λ p d. complete_finished-Lawful now p (event_of db p.event_id) d) _ db)

tell_both-Lawful :
    (kind : NoticeKind) (pb : PackageBooking) (db : Db) → LawfulAt (tell_both kind pb) db
unfolding tell_both
tell_both-Lawful kind pb db =
    after_read (λ d. d) _ db
      (then_step _ _ db (lawful_emit kind _ pb.customer_id pb.id db) (lawful_emit kind _ _ pb.id _))

expire_pending-Lawful :
    (now : ℕ) (pb : PackageBooking) (db : Db) → LawfulAt (expire_pending now pb) db
unfolding expire_pending
expire_pending-Lawful now pb db =
    then_step (transaction _) _ db
      (lawful_transaction _ db (
        after_write _ _ db (set_package_bookings db _) (
          Lawful-write _ _ (
            update_children-Lawful pb.id (BookingStatus.pending ∷ BookingStatus.confirmed ∷ []) _ _
              (λ b. refl) (cancellable_child now CancelledBy.system _)))))
      (tell_both-Lawful NoticeKind.package_booking_expired pb _)

pub expire_pending_package_bookings-Lawful :
    (now : ℕ) (db : Db) → LawfulAt (expire_pending_package_bookings now) db
unfolding expire_pending_package_bookings
expire_pending_package_bookings-Lawful now db =
    after_read _ _ db (lawful_for_each _ (expire_pending-Lawful now) _ db)

expire_unpaid-Lawful :
    (now : ℕ) (pb : PackageBooking) (o : Option Payment) (db : Db)
    → IsAlone o db.payments
    → LawfulAt (expire_unpaid now pb o) db
unfolding expire_unpaid
expire_unpaid-Lawful now pb o db alone = lawful_when _ _ db λ _.
    then_step (transaction _) _ db
      (lawful_transaction _ db (
        after_write _ _ db (set_package_bookings db _) (
          after_write _ _ _
            (update_children-Lawful pb.id open_statuses _ _ (λ b. refl)
              (cancel_child now CancelledBy.system _))
            (cancel_unpaid-Lawful o _ (λ _. alone)))))
      (tell_both-Lawful NoticeKind.package_payment_expired pb _)

-- A round leaves the rows of the other payments for no single booking.
AreAlone-cancelled :
    (j k : ℕ) (ps : List Payment)
    → AreAlone j ps
    → AreAlone j (update_where (λ x. x.id == k) cancelled_payment ps)
AreAlone-cancelled j k ps h =
    All-update_where _ (λ x. x.id == k) cancelled_payment ps h
      (All-map _ _ (λ x alone _. alone) ps h)

round-AreAlone :
    (now j : ℕ) (pb : PackageBooking) (o : Option Payment) (db : Db)
    → AreAlone j db.payments
    → AreAlone j (expire_unpaid now pb o db).0.payments
unfolding expire_unpaid run_handler cancel_unpaid tell_both
round-AreAlone now j pb none db h = h
round-AreAlone now j pb (some p) db h = elim (Bool-cases (p.status == PaymentStatus.paid)) [
  | inl paid ↦ rw paid h
  | inr due ↦ rw due (AreAlone-cancelled j p.id db.payments h)
]

-- The payments of the bookings that are left.
AllAlone : Db → List PackageBooking → Db → Type 0
AllAlone before rest db = All (λ p. IsAlone (package_payment before p.id) db.payments) rest

round-IsAlone :
    (now : ℕ) (pb : PackageBooking) (o q : Option Payment) (db : Db)
    → IsAlone q db.payments
    → IsAlone q (expire_unpaid now pb o db).0.payments
round-IsAlone now pb o none db h = tt
round-IsAlone now pb o (some p) db h = round-AreAlone now p.id pb o db h

pub expire_unpaid_package_bookings-Lawful :
    (now : ℕ) (db : Db) → LawfulAt (expire_unpaid_package_bookings now) db
unfolding expire_unpaid_package_bookings AllAlone
expire_unpaid_package_bookings-Lawful now db = with-Sound _ db λ s.
    after_read (λ d. d) _ db
      (lawful_loop (AllAlone db) (λ p. expire_unpaid now p (package_payment db p.id))
        (λ p rest d j. (
          expire_unpaid-Lawful now p _ d j.0,
          All-map _ _ (λ x h. round-IsAlone now p _ (package_payment db x.id) d h) rest j.1,
        ))
        (keep (is_overdue now) db.package_bookings) db
        (each (λ p. found-IsAlone p.id _ db s refl) _))
  where
    each :
        {P : PackageBooking → Type 0}
        → ((x : PackageBooking) → P x)
        → (xs : List PackageBooking) → All P xs
    each h [] = tt
    each h (x ∷ xs) = (h x, each h xs)
