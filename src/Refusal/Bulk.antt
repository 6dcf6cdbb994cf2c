-- ===== src/Refusal/Bulk.antt =====
-- A refused decision on several quotes has changed nothing.
use eventy_backend.Base.{ℕ, ◌≡◌, Option, none, some, List, nat_eq, arith}
use eventy_backend.Model.{Db, Booking, PaymentMethod, NoticeKind, event_by_id, run_handler}
use eventy_backend.Refusal.{
  Harmless, Settled, Harmless-read, Harmless-passed, Harmless-lookup, Harmless-check,
  Harmless-refusal, Harmless-transaction, Settled-then, Settled-bind, Settled-gets, Settled-pure,
  Settled-for_each, Settled-when, Settled-emit,
}
use eventy_backend.Refusal.Bookings.{progress_booking_and_event-Settled}
use eventy_backend.Bookings.Bulk.{
  BulkQuoteDecision, check_decision, decide_all, progress_if_transfer, bulk_quote_decision,
}

progress_if_transfer-Settled :
    (now k : ℕ) (o : Option PaymentMethod) (bs : List Booking)
    → Settled (progress_if_transfer now k o bs)
unfolding progress_if_transfer
progress_if_transfer-Settled now k none bs = Settled-pure tt
progress_if_transfer-Settled now k (some m) bs =
    Settled-when _ _ (Settled-for_each _ (λ b. progress_booking_and_event-Settled now b.id k) bs)

check_same : (dto : BulkQuoteDecision) (db : Db) → (check_decision dto db).0 ≡ db
unfolding check_decision run_handler
check_same dto db = ground arith

pub bulk_quote_decision-Harmless :
    (now u k : ℕ) (dto : BulkQuoteDecision) (db : Db)
    → Harmless (bulk_quote_decision now u k dto) db
unfolding bulk_quote_decision decide_all
bulk_quote_decision-Harmless now u k dto db =
    Harmless-passed (check_decision dto) _ db (check_same dto db) (
      Harmless-check _ _ _ db (
        Harmless-refusal _ _ _ db (
          Harmless-read (λ d. d) _ db
            (Harmless-lookup (event_by_id db k) _ _ db λ event. Harmless-check _ _ _ db (
              Harmless-check _ _ _ db (
                Harmless-check _ _ _ db (
                  Harmless-refusal _ _ _ db (
                    Harmless-transaction _ _ db λ cancelled.
                      Settled-then _ _
                        (Settled-for_each _ (λ b. Settled-emit NoticeKind.booking_accepted u _ b.id)
                          _)
                        (Settled-then _ _
                          (Settled-for_each _
                            (λ b. Settled-emit NoticeKind.booking_rejected u _ b.id) _)
                          (Settled-then _ _
                            (Settled-when _ _ (Settled-emit NoticeKind.event_cancelled u u k))
                            (Settled-then _ _ (progress_if_transfer-Settled now k dto.method _)
                              (Settled-bind _ _ (Settled-gets _) λ after. Settled-pure _))))))))))))
