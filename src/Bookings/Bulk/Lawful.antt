-- ===== src/Bookings/Bulk/Lawful.antt =====
-- A decision on several quotes changes the database lawfully.
use eventy_backend.Base.{
  ℕ, Bool, true, false, ◌≡◌, ◌≢◌, sym, Option, none, some, List, [], ◌∷◌, ◌++◌, string_eq, ◌==◌,
  nat_eq, nat_beq_iff, includes, all, any, keep, All, arith, Bool-cases, inl, inr, distinct,
}
use eventy_backend.Model.{
  BookingStatus, booking_status_eq, PaymentMethod, Db, Booking, NoticeKind, run_handler,
  event_by_id, for_each,
}
use eventy_backend.Evolution.Updates.{All-map, All-both}
use eventy_backend.Evolution.Lookups.{found_by_key, keep-All, keep_sound, Distinct-keep}
use eventy_backend.Change.{Sound}
use eventy_backend.Change.Rules.{
  LawfulAt, after_step, then_step, then_guard, after_read, after_lookup, after_check, after_refusal,
  lawful_emit, lawful_when, lawful_pure, lawful_for_each, lawful_transaction, with-Sound,
}
use eventy_backend.Change.Keeps.{Keeps, loop_keeps}
use eventy_backend.Bookings.Lawful.{progress_booking_and_event-Lawful}
use eventy_backend.Bookings.Bulk.{
  BulkQuoteDecision, check_decision, accept_quote, decline_quote, decide_all, progress_if_transfer,
  named_in, bulk_quote_decision,
}
use eventy_backend.Bookings.Bulk.Rounds.{
  Quoted, accept_quote-Lawful, decline_quote-Lawful, accept_quote_others, Left, Quoted-loop,
  decline_quote_others, close_event-Lawful,
}

-- No booking is in both lists.
Disjoint : List Booking → List Booking → Type 0
Disjoint yeses noes = All (λ y. All (λ n. n.id ≢ y.id) noes) yeses

decide_all-Lawful :
    (now u k : ℕ) (dto : BulkQuoteDecision) (yeses noes : List Booking) (db : Db)
    → Left yeses db
    → Left noes db
    → Disjoint yeses noes
    → LawfulAt (decide_all now u k dto yeses noes) db
unfolding decide_all Left Keeps Disjoint
decide_all-Lawful now u k dto yeses noes db left_yes left_no apart = lawful_transaction _ db (
    then_step (for_each yeses (accept_quote now u dto.method)) _ db
      (Quoted-loop _ (accept_quote-Lawful now u dto.method) (accept_quote_others now u dto.method)
        yeses db left_yes)
      (then_step (for_each noes (decline_quote now dto.rejection_reason)) _ _
        (Quoted-loop _ (decline_quote-Lawful now dto.rejection_reason)
          (decline_quote_others now dto.rejection_reason) noes _ (still, left_no.1))
        (close_event-Lawful k _)))
  where
    still : All (Quoted (for_each yeses (accept_quote now u dto.method) db).0) noes
    still =
        loop_keeps (λ d. All (Quoted d) noes) (λ y. All (λ n. n.id ≢ y.id) noes)
          (accept_quote now u dto.method)
          (λ y d ne h.
            All-map _ _ (λ n both. accept_quote_others now u dto.method y n both.1 d both.0) noes
              (All-both _ _ noes h ne))
          yeses db apart left_no.0

all-All : {A : Type 0} (p : A → Bool) (xs : List A) → all p xs ≡ true → All (λ x. p x ≡ true) xs
all-All p [] h = tt
all-All p (x ∷ xs) h = (ground arith, all-All p xs (ground arith))

no_overlap :
    (noes yeses : List ℕ) (k : ℕ)
    → any (includes noes) yeses ≡ false
    → includes yeses k ≡ true
    → includes noes k ≡ false
no_overlap noes [] k h e = cc
no_overlap noes (y ∷ ys) k h e = elim (Bool-cases (y == k)) [
  | inl same ↦ rw (sym ((nat_beq_iff y k).0 same)) (ground arith)
  | inr other ↦ no_overlap noes ys k (ground arith) (ground arith)
]

-- The bookings named in two lists of ids that do not overlap.
named-Disjoint :
    (yes_ids no_ids : List ℕ) (yeses noes : List Booking)
    → any (includes no_ids) yes_ids ≡ false
    → All (λ b. includes yes_ids b.id ≡ true) yeses
    → All (λ b. includes no_ids b.id ≡ true) noes
    → Disjoint yeses noes
unfolding Disjoint
named-Disjoint yes_ids no_ids yeses noes apart y n =
    All-map _ _
      (λ b h.
        All-map _ _ (λ c g e. clash (rw e at g) (no_overlap no_ids yes_ids b.id apart h)) noes n)
      yeses y
  where
    clash : {c : Bool} → c ≡ true → c ≡ false → ⊥
    clash p q = cc

progress_if_transfer-Lawful :
    (now k : ℕ) (o : Option PaymentMethod) (bs : List Booking) (db : Db)
    → LawfulAt (progress_if_transfer now k o bs) db
unfolding progress_if_transfer
progress_if_transfer-Lawful now k none bs db = lawful_pure tt db
progress_if_transfer-Lawful now k (some m) bs db =
    lawful_when _ _ db
      λ _. lawful_for_each _ (λ b d. progress_booking_and_event-Lawful now b.id k d) bs db

check_same : (dto : BulkQuoteDecision) (db : Db) → (check_decision dto db).0 ≡ db
unfolding check_decision run_handler
check_same dto db = ground arith

named-Left :
    (q : Booking → Bool) (ids : List ℕ) (k : ℕ) (db : Db)
    → Sound db
    → All (λ b. (b.status == BookingStatus.quote_sent) ≡ true) (keep (named_in ids k) db.bookings)
    → Left (keep q (keep (named_in ids k) db.bookings)) db
unfolding Left
named-Left q ids k db s quoted = (
  keep-All q _ _ (
      All-map _ _ (λ b h. (h.0, ground (arith, h.1))) _
        (All-both _ _ _
          (keep-All (named_in ids k) _ db.bookings
            (found_by_key (λ b. b.id) db.bookings s.booking_ids))
          quoted)),
  Distinct-keep (λ b. b.id) q _
      (Distinct-keep (λ b. b.id) (named_in ids k) db.bookings s.booking_ids),
)

pub bulk_quote_decision-Lawful :
    (now u k : ℕ) (dto : BulkQuoteDecision) (db : Db)
    → LawfulAt (bulk_quote_decision now u k dto) db
unfolding bulk_quote_decision
bulk_quote_decision-Lawful now u k dto db = with-Sound _ db λ s.
    let yes_ids = distinct dto.accepted_booking_ids in
    let no_ids = distinct dto.rejected_booking_ids in
    let bookings = keep (named_in (distinct (yes_ids ++ no_ids)) k) db.bookings in
    let yeses = keep (λ b. includes yes_ids b.id) bookings in
    let noes = keep (λ b. includes no_ids b.id) bookings in
    then_guard (check_decision dto) _ db (check_same dto db) (
      after_check _ _ _ db λ _. after_refusal _ _ _ db λ apart.
        after_read (λ d. d) _ db
          (after_lookup (event_by_id db k) _ _ db λ event _. after_check _ _ _ db λ _.
            after_check _ _ _ db λ _. after_check _ _ _ db λ quoted. after_refusal _ _ _ db λ _.
              let rows = all-All (λ b. b.status == BookingStatus.quote_sent) bookings quoted in
              after_step (decide_all now u k dto yeses noes) _ db
                (decide_all-Lawful now u k dto yeses noes db
                  (named-Left (λ b. includes yes_ids b.id) _ k db s rows)
                  (named-Left (λ b. includes no_ids b.id) _ k db s rows)
                  (named-Disjoint yes_ids no_ids yeses noes apart (keep_sound _ bookings)
                    (keep_sound _ bookings)))
                λ cancelled.
                  then_step _ _ _
                    (lawful_for_each _ (λ b d. lawful_emit NoticeKind.booking_accepted u _ b.id d)
                      yeses _)
                    (then_step _ _ _
                      (lawful_for_each _ (λ b d. lawful_emit NoticeKind.booking_rejected u _ b.id d)
                        noes _)
                      (then_step _ _ _
                        (lawful_when cancelled _ _
                          λ _. lawful_emit NoticeKind.event_cancelled u u k _)
                        (then_step (progress_if_transfer now k dto.method yeses) _ _
                          (progress_if_transfer-Lawful now k dto.method yeses _)
                          (after_read _ _ _ (lawful_pure _ _)))))))
