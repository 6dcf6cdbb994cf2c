-- ===== src/Reviews/Ratings.antt =====
-- The rating that a service shows is the average over its reviews.
use eventy_backend.Base.{
  none_of_absent, ℕ, ◌≡◌, ◌≢◌, refl, sym, ap, true, false, Option, none, some, List, [], ◌∷◌, ◌++◌,
  All, arith, ◌==◌, nat_eq, nat_beq_iff, String,
}
use eventy_backend.Model.{
  BookingStatus, booking_status_eq, Db, Booking, Review, Service, booking_by_id, run_handler,
  transaction, ok,
}
use eventy_backend.Evolution.{Distinct}
use eventy_backend.Evolution.Updates.{All-map, Distinct-append, none-found}
use eventy_backend.Success.{
  Ensures, Ensures-read, Ensures-lookup, Ensures-check, Ensures-refusal, All-updated,
}
use eventy_backend.Reviews.{
  review_of_booking, rating_sum, rating_count, aggregate, new_review, rated, insert_review,
  create_review,
}

abbrev pub IsRated : List Review → Service → Type 0
IsRated rs s = (s.rating ≡ aggregate s.id rs) × (s.total_reviews ≡ rating_count s.id rs)

-- Every service shows the aggregate of its reviews, and no booking has two reviews.
pub record Rated (db : Db) : Type 0 where
  pub ratings : All (IsRated db.reviews) db.services
  pub one_each : Distinct (λ r. r.booking_id) db.reviews

sum_other :
    (k : ℕ) (rs : List Review) (r : Review)
    → (r.service_id == k) ≡ false
    → (rating_sum k (rs ++ r ∷ []) ≡ rating_sum k rs)
      × (rating_count k (rs ++ r ∷ []) ≡ rating_count k rs)
unfolding rating_sum rating_count
sum_other k [] r h = ground arith
sum_other k (x ∷ rs) r h = ground (arith, sum_other k rs r h)

still_rated :
    (k : ℕ) (rs : List Review) (r : Review) (s : Service)
    → r.service_id ≡ k
    → IsRated rs s
    → ((s.id == k) ≡ true → IsRated (rs ++ r ∷ []) (rated k (rs ++ r ∷ []) s))
      × ((s.id == k) ≡ false → IsRated (rs ++ r ∷ []) s)
still_rated k rs r s own h = (
  λ hit.
      let same : k ≡ s.id = sym ((nat_beq_iff s.id k).0 hit) in
      (ap (λ j. aggregate j (rs ++ r ∷ [])) same, ap (λ j. rating_count j (rs ++ r ∷ [])) same),
  λ miss.
      let other : (r.service_id == s.id) ≡ false = ground arith in
      let (sums, counts) = sum_other s.id rs r other in (cc (h.0, sums, counts), cc (h.1, counts)),
)

insert_review-Rated :
    (k u service_id rating : ℕ) (comment : Option String) (db : Db)
    → review_of_booking db k ≡ none
    → Ensures
        (λ _ after. Rated db → Rated after)
        (transaction (insert_review k u service_id rating comment))
        db
unfolding Ensures run_handler
insert_review-Rated k u service_id rating comment db free a returns h =
    let row = new_review db.next_id k u service_id rating comment in
    record {
      ratings =
          All-updated (IsRated (db.reviews ++ row ∷ [])) (λ s. s.id == service_id)
            (rated service_id (db.reviews ++ row ∷ [])) db.services
            (All-map (IsRated db.reviews) _ (λ s r. still_rated service_id db.reviews row s refl r)
              db.services h.ratings);
      one_each =
          Distinct-append (λ r. r.booking_id) db.reviews row h.one_each
            (All-map (λ r. (r.booking_id == k) ≡ false) (λ r. r.booking_id ≢ k)
              (λ r ne e. ground arith) db.reviews
              (none-found (λ r. r.booking_id == k) db.reviews free));
    }

-- The booking is the customer's and COMPLETED.
abbrev pub MayReview : Db → ℕ → ℕ → Type 0
MayReview db u k =
    (b : Booking) × (booking_by_id db k ≡ some b)
    × ((b.customer_id == u) ≡ true)
    × ((b.status == BookingStatus.completed) ≡ true)

abbrev Reviewed : Db → ℕ → ℕ → Unit {0} → Db → Type 0
Reviewed db u k _ after =
    MayReview db u k × (review_of_booking db k ≡ none) × (Rated db → Rated after)

with_insert :
    (db : Db) (u k : ℕ) (b : Booking) (rating : ℕ) (comment : Option String)
    → booking_by_id db k ≡ some b
    → (b.customer_id == u) ≡ true
    → (b.status == BookingStatus.completed) ≡ true
    → review_of_booking db k ≡ none
    → Ensures (Reviewed db u k) (transaction (insert_review k u b.service_id rating comment)) db
unfolding Ensures
with_insert db u k b rating comment found own done free a returns = (
  (b, found, own, done),
  free,
  insert_review-Rated k u b.service_id rating comment db free a returns,
)

create_review-Ensures :
    (u k rating : ℕ) (comment : Option String) (db : Db)
    → Ensures (Reviewed db u k) (create_review u k rating comment) db
unfolding create_review
create_review-Ensures u k rating comment db =
    Ensures-read _ (λ d. d) _ db
      (Ensures-lookup _ (booking_by_id db k) _ _ db λ b found. Ensures-check _ _ _ _ db λ own.
        Ensures-check _ _ _ _ db λ done. Ensures-refusal _ _ _ _ db λ fresh.
          with_insert db u k b rating comment found own done
            (none_of_absent (review_of_booking db k) fresh))

-- A review is accepted only from the customer of a COMPLETED booking that has none yet, and if before it
-- every service showed the average and the number of its reviews and no booking had two, then so after.
pub create_review_lem :
    (u k rating : ℕ) (comment : Option String) (db : Db)
    → (create_review u k rating comment db).1 ≡ ok tt
    → MayReview db u k
      × (review_of_booking db k ≡ none)
      × (Rated db → Rated (create_review u k rating comment db).0)
unfolding Ensures
create_review_lem u k rating comment db = create_review-Ensures u k rating comment db tt
