-- ===== src/Reviews.antt =====
-- src/modules/reviews/reviews.service.ts: reviews of completed bookings and the rating of a service.
pub mod Ratings
use eventy_backend.Base.{
  ℕ, suc, ◌+◌, Bool, true, false, not, ◌&&◌, Option, none, some, List, [], ◌∷◌, ◌++◌, String, ◌==◌,
  string_eq, nat_eq, is_some, if◌then◌else◌,
}
use eventy_backend.Model.{
  BookingStatus, booking_status_eq, Db, Review, Service, Average, NoticeKind, Action, HttpError,
  ◌>>=◌, ◌>>◌, gets, or_raise, raise_unless, raise_if, modify, emit, transaction, update_where,
  find_first, booking_by_id, service_by_id, provider_of_user,
}

abbrev pub review_of_booking : Db → ℕ → Option Review
review_of_booking db k = find_first (λ r. r.booking_id == k) db.reviews

abbrev review_by_id : Db → ℕ → Option Review
review_by_id db k = find_first (λ r. r.id == k) db.reviews

-- `_avg: { rating: true }` and `_count` over the reviews of a service
unfoldable pub rating_sum : ℕ → List Review → ℕ
rating_sum service_id [] = 0
rating_sum service_id (r ∷ rs) =
    let rest = rating_sum service_id rs in
    if r.service_id == service_id then r.rating + rest else rest

unfoldable pub rating_count : ℕ → List Review → ℕ
rating_count service_id [] = 0
rating_count service_id (r ∷ rs) =
    let rest = rating_count service_id rs in if r.service_id == service_id then suc rest else rest

abbrev pub new_review : ℕ → ℕ → ℕ → ℕ → ℕ → Option String → Review
new_review id booking_id customer_id service_id rating comment = record {
  id = id;
  booking_id = booking_id;
  customer_id = customer_id;
  service_id = service_id;
  rating = rating;
  comment = comment;
  provider_reply = none;
}

abbrev pub aggregate : ℕ → List Review → Average
aggregate service_id rs = record {
  total = rating_sum service_id rs;
  count = rating_count service_id rs;
}

abbrev pub rated : ℕ → List Review → Service → Service
rated service_id rs s = record s {
  rating = aggregate service_id rs;
  total_reviews = rating_count service_id rs;
}

-- The insertion, and the aggregate over the table that it leaves.
abbrev pub insert_review : ℕ → ℕ → ℕ → ℕ → Option String → Action (Unit {0})
insert_review booking_id customer_id service_id rating comment = do
  modify (λ d. record d {
    reviews =
        d.reviews ++ new_review d.next_id booking_id customer_id service_id rating comment ∷ [];
    next_id = suc d.next_id;
  })
  modify (λ d. record d {
    services = update_where (λ s. s.id == service_id) (rated service_id d.reviews) d.services;
  })

unfoldable pub create_review : ℕ → ℕ → ℕ → Option String → Action (Unit {0})
create_review user_id booking_id rating comment = do
  db ← gets (λ d. d)
  booking ← or_raise (booking_by_id db booking_id) (HttpError.not_found "Booking not found")
  raise_unless (booking.customer_id == user_id) (HttpError.forbidden "Access denied")
  raise_unless (booking.status == BookingStatus.completed)
      (HttpError.bad_request "Booking must be COMPLETED before it can be reviewed")
  raise_if (is_some (review_of_booking db booking_id))
      (HttpError.bad_request "This booking has already been reviewed")
  transaction (insert_review booking_id user_id booking.service_id rating comment)

-- A reply that is there and not empty.
has_reply : Option String → Bool
has_reply none = false
has_reply (some s) = not (s == "")

is_offered_by : ℕ → Option Service → Bool
is_offered_by provider_id none = false
is_offered_by provider_id (some s) = s.provider_id == provider_id

unfoldable pub reply_to_review : ℕ → ℕ → String → Action (Unit {0})
unfolding has_reply is_offered_by
reply_to_review user_id review_id reply = do
  db ← gets (λ d. d)
  provider ← or_raise (provider_of_user db user_id) (HttpError.not_found "Provider not found")
  review ← or_raise (review_by_id db review_id) (HttpError.not_found "Review not found")
  raise_unless (is_offered_by provider.id (service_by_id db review.service_id))
      (HttpError.forbidden "Access denied")
  raise_if (has_reply review.provider_reply)
      (HttpError.bad_request "This review already has a reply")
  modify (λ d. record d {
    reviews =
        update_where (λ r. r.id == review_id) (λ r. record r { provider_reply = some reply })
          d.reviews;
  })
  emit NoticeKind.review_replied user_id review.customer_id review.id
