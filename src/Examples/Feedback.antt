-- ===== src/Examples/Feedback.antt =====
-- Reviews and complaints on the small database.
use eventy_backend.Base.{◌≡◌, refl, none, [], ◌∷◌}
use eventy_backend.Model.{
  BookingStatus, ComplaintStatus, ComplaintTargetType, Complaint, Db, find_first, run_handler,
}
use eventy_backend.Reviews.{review_of_booking, create_review}
use eventy_backend.Reviews.Ratings.{MayReview, Rated, create_review_lem}
use eventy_backend.Complaints.{update_status}
use eventy_backend.Complaints.Moderation.{Moderated, update_status_lem}
use eventy_backend.Examples.{sample, booking}

abbrev complaint : Complaint
complaint = record {
  id = 12;
  complainant_id = 20;
  target_type = ComplaintTargetType.general;
  target_id = none;
  booking_id = none;
  package_event_booking_id = none;
  subject = "late";
  description = "the delivery was late";
  status = ComplaintStatus.in_progress;
  admin_reply = none;
  handled_by_user_id = none;
  resolved_at = none;
}

abbrev feedback : Db
feedback = record sample {
  bookings = booking 10 BookingStatus.completed ∷ [];
  complaints = complaint ∷ [];
}

-- Customer 20 gives five stars to booking 10.
create_review_lem_example :
    MayReview feedback 20 10
    × (review_of_booking feedback 10 ≡ none)
    × (Rated feedback → Rated (create_review 20 10 5 none feedback).0)
unfolding create_review run_handler find_first
create_review_lem_example = create_review_lem 20 10 5 none feedback refl

-- Admin 99 resolves complaint 12.
update_status_lem_example :
    Moderated 100 99 12 ComplaintStatus.resolved feedback tt
      (update_status 100 99 12 ComplaintStatus.resolved feedback).0
unfolding update_status run_handler find_first
update_status_lem_example = update_status_lem 100 99 12 ComplaintStatus.resolved feedback refl
