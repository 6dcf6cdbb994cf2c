-- ===== src/Complaints.antt =====
-- src/modules/complaints/complaints.service.ts: filing a complaint and its moderation.
pub mod Moderation
use eventy_backend.Base.{
  ℕ, suc, Bool, true, false, not, ◌&&◌, ◌||◌, Option, none, some, List, [], ◌∷◌, ◌++◌, String, ◌==◌,
  nat_eq, string_eq, includes, if◌then◌else◌,
}
use eventy_backend.Model.{
  ComplaintStatus, complaint_status_eq, ComplaintTargetType, complaint_target_type_eq, Db,
  Complaint, NoticeKind, Action, HttpError, ◌>>=◌, ◌>>◌, gets, or_raise, raise_unless, raise_if,
  modify, emit, update_where, find_first,
}

-- The table of moves; the last two are final.
abbrev pub valid_transitions : ComplaintStatus → List ComplaintStatus
valid_transitions ComplaintStatus.pending =
    ComplaintStatus.in_progress ∷ ComplaintStatus.rejected ∷ []
valid_transitions ComplaintStatus.in_progress =
    ComplaintStatus.resolved ∷ ComplaintStatus.rejected ∷ []
valid_transitions ComplaintStatus.resolved = []
valid_transitions ComplaintStatus.rejected = []

-- `CreateComplaintDto`; a target id is a number here, so none of them is empty.
pub record CreateComplaint : Type 0 where
  pub target_type : ComplaintTargetType
  pub target_id : Option ℕ
  pub booking_id : Option ℕ
  pub package_event_booking_id : Option ℕ
  pub subject : String
  pub description : String

has_target : Option ℕ → Bool
has_target none = false
has_target (some _) = true

unfoldable pub create : ℕ → CreateComplaint → Action (Unit {0})
unfolding has_target
create user_id dto = do
  raise_unless (dto.target_type == ComplaintTargetType.general || has_target dto.target_id)
      (HttpError.bad_request "targetId is required unless targetType is GENERAL")
  modify (λ d. record d {
    complaints =
        d.complaints
        ++ record {
          id = d.next_id;
          complainant_id = user_id;
          target_type = dto.target_type;
          target_id = dto.target_id;
          booking_id = dto.booking_id;
          package_event_booking_id = dto.package_event_booking_id;
          subject = dto.subject;
          description = dto.description;
          status = ComplaintStatus.pending;
          admin_reply = none;
          handled_by_user_id = none;
          resolved_at = none;
        }
          ∷ [];
    next_id = suc d.next_id;
  })

abbrev pub complaint_by_id : Db → ℕ → Option Complaint
complaint_by_id db k = find_first (λ c. c.id == k) db.complaints

abbrev pub is_terminal : ComplaintStatus → Bool
is_terminal s = s == ComplaintStatus.resolved || s == ComplaintStatus.rejected

abbrev pub moderated : ℕ → ℕ → ComplaintStatus → Complaint → Complaint
moderated now admin_id s c = record c {
  status = s;
  handled_by_user_id = some admin_id;
  resolved_at = if is_terminal s then some now else c.resolved_at;
}

unfoldable pub update_status : ℕ → ℕ → ℕ → ComplaintStatus → Action (Unit {0})
update_status now admin_id complaint_id status = do
  db ← gets (λ d. d)
  complaint ← or_raise (complaint_by_id db complaint_id) (HttpError.not_found "Complaint not found")
  raise_unless (includes (valid_transitions complaint.status) status)
      (HttpError.bad_request "Cannot move a complaint")
  modify (λ d. record d {
    complaints =
        update_where (λ c. c.id == complaint_id) (moderated now admin_id status) d.complaints;
  })
  emit NoticeKind.complaint_status_changed admin_id complaint.complainant_id complaint.id

unfoldable pub reply : ℕ → ℕ → String → Action (Unit {0})
reply admin_id complaint_id text = do
  db ← gets (λ d. d)
  complaint ← or_raise (complaint_by_id db complaint_id) (HttpError.not_found "Complaint not found")
  modify (λ d. record d {
    complaints =
        update_where (λ c. c.id == complaint_id)
          (λ c. record c { admin_reply = some text; handled_by_user_id = some admin_id })
          d.complaints;
  })
  emit NoticeKind.complaint_replied admin_id complaint.complainant_id complaint.id
