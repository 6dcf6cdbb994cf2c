-- ===== src/Complaints/Moderation.antt =====
-- What the moderation of a complaint does.
use eventy_backend.Base.{ℕ, ◌≡◌, refl, true, false, some, arith, ◌==◌, nat_eq, includes}
use eventy_backend.Model.{
  ComplaintStatus, complaint_status_eq, Db, Complaint, NoticeKind, run_handler, update_where, ok,
  modify, emit, ◌>>◌,
}
use eventy_backend.Evolution.Lookups.{find-update_self}
use eventy_backend.Success.{Ensures, Ensures-read, Ensures-lookup, Ensures-check}
use eventy_backend.Complaints.{
  valid_transitions, complaint_by_id, is_terminal, moderated, update_status,
}

-- The complaint was open, and has the new status, its moderator and, once final, a time.
abbrev pub Moderated : ℕ → ℕ → ℕ → ComplaintStatus → Db → Unit {0} → Db → Type 0
Moderated now admin k s db _ after =
    (before : Complaint) × (c : Complaint) × (complaint_by_id db k ≡ some before)
    × (is_terminal before.status ≡ false)
    × (complaint_by_id after k ≡ some c)
    × (c.status ≡ s)
    × (c.complainant_id ≡ before.complainant_id)
    × (c.handled_by_user_id ≡ some admin)
    × (is_terminal s ≡ true → c.resolved_at ≡ some now)

write-Moderated :
    (now admin k : ℕ) (s : ComplaintStatus) (db : Db) (c : Complaint)
    → complaint_by_id db k ≡ some c
    → includes (valid_transitions c.status) s ≡ true
    → Ensures
        (Moderated now admin k s db)
        (modify (λ d. record d {
          complaints = update_where (λ x. x.id == k) (moderated now admin s) d.complaints;
        })
          >> emit NoticeKind.complaint_status_changed admin c.complainant_id c.id)
        db
unfolding Ensures run_handler
write-Moderated now admin k s db c found allowed a returns =
    let open_before : is_terminal c.status ≡ false = ground arith in
    let stamped : is_terminal s ≡ true → (moderated now admin s c).resolved_at ≡ some now =
      λ h. rw h refl in
    (
      c,
      moderated now admin s c,
      found,
      open_before,
      find-update_self (λ x. x.id) (moderated now admin s) k (λ x. refl) db.complaints c found,
      refl,
      refl,
      refl,
      stamped,
    )

update_status-Ensures :
    (now admin k : ℕ) (s : ComplaintStatus) (db : Db)
    → Ensures (Moderated now admin k s db) (update_status now admin k s) db
unfolding update_status
update_status-Ensures now admin k s db =
    Ensures-read _ (λ d. d) _ db
      (Ensures-lookup _ (complaint_by_id db k) _ _ db λ c found.
        Ensures-check _ _ _ _ db λ allowed. write-Moderated now admin k s db c found allowed)

-- If a complaint is moved, it was neither RESOLVED nor REJECTED before; afterwards it has the new
-- status, the same complainant, the admin as its handler and, if the status is RESOLVED or REJECTED, the
-- time of the move.
pub update_status_lem :
    (now admin k : ℕ) (s : ComplaintStatus) (db : Db)
    → (update_status now admin k s db).1 ≡ ok tt
    → Moderated now admin k s db tt (update_status now admin k s db).0
unfolding Ensures
update_status_lem now admin k s db = update_status-Ensures now admin k s db tt
