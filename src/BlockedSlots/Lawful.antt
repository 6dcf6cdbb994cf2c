-- ===== src/BlockedSlots/Lawful.antt =====
-- Blocking and unblocking days changes the database lawfully.
use eventy_backend.Base.{ℕ, Bool, true, false, ◌≡◌, Option, none, some, arith}
use eventy_backend.Model.{Db, TimeOfDay, BlockedSlot, run_handler, find_first, provider_of_user}
use eventy_backend.Change.Ids.{set_blocked_slots}
use eventy_backend.Change.Rules.{
  LawfulAt, then_guard, after_read, after_lookup, after_refusal, Lawful-write,
}
use eventy_backend.BlockedSlots.{
  CreateBlockedSlot, check_owned_service, check_times, insert_slots, create_blocked_slots, own_slot,
  delete_from, remove_blocked_slot,
}

pub service_same : (p : ℕ) (o : Option ℕ) (db : Db) → (check_owned_service p o db).0 ≡ db
unfolding check_owned_service run_handler
service_same p o db = ground arith

pub times_same : (a b : Option TimeOfDay) (db : Db) → (check_times a b db).0 ≡ db
unfolding check_times run_handler
times_same a b db = ground arith

insert_slots-Lawful : (p : ℕ) (dto : CreateBlockedSlot) (db : Db) → LawfulAt (insert_slots p dto) db
unfolding insert_slots LawfulAt run_handler
insert_slots-Lawful p dto db = set_blocked_slots db _ (omega arith) _

pub create_blocked_slots-Lawful :
    (u : ℕ) (dto : CreateBlockedSlot) (db : Db) → LawfulAt (create_blocked_slots u dto) db
unfolding create_blocked_slots
create_blocked_slots-Lawful u dto db =
    after_read (λ d. d) _ db
      (after_lookup (provider_of_user db u) _ _ db λ provider _.
        then_guard (check_owned_service provider.id dto.service_id) _ db (service_same _ _ db) (
          then_guard (check_times dto.from_time dto.to_time) _ db (times_same _ _ db) (
            after_refusal _ _ _ db
              λ _. after_refusal _ _ _ db λ _. insert_slots-Lawful provider.id dto db)))

delete_from-Lawful :
    (p : ℕ) (slot : BlockedSlot) (whole : Bool) (o : Option ℕ) (db : Db)
    → LawfulAt (delete_from p slot whole o) db
unfolding delete_from
delete_from-Lawful p slot whole none db =
    Lawful-write _ db (set_blocked_slots db db.next_id (omega arith) _)
delete_from-Lawful p slot true (some g) db =
    Lawful-write _ db (set_blocked_slots db db.next_id (omega arith) _)
delete_from-Lawful p slot false (some g) db =
    Lawful-write _ db (set_blocked_slots db db.next_id (omega arith) _)

pub remove_blocked_slot-Lawful :
    (u k : ℕ) (whole : Bool) (db : Db) → LawfulAt (remove_blocked_slot u k whole) db
unfolding remove_blocked_slot
remove_blocked_slot-Lawful u k whole db =
    after_read (λ d. d) _ db
      (after_lookup (provider_of_user db u) _ _ db λ provider _.
        after_lookup (find_first (own_slot provider.id k) db.blocked_slots) _ _ db
          λ slot _. delete_from-Lawful provider.id slot whole slot.group_id db)
