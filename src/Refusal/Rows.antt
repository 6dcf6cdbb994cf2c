-- ===== src/Refusal/Rows.antt =====
-- The handlers of blocked slots and of favorites write only once every check has passed.
use eventy_backend.Base.{ℕ, Bool, true, false, Option, none, some}
use eventy_backend.Model.{Db, BlockedSlot, FavoriteTargetType, find_first, provider_of_user}
use eventy_backend.Refusal.{
  Harmless, Settled, Harmless-read, Harmless-passed, Harmless-lookup, Harmless-rest, Harmless-check,
  Harmless-refusal, Harmless-write, Settled-bind, Settled-then, Settled-gets, Settled-pure,
  Settled-modify,
}
use eventy_backend.BlockedSlots.{
  CreateBlockedSlot, check_owned_service, check_times, insert_slots, create_blocked_slots, own_slot,
  delete_from, remove_blocked_slot,
}
use eventy_backend.BlockedSlots.Lawful.{service_same, times_same}
use eventy_backend.Favorites.{favorite_of, create_favorite, remove_favorite}

insert_slots-Settled : (p : ℕ) (dto : CreateBlockedSlot) → Settled (insert_slots p dto)
unfolding insert_slots
insert_slots-Settled p dto =
    Settled-bind _ _ (Settled-gets (λ d. d))
      λ db. Settled-then _ _ (Settled-modify _) (Settled-gets _)

pub create_blocked_slots-Harmless :
    (u : ℕ) (dto : CreateBlockedSlot) (db : Db) → Harmless (create_blocked_slots u dto) db
unfolding create_blocked_slots
create_blocked_slots-Harmless u dto db =
    Harmless-read (λ d. d) _ db
      (Harmless-lookup (provider_of_user db u) _ _ db λ p.
        Harmless-passed (check_owned_service p.id dto.service_id) _ db (service_same _ _ db) (
          Harmless-passed (check_times dto.from_time dto.to_time) _ db (times_same _ _ db) (
            Harmless-refusal _ _ _ db
              (Harmless-refusal _ _ _ db (Harmless-rest _ db (insert_slots-Settled p.id dto))))))

delete_from-Settled :
    (p : ℕ) (slot : BlockedSlot) (whole : Bool) (o : Option ℕ)
    → Settled (delete_from p slot whole o)
unfolding delete_from
delete_from-Settled p slot whole none = Settled-modify _
delete_from-Settled p slot true (some g) = Settled-modify _
delete_from-Settled p slot false (some g) = Settled-modify _

pub remove_blocked_slot-Harmless :
    (u k : ℕ) (whole : Bool) (db : Db) → Harmless (remove_blocked_slot u k whole) db
unfolding remove_blocked_slot
remove_blocked_slot-Harmless u k whole db =
    Harmless-read (λ d. d) _ db
      (Harmless-lookup (provider_of_user db u) _ _ db λ p.
        Harmless-lookup (find_first (own_slot p.id k) db.blocked_slots) _ _ db
          λ slot. Harmless-rest _ db (delete_from-Settled p.id slot whole slot.group_id))

pub create_favorite-Harmless :
    (u : ℕ) (t : FavoriteTargetType) (k : ℕ) (db : Db) → Harmless (create_favorite u t k) db
unfolding create_favorite
create_favorite-Harmless u t k db =
    Harmless-read (λ d. d) _ db
      (Harmless-check _ _ _ db (Harmless-refusal _ _ _ db (Harmless-write _ _ db (Settled-pure _))))

pub remove_favorite-Harmless :
    (u : ℕ) (t : FavoriteTargetType) (k : ℕ) (db : Db) → Harmless (remove_favorite u t k) db
unfolding remove_favorite
remove_favorite-Harmless u t k db =
    Harmless-read (λ d. d) _ db
      (Harmless-lookup (favorite_of db u t k) _ _ db
        λ existing. Harmless-rest _ db (Settled-modify _))
