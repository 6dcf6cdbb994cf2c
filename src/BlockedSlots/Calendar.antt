-- ===== src/BlockedSlots/Calendar.antt =====
-- The calendar that blocked slots make: which days are closed after a range is added, and after it is
-- taken back.
use eventy_backend.Base.{
  ℕ, zero, suc, ◌+◌, ◌-◌, ◌*◌, ◌/◌, ◌<◌, ◌≡◌, refl, ◌∙◌, Bool, true, false, not, ◌&&◌, ◌||◌, some,
  List, [], ◌∷◌, ◌++◌, All, arith, ◌==◌, nat_eq, is_some, any, keep, leb, ltb,
}
use eventy_backend.Model.{
  BlockedSlot, Provider, Db, ok, run_handler, find_first, is_id, provider_of_user, day_ms,
  or_default,
}
use eventy_backend.Evolution.Updates.{All-map}
use eventy_backend.Evolution.Lookups.{id_self}
use eventy_backend.Success.{Ensures, Ensures-read, Ensures-lookup, Ensures-then, Ensures-refusal}
use eventy_backend.BlockedSlots.{
  CreateBlockedSlot, midnight, last_date, days_of, in_group, new_slot, slots_from, insert_slots,
  check_owned_service, check_times, create_blocked_slots, own_slot, delete_slots, delete_from,
  remove_blocked_slot, PackagedService, is_on_day, is_for,
}
use eventy_backend.BlockedSlots.Lawful.{service_same, times_same}

-- Some slot of the day is for the service.
abbrev pub is_closed : Db → PackagedService → ℕ → Bool
is_closed db svc date = any (λ s. is_for svc s && is_on_day date s) db.blocked_slots

-- The request names the service or all, and the day is in its range.
abbrev pub covers : ℕ → CreateBlockedSlot → PackagedService → ℕ → Bool
covers provider_id dto svc date =
    (provider_id == svc.provider_id
      && (is_id dto.service_id svc.service_id || not (is_some dto.service_id)))
    && (leb (midnight dto.from_date) (midnight date) && leb (midnight date) (last_date dto))

-- What a request that is granted has found and leaves.
record Created (u : ℕ) (dto : CreateBlockedSlot) (db after : Db) : Type 0 where
  provider : Provider
  resolved : provider_of_user db u ≡ some provider
  in_order : ltb (last_date dto) (midnight dto.from_date) ≡ false
  rows :
      after.blocked_slots
      ≡ db.blocked_slots
        ++ slots_from
            (suc db.next_id)
            db.next_id
            provider.id
            dto
            (midnight dto.from_date)
            (days_of dto)
  same_providers : after.providers ≡ db.providers

inserted :
    (u : ℕ) (dto : CreateBlockedSlot) (db : Db) (p : Provider)
    → provider_of_user db u ≡ some p
    → ltb (last_date dto) (midnight dto.from_date) ≡ false
    → Ensures (λ _ after. Created u dto db after) (insert_slots p.id dto) db
unfolding Ensures insert_slots run_handler
inserted u dto db p found order rows h = record {
  provider = p;
  resolved = found;
  in_order = order;
  rows = refl;
  same_providers = refl;
}

created :
    (u : ℕ) (dto : CreateBlockedSlot) (db : Db)
    → Ensures (λ _ after. Created u dto db after) (create_blocked_slots u dto) db
unfolding create_blocked_slots
created u dto db =
    let Q : List BlockedSlot → Db → Type 0 = λ _ after. Created u dto db after in
    Ensures-read Q (λ d. d) _ db
      (Ensures-lookup Q (provider_of_user db u) _ _ db λ p found.
        Ensures-then Q (check_owned_service p.id dto.service_id) _ db (
          rw (service_same p.id dto.service_id db) (
            Ensures-then Q (check_times dto.from_time dto.to_time) _ db (
              rw (times_same dto.from_time dto.to_time db) (
                Ensures-refusal Q _ _ _ db
                  λ order. Ensures-refusal Q _ _ _ db λ _. inserted u dto db p found order)))))

any-append :
    (p : BlockedSlot → Bool) (xs ys : List BlockedSlot) → any p (xs ++ ys) ≡ (any p xs || any p ys)
any-append p [] ys = refl
any-append p (x ∷ xs) ys = ground (arith, any-append p xs ys)

-- Midnights are whole days apart.
day_test :
    (q r : ℕ) → (leb (q * day_ms) (r * day_ms) && ltb (r * day_ms) (q * day_ms + day_ms)) ≡ (r == q)
day_test q r = ground arith

range_step :
    (f : Bool) (q r n : ℕ)
    → ((f && (r == q)) || (f && (leb (suc r) q && ltb q (suc r + n))))
      ≡ (f && (leb r q && ltb q (r + suc n)))
range_step f q r n = ground arith

-- Counting the days of a range that is in order.
whole_days : (l r : ℕ) → (l * day_ms - r * day_ms) / day_ms ≡ l - r
whole_days l r = omega arith

range_whole :
    (l r q : ℕ)
    → ltb (l * day_ms) (r * day_ms) ≡ false
    → (leb r q && ltb q (r + suc (l - r)))
      ≡ (leb (r * day_ms) (q * day_ms) && leb (q * day_ms) (l * day_ms))
range_whole l r q h = ground arith

-- The rows of n days from day r on close exactly those days.
slots_cover :
    (id group provider_id : ℕ) (dto : CreateBlockedSlot) (svc : PackagedService) (date r n : ℕ)
    → any
        (λ s. is_for svc s && is_on_day date s)
        (slots_from id group provider_id dto (r * day_ms) n)
      ≡ ((provider_id == svc.provider_id
            && (is_id dto.service_id svc.service_id || not (is_some dto.service_id)))
          && (leb r (date / day_ms) && ltb (date / day_ms) (r + n)))
unfolding slots_from
slots_cover id group provider_id dto svc date r zero = ground arith
slots_cover id group provider_id dto svc date r (suc n) =
    let rest = slots_cover (suc id) group provider_id dto svc date (suc r) n in
    let next : r * day_ms + day_ms ≡ suc r * day_ms = omega arith in
    rw (next, rest, day_test (date / day_ms) r) (range_step _ (date / day_ms) r n)

-- After a range is added for one of the provider's services or for all of them, a day is closed for a
-- service exactly when it was closed before or the range covers it.
pub create_blocked_slots_lem :
    (u : ℕ) (dto : CreateBlockedSlot) (db : Db) (rows : List BlockedSlot)
    → (create_blocked_slots u dto db).1 ≡ ok rows
    → (p : Provider) × (provider_of_user db u ≡ some p)
      × ((svc : PackagedService) (date : ℕ)
          → is_closed (create_blocked_slots u dto db).0 svc date
            ≡ (is_closed db svc date || covers p.id dto svc date))
unfolding Ensures
create_blocked_slots_lem u dto db rows granted =
    let c = created u dto db rows granted in
    (
      c.provider,
      c.resolved,
      λ svc date.
          let l = or_default dto.to_date dto.from_date / day_ms in
          let r = dto.from_date / day_ms in
          let new =
            slots_cover (suc db.next_id) db.next_id c.provider.id dto svc date r (days_of dto) in
          let days = range_whole l r (date / day_ms) c.in_order in
          rw
            (
              c.rows,
              any-append (λ s. is_for svc s && is_on_day date s) db.blocked_slots _,
              new,
              whole_days l r,
              days,
            )
            refl,
    )

-- Each row of the new range is found by its id.
slot_found :
    (id group p : ℕ) (dto : CreateBlockedSlot) (date n i k : ℕ)
    → i < n
    → k ≡ id + i
    → (s : BlockedSlot) × (find_first (own_slot p k) (slots_from id group p dto date n) ≡ some s)
      × (s.group_id ≡ some group)
unfolding slots_from find_first
slot_found id group p dto date zero i k h e = absurd (omega arith)
slot_found id group p dto date (suc n) zero k h e =
    let hit : own_slot p k (new_slot id group p dto date) ≡ true = ground arith in
    (new_slot id group p dto date, rw hit refl, refl)
slot_found id group p dto date (suc n) (suc i) k h e =
    let (s, found, own) =
      slot_found (suc id) group p dto (date + day_ms) n i k (omega arith) (omega arith) in
    let miss : own_slot p k (new_slot id group p dto date) ≡ false = ground arith in
    (s, rw miss found, own)

find-append_old :
    (q : BlockedSlot → Bool) (xs ys : List BlockedSlot)
    → All (λ s. q s ≡ false) xs
    → find_first q (xs ++ ys) ≡ find_first q ys
unfolding find_first
find-append_old q [] ys h = refl
find-append_old q (x ∷ xs) ys h = rw (h.0, find-append_old q xs ys h.1) refl

-- The deletion of the group leaves the old rows and takes the new ones.
keep_old :
    (group p : ℕ) (xs ys : List BlockedSlot)
    → All (λ s. in_group group s ≡ false) xs
    → keep (λ s. not (in_group group s && s.provider_id == p)) (xs ++ ys)
      ≡ xs ++ keep (λ s. not (in_group group s && s.provider_id == p)) ys
keep_old group p [] ys h = refl
keep_old group p (x ∷ xs) ys h = rw (h.0, keep_old group p xs ys h.1) refl

drop_new :
    (id group p : ℕ) (dto : CreateBlockedSlot) (date n : ℕ)
    → keep (λ s. not (in_group group s && s.provider_id == p)) (slots_from id group p dto date n)
      ≡ []
unfolding slots_from
drop_new id group p dto date zero = refl
drop_new id group p dto date (suc n) =
    rw (id_self group, id_self p, drop_new (suc id) group p dto (date + day_ms) n) refl

append_nil : (xs : List BlockedSlot) → xs ++ [] ≡ xs
append_nil [] = refl
append_nil (x ∷ xs) = rw (append_nil xs) refl

delete_group :
    (p group : ℕ) (slot : BlockedSlot) (db : Db)
    → slot.group_id ≡ some group
    → delete_from p slot true slot.group_id db
      ≡ (delete_slots (λ s. in_group group s && s.provider_id == p) db, ok tt)
unfolding delete_from run_handler
delete_group p group slot db h = rw h refl

remove-found :
    (u k : ℕ) (p : Provider) (slot : BlockedSlot) (group : ℕ) (db : Db)
    → provider_of_user db u ≡ some p
    → find_first (own_slot p.id k) db.blocked_slots ≡ some slot
    → slot.group_id ≡ some group
    → remove_blocked_slot u k true db
      ≡ (delete_slots (λ s. in_group group s && s.provider_id == p.id) db, ok tt)
unfolding remove_blocked_slot run_handler
remove-found u k p slot group db resolved found own =
    rw (resolved, found) (delete_group p.id group slot db own)

-- The next id is new to the slots, as an id and as a group.
abbrev pub IsFresh : Db → Type 0
IsFresh db = All (λ s. (s.id < db.next_id) × (in_group db.next_id s ≡ false)) db.blocked_slots

-- Whoever adds a range and then takes it back as a whole, by the id of any of its days, has the slots
-- that were there before, if the next id was new to them.
pub remove_blocked_slot-create_blocked_slots :
    (u : ℕ) (dto : CreateBlockedSlot) (db : Db) (rows : List BlockedSlot) (i : ℕ)
    → IsFresh db
    → (create_blocked_slots u dto db).1 ≡ ok rows
    → i < days_of dto
    → let after = (create_blocked_slots u dto db).0 in
      ((remove_blocked_slot u (suc db.next_id + i) true after).0.blocked_slots ≡ db.blocked_slots)
      × ((remove_blocked_slot u (suc db.next_id + i) true after).1 ≡ ok tt)
unfolding Ensures
remove_blocked_slot-create_blocked_slots u dto db rows i fresh granted h =
    let after = (create_blocked_slots u dto db).0 in
    let c = created u dto db rows granted in
    let (slot, found, own) =
      slot_found (suc db.next_id) db.next_id c.provider.id dto (midnight dto.from_date)
        (days_of dto) i (suc db.next_id + i) h refl in
    let old : All (λ s. own_slot c.provider.id (suc db.next_id + i) s ≡ false) db.blocked_slots =
      All-map _ _ (λ s both. ground (arith, both.0)) db.blocked_slots fresh in
    let there : find_first (own_slot c.provider.id (suc db.next_id + i)) after.blocked_slots
        ≡ some slot =
      rw c.rows (find-append_old _ db.blocked_slots _ old ∙ found) in
    let resolved : provider_of_user after u ≡ some c.provider = rw c.same_providers c.resolved in
    rw (remove-found u (suc db.next_id + i) c.provider slot db.next_id after resolved there own) (
      rw
          (
            c.rows,
            keep_old db.next_id c.provider.id db.blocked_slots _
                (All-map _ _ (λ s both. both.1) db.blocked_slots fresh),
            drop_new (suc db.next_id) db.next_id c.provider.id dto (midnight dto.from_date)
                (days_of dto),
            append_nil db.blocked_slots,
          )
          refl,
      refl,
    )
