-- ===== src/BlockedSlots.antt =====
-- src/modules/blocked-slots/blocked-slots.service.ts: the days that a provider closes, for one service
-- or for all, and how src/modules/packages/packages.service.ts consults them. The server's time zone is
-- UTC.
pub mod Lawful
pub mod Calendar
pub mod Availability
use eventy_backend.Base.{
  ℕ, zero, suc, ◌+◌, ◌-◌, ◌*◌, ◌/◌, Bool, true, false, not, ◌&&◌, ◌||◌, Option, none, some, List,
  [], ◌∷◌, ◌++◌, map, String, ◌==◌, nat_eq, includes, is_some, if◌then◌else◌, any, keep, leb, ltb,
  distinct,
}
use eventy_backend.Model.{
  TimeOfDay, Service, BlockedSlot, Db, Action, HttpError, ◌>>=◌, ◌>>◌, pure, gets, or_raise,
  raise_if, raise_unless, modify, is_id, find_first, provider_of_user, day_ms, or_default,
}
use eventy_backend.TimeWindow.{time_to_minutes, ranges_overlap}

abbrev pub max_block_days : ℕ
max_block_days = 31

pub record CreateBlockedSlot : Type 0 where
  pub service_id : Option ℕ
  pub from_date : ℕ
  pub to_date : Option ℕ
  pub from_time : Option TimeOfDay
  pub to_time : Option TimeOfDay
  pub reason : Option String

-- `setHours(0, 0, 0, 0)`
abbrev pub midnight : ℕ → ℕ
midnight t = t / day_ms * day_ms

abbrev pub owned_service : ℕ → ℕ → Service → Bool
owned_service provider_id k s = s.id == k && s.provider_id == provider_id

unfoldable pub check_owned_service : ℕ → Option ℕ → Action (Unit {0})
check_owned_service provider_id none = pure tt
check_owned_service provider_id (some k) = do
  db ← gets (λ d. d)
  raise_unless (is_some (find_first (owned_service provider_id k) db.services))
      (HttpError.not_found "Service not found or not owned by you")

-- Times in the format HH:mm compare as their minutes do.
unfoldable pub check_times : Option TimeOfDay → Option TimeOfDay → Action (Unit {0})
check_times none none = pure tt
check_times (some a) (some b) =
    raise_unless (ltb (time_to_minutes a) (time_to_minutes b))
      (HttpError.bad_request "fromTime must be earlier than toTime")
check_times (some _) none =
    raise_unless false (HttpError.bad_request "fromTime and toTime must be provided together")
check_times none (some _) =
    raise_unless false (HttpError.bad_request "fromTime and toTime must be provided together")

abbrev pub new_slot : ℕ → ℕ → ℕ → CreateBlockedSlot → ℕ → BlockedSlot
new_slot id group provider_id dto date = record {
  id = id;
  service_id = dto.service_id;
  provider_id = provider_id;
  date = date;
  from_time = dto.from_time;
  to_time = dto.to_time;
  reason = dto.reason;
  group_id = some group;
}

-- The rows of a range: one for each day, with consecutive ids.
unfoldable pub slots_from : ℕ → ℕ → ℕ → CreateBlockedSlot → ℕ → ℕ → List BlockedSlot
slots_from id group provider_id dto date zero = []
slots_from id group provider_id dto date (suc n) =
    new_slot id group provider_id dto date
    ∷ slots_from (suc id) group provider_id dto (date + day_ms) n

abbrev pub last_date : CreateBlockedSlot → ℕ
last_date dto = midnight (or_default dto.to_date dto.from_date)

-- `Math.round((toDate - fromDate) / (24 * 60 * 60 * 1000)) + 1`, between two midnights
abbrev pub days_of : CreateBlockedSlot → ℕ
days_of dto = suc ((last_date dto - midnight dto.from_date) / day_ms)

abbrev pub in_group : ℕ → BlockedSlot → Bool
in_group group s = is_id s.group_id group

unfoldable pub insert_slots : ℕ → CreateBlockedSlot → Action (List BlockedSlot)
insert_slots provider_id dto = do
  db ← gets (λ d. d)
  modify (λ d. record d {
    blocked_slots =
        d.blocked_slots
        ++ slots_from (suc d.next_id) d.next_id provider_id dto (midnight dto.from_date)
            (days_of dto);
    next_id = suc d.next_id + days_of dto;
  })
  gets (λ d. keep (in_group db.next_id) d.blocked_slots)

unfoldable pub create_blocked_slots : ℕ → CreateBlockedSlot → Action (List BlockedSlot)
unfolding check_owned_service check_times insert_slots
create_blocked_slots user_id dto = do
  db ← gets (λ d. d)
  provider ← or_raise (provider_of_user db user_id) (HttpError.not_found "Provider not found")
  check_owned_service provider.id dto.service_id
  check_times dto.from_time dto.to_time
  raise_if (ltb (last_date dto) (midnight dto.from_date))
      (HttpError.bad_request "toDate cannot be before fromDate")
  raise_if (ltb max_block_days (days_of dto))
      (HttpError.bad_request "Blocked range cannot exceed 31 days")
  insert_slots provider.id dto

abbrev pub own_slot : ℕ → ℕ → BlockedSlot → Bool
own_slot provider_id k s = s.id == k && s.provider_id == provider_id

unfoldable pub find_one : ℕ → ℕ → Action BlockedSlot
find_one user_id k = do
  db ← gets (λ d. d)
  provider ← or_raise (provider_of_user db user_id) (HttpError.not_found "Provider not found")
  or_raise (find_first (own_slot provider.id k) db.blocked_slots)
      (HttpError.not_found "Blocked slot not found")

-- `deleteMany`
abbrev pub delete_slots : (BlockedSlot → Bool) → Db → Db
delete_slots p db = record db { blocked_slots = keep (λ s. not (p s)) db.blocked_slots }

-- The whole range, if that is asked and the row has one, or the row alone.
unfoldable pub delete_from : ℕ → BlockedSlot → Bool → Option ℕ → Action (Unit {0})
delete_from provider_id slot whole_group none = modify (delete_slots (λ s. s.id == slot.id))
delete_from provider_id slot whole_group (some group) =
    if whole_group
    then modify (delete_slots (λ s. in_group group s && s.provider_id == provider_id))
    else modify (delete_slots (λ s. s.id == slot.id))

unfoldable pub remove_blocked_slot : ℕ → ℕ → Bool → Action (Unit {0})
unfolding delete_from
remove_blocked_slot user_id k whole_group = do
  db ← gets (λ d. d)
  provider ← or_raise (provider_of_user db user_id) (HttpError.not_found "Provider not found")
  slot ←
      or_raise (find_first (own_slot provider.id k) db.blocked_slots)
        (HttpError.not_found "Blocked slot not found")
  delete_from provider.id slot whole_group slot.group_id

-- The service and the provider of a package's row.
pub record PackagedService : Type 0 where
  pub service_id : ℕ
  pub provider_id : ℕ

abbrev pub is_on_day : ℕ → BlockedSlot → Bool
is_on_day date s = leb (midnight date) s.date && ltb s.date (midnight date + day_ms)

-- The slot is the provider's, and for this service or for all.
abbrev pub is_for : PackagedService → BlockedSlot → Bool
is_for svc s =
    s.provider_id == svc.provider_id
    && (is_id s.service_id svc.service_id || not (is_some s.service_id))

-- A slot without both times closes the whole day.
unfoldable pub is_hit : TimeOfDay → TimeOfDay → Option TimeOfDay → Option TimeOfDay → Bool
is_hit start end (some a) (some b) = ranges_overlap start end a b
is_hit start end (some _) none = true
is_hit start end none _ = true

unfoldable pub is_one_of : Option ℕ → List ℕ → Bool
is_one_of none ks = false
is_one_of (some k) ks = includes ks k

-- The slots that the query reads.
unfoldable pub blocks_read : Db → List PackagedService → ℕ → List BlockedSlot
unfolding is_one_of
blocks_read db services date =
    keep
      (λ s.
        includes (distinct (map (λ v. v.provider_id) services)) s.provider_id
        && (is_on_day date s
            && (is_one_of s.service_id (map (λ v. v.service_id) services)
                || not (is_some s.service_id))))
      db.blocked_slots

unfoldable pub assert_no_blocked_slots_for_package :
    List PackagedService → ℕ → TimeOfDay → TimeOfDay → Action (Unit {0})
unfolding blocks_read is_hit
assert_no_blocked_slots_for_package services date start end = do
  db ← gets (λ d. d)
  raise_if
      (any
        (λ svc.
          any (λ s. is_for svc s && is_hit start end s.from_time s.to_time)
            (blocks_read db services date))
        services)
      (HttpError.conflict "One of the package providers is unavailable")
