-- ===== src/Examples/Calendar.antt =====
-- Favorites and blocked days, on the small database.
use eventy_backend.Base.{
  ℕ, ◌+◌, ◌*◌, ◌≡◌, refl, true, ◌||◌, none, some, List, [], ◌∷◌, arith, any, if◌then◌else◌,
}
use eventy_backend.Model.{
  FavoriteTargetType, Provider, BlockedSlot, HttpError, ok, err, run_handler, find_first,
  provider_of_user, day_ms,
}
use eventy_backend.Favorites.{is_valid_target}
use eventy_backend.Favorites.Shelf.{
  FavoritesSound, Command, add, drop, shelf, obey_all, apply_all, obey_all-apply_all,
}
use eventy_backend.BlockedSlots.{
  CreateBlockedSlot, new_slot, slots_from, check_owned_service, check_times, insert_slots,
  create_blocked_slots, remove_blocked_slot, PackagedService, assert_no_blocked_slots_for_package,
}
use eventy_backend.BlockedSlots.Calendar.{
  is_closed, covers, create_blocked_slots_lem, remove_blocked_slot-create_blocked_slots,
}
use eventy_backend.BlockedSlots.Availability.{
  is_unavailable, assert_no_blocked_slots_for_package_lem,
}
use eventy_backend.Examples.{sample}

-- Service 2 is added twice and dropped, and package 7, which is not there, is not added.
abbrev clicks : List Command
clicks =
    add 20 FavoriteTargetType.service 2
    ∷ add 20 FavoriteTargetType.service 2
    ∷ add 20 FavoriteTargetType.package_target 7
    ∷ add 20 FavoriteTargetType.provider 1
    ∷ drop 20 FavoriteTargetType.service 2
    ∷ []

no_favorites : FavoritesSound sample
no_favorites = record { ids = tt; fresh = tt; one_each = tt }

-- The service is no longer a favorite.
obey_all-apply_all_example :
    FavoritesSound (obey_all clicks sample)
    × (shelf (obey_all clicks sample) 20 FavoriteTargetType.service 2
        ≡ apply_all (is_valid_target sample) clicks (shelf sample) 20 FavoriteTargetType.service 2)
obey_all-apply_all_example =
    obey_all-apply_all clicks sample 20 FavoriteTargetType.service 2 no_favorites

-- Provider 1 closes days 10 and 11 for all services.
abbrev vacation : CreateBlockedSlot
vacation = record {
  service_id = none;
  from_date = 10 * day_ms + 5;
  to_date = some (11 * day_ms);
  from_time = none;
  to_time = none;
  reason = some "vacation";
}

abbrev closed_days : List BlockedSlot
closed_days = new_slot 31 30 1 vacation (10 * day_ms) ∷ new_slot 32 30 1 vacation (11 * day_ms) ∷ []

granted : (create_blocked_slots 11 vacation sample).1 ≡ ok closed_days
unfolding create_blocked_slots check_owned_service check_times insert_slots slots_from find_first
    run_handler
granted = refl

-- A day of the vacation is closed for service 2.
create_blocked_slots_lem_example :
    (p : Provider) × (provider_of_user sample 11 ≡ some p)
    × ((svc : PackagedService) (date : ℕ)
        → is_closed (create_blocked_slots 11 vacation sample).0 svc date
          ≡ (is_closed sample svc date || covers p.id vacation svc date))
create_blocked_slots_lem_example = create_blocked_slots_lem 11 vacation sample closed_days granted

-- The vacation is called off by its second day.
remove_blocked_slot-create_blocked_slots_example :
    let after = (create_blocked_slots 11 vacation sample).0 in
    ((remove_blocked_slot 11 32 true after).0.blocked_slots ≡ [])
    × ((remove_blocked_slot 11 32 true after).1 ≡ ok tt)
remove_blocked_slot-create_blocked_slots_example =
    remove_blocked_slot-create_blocked_slots 11 vacation sample closed_days 1 tt granted
      (ground arith)

-- Service 2 of provider 1 on an evening of day 10.
assert_no_blocked_slots_for_package_lem_example :
    assert_no_blocked_slots_for_package
      (record { service_id = 2; provider_id = 1 } ∷ [])
      (10 * day_ms)
      (record { hour = 20; minute = 0 })
      (record { hour = 2; minute = 0 })
      (record sample { blocked_slots = closed_days })
    ≡ (
      record sample { blocked_slots = closed_days },
      if any
            (is_unavailable
              (record sample { blocked_slots = closed_days })
              (10 * day_ms)
              (record { hour = 20; minute = 0 })
              (record { hour = 2; minute = 0 }))
            (record { service_id = 2; provider_id = 1 } ∷ [])
          then err (HttpError.conflict "One of the package providers is unavailable")
          else ok tt,
    )
assert_no_blocked_slots_for_package_lem_example =
    assert_no_blocked_slots_for_package_lem (record { service_id = 2; provider_id = 1 } ∷ [])
      (10 * day_ms) (record { hour = 20; minute = 0 }) (record { hour = 2; minute = 0 })
      (record sample { blocked_slots = closed_days })
