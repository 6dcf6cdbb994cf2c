-- ===== src/Success/Listing.antt =====
-- Which discount a listing shows beside a service.
use eventy_backend.Base.{
  ℕ, ◌≡◌, Bool, true, false, not, ◌&&◌, none, some, List, [], ◌∷◌, All, arith, nat_eq, is_some,
  refl, none_of_absent,
}
use eventy_backend.Model.{discount_scope_eq, discount_status_eq, Discount}
use eventy_backend.Evolution.Updates.{All-map}
use eventy_backend.Success.Checkout.{IsOffered, valid-IsOffered, IsOffered-valid}
use eventy_backend.Discounts.Redeem.{is_currently_valid, is_active_for_service, listed_for_service}

abbrev applies_to : ℕ → ℕ → Discount → Bool
applies_to now service_id d =
    is_active_for_service service_id d && (not (is_some d.code) && is_currently_valid now d)

unlisted-applies_to :
    (now service_id : ℕ) (ds : List Discount)
    → listed_for_service now service_id ds ≡ none
    → All (λ d. applies_to now service_id d ≡ false) ds
unfolding listed_for_service
unlisted-applies_to now service_id [] h = tt
unlisted-applies_to now service_id (x ∷ ds) h =
    (ground arith, unlisted-applies_to now service_id ds (ground arith))

listed-applies_to :
    (now service_id : ℕ) (ds : List Discount) (d : Discount)
    → listed_for_service now service_id ds ≡ some d
    → applies_to now service_id d ≡ true
unfolding listed_for_service
listed-applies_to now service_id [] d h = cc
listed-applies_to now service_id (x ∷ ds) d h =
    ground (arith, listed-applies_to now service_id ds d)

applies-IsOffered :
    (now service_id : ℕ) (d : Discount)
    → applies_to now service_id d ≡ true
    → IsOffered now service_id d × (d.code ≡ none)
applies-IsOffered now service_id d h = (
  valid-IsOffered now service_id d (ground arith) (ground arith),
  none_of_absent d.code (ground arith),
)

IsOffered-applies :
    (now service_id : ℕ) (d : Discount)
    → applies_to now service_id d ≡ false
    → ¬ (IsOffered now service_id d × (d.code ≡ none))
IsOffered-applies now service_id d h (o, bare) =
    let hit = IsOffered-valid now service_id d o in
    let no_code : is_some d.code ≡ false = rw bare refl in ground (arith, h, hit, no_code)

-- A listing shows a discount beside a service only if it is for services and for this one, ACTIVE, not
-- awaiting reconfirmation, not before its start, not after its end, and without a code; and it shows none
-- only if there is no such discount.
pub listed_for_service_lem :
    (now service_id : ℕ) (ds : List Discount)
    → ((d : Discount)
        → listed_for_service now service_id ds ≡ some d
        → IsOffered now service_id d × (d.code ≡ none))
      × (listed_for_service now service_id ds ≡ none
          → All (λ d. ¬ (IsOffered now service_id d × (d.code ≡ none))) ds)
listed_for_service_lem now service_id ds = (
  λ d e. applies-IsOffered now service_id d (listed-applies_to now service_id ds d e),
  λ e. All-map _ _ (IsOffered-applies now service_id) ds (unlisted-applies_to now service_id ds e),
)
