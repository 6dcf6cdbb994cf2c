-- ===== src/Lifecycle/Order.antt =====
-- `later` is reachability along the moves, and booking moves compose.
use eventy_backend.Base.{true, ◌≡◌, ◌↔◌, arith}
use eventy_backend.Model.{BookingStatus, Booking}
use eventy_backend.Lifecycle.{
  ◌⟶◌, ◌⟶*◌, quote, reject, confirm, start, complete, cancel_pending, cancel_quoted,
  cancel_confirmed, accept_in_package, cancel_in_package, here, next, later, BookingMove,
}

later_step : (s t u : BookingStatus) → later s t ≡ true → t ⟶ u → later s u ≡ true
later_step s _ _ h quote = ground arith
later_step s _ _ h reject = ground arith
later_step s _ _ h confirm = ground arith
later_step s _ _ h start = ground arith
later_step s _ _ h complete = ground arith
later_step s _ _ h cancel_pending = ground arith
later_step s _ _ h cancel_quoted = ground arith
later_step s _ _ h cancel_confirmed = ground arith
later_step s _ _ h accept_in_package = ground arith
later_step s _ _ h cancel_in_package = ground arith

pub later_refl : (s : BookingStatus) → later s s ≡ true
later_refl s = ground arith

later_of_path : (s t : BookingStatus) → s ⟶* t → later s t ≡ true
later_of_path s _ here = later_refl s
later_of_path s u (next {t = t} r m) = later_step s t u (later_of_path s t r) m

ruleset moves = (
  quote, reject, confirm, start, complete, cancel_pending, cancel_quoted, cancel_confirmed,
  cancel_in_package,
)

path_of_later : (s t : BookingStatus) → later s t ≡ true → s ⟶* t
path_of_later BookingStatus.pending BookingStatus.pending h = here
path_of_later BookingStatus.pending _ h = search (here, next, moves)
path_of_later BookingStatus.quote_sent BookingStatus.pending h = cc
path_of_later BookingStatus.quote_sent BookingStatus.rejected h = cc
path_of_later BookingStatus.quote_sent _ h = search (here, next, moves)
path_of_later BookingStatus.confirmed BookingStatus.pending h = cc
path_of_later BookingStatus.confirmed BookingStatus.quote_sent h = cc
path_of_later BookingStatus.confirmed BookingStatus.rejected h = cc
path_of_later BookingStatus.confirmed _ h = search (here, next, moves)
path_of_later BookingStatus.in_progress BookingStatus.in_progress h = here
path_of_later BookingStatus.in_progress BookingStatus.completed h = search (here, next, moves)
path_of_later BookingStatus.in_progress BookingStatus.cancelled h = search (here, next, moves)
path_of_later BookingStatus.in_progress _ h = cc
path_of_later BookingStatus.rejected BookingStatus.rejected h = here
path_of_later BookingStatus.rejected _ h = cc
path_of_later BookingStatus.completed BookingStatus.completed h = here
path_of_later BookingStatus.completed _ h = cc
path_of_later BookingStatus.cancelled BookingStatus.cancelled h = here
path_of_later BookingStatus.cancelled _ h = cc

-- One status is later than another exactly when a chain of business actions leads to it.
pub later_iff : (s t : BookingStatus) → (later s t ≡ true) ↔ (s ⟶* t)
later_iff s t = (path_of_later s t, later_of_path s t)

pub later_trans : (s t u : BookingStatus) → later s t ≡ true → later t u ≡ true → later s u ≡ true
later_trans s t u h k = ground arith

pub BookingMove-refl : (b : Booking) → BookingMove b b
BookingMove-refl b = ground (arith, later_refl b.status)

pub BookingMove-trans : (a b c : Booking) → BookingMove a b → BookingMove b c → BookingMove a c
BookingMove-trans a b c h k =
    ground (arith, later_trans a.status b.status c.status h.forward k.forward)
