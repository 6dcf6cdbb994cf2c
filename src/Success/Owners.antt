-- ===== src/Success/Owners.antt =====
-- Who may act on a booking, and what the action makes of it.
use eventy_backend.Base.{ℕ, ◌≡◌, true, some, All, arith, ◌==◌, nat_eq}
use eventy_backend.Model.{
  BookingStatus, booking_status_eq, Db, Booking, Provider, find_first, provider_of_user,
}
use eventy_backend.Evolution.Updates.{find_first_sound}
use eventy_backend.ProviderBookings.{owned_by}

-- The user is a provider, and the booking with this id is the provider's and has this status.
pub record MayAct (db : Db) (u k : ℕ) (s : BookingStatus) : Type 0 where
  pub provider : Provider
  pub target : Booking
  pub own_profile : provider.user_id ≡ u
  pub same_id : target.id ≡ k
  pub own_booking : target.provider_id ≡ provider.id
  pub in_status : target.status ≡ s

abbrev pub AllHave : ℕ → BookingStatus → Db → Type 0
AllHave k s db = All (λ b. b.id ≡ k → b.status ≡ s) db.bookings

pub may_act :
    (db : Db) (u k : ℕ) (s : BookingStatus) (p : Provider) (b : Booking)
    → provider_of_user db u ≡ some p
    → find_first (owned_by p.id k) db.bookings ≡ some b
    → (b.status == s) ≡ true
    → MayAct db u k s
may_act db u k s p b own found h =
    let mine : (p.user_id == u) ≡ true = find_first_sound _ db.providers p own in
    let hit : owned_by p.id k b ≡ true = find_first_sound _ db.bookings b found in
    record {
      provider = p;
      target = b;
      own_profile = ground arith;
      same_id = ground arith;
      own_booking = ground arith;
      in_status = ground arith;
    }

abbrev Done : Db → ℕ → ℕ → BookingStatus → BookingStatus → Unit {0} → Db → Type 0
Done db u k s t _ after = MayAct db u k s × AllHave k t after
