-- ===== src/Model/Catalog.antt =====
-- The enums of prisma/schema.prisma on packages, their partners and favorites, and the days of the week,
-- with their equality tests.
use eventy_backend.Base.{ℕ, ◌≡◌, ◌↔◌, Bool, arith, Eq, nat_beq}

pub data PackageStatus : Type 0 where
  draft active cancelled : PackageStatus

pub data PackageServiceStatus : Type 0 where
  pending_provider_approval active rejected : PackageServiceStatus

pub data FavoriteTargetType : Type 0 where
  service provider package_target : FavoriteTargetType

pub data DayOfWeek : Type 0 where
  sunday monday tuesday wednesday thursday friday saturday : DayOfWeek

abbrev day_code : DayOfWeek → ℕ
day_code DayOfWeek.sunday = 0
day_code DayOfWeek.monday = 1
day_code DayOfWeek.tuesday = 2
day_code DayOfWeek.wednesday = 3
day_code DayOfWeek.thursday = 4
day_code DayOfWeek.friday = 5
day_code DayOfWeek.saturday = 6

abbrev package_code : PackageStatus → ℕ
package_code PackageStatus.draft = 0
package_code PackageStatus.active = 1
package_code PackageStatus.cancelled = 2

abbrev package_service_code : PackageServiceStatus → ℕ
package_service_code PackageServiceStatus.pending_provider_approval = 0
package_service_code PackageServiceStatus.active = 1
package_service_code PackageServiceStatus.rejected = 2

abbrev favorite_code : FavoriteTargetType → ℕ
favorite_code FavoriteTargetType.service = 0
favorite_code FavoriteTargetType.provider = 1
favorite_code FavoriteTargetType.package_target = 2

pub package_code_iff :
    (a b : PackageStatus) → (nat_beq (package_code a) (package_code b) ≡ Bool.true) ↔ (a ≡ b)
package_code_iff a b = ground arith

pub package_service_code_iff :
    (a b : PackageServiceStatus)
    → (nat_beq (package_service_code a) (package_service_code b) ≡ Bool.true) ↔ (a ≡ b)
package_service_code_iff a b = ground arith

pub favorite_code_iff :
    (a b : FavoriteTargetType) → (nat_beq (favorite_code a) (favorite_code b) ≡ Bool.true) ↔ (a ≡ b)
favorite_code_iff a b = ground arith

pub day_code_iff : (a b : DayOfWeek) → (nat_beq (day_code a) (day_code b) ≡ Bool.true) ↔ (a ≡ b)
day_code_iff a b = ground arith

instance abbrev pub package_status_eq : Eq PackageStatus
package_status_eq = record {
  beq = λ a b. nat_beq (package_code a) (package_code b);
  beq_iff = package_code_iff;
}

instance abbrev pub package_service_status_eq : Eq PackageServiceStatus
package_service_status_eq = record {
  beq = λ a b. nat_beq (package_service_code a) (package_service_code b);
  beq_iff = package_service_code_iff;
}

instance abbrev pub favorite_target_type_eq : Eq FavoriteTargetType
favorite_target_type_eq = record {
  beq = λ a b. nat_beq (favorite_code a) (favorite_code b);
  beq_iff = favorite_code_iff;
}

instance abbrev pub day_of_week_eq : Eq DayOfWeek
day_of_week_eq = record { beq = λ a b. nat_beq (day_code a) (day_code b); beq_iff = day_code_iff }
