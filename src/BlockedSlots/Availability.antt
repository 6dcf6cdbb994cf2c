-- ===== src/BlockedSlots/Availability.antt =====
-- The test of a package's services against the blocked slots, which reads the slots of all of them by one
-- query, asks of each service what its own calendar says.
use eventy_backend.Base.{
  ℕ, ◌≡◌, refl, ◌∙◌, Bool, true, not, ◌&&◌, ◌||◌, Option, none, some, List, [], ◌∷◌, map, All,
  arith, ◌==◌, nat_eq, nat_beq_iff, includes, is_some, if◌then◌else◌, any, keep, distinct,
  Bool-cases, inl, inr,
}
use eventy_backend.Model.{TimeOfDay, BlockedSlot, Db, HttpError, ok, err, run_handler, is_id}
use eventy_backend.Evolution.Updates.{All-map, All-both}
use eventy_backend.BlockedSlots.{
  PackagedService, is_on_day, is_for, is_hit, is_one_of, blocks_read,
  assert_no_blocked_slots_for_package,
}

-- The service cannot be had at this time: one of its slots says so.
abbrev pub is_unavailable : Db → ℕ → TimeOfDay → TimeOfDay → PackagedService → Bool
is_unavailable db date start end svc =
    any (λ s. is_for svc s && (is_on_day date s && is_hit start end s.from_time s.to_time))
      db.blocked_slots

includes-keep :
    (x a : ℕ) (xs : List ℕ)
    → includes (keep (λ y. not (y == x)) xs) a ≡ (not (a == x) && includes xs a)
includes-keep x a [] = ground arith
includes-keep x a (y ∷ ys) = elim (Bool-cases (y == x)) [
  | inl same ↦ rw (same, includes-keep x a ys) (ground arith)
  | inr other ↦ rw (other, includes-keep x a ys) (ground arith)
]

includes-distinct : (xs : List ℕ) (a : ℕ) → includes (distinct xs) a ≡ includes xs a
includes-distinct [] a = refl
includes-distinct (x ∷ xs) a =
    rw (includes-keep x a (distinct xs), includes-distinct xs a) (ground arith)

members :
    (f : PackagedService → ℕ) (vs : List PackagedService)
    → All (λ v. includes (map f vs) (f v) ≡ true) vs
members f [] = tt
members f (v ∷ vs) = (ground arith, All-map _ _ (λ w h. ground (arith, h)) vs (members f vs))

any-keep :
    (p q : BlockedSlot → Bool) (xs : List BlockedSlot)
    → any p (keep q xs) ≡ any (λ x. q x && p x) xs
any-keep p q [] = refl
any-keep p q (x ∷ xs) = elim (Bool-cases (q x)) [
  | inl h ↦ rw (h, any-keep p q xs) refl
  | inr h ↦ rw (h, any-keep p q xs) refl
]

any-same :
    {A : Type 0} (p q : A → Bool) (xs : List A) → All (λ x. p x ≡ q x) xs → any p xs ≡ any q xs
any-same p q [] h = refl
any-same p q (x ∷ xs) h = rw (h.0, any-same p q xs h.1) refl

provider_read :
    (ps : List ℕ) (x y : ℕ) → includes ps x ≡ true → (y == x) ≡ true → includes ps y ≡ true
provider_read ps x y h e = rw ((nat_beq_iff y x).0 e) h

service_read :
    (ks : List ℕ) (x : ℕ) (o : Option ℕ)
    → includes ks x ≡ true
    → (is_id o x || not (is_some o)) ≡ true
    → (is_one_of o ks || not (is_some o)) ≡ true
unfolding is_one_of
service_read ks x none h e = refl
service_read ks x (some y) h e = ground (arith, provider_read ks x y h (ground arith))

-- A slot that is for one of the services is among those that are read.
read_anyway :
    (ps ks : List ℕ) (svc : PackagedService) (s : BlockedSlot) (day hit : Bool)
    → includes ps svc.provider_id ≡ true
    → includes ks svc.service_id ≡ true
    → ((includes ps s.provider_id
          && (day && (is_one_of s.service_id ks || not (is_some s.service_id))))
        && (is_for svc s && hit))
      ≡ (is_for svc s && (day && hit))
read_anyway ps ks svc s day hit h k = elim (Bool-cases (is_for svc s)) [
  | inl own ↦
      let p : includes ps s.provider_id ≡ true =
        provider_read ps svc.provider_id s.provider_id h (ground arith) in
      let q : (is_one_of s.service_id ks || not (is_some s.service_id)) ≡ true =
        service_read ks svc.service_id s.service_id k (ground arith) in
      rw (own, p, q) (ground arith)
  | inr other ↦ rw other (ground arith)
]

each_slot :
    {P : BlockedSlot → Type 0} → ((s : BlockedSlot) → P s) → (xs : List BlockedSlot) → All P xs
each_slot h [] = tt
each_slot h (x ∷ xs) = (h x, each_slot h xs)

blocks_of :
    (db : Db) (services : List PackagedService) (date : ℕ) (start end : TimeOfDay)
    (svc : PackagedService)
    → includes (map (λ v. v.provider_id) services) svc.provider_id ≡ true
    → includes (map (λ v. v.service_id) services) svc.service_id ≡ true
    → any
        (λ s. is_for svc s && is_hit start end s.from_time s.to_time)
        (blocks_read db services date)
      ≡ is_unavailable db date start end svc
unfolding blocks_read
blocks_of db services date start end svc h k =
    any-keep _ _ db.blocked_slots
    ∙ any-same _ _ db.blocked_slots (
        each_slot
          (λ s.
            read_anyway (distinct (map (λ v. v.provider_id) services))
              (map (λ v. v.service_id) services) svc s (is_on_day date s)
              (is_hit start end s.from_time s.to_time)
              (includes-distinct (map (λ v. v.provider_id) services) svc.provider_id ∙ h) k)
          db.blocked_slots)

-- The check reads and writes nothing else, and it refuses a package for a time exactly when one of its
-- services is unavailable then: some slot of that day is for that service, or for all of its provider's,
-- and closes the whole day or overlaps the time.
pub assert_no_blocked_slots_for_package_lem :
    (services : List PackagedService) (date : ℕ) (start end : TimeOfDay) (db : Db)
    → assert_no_blocked_slots_for_package services date start end db ≡ (
      db,
      if any (is_unavailable db date start end) services
          then err (HttpError.conflict "One of the package providers is unavailable")
          else ok tt,
    )
unfolding assert_no_blocked_slots_for_package run_handler
assert_no_blocked_slots_for_package_lem services date start end db =
    let same : any
          (λ svc.
            any (λ s. is_for svc s && is_hit start end s.from_time s.to_time)
              (blocks_read db services date))
          services
        ≡ any (is_unavailable db date start end) services =
      any-same _ _ services (
        All-map _ _ (λ svc h. blocks_of db services date start end svc h.0 h.1) services
          (All-both _ _ services (members (λ v. v.provider_id) services)
            (members (λ v. v.service_id) services))) in
    rw same (elim (Bool-cases (any (is_unavailable db date start end) services)) [
      | inl h ↦ rw h refl
      | inr h ↦ rw h refl
    ])
