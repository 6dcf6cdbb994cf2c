-- ===== src/Packages/Composition/Days.antt =====
-- The services of a package share a working day.
use eventy_backend.Base.{
  ℕ, ◌≡◌, refl, sym, ◌∙◌, ◌↔◌, Bool, true, false, ◌&&◌, ◌||◌, List, [], ◌∷◌, ◌++◌, string_eq, All,
  arith, ◌==◌, nat_eq, nat_beq_iff, includes, all, any, keep, Bool-cases, inl, inr,
}
use eventy_backend.Model.{
  DayOfWeek, day_of_week_eq, package_status_eq, Db, ok, HttpError, raise_if_lem,
}
use eventy_backend.Evolution.Updates.{All-map}
use eventy_backend.Bookings.{is_empty}
use eventy_backend.Packages.Composition.{
  ServiceAvailability, DayScope, add_days, day_scope, common_days, assert_common_time_window,
}

unfoldable pub works_on : List ServiceAvailability → DayOfWeek → ℕ → Bool
works_on availabilities day k =
    any (λ a. a.service_id == k && includes a.working_days day) availabilities

includes-append :
    (xs ys : List DayOfWeek) (d : DayOfWeek)
    → includes (xs ++ ys) d ≡ (includes xs d || includes ys d)
includes-append [] ys d = refl
includes-append (x ∷ xs) ys d = ground (arith, includes-append xs ys d)

day_scope_lem :
    (rows : List ServiceAvailability) (scope : DayScope) (k : ℕ) (day : DayOfWeek)
    → includes (day_scope rows scope k) day ≡ (includes (scope k) day || works_on rows day k)
unfolding day_scope works_on
day_scope_lem [] scope k day = ground arith
day_scope_lem (a ∷ rows) scope k day = elim (Bool-cases (a.service_id == k)) [
  | inl h ↦
      rw
        (
          day_scope_lem rows (add_days a scope) k day,
          h,
          includes-append (scope k) a.working_days day,
        )
        (ground arith)
  | inr h ↦ rw (day_scope_lem rows (add_days a scope) k day, h) (ground arith)
]

unread :
    (ids : List ℕ) (a k : ℕ) → includes ids k ≡ true → includes ids a ≡ false → (a == k) ≡ false
unread ids a k h e = elim (Bool-cases (a == k)) [
  | inl same ↦ let there : includes ids a ≡ true = rw ((nat_beq_iff a k).0 same) h in cc
  | inr other ↦ other
]

works_on-keep :
    (ids : List ℕ) (rows : List ServiceAvailability) (day : DayOfWeek) (k : ℕ)
    → includes ids k ≡ true
    → works_on (keep (λ a. includes ids a.service_id) rows) day k ≡ works_on rows day k
unfolding works_on
works_on-keep ids [] day k h = refl
works_on-keep ids (a ∷ rows) day k h = elim (Bool-cases (includes ids a.service_id)) [
  | inl e ↦ rw (e, works_on-keep ids rows day k h) refl
  | inr e ↦
      let other : (a.service_id == k) ≡ false = unread ids a.service_id k h e in
      rw (e, other, works_on-keep ids rows day k h) refl
]

-- For no service at all there is no common day.
abbrev pub HasCommonDay : List ServiceAvailability → List ℕ → Type 0
HasCommonDay rows ids =
    (is_empty ids ≡ false) × (day : DayOfWeek) × All (λ k. works_on rows day k ≡ true) ids

kept_some :
    (q : DayOfWeek → Bool) (days : List DayOfWeek)
    → is_empty (keep q days) ≡ false
    → (day : DayOfWeek) × (q day ≡ true)
kept_some q [] h = cc
kept_some q (d ∷ ds) h = elim (Bool-cases (q d)) [
  | inl hit ↦ (d, hit)
  | inr miss ↦ kept_some q ds (ground (arith, h, miss))
]

or_false : (a b : Bool) → a ≡ false → (a || b) ≡ true → b ≡ true
or_false true b h e = cc
or_false false b h e = e

some_kept :
    (q : DayOfWeek → Bool) (days : List DayOfWeek) (day : DayOfWeek)
    → includes days day ≡ true
    → q day ≡ true
    → is_empty (keep q days) ≡ false
some_kept q [] day h e = cc
some_kept q (d ∷ ds) day h e = elim (Bool-cases (q d)) [
  | inl hit ↦ rw hit refl
  | inr miss ↦ elim (Bool-cases (d == day)) [
    | inl same ↦ let clash : q d ≡ true = rw ((day_of_week_eq.beq_iff d day).0 same) e in cc
    | inr other ↦ rw miss (some_kept q ds day (or_false (d == day) (includes ds day) other h) e)
  ]
]

included : (xs : List ℕ) → All (λ k. includes xs k ≡ true) xs
included [] = tt
included (x ∷ xs) = (ground arith, All-map _ _ (λ k h. ground (arith, h)) xs (included xs))

all_iff :
    (p q : ℕ → Bool) (ks : List ℕ)
    → All (λ k. p k ≡ q k) ks
    → (all p ks ≡ true) ↔ All (λ k. q k ≡ true) ks
all_iff p q [] h = ((λ e. tt), λ e. refl)
all_iff p q (k ∷ ks) h =
    let (there, back) = all_iff p q ks h.1 in
    ((λ e. (sym h.0 ∙ ground arith, there (ground arith))), λ e. ground (arith, h.0, e.0, back e.1))

abbrev read_scope : List ServiceAvailability → List ℕ → DayScope
read_scope rows ids = day_scope (keep (λ a. includes ids a.service_id) rows) (λ _. [])

scope_day :
    (rows : List ServiceAvailability) (ids : List ℕ) (day : DayOfWeek)
    → All (λ k. includes (read_scope rows ids k) day ≡ works_on rows day k) ids
scope_day rows ids day =
    All-map (λ k. includes ids k ≡ true) _
      (λ k h.
        day_scope_lem (keep (λ a. includes ids a.service_id) rows) (λ _. []) k day
        ∙ works_on-keep ids rows day k h)
      ids (included ids)

common_iff :
    (rows : List ServiceAvailability) (ids : List ℕ)
    → (is_empty (common_days (read_scope rows ids) ids) ≡ false) ↔ HasCommonDay rows ids
unfolding common_days
common_iff rows [] = ((λ h. cc), λ h. h.0)
common_iff rows (k ∷ ks) = (
  λ h.
      let (day, e) = kept_some _ (read_scope rows (k ∷ ks) k) h in
      (refl, day, (all_iff _ _ (k ∷ ks) (scope_day rows (k ∷ ks) day)).0 e),
  λ (_, day, h).
      let scopes = scope_day rows (k ∷ ks) day in
      some_kept _ (read_scope rows (k ∷ ks) k) day (scopes.0 ∙ h.0)
        ((all_iff _ _ (k ∷ ks) scopes).1 h),
)

-- The check passes, and changes nothing, exactly when there is at least one service and some day of the
-- week is a working day, in one of its availabilities at least, of each of the services. The hours do not
-- matter.
pub assert_common_time_window_lem :
    (rows : List ServiceAvailability) (ids : List ℕ) (db : Db)
    → (assert_common_time_window rows ids db ≡ (db, ok tt)) ↔ HasCommonDay rows ids
unfolding assert_common_time_window
assert_common_time_window_lem rows ids db =
    let (passed, passes) =
      raise_if_lem (is_empty (common_days (read_scope rows ids) ids))
        (HttpError.bad_request "The selected services have no common available day/time window")
        db in
    let (there, back) = common_iff rows ids in ((λ e. there (passed e)), λ h. passes (back h))
