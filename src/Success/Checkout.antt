-- ===== src/Success/Checkout.antt =====
-- Which discount a checkout may take.
use mathlib.Core.Option.{some-injective}
use eventy_backend.Base.{
  ℕ, ◌≤◌, ◌≢◌, sym, ap, ◌∙◌, ◌==◌, refl, Bool-cases, inl, inr, ◌&&◌, false, nat_beq_iff, ◌≡◌, true,
  Option, none, some, arith, nat_eq, string_eq, String,
}
use eventy_backend.Model.{
  is_id, DiscountScope, DiscountStatus, discount_scope_eq, discount_status_eq, Db, Discount, ok,
  run_handler, find_first,
}
use eventy_backend.Evolution.Updates.{find_first_sound}
use eventy_backend.Discounts.{is_given}
use eventy_backend.Discounts.Redeem.{
  is_after, is_before, is_currently_valid, same_code, refuse, match_or_null, is_active_for_service,
  resolve_active_discount_for_service,
}

matched :
    (now : ℕ) (code : Option String) (o : Option Discount) (d : Discount) (db : Db)
    → (match_or_null now code o db).1 ≡ ok (some d)
    → (o ≡ some d)
      × (is_currently_valid now d ≡ true)
      × (is_given d.code ≡ true → same_code code d.code ≡ true)
unfolding match_or_null refuse run_handler
matched now code none d db h = ground arith
matched now code (some x) d db h = ground arith

-- For the service, ACTIVE, not awaiting reconfirmation, and within its dates.
pub record IsOffered (now service_id : ℕ) (d : Discount) : Type 0 where
  pub for_services : d.scope ≡ DiscountScope.service
  pub of_service : d.service_id ≡ some service_id
  pub in_force : d.status ≡ DiscountStatus.active
  pub is_settled : d.needs_reconfirmation ≡ false
  pub begun : (start : ℕ) → d.starts_at ≡ some start → start ≤ now
  pub not_over : (stop : ℕ) → d.ends_at ≡ some stop → now ≤ stop

begun_by : (o : Option ℕ) (now start : ℕ) → is_after o now ≡ false → o ≡ some start → start ≤ now
begun_by none now start h e = cc
begun_by (some t) now start h e =
    let same : t ≡ start = some-injective _ _ e in rw (sym same) (ground arith)

over_by : (o : Option ℕ) (now stop : ℕ) → is_before o now ≡ false → o ≡ some stop → now ≤ stop
over_by none now stop h e = cc
over_by (some t) now stop h e =
    let same : t ≡ stop = some-injective _ _ e in rw (sym same) (ground arith)

holds_id : (o : Option ℕ) (k : ℕ) → is_id o k ≡ true → o ≡ some k
holds_id none k h = cc
holds_id (some j) k h = ap some ((nat_beq_iff j k).0 h)

pub valid-IsOffered :
    (now service_id : ℕ) (d : Discount)
    → is_active_for_service service_id d ≡ true
    → is_currently_valid now d ≡ true
    → IsOffered now service_id d
unfolding is_currently_valid
valid-IsOffered now service_id d active valid = record {
  for_services = ground arith;
  of_service = holds_id d.service_id service_id (ground arith);
  in_force = ground arith;
  is_settled = ground arith;
  begun = λ start e. begun_by d.starts_at now start (ground arith) e;
  not_over = λ stop e. over_by d.ends_at now stop (ground arith) e;
}

given_code : (t : String) → t ≢ "" → is_given (some t) ≡ true
given_code t ne = elim (Bool-cases (t == "")) [
  | inl e ↦ absurd (ne ((string_eq.beq_iff t "").0 e))
  | inr e ↦ rw e refl
]

code_equal :
    (a b : Option String) (s : String)
    → (is_given b ≡ true → same_code a b ≡ true)
    → b ≡ some s
    → s ≢ ""
    → a ≡ some s
unfolding same_code
code_equal a none s h e ne = cc
code_equal none (some t) s h e ne =
    let same : t ≡ s = some-injective _ _ e in
    let clash : false ≡ true = h (given_code t (λ q. ne (sym same ∙ q))) in cc
code_equal (some c) (some t) s h e ne =
    let same : t ≡ s = some-injective _ _ e in
    let equal : c ≡ t = (string_eq.beq_iff c t).0 (h (given_code t (λ q. ne (sym same ∙ q)))) in
    ap some (equal ∙ same)

not_after : (o : Option ℕ) (now : ℕ) → ((t : ℕ) → o ≡ some t → t ≤ now) → is_after o now ≡ false
not_after none now h = refl
not_after (some t) now h = ground (arith, h t refl)

not_before : (o : Option ℕ) (now : ℕ) → ((t : ℕ) → o ≡ some t → now ≤ t) → is_before o now ≡ false
not_before none now h = refl
not_before (some t) now h = ground (arith, h t refl)

pub IsOffered-valid :
    (now service_id : ℕ) (d : Discount)
    → IsOffered now service_id d
    → is_active_for_service service_id d && is_currently_valid now d ≡ true
unfolding is_currently_valid
IsOffered-valid now service_id d o =
    let a = not_after d.starts_at now o.begun in
    let b = not_before d.ends_at now o.not_over in
    rw (o.for_services, o.of_service, o.in_force, o.is_settled, a, b) (ground arith)

-- A discount that a checkout takes is for services and for this one, ACTIVE, not awaiting reconfirmation,
-- not before its start and not after its end, and if it has a code that is not empty, the customer gave that
-- code.
pub resolve_active_discount_for_service_lem :
    (now service_id : ℕ) (code : Option String) (db : Db) (d : Discount)
    → (resolve_active_discount_for_service now service_id code db).1 ≡ ok (some d)
    → IsOffered now service_id d × ((s : String) → d.code ≡ some s → s ≢ "" → code ≡ some s)
unfolding resolve_active_discount_for_service run_handler
resolve_active_discount_for_service_lem now service_id code db d h =
    let (found, valid, coded) =
      matched now code (find_first (is_active_for_service service_id) db.discounts) d db h in
    let active = find_first_sound (is_active_for_service service_id) db.discounts d found in
    (valid-IsOffered now service_id d active valid, λ s e ne. code_equal code d.code s coded e ne)
