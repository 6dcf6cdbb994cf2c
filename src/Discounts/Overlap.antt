-- ===== src/Discounts/Overlap.antt =====
-- Two discounts that apply by themselves are never in force for one target at one instant.
use eventy_backend.Base.{
  ℕ, Bool, true, false, not, ◌&&◌, ◌||◌, ◌≡◌, sym, Option, none, some, ◌⊎◌, List, [], ◌∷◌, ◌++◌,
  All, arith, ◌==◌, nat_eq, is_some, if◌then◌else◌, leb, any, Bool-cases, inl, inr,
}
use eventy_backend.Model.{DiscountStatus, discount_status_eq, Discount, is_id, update_where}
use eventy_backend.Evolution.Updates.{All-map, All-append, All-update_where, any-false, All-both}
use eventy_backend.Discounts.{CreateDiscount, is_given, ranges_overlap, has_overlap, names_target}

-- Both columns hold one id.
abbrev pub shares : Option ℕ → Option ℕ → Bool
shares none other = false
shares (some k) other = is_id other k

-- The instant is not before the start, and not after the end; an empty bound is met by every instant.
abbrev pub has_begun : Option ℕ → ℕ → Bool
has_begun none t = true
has_begun (some start) t = leb start t

abbrev pub has_not_ended : Option ℕ → ℕ → Bool
has_not_ended none t = true
has_not_ended (some stop) t = leb t stop

-- ACTIVE, within its dates, and without a code, where an empty code counts as none.
abbrev pub applies_at : ℕ → Discount → Bool
applies_at t d =
    (d.status == DiscountStatus.active && not (is_given d.code))
    && (has_begun d.starts_at t && has_not_ended d.ends_at t)

-- Two discounts apply by themselves to one target at this instant.
abbrev pub conflicts_at : ℕ → Discount → Discount → Bool
conflicts_at t a b =
    (applies_at t a && applies_at t b)
    && (shares a.service_id b.service_id || shares a.package_id b.package_id)

abbrev pub Conflicts : Discount → Discount → Type 0
Conflicts a b = (t : ℕ) × (conflicts_at t a b ≡ true)

-- The code is absent or not empty.
abbrev pub has_real_code : Discount → Bool
has_real_code d = is_given d.code || not (is_some d.code)

abbrev pub AllReal : List Discount → Type 0
AllReal ds = All (λ d. has_real_code d ≡ true) ds

abbrev pub NoConflicts : List Discount → Type 0
NoConflicts [] = Unit {0}
NoConflicts (d ∷ ds) = All (λ e. ¬ Conflicts d e) ds × NoConflicts ds

-- If no discount has the empty code afterwards, none had it before, and no conflict has come up.
abbrev pub DiscountsKept : List Discount → List Discount → Type 0
DiscountsKept before after =
    AllReal after → AllReal before × (NoConflicts before → NoConflicts after)

NoConflicts-append :
    (ds : List Discount) (n : Discount)
    → NoConflicts ds
    → All (λ d. ¬ Conflicts d n) ds
    → NoConflicts (ds ++ n ∷ [])
NoConflicts-append [] n h k = (tt, tt)
NoConflicts-append (d ∷ ds) n h k =
    (All-append (λ e. ¬ Conflicts d e) ds n h.0 k.0, NoConflicts-append ds n h.1 k.1)

-- Two ranges with an instant in common pass the overlap test.
common :
    (a_start a_end b_start b_end : Option ℕ) (t : ℕ)
    → has_begun a_start t ≡ true
    → has_not_ended a_end t ≡ true
    → has_begun b_start t ≡ true
    → has_not_ended b_end t ≡ true
    → ranges_overlap a_start a_end b_start b_end ≡ true
unfolding ranges_overlap
common a_start a_end b_start b_end t h i j k = ground arith

-- A new discount for one target conflicts with none that the overlap check lets pass.
no_conflict :
    (dto : CreateDiscount) (d n : Discount)
    → has_real_code d ≡ true
    → names_target dto ≡ true
    → n.service_id ≡ dto.service_id
    → n.package_id ≡ dto.package_id
    → n.starts_at ≡ dto.starts_at
    → n.ends_at ≡ dto.ends_at
    → has_overlap dto d ≡ false
    → ¬ Conflicts d n
unfolding names_target has_overlap ranges_overlap
no_conflict dto d n real t s p a b h (at, c) =
    let both : ranges_overlap dto.starts_at dto.ends_at d.starts_at d.ends_at ≡ true =
      common dto.starts_at dto.ends_at d.starts_at d.ends_at at (rw (sym a) (ground arith))
        (rw (sym b) (ground arith)) (ground arith) (ground arith) in
    ground (arith, both, c, h, real, t, s, p)

no_conflict_coded : (d n : Discount) → is_given n.code ≡ true → ¬ Conflicts d n
no_conflict_coded d n h (at, c) = ground arith

add_discount_NoConflicts :
    (dto : CreateDiscount) (n : Discount) (ds : List Discount)
    → names_target dto ≡ true
    → n.service_id ≡ dto.service_id
    → n.package_id ≡ dto.package_id
    → n.starts_at ≡ dto.starts_at
    → n.ends_at ≡ dto.ends_at
    → ((is_given n.code ≡ true) ⊎ (any (has_overlap dto) ds ≡ false))
    → AllReal ds
    → NoConflicts ds
    → NoConflicts (ds ++ n ∷ [])
add_discount_NoConflicts dto n ds t s p a b (inl coded) real h =
    NoConflicts-append ds n h (all_coded ds)
  where
    all_coded : (xs : List Discount) → All (λ d. ¬ Conflicts d n) xs
    all_coded [] = tt
    all_coded (d ∷ xs) = (no_conflict_coded d n coded, all_coded xs)
add_discount_NoConflicts dto n ds t s p a b (inr free) real h = NoConflicts-append ds n h (
    All-map _ (λ d. ¬ Conflicts d n) (λ d f. no_conflict dto d n f.0 t s p a b f.1) ds
      (All-both _ _ ds real (any-false (has_overlap dto) ds free)))

-- An update that keeps the target, the code and the dates, and activates nothing.
pub record Calms (f : Discount → Discount) : Type 0 where
  pub same_service : (d : Discount) → (f d).service_id ≡ d.service_id
  pub same_package : (d : Discount) → (f d).package_id ≡ d.package_id
  pub same_code : (d : Discount) → (f d).code ≡ d.code
  pub same_start : (d : Discount) → (f d).starts_at ≡ d.starts_at
  pub same_end : (d : Discount) → (f d).ends_at ≡ d.ends_at
  pub not_activated :
      (d : Discount)
      → ((f d).status == DiscountStatus.active) ≡ true
      → (d.status == DiscountStatus.active) ≡ true

calm_left :
    (f : Discount → Discount) (d e : Discount) → Calms f → ¬ Conflicts d e → ¬ Conflicts (f d) e
unfolding ranges_overlap
calm_left f d e c h (at, k) = h (
  at,
  ground (
    arith,
    c.same_service d,
    c.same_package d,
    c.same_code d,
    c.same_start d,
    c.same_end d,
    c.not_activated d,
    k,
  ),
)

calm_right :
    (f : Discount → Discount) (d e : Discount) → Calms f → ¬ Conflicts d e → ¬ Conflicts d (f e)
unfolding ranges_overlap
calm_right f d e c h (at, k) = h (
  at,
  ground (
    arith,
    c.same_service e,
    c.same_package e,
    c.same_code e,
    c.same_start e,
    c.same_end e,
    c.not_activated e,
    k,
  ),
)

NoConflicts-update_where :
    (p : Discount → Bool) (f : Discount → Discount) (ds : List Discount)
    → Calms f
    → NoConflicts ds
    → NoConflicts (update_where p f ds)
unfolding update_where
NoConflicts-update_where p f [] c h = tt
NoConflicts-update_where p f (d ∷ ds) c h =
    let rest = NoConflicts-update_where p f ds c h.1 in
    let others : All (λ e. ¬ Conflicts d e) (update_where p f ds) =
      All-update_where (λ e. ¬ Conflicts d e) p f ds h.0
        (All-map (λ e. ¬ Conflicts d e) (λ e. p e ≡ true → ¬ Conflicts d (f e))
          (λ e k _. calm_right f d e c k) ds h.0) in
    elim (Bool-cases (p d)) [
      | inl hit ↦ rw hit (
        All-map (λ e. ¬ Conflicts d e) (λ e. ¬ Conflicts (f d) e) (λ e k. calm_left f d e c k)
            (update_where p f ds) others,
        rest,
      )
      | inr miss ↦ rw miss (others, rest)
    ]

AllReal-appended : (ds : List Discount) (n : Discount) → AllReal (ds ++ n ∷ []) → AllReal ds
AllReal-appended [] n h = tt
AllReal-appended (d ∷ ds) n h = (h.0, AllReal-appended ds n h.1)

real_before :
    (f : Discount → Discount) (d : Discount)
    → Calms f
    → (hit : Bool) → has_real_code (if hit then f d else d) ≡ true
    → has_real_code d ≡ true
real_before f d c true h = ground (arith, h, c.same_code d)
real_before f d c false h = h

AllReal-updated :
    (p : Discount → Bool) (f : Discount → Discount) (ds : List Discount)
    → Calms f
    → AllReal (update_where p f ds)
    → AllReal ds
unfolding update_where
AllReal-updated p f [] c h = tt
AllReal-updated p f (d ∷ ds) c h = (real_before f d c (p d) h.0, AllReal-updated p f ds c h.1)

pub DiscountsKept-append :
    (dto : CreateDiscount) (n : Discount) (ds : List Discount)
    → names_target dto ≡ true
    → n.service_id ≡ dto.service_id
    → n.package_id ≡ dto.package_id
    → n.starts_at ≡ dto.starts_at
    → n.ends_at ≡ dto.ends_at
    → ((is_given n.code ≡ true) ⊎ (any (has_overlap dto) ds ≡ false))
    → DiscountsKept ds (ds ++ n ∷ [])
DiscountsKept-append dto n ds t s p a b free real =
    let before = AllReal-appended ds n real in
    (before, (λ h. add_discount_NoConflicts dto n ds t s p a b free before h))

pub DiscountsKept-update_where :
    (p : Discount → Bool) (f : Discount → Discount) (ds : List Discount)
    → Calms f
    → DiscountsKept ds (update_where p f ds)
DiscountsKept-update_where p f ds c real =
    (AllReal-updated p f ds c real, (λ h. NoConflicts-update_where p f ds c h))
