-- ===== src/Packages/Composition/Repeats.antt =====
-- No package is put together twice: the sorted lists against how often each service is named.
use eventy_backend.Base.{
  ℕ, suc, ◌≡◌, ◌≢◌, refl, sym, ◌∙◌, ◌↔◌, Bool, true, false, ◌&&◌, Option, List, [], ◌∷◌, string_eq,
  All, arith, ◌==◌, nat_eq, includes, any, keep, Bool-cases, inl, inr,
}
use eventy_backend.Model.{
  day_of_week_eq, PackageStatus, package_status_eq, Db, Package, ok, HttpError, run_handler,
  raise_if_lem, is_id,
}
use eventy_backend.Bookings.{is_empty}
use eventy_backend.Packages.Composition.{
  services_of, is_candidate, has_same_services, assert_no_duplicate_package_service_set,
}
use eventy_backend.Packages.Composition.Sorting.{count, match_ids-sort}

-- Another package in force has some service, and has each service as often as it is named.
abbrev pub IsRepeated : Db → List ℕ → Option ℕ → Package → Type 0
IsRepeated db ids exclude p =
    (p.status ≢ PackageStatus.cancelled)
    × (is_id exclude p.id ≡ false)
    × (is_empty ids ≡ false)
    × ((k : ℕ) → count k (services_of db p) ≡ count k ids)

includes_count : (k : ℕ) (xs : List ℕ) (n : ℕ) → count k xs ≡ suc n → includes xs k ≡ true
includes_count k [] n e = ground arith
includes_count k (x ∷ xs) n e = elim (Bool-cases (x == k)) [
  | inl h ↦ ground arith
  | inr h ↦ ground (arith, includes_count k xs n (ground arith))
]

-- Two lists with the same counts, of which one is not empty, have an element in common.
in_common :
    (es ids : List ℕ)
    → is_empty ids ≡ false
    → ((k : ℕ) → count k es ≡ count k ids)
    → any (includes ids) es ≡ true
in_common [] [] h c = cc
in_common [] (i ∷ is) h c = ground (arith, c i)
in_common (e ∷ es) ids h c =
    let there : includes ids e ≡ true =
      includes_count e ids (count e es) (sym (c e) ∙ ground arith) in
    rw there refl

not_empty : (es ids : List ℕ) → any (includes ids) es ≡ true → is_empty ids ≡ false
not_empty [] ids h = cc
not_empty (e ∷ es) [] h = not_empty es [] h
not_empty es (i ∷ is) h = refl

IsRepeated-iff :
    (db : Db) (ids : List ℕ) (exclude : Option ℕ) (p : Package)
    → (is_candidate db ids exclude p && has_same_services db ids p ≡ true)
      ↔ IsRepeated db ids exclude p
unfolding has_same_services
IsRepeated-iff db ids exclude p = (
  λ h. (
    (λ e. ground (arith, e)),
    ground arith,
    not_empty (services_of db p) ids (ground arith),
    (match_ids-sort (services_of db p) ids).0 (ground arith),
  ),
  λ (live, other, some_id, same).
      let a : any (includes ids) (services_of db p) ≡ true =
        in_common (services_of db p) ids some_id same in
      let b = (match_ids-sort (services_of db p) ids).1 same in ground (arith, live, other, a, b),
)

none_kept :
    (p q : Package → Bool) (R : Package → Type 0)
    → ((x : Package) → (q x && p x ≡ true) ↔ R x)
    → (xs : List Package) → (any p (keep q xs) ≡ false) ↔ All (λ x. ¬ R x) xs
none_kept p q R same [] = ((λ h. tt), λ h. refl)
none_kept p q R same (x ∷ xs) =
    let (there, back) = none_kept p q R same xs in
    elim (Bool-cases (q x && p x)) [
      | inl hit ↦ ((λ h. ground (arith, h, hit)), λ h. absurd (h.0 ((same x).0 hit)))
      | inr miss ↦ (
        (λ h. ((λ r. ground (arith, miss, (same x).1 r)), there (ground (arith, h, miss)))),
        λ h. ground (arith, miss, back h.1),
      )
    ]

-- The check passes, and changes nothing, exactly when no package but the excluded one, unless it is
-- CANCELLED, has each service as often as the list of ids names it; an empty list always passes.
pub assert_no_duplicate_package_service_set_lem :
    (ids : List ℕ) (exclude : Option ℕ) (db : Db)
    → (assert_no_duplicate_package_service_set ids exclude db ≡ (db, ok tt))
      ↔ All (λ p. ¬ IsRepeated db ids exclude p) db.packages
unfolding assert_no_duplicate_package_service_set run_handler
assert_no_duplicate_package_service_set_lem ids exclude db =
    let (there, back) =
      none_kept (has_same_services db ids) (is_candidate db ids exclude) (IsRepeated db ids exclude)
        (IsRepeated-iff db ids exclude) db.packages in
    let (passed, passes) =
      raise_if_lem (any (has_same_services db ids) (keep (is_candidate db ids exclude) db.packages))
        (HttpError.bad_request "A package with the exact same set of services already exists") db in
    ((λ e. there (passed e)), λ n. passes (back n))
