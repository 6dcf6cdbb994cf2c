-- ===== src/Packages/Composition/Names.antt =====
-- The services of a package are of different types.
use eventy_backend.Base.{
  ◌≡◌, refl, sym, ◌∙◌, ◌↔◌, true, false, not, List, [], ◌∷◌, String, string_eq, All, arith, ◌==◌,
  nat_eq, includes, Bool-cases, inl, inr,
}
use eventy_backend.Model.{day_of_week_eq, package_status_eq, Db, ok, HttpError, raise_if_lem}
use eventy_backend.Bookings.{is_empty}
use eventy_backend.Packages.Composition.{repeated_types, assert_no_duplicate_service_types}

abbrev pub NoRepeats : List String → Type 0
NoRepeats [] = Unit {0}
NoRepeats (name ∷ names) = (includes names name ≡ false) × NoRepeats names

seen_again :
    (seen : List String) (duplicates : List String) (names : List String)
    → is_empty duplicates ≡ false
    → is_empty (repeated_types seen duplicates names) ≡ false
unfolding repeated_types
seen_again seen duplicates [] h = h
seen_again seen duplicates (name ∷ names) h = elim (Bool-cases (includes seen name)) [
  | inl e ↦ rw e (seen_again (name ∷ seen) (name ∷ duplicates) names refl)
  | inr e ↦ rw e (seen_again (name ∷ seen) duplicates names h)
]

-- No name of the list was seen before, and none stands in it twice.
AreNew : List String → List String → Type 0
AreNew seen names = All (λ name. includes seen name ≡ false) names × NoRepeats names

name_sym : (a b : String) → (a == b) ≡ false → (b == a) ≡ false
name_sym a b h = elim (Bool-cases (b == a)) [
  | inl same ↦
      let clash : (a == b) ≡ true =
        (string_eq.beq_iff a b).1 (sym ((string_eq.beq_iff b a).0 same)) in
      cc
  | inr other ↦ other
]

new_split :
    (seen : List String) (name : String) (names : List String)
    → All (λ other. includes (name ∷ seen) other ≡ false) names
      ↔ (All (λ other. includes seen other ≡ false) names × (includes names name ≡ false))
new_split seen name [] = ((λ h. (tt, refl)), λ h. tt)
new_split seen name (x ∷ names) =
    let (there, back) = new_split seen name names in
    (
      (λ h.
          let (olds, absent) = there h.1 in
          let other : (x == name) ≡ false = name_sym name x (ground (arith, h.0)) in
          ((ground (arith, h.0), olds), rw (other, absent) refl)),
      λ h.
          let other : (name == x) ≡ false = name_sym x name (ground (arith, h.1)) in
          (rw (other, h.0.0) refl, back (h.0.1, ground (arith, h.1))),
    )

repeated_types_lem :
    (seen names : List String)
    → (is_empty (repeated_types seen [] names) ≡ true) ↔ AreNew seen names
unfolding repeated_types AreNew
repeated_types_lem seen [] = ((λ h. (tt, tt)), λ h. refl)
repeated_types_lem seen (name ∷ names) =
    let (there, back) = repeated_types_lem (name ∷ seen) names in
    let (split, join) = new_split seen name names in
    elim (Bool-cases (includes seen name)) [
      | inl e ↦ (
        (λ h.
            let found : is_empty (repeated_types seen [] (name ∷ names)) ≡ false =
              rw e (seen_again (name ∷ seen) (name ∷ []) names refl) in
            cc),
        λ h. ground (arith, e, h.0.0),
      )
      | inr e ↦
          let next : is_empty (repeated_types seen [] (name ∷ names))
              ≡ is_empty (repeated_types (name ∷ seen) [] names) =
            rw e refl in
          (
            (λ h.
                let (fresh, once) = there (sym next ∙ h) in
                let (olds, absent) = split fresh in ((e, olds), (absent, once))),
            λ h. next ∙ back (join (h.0.1, h.1.0), h.1.1),
          )
    ]

none_seen : (names : List String) → NoRepeats names → AreNew [] names
unfolding AreNew
none_seen names h = (olds names, h)
  where
    olds : (xs : List String) → All (λ name. includes [] name ≡ false) xs
    olds [] = tt
    olds (x ∷ xs) = (refl, olds xs)

-- The check passes, and changes nothing, exactly when no name stands twice in the list.
pub assert_no_duplicate_service_types_lem :
    (names : List String) (db : Db)
    → (assert_no_duplicate_service_types names db ≡ (db, ok tt)) ↔ NoRepeats names
unfolding assert_no_duplicate_service_types AreNew
assert_no_duplicate_service_types_lem names db =
    let (passed, passes) =
      raise_if_lem (not (is_empty (repeated_types [] [] names)))
        (HttpError.bad_request "A package cannot contain more than one service of the same type")
        db in
    let (there, back) = repeated_types_lem [] names in
    (
      (λ e. (there (ground (arith, passed e))).1),
      λ h. passes (ground (arith, back (none_seen names h))),
    )
