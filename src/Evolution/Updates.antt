-- ===== src/Evolution/Updates.antt =====
-- What `find_first` and `update_where` do to a table.
use eventy_backend.Base.{
  ℕ, Bool, true, false, ◌≡◌, ◌≢◌, refl, sym, ap, ◌∙◌, List, [], ◌∷◌, ◌++◌, some, none, All, ◌==◌,
  nat_eq, nat_beq_iff, inl, inr, Bool-cases, arith, keep, any, includes, map,
}
use mathlib.Core.Path.{subst}
use mathlib.Core.Option.{some-injective}
use eventy_backend.Model.{find_first, update_where}
use eventy_backend.Evolution.{Evolves, Distinct}

module _ {A : Type 0} (p : A → Bool) where
  pub find_first_sound : (xs : List A) (r : A) → find_first p xs ≡ some r → p r ≡ true
  unfolding find_first
  find_first_sound [] r e = cc
  find_first_sound (x ∷ xs) r e = ground (arith, find_first_sound xs r)

  pub All-found : (P : A → Type 0) (xs : List A) (r : A) → All P xs → find_first p xs ≡ some r → P r
  unfolding find_first
  All-found P [] r h e = cc
  All-found P (x ∷ xs) r h e = elim (Bool-cases (p x)) [
    | inl hit ↦ let same : some x ≡ some r = rw hit at e in subst P (some-injective _ _ same) h.0
    | inr miss ↦ All-found P xs r h.1 (rw miss at e)
  ]

  pub Evolves-update_All :
      (R : A → A → Type 0) (f : A → A)
      → ((x : A) → R x x)
      → (xs : List A) → All (λ x. p x ≡ true → R x (f x)) xs
      → Evolves R xs (update_where p f xs)
  unfolding update_where
  Evolves-update_All R f r [] h = tt
  Evolves-update_All R f r (x ∷ xs) h = elim (Bool-cases (p x)) [
    | inl hit ↦ rw hit (h.0 hit, Evolves-update_All R f r xs h.1)
    | inr miss ↦ rw miss (r x, Evolves-update_All R f r xs h.1)
  ]

  All-key-update_where :
      (key : A → ℕ) (f : A → A) (k : ℕ)
      → ((x : A) → key (f x) ≡ key x)
      → (xs : List A) → All (λ y. key y ≢ k) xs
      → All (λ y. key y ≢ k) (update_where p f xs)
  unfolding update_where
  All-key-update_where key f k same [] h = tt
  All-key-update_where key f k same (x ∷ xs) h = elim (Bool-cases (p x)) [
    | inl hit ↦ rw hit (rw (same x) h.0, All-key-update_where key f k same xs h.1)
    | inr miss ↦ rw miss (h.0, All-key-update_where key f k same xs h.1)
  ]

  -- An update that leaves the keys alone leaves them distinct.
  pub Distinct-update_where :
      (key : A → ℕ) (f : A → A)
      → ((x : A) → key (f x) ≡ key x)
      → (xs : List A) → Distinct key xs
      → Distinct key (update_where p f xs)
  unfolding update_where
  Distinct-update_where key f same [] h = tt
  Distinct-update_where key f same (x ∷ xs) h =
      let rest = All-key-update_where key f (key x) same xs h.0 in
      let more = Distinct-update_where key f same xs h.1 in
      elim (Bool-cases (p x)) [
        | inl hit ↦ rw (hit, same x) (rest, more)
        | inr miss ↦ rw miss (rest, more)
      ]

pub All-map :
    {A : Type 0} (P Q : A → Type 0) → ((x : A) → P x → Q x) → (xs : List A) → All P xs → All Q xs
All-map P Q f [] h = tt
All-map P Q f (x ∷ xs) h = (f x h.0, All-map P Q f xs h.1)

pub All-update_where :
    {A : Type 0} (P : A → Type 0) (p : A → Bool) (f : A → A) (xs : List A)
    → All P xs
    → All (λ x. p x ≡ true → P (f x)) xs
    → All P (update_where p f xs)
unfolding update_where
All-update_where P p f [] h k = tt
All-update_where P p f (x ∷ xs) h k = elim (Bool-cases (p x)) [
  | inl hit ↦ rw hit (k.0 hit, All-update_where P p f xs h.1 k.1)
  | inr miss ↦ rw miss (h.0, All-update_where P p f xs h.1 k.1)
]

pub All-append :
    {A : Type 0} (P : A → Type 0) (xs : List A) (y : A) → All P xs → P y → All P (xs ++ y ∷ [])
All-append P [] y h k = (k, tt)
All-append P (x ∷ xs) y h k = (h.0, All-append P xs y h.1 k)

pub Distinct-append :
    {A : Type 0} (key : A → ℕ) (xs : List A) (y : A)
    → Distinct key xs
    → All (λ x. key x ≢ key y) xs
    → Distinct key (xs ++ y ∷ [])
Distinct-append key [] y d h = (tt, tt)
Distinct-append key (x ∷ xs) y d h =
    (All-append (λ z. key z ≢ key x) xs y d.0 (λ e. h.0 (sym e)), Distinct-append key xs y d.1 h.1)

pub none-found :
    {A : Type 0} (p : A → Bool) (xs : List A) → find_first p xs ≡ none → All (λ x. p x ≡ false) xs
unfolding find_first
none-found p [] e = tt
none-found p (x ∷ xs) e = elim (Bool-cases (p x)) [
  | inl hit ↦ let never : some x ≡ none = rw hit at e in cc
  | inr miss ↦ (miss, none-found p xs (rw miss at e))
]

module _ {A : Type 0} (key : A → ℕ) (p : A → Bool) where
  -- The key of the row that was found belongs to no other row.
  pub found_unique :
      (xs : List A) (r : A)
      → Distinct key xs
      → find_first p xs ≡ some r
      → All (λ x. key x ≡ key r → x ≡ r) xs
  unfolding find_first
  found_unique [] r d e = tt
  found_unique (x ∷ xs) r d e = elim (Bool-cases (p x)) [
    | inl hit ↦
        let same : some x ≡ some r = rw hit at e in
        let here : x ≡ r = some-injective _ _ same in
        (
          (λ _. here),
          All-map (λ y. key y ≢ key x) (λ y. key y ≡ key r → y ≡ r)
              (λ y ne k. absurd (ne (k ∙ ap key (sym here)))) xs d.0,
        )
    | inr miss ↦
        let later : find_first p xs ≡ some r = rw miss at e in
        (
          (λ k. absurd (All-found p (λ y. key y ≢ key x) xs r d.0 later (sym k))),
          found_unique xs r d.1 later,
        )
  ]

  -- What holds of the row that was found holds of every row with its id.
  pub found_only :
      (Q : A → Type 0) (k : ℕ)
      → ((x : A) → p x ≡ true → key x ≡ k)
      → (xs : List A) (r : A) → Distinct key xs
      → find_first p xs ≡ some r
      → Q r
      → All (λ x. (key x == k) ≡ true → Q x) xs
  found_only Q k by_key xs r d e h =
      let only : (x : A) → (key x ≡ key r → x ≡ r) → (key x == k) ≡ true → Q x = λ x one hit.
        let same =
          one ((nat_beq_iff (key x) k).0 hit ∙ sym (by_key r (find_first_sound p xs r e))) in
        subst Q (sym same) h in
      All-map (λ x. key x ≡ key r → x ≡ r) (λ x. (key x == k) ≡ true → Q x) only xs
        (found_unique xs r d e)

  -- The same, by the id of the row itself.
  pub found_own :
      (Q : A → Type 0) (xs : List A) (r : A)
      → Distinct key xs
      → find_first p xs ≡ some r
      → Q r
      → All (λ x. (key x == key r) ≡ true → Q x) xs
  found_own Q xs r d e h =
      All-map (λ x. key x ≡ key r → x ≡ r) (λ x. (key x == key r) ≡ true → Q x)
        (λ x one hit. subst Q (sym (one ((nat_beq_iff (key x) (key r)).0 hit))) h) xs
        (found_unique xs r d e)

module _ {A : Type 0} (key : A → ℕ) (q : A → Bool) where
  kept_absent :
      (xs : List A) (k : ℕ) → All (λ y. key y ≢ k) xs → includes (map key (keep q xs)) k ≡ false
  kept_absent [] k h = refl
  kept_absent (x ∷ xs) k h = elim (Bool-cases (q x)) [
    | inl hit ↦ rw hit (ground (arith, kept_absent xs k h.1))
    | inr miss ↦ rw miss (kept_absent xs k h.1)
  ]

  kept_head :
      (x : A) (xs : List A)
      → All (λ y. key y ≢ key x) xs
      → includes (map key (keep q (x ∷ xs))) (key x) ≡ true
      → q x ≡ true
  kept_head x xs d h = elim (Bool-cases (q x)) [
    | inl hit ↦ hit
    | inr miss ↦
        let gone : includes (map key (keep q xs)) (key x) ≡ true = rw miss at h in
        cc (gone, kept_absent xs (key x) d)
  ]

  kept_tail :
      (x y : A) (xs : List A)
      → key y ≢ key x
      → includes (map key (keep q (x ∷ xs))) (key y) ≡ true
      → includes (map key (keep q xs)) (key y) ≡ true
  kept_tail x y xs ne h = elim (Bool-cases (q x)) [
    | inl hit ↦
        let there : includes (key x ∷ map key (keep q xs)) (key y) ≡ true = rw hit at h in
        ground arith
    | inr miss ↦ rw miss at h
  ]

  -- A row whose id is among the ids of the rows that pass a test passes it itself.
  pub kept_by_key :
      (xs : List A)
      → Distinct key xs
      → All (λ x. includes (map key (keep q xs)) (key x) ≡ true → q x ≡ true) xs
  kept_by_key [] d = tt
  kept_by_key (x ∷ xs) d = (kept_head x xs d.0, more xs d.0 (kept_by_key xs d.1))
    where
      more :
          (ys : List A)
          → All (λ y. key y ≢ key x) ys
          → All (λ y. includes (map key (keep q xs)) (key y) ≡ true → q y ≡ true) ys
          → All (λ y. includes (map key (keep q (x ∷ xs))) (key y) ≡ true → q y ≡ true) ys
      more [] ne h = tt
      more (y ∷ ys) ne h = ((λ e. h.0 (kept_tail x y xs ne.0 e)), more ys ne.1 h.1)

pub any-false :
    {A : Type 0} (p : A → Bool) (xs : List A) → any p xs ≡ false → All (λ x. p x ≡ false) xs
any-false p [] h = tt
any-false p (x ∷ xs) h = elim (Bool-cases (p x)) [
  | inl hit ↦ let never : true ≡ false = rw hit at h in cc
  | inr miss ↦ (miss, any-false p xs (rw miss at h))
]

pub All-both :
    {A : Type 0} (P Q : A → Type 0) (xs : List A) → All P xs → All Q xs → All (λ x. P x × Q x) xs
All-both P Q [] h k = tt
All-both P Q (x ∷ xs) h k = ((h.0, k.0), All-both P Q xs h.1 k.1)
