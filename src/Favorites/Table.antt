-- ===== src/Favorites/Table.antt =====
-- Looking rows up in the table of favorites, by user, kind and target, when no two rows have one key.
use mathlib.Core.Path.{subst}
use mathlib.Core.Option.{some-injective}
use eventy_backend.Base.{
  ℕ, ◌≡◌, ◌≢◌, refl, sym, ◌∙◌, Bool, true, false, not, ◌&&◌, ◌||◌, some, List, [], ◌∷◌, ◌++◌, All,
  arith, ◌==◌, nat_eq, nat_beq_iff, is_some, any, keep, Bool-cases, inl, inr,
}
use eventy_backend.Model.{FavoriteTargetType, favorite_target_type_eq, Favorite, find_first}
use eventy_backend.Evolution.{Distinct}
use eventy_backend.Evolution.Updates.{All-map, All-append, All-found}
use eventy_backend.Evolution.Lookups.{keep-All, id_self, id_other}
use eventy_backend.Favorites.{is_favorite_row}

-- Two rows with one key.
abbrev pub same_key : Favorite → Favorite → Bool
same_key f g = is_favorite_row f.user_id f.target_type f.target_id g

abbrev pub OnePerKey : List Favorite → Type 0
OnePerKey [] = Unit {0}
OnePerKey (f ∷ fs) = All (λ g. same_key f g ≡ false) fs × OnePerKey fs

pub found_any : (p : Favorite → Bool) (fs : List Favorite) → is_some (find_first p fs) ≡ any p fs
unfolding find_first
found_any p [] = refl
found_any p (f ∷ fs) = elim (Bool-cases (p f)) [ inl h ↦ rw h refl | inr h ↦ rw h (found_any p fs) ]

pub any-append :
    (p : Favorite → Bool) (fs : List Favorite) (f : Favorite)
    → any p (fs ++ f ∷ []) ≡ (any p fs || p f)
any-append p [] f = ground arith
any-append p (g ∷ gs) f = ground (arith, any-append p gs f)

none_any : (p : Favorite → Bool) (fs : List Favorite) → All (λ f. p f ≡ false) fs → any p fs ≡ false
none_any p [] h = refl
none_any p (f ∷ fs) h = ground (arith, none_any p fs h.1)

-- A row with the key answers for it.
same_answer :
    (v : ℕ) (s : FavoriteTargetType) (j : ℕ) (e g : Favorite)
    → is_favorite_row v s j e ≡ true
    → is_favorite_row v s j g ≡ same_key e g
same_answer v s j e g h = ground arith

keep_whole :
    (k : ℕ) (fs : List Favorite) → All (λ f. f.id ≢ k) fs → keep (λ f. not (f.id == k)) fs ≡ fs
keep_whole k [] h = refl
keep_whole k (f ∷ fs) h = elim (Bool-cases (f.id == k)) [
  | inl same ↦ absurd (h.0 ((nat_beq_iff f.id k).0 same))
  | inr other ↦ rw (other, keep_whole k fs h.1) refl
]

without_head :
    (v : ℕ) (s : FavoriteTargetType) (j : ℕ) (e : Favorite) (fs : List Favorite)
    → All (λ g. same_key e g ≡ false) fs
    → any (is_favorite_row v s j) fs
      ≡ (any (is_favorite_row v s j) (e ∷ fs) && not (is_favorite_row v s j e))
without_head v s j e fs h = elim (Bool-cases (is_favorite_row v s j e)) [
  | inl hit ↦
      let none_left : any (is_favorite_row v s j) fs ≡ false =
        none_any (is_favorite_row v s j) fs
          (All-map _ _ (λ g miss. same_answer v s j e g hit ∙ miss) fs h) in
      ground arith
  | inr miss ↦ ground arith
]

-- Without the row of one key, everything else is still found.
pub any-without :
    (v : ℕ) (s : FavoriteTargetType) (j : ℕ) (e : Favorite) (fs : List Favorite)
    → Distinct (λ f. f.id) fs
    → OnePerKey fs
    → find_first (same_key e) fs ≡ some e
    → any (is_favorite_row v s j) (keep (λ f. not (f.id == e.id)) fs)
      ≡ (any (is_favorite_row v s j) fs && not (is_favorite_row v s j e))
unfolding find_first
any-without v s j e [] d o found = cc
any-without v s j e (f ∷ fs) d o found = elim (Bool-cases (same_key e f)) [
  | inl hit ↦
      let here : f ≡ e = some-injective f e (rw hit at found) in
      subst
        (λ x.
          any (is_favorite_row v s j) (keep (λ g. not (g.id == x.id)) (f ∷ fs))
          ≡ (any (is_favorite_row v s j) (f ∷ fs) && not (is_favorite_row v s j x)))
        here (rw (id_self f.id, keep_whole f.id fs d.0) (without_head v s j f fs o.0))
  | inr miss ↦
      let there : find_first (same_key e) fs ≡ some e = rw miss at found in
      let other : e.id ≢ f.id = All-found (same_key e) (λ x. x.id ≢ f.id) fs e d.0 there in
      let rest = any-without v s j e fs d.1 o.1 there in
      rw (id_other f.id e.id (λ c. other (sym c))) (elim (Bool-cases (is_favorite_row v s j e)) [
        | inl h ↦
            let no : is_favorite_row v s j f ≡ false = same_answer v s j e f h ∙ miss in
            ground arith
        | inr h ↦ ground arith
      ])
]

pub OnePerKey-append :
    (fs : List Favorite) (f : Favorite)
    → OnePerKey fs
    → All (λ g. same_key g f ≡ false) fs
    → OnePerKey (fs ++ f ∷ [])
OnePerKey-append [] f o h = (tt, tt)
OnePerKey-append (g ∷ gs) f o h =
    (All-append (λ x. same_key g x ≡ false) gs f o.0 h.0, OnePerKey-append gs f o.1 h.1)

pub OnePerKey-keep :
    (q : Favorite → Bool) (fs : List Favorite) → OnePerKey fs → OnePerKey (keep q fs)
OnePerKey-keep q [] o = tt
OnePerKey-keep q (f ∷ fs) o = elim (Bool-cases (q f)) [
  | inl h ↦ rw h (keep-All q (λ g. same_key f g ≡ false) fs o.0, OnePerKey-keep q fs o.1)
  | inr h ↦ rw h (OnePerKey-keep q fs o.1)
]

pub key_sym : (f g : Favorite) → same_key g f ≡ false → same_key f g ≡ false
key_sym f g h = ground arith
