-- ===== src/Favorites.antt =====
-- src/modules/favorites/favorites.service.ts: a user's bookmarks.
pub mod Lawful
mod Table
pub mod Shelf
use eventy_backend.Base.{
  ℕ, suc, Bool, false, not, ◌&&◌, Option, none, some, List, [], ◌∷◌, ◌++◌, ◌==◌, nat_eq, is_some,
  keep,
}
use eventy_backend.Model.{
  FavoriteTargetType, favorite_target_type_eq, PackageStatus, package_status_eq, Db, Service,
  Provider, Package, Favorite, Action, HttpError, ◌>>=◌, ◌>>◌, pure, gets, or_raise, raise_if,
  raise_unless, modify, find_first, service_by_id,
}
use eventy_backend.Packages.{package_by_id}

may_favor_service : Option Service → Bool
may_favor_service none = false
may_favor_service (some s) = s.is_active && not s.is_packaged

may_favor_provider : Option Provider → Bool
may_favor_provider none = false
may_favor_provider (some p) = p.is_approved

may_favor_package : Option Package → Bool
may_favor_package none = false
may_favor_package (some p) = p.status == PackageStatus.active

unfoldable pub is_valid_target : Db → FavoriteTargetType → ℕ → Bool
unfolding may_favor_service may_favor_provider may_favor_package
is_valid_target db FavoriteTargetType.service k = may_favor_service (service_by_id db k)
is_valid_target db FavoriteTargetType.provider k =
    may_favor_provider (find_first (λ p. p.id == k) db.providers)
is_valid_target db FavoriteTargetType.package_target k = may_favor_package (package_by_id db k)

-- The unique key of the table.
abbrev pub is_favorite_row : ℕ → FavoriteTargetType → ℕ → Favorite → Bool
is_favorite_row user_id t k f = f.user_id == user_id && (f.target_type == t && f.target_id == k)

abbrev pub favorite_of : Db → ℕ → FavoriteTargetType → ℕ → Option Favorite
favorite_of db user_id t k = find_first (is_favorite_row user_id t k) db.favorites

abbrev pub new_favorite : ℕ → ℕ → FavoriteTargetType → ℕ → Favorite
new_favorite id user_id t k = record { id = id; user_id = user_id; target_type = t; target_id = k }

unfoldable pub create_favorite : ℕ → FavoriteTargetType → ℕ → Action Favorite
create_favorite user_id t k = do
  db ← gets (λ d. d)
  raise_unless (is_valid_target db t k) (HttpError.bad_request "Target not found or not active")
  raise_if (is_some (favorite_of db user_id t k)) (HttpError.conflict "Already favorited")
  modify (λ d. record d {
    favorites = d.favorites ++ new_favorite d.next_id user_id t k ∷ [];
    next_id = suc d.next_id;
  })
  pure (new_favorite db.next_id user_id t k)

unfoldable pub remove_favorite : ℕ → FavoriteTargetType → ℕ → Action (Unit {0})
remove_favorite user_id t k = do
  db ← gets (λ d. d)
  existing ← or_raise (favorite_of db user_id t k) (HttpError.not_found "Favorite not found")
  modify (λ d. record d { favorites = keep (λ f. not (f.id == existing.id)) d.favorites })

unfoldable pub favorite_status : ℕ → FavoriteTargetType → ℕ → Action Bool
favorite_status user_id t k = gets (λ d. is_some (favorite_of d user_id t k))
