-- ===== src/Pricing/Bounds.antt =====
-- The discount and the discounted price are whole cents, and each is rounded by half a cent at most.
use eventy_backend.Base.{ℕ, ◌+◌, ◌-◌, ◌*◌, ◌/◌, ◌≤◌, ◌<◌, ◌≡◌, refl, arith}
use eventy_backend.Pricing.{cent, whole, to_cents, discount_amount_of}

-- A whole number of cents, not more than half a cent above the price and less than half a cent below.
abbrev pub IsNearest : ℕ → ℕ → Type 0
IsNearest price x =
    (n : ℕ) × (x ≡ n * cent)
    × (2 * (n * cent) ≤ 2 * price + cent)
    × (2 * price < 2 * (n * cent) + cent)

pub to_cents-IsNearest : (price : ℕ) → IsNearest price (to_cents price)
unfolding to_cents
to_cents-IsNearest price = ((2 * price + cent) / (2 * cent), refl, omega arith, omega arith)

-- What is left of a price after whole cents is rounded as the price is.
add_up :
    (price k : ℕ)
    → 2 * (k * cent) ≤ 2 * price + cent
    → to_cents (price - k * cent) + k * cent ≡ to_cents price
unfolding to_cents
add_up price k h = omega arith

discount_amount_near :
    (price percent : ℕ)
    → (2 * whole * discount_amount_of price percent ≤ 2 * (price * percent) + whole * cent)
      × (2 * (price * percent) ≤ 2 * whole * discount_amount_of price percent + whole * cent)
unfolding discount_amount_of
discount_amount_near price percent = (omega arith, omega arith)

percent_le : (price percent : ℕ) → percent ≤ whole → price * percent ≤ price * whole
percent_le price percent h = grind arith

pub discount_amount_le :
    (price percent : ℕ) → percent ≤ whole → 2 * discount_amount_of price percent ≤ 2 * price + cent
discount_amount_le price percent h =
    let near = (discount_amount_near price percent).0 in
    let le = percent_le price percent h in omega (arith, near, le)

pub discounted_sum :
    (price percent : ℕ)
    → percent ≤ whole
    → to_cents (price - discount_amount_of price percent) + discount_amount_of price percent
      ≡ to_cents price
unfolding discount_amount_of
discounted_sum price percent h =
    add_up price ((2 * (price * percent) + whole * cent) / (2 * whole * cent))
      (discount_amount_le price percent h)
