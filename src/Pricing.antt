-- ===== src/Pricing.antt =====
-- `computePriceWithDiscount` of src/modules/discounts/discounts.service.ts. Prices are in millionths of a
-- cent and percentages in millionths of a percent, and `Math.round(x * 100) / 100` rounds to whole cents.
pub mod Bounds
use eventy_backend.Base.{ℕ, ◌+◌, ◌-◌, ◌*◌, ◌/◌, Option, none, some}
use eventy_backend.Model.{Discount}

pub record Price : Type 0 where
  pub original_price : ℕ
  pub discount_amount : ℕ
  pub final_price : ℕ
  -- the discount that is shown beside the price, if any
  pub discount : Option ℕ

abbrev pub cent : ℕ
cent = 1000000

-- A hundred percent.
abbrev pub whole : ℕ
whole = 100 * 1000000

-- `Math.round`, which rounds a half up, of a price in cents.
unfoldable pub to_cents : ℕ → ℕ
to_cents price = (2 * price + cent) / (2 * cent) * cent

unfoldable pub discount_amount_of : ℕ → ℕ → ℕ
discount_amount_of original_price percent_off =
    (2 * (original_price * percent_off) + whole * cent) / (2 * whole * cent) * cent

-- With at most a hundred percent off, the difference is less than half a cent below 0 at worst, which is
-- rounded to 0 as the 0 of the subtraction is.
unfoldable pub compute_price_with_discount : ℕ → Option Discount → Price
compute_price_with_discount original_price none = record {
  original_price = original_price;
  discount_amount = 0;
  final_price = to_cents original_price;
  discount = none;
}
compute_price_with_discount original_price (some d) =
    let amount = discount_amount_of original_price d.percent_off in
    record {
      original_price = original_price;
      discount_amount = amount;
      final_price = to_cents (original_price - amount);
      discount = some d.id;
    }
