-- ===== src/Success/Quotes.antt =====
-- Who may quote a booking, and what the quote makes of it.
use eventy_backend.Base.{String, ℕ, ◌+◌, ◌*◌, ◌≡◌, Option, some, nat_eq, ◌==◌, List, [], ◌∷◌, All}
use eventy_backend.Model.{
  update_where, has_id, BookingItem, hours_ms, BookingStatus, booking_status_eq, Db, find_first,
}
use eventy_backend.ProviderBookings.{SendQuote, QuoteItem, quoted, items_of}
use eventy_backend.Success.Owners.{MayAct}

-- Each line of the quote is for an item of the booking, and its price counts as often as the quantity says.
abbrev pub IsTotal : List BookingItem → List QuoteItem → ℕ → Type 0
IsTotal items [] n = n ≡ 0
IsTotal items (q ∷ qs) n =
    (i : BookingItem) × (rest : ℕ) × (find_first (λ x. x.id == q.booking_item_id) items ≡ some i)
    × (n ≡ q.final_unit_price * i.quantity + rest)
    × IsTotal items qs rest

-- A booking without items takes the amount that the provider gives.
abbrev pub IsQuote : List BookingItem → SendQuote → ℕ → Type 0
IsQuote [] dto n = dto.final_amount ≡ some n
IsQuote (i ∷ is) dto n = IsTotal (i ∷ is) dto.items n

-- The rows with this id wait for the customer's decision on this amount, until the deadline.
abbrev pub AllQuoted : ℕ → ℕ → ℕ → Db → Type 0
AllQuoted now k amount db =
    All
      (λ b.
        b.id ≡ k
        → (b.status ≡ BookingStatus.quote_sent)
          × (b.final_amount ≡ some amount)
          × (b.cancellation_deadline ≡ some (now + hours_ms 24)))
      db.bookings

abbrev write_quoted : ℕ → ℕ → ℕ → Option String → Db → Db
write_quoted now k amount notes db = record db {
  bookings = update_where (has_id k) (quoted amount (now + hours_ms 24) notes) db.bookings;
}

-- The booking was the provider's and PENDING; the answer is the amount, and it is what the rows hold.
abbrev Quoted : ℕ → Db → ℕ → ℕ → SendQuote → ℕ → Db → Type 0
Quoted now db u k dto amount after =
    MayAct db u k BookingStatus.pending
    × IsQuote (items_of db k) dto amount
    × AllQuoted now k amount after
