-- ===== src/Examples/Quotes.antt =====
-- What providers and customers do to bookings, on the small database.
use eventy_backend.Base.{◌≡◌, refl, none, [], ◌∷◌, nat_eq, string_eq}
use eventy_backend.Model.{
  BookingStatus, booking_status_eq, Db, ok, run_handler, find_first, event_of,
}
use eventy_backend.Bookings.{reject_quote, status_after_rejection, set_event_status_if}
use eventy_backend.ProviderBookings.{SendQuote}
use eventy_backend.Success.Decisions.{MayDecide, AllAre, is_cancelled, reject_quote_lem}
use eventy_backend.Examples.{sample, booking}

-- Provider 1 is at work on booking 4, and booking 5 is a new request for three pieces.
abbrev desk : Db
desk = record sample {
  bookings = booking 4 BookingStatus.in_progress ∷ booking 5 BookingStatus.pending ∷ [];
  booking_items =
      record {
        id = 50;
        booking_id = 5;
        quantity = 3;
        unit_price = 1600;
        total_price = 4800;
        final_unit_price = none;
        final_total_price = none;
      }
      ∷ [];
}

abbrev offer : SendQuote
offer = record {
  items = record { booking_item_id = 50; final_unit_price = 1500 } ∷ [];
  final_amount = none;
  provider_notes = none;
}

declined : (reject_quote 100 20 4 sample).1 ≡ ok tt
unfolding reject_quote run_handler find_first event_of status_after_rejection set_event_status_if
declined = refl

reject_quote_lem_example :
    MayDecide sample 20 4 × AllAre 4 is_cancelled (reject_quote 100 20 4 sample).0
reject_quote_lem_example = reject_quote_lem 100 20 4 sample declined
