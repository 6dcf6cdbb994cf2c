-- ===== src/Lib.antt =====
-- The backend of an event-booking platform: customers plan events, book services of providers, get
-- quotes, pay, and receive deliveries; providers and the company grant discounts. The services are
-- NestJS classes over one database; they call each other and emit domain events.
--
-- The parts, and the files that model them:
--   Base              shared helpers: Boolean tests, options and lists over the native numbers
--   Model             the tables as records (Rows, Status), a handler as a function from the database to
--                     the database and a result or an exception (Monad), and Prisma's queries (Table,
--                     Query); after prisma/schema.prisma
--   TimeWindow        src/common/helpers/time.helper.ts
--   Pricing           computePriceWithDiscount of src/modules/discounts/discounts.service.ts
--   Discounts         the rest of that file; Redeem holds the redemption helpers
--   Bookings          src/modules/bookings/bookings.service.ts: confirmQuote, rejectQuote,
--                     tryProgressEvent, progressBookingAndEvent; Bulk: bulkQuoteDecision
--   ProviderBookings  src/modules/bookings/provider-bookings.service.ts: sendQuote, completeBooking,
--                     rejectBooking
--   Deliveries        src/modules/delivery/delivery.service.ts
--   Payments          src/modules/payments/payments.service.ts, with the gateway of gateways/ as a record
--                     of functions with arbitrary answers
--   Packages          src/modules/packages/packages.service.ts: tryProgressPackageBooking,
--                     progressPackageToInProgress, confirmPackageCashPayment; Composition: the checks on
--                     the services of a package; Creation: createPackage
--   PackageBookings   the life of a booked package, of that file; Paying: its payment; Expiry: the jobs of
--                     src/modules/packages/packages-cron.service.ts on booked packages
--   Partners          activation and cancellation of a package and its partners' requests, of that file,
--                     and the job that ends old requests
--   BlockedSlots      src/modules/blocked-slots/blocked-slots.service.ts, and the check of
--                     packages.service.ts against the slots
--   Favorites         src/modules/favorites/favorites.service.ts
--   Events            src/modules/event/event.service.ts: cancelEvent, setArchived
--   Cleanup           src/modules/bookings/booking-cleanup.service.ts and
--                     src/modules/event/event-cleanup.service.ts
--   Reviews           src/modules/reviews/reviews.service.ts: createReview, replyToReview
--   Complaints        src/modules/complaints/complaints.service.ts: create, updateStatus, reply
--   System            the requests, the response to one and a run of many; reviews, complaints
--                     and the creation of a package are not among them
--   Evolution, Lifecycle, Change, Refusal and Success hold the vocabulary of the proofs: how a table
--   changes, the life of a booking, what a handler may do to the database, what a refused request leaves
--   and what a successful one establishes. Examples runs the code on a small database.
--
-- A function has the name of the source's method in snake case, takes the time of the call as `now`, and
-- does the method's checks and writes in the source's order. Conventions:
--   * An id is a number; the source only compares ids. `next_id` is the next fresh one.
--   * Amounts are in millionths of a cent and percentages in millionths of a percent, computed exactly
--     where the source computes with floats, and rounded to cents where it rounds. Percentages are at most
--     100, as CreateDiscountDto says. Instants are milliseconds since 1970 and the server's time zone is
--     UTC.
--   * An exception is one of Nest's, a broken unique index, a TypeError of the runtime, or an error of
--     Prisma's client for a query that it does not run, such as a lookup by a null id.
--   * A time "HH:mm" is split into numbers, and texts are trimmed, before the model sees them.
--   * `sort()` on ids is by their numbers; the checks do not depend on which order it is.
--   * `findFirst` takes the order of the table. An update by a unique id changes the rows with that id.
--   * Rows that a foreign key points to are there. An emitted event keeps its kind, the two users and
--     the entity; what is only displayed is left out.
--   * One handler runs to its end before the next starts, the four package jobs too; a throw keeps what
--     was written before it, except inside a transaction.
-- No definition takes fuel: every loop of the source runs over a list that was read before.
--
-- Not modelled: the listings, which only read; the creation of events and bookings, the change and the
-- booking of a package; the availability of services, which only the creation of a package reads, as rows
-- that it is given; the search for free services; services, users, administration,
-- authentication, notifications, reports and uploads; controllers and validation, which
-- the framework provides.
mod Base
pub mod Model
pub mod TimeWindow
pub mod Pricing
pub mod Evolution
pub mod Lifecycle
pub mod Deliveries
pub mod Bookings
pub mod Packages
pub mod PackageBookings
pub mod Partners
pub mod BlockedSlots
pub mod Favorites
pub mod Payments
pub mod Change
pub mod ProviderBookings
pub mod Events
pub mod Cleanup
pub mod Discounts
pub mod Refusal
pub mod Success
pub mod Reviews
pub mod Complaints
pub mod System
mod Examples
