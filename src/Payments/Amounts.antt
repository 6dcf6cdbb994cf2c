-- ===== src/Payments/Amounts.antt =====
-- The amount of a new payment.
