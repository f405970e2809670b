-- ===== src/Payment.antt =====
-- services/payment-service: money, the payment aggregate, its store and the service over them.
pub mod Currency
pub mod Money
pub mod Domain
pub mod Refund
pub mod Events
pub mod Store
pub mod Service
pub mod Examples
pub mod Webhook
