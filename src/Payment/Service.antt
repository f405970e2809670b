-- ===== src/Payment/Service.antt =====
-- services/payment-service/internal/application/services/payment_service.go: the use cases over the
-- store and the payment provider.
pub mod Env
pub mod Create
pub mod Operations
pub mod Refunds
pub mod Validity
pub mod Side
pub mod Keeps
pub mod RefundKeeps
pub mod RefundEffect
pub mod RefundSettles
mod Examples
pub mod CaptureLimit
