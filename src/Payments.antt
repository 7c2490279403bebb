-- ===== src/Payments.antt =====
-- backend/apps/payments: credit packages, orders, the ECPay callback and the balances.
pub mod Models
pub mod TradeNo
pub mod Ecpay
pub mod ItemName
pub mod Form
pub mod Services
pub mod Listing
pub mod Endpoints
pub mod Responses
pub mod Tests
