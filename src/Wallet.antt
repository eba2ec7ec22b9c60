-- ===== src/Wallet.antt =====
-- The wallet app: wallet_core/wallet/src.
pub mod PinValidation
