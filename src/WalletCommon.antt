-- ===== src/WalletCommon.antt =====
-- What the wallet and its servers share (wallet_core/wallet_common).
pub mod Signed
