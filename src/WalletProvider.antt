-- ===== src/WalletProvider.antt =====
-- The wallet provider: the server that holds half of a wallet's credentials
-- (wallet_core/wallet_provider).
pub mod PinPolicy
pub mod Users
pub mod AccountServer
