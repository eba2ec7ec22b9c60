-- ===== src/Lib.antt =====
-- A model of the NL Wallet's servers and of parts of its app, the Rust crates under wallet_core/, with its
-- theorems.
--
-- A wallet is an app on a phone. The wallet provider keeps an account for it: the wallet registers once
-- with its hardware key and its PIN key, and then sends instructions, each signed with both keys over a
-- challenge that it asked for before. A wrong PIN shows as a signature that does not verify. The PIN
-- policy decides how many attempts there are, and the database keeps the users and their keys.
-- With its keys a wallet then gets attestations from the issuer, in a session that a store keeps, and
-- discloses attributes of them to a verifier, which keeps its sessions in such a store too, verifies what it
-- receives, and passes the attributes on to a relying party.
--
-- The files:
--   Base: Boolean tests, lists on native numbers, byte strings, and results that may also be a panic.
--   WalletCommon/Signed: wallet_core/wallet_common/src/account/signed.rs, the messages signed at two
--     levels. `Signed/Verified` has the theorems on what is verified.
--   WalletProvider/PinPolicy: wallet_core/wallet_provider/service/src/pin_policy.rs. `Round` has the
--     arithmetic of rounds, `Evaluation` the description of all evaluations, `Blocking` when an account
--     is blocked, `SingleAttempt` policies with one attempt in a round.
--   WalletProvider/Users: the rows, queries and updates of wallet_core/wallet_provider/persistence/src,
--     and the records of wallet_core/wallet_provider/domain/src/model. `Lookup` relates queries and updates.
--   WalletProvider/AccountServer: wallet_core/wallet_provider/service/src/account_server.rs and
--     instructions.rs. `Certificate` is the check of a wallet's certificate, `Challenge`, `Instruct` and
--     `Register` are the three requests, `Ends` the ends that an instruction can come to, `Outcome` (with
--     `Refusals`) that it comes to one of them, `Retries` and `Replay` what is kept from one instruction to
--     the next, and `Retries/Runs` whole runs of requests.
--   SessionStore: wallet_core/mdoc/src/server_state.rs, the sessions of the issuer and the verifier.
--     `Memory` is the store in memory with, in `Cleanup`, its view as a map from tokens to sessions;
--     `Postgres` is wallet_core/wallet_server/src/store/postgres.rs, and `Rows` what its rows hold.
--   Openid4vc/Dpop: wallet_core/openid4vc/src/dpop.rs, the proof of possession in each request.
--   Openid4vc/Issuer: wallet_core/openid4vc/src/issuer.rs, on any store of sessions (`Store`, with the laws
--     `IsStore`, in SessionStore/Interface, which the store in memory has). `Credentials` is what is
--     issued, `Requests` the endpoints; `Sessions`, `Issued` and `TokenRequests` have their theorems.
--   Mdoc: the data of mobile documents, wallet_core/mdoc/src/iso. `Verification` and `Matching` are the
--     verification of a disclosure and its comparison with a request, of wallet_core/mdoc/src/verifier.rs
--     and identifiers.rs, `Keys` the device key of utils/crypto.rs; `Disclosed`, `Complete` (with `Found`), `Repeated`
--     and `Returns` have their theorems.
--   Openid4vc/PresentationExchange: wallet_core/openid4vc/src/presentation_exchange.rs, `RoundTrip` what is
--     read of a definition.
--   Openid4vc/Openid4vp: wallet_core/openid4vc/src/openid4vp.rs. `Requests` are the authorization requests,
--     with verify_against_trust_anchors of jwt.rs, `Responses` the wallets' answers, which call Mdoc;
--     `Verified`, `Returns`, `RoundTrips` and `Validated` have their theorems.
--   Openid4vc/Verifier: wallet_core/openid4vc/src/verifier.rs, on any store of sessions. `Steps` leads to an
--     authorization request, `Endpoints` are the requests of wallets and relying parties; `Answered`,
--     `Released`, `Started` and `Requested` have their theorems.
--   Wallet/PinValidation: wallet_core/wallet/src/pin/validation.rs, the PINs that the app accepts.
--   Scenarios: concrete runs, of the wallet provider in `Server`, of the stores in `Stores`, of the
--     issuer in `Issuance`, of a disclosure in `Presentation`, of the verifier in `Verifying`, and of
--     PINs in `Pins`.
--
-- A function keeps its name. A handler takes the committed database and returns its result with the
-- database afterwards: a transaction that the code leaves before `commit` leaves the database as it was.
-- `Exec E A` is the result of Rust code: a value, an error of `E`, or a panic.
--
-- JSON web tokens, serde_json, p256, the HSM and the database's failures are fields of the records
-- `Codec`, `Environment`, `Json`, `Jwt`, `Issuer`, `Crypto`, `RequestLib`, `ResponseLib` and `Verifier`,
-- and what a theorem needs of them is a hypothesis (`IsCodec`, `IsCoherent`, `IsJson`, `IsResponseLib`).
-- Each call of the database may fail, by `db_ok`. The time and random bytes come with a request.
--
-- There are no loops but those over lists, so no fuel is needed. A `u8` is reduced modulo 256 where the
-- code adds or multiplies. Sequence numbers are `u64` in messages; their column is an `i32`, which is not
-- modelled. A handler's transactions are taken to run one after the other. Lines that log are left out.
-- A time is a number of milliseconds. The end of a pause of the PIN policy panics beyond the range of chrono;
-- the other sums, of the present time and a setting, are taken to be in it. A time in a table of PostgreSQL
-- is kept as `to_column` of `Json` says.
--
-- Not modelled: the rest of the app and its user interface, the holder's side of mdocs and the sessions by
-- which a wallet and a verifier speak ISO 18013-5 directly, the servers' HTTP routes and settings, the
-- converter for BRP data, the HSM client, and the platform's key stores.
pub mod Base
pub mod Mdoc
pub mod Openid4vc
pub mod SessionStore
pub mod Wallet
pub mod WalletCommon
pub mod WalletProvider
pub mod Scenarios
