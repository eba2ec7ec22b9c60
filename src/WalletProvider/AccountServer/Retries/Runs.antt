-- ===== src/WalletProvider/AccountServer/Retries/Runs.antt =====
-- Runs of the account server: requests of any wallets, one after the other, from an empty database.
use nl_wallet.Base.{
  ℕ, suc, ◌≡◌, refl, sym, subst, Bool-cases, inl, inr, str_eq, List, [], ◌∷◌, arith,
}
use nl_wallet.WalletCommon.Signed.Verified.{IsCoherent}
use nl_wallet.WalletProvider.PinPolicy.{PinPolicy, evaluate}
use nl_wallet.WalletProvider.PinPolicy.Evaluation.{IsValid}
use nl_wallet.WalletProvider.Users.{
  Db, UserRow, WalletUserCreate, new_row, find_row, with_challenge, with_sequence_number,
  update_rows,
}
use nl_wallet.WalletProvider.AccountServer.{Environment, Instruction}
use nl_wallet.WalletProvider.AccountServer.Challenge.{
  ChallengeRequest, new_challenge, instruction_challenge, instruction_challenge-IsChallenged,
}
use nl_wallet.WalletProvider.AccountServer.Instruct.{Generated, handle_instruction}
use nl_wallet.WalletProvider.AccountServer.Register.{RegistrationRequest, register}
use nl_wallet.WalletProvider.AccountServer.Register.Registered.{creation, register-IsRegistered}
use nl_wallet.WalletProvider.AccountServer.Retries.{
  IsRetryState, AreRetryStates, update-AreRetryStates, without_failed_pins-IsRetryState,
  handle_instruction-AreRetryStates,
}

pub data ServerRequest : Type 0 where
  registers : RegistrationRequest → ServerRequest
  challenges : ChallengeRequest → ServerRequest
  instructs : Generated → Instruction → ServerRequest

abbrev pub serve : PinPolicy → Environment → ServerRequest → Db → Db
serve p env (registers q) db = (register env q db).1
serve p env (challenges q) db = (instruction_challenge env q db).1
serve p env (instructs g i) db = (handle_instruction env (evaluate p) g i db).1

-- The `n`-th request meets the libraries and the database as they then are, `env n`.
abbrev pub run : PinPolicy → (ℕ → Environment) → ℕ → List ServerRequest → Db → Db
run p env n [] db = db
run p env n (q ∷ qs) db = run p env (suc n) qs (serve p (env n) q db)

abbrev pub empty_db : Db
empty_db = record { users = []; keys = [] }

module _ (p : PinPolicy) (valid : IsValid p) where
  added :
      (c : WalletUserCreate) (us : List UserRow)
      → AreRetryStates p us
      → AreRetryStates p (new_row c ∷ us)
  unfolding find_row
  added c us all i u e = elim (Bool-cases (str_eq c.wallet_id i)) [
    | inl hit ↦
        let same : new_row c ≡ u = ground arith in
        subst (IsRetryState p) same (without_failed_pins-IsRetryState p (new_row c) valid)
    | inr other ↦ all i u (ground arith)
  ]

  registered :
      (env : Environment) (q : RegistrationRequest) (db : Db)
      → IsCoherent env.registration_codec
      → AreRetryStates p db.users
      → AreRetryStates p (register env q db).1.users
  registered env q db coherent all = elim (register-IsRegistered env q db coherent) [
    | inl (_, same) ↦ subst (λ d. AreRetryStates p d.users) (sym same) all
    | inr r ↦
        subst (AreRetryStates p) (sym r.created)
          (added (creation q r.wallet_id r.keys r.encrypted) db.users all)
  ]

  same_counters :
      (u v : UserRow)
      → v.is_blocked ≡ u.is_blocked
      → v.pin_entries ≡ u.pin_entries
      → v.last_unsuccessful_pin ≡ u.last_unsuccessful_pin
      → IsRetryState p u
      → IsRetryState p v
  same_counters u v a b c h = record {
    open_below = λ o. rw b (h.open_below (rw (← a) o));
    none_failed = λ o. rw c (h.none_failed (rw (← b) o));
    some_failed = λ o. rw c (h.some_failed (rw (← b) o));
  }

  challenged :
      (env : Environment) (q : ChallengeRequest) (db : Db)
      → AreRetryStates p db.users
      → AreRetryStates p (instruction_challenge env q db).1.users
  challenged env q db all = elim (instruction_challenge-IsChallenged env q db) [
    | inl (_, same) ↦ subst (λ d. AreRetryStates p d.users) (sym same) all
    | inr c ↦
        let w = c.user.wallet_id in
        let numbered =
          update-AreRetryStates p w (with_sequence_number c.number) db.users (λ u. refl)
            (λ u hit.
              same_counters u (with_sequence_number c.number u) refl refl refl (all w u hit))
            all in
        subst (AreRetryStates p) (sym c.updated) (
          update-AreRetryStates p w (with_challenge (new_challenge q))
            (update_rows w (with_sequence_number c.number) db.users) (λ u. refl)
            (λ u hit.
              same_counters u (with_challenge (new_challenge q) u) refl refl refl
                (numbered w u hit))
            numbered)
  ]

  kept :
      (env : ℕ → Environment) (n : ℕ) (qs : List ServerRequest) (db : Db)
      → ((m : ℕ) → IsCoherent (env m).registration_codec)
      → AreRetryStates p db.users
      → AreRetryStates p (run p env n qs db).users
  kept env n [] db coherent all = all
  kept env n (registers q ∷ qs) db coherent all =
      kept env (suc n) qs (register (env n) q db).1 coherent
        (registered (env n) q db (coherent n) all)
  kept env n (challenges q ∷ qs) db coherent all =
      kept env (suc n) qs (instruction_challenge (env n) q db).1 coherent
        (challenged (env n) q db all)
  kept env n (instructs g i ∷ qs) db coherent all =
      kept env (suc n) qs (handle_instruction (env n) (evaluate p) g i db).1 coherent
        (handle_instruction-AreRetryStates p (env n) g i db valid all)

-- With a valid policy and coherent readers of registration messages, every run of registrations, challenges
-- and instructions from an empty database, whatever the database and the libraries answer in it, leaves
-- only users that are blocked or have attempts left, and whose time of a last failure is there exactly if
-- a failure is counted.
pub run-AreRetryStates :
    (p : PinPolicy) (env : ℕ → Environment) (qs : List ServerRequest)
    → IsValid p
    → ((m : ℕ) → IsCoherent (env m).registration_codec)
    → AreRetryStates p (run p env 0 qs empty_db).users
unfolding find_row
run-AreRetryStates p env qs valid coherent = kept p valid env 0 qs empty_db coherent none_there
  where
    none_there : AreRetryStates p []
    none_there i u e = absurd (ground arith)
