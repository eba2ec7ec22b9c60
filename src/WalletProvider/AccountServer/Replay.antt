-- ===== src/WalletProvider/AccountServer/Replay.antt =====
-- What an accepted instruction leaves behind, and what no instruction can do afterwards.
use nl_wallet.Base.{
  ℕ, ◌<◌, ◌≡◌, ◌≢◌, refl, ap, subst, true, false, is_some, Bytes, ltb→lt, Bool-cases, inl, inr,
  some, String, List, [], ◌∷◌, none, ◌⊎◌, panic, ltb, lt→ltb, Exec, ok, err, ok_or, map_err,
  map_err-ok, ◌>>=◌, >>=-ok, ok_or-ok, arith,
}
use nl_wallet.WalletCommon.Signed.{larger_than, parse_and_verify}
use nl_wallet.WalletCommon.Signed.Verified.{IsCoherent, parse_and_verify-IsSigned}
use nl_wallet.WalletProvider.PinPolicy.{in_timeout}
use nl_wallet.WalletProvider.Users.{
  Db, UserRow, WalletUser, InstructionChallenge, find_row, update_rows, with_failed_pin,
  without_challenge, without_failed_pins, with_sequence_number,
}
use nl_wallet.WalletProvider.Users.Lookup.{find-update_hit, find-update_cases}
use nl_wallet.WalletProvider.AccountServer.{
  Environment, Instruction, InstructionError, ChallengeError, WalletCertificateError,
  WalletCertificateClaims, validation_hsm_error, challenge_mismatch, challenge_timeout,
  verification_failed,
}
use nl_wallet.WalletProvider.AccountServer.Certificate.{verify_wallet_certificate}
use nl_wallet.WalletProvider.AccountServer.Certificate.Owner.{
  IsOwner, verify_wallet_certificate-IsOwner,
}
use nl_wallet.WalletProvider.AccountServer.Challenge.{
  ChallengeRequest, instruction_challenge, IsChallenged, instruction_challenge-IsChallenged,
}
use nl_wallet.WalletProvider.AccountServer.Instruct.{
  is_blocked_permanently, Generated, Evaluator, Payload, verify_instruction, handle_instruction,
}
use nl_wallet.WalletProvider.AccountServer.Ends.{
  Evaluates, cleared_and, refused-fails, Outcome, refused, paused, wrong_pin, accepted,
}
use nl_wallet.WalletProvider.AccountServer.Outcome.{handle_instruction-Outcome}

-- A verified instruction answers the user's challenge, which has not expired, with a sequence number
-- above the last one.
verified :
    (env : Environment) (text : String) (user : WalletUser) (now : ℕ) (p : Payload)
    → IsCoherent env.codec
    → verify_instruction env text user now ≡ ok p
    → (c : InstructionChallenge) × (user.instruction_challenge ≡ some c)
      × (user.instruction_sequence_number < p.sequence_number)
unfolding verify_instruction
verified env text user now p coherent e =
    let (c, h, e1) = >>=-ok (ok_or user.instruction_challenge challenge_mismatch) _ e in
    let checks = λ (pin_pubkey : Bytes). map_err verification_failed (
      parse_and_verify env.codec text c.bytes (larger_than user.instruction_sequence_number)
        user.hw_pubkey pin_pubkey) in
    elim (Bool-cases (ltb c.expiration_date_time now)) [
      | inl late ↦ absurd (ground (arith, e1))
      | inr timely ↦
          let e2 : (ok_or (env.decrypt user.encrypted_pin_pubkey) validation_hsm_error >>= checks)
              ≡ ok p =
            rw timely at e1 in
          let (key, _, e3) =
            >>=-ok (ok_or (env.decrypt user.encrypted_pin_pubkey) validation_hsm_error) checks e2 in
          let signed =
            parse_and_verify-IsSigned env.codec text c.bytes
              (larger_than user.instruction_sequence_number) user.hw_pubkey key p coherent
              (map_err-ok verification_failed _ e3) in
          (
            c,
            ok_or-ok user.instruction_challenge challenge_mismatch h,
            ltb→lt user.instruction_sequence_number p.sequence_number signed.2,
          )
    ]

-- The row that is found after an accepted instruction.
abbrev pub accepted_row : ℕ → UserRow → UserRow
accepted_row n u = with_sequence_number n (without_failed_pins (without_challenge u))

find-accepted :
    (w : String) (n : ℕ) (us : List UserRow) (u : UserRow)
    → find_row w us ≡ some u
    → find_row w (update_rows w (with_sequence_number n) (cleared_and w without_failed_pins us))
      ≡ some (accepted_row n u)
find-accepted w n us u h =
    find-update_hit w (with_sequence_number n) _ _ (λ u. refl)
      (find-update_hit w without_failed_pins _ _ (λ u. refl)
        (find-update_hit w without_challenge us u (λ u. refl) h))

-- The row of the instruction's wallet, before and after.
pub record IsAccepted (env : Environment) (i : Instruction) (before after : List UserRow)
    : Type 0 where
  pub claims : WalletCertificateClaims
  pub row : UserRow
  pub number : ℕ
  pub claimed : env.parse_certificate i.certificate ≡ some claims
  pub row_before : find_row claims.wallet_id before ≡ some row
  pub row_after : find_row claims.wallet_id after ≡ some (accepted_row number row)
  pub not_blocked : row.is_blocked ≡ false
  pub challenged : is_some row.challenge ≡ true
  pub advances : row.instruction_sequence_number < number

Outcome-IsAccepted :
    (env : Environment) (evaluate : Evaluator) (g : Generated) (i : Instruction) (db : Db)
    {r : Exec InstructionError String} {us : List UserRow} (text : String)
    → IsCoherent env.codec
    → r ≡ ok text
    → Outcome env evaluate g i db r us
    → IsAccepted env i db.users us
Outcome-IsAccepted env evaluate g i db {r} text coherent e (refused cause _) =
    absurd (refused-fails env evaluate g i db r text cause e)
Outcome-IsAccepted env evaluate g i db text coherent e (paused user left c h r _) = absurd (cc)
Outcome-IsAccepted env evaluate g i db text coherent e (wrong_pin user x s c h _ _ r _) =
    absurd (cc)
Outcome-IsAccepted env evaluate g i db text coherent e (accepted user x p c h _ v _ same) =
    let owner = verify_wallet_certificate-IsOwner env i.certificate db user c in
    let (ch, challenged, advances) =
      verified env i.instruction user g.challenge_time p coherent v in
    let stored : find_row owner.claims.wallet_id db.users ≡ some owner.row =
      rw (← owner.named) owner.stored in
    record {
      claims = owner.claims;
      row = owner.row;
      number = p.sequence_number;
      claimed = owner.claimed;
      row_before = stored;
      row_after =
          rw (same, ← owner.named)
            (find-accepted user.wallet_id p.sequence_number db.users owner.row owner.stored);
      not_blocked = owner.not_blocked;
      challenged = ground (arith, challenged, ap (λ w. w.instruction_challenge) owner.read);
      advances = ground (arith, advances, ap (λ w. w.instruction_sequence_number) owner.read);
    }

-- An expired challenge is the error, whatever else is wrong.
expired_lem :
    (env : Environment) (text : String) (user : WalletUser) (now : ℕ) (c : InstructionChallenge)
    → user.instruction_challenge ≡ some c
    → c.expiration_date_time < now
    → verify_instruction env text user now ≡ err challenge_timeout
unfolding verify_instruction
expired_lem env text user now c h late = rw (h, lt→ltb c.expiration_date_time now late)

-- If the readers of a signed instruction agree with each other (`IsCoherent`) and an instruction
-- succeeds, then its wallet was not blocked and had an open challenge; afterwards the
-- challenge is gone, no failure is counted, and the sequence number has grown.
pub handle_instruction-IsAccepted :
    (env : Environment) (evaluate : Evaluator) (g : Generated) (i : Instruction) (db : Db)
    (text : String)
    → IsCoherent env.codec
    → (handle_instruction env evaluate g i db).0 ≡ ok text
    → IsAccepted env i db.users (handle_instruction env evaluate g i db).1.users
handle_instruction-IsAccepted env evaluate g i db text coherent e =
    Outcome-IsAccepted env evaluate g i db text coherent e
      (handle_instruction-Outcome env evaluate g i db)

-- The wallet has no open challenge.
abbrev IsClosed : String → List UserRow → Type 0
IsClosed w us = (u : UserRow) → find_row w us ≡ some u → u.challenge ≡ none

update_rows-IsClosed :
    (w i : String) (f : UserRow → UserRow) (us : List UserRow)
    → ((u : UserRow) → (f u).wallet_id ≡ u.wallet_id)
    → ((u : UserRow) → u.challenge ≡ none → (f u).challenge ≡ none)
    → IsClosed w us
    → IsClosed w (update_rows i f us)
update_rows-IsClosed w i f us named keeps closed u e = elim (find-update_cases i w f us u named e) [
  | inl (same, (v, hit, is_f)) ↦
      let none_there : v.challenge ≡ none =
        closed v (subst (λ x. find_row x us ≡ some v) same hit) in
      rw is_f (keeps v none_there)
  | inr (_, hit) ↦ closed u hit
]

cleared_and-IsClosed :
    (w i : String) (f : UserRow → UserRow) (us : List UserRow)
    → ((u : UserRow) → (f u).wallet_id ≡ u.wallet_id)
    → ((u : UserRow) → u.challenge ≡ none → (f u).challenge ≡ none)
    → IsClosed w us
    → IsClosed w (cleared_and i f us)
cleared_and-IsClosed w i f us named keeps closed =
    update_rows-IsClosed w i f (update_rows i without_challenge us) named keeps
      (update_rows-IsClosed w i without_challenge us (λ u. refl) (λ u e. refl) closed)

-- No instruction opens a challenge.
Outcome-IsClosed :
    (env : Environment) (evaluate : Evaluator) (g : Generated) (i : Instruction) (db : Db)
    (w : String) {r : Exec InstructionError String} {us : List UserRow}
    → IsClosed w db.users
    → Outcome env evaluate g i db r us
    → IsClosed w us
Outcome-IsClosed env evaluate g i db w closed (refused _ same) = rw same closed
Outcome-IsClosed env evaluate g i db w closed (paused user left _ _ _ same) = rw same (
    update_rows-IsClosed w user.wallet_id without_challenge db.users (λ u. refl) (λ u e. refl)
      closed)
Outcome-IsClosed env evaluate g i db w closed (wrong_pin user x s _ _ _ _ _ same) = rw same (
    cleared_and-IsClosed w user.wallet_id
      (with_failed_pin (is_blocked_permanently x) g.failure_time) db.users (λ u. refl) (λ u e. e)
      closed)
Outcome-IsClosed env evaluate g i db w closed (accepted user x p _ _ _ _ _ same) = rw same (
    update_rows-IsClosed w user.wallet_id (with_sequence_number p.sequence_number)
      (cleared_and user.wallet_id without_failed_pins db.users) (λ u. refl) (λ u e. e)
      (cleared_and-IsClosed w user.wallet_id without_failed_pins db.users (λ u. refl) (λ u e. e)
        closed))

-- An instruction with what the server, the libraries and the database answer to it.
abbrev pub Handled : Type 0
Handled = Environment × Evaluator × Generated × Instruction

-- The database after instructions one after the other, of any wallets.
abbrev pub handle_all : List Handled → Db → Db
handle_all [] db = db
handle_all ((env, evaluate, g, i) ∷ rest) db =
    handle_all rest (handle_instruction env evaluate g i db).1

all-IsClosed :
    (w : String) (later : List Handled) (db : Db)
    → IsClosed w db.users
    → IsClosed w (handle_all later db).users
all-IsClosed w [] db closed = closed
all-IsClosed w ((env, evaluate, g, i) ∷ rest) db closed =
    all-IsClosed w rest (handle_instruction env evaluate g i db).1 (
      Outcome-IsClosed env evaluate g i db w closed
        (handle_instruction-Outcome env evaluate g i db))

-- If the readers of signed instructions agree with each other (`IsCoherent`): after an instruction has
-- succeeded and any number of instructions of any wallets have followed, successful or not, with no request
-- for a challenge in between, no instruction whose certificate names the same wallet succeeds: neither the
-- same one again nor another one.
pub handle_instruction-once :
    (env env' : Environment) (evaluate evaluate' : Evaluator) (g g' : Generated)
    (i i' : Instruction) (db : Db) (text text' : String) (claims claims' : WalletCertificateClaims)
    (later : List Handled)
    → IsCoherent env.codec
    → IsCoherent env'.codec
    → env.parse_certificate i.certificate ≡ some claims
    → env'.parse_certificate i'.certificate ≡ some claims'
    → claims'.wallet_id ≡ claims.wallet_id
    → (handle_instruction env evaluate g i db).0 ≡ ok text
    → (handle_instruction env' evaluate' g' i'
        (handle_all later (handle_instruction env evaluate g i db).1)).0
      ≢ ok text'
handle_instruction-once env env' evaluate evaluate' g g' i i' db text text' claims claims' later
      coherent coherent' claimed claimed' same first again =
    let a = handle_instruction-IsAccepted env evaluate g i db text coherent first in
    let between = handle_all later (handle_instruction env evaluate g i db).1 in
    let b = handle_instruction-IsAccepted env' evaluate' g' i' between text' coherent' again in
    let named : b.claims.wallet_id ≡ a.claims.wallet_id =
      cc (a.claimed, b.claimed, claimed, claimed', same) in
    let closed : IsClosed a.claims.wallet_id (handle_instruction env evaluate g i db).1.users =
      λ u e. closed_row a.number a.row u (ground (arith, a.row_after, e)) in
    let still =
      all-IsClosed a.claims.wallet_id later (handle_instruction env evaluate g i db).1 closed in
    let none_there =
      still b.row (subst (λ w. find_row w between.users ≡ some b.row) named b.row_before) in
    cc (none_there, b.challenged)
  where
    closed_row : (n : ℕ) (r u : UserRow) → accepted_row n r ≡ u → u.challenge ≡ none
    closed_row n r u e = rw (← e) refl

-- An instruction for a blocked wallet and a request for a challenge for it fail and leave the whole database
-- as it was, whatever the challenge, the signatures and the policy.
pub handle_instruction-blocked :
    (env : Environment) (evaluate : Evaluator) (g : Generated) (i : Instruction)
    (q : ChallengeRequest) (db : Db) (claims : WalletCertificateClaims) (row : UserRow)
    → env.parse_certificate i.certificate ≡ some claims
    → q.certificate ≡ i.certificate
    → find_row claims.wallet_id db.users ≡ some row
    → row.is_blocked ≡ true
    → ((text : String) → (handle_instruction env evaluate g i db).0 ≢ ok text)
      × ((handle_instruction env evaluate g i db).1 ≡ db)
      × ((bytes : Bytes) → (instruction_challenge env q db).0 ≢ ok bytes)
      × ((instruction_challenge env q db).1 ≡ db)
unfolding handle_instruction
handle_instruction-blocked env evaluate g i q db claims row claimed same stored blocked_row =
    let (fails, kept) = by_certificate (verify_wallet_certificate env i.certificate db) refl in
    let (fails', kept') = by_challenge (instruction_challenge-IsChallenged env q db) in
    (fails, kept, fails', kept')
  where
    not_owned : (user : WalletUser) → IsOwner env i.certificate db user → ⊥
    not_owned user owner =
        let claims_are : owner.claims ≡ claims = cc (owner.claimed) in
        let row_is : owner.row ≡ row = cc (owner.stored, owner.named, claims_are) in
        cc (row_is, owner.not_blocked)

    by_certificate :
        (c : Exec WalletCertificateError WalletUser)
        → verify_wallet_certificate env i.certificate db ≡ c
        → ((text : String) → (handle_instruction env evaluate g i db).0 ≢ ok text)
          × ((handle_instruction env evaluate g i db).1 ≡ db)
    by_certificate (ok user) e =
        absurd (not_owned user (verify_wallet_certificate-IsOwner env i.certificate db user e))
    by_certificate (err x) e = rw (e, handle_instruction) (λ text h. cc, refl)
    by_certificate panic e = rw (e, handle_instruction) (λ text h. cc, refl)

    by_challenge :
        {r : Exec ChallengeError Bytes} {after : Db}
        → (((bytes : Bytes) → r ≢ ok bytes) × (after ≡ db)) ⊎ IsChallenged env q db r after.users
        → ((bytes : Bytes) → r ≢ ok bytes) × (after ≡ db)
    by_challenge (inl kept) = kept
    by_challenge (inr c) =
        absurd (not_owned c.user (subst (λ x. IsOwner env x db c.user) same c.owner))

-- An instruction that comes after its challenge has expired, outside a pause of the policy, fails and
-- leaves all users as they were: the cleared challenge is restored with the transaction, and no failure
-- is counted.
pub handle_instruction-expired :
    (env : Environment) (evaluate : Evaluator) (g : Generated) (i : Instruction) (db : Db)
    (user : WalletUser) (c : InstructionChallenge)
    → verify_wallet_certificate env i.certificate db ≡ ok user
    → user.instruction_challenge ≡ some c
    → c.expiration_date_time < g.challenge_time
    → ((left : ℕ) → ¬ Evaluates env evaluate g i db user (in_timeout left))
    → ((text : String) → (handle_instruction env evaluate g i db).0 ≢ ok text)
      × ((handle_instruction env evaluate g i db).1.users ≡ db.users)
handle_instruction-expired env evaluate g i db user c certified challenged late unpaused =
    by_outcome (handle_instruction-Outcome env evaluate g i db)
  where
    same_user : (u : WalletUser) → verify_wallet_certificate env i.certificate db ≡ ok u → u ≡ user
    same_user u h = cc

    times_out :
        (u : WalletUser)
        → u ≡ user
        → verify_instruction env i.instruction u g.challenge_time ≡ err challenge_timeout
    times_out u same =
        rw same (expired_lem env i.instruction user g.challenge_time c challenged late)

    by_outcome :
        {r : Exec InstructionError String} {us : List UserRow}
        → Outcome env evaluate g i db r us
        → ((text : String) → r ≢ ok text) × (us ≡ db.users)
    by_outcome {r} (refused cause same) =
        ((λ text. refused-fails env evaluate g i db r text cause), same)
    by_outcome (paused u left h p _ _) = absurd (
        unpaused left (
          subst (λ (w : WalletUser). Evaluates env evaluate g i db w (in_timeout left))
            (same_user u h) p))
    by_outcome (wrong_pin u _ x h _ _ v _ _) = absurd (cc (times_out u (same_user u h), v))
    by_outcome (accepted u _ p h _ _ v _ _) = absurd (cc (times_out u (same_user u h), v))
