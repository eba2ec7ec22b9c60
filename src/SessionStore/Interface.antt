-- ===== src/SessionStore/Interface.antt =====
-- What the issuer and the verifier call of a session store, what they rely on in it, and that the store
-- in memory has it.
use nl_wallet.Base.{
  ◌≡◌, refl, ap, subst, Bool, true, Option, some, String, eq_iff, List, [], ◌∷◌, Exec, ok, err,
  panic, arith,
}
use nl_wallet.SessionStore.{SessionState, SessionStoreError, duplicate_token}
use nl_wallet.SessionStore.Memory.{get_session as memory_get, insert_entry, write as memory_write}
use nl_wallet.SessionStore.Memory.Cleanup.{get-insert_self}

-- The trait `SessionStore` without `cleanup`.
pub record Store (T S : Type 0) : Type 0 where
  pub get : String → S → Exec SessionStoreError (Option (SessionState T))
  pub write : SessionState T → Bool → S → Exec SessionStoreError S

-- What the servers rely on: a session stands under its own token, what was written is read back, and a
-- session that is said to be new is not written over another one.
pub record IsStore {T S : Type 0} (sessions : Store T S) : Type 0 where
  pub token_kept :
      (t : String) (st : S) (s : SessionState T) → sessions.get t st ≡ ok (some s) → s.token ≡ t
  pub read_written :
      (s : SessionState T) (is_new : Bool) (st st' : S)
      → sessions.write s is_new st ≡ ok st'
      → sessions.get s.token st' ≡ ok (some s)
  pub new_refused :
      (s r : SessionState T) (st : S)
      → sessions.get s.token st ≡ ok (some r)
      → sessions.write s true st ≡ err (duplicate_token s.token)

module _ {T : Type 0} where
  -- The store in memory.
  abbrev pub memory : Store T (List (SessionState T))
  memory = record { get = λ t st. ok (memory_get t st); write = memory_write }

  memory_token :
      (t : String) (st : List (SessionState T)) (s : SessionState T)
      → memory_get t st ≡ some s
      → s.token ≡ t
  unfolding memory_get
  memory_token t [] s e = cc
  memory_token t (r ∷ rs) s e =
      let rest = memory_token t rs s in let key = eq_iff r.token t in ground (arith, rest, key)

  pub memory-IsStore : IsStore memory
  unfolding memory_write
  memory-IsStore = record {
    token_kept = λ t st s e. memory_token t st s (ground arith);
    read_written = λ s is_new st st' e.
        let self = get-insert_self s st in
        let same : insert_entry s st ≡ st' = ground arith in
        ap ok (subst (λ x. memory_get s.token x ≡ some s) same self);
    new_refused = λ s r st e. ground arith;
  }

-- An endpoint goes on with the session that it found, and otherwise leaves the store.
abbrev pub with_session : {S E A B : Type 0} → Exec E A → (A → S → Exec E B × S) → S → Exec E B × S
with_session (ok session) rest store = rest session store
with_session (err e) rest store = (err e, store)
with_session panic rest store = (panic, store)

pub with_session-ok :
    {S E A B : Type 0} (found : Exec E A) (rest : A → S → Exec E B × S) (st : S) (b : B)
    → (with_session found rest st).0 ≡ ok b
    → (a : A) × (found ≡ ok a)
      × ((rest a st).0 ≡ ok b)
      × ((with_session found rest st).1 ≡ (rest a st).1)
with_session-ok (ok a) rest st b e = (a, refl, e, refl)
with_session-ok (err x) rest st b e = cc
with_session-ok panic rest st b e = cc

-- The response, or the error of the write that comes before it.
abbrev pub written_next :
    {S E A : Type 0}
    → (SessionStoreError → E)
    → Exec SessionStoreError S
    → Exec E A
    → S
    → Exec E A × S
written_next wrap (ok store') response store = (response, store')
written_next wrap (err e) response store = (err (wrap e), store)
written_next wrap panic response store = (panic, store)

pub written_next-ok :
    {S E A : Type 0} (wrap : SessionStoreError → E) (w : Exec SessionStoreError S)
    (response : Exec E A) (st : S) (a : A)
    → (written_next wrap w response st).0 ≡ ok a
    → (response ≡ ok a) × (w ≡ ok (written_next wrap w response st).1)
written_next-ok wrap (ok st') response st a e = (e, refl)
written_next-ok wrap (err x) response st a e = cc
written_next-ok wrap panic response st a e = cc
