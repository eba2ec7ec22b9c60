-- ===== src/SessionStore/Memory/Cleanup.antt =====
-- The store in memory as a map: what a write and a cleanup do to each token.
use nl_wallet.Base.{
  ltb, ◌+◌, ℕ, ◌≡◌, ◌≢◌, ◌⊎◌, inl, inr, refl, sym, subst, ◌∙◌, ◌&&◌, Bool, true, false, Bool-cases,
  Option, none, some, String, str_eq, eq_iff, List, [], ◌∷◌, if◌then◌else◌, is_some, ok, err, arith,
}
use nl_wallet.SessionStore.{
  Progress, active, finished, SessionData, SessionState, duplicate_token, SessionStoreTimeouts,
}
use nl_wallet.SessionStore.Memory.{
  get_session, insert_entry, write, is_retained, expire_stale, cleanup,
}

pub str_eq_other : (a b : String) → b ≢ a → str_eq a b ≡ false
str_eq_other a b other = elim (Bool-cases (str_eq a b)) [
  | inl h ↦ absurd (other (sym ((eq_iff a b).0 h)))
  | inr h ↦ h
]

str_eq_sym : (a b : String) → str_eq a b ≡ false → str_eq b a ≡ false
str_eq_sym a b e = elim (Bool-cases (str_eq b a)) [
  | inl h ↦ absurd (ground (arith, (eq_iff a b).1 (sym ((eq_iff b a).0 h))))
  | inr h ↦ h
]

module _ {T : Type 0} where
  -- Each token stands once.
  pub data IsMap : List (SessionState T) → Type 0 where
    empty : IsMap []
    entry :
        (s : SessionState T) (ss : List (SessionState T))
        → get_session s.token ss ≡ none
        → IsMap ss
        → IsMap (s ∷ ss)

  pub get-insert_self :
      (s : SessionState T) (ss : List (SessionState T))
      → get_session s.token (insert_entry s ss) ≡ some s
  unfolding get_session insert_entry
  get-insert_self s [] = ground (arith, eq_iff s.token s.token)
  get-insert_self s (r ∷ rs) = elim (Bool-cases (str_eq r.token s.token)) [
    | inl e ↦ rw (e, (eq_iff s.token s.token).1 refl) refl
    | inr e ↦ rw (e, get-insert_self s rs, e) refl
  ]

  get-insert_other :
      (s : SessionState T) (t : String) (ss : List (SessionState T))
      → str_eq s.token t ≡ false
      → get_session t (insert_entry s ss) ≡ get_session t ss
  unfolding get_session insert_entry
  get-insert_other s t [] e = ground arith
  get-insert_other s t (r ∷ rs) e =
      ground (arith, get-insert_other s t rs e, eq_iff r.token s.token)

  insert-IsMap :
      (s : SessionState T) (ss : List (SessionState T)) → IsMap ss → IsMap (insert_entry s ss)
  unfolding insert_entry get_session
  insert-IsMap s [] m = entry s [] refl empty
  insert-IsMap s (r ∷ rs) (entry _ _ free m) = elim (Bool-cases (str_eq r.token s.token)) [
    | inl e ↦ rw e (entry s rs (rw (← (eq_iff r.token s.token).0 e) free) m)
    | inr e ↦ rw e (
        entry r (insert_entry s rs)
          (get-insert_other s r.token rs (str_eq_sym r.token s.token e) ∙ free)
          (insert-IsMap s rs m))
  ]

  -- What a write is refused for, and what it does to the tokens.
  write-ok :
      (s : SessionState T) (is_new : Bool) (ss after : List (SessionState T))
      → write s is_new ss ≡ ok after
      → (after ≡ insert_entry s ss) × (is_new ≡ true → get_session s.token ss ≡ none)
  unfolding write
  write-ok s is_new ss after e = (ground arith, λ new. ground arith)

module _ {T : Type 0} (ops : SessionData T) (timeouts : SessionStoreTimeouts) (now : ℕ) where
  -- What a cleanup leaves of one session.
  abbrev pub survivor : Option (SessionState T) → Option (SessionState T)
  survivor none = none
  survivor (some s) =
      if is_retained ops timeouts now s then some (expire_stale ops timeouts now s) else none

  expire_stale-token : (s : SessionState T) → (expire_stale ops timeouts now s).token ≡ s.token
  unfolding expire_stale
  expire_stale-token s = ground arith

  get-cleanup-none :
      (t : String) (ss : List (SessionState T))
      → get_session t ss ≡ none
      → get_session t (cleanup ops timeouts now ss) ≡ none
  unfolding get_session cleanup
  get-cleanup-none t [] e = refl
  get-cleanup-none t (s ∷ ss) e =
      let rest = get-cleanup-none t ss in
      let same = expire_stale-token s in ground (arith, rest, same)

  cleanup-IsMap : (ss : List (SessionState T)) → IsMap ss → IsMap (cleanup ops timeouts now ss)
  unfolding cleanup
  cleanup-IsMap [] m = empty
  cleanup-IsMap (s ∷ ss) (entry _ _ free m) = elim (Bool-cases (is_retained ops timeouts now s)) [
    | inl e ↦ rw e (
        entry (expire_stale ops timeouts now s) (cleanup ops timeouts now ss)
          (subst (λ t. get_session t (cleanup ops timeouts now ss) ≡ none)
            (sym (expire_stale-token s)) (get-cleanup-none s.token ss free))
          (cleanup-IsMap ss m))
    | inr e ↦ rw e (cleanup-IsMap ss m)
  ]

-- What is meant to become of a session: kept as it was, expired at the present time, or removed.
abbrev pub aged :
    {T : Type 0} → ℕ → ℕ → SessionState T → Option (SessionState T) → Option (SessionState T)
aged now timeout s old = if ltb (s.last_active + timeout) now then old else some s

abbrev pub cleaned :
    {T : Type 0}
    → SessionData T
    → SessionStoreTimeouts
    → ℕ
    → Option (SessionState T)
    → Option (SessionState T)
cleaned ops timeouts now none = none
cleaned ops timeouts now (some s) = elim (ops.is_expired s.data_of) [
  | true ↦ aged now timeouts.failed_deletion s none
  | false ↦ elim (ops.progress s.data_of) [
    | finished true ↦ aged now timeouts.successful_deletion s none
    | finished false ↦ aged now timeouts.failed_deletion s none
    | active ↦
        aged now timeouts.expiration s
          (some (record { data_of = ops.expire s.data_of; token = s.token; last_active = now }))
  ]
]

module _ {T : Type 0} (ops : SessionData T) (timeouts : SessionStoreTimeouts) (now : ℕ) where
  survivor-cleaned :
      (o : Option (SessionState T)) → survivor ops timeouts now o ≡ cleaned ops timeouts now o
  unfolding is_retained expire_stale
  survivor-cleaned none = refl
  survivor-cleaned (some s) = by_data (ops.is_expired s.data_of) (ops.progress s.data_of) refl refl
    where
      by_data :
          (b : Bool) (p : Progress)
          → ops.is_expired s.data_of ≡ b
          → ops.progress s.data_of ≡ p
          → survivor ops timeouts now (some s) ≡ cleaned ops timeouts now (some s)
      by_data true p e f = ground (arith, e, f)
      by_data false (finished true) e f = ground (arith, e, f)
      by_data false (finished false) e f = ground (arith, e, f)
      by_data false active e f = ground (arith, e, f)

-- A cleanup of the store in memory treats each token by itself: the session under it is removed if it
-- has succeeded and is older than the timeout for successful sessions, or has failed or expired and is
-- older than the timeout for failed ones; it is expired at the present time if it is active and older than
-- the expiration timeout; and otherwise it stays as it is; and tokens stay unique.
pub get-cleanup :
    {T : Type 0} (ops : SessionData T) (timeouts : SessionStoreTimeouts) (now : ℕ) (t : String)
    (ss : List (SessionState T))
    → IsMap ss
    → (get_session t (cleanup ops timeouts now ss) ≡ cleaned ops timeouts now (get_session t ss))
      × IsMap (cleanup ops timeouts now ss)
unfolding get_session cleanup
get-cleanup {T} ops timeouts now t ss m = (
  each ss m ∙ survivor-cleaned ops timeouts now (get_session t ss),
  cleanup-IsMap ops timeouts now ss m,
)
  where
    each :
        (ss : List (SessionState T))
        → IsMap ss
        → get_session t (cleanup ops timeouts now ss) ≡ survivor ops timeouts now (get_session t ss)
    each [] m = refl
    each (s ∷ ss) (entry _ _ free m) =
        let rest = each ss m in
        let same = expire_stale-token ops timeouts now s in
        let gone = get-cleanup-none ops timeouts now s.token ss free in
        let named = (eq_iff s.token t).0 in
        elim (Bool-cases (str_eq s.token t)) [
          | inr other ↦ ground (arith, rest, same)
          | inl hit ↦
              let moved =
                subst (λ u. get_session u (cleanup ops timeouts now ss) ≡ none) (named hit) gone in
              ground (arith, same, moved)
        ]

-- A write to the store in memory is refused exactly if the session is said to be new and its token is
-- there; otherwise its token then holds the session, every other token holds what it held, and tokens
-- stay unique.
pub get-write :
    {T : Type 0} (s : SessionState T) (is_new : Bool) (ss : List (SessionState T))
    → IsMap ss
    → ((is_new ≡ true)
        × (is_some (get_session s.token ss) ≡ true)
        × (write s is_new ss ≡ err (duplicate_token s.token)))
      ⊎ ((after : List (SessionState T)) × (write s is_new ss ≡ ok after)
          × (is_new ≡ true → get_session s.token ss ≡ none)
          × (get_session s.token after ≡ some s)
          × ((t : String) → t ≢ s.token → get_session t after ≡ get_session t ss)
          × IsMap after)
unfolding write
get-write s is_new ss m = elim (Bool-cases (is_some (get_session s.token ss) && is_new)) [
  | inl refused ↦ inl (ground arith, ground arith, rw refused refl)
  | inr free ↦ inr (
    insert_entry s ss,
    rw free refl,
    λ new. ground arith,
    get-insert_self s ss,
    λ t other. get-insert_other s t ss (str_eq_other s.token t other),
    insert-IsMap s ss m,
  )
]
