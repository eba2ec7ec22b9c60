-- ===== src/Wallet/PinValidation/Unique.antt =====
-- The counts of the digits.
use mathlib.Core.List.{Memᴰ}
use mathlib.Core.List.Memᴰ.{head, tail}
use nl_wallet.Base.{
  ℕ, zero, suc, ◌+◌, ◌%◌, ◌<◌, ◌≤◌, ◌≡◌, ◌≢◌, ◌⊎◌, inl, inr, refl, sym, ap, ◌∙◌, subst, false,
  Bool-cases, List, [], ◌∷◌, filter, length, replicate, ltb, ◌==◌, ok, >>=-ok, arith,
}
use nl_wallet.Wallet.PinValidation.{
  increment, count_digits, pin_should_contain_enough_unique_digits,
}

-- The count of a digit.
abbrev pub count_of : List ℕ → ℕ → ℕ
count_of [] i = 0
count_of (n ∷ ns) zero = n
count_of (n ∷ ns) (suc i) = count_of ns i

increment_self :
    (count next : List ℕ) (d : ℕ)
    → increment count d ≡ ok next
    → count_of count d < 255
    → count_of next d ≡ count_of count d + 1
unfolding increment
increment_self [] next d e h = cc
increment_self (n ∷ ns) next zero e h =
    let same : (n + 1) % 256 ∷ ns ≡ next = ground arith in
    sym (ap (λ l. count_of l 0) same) ∙ omega arith
increment_self (n ∷ ns) next (suc d) e h =
    let (rest, r, s) = >>=-ok (increment ns d) _ e in
    let same : n ∷ rest ≡ next = ground arith in
    sym (ap (λ l. count_of l (suc d)) same) ∙ increment_self ns rest d r h

increment_other :
    (count next : List ℕ) (d i : ℕ)
    → increment count d ≡ ok next
    → i ≢ d
    → count_of next i ≡ count_of count i
unfolding increment
increment_other [] next d i e h = cc
increment_other (n ∷ ns) next zero zero e h = absurd (h refl)
increment_other (n ∷ ns) next zero (suc i) e h =
    let same : (n + 1) % 256 ∷ ns ≡ next = ground arith in sym (ap (λ l. count_of l (suc i)) same)
increment_other (n ∷ ns) next (suc d) zero e h =
    let (rest, r, s) = >>=-ok (increment ns d) _ e in
    let same : n ∷ rest ≡ next = ground arith in sym (ap (λ l. count_of l 0) same)
increment_other (n ∷ ns) next (suc d) (suc i) e h =
    let (rest, r, s) = >>=-ok (increment ns d) _ e in
    let same : n ∷ rest ≡ next = ground arith in
    sym (ap (λ l. count_of l (suc i)) same) ∙ increment_other ns rest d i r (λ q. h (ap suc q))

-- No count is above a bound.
abbrev IsBounded : ℕ → List ℕ → Type 0
IsBounded k count = (i : ℕ) → count_of count i ≤ k

increment_lem :
    (count next : List ℕ) (d k : ℕ)
    → increment count d ≡ ok next
    → k < 255
    → IsBounded k count
    → (i : ℕ) → (count_of count i ≤ count_of next i) × (count_of next i ≤ k + 1)
increment_lem count next d k e small bounded i = elim (Bool-cases (i == d)) [
  | inl same ↦
      let at_d : i ≡ d = ground arith in
      let grown = increment_self count next d e (ground (arith, bounded d)) in
      subst (λ j. (count_of count j ≤ count_of next j) × (count_of next j ≤ k + 1)) (sym at_d)
        (ground (arith, grown), ground (arith, grown, bounded d))
  | inr apart ↦
      let kept = increment_other count next d i e (λ q. ground arith) in
      (ground (arith, kept), ground (arith, kept, bounded i))
]

counted_lem :
    (ds count c : List ℕ) (k : ℕ)
    → count_digits ds count ≡ ok c
    → k + length ds < 255
    → IsBounded k count
    → ((i : ℕ) → count_of count i ≤ count_of c i) × ((e : ℕ) → Memᴰ e ds → 0 < count_of c e)
unfolding count_digits
counted_lem [] count c k e small bounded =
    let same : count ≡ c = ground arith in
    (λ i. subst (λ l. count_of count i ≤ count_of l i) same (omega arith), λ d m. elim m [ ])
counted_lem (d ∷ ds) count c k e small bounded =
    let (next, n, r) = >>=-ok (increment count d) _ e in
    let step = increment_lem count next d k n (omega arith) bounded in
    let (grows, found) = counted_lem ds next c (k + 1) r (omega arith) (λ i. (step i).1) in
    let self = increment_self count next d n (ground (arith, bounded d)) in
    (λ i. ground (arith, (step i).0, grows i), λ x m. at next x self grows found m)
  where
    at :
        (next : List ℕ) (x : ℕ)
        → count_of next d ≡ count_of count d + 1
        → ((i : ℕ) → count_of next i ≤ count_of c i)
        → ((y : ℕ) → Memᴰ y ds → 0 < count_of c y)
        → Memᴰ x (d ∷ ds)
        → 0 < count_of c x
    at next x self grows found (head p) =
        subst (λ y. 0 < count_of c y) (sym p) (ground (arith, self, grows d))
    at next x self grows found (tail m) = found x m

one_lem : (c : List ℕ) (i : ℕ) → 0 < count_of c i → 0 < length (filter (λ d. ltb 0 d) c)
one_lem [] i h = absurd (omega arith)
one_lem (n ∷ ns) zero h = ground arith
one_lem (n ∷ ns) (suc i) h = let rest = one_lem ns i h in ground (arith, rest)

two_lem :
    (c : List ℕ) (i j : ℕ)
    → 0 < count_of c i
    → 0 < count_of c j
    → i ≢ j
    → 1 < length (filter (λ d. ltb 0 d) c)
two_lem [] i j h g apart = absurd (omega arith)
two_lem (n ∷ ns) zero zero h g apart = absurd (apart refl)
two_lem (n ∷ ns) zero (suc j) h g apart = let rest = one_lem ns j g in ground (arith, rest)
two_lem (n ∷ ns) (suc i) zero h g apart = let rest = one_lem ns i h in ground (arith, rest)
two_lem (n ∷ ns) (suc i) (suc j) h g apart =
    let rest = two_lem ns i j h g (λ q. apart (ap suc q)) in ground (arith, rest)

-- Digits that are not all the same have another one than the first.
other_lem : (d : ℕ) (ds : List ℕ) → (ds ≡ replicate (length ds) d) ⊎ ((e : ℕ) × Memᴰ e ds × (d ≢ e))
other_lem d [] = inl refl
other_lem d (e ∷ ds) = elim (Bool-cases (d == e)) [
  | inl same ↦ elim (other_lem d ds) [
    | inl all_same ↦
        let first : d ≡ e = ground arith in
        inl (ap (λ x. x ∷ ds) (sym first) ∙ ap (λ l. d ∷ l) all_same)
    | inr (x, m, apart) ↦ inr (x, tail m, apart)
  ]
  | inr apart ↦ inr (e, head refl, λ q. ground arith)
]

zeros_lem : (n i : ℕ) → count_of (replicate n 0) i ≤ 0
zeros_lem zero i = omega arith
zeros_lem (suc n) zero = omega arith
zeros_lem (suc n) (suc i) = zeros_lem n i

-- Digits with another one than the first are unique enough.
pub unique_lem :
    (d : ℕ) (ds c : List ℕ)
    → count_digits (d ∷ ds) (replicate 10 0) ≡ ok c
    → length (d ∷ ds) ≡ 6
    → (d ∷ ds) ≢ replicate 6 d
    → pin_should_contain_enough_unique_digits (d ∷ ds) ≡ ok tt
unfolding pin_should_contain_enough_unique_digits
unique_lem d ds c counted six varied = elim (other_lem d ds) [
  | inl same ↦
      absurd (varied (ap (λ l. d ∷ l) (same ∙ ap (λ n. replicate n d) (five (length ds) six))))
  | inr (e, m, apart) ↦
      let (_, found) =
        counted_lem (d ∷ ds) (replicate 10 0) c 0 counted (omega arith) (zeros_lem 10) in
      let two = two_lem c d e (found d (head refl)) (found e (tail m)) apart in
      let enough : ltb (length (filter (λ x. ltb 0 x) c)) 2 ≡ false = ground (arith, two) in
      rw (counted, enough) refl
]
  where
    five : (n : ℕ) → suc n ≡ 6 → n ≡ 5
    five n p = omega arith
