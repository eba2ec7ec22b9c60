-- ===== src/Wallet/PinValidation/Accepted.antt =====
-- Which PINs are accepted, and that each PIN ends in an answer.
use nl_wallet.Base.{
  ℕ, zero, suc, ◌+◌, ◌-◌, ◌<◌, ◌≡◌, ◌≢◌, ◌⊎◌, inl, inr, refl, sym, ◌∙◌, subst, Bool, true, false,
  not, ◌&&◌, ◌||◌, Bool-cases, Option, none, some, is_none, List, [], ◌∷◌, map, filter, length,
  replicate, ltb, ◌==◌, Exec, ok, err, panic, ok-returns, err-returns, guard, guard-ok,
  guard-returns, ◌>>=◌, ◌>>◌, >>=-ok, >>=-returns, arith,
}
use nl_wallet.Wallet.PinValidation.{
  PinValidationError, non_digits, invalid_length, too_few_unique_digits, len_utf8, str_len,
  exact_length, pin_length_should_be_correct, to_digit, any_none, unwrap_all, parse_pin_to_digits,
  increment, count_digits, pin_should_contain_enough_unique_digits, check_order, order_result,
  pin_should_not_be_ascending_or_descending, validate_pin,
}

-- The code point of a digit.
abbrev pub char_of : ℕ → ℕ
char_of d = d + 48

abbrev pub AreDigits : List ℕ → Type 0
AreDigits [] = Unit {0}
AreDigits (d ∷ ds) = (d < 10) × AreDigits ds

-- Each digit is the one after, or before, the digit that stands before it.
abbrev pub AscendsFrom : ℕ → List ℕ → Type 0
AscendsFrom prev [] = Unit {0}
AscendsFrom prev (d ∷ ds) = (d ≡ prev + 1) × AscendsFrom d ds

abbrev pub DescendsFrom : ℕ → List ℕ → Type 0
DescendsFrom prev [] = Unit {0}
DescendsFrom prev (d ∷ ds) = (d + 1 ≡ prev) × DescendsFrom d ds

digit_lem :
    (c : ℕ)
    → (to_digit c ≡ none)
      ⊎ ((d : ℕ) × (to_digit c ≡ some d) × (c ≡ char_of d) × (d < 10) × (len_utf8 c ≡ 1))
digit_lem c = elim (Bool-cases (ltb c 48)) [
  | inl low ↦ inl (rw low refl)
  | inr above ↦ elim (Bool-cases (ltb 57 c)) [
    | inl high ↦ inl (rw (above, high) refl)
    | inr below ↦ inr (c - 48, rw (above, below) refl, ground arith, ground arith, ground arith)
  ]
]

-- A text without other characters is the text of its digits, with one byte for each.
parse_lem :
    (pin : List ℕ)
    → any_none (map to_digit pin) ≡ false
    → (ds : List ℕ) × (unwrap_all (map to_digit pin) ≡ ok ds)
      × (pin ≡ map char_of ds)
      × AreDigits ds
      × (str_len pin ≡ length ds)
unfolding str_len
parse_lem [] e = ([], refl, refl, tt, refl)
parse_lem (c ∷ pin) e = elim (digit_lem c) [
  | inl missing ↦ absurd (first _ missing e)
  | inr (d, is_digit, is_char, small, one) ↦
      let (ds, unwrapped, same, digits, counted) = parse_lem pin (rest _ is_digit e) in
      (
        d ∷ ds,
        rw (is_digit, unwrapped) refl,
        both is_char same,
        (small, digits),
        rw (one, counted) (omega arith),
      )
]
  where
    first : (b : Bool) {o : Option ℕ} → o ≡ none → is_none o || b ≡ false → ⊥
    first b p h = ground arith

    rest : (b : Bool) {o : Option ℕ} {d : ℕ} → o ≡ some d → is_none o || b ≡ false → b ≡ false
    rest b p h = ground arith

    both : {a b : ℕ} {as' bs : List ℕ} → a ≡ b → as' ≡ bs → a ∷ as' ≡ b ∷ bs
    both p q = cc

increment_lem :
    (count : List ℕ) (d : ℕ)
    → d < length count
    → (next : List ℕ) × (increment count d ≡ ok next) × (length next ≡ length count)
unfolding increment
increment_lem [] d h = elim h [ ]
increment_lem (n ∷ ns) zero h = (_, refl, refl)
increment_lem (n ∷ ns) (suc d) h =
    let (next, e, l) = increment_lem ns d (omega arith) in (n ∷ next, rw e refl, omega arith)

pub count_lem :
    (ds count : List ℕ)
    → AreDigits ds
    → length count ≡ 10
    → (c : List ℕ) × (count_digits ds count ≡ ok c)
unfolding count_digits
count_lem [] count digits l = (count, refl)
count_lem (d ∷ ds) count (small, digits) l =
    let (next, e, same) = increment_lem count d (omega arith) in
    let (c, rest) = count_lem ds next digits (omega arith) in (c, rw e rest)

ascends_lem :
    (prev : ℕ) (ds : List ℕ) (descending : Bool)
    → AscendsFrom prev ds
    → (check_order true descending prev ds).0 ≡ true
unfolding check_order
ascends_lem prev [] descending h = refl
ascends_lem prev (d ∷ ds) descending (next, h) =
    let hit : (d == prev + 1) ≡ true = ground arith in
    rw (check_order, hit) (ascends_lem d ds (descending && d + 1 == prev) h)

descends_lem :
    (prev : ℕ) (ds : List ℕ) (ascending : Bool)
    → DescendsFrom prev ds
    → (check_order ascending true prev ds).1 ≡ true
unfolding check_order
descends_lem prev [] ascending h = refl
descends_lem prev (d ∷ ds) ascending (next, h) =
    let hit : (d + 1 == prev) ≡ true = ground arith in
    rw (check_order, hit) (descends_lem d ds (ascending && d == prev + 1) h)

order_lem : (r : Bool × Bool) → order_result r ≡ ok tt → (r.0 ≡ false) × (r.1 ≡ false)
order_lem (true, descending) e = cc
order_lem (false, true) e = cc
order_lem (false, false) e = (refl, refl)

-- A digit six times.
constant_lem :
    (d : ℕ)
    → d < 10
    → pin_should_contain_enough_unique_digits (replicate 6 d) ≡ err too_few_unique_digits
unfolding pin_should_contain_enough_unique_digits count_digits increment
constant_lem zero h = refl
constant_lem (suc zero) h = refl
constant_lem (suc (suc zero)) h = refl
constant_lem (suc (suc (suc zero))) h = refl
constant_lem (suc (suc (suc (suc zero)))) h = refl
constant_lem (suc (suc (suc (suc (suc zero))))) h = refl
constant_lem (suc (suc (suc (suc (suc (suc zero)))))) h = refl
constant_lem (suc (suc (suc (suc (suc (suc (suc zero))))))) h = refl
constant_lem (suc (suc (suc (suc (suc (suc (suc (suc zero)))))))) h = refl
constant_lem (suc (suc (suc (suc (suc (suc (suc (suc (suc zero))))))))) h = refl
constant_lem (suc (suc (suc (suc (suc (suc (suc (suc (suc (suc d)))))))))) h = absurd (omega arith)

read_lem :
    (pin : List ℕ)
    → (parse_pin_to_digits pin ≡ err non_digits)
      ⊎ ((ds : List ℕ) × (parse_pin_to_digits pin ≡ ok ds)
          × (pin ≡ map char_of ds)
          × AreDigits ds
          × (str_len pin ≡ length ds))
unfolding parse_pin_to_digits
read_lem pin = elim (Bool-cases (any_none (map to_digit pin))) [
  | inl other ↦ inl (rw other refl)
  | inr none_other ↦
      let (ds, unwrapped, same, digits, counted) = parse_lem pin none_other in
      inr (ds, rw (none_other, unwrapped) refl, same, digits, counted)
]

six_digits : (pin : List ℕ) → pin_length_should_be_correct pin ≡ ok tt → str_len pin ≡ 6
unfolding pin_length_should_be_correct
six_digits pin e =
    let counted = guard-ok (str_len pin == exact_length) invalid_length e in ground (arith, counted)

unique-returns : (ds : List ℕ) → AreDigits ds → pin_should_contain_enough_unique_digits ds ≢ panic
unfolding pin_should_contain_enough_unique_digits
unique-returns ds digits =
    let (count, counted) = count_lem ds (replicate 10 0) digits refl in
    subst
      (λ m.
        (m >>= λ c. guard (not (ltb (length (filter (λ d. ltb 0 d) c)) 2)) too_few_unique_digits)
        ≢ panic)
      (sym counted) (guard-returns _ _)

order-returns : (ds : List ℕ) → length ds ≡ 6 → pin_should_not_be_ascending_or_descending ds ≢ panic
order-returns [] l = absurd (omega arith)
order-returns (d ∷ ds) l = by_flags (check_order true true d ds)
  where
    by_flags : (r : Bool × Bool) → order_result r ≢ panic
    by_flags (true, descending) = err-returns
    by_flags (false, true) = err-returns
    by_flags (false, false) = ok-returns

-- Every PIN ends in an answer: no digit is out of the range of the counts, and there is a first digit.
pub validate_pin-returns : (pin : List ℕ) → validate_pin pin ≢ panic
unfolding validate_pin pin_length_should_be_correct
validate_pin-returns pin =
    >>=-returns (pin_length_should_be_correct pin) _ (guard-returns _ _) (λ _ counted.
      elim (read_lem pin) [
        | inl wrong ↦
            subst
              (λ m.
                (m >>= λ ds.
                pin_should_contain_enough_unique_digits ds
                >> pin_should_not_be_ascending_or_descending ds)
                ≢ panic)
              (sym wrong) err-returns
        | inr (ds, parsed, _, digits, same) ↦
            subst
              (λ m.
                (m >>= λ ds.
                pin_should_contain_enough_unique_digits ds
                >> pin_should_not_be_ascending_or_descending ds)
                ≢ panic)
              (sym parsed)
              (>>=-returns (pin_should_contain_enough_unique_digits ds) _ (unique-returns ds digits)
                (λ _ _. order-returns ds (sym same ∙ six_digits pin counted)))
      ])

-- Six digits, that are neither all the same nor one after the other, up or down.
pub record IsAcceptedPin (pin : List ℕ) : Type 0 where
  pub first : ℕ
  pub others : List ℕ
  pub is_text : pin ≡ map char_of (first ∷ others)
  pub are_digits : AreDigits (first ∷ others)
  pub are_six : length (first ∷ others) ≡ 6
  pub not_constant : (first ∷ others) ≢ replicate 6 first
  pub not_ascending : AscendsFrom first others → ⊥
  pub not_descending : DescendsFrom first others → ⊥

-- A PIN that is accepted has six digits, which are not all the same, and of which neither each is the
-- successor of the one before it nor each its predecessor.
pub validate_pin-IsAcceptedPin : (pin : List ℕ) → validate_pin pin ≡ ok tt → IsAcceptedPin pin
unfolding validate_pin
validate_pin-IsAcceptedPin pin e =
    let (_, l, e1) = >>=-ok (pin_length_should_be_correct pin) _ e in
    let (digits, p, e2) = >>=-ok (parse_pin_to_digits pin) _ e1 in
    let (_, u, o) = >>=-ok (pin_should_contain_enough_unique_digits digits) _ e2 in
    elim (read_lem pin) [
      | inl wrong ↦ absurd (no_digits wrong p)
      | inr (ds, parsed, is_text, are_digits, counted) ↦
          let same = found parsed p in
          from_digits ds is_text are_digits (sym counted ∙ six_digits pin l)
            (subst (λ x. pin_should_contain_enough_unique_digits x ≡ ok tt) (sym same) u)
            (subst (λ x. pin_should_not_be_ascending_or_descending x ≡ ok tt) (sym same) o)
    ]
  where
    no_digits :
        {m : Exec PinValidationError (List ℕ)} {x : PinValidationError} {ds : List ℕ}
        → m ≡ err x
        → m ≡ ok ds
        → ⊥
    no_digits p q = cc

    found :
        {m : Exec PinValidationError (List ℕ)} {xs ys : List ℕ} → m ≡ ok xs → m ≡ ok ys → xs ≡ ys
    found p q = cc

    constant :
        (d : ℕ) (ds : List ℕ)
        → d < 10
        → ds ≡ replicate 6 d
        → pin_should_contain_enough_unique_digits ds ≡ ok tt
        → ⊥
    constant d ds small same u = cc (constant_lem d small, same, u)

    clash : {b : Bool} → b ≡ true → b ≡ false → ⊥
    clash p q = cc

    from_digits :
        (ds : List ℕ)
        → pin ≡ map char_of ds
        → AreDigits ds
        → length ds ≡ 6
        → pin_should_contain_enough_unique_digits ds ≡ ok tt
        → pin_should_not_be_ascending_or_descending ds ≡ ok tt
        → IsAcceptedPin pin
    from_digits [] is_text digits six u o = cc
    from_digits (d ∷ ds) is_text digits six u o = record {
      first = d;
      others = ds;
      is_text = is_text;
      are_digits = digits;
      are_six = six;
      not_constant = λ same. constant d (d ∷ ds) digits.0 same u;
      not_ascending =
          λ h. clash (ascends_lem d ds true h) (order_lem (check_order true true d ds) o).0;
      not_descending =
          λ h. clash (descends_lem d ds true h) (order_lem (check_order true true d ds) o).1;
    }
