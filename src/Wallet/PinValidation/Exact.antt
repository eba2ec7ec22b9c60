-- ===== src/Wallet/PinValidation/Exact.antt =====
-- Exactly which PINs are accepted.
use nl_wallet.Base.{
  ℕ, ◌+◌, ◌<◌, ◌≡◌, ◌↔◌, refl, sym, ap, subst, Bool, true, false, ◌&&◌, some, List, [], ◌∷◌, map,
  length, replicate, ltb, ◌==◌, ok, arith,
}
use nl_wallet.Wallet.PinValidation.{
  len_utf8, str_len, exact_length, pin_length_should_be_correct, to_digit, any_none, unwrap_all,
  parse_pin_to_digits, check_order, order_result, validate_pin,
}
use nl_wallet.Wallet.PinValidation.Unique.{unique_lem}
use nl_wallet.Wallet.PinValidation.Accepted.{
  char_of, AreDigits, AscendsFrom, DescendsFrom, count_lem, IsAcceptedPin,
  validate_pin-IsAcceptedPin,
}

made_digit : (d : ℕ) → d < 10 → (to_digit (char_of d) ≡ some d) × (len_utf8 (char_of d) ≡ 1)
made_digit d small =
    let above : ltb (d + 48) 48 ≡ false = ground arith in
    let below : ltb 57 (d + 48) ≡ false = ground arith in
    (rw (above, below) (ap some (omega arith)), ground arith)

made_lem :
    (ds : List ℕ)
    → AreDigits ds
    → (any_none (map to_digit (map char_of ds)) ≡ false)
      × (unwrap_all (map to_digit (map char_of ds)) ≡ ok ds)
      × (str_len (map char_of ds) ≡ length ds)
unfolding str_len
made_lem [] digits = (refl, refl, refl)
made_lem (d ∷ ds) (small, digits) =
    let (is_digit, one) = made_digit d small in
    let (none_other, unwrapped, counted) = made_lem ds digits in
    (rw is_digit none_other, rw (is_digit, unwrapped) refl, rw (one, counted) (omega arith))

-- A flag that stays says that all digits are in order.
ascending_lem :
    (prev : ℕ) (ds : List ℕ) (ascending descending : Bool)
    → (check_order ascending descending prev ds).0 ≡ true
    → (ascending ≡ true) × AscendsFrom prev ds
unfolding check_order
ascending_lem prev [] ascending descending e = (e, tt)
ascending_lem prev (d ∷ ds) ascending descending e =
    let (both, h) =
      ascending_lem d ds (ascending && d == prev + 1) (descending && d + 1 == prev) e in
    (ground (arith, both), (ground (arith, both), h))

descending_lem :
    (prev : ℕ) (ds : List ℕ) (ascending descending : Bool)
    → (check_order ascending descending prev ds).1 ≡ true
    → (descending ≡ true) × DescendsFrom prev ds
unfolding check_order
descending_lem prev [] ascending descending e = (e, tt)
descending_lem prev (d ∷ ds) ascending descending e =
    let (both, h) =
      descending_lem d ds (ascending && d == prev + 1) (descending && d + 1 == prev) e in
    (ground (arith, both), (ground (arith, both), h))

unordered_lem : (r : Bool × Bool) → (r.0 ≡ true → ⊥) → (r.1 ≡ true → ⊥) → order_result r ≡ ok tt
unordered_lem (true, descending) p q = absurd (p refl)
unordered_lem (false, true) p q = absurd (q refl)
unordered_lem (false, false) p q = refl

IsAcceptedPin-validate : (pin : List ℕ) → IsAcceptedPin pin → validate_pin pin ≡ ok tt
unfolding validate_pin pin_length_should_be_correct parse_pin_to_digits
IsAcceptedPin-validate pin a =
    let (none_other, unwrapped, counted) = made_lem (a.first ∷ a.others) a.are_digits in
    let six : (str_len (map char_of (a.first ∷ a.others)) == exact_length) ≡ true =
      ground (arith, counted, a.are_six) in
    let (count, c) = count_lem (a.first ∷ a.others) (replicate 10 0) a.are_digits refl in
    let unique = unique_lem a.first a.others count c a.are_six a.not_constant in
    let unordered =
      unordered_lem (check_order true true a.first a.others)
        (λ h. a.not_ascending (ascending_lem a.first a.others true true h).1)
        (λ h. a.not_descending (descending_lem a.first a.others true true h).1) in
    subst (λ p. validate_pin p ≡ ok tt) (sym a.is_text)
      (rw (six, none_other, unwrapped, unique) unordered)

-- A PIN is accepted exactly if it has six digits, which are not all the same, and of which neither each is
-- the successor of the one before it nor each its predecessor.
pub validate_pin-accepts : (pin : List ℕ) → (validate_pin pin ≡ ok tt) ↔ IsAcceptedPin pin
validate_pin-accepts pin = (validate_pin-IsAcceptedPin pin, IsAcceptedPin-validate pin)
