-- ===== src/Wallet/PinValidation.antt =====
-- Which PINs the wallet accepts: wallet/src/pin/validation.rs.
-- `Unique`, `Accepted` and `Exact` have the theorems.
-- A PIN is the list of its code points.
pub mod Accepted
pub mod Unique
pub mod Exact
use nl_wallet.Base.{
  ℕ, suc, zero, ◌-◌, ◌+◌, ◌%◌, Bool, true, false, not, ◌&&◌, ◌||◌, Option, none, some, is_none,
  List, [], ◌∷◌, map, filter, length, replicate, ltb, ◌==◌, if◌then◌else◌, Exec, ok, err, panic,
  guard, unwrap, ◌>>=◌, ◌>>◌,
}

pub data PinValidationError : Type 0 where
  non_digits invalid_length too_few_unique_digits ascending_digits descending_digits :
      PinValidationError

-- `char::len_utf8`
abbrev pub len_utf8 : ℕ → ℕ
len_utf8 c = if ltb c 128 then 1 else if ltb c 2048 then 2 else if ltb c 65536 then 3 else 4

-- `str::len`, in bytes.
unfoldable pub str_len : List ℕ → ℕ
str_len [] = 0
str_len (c ∷ cs) = len_utf8 c + str_len cs

abbrev pub exact_length : ℕ
exact_length = 6

abbrev pub min_unique_digits : ℕ
min_unique_digits = 2

abbrev pub radix : ℕ
radix = 10

unfoldable pub pin_length_should_be_correct : List ℕ → Exec PinValidationError (Unit {0})
pin_length_should_be_correct pin = guard (str_len pin == exact_length) invalid_length

-- `char::to_digit(10)`
abbrev pub to_digit : ℕ → Option ℕ
to_digit c = if ltb c 48 then none else if ltb 57 c then none else some (c - 48)

abbrev pub any_none : List (Option ℕ) → Bool
any_none [] = false
any_none (o ∷ os) = is_none o || any_none os

abbrev pub unwrap_all : List (Option ℕ) → Exec PinValidationError (List ℕ)
unwrap_all [] = ok []
unwrap_all (o ∷ os) = do d ← unwrap o; ds ← unwrap_all os; ok (d ∷ ds)

unfoldable pub parse_pin_to_digits : List ℕ → Exec PinValidationError (List ℕ)
parse_pin_to_digits pin =
    if any_none (map to_digit pin) then err non_digits else unwrap_all (map to_digit pin)

-- `count[d] += 1`
unfoldable pub increment : List ℕ → ℕ → Exec PinValidationError (List ℕ)
increment [] d = panic
increment (n ∷ ns) zero = ok ((n + 1) % 256 ∷ ns)
increment (n ∷ ns) (suc d) = do rest ← increment ns d; ok (n ∷ rest)

unfoldable pub count_digits : List ℕ → List ℕ → Exec PinValidationError (List ℕ)
count_digits [] count = ok count
count_digits (d ∷ ds) count = do next ← increment count d; count_digits ds next

unfoldable pub pin_should_contain_enough_unique_digits : List ℕ → Exec PinValidationError (Unit {0})
pin_should_contain_enough_unique_digits digits = do
  count ← count_digits digits (replicate radix 0)
  guard (not (ltb (length (filter (λ d. ltb 0 d) count)) min_unique_digits)) too_few_unique_digits

-- The loop, with the two flags and the digit before. The `i8` of a digit is the digit, and its successor
-- and predecessor are in range; `d != prev - 1` is written with the successor of `d`.
unfoldable pub check_order : Bool → Bool → ℕ → List ℕ → Bool × Bool
check_order ascending descending prev [] = (ascending, descending)
check_order ascending descending prev (d ∷ ds) =
    check_order (ascending && d == prev + 1) (descending && d + 1 == prev) d ds

abbrev pub order_result : Bool × Bool → Exec PinValidationError (Unit {0})
order_result (true, descending) = err ascending_digits
order_result (false, true) = err descending_digits
order_result (false, false) = ok tt

abbrev pub pin_should_not_be_ascending_or_descending : List ℕ → Exec PinValidationError (Unit {0})
pin_should_not_be_ascending_or_descending [] = panic
pin_should_not_be_ascending_or_descending (d ∷ ds) = order_result (check_order true true d ds)

unfoldable pub validate_pin : List ℕ → Exec PinValidationError (Unit {0})
validate_pin pin = do
  pin_length_should_be_correct pin
  digits ← parse_pin_to_digits pin
  pin_should_contain_enough_unique_digits digits
  pin_should_not_be_ascending_or_descending digits
