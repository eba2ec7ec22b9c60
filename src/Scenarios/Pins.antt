-- ===== src/Scenarios/Pins.antt =====
-- Two PINs, 112233 and 123456.
use nl_wallet.Base.{ℕ, ◌≡◌, ◌≢◌, refl, ok, err, panic, List, [], ◌∷◌}
use nl_wallet.Wallet.PinValidation.{
  ascending_digits, str_len, pin_length_should_be_correct, parse_pin_to_digits, increment,
  count_digits, pin_should_contain_enough_unique_digits, check_order, validate_pin,
}
use nl_wallet.Base.{◌↔◌}
use nl_wallet.Wallet.PinValidation.Accepted.{IsAcceptedPin, validate_pin-returns}
use nl_wallet.Wallet.PinValidation.Exact.{validate_pin-accepts}

abbrev accepted_pin : List ℕ
accepted_pin = 49 ∷ 49 ∷ 50 ∷ 50 ∷ 51 ∷ 51 ∷ []

abbrev ascending_pin : List ℕ
ascending_pin = 49 ∷ 50 ∷ 51 ∷ 52 ∷ 53 ∷ 54 ∷ []

refused : validate_pin ascending_pin ≡ err ascending_digits
unfolding validate_pin str_len pin_length_should_be_correct parse_pin_to_digits increment
    count_digits pin_should_contain_enough_unique_digits check_order
refused = refl

validate_pin-accepts_example : (validate_pin accepted_pin ≡ ok tt) ↔ IsAcceptedPin accepted_pin
validate_pin-accepts_example = validate_pin-accepts accepted_pin

validate_pin-returns_example : validate_pin ascending_pin ≢ panic
validate_pin-returns_example = validate_pin-returns ascending_pin
