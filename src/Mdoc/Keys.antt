-- ===== src/Mdoc/Keys.antt =====
-- The device key of a mobile security object: `TryFrom<&CoseKey> for VerifyingKey` in
-- mdoc/src/utils/crypto.rs.
use mathlib.Core.List.{Memᴰ}
use mathlib.Core.List.Memᴰ.{head, tail}
use nl_wallet.Base.{
  ℕ, zero, suc, ◌≡◌, ◌≢◌, Bool, false, Option, none, some, Bytes, List, [], ◌∷◌, length, ◌==◌,
  get_elem?, Exec, panic, ok_or, ok_or-ok, ok_or-returns, assert, ok-returns, guard, guard-returns,
  ◌>>=◌, ◌>>◌, >>=-returns, arith,
}
use nl_wallet.Mdoc.{
  CoseLabel, minus, plus, text_label, CborValue, integer, byte_string, other_value, CoseKey,
  VerificationError, cose, Crypto,
}

abbrev pub is_minus : ℕ → CoseLabel → Bool
is_minus n (minus m) = n == m
is_minus n (plus _) = false
is_minus n (text_label _) = false

abbrev pub is_integer : ℕ → CborValue → Bool
is_integer n (integer m) = n == m
is_integer n (byte_string _) = false
is_integer n (other_value _) = false

abbrev pub as_bytes : CborValue → Option Bytes
as_bytes (byte_string bytes) = some bytes
as_bytes (integer _) = none
as_bytes (other_value _) = none

-- `From<&[u8]> for &GenericArray<u8, U32>`, which asserts the length.
abbrev pub coordinate_array : Bytes → Exec VerificationError (Unit {0})
coordinate_array bytes = assert (length bytes == 32)

unfoldable pub to_verifying_key : Crypto → CoseKey → Exec VerificationError Bytes
to_verifying_key crypto key = do
  guard key.is_ec2 cose
  keyid ← ok_or (get_elem? key.params 0) cose
  guard (is_minus 1 keyid.0) cose
  guard (is_integer 1 keyid.1) cose
  x ← ok_or (get_elem? key.params 1) cose
  guard (is_minus 2 x.0) cose
  y ← ok_or (get_elem? key.params 2) cose
  guard (is_minus 3 y.0) cose
  x_bytes ← ok_or (as_bytes x.1) cose
  coordinate_array x_bytes
  y_bytes ← ok_or (as_bytes y.1) cose
  coordinate_array y_bytes
  ok_or (crypto.from_affine_coordinates x_bytes y_bytes) cose

-- Every byte string among the parameters of a key has 32 bytes.
abbrev pub IsSized : CoseKey → Type 0
IsSized key =
    (l : CoseLabel) (bytes : Bytes) → Memᴰ (l, byte_string bytes) key.params → length bytes ≡ 32

get_elem?-Memᴰ {ℓ} :
    {A : Type ℓ} (xs : List A) (i : ℕ) (a : A) → get_elem? xs i ≡ some a → Memᴰ a xs
get_elem?-Memᴰ [] i a e = cc
get_elem?-Memᴰ (x ∷ xs) zero a e = let same : a ≡ x = ground arith in head same
get_elem?-Memᴰ (x ∷ xs) (suc i) a e = tail (get_elem?-Memᴰ xs i a e)

sized_array :
    (key : CoseKey) (i : ℕ) (l : CoseLabel) (v : CborValue) (bytes : Bytes)
    → IsSized key
    → get_elem? key.params i ≡ some (l, v)
    → as_bytes v ≡ some bytes
    → coordinate_array bytes ≢ panic
sized_array key i l (byte_string b) bytes sized e a =
    let counted : length b ≡ 32 = sized l b (get_elem?-Memᴰ key.params i (l, byte_string b) e) in
    let same : b ≡ bytes = ground arith in rw (← same, counted) ok-returns
sized_array key i l (integer n) bytes sized e a = cc
sized_array key i l (other_value t) bytes sized e a = cc

pub to_verifying_key-returns :
    (crypto : Crypto) (key : CoseKey) → IsSized key → to_verifying_key crypto key ≢ panic
unfolding to_verifying_key
to_verifying_key-returns crypto key sized =
    >>=-returns (guard key.is_ec2 cose) _ (guard-returns _ _) (λ _ _.
      >>=-returns (ok_or (get_elem? key.params 0) cose) _ (ok_or-returns _ _) (λ keyid _.
        >>=-returns (guard (is_minus 1 keyid.0) cose) _ (guard-returns _ _) (λ _ _.
          >>=-returns (guard (is_integer 1 keyid.1) cose) _ (guard-returns _ _) (λ _ _.
            >>=-returns (ok_or (get_elem? key.params 1) cose) _ (ok_or-returns _ _) (λ x hx.
              >>=-returns (guard (is_minus 2 x.0) cose) _ (guard-returns _ _) (λ _ _.
                >>=-returns (ok_or (get_elem? key.params 2) cose) _ (ok_or-returns _ _) (λ y hy.
                  >>=-returns (guard (is_minus 3 y.0) cose) _ (guard-returns _ _) (λ _ _.
                    >>=-returns (ok_or (as_bytes x.1) cose) _ (ok_or-returns _ _) (λ x_bytes bx.
                      >>=-returns (coordinate_array x_bytes) _
                        (sized_array key 1 x.0 x.1 x_bytes sized
                          (ok_or-ok (get_elem? key.params 1) cose hx)
                          (ok_or-ok (as_bytes x.1) cose bx))
                        (λ _ _.
                          >>=-returns (ok_or (as_bytes y.1) cose) _ (ok_or-returns _ _)
                            (λ y_bytes by'.
                              >>=-returns (coordinate_array y_bytes) _
                                (sized_array key 2 y.0 y.1 y_bytes sized
                                  (ok_or-ok (get_elem? key.params 2) cose hy)
                                  (ok_or-ok (as_bytes y.1) cose by'))
                                (λ _ _. ok_or-returns _ _))))))))))))
