-- ===== src/Base/Maps.antt =====
-- Maps with text keys in the order of insertion (`IndexMap`): a key keeps its place when it is written
-- again.
use mathlib.Core.Path.{◌≡◌, ◌∙◌, refl, sym}
use mathlib.Core.Logic.{inl, inr}
use mathlib.Core.Bool.{Bool, true, false}
use mathlib.Core.Option.{Option, none, some}
use mathlib.Core.List.{List, [], ◌∷◌, ◌++◌}
use Prim.Native.String.{String}
use native.Mathlib.Omega.{arith}
use text.Mathlib.Text.{◌==◌ as str_eq}
use text.Mathlib.TextEquality.{eq_iff}
use nl_wallet.Base.Tests.{if◌then◌else◌, Bool-cases}

module _ {ℓ} {A : Type ℓ} where
  unfoldable pub find_key : String → List (String × A) → Option A
  find_key k [] = none
  find_key k ((j, a) ∷ xs) = if str_eq j k then some a else find_key k xs

  unfoldable pub insert_key : String → A → List (String × A) → List (String × A)
  insert_key k a [] = (k, a) ∷ []
  insert_key k a ((j, b) ∷ xs) = if str_eq j k then (j, a) ∷ xs else (j, b) ∷ insert_key k a xs

  pub find_key-insert_key :
      (k j : String) (a : A) (xs : List (String × A))
      → find_key k (insert_key j a xs) ≡ (if str_eq j k then some a else find_key k xs)
  unfolding find_key insert_key
  find_key-insert_key k j a [] = refl
  find_key-insert_key k j a ((i, b) ∷ xs) = elim (Bool-cases (str_eq i j)) [
    | inl e ↦ rw (e, (eq_iff i j).0 e) (by_test (str_eq j k))
    | inr e ↦
        let rest = find_key-insert_key k j a xs in
        let apart = eq_iff i j in
        let hit = eq_iff i k in
        let met = eq_iff j k in
        rw (e, find_key, rest) (others i (str_eq i k) (str_eq j k) e hit.0 met.0)
  ]
    where
      by_test :
          (t : Bool)
          → (if t then some a else find_key k xs)
            ≡ (if t then some a else if t then some b else find_key k xs)
      by_test true = refl
      by_test false = refl

      others :
          (i : String) (t u : Bool)
          → str_eq i j ≡ false
          → (t ≡ true → i ≡ k)
          → (u ≡ true → j ≡ k)
          → (if t then some b else if u then some a else find_key k xs)
            ≡ (if u then some a else if t then some b else find_key k xs)
      others i true true e p q = cc ((eq_iff i j).1 (p refl ∙ sym (q refl)), e)
      others i true false e p q = refl
      others i false true e p q = refl
      others i false false e p q = refl

  -- A new key stands at the end.
  pub insert_key-new :
      (k : String) (a : A) (xs : List (String × A))
      → find_key k xs ≡ none
      → insert_key k a xs ≡ xs ++ ((k, a) ∷ [])
  unfolding find_key insert_key
  insert_key-new k a [] e = refl
  insert_key-new k a ((j, b) ∷ xs) e = elim (Bool-cases (str_eq j k)) [
    | inl t ↦ absurd (ground arith)
    | inr f ↦ let rest = insert_key-new k a xs (ground arith) in rw (f, rest) refl
  ]

  pub insert_key-last :
      (k : String) (a b : A) (xs : List (String × A))
      → find_key k xs ≡ none
      → insert_key k a (xs ++ ((k, b) ∷ [])) ≡ xs ++ ((k, a) ∷ [])
  unfolding find_key insert_key
  insert_key-last k a b [] e = rw ((eq_iff k k).1 refl) refl
  insert_key-last k a b ((j, c) ∷ xs) e = elim (Bool-cases (str_eq j k)) [
    | inl t ↦ absurd (ground arith)
    | inr f ↦ let rest = insert_key-last k a b xs (ground arith) in rw (f, rest) refl
  ]

  pub find_key-last :
      (k : String) (b : A) (xs : List (String × A))
      → find_key k xs ≡ none
      → find_key k (xs ++ ((k, b) ∷ [])) ≡ some b
  unfolding find_key
  find_key-last k b [] e = rw ((eq_iff k k).1 refl) refl
  find_key-last k b ((j, c) ∷ xs) e = elim (Bool-cases (str_eq j k)) [
    | inl t ↦ absurd (ground arith)
    | inr f ↦ rw f (find_key-last k b xs (ground arith))
  ]

  -- The entries after the first ones have distinct keys, which the first ones do not have.
  abbrev pub AreNew : List (String × A) → List (String × A) → Type ℓ
  AreNew before [] = Unit {ℓ}
  AreNew before ((k, a) ∷ xs) = (find_key k before ≡ none) × AreNew (before ++ ((k, a) ∷ [])) xs
