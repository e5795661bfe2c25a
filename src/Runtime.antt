-- ===== src/Runtime.antt =====
-- What the platform does for the program: the decoders of the browser. `none` stands for a thrown
-- exception. The theorems hold for every choice of these functions.
use protospy.Prelude.{ℕ, List, Option, Text, ◌≡◌, ◌≢◌, refl}
use protospy.Wire.{Value}

pub record Runtime : Type 0 where
  -- `JSON.parse`
  pub json_parse : Text → Option Value
  -- `atob`, as the bytes of the binary string that it returns
  pub atob : Text → Option (List ℕ)
  -- `new TextDecoder().decode`
  pub decode_utf8 : List ℕ → Text
  -- `new TextEncoder().encode`
  pub encode_utf8 : Text → List ℕ

-- A computation that may throw.
pub data Result {ℓ} (Value : Type ℓ) : Type ℓ where
  thrown : Result Value
  ok : (value : Value) → Result Value

module _ {ℓ} {A : Type ℓ} where
  pub ok_injective : {a b : A} → ok a ≡ ok b → a ≡ b
  ok_injective same = cc

  pub thrown_or_ok : {a : A} → thrown ≢ ok a
  thrown_or_ok same = cc

module _ {ℓ κ} {A : Type ℓ} {B : Type κ} where
  infixl 5 ◌>>=◌
  abbrev pub ◌>>=◌ : (computed : Result A) (next : A → Result B) → Result B
  thrown >>= next = thrown
  ok value >>= next = next value

  -- What returns has returned at each step.
  pub steps_return :
      (computed : Result A) (next : A → Result B) (b : B)
      → (computed >>= next) ≡ ok b
      → (a : A) × (computed ≡ ok a) × (next a ≡ ok b)
  steps_return thrown next b returned = cc
  steps_return (ok value) next b returned = (value, refl, returned)
