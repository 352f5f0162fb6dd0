-- ===== src/Decoder/Encode/Named.antt =====
-- Taking a value out of a vector by its name, as `position` and `swap_remove` do.
use substrate_api_client.Prelude.{ℕ, zero, suc, String, Bool, Option, none, some, List, [], ◌∷◌}
use substrate_api_client.Prelude.{str_eq, if◌then◌else◌}
use mathlib.Core.Option

module _ {A : Type 0} where
  -- `Iterator::position`
  unfoldable pub position : (A → Bool) → List A → Option ℕ
  position p [] = none
  position p (x ∷ xs) = if p x then some 0 else Option.map suc (position p xs)

  unfoldable pub last_of : A → List A → A
  last_of x [] = x
  last_of x (y ∷ ys) = last_of y ys

  unfoldable pub but_last : A → List A → List A
  but_last x [] = []
  but_last x (y ∷ ys) = x ∷ but_last y ys

  -- What `swap_remove` leaves from the removed place on: the last element moves to the front.
  unfoldable pub refill : List A → List A
  unfolding last_of but_last
  refill [] = []
  refill (y ∷ ys) = last_of y ys ∷ but_last y ys

  -- `Vec::swap_remove`; `none` is its panic on an index out of bounds.
  unfoldable pub swap_remove : List A → ℕ → Option (A × List A)
  unfolding refill
  swap_remove [] i = none
  swap_remove (x ∷ xs) zero = some (x, refill xs)
  swap_remove (x ∷ xs) (suc i) = Option.map (λ p. (p.0, x ∷ p.1)) (swap_remove xs i)

unfoldable pub take_named :
    {A : Type 0} → String → List (String × A) → Option (A × List (String × A))
unfolding position swap_remove
take_named n values = elim (position (λ p. str_eq n p.0) values) [
  | none ↦ none
  | some i ↦ elim (swap_remove values i) [ none ↦ none | some (p, rest) ↦ some (p.1, rest) ]
]
