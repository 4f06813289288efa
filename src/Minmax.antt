-- ===== src/Minmax.antt =====
-- minmax.go: the variadic `min` and `max`, generic in a type with `<`.
pub mod Bounds
use modbusone.Base.{Bool, List, [], ◌∷◌, if◌then◌else◌, ℕ, ltb}

-- The constraint `ordered`, as far as the two functions use it.
pub record Ordered {ℓ} (T : Type ℓ) : Type ℓ where
  pub less : T → T → Bool

instance abbrev pub nat_ordered : Ordered ℕ
nat_ordered = record { less = ltb }

module _ {ℓ} {T : Type ℓ} ⦃o : Ordered T⦄ where
  -- The loops, over the arguments that are left.
  unfoldable pub min_loop : T → List T → T
  min_loop result [] = result
  min_loop result (val ∷ y) = min_loop (if o.less val result then val else result) y

  unfoldable pub max_loop : T → List T → T
  max_loop result [] = result
  max_loop result (val ∷ y) = max_loop (if o.less result val then val else result) y

  unfoldable pub min : T → List T → T
  unfolding min_loop
  min x y = min_loop x y

  unfoldable pub max : T → List T → T
  unfolding max_loop
  max x y = max_loop x y
