-- ===== src/Minmax/Bounds.antt =====
-- `min` and `max` on numbers.
use modbusone.Base.{ℕ, ◌≤◌, ◌≡◌, ◌⊎◌, refl, inl, List, [], ◌∷◌, All, ltb, if◌then◌else◌, arith}
use modbusone.Minmax.{min_loop, max_loop, min, max, nat_ordered}

-- A value is one of the arguments.
abbrev pub IsOneOf : ℕ → List ℕ → Type 0
IsOneOf v [] = ⊥
IsOneOf v (x ∷ xs) = (v ≡ x) ⊎ IsOneOf v xs

min_loop_lem :
    (y : List ℕ) (x : ℕ)
    → IsOneOf (min_loop x y) (x ∷ y) × (min_loop x y ≤ x) × All (λ v. min_loop x y ≤ v) y
unfolding min_loop
min_loop_lem [] x = (inl refl, omega arith, tt)
min_loop_lem (v ∷ y) x = ground (arith, min_loop_lem y (if ltb v x then v else x))

max_loop_lem :
    (y : List ℕ) (x : ℕ)
    → IsOneOf (max_loop x y) (x ∷ y) × (x ≤ max_loop x y) × All (λ v. v ≤ max_loop x y) y
unfolding max_loop
max_loop_lem [] x = (inl refl, omega arith, tt)
max_loop_lem (v ∷ y) x = ground (arith, max_loop_lem y (if ltb x v then v else x))

-- On numbers `min` is one of its arguments and at most each of them; `max` is one of its arguments
-- and at least each of them.
pub min_max_lem :
    (x : ℕ) (y : List ℕ)
    → IsOneOf (min x y) (x ∷ y)
      × All (λ v. min x y ≤ v) (x ∷ y)
      × IsOneOf (max x y) (x ∷ y)
      × All (λ v. v ≤ max x y) (x ∷ y)
unfolding min max
min_max_lem x y =
    let (a, b, c) = min_loop_lem y x in let (d, e, f) = max_loop_lem y x in (a, (b, c), d, (e, f))
