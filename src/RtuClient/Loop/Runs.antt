-- ===== src/RtuClient/Loop/Runs.antt =====
-- Which transactions `DoTransactions` runs.
use modbusone.Base.{
  ℕ, suc, ◌+◌, ◌≡◌, refl, ap, subst, List, [], ◌∷◌, ◌++◌, length, Option, none, some, Error, arith,
}
use modbusone.Pdu.{Pdu}
use modbusone.RtuClient.Loop.{Starter, go_on, do_transactions, do_transactions_from}

-- The requests, one behind the other, succeed, and lead from one state to the other.
pub data Succeed {ℓ} {S : Type ℓ} (c : Starter S) (slave_id : ℕ) : List Pdu → S → S → Type ℓ where
  all_done : {s : S} → Succeed c slave_id [] s s
  one_done :
      {r : Pdu} {reqs : List Pdu} {s s' t : S}
      → c slave_id r s ≡ (none, s')
      → Succeed c slave_id reqs s' t
      → Succeed c slave_id (r ∷ reqs) s t

-- All requests succeed; or those before one do, and that one fails.
pub data Ran {ℓ} {S : Type ℓ} (c : Starter S) (slave_id : ℕ) (reqs : List Pdu) (s : S) (i : ℕ)
    : Option Error → S → Type ℓ where
  finished :
      {t : S} → i ≡ length reqs → Succeed c slave_id reqs s t → Ran c slave_id reqs s i none t
  stopped :
      {e : Error} {t u : S} (before : List Pdu) (r : Pdu) (rest : List Pdu)
      → reqs ≡ before ++ (r ∷ rest)
      → i ≡ length before
      → Succeed c slave_id before s t
      → c slave_id r t ≡ (some e, u)
      → Ran c slave_id reqs s i (some e) u

module _ {ℓ} {S : Type ℓ} (c : Starter S) (slave_id : ℕ) where
  behind_one :
      {r : Pdu} {reqs : List Pdu} {s s' t : S} {j : ℕ} {e : Option Error}
      → c slave_id r s ≡ (none, s')
      → Ran c slave_id reqs s' j e t
      → Ran c slave_id (r ∷ reqs) s (suc j) e t
  behind_one one (finished n all) = finished (ap suc n) (one_done one all)
  behind_one {r = r0} one (stopped before r rest cut n all fails) =
      stopped (r0 ∷ before) r rest (ap (◌∷◌ r0) cut) (ap suc n) (one_done one all) fails

  -- The result `r` of a loop from the index `k` on.
  abbrev RanFrom : ℕ → List Pdu → S → (ℕ × Option Error) × S → Type ℓ
  RanFrom k reqs s ((i, e), t) = (j : ℕ) × (i ≡ k + j) × Ran c slave_id reqs s j e t

  from-Ran :
      (reqs : List Pdu) (k : ℕ) (s : S)
      → RanFrom k reqs s (do_transactions_from c slave_id k reqs s)
  unfolding do_transactions_from go_on
  from-Ran [] k s = (0, omega arith, finished refl all_done)
  from-Ran (r ∷ reqs) k s = behind (c slave_id r s) refl (λ s'. from-Ran reqs (suc k) s')
    where
      behind :
          (m : Option Error × S)
          → c slave_id r s ≡ m
          → ((s' : S) → RanFrom (suc k) reqs s' (do_transactions_from c slave_id (suc k) reqs s'))
          → RanFrom k (r ∷ reqs) s (go_on k (do_transactions_from c slave_id (suc k) reqs) m)
      behind (some e, u) fails rest = (0, omega arith, stopped [] r reqs refl refl all_done fails)
      behind (none, s') one rest =
          let (j, count, ran) = rest s' in (suc j, omega arith, behind_one one ran)

-- `DoTransactions` runs the requests in order. Either all succeed, and it returns their number and no
-- error; or it returns the index of the first that fails with that one's error, and runs none behind
-- it.
pub do_transactions-Ran {ℓ} :
    {S : Type ℓ} (c : Starter S) (slave_id : ℕ) (reqs : List Pdu) (s : S)
    → let ((i, e), t) = do_transactions c slave_id reqs s in Ran c slave_id reqs s i e t
unfolding do_transactions
do_transactions-Ran c slave_id reqs s =
    let (j, count, ran) = from-Ran c slave_id reqs 0 s in
    let r = do_transactions_from c slave_id 0 reqs s in
    let index : j ≡ r.0.0 = omega arith in
    subst (λ (i : ℕ). Ran c slave_id reqs s i r.0.1 r.1) index ran
