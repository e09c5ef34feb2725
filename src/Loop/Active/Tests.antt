-- ===== src/Loop/Active/Tests.antt =====
-- The theorems on a round of the loop at a concrete base, where a callback notes its event.
use leactor.Prelude.{ℕ, ◌≡◌, refl, Ptr, arith, List, [], ◌∷◌, ok, out_of_fuel}
use leactor.Loop.Active.Sample.{at_second, sample, note, notes}
use leactor.Loop.Active.{State, dispatch, init_actlist, process_and_moveout}
use leactor.Loop.Active.Stale.{ready, dispatch-out_of_fuel}

dispatch-out_of_fuel_example :
    (t u : State (List Ptr)) × (dispatch ⦃c = notes⦄ (ready 1 ∷ ready 5 ∷ []) (at_second 7) sample
      ≡ ok t)
    × (init_actlist ⦃c = notes⦄ (ready 5 ∷ ready 1 ∷ []) t ≡ ok u)
    × ((fuel : ℕ) → process_and_moveout ⦃c = notes⦄ fuel (at_second 8) u ≡ out_of_fuel)
dispatch-out_of_fuel_example =
    dispatch-out_of_fuel ⦃c = notes⦄ note (λ callback ev arg s. refl) (at_second 7) (at_second 8) 1
      5 sample (omega arith) (omega arith) (omega arith) refl refl refl refl refl
