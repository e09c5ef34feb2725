-- ===== src/Chains/Tests.antt =====
-- send_chains on two pieces.
use leactor.Prelude.{ℕ, ◌≡◌, refl, arith, ◌==◌, if◌then◌else◌, [], ◌∷◌, undefined, update}
use leactor.Chains.{Chains, wrote, Sink, send_chains}
use leactor.Chains.Send.{Outcome, send_chains-Outcome}

-- Five bytes at 1000 and seven at 2000.
abbrev two : Chains
two p =
    if p == 10
    then record { iov_base = 1000; iov_len = 5; next = 20; chain_len = 2 }
    else record { iov_base = 2000; iov_len = 7; next = 0; chain_len = 0 }

-- A descriptor that takes as many bytes as the number says.
instance abbrev taking : Sink ℕ
taking = record { writev = λ n vec. (wrote n, n) }

send_chains-Outcome_example :
    Outcome two 10 (10 ∷ 20 ∷ []) (wrote 12, 12) (send_chains {K = ℕ} two 10 12)
send_chains-Outcome_example =
    send_chains-Outcome {K = ℕ} two 10 (10 ∷ 20 ∷ []) 12 (omega arith) refl
      (refl, omega arith, (refl, omega arith, refl)) ((omega arith, tt), (tt, tt))
      (omega arith, (omega arith, tt))

part_run : send_chains {K = ℕ} two 10 6 ≡ undefined
unfolding send_chains update
part_run = refl
