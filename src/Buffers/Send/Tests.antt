-- ===== src/Buffers/Send/Tests.antt =====
-- send_buffers on two buffers.
use leactor.Prelude.{
  ℕ, ◌≡◌, refl, arith, ◌==◌, if◌then◌else◌, [], ◌∷◌, ok, Ptr, undefined, ◌>>=◌, none,
}
use leactor.Chains.{wrote}
use leactor.Buffers.{Buf}
use leactor.Buffers.Send.{Writer, send_buffers}
use leactor.Buffers.Send.Laws.{outcome, send_buffers-outcome}

-- Five bytes at 1000, and two at 2000.
abbrev two : Ptr → Buf
two p = record {
  text = λ i. 0;
  pos = 0;
  last = if p == 1000 then 5 else 2;
  end = 16384;
  head = 0;
  written = 0;
  next = if p == 1000 then 2000 else 0;
}

-- A descriptor that takes as many bytes as the number says.
instance abbrev taking : Writer ℕ
taking = record { writev = λ n vec. (wrote n, n) }

-- Six bytes are written: the first buffer stands one byte past its end.
send_buffers-outcome_example :
    send_buffers {K = ℕ} 4 two 1000 6
    ≡ (outcome two none (1000 ∷ []) 1 2 >>= λ (t, code). ok (t, code, 6))
send_buffers-outcome_example =
    send_buffers-outcome {K = ℕ} 4 two 1000 (1000 ∷ []) 2000 [] 1 6 6 (omega arith)
      (refl, omega arith, (refl, omega arith, refl)) (refl, omega arith, (refl, omega arith, tt))
      ((omega arith, tt), (tt, tt)) (omega arith) (omega arith) (omega arith) (omega arith) refl

-- Three bytes are written.
part_run : send_buffers {K = ℕ} 4 two 1000 3 ≡ undefined
unfolding send_buffers
part_run = refl
