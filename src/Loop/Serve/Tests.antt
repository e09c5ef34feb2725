-- ===== src/Loop/Serve/Tests.antt =====
-- The theorems on the loop at a concrete base, where a callback notes its event.
use leactor.Prelude.{
  ℕ, ◌≡◌, refl, pos, Ptr, arith, true, false, some, inr, List, [], ◌∷◌, ◌++◌, ok, ◌>>=◌, negsuc,
}
use leactor.Loop.Active.Sample.{at_second, event, sample, notes}
use leactor.Heap.{Realloc}
use leactor.Loop.{io_mod}
use leactor.Loop.Active.{State, Callbacks}
use leactor.Loop.Serve.{Wait, interrupted, events, Answer, no_timeout, base_loop}
use leactor.Loop.Serve.Laws.{base_loop-expires}

abbrev answer : Wait → ℕ → Answer
answer wait n = record { wait = wait; after = at_second n }

-- The second entry has neither EPOLLIN nor EPOLLOUT.
abbrev answers : List Answer
answers =
    answer (events (record { ev = 2; io = true } ∷ record { ev = 4; io = false } ∷ [])) 7
    ∷ answer interrupted 8
    ∷ answer (events (record { ev = 6; io = true } ∷ record { ev = 2; io = true } ∷ [])) 8
    ∷ []

abbrev same_block : Realloc
same_block p a size = some p

-- Callbacks that note their event and change it by lt_io_mod, as http_send_to_upstream does with LV_FDRD | LV_CONN.
abbrev handlers : Callbacks (List Ptr)
handlers = record {
  call = λ callback ev arg s.
      io_mod same_block (at_second 7) s.base ev 5 callback arg (negsuc 0) >>= λ b.
      ok (record s { base = b; world = s.world ++ ev ∷ [] });
}

-- The sample without LV_LAG.
abbrev plain_sample : State (List Ptr)
plain_sample = record sample {
  base = record (sample.base) {
    timers = record (sample.base.timers) { events = λ p. record (event p) { flag = 5 } };
  };
}

-- A timeout of 1500 milliseconds in nanoseconds, with an answer of three seconds.
base_loop-expires_example :
    base_loop ⦃c = notes⦄
      (at_second 7)
      (pos 1_500_000_000)
      (answers ++ answer (events (record { ev = 2; io = true } ∷ [])) 10 ∷ [])
      sample
    ≡ (base_loop ⦃c = notes⦄ (at_second 7) no_timeout answers sample >>= λ (code, t).
        ok (some (pos 0), t))
base_loop-expires_example =
    base_loop-expires ⦃c = notes⦄ (at_second 7) 1_500_000_000 answers []
      (answer (events (record { ev = 2; io = true } ∷ [])) 10) sample (omega arith)
      (
        (refl, omega arith, omega arith, omega arith),
        (
          (refl, omega arith, omega arith, omega arith),
          ((refl, omega arith, omega arith, omega arith), tt),
        ),
      )
      (inr (omega arith, omega arith))
