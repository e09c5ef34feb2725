-- ===== src/Http/Free/Tests.antt =====
-- The free list with requests at 10, 20 and 30.
use leactor.Prelude.{ℕ, ◌+◌, ◌≡◌, refl, arith, none, some, [], ◌∷◌, ok, ◌==◌, if◌then◌else◌}
use leactor.Pool
use leactor.Pool.{Pool}
use leactor.Buffers.{Allocator}
use leactor.Http.Free.{Req, State, finish_request, create_request}
use leactor.Http.Free.Queue.{IsQueue, create_request-finish_request, create_request-lost}

-- Requests from 700 on.
instance abbrev counter : Allocator ℕ
counter = record { alloc = λ n. ok (n + 1000, n) }

abbrev linked : ℕ → Req
linked p = record { conn = 1; header_in = 2; state = 3; next = if p == 10 then 20 else 0 }

abbrev one_pool : Pool
one_pool = record { start = 4096; end = 5552; pos = 4136; next = 0 }

-- The pool of header elements at 4096.
abbrev header_pool : Pool.State
header_pool = record {
  manager = record {
    cur = 4096;
    one_element_size = 88;
    element_count = 16;
    head = 4096;
    tail = 4096;
  };
  pools = λ a. if a == 4096 then some one_pool else none;
}

abbrev two : State ℕ
two = record { manager = 700; head = 10; tail = 20; reqs = linked; header_pools = λ p. header_pool }

create_request-finish_request_example :
    (u t : State ℕ) × (finish_request 30 two ≡ ok u)
    × (create_request 5 6 8192 u ≡ ok (t, 10))
    × IsQueue t (20 ∷ 30 ∷ [])
create_request-finish_request_example =
    create_request-finish_request 5 6 8192 two 10 (20 ∷ []) 30
      (refl, omega arith, (refl, omega arith, refl), refl) (omega arith)
      (omega arith, (omega arith, tt)) ((omega arith, tt), (tt, tt)) (one_pool, refl, refl)

abbrev one : State ℕ
one = record { manager = 700; head = 20; tail = 20; reqs = linked; header_pools = λ p. header_pool }

create_request-lost_example :
    (t u : State ℕ) × (create_request 5 6 8192 one ≡ ok (t, 20))
    × (finish_request 30 t ≡ ok u)
    × (u.head ≡ 0)
    × ((u.reqs 20).next ≡ 30)
create_request-lost_example =
    create_request-lost 5 6 8192 one 20 30 (refl, omega arith, refl, refl) (omega arith)
      (omega arith) (one_pool, refl, refl)
