-- ===== src/Heap.antt =====
-- lea_heap.c: the array of event pointers that orders the events with a timeout. Each operation takes
-- and returns the heap together with the events in memory, since it writes their `min_heap_idx`.
-- `p` is the array that the field `p` points at, as a function of the index; the accesses at its end are not
-- checked. The index 2 * (hole + 1) of a child does not wrap: the heap has less than 2 ^ 31 events. The loops are recursion on the rounds left: the
-- index at which an upward loop starts, and the size for a downward one, are enough, and with no
-- round left the loop's test has failed.
pub mod Sift
pub mod Shift
pub mod Push
pub mod Remove
pub mod Erase
pub mod Order
mod Tests
use leactor.Prelude.{
  ℕ, zero, suc, ◌+◌, ◌-◌, ◌*◌, ◌/◌, ◌%◌, ◌^◌, ℤ, pos, negsuc, Ptr, null, Bool, Option, none, some,
  ltb, leb, ◌==◌, ◌&&◌, ◌||◌, not, if◌then◌else◌, update,
}
use leactor.Time.{differs}
use leactor.Event.{Events}

pub record MinHeap : Type 0 where
  pub p : ℕ → Ptr
  pub n : ℕ
  pub a : ℕ

pub record State : Type 0 where
  pub heap : MinHeap
  pub events : Events

-- min_heap_constructor_: the array is not allocated, so its contents `p` are nothing's.
unfoldable pub constructor : (ℕ → Ptr) → MinHeap
constructor p = record { p = p; n = 0; a = 0 }

-- min_heap_elem_init_
unfoldable pub elem_init : Events → Ptr → Events
elem_init events ev = update events ev (record (events ev) { min_heap_idx = negsuc 0 })

-- The macro min_heap_elem_greater: the difference of the end times, read as a truth value.
unfoldable pub elem_greater : Events → Ptr → Ptr → Bool
unfolding differs
elem_greater events a b = differs (events a).endtime (events b).endtime

-- `s->p[i] = e; s->p[i]->min_heap_idx = i;`
unfoldable pub place : State → ℕ → Ptr → State
place s i e = record {
  heap = record (s.heap) { p = update s.heap.p i e };
  events = update s.events e (record (s.events e) { min_heap_idx = pos i });
}

abbrev pub parent : ℕ → ℕ
parent i = (i - 1) / 2

shift_up_loop : ℕ → State → ℕ → Ptr → State
shift_up_loop zero s hole_index e = place s hole_index e
shift_up_loop (suc k) s hole_index e =
    let rest =
      shift_up_loop k (place s hole_index (s.heap.p (parent hole_index))) (parent hole_index) e in
    if not (hole_index == 0) && elem_greater s.events (s.heap.p (parent hole_index)) e
    then rest
    else place s hole_index e

unfoldable pub shift_up : State → ℕ → Ptr → State
unfolding shift_up_loop
shift_up s hole_index e = shift_up_loop hole_index s hole_index e

-- The `do` loop makes its first round without the test. It is called with a hole that is not 0.
unfoldable pub shift_up_unconditional : State → ℕ → Ptr → State
unfolding shift_up
shift_up_unconditional s hole_index e =
    shift_up (place s hole_index (s.heap.p (parent hole_index))) (parent hole_index) e

-- The child that the downward loop compares with: `min_child` less the truth value of the test.
min_child : State → ℕ → ℕ
min_child s hole_index =
    let right = 2 * (hole_index + 1) in
    if right == s.heap.n || elem_greater s.events (s.heap.p right) (s.heap.p (right - 1))
    then right - 1
    else right

shift_down_loop : ℕ → State → ℕ → Ptr → State
shift_down_loop zero s hole_index e = place s hole_index e
shift_down_loop (suc k) s hole_index e =
    let child = min_child s hole_index in
    let rest = shift_down_loop k (place s hole_index (s.heap.p child)) child e in
    if leb (2 * (hole_index + 1)) s.heap.n
    then (if not (elem_greater s.events e (s.heap.p child)) then place s hole_index e else rest)
    else place s hole_index e

unfoldable pub shift_down : State → ℕ → Ptr → State
unfolding shift_down_loop min_child
shift_down s hole_index e = shift_down_loop s.heap.n s hole_index e

-- realloc(p, size) on an array of `a` pointers: `none` for NULL, else the new array's contents.
abbrev pub Realloc : Type 0
Realloc = (ℕ → Ptr) → (a size : ℕ) → Option (ℕ → Ptr)

-- The new capacity that min_heap_reserve_ asks for. `unsigned` has 32 bits.
unfoldable pub new_capacity : ℕ → ℕ → ℕ
new_capacity a n =
    let doubled = if a == 0 then 8 else a * 2 % 2 ^ 32 in if ltb doubled n then n else doubled

-- min_heap_reserve_, with what it returns: 0 or -1.
unfoldable pub reserve : Realloc → State → ℕ → State × ℤ
reserve realloc s n =
    if ltb s.heap.a n
    then (let a = new_capacity s.heap.a n in
        elim (realloc s.heap.p s.heap.a a) [
          | none ↦ (s, negsuc 0)
          | some p ↦ (record s { heap = record (s.heap) { p = p; a = a } }, pos 0)
        ])
    else (s, pos 0)

-- What min_heap_push_ does after the reservation.
push_reserved : State × ℤ → Ptr → State × ℤ
push_reserved (s, negsuc _) e = (s, negsuc 0)
push_reserved (s, pos (suc _)) e = (s, negsuc 0)
push_reserved (s, pos zero) e = (
  shift_up (record s { heap = record (s.heap) { n = (s.heap.n + 1) % 2 ^ 32 } }) s.heap.n e,
  pos 0,
)

unfoldable pub push : Realloc → State → Ptr → State × ℤ
unfolding push_reserved reserve shift_up
push realloc s e = push_reserved (reserve realloc s ((s.heap.n + 1) % 2 ^ 32)) e

-- min_heap_pop_; the result is NULL on an empty heap.
unfoldable pub pop : State → State × Ptr
unfolding shift_down elem_init
pop s =
    if s.heap.n == 0
    then (s, null)
    else (let e = s.heap.p 0 in
        let n = s.heap.n - 1 in
        let t = shift_down (record s { heap = record (s.heap) { n = n } }) 0 (s.heap.p n) in
        (record t { events = elem_init t.events e }, e))

-- min_heap_erase_ of an event that stands at the index `i`.
erase_at : State → Ptr → ℕ → State
erase_at s e i =
    let n = s.heap.n - 1 in
    let last = s.heap.p n in
    let shorter : State = record s { heap = record (s.heap) { n = n } } in
    let t =
      if not (i == 0) && elem_greater s.events (s.heap.p (parent i)) last
      then shift_up_unconditional shorter i last
      else shift_down shorter i last in
    record t { events = elem_init t.events e }

-- min_heap_erase_ by the index of the event. At a negative one, and in an empty heap, the array would
-- be accessed out of its bounds: `none`.
erase_index : State → Ptr → ℤ → Option State
erase_index s e (pos i) = if s.heap.n == 0 then none else some (erase_at s e i)
erase_index s e (negsuc _) = none

unfoldable pub erase : State → Ptr → Option State
unfolding erase_index erase_at shift_up_unconditional shift_down elem_init
erase s e = erase_index s e (s.events e).min_heap_idx
