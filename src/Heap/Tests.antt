-- ===== src/Heap/Tests.antt =====
-- Runs of lea_heap.c, and the theorems at concrete heaps.
use leactor.Prelude.{
  ℕ, ◌+◌, ◌≡◌, refl, inl, ℤ, pos, negsuc, arith, true, false, some, ◌==◌, if◌then◌else◌, update,
  List, [], ◌∷◌,
}
use leactor.Time.{Time, differs}
use leactor.Event.{Event}
use leactor.Heap.{State, Realloc, elem_greater, place, shift_up, push, pop, erase}
use leactor.Heap.Sift.{IsIndexed, In}
use leactor.Heap.Push.{Pushed, push-Pushed}
use leactor.Heap.Remove.{IsRemoved}
use leactor.Heap.Erase.{Popped, pop-Popped, erase-IsRemoved, erase_last_keeps}
use leactor.Heap.Order.{push-root}

abbrev at_second : ℕ → Time
at_second n = record { tv_sec = n; tv_nsec = 0 }

abbrev event : ℕ → ℤ → Event
event n i = record {
  callback = 0;
  arg = 0;
  flag = 0;
  fd = pos 0;
  min_heap_idx = i;
  endtime = at_second n;
  deleted = false;
  next_active_ev = 0;
  next = 0;
  prev = 0;
  base = 0;
}

-- Events 1, 2 and 3 in the slots 0, 1 and 2; event 4 is not in the heap. Event n ends at second n.
abbrev sample : State
sample = record {
  heap = record { p = λ i. i + 1; n = 3; a = 8 };
  events = λ x.
      if x == 1
      then event 1 (pos 0)
      else if x == 2
      then event 2 (pos 1)
      else if x == 3
      then event 3 (pos 2)
      else event x (negsuc 0);
}

sample-IsIndexed : IsIndexed sample
sample-IsIndexed = record { at = λ i q. ground arith; room = omega arith }

four_new : ¬ In 4 sample
four_new (i, q, e) = omega arith

abbrev same_block : Realloc
same_block p a size = some p

-- The slots of a heap, for the runs below.
abbrev slots : State → List ℕ
slots s = s.heap.p 0 ∷ s.heap.p 1 ∷ s.heap.p 2 ∷ s.heap.p 3 ∷ []

-- The latest event is put at the root.
push_run : slots (push same_block sample 4).0 ≡ 4 ∷ 1 ∷ 3 ∷ 2 ∷ []
unfolding push shift_up place elem_greater differs update
push_run = refl

pop_run : (pop sample).1 ≡ 1
unfolding pop
pop_run = refl

push-Pushed_example : Pushed sample 4 (push same_block sample 4)
push-Pushed_example =
    push-Pushed sample 4 sample-IsIndexed four_new same_block
      (λ p q a size i e lt lt'. ground arith) (omega arith)

pop-Popped_example : Popped sample (pop sample)
pop-Popped_example = pop-Popped sample sample-IsIndexed

erase-IsRemoved_example : (t : State) × (erase sample 2 ≡ some t) × IsRemoved sample 2 t
erase-IsRemoved_example =
    erase-IsRemoved sample 1 sample-IsIndexed (omega arith) (inl (omega arith))

greater : elem_greater sample.events 1 3 ≡ true
unfolding elem_greater
greater = refl

erase_last_keeps_example :
    (t : State) × (erase sample 3 ≡ some t)
    × In 3 t
    × ((t.events 3).min_heap_idx ≡ negsuc 0)
    × ¬ In 1 t
erase_last_keeps_example = erase_last_keeps sample 2 sample-IsIndexed refl (omega arith) greater

push-root_example :
    ((push same_block sample 4).0.heap.p 0 ≡ 4) × ((push same_block sample 4).1 ≡ pos 0)
push-root_example = push-root same_block sample 4 (omega arith) (omega arith) (λ i q. ground arith)
