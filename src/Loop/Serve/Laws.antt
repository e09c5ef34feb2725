-- ===== src/Loop/Serve/Laws.antt =====
-- The rounds of the loop, without LV_LAG, and when it ends.
use leactor.Prelude.{
  ℕ, ◌+◌, ◌-◌, ◌%◌, ◌^◌, ◌≤◌, ◌<◌, ◌≡◌, refl, ◌⊎◌, inl, inr, ℤ, pos, negsuc, Ptr, null, true, false,
  Bool-cases, some, if◌then◌else◌, List, [], ◌∷◌, ◌++◌, Run, ok, undefined, out_of_fuel, ◌>>=◌,
  arith, ◌==◌, update,
}
use leactor.Time.{Time, nanoseconds}
use leactor.Event.{Events}
use leactor.Loop.Active.{call_back, State, events_of, Callbacks, Ready, lags, dispatch}
use leactor.Heap.{Realloc}
use leactor.Loop.{Base, has_flag, store, set_timer, io_mod}
use leactor.Loop.Serve.{Wait, Answer, no_timeout, expired, is_failed, ready_of, base_loop}

-- The events of one answer with EPOLLIN or EPOLLOUT.
abbrev pub with_io : List Ready → List Ptr
with_io [] = []
with_io (r ∷ rs) = if r.io then r.ev ∷ with_io rs else with_io rs

-- epoll_wait does not fail.
abbrev pub AllAnswered : List Answer → Type 0
AllAnswered [] = Unit
AllAnswered (a ∷ rest) = (is_failed a.wait ≡ false) × AllAnswered rest

-- What holds of the value, if the run ends with one.
abbrev pub Holds {ℓ κ} : {A : Type ℓ} → (A → Type κ) → Run A → Type κ
Holds P (ok x) = P x
Holds P undefined = Unit
Holds P out_of_fuel = Unit

pub Holds-bind :
    {A B : Type 0} (P : A → Type 0) (Q : B → Type 0) (r : Run A) (f : A → Run B)
    → Holds P r
    → ((x : A) → P x → Holds Q (f x))
    → Holds Q (r >>= f)
Holds-bind P Q (ok x) f h step = step x h
Holds-bind P Q undefined f h step = tt
Holds-bind P Q out_of_fuel f h step = tt

-- No event has LV_LAG.
abbrev pub NoLag : Events → Type 0
NoLag events = (p : Ptr) → lags (events p) ≡ false

-- No event has LV_LAG, and no event is on the list of active ones.
abbrev pub IsPlain : {W : Type 0} → State W → Type 0
IsPlain s = NoLag (events_of s) × (s.head ≡ null)

-- The state with an empty list of active events.
abbrev pub emptied : {W : Type 0} → State W → State W
emptied s = record s { head = null; tail = null }

-- lt_io_mod without a timeout keeps LV_LAG off all events.
pub io_mod-Holds :
    (realloc : Realloc) (now : Time) (b : Base) (ev : Ptr) (flag_set : ℕ) (callback arg : Ptr)
    (n : ℕ)
    → has_flag flag_set 8 ≡ false
    → NoLag b.timers.events
    → Holds
        (λ (c : Base). NoLag c.timers.events)
        (io_mod realloc now b ev flag_set callback arg (negsuc n))
unfolding io_mod set_timer store update
io_mod-Holds realloc now b ev flag_set callback arg n off plain = elim (Bool-cases (ev == null)) [
  | inl none_there ↦ rw none_there plain
  | inr there ↦
      (rw there (λ p. elim (Bool-cases (ev == p)) [
        | inl same ↦ rw same off
        | inr other ↦ rw other (plain p)
      ]))
]

not_expired : (start after : Time) → expired start after no_timeout ≡ false
not_expired start after = ground arith

-- The callbacks put no event on the list, and set LV_LAG on none.
abbrev pub KeepsPlain : {W : Type 0} → Callbacks W → Type 0
KeepsPlain {W} c =
    (callback ev arg : Ptr) (s : State W) → IsPlain s → Holds IsPlain (c.call callback ev arg s)

module _ {W : Type 0} ⦃c : Callbacks W⦄ where
  -- The callbacks of these events, one after the other.
  abbrev pub call_all : List Ptr → State W → Run (State W)
  call_all [] s = ok s
  call_all (p ∷ ps) s = call_back p s >>= call_all ps

  -- The answers one after the other: the callbacks of the events with EPOLLIN or EPOLLOUT, and the list emptied.
  abbrev pub serve : List Answer → State W → Run (State W)
  serve [] s = ok s
  serve (a ∷ rest) s = call_all (with_io (ready_of a.wait)) s >>= λ t. serve rest (emptied t)

-- An answer within `to` nanoseconds.
abbrev pub OnTime : (start : Time) → (to : ℕ) → Answer → Type 0
OnTime start to a =
    (is_failed a.wait ≡ false)
    × (nanoseconds start ≤ nanoseconds a.after)
    × (nanoseconds a.after ≤ nanoseconds start + to)
    × (nanoseconds a.after < 2 ^ 64)

abbrev pub AllOnTime : (start : Time) → (to : ℕ) → List Answer → Type 0
AllOnTime start to [] = Unit
AllOnTime start to (a ∷ rest) = OnTime start to a × AllOnTime start to rest

-- An answer that comes later.
abbrev pub Late : (start : Time) → (to : ℕ) → Answer → Type 0
Late start to a = (nanoseconds start + to < nanoseconds a.after) × (nanoseconds a.after < 2 ^ 64)

-- The difference of two numbers as one of unsigned 64-bit values.
difference : (x y : ℕ) → y ≤ x → x < 2 ^ 64 → (x + (2 ^ 64 - y % 2 ^ 64)) % 2 ^ 64 ≡ x - y
difference x y le lt = omega arith

not_late :
    (start : Time) (to : ℕ) (a : Answer)
    → to < 2 ^ 31
    → OnTime start to a
    → expired start a.after (pos to) ≡ false
not_late start to a small h =
    rw (difference (nanoseconds a.after) (nanoseconds start) h.1 h.3) (ground arith)

late :
    (start : Time) (to : ℕ) (a : Answer)
    → to < 2 ^ 31
    → Late start to a
    → expired start a.after (pos to) ≡ true
late start to a small h =
    rw (difference (nanoseconds a.after) (nanoseconds start) (omega arith) h.1) (ground arith)

bind-bind :
    {A B C : Type 0} (r : Run A) (f : A → Run B) (g : A → Run C) (h : B → Run C)
    → ((t : A) → g t ≡ (f t >>= h))
    → (r >>= g) ≡ (r >>= f >>= h)
bind-bind (ok t) f g h same = same t
bind-bind undefined f g h same = refl
bind-bind out_of_fuel f g h same = refl

-- What lt_base_loop returns for its last answer.
abbrev pub code_of : Wait → ℤ
code_of w = if is_failed w then negsuc 0 else pos 0

module _ {W : Type 0} ⦃c : Callbacks W⦄ where
  -- lt_base_loop with a timeout of `to` below 2 ^ 31, for whatever the callbacks do: answers of epoll_wait that come
  -- within `to` nanoseconds from the start and are no failure are dealt with as without a timeout;
  -- then, with an answer that is a failure or comes later, the loop returns -1 or 0 without
  -- a look at the events that came with it. The times are below 2 ^ 64 nanoseconds and not before
  -- the start.
  pub base_loop-expires :
      (start : Time) (to : ℕ) (answers later : List Answer) (last : Answer) (s : State W)
      → to < 2 ^ 31
      → AllOnTime start to answers
      → (is_failed last.wait ≡ true) ⊎ Late start to last
      → base_loop start (pos to) (answers ++ last ∷ later) s
        ≡ (base_loop start no_timeout answers s >>= λ (code, t). ok (some (code_of last.wait), t))
  unfolding base_loop
  base_loop-expires start to [] later last s small on_time (inl fails) = rw fails refl
  base_loop-expires start to [] later last s small on_time (inr too_late) =
      rw (late start to last small too_late) (ground arith)
  base_loop-expires start to (a ∷ rest) later last s small on_time stop =
      rw (on_time.0.0, not_late start to a small on_time.0, not_expired start a.after)
        (bind-bind (dispatch (ready_of a.wait) a.after s) _ _ _
          (λ t. base_loop-expires start to rest later last t small on_time.1 stop))
