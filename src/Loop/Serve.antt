-- ===== src/Loop/Serve.antt =====
-- event_lea.c: lt_base_loop. The answers of epoll_wait, each with the time that lt_gettime reads behind it, are
-- a list; where it ends, the loop waits in epoll_wait. The array of events is as long as an answer.
pub mod Laws
mod Tests
use leactor.Prelude.{
  ℕ, zero, suc, ◌+◌, ◌-◌, ◌*◌, ◌%◌, ◌^◌, ℤ, pos, negsuc, Bool, true, false, Option, none, some, ltb,
  if◌then◌else◌, List, [], ◌∷◌, Run, ok, ◌>>=◌,
}
use leactor.Time.{Time, nanoseconds}
use leactor.Loop.Active.{State, Callbacks, Ready, dispatch}

-- What epoll_wait returns: -1 with EINTR, -1 with another error, or the ready events.
pub data Wait : Type 0 where
  interrupted : Wait
  failed : Wait
  events : List Ready → Wait

pub record Answer : Type 0 where
  pub wait : Wait
  pub after : Time

-- NO_TIMEOUT
abbrev pub no_timeout : ℤ
no_timeout = negsuc 0

-- A signed value as an unsigned 64-bit one.
abbrev pub unsigned : ℤ → ℕ
unsigned (pos n) = n % 2 ^ 64
unsigned (negsuc n) = 2 ^ 64 - 1 - n

-- lt_time_a_sub_b, as an unsigned 64-bit value.
abbrev pub time_a_sub_b : Time → Time → ℕ
time_a_sub_b a b = (nanoseconds a + (2 ^ 64 - nanoseconds b % 2 ^ 64)) % 2 ^ 64

-- time_a_gt_b(diff,>,timeout): the cast of `timeout` makes the comparison one of unsigned values.
abbrev pub expired : (start after : Time) → (timeout : ℤ) → Bool
expired start after timeout = ltb (unsigned timeout) (time_a_sub_b after start)

-- Whether the loop returns -1.
abbrev pub is_failed : Wait → Bool
is_failed failed = true
is_failed interrupted = false
is_failed (events ready) = false

-- The events that lt_loop_init_actlist sees: with -1 of them its loops have no rounds.
abbrev pub ready_of : Wait → List Ready
ready_of (events ready) = ready
ready_of interrupted = []
ready_of failed = []

module _ {W : Type 0} ⦃c : Callbacks W⦄ where
  -- lt_base_loop from its `for` on: the code that is returned, none while the loop goes on.
  unfoldable pub base_loop :
      (start : Time) → (timeout : ℤ) → (answers : List Answer) → State W → Run (Option ℤ × State W)
  base_loop start timeout [] s = ok (none, s)
  base_loop start timeout (a ∷ later) s =
      let rest = dispatch (ready_of a.wait) a.after s >>= base_loop start timeout later in
      if is_failed a.wait
      then ok (some (negsuc 0), s)
      else if expired start a.after timeout
      then ok (some (pos 0), s)
      else rest
