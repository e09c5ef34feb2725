-- ===== src/Time.antt =====
-- The time arithmetic of event_lea.c. The fields of a `struct timespec` of the monotonic clock are
-- not negative, so they are numbers here, and a signed difference is compared with 0 by comparing
-- its two terms.
use leactor.Prelude.{
  ℕ, zero, suc, ◌+◌, ◌-◌, ◌*◌, ◌/◌, Bool, true, false, ltb, leb, ◌==◌, not, if◌then◌else◌, ◌^◌, Run,
  ok, undefined,
}
pub mod Laws

pub record Time : Type 0 where
  pub tv_sec : ℕ
  pub tv_nsec : ℕ

abbrev pub second : ℕ
second = 1_000_000_000

-- The instant in nanoseconds.
abbrev pub nanoseconds : Time → ℕ
nanoseconds t = t.tv_sec * second + t.tv_nsec

-- Whether lt_time_a_sub_b(a, b) is not 0, which is all that its caller in the heap tests.
unfoldable pub differs : Time → Time → Bool
differs a b = not (a.tv_sec * second + a.tv_nsec == b.tv_sec * second + b.tv_nsec)

-- The loop of lt_time_addition, with the rounds that are left.
unfoldable pub carry_seconds : ℕ → ℕ → ℕ → Time
carry_seconds zero nsec sec = record { tv_sec = sec; tv_nsec = nsec }
carry_seconds (suc k) nsec sec =
    if ltb second nsec
    then carry_seconds k (nsec - second) (sec + 1)
    else record { tv_sec = sec; tv_nsec = nsec }

-- lt_time_addition. The sums are of type `long`: beyond it they are undefined. There are at most
-- `nsec` / 10 ^ 9 carries, so the seconds are tested once.
unfoldable pub time_addition : Time → ℕ → Run Time
unfolding carry_seconds
time_addition time to =
    let nsec = to + time.tv_nsec in
    let sum = carry_seconds (nsec / second) nsec time.tv_sec in
    if ltb nsec (2 ^ 63) then (if ltb sum.tv_sec (2 ^ 63) then ok sum else undefined) else undefined

-- lt_ev_check_timeout on the event's `endtime`.
unfoldable pub check_timeout : Time → Time → Bool
check_timeout endtime nowtime =
    if ltb nowtime.tv_sec endtime.tv_sec
    then true
    else if nowtime.tv_sec == endtime.tv_sec
    then (if leb nowtime.tv_nsec endtime.tv_nsec then true else false)
    else false
