-- ===== src/Time/Laws.antt =====
-- What the time arithmetic of event_lea.c computes.
use leactor.Prelude.{
  ℕ, zero, suc, ◌+◌, ◌-◌, ◌*◌, ◌/◌, ◌%◌, ◌≤◌, ◌<◌, ◌≡◌, ◌↔◌, ◌≢◌, true, arith, ltb, ◌^◌, refl, ok,
}
use leactor.Time.{Time, second, nanoseconds, differs, carry_seconds, time_addition, check_timeout}

-- The loop conserves the instant, and with enough rounds it ends by its test.
carry_seconds_lem :
    (k nsec sec : ℕ)
    → nsec / second ≤ k
    → (nanoseconds (carry_seconds k nsec sec) ≡ sec * second + nsec)
      × ((carry_seconds k nsec sec).tv_nsec ≤ second)
      × ((carry_seconds k nsec sec).tv_nsec ≤ nsec)
      × (0 < nsec → 0 < (carry_seconds k nsec sec).tv_nsec)
unfolding carry_seconds
carry_seconds_lem zero nsec sec h = omega arith
carry_seconds_lem (suc k) nsec sec h = ground (arith, carry_seconds_lem k (nsec - second) (sec + 1))

-- lt_time_addition, where the nanoseconds and the seconds of the sum are below 2 ^ 63, adds `to` nanoseconds to the instant: the result stands for the sum, its nanosecond
-- field is at most a whole second, and it is a whole second exactly when the nanoseconds to add up
-- are a positive multiple of one.
pub time_addition-sum :
    (t : Time) (to : ℕ)
    → to + t.tv_nsec < 2 ^ 63
    → t.tv_sec + (to + t.tv_nsec) / second < 2 ^ 63
    → (sum : Time) × (time_addition t to ≡ ok sum)
      × (nanoseconds sum ≡ nanoseconds t + to)
      × (sum.tv_nsec ≤ second)
      × ((sum.tv_nsec ≡ second) ↔ ((0 < to + t.tv_nsec) × ((to + t.tv_nsec) % second ≡ 0)))
unfolding time_addition
time_addition-sum t to small few =
    let r = carry_seconds_lem ((to + t.tv_nsec) / second) (to + t.tv_nsec) t.tv_sec (omega arith) in
    let sum = carry_seconds ((to + t.tv_nsec) / second) (to + t.tv_nsec) t.tv_sec in
    let nsec_fits : ltb (to + t.tv_nsec) (2 ^ 63) ≡ true = ground arith in
    let sec_fits : ltb sum.tv_sec (2 ^ 63) ≡ true = ground (arith, r.0) in
    (
      sum,
      rw (nsec_fits, sec_fits) refl,
      omega (arith, r.0),
      r.1,
      ((λ e. (omega arith, omega arith)), (λ e. omega (arith, r.3 e.0))),
    )

-- For times whose nanosecond fields are below a second, lt_ev_check_timeout answers 1 exactly when the
-- end time has NOT yet passed: when it is at or after the present instant.
check_timeout-ahead :
    (endtime nowtime : Time)
    → endtime.tv_nsec < second
    → nowtime.tv_nsec < second
    → (check_timeout endtime nowtime ≡ true) ↔ (nanoseconds nowtime ≤ nanoseconds endtime)
unfolding check_timeout
check_timeout-ahead e n p q = ground arith

-- `differs` is the test that the two instants are not the same.
pub differs_iff : (a b : Time) → (differs a b ≡ true) ↔ (nanoseconds a ≢ nanoseconds b)
unfolding differs
differs_iff a b = ground arith
