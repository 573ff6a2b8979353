-- ===== src/Sim/Windows/Wait.antt =====
-- The busy wait of simulate_transfer_delay of sim/windows_sim.c.
use native.Mathlib.Nat.{suc-mul}
use pcie_sim.Base.{
  ℕ, ◌+◌, ◌*◌, ◌/◌, ◌≤◌, ◌<◌, ◌≡◌, refl, zero, suc, Option, none, some, ltb, arith, if◌then◌else◌,
  Bool-cases, inl, inr, dec_lt, subst, ◌>>=◌, ◌^◌, ◌≢◌, true,
}

-- `target_ticks`: `none` where the product does not fit into a LONGLONG, which is undefined.
unfoldable pub target_ticks : ℕ → ℕ → Option ℕ
target_ticks delay_us frequency =
    if ltb (delay_us * frequency) (2 ^ 63) then some ((delay_us * frequency) / 1000000) else none

-- The do-while loop, with a bound on the readings of the counter, from the `k`-th reading on: the
-- number of the reading that ends it.
unfoldable pub busy_wait : (ℕ → ℕ) → ℕ → ℕ → ℕ → ℕ → Option ℕ
busy_wait counter start target zero k = none
busy_wait counter start target (suc bound) k =
    let again = busy_wait counter start target bound (k + 1) in
    if ltb (counter k) (start + target) then again else some k

-- The wait for some microseconds, with a bound on the readings.
unfoldable pub delay_for : (ℕ → ℕ) → ℕ → ℕ → ℕ → ℕ → Option ℕ
unfolding target_ticks busy_wait
delay_for counter start delay_us frequency bound =
    target_ticks delay_us frequency >>= (λ target. busy_wait counter start target bound 0)

-- The loop ended with reading `n`, and with none before.
pub record EndsAt (counter : ℕ → ℕ) (start target k n : ℕ) : Type 0 where
  pub after : k ≤ n
  pub elapsed : start + target ≤ counter n
  pub first : (j : ℕ) → k ≤ j → j < n → counter j < start + target

busy_wait-EndsAt :
    (counter : ℕ → ℕ) (start target bound k m : ℕ)
    → start + target ≤ counter m
    → k ≤ m
    → m < k + bound
    → (n : ℕ) × (busy_wait counter start target bound k ≡ some n)
      × (n ≤ m)
      × EndsAt counter start target k n
unfolding busy_wait
busy_wait-EndsAt counter start target zero k m past le l = absurd (omega (arith, le, l))
busy_wait-EndsAt counter start target (suc bound) k m past le l =
    elim (Bool-cases (ltb (counter k) (start + target))) [
      | inl again ↦
          let early : counter k < start + target = ground (arith, again) in
          let apart : k ≢ m =
            λ e. absurd (omega (arith, past, subst (λ x. counter x < start + target) e early)) in
          let (n, e, le', w) =
            busy_wait-EndsAt counter start target bound (k + 1) m past (omega (arith, le, apart))
              (omega (arith, l)) in
          (
            n,
            rw (busy_wait, again) e,
            le',
            record {
              after = omega (arith, w.after);
              elapsed = w.elapsed;
              first = (λ j h h'. elim (dec_lt k j) [
                | yes more ↦ w.first j (omega (arith, more)) h'
                | no not_more ↦
                    let same : k ≡ j = omega (arith, h, not_more) in
                    subst (λ x. counter x < start + target) same early
              ]);
            },
          )
      | inr over ↦ (
        k,
        rw (busy_wait, over) refl,
        le,
        record {
          after = omega arith;
          elapsed = ground (arith, over);
          first = (λ j h h'. absurd (omega (arith, h, h')));
        },
      )
    ]

-- A counter that ticks at least once in so many readings, from its start on; readings may be equal.
pub record Ticks (counter : ℕ → ℕ) (start readings : ℕ) : Type 0 where
  pub starts : start ≤ counter 0
  pub keeps : (j : ℕ) → counter j ≤ counter (j + 1)
  pub ticks : (j : ℕ) → counter j < counter (j + readings)

Ticks-reaches :
    (counter : ℕ → ℕ) (start readings n : ℕ)
    → Ticks counter start readings
    → start + n ≤ counter (n * readings)
Ticks-reaches counter start readings zero t =
    let none_left : zero * readings ≡ 0 = omega arith in rw none_left (omega (arith, t.starts))
Ticks-reaches counter start readings (suc n) t =
    let next : suc n * readings ≡ n * readings + readings = suc-mul n readings in
    rw next (omega (arith, Ticks-reaches counter start readings n t, t.ticks (n * readings)))

-- If the ticks of a delay fit into a LONGLONG, and the performance counter never runs backwards and
-- ticks at least once in so many readings, the busy wait ends: within as many readings for each tick
-- of the delay, and one more, at the first reading that is so many ticks past the start.
pub busy_wait_ends :
    (counter : ℕ → ℕ) (start delay_us frequency readings : ℕ)
    → Ticks counter start readings
    → delay_us * frequency < 2 ^ 63
    → let target = (delay_us * frequency) / 1000000 in
      (n : ℕ) × (delay_for counter start delay_us frequency (target * readings + 1) ≡ some n)
      × (n ≤ target * readings)
      × EndsAt counter start target 0 n
unfolding delay_for target_ticks
busy_wait_ends counter start delay_us frequency readings t fits =
    let target = (delay_us * frequency) / 1000000 in
    let small : ltb (delay_us * frequency) (2 ^ 63) ≡ true = ground (arith, fits) in
    let (n, e, le, w) =
      busy_wait-EndsAt counter start target (target * readings + 1) 0 (target * readings)
        (Ticks-reaches counter start readings target t) (omega arith) (omega arith) in
    (n, rw (delay_for, small) e, le, w)
