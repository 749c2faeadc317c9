-- ===== src/Am/Timer/Uptime.antt =====
-- The time that `read_time` returns, and the uptime.
use ysyxworkbench.Prelude.{
  ℕ, zero, suc, ◌+◌, ◌-◌, ◌*◌, ◌/◌, ◌%◌, ◌^◌, ◌<◌, ◌≤◌, ◌≡◌, refl, ap, ◌∙◌, inl, inr, true, false,
  ok, arith, ◌==◌, Bool-cases, bit_or,
}
use ysyxworkbench.Prelude.Bits.{or_fields}
use ysyxworkbench.Device.Map.{io_space_max}
use ysyxworkbench.Am.Timer.{Clock, Timer, read_time, am_timer_init, am_timer_uptime}
use ysyxworkbench.Am.Timer.Latch.{inl_rtc-high, inl_rtc-low}

module _ (base : ℕ) (now : ℕ → ℕ) (fits : base + 8 ≤ io_space_max)
    (small : (i : ℕ) → now i < 2 ^ 64) where
  -- The two words that the first two reads of a round return.
  abbrev joined : ℕ → ℕ
  joined i = bit_or (now i / 2 ^ 32 * 2 ^ 32) (now i % 2 ^ 32)

  joined_lem : (i : ℕ) → joined i ≡ now i
  joined_lem i = or_fields 32 (now i / 2 ^ 32) (now i % 2 ^ 32) (omega arith) ∙ omega arith

  -- One round: its three reads, and what follows them.
  round :
      (fuel : ℕ) (c : Clock)
      → (c3 : Clock) × (c3.reads ≡ c.reads + 3)
        × (read_time base now (suc fuel) c
            ≡ elim (now c.reads / 2 ^ 32 == now (c.reads + 2) / 2 ^ 32) [
              | true ↦ ok (joined c.reads, c3)
              | false ↦ read_time base now fuel c3
            ])
  unfolding read_time
  round fuel c =
      let (c1, high, reads1, low1) = inl_rtc-high base now fits c (small c.reads) in
      let (c2, low, reads2) = inl_rtc-low base now fits c1 (now c.reads % 2 ^ 32) low1 in
      let (c3, check, reads3, _) = inl_rtc-high base now fits c2 (small c2.reads) in
      let second : c2.reads ≡ c.reads + 2 = omega (arith, reads1, reads2) in
      let check' = check ∙ ap (λ (i : ℕ). ok (now i / 2 ^ 32, c3)) second in
      (c3, omega (arith, reads1, reads2, reads3), rw (high, low, check') refl)

  -- The high words of the round that starts at read `i` agree.
  abbrev pub Agrees : ℕ → Type 0
  Agrees i = now i / 2 ^ 32 ≡ now (i + 2) / 2 ^ 32

  Agrees-later :
      (k i : ℕ) → Agrees (i + 3 * k) → (now i / 2 ^ 32 == now (i + 2) / 2 ^ 32) ≡ false → 0 < k
  Agrees-later zero i agree torn =
      let agree' : Agrees i =
        ap (λ (n : ℕ). now n / 2 ^ 32) (omega arith)
        ∙ agree
        ∙ ap (λ (n : ℕ). now (n + 2) / 2 ^ 32) (omega arith) in
      ground (arith, torn, agree')
  Agrees-later (suc k) i agree torn = omega arith

  -- The clock gives a 64-bit time at every read, and its registers are inside `io_space`. When the
  -- high words of round `k`, counted from 0, agree, and there is fuel for `k` + 1 rounds,
  -- `read_time` returns the time that the first read of some round up to `k` has latched.
  pub read_time_lem :
      (fuel k : ℕ) (c : Clock)
      → k < fuel
      → Agrees (c.reads + 3 * k)
      → (j : ℕ) × (c' : Clock) × (j ≤ k)
        × (read_time base now fuel c ≡ ok (now (c.reads + 3 * j), c'))
        × (c'.reads ≡ c.reads + 3 * j + 3)
  read_time_lem zero k c enough agree = absurd (omega arith)
  read_time_lem (suc fuel) k c enough agree =
      let (c3, reads, runs) = round fuel c in
      elim (Bool-cases (now c.reads / 2 ^ 32 == now (c.reads + 2) / 2 ^ 32)) [
        | inl same ↦ (
          0,
          c3,
          omega arith,
          runs ∙ rw same (ap (λ (v : ℕ). ok (v, c3)) (joined_lem c.reads ∙ ap now (omega arith))),
          omega (arith, reads),
        )
        | inr torn ↦
            let later : 0 < k = Agrees-later k c.reads agree torn in
            let same_read : c3.reads + 3 * (k - 1) ≡ c.reads + 3 * k = omega (arith, reads) in
            let (j, c', upto, ends, reads') =
              read_time_lem fuel (k - 1) c3 (omega arith) (rw same_read agree) in
            let next : c3.reads + 3 * j ≡ c.reads + 3 * (j + 1) = omega (arith, reads) in
            (
              j + 1,
              c',
              omega (arith, upto, later),
              runs ∙ rw torn (ends ∙ ap (λ (i : ℕ). ok (now i, c')) next),
              omega (arith, reads, reads'),
            )
      ]

  -- The clock gives a 64-bit time at every read, which does not go back, and its registers are
  -- inside `io_space`. From every read on there is fuel for the rounds up to one whose high words
  -- agree. Then `__am_timer_init` and, after it, `__am_timer_uptime` return. Each makes a whole number
  -- of rounds of three reads, and the uptime is the time at the first read of the last round of
  -- `__am_timer_uptime`, read `j`, less the boot time, which is the time at the first read of the last
  -- round of `__am_timer_init`, read `i`.
  pub am_timer_uptime-elapsed :
      (fuel : ℕ) (t : Timer)
      → ((i j : ℕ) → i ≤ j → now i ≤ now j)
      → ((i : ℕ) → (k : ℕ) × (k < fuel) × Agrees (i + 3 * k))
      → (t1 : Timer) × (t2 : Timer) × (i : ℕ) × (j : ℕ) × (rounds : ℕ) × (rounds' : ℕ)
        × (am_timer_init base now fuel t ≡ ok t1)
        × (am_timer_uptime base now fuel t1 ≡ ok (now j - now i, t2))
        × (t1.boot_time ≡ now i)
        × (i ≡ t.clock.reads + 3 * rounds)
        × (t1.clock.reads ≡ i + 3)
        × (j ≡ t1.clock.reads + 3 * rounds')
        × (t2.clock.reads ≡ j + 3)
  unfolding am_timer_init am_timer_uptime
  am_timer_uptime-elapsed fuel t grows steady =
      let (k, enough, agree) = steady t.clock.reads in
      let (i, c1, upto, first, reads1) = read_time_lem fuel k t.clock enough agree in
      let (k', enough', agree') = steady c1.reads in
      let (j, c2, upto', second, reads2) = read_time_lem fuel k' c1 enough' agree' in
      let from = t.clock.reads + 3 * i in
      let to = c1.reads + 3 * j in
      let up : now from ≤ now to = grows from to (omega (arith, reads1)) in
      let fits64 : now to < 2 ^ 64 = small to in
      let same : (now to + 2 ^ 64 - now from) % 2 ^ 64 ≡ now to - now from = omega arith in
      (
        record { clock = c1; boot_time = now from },
        record { clock = c2; boot_time = now from },
        from,
        to,
        i,
        j,
        rw first refl,
        rw (second, same) refl,
        refl,
        refl,
        reads1,
        refl,
        reads2,
      )
