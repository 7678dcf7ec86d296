-- ===== src/Timer.antt =====
-- core/timer.h: the time between Start and End.

-- The clock of the machine: its instants, and the count of the time between two of them as a
-- `duration<T>`.
pub record Clock (T : Type 0) : Type 1 where
  pub Instant : Type 0
  pub count_between : Instant → Instant → T

pub record Timer {T : Type 0} (clock : Clock T) : Type 0 where
  pub time : clock.Instant

module _ {T : Type 0} (clock : Clock T) where
  -- Start, where the clock reads `now`
  unfoldable pub start : clock.Instant → Timer clock
  start now = record { time = now }

  -- End
  unfoldable pub stop : Timer clock → clock.Instant → T
  stop timer now = clock.count_between timer.time now
