-- ===== src/Log/Stamp.antt =====
-- src/nth_log.c: what `log_update_time` writes can be read back.
use narthex.Prelude.{ℕ, zero, suc, ◌+◌, ◌-◌, ◌*◌, ◌<◌, ◌≡◌, refl, List, length, get_or, arith}
use narthex.Prelude.Int.{pos, ◌+ℤ◌}
use narthex.Log.{Tm, stamp_of, log_time_size}

-- The number that `n` decimal digits from `i` on write.
abbrev pub number_at : List ℕ → ℕ → ℕ → ℕ
number_at s i zero = 0
number_at s i (suc n) = number_at s i n * 10 + (get_or s (i + n) 0 - b'0')

-- For a year of our calendar up to 9999 and a time of day as localtime_r gives it, the stamp has 19
-- bytes, and its digits read back as the year, the day of the year from 1, the hour, the minute and
-- the second.
pub stamp_of_fields :
    (tm : Tm) (year : ℕ)
    → tm.tm_year +ℤ pos 1900 ≡ pos year
    → year < 10000
    → tm.tm_yday < 366
    → tm.tm_hour < 24
    → tm.tm_min < 60
    → tm.tm_sec < 61
    → (length (stamp_of tm) ≡ log_time_size)
      × (number_at (stamp_of tm) 1 4 ≡ year)
      × (number_at (stamp_of tm) 6 3 ≡ tm.tm_yday + 1)
      × (number_at (stamp_of tm) 10 2 ≡ tm.tm_hour)
      × (number_at (stamp_of tm) 13 2 ≡ tm.tm_min)
      × (number_at (stamp_of tm) 16 2 ≡ tm.tm_sec)
unfolding stamp_of
stamp_of_fields tm year e y d h m s =
    rw e (refl, omega arith, omega arith, omega arith, omega arith, omega arith)
