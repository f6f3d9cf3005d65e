-- ===== src/Bitbang/Period.antt =====
-- The bit period: bitbang_uart_set_period of uart.c, and the attributes of bitbang-sysfs.c.
use testings.Prelude.{ℕ, ◌*◌, ◌/◌, ◌≤◌, ◌≡◌, ◌||◌, arith, ltb, ◌==◌, if◌then◌else◌}
use testings.Prelude.Int.{ℤ, pos, is_nonzero}
use testings.Kernel.Errno.{erange}

-- `period_ms` of `struct bitbang_priv`, and the two times of `struct bitbang_uart` in nanoseconds;
-- `dbg_lvl` is the module's DBG_LVL.
pub record Timing : Type 0 where
  pub period_ms : ℕ
  pub period : ℕ
  pub half_period : ℕ
  pub dbg_lvl : ℕ

-- ms_to_ktime, and ktime_divns by 2
unfoldable pub bitbang_uart_set_period : Timing → Timing
bitbang_uart_set_period t =
    if t.period_ms == 0 || ltb 1000 t.period_ms
    then t
    else record t { period = t.period_ms * 1000000; half_period = t.period_ms * 1000000 / 2 }

-- `ret` and `v` are what kstrtouint returns and stores.
unfoldable pub period_store : ℤ → ℕ → ℕ → Timing → ℤ × Timing
unfolding bitbang_uart_set_period
period_store ret v count t =
    if is_nonzero ret
    then (ret, t)
    else if ltb v 1 || ltb 1000 v
    then (erange, t)
    else (pos count, bitbang_uart_set_period (record t { period_ms = v }))

unfoldable pub dbg_store : ℤ → ℕ → ℕ → Timing → ℤ × Timing
dbg_store ret v count t =
    if is_nonzero ret
    then (ret, t)
    else if ltb 10 v
    then (erange, t)
    else (pos count, record t { dbg_lvl = v })

-- What bitbang_probe and bitbang_uart_init make of the module's parameter: 0 is replaced by
-- PERIOD_MS, and the times are zero before bitbang_uart_set_period.
unfoldable pub init_period : ℕ → ℕ → Timing
unfolding bitbang_uart_set_period
init_period param dbg = bitbang_uart_set_period (record {
  period_ms = if param == 0 then 10 else param;
  period = 0;
  half_period = 0;
  dbg_lvl = dbg;
})

-- The times belong to a number of milliseconds between 1 and 1000.
pub record IsTimed (t : Timing) : Type 0 where
  pub positive : 1 ≤ t.period_ms
  pub small : t.period_ms ≤ 1000
  pub exact : t.period ≡ t.period_ms * 1000000
  pub half : t.half_period * 2 ≡ t.period

-- A store to either attribute keeps the bit times those of a number of milliseconds between 1 and
-- 1000, whatever is written.
pub stores-IsTimed :
    (ret : ℤ) (v count : ℕ) (t : Timing)
    → IsTimed t
    → IsTimed (period_store ret v count t).1 × IsTimed (dbg_store ret v count t).1
unfolding period_store dbg_store
stores-IsTimed ret v count t h = ground arith

-- A store to `period` that parses succeeds exactly for 1 to 1000, and then sets the period; else
-- it returns -ERANGE and changes nothing.
pub period_store_lem :
    (v count : ℕ) (t : Timing)
    → period_store (pos 0) v count t ≡ (
        if ltb 0 v
        then (if ltb v 1001
            then (
              pos count,
              record t { period_ms = v; period = v * 1000000; half_period = v * 500000 },
            )
            else (erange, t))
        else (erange, t))
unfolding period_store
period_store_lem v count t = ground arith

-- The module's parameter is used as it is from 1 to 1000, as 10 if it is 0, and above 1000 both
-- times stay 0.
pub init_period_lem :
    (param dbg : ℕ)
    → ((init_period param dbg).period
        ≡ (if param == 0 then 10000000 else if ltb 1000 param then 0 else param * 1000000))
      × ((init_period param dbg).half_period * 2 ≡ (init_period param dbg).period)
unfolding init_period
init_period_lem param dbg = ground arith
