-- ===== src/MonitoredItem/Time.antt =====
-- Time of OPC UA, in ticks of 100 ns since 1601, and microseconds since 1970.
use opc_ua_modules.Base.{ℕ, ◌+◌, ◌*◌, ◌^◌, ◌<◌, ◌≤◌, ◌≡◌, arith}
use opc_ua_modules.Base.Int.{pos, ◌+ℤ◌}
use opc_ua_modules.MonitoredItem.Values.{
  unix_epoch, ticks_per_us, quot_us, since_epoch_us, as_uint64, as_int64, to_unix_time_us,
  from_unix_time_us,
}

to_unix_time_us-from_unix_time_us :
    (us : ℕ) → us * ticks_per_us + unix_epoch < 2 ^ 63 → to_unix_time_us (from_unix_time_us us) ≡ us
unfolding to_unix_time_us from_unix_time_us as_int64 since_epoch_us quot_us as_uint64 ◌+ℤ◌
to_unix_time_us-from_unix_time_us us h = ground arith

round_down :
    (date : ℕ)
    → unix_epoch ≤ date
    → date < 2 ^ 63
    → (to_unix_time_us (pos date) * ticks_per_us + unix_epoch ≤ date)
      × (date < to_unix_time_us (pos date) * ticks_per_us + unix_epoch + ticks_per_us)
unfolding to_unix_time_us since_epoch_us quot_us as_uint64 ◌+ℤ◌
round_down date h l = (ground arith, ground arith)

-- A time from 1970 on converts to the microseconds that have passed, rounded down, and microseconds
-- that fit in the stack's signed time survive the conversion there and back.
pub to_unix_time_us_lem :
    (date us : ℕ)
    → unix_epoch ≤ date
    → date < 2 ^ 63
    → us * ticks_per_us + unix_epoch < 2 ^ 63
    → (to_unix_time_us (pos date) * ticks_per_us + unix_epoch ≤ date)
      × (date < to_unix_time_us (pos date) * ticks_per_us + unix_epoch + ticks_per_us)
      × (to_unix_time_us (from_unix_time_us us) ≡ us)
to_unix_time_us_lem date us h l fits =
    let (below, above) = round_down date h l in
    (below, above, to_unix_time_us-from_unix_time_us us fits)
