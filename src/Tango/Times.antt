-- ===== src/Tango/Times.antt =====
-- The conversions of time, there and back.
use nds.Prelude.{◌+◌, ◌*◌, ◌/◌, ◌≤◌, ◌<◌, ◌≡◌, refl, ap, arith}
use nds.Types.{Timespec}
use nds.Tango.{Timeval, nds_time_to_tango_time, tango_time_to_nds_time}

-- A time from TANGO comes back as it was. A time of a PV, with less than a second of nanoseconds, has
-- less than a second of microseconds for TANGO, and comes back with what is below a microsecond cut off.
pub nds_time_to_tango_time-tango_time_to_nds_time :
    (v : Timeval) (t : Timespec)
    → t.tv_nsec < 1000000000
    → let back = tango_time_to_nds_time (nds_time_to_tango_time t) in
      (nds_time_to_tango_time (tango_time_to_nds_time v) ≡ v)
      × ((nds_time_to_tango_time t).tv_usec < 1000000)
      × (back.tv_sec ≡ t.tv_sec)
      × (back.tv_nsec ≤ t.tv_nsec)
      × (t.tv_nsec < back.tv_nsec + 1000)
unfolding nds_time_to_tango_time tango_time_to_nds_time
nds_time_to_tango_time-tango_time_to_nds_time v t h =
    let same : v.tv_usec * 1000 / 1000 ≡ v.tv_usec = omega arith in
    (
      ap (λ n. (record { tv_sec = v.tv_sec; tv_usec = n })) same,
      omega arith,
      refl,
      omega arith,
      omega arith,
    )
