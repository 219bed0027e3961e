-- ===== src/Time.antt =====
-- lib/c/2014/labcomm2014_pthread_scheduler.c: points in time, timespec_add_usec and
-- timespec_compare. `time_t` and `long` are taken as wide enough for what they hold.
pub mod Order
use labcomm_core.Common.{
  ℕ, ◌+◌, ◌*◌, ◌/◌, ◌%◌, ◌<◌, ◌≡◌, Bool, ◌&&◌, arith, if◌then◌else◌, ltb, ◌==◌, ℤ, pos, negsuc,
}

pub record Timespec : Type 0 where
  pub tv_sec : ℕ
  pub tv_nsec : ℕ

-- The queue's sentinel carries this point in time.
abbrev pub end_of_time : Timespec
end_of_time = record { tv_sec = 0; tv_nsec = 0 }

unfoldable pub timespec_add_usec : Timespec → ℕ → Timespec
timespec_add_usec t usec =
    let nsec = t.tv_nsec + (usec % 1000000) * 1000 in
    record { tv_sec = t.tv_sec + (usec / 1000000 + nsec / 1000000000); tv_nsec = nsec % 1000000000 }

unfoldable pub timespec_compare : Timespec → Timespec → ℤ
timespec_compare t1 t2 =
    if (t1.tv_sec == t2.tv_sec) && (t1.tv_nsec == t2.tv_nsec)
    then pos 0
    else if (t1.tv_sec == 0) && (t1.tv_nsec == 0)
    then pos 1
    else if (t2.tv_sec == 0) && (t2.tv_nsec == 0)
    then negsuc 0
    else if ltb t1.tv_sec t2.tv_sec
    then negsuc 0
    else if t1.tv_sec == t2.tv_sec
    then (if ltb t1.tv_nsec t2.tv_nsec
        then negsuc 0
        else if t1.tv_nsec == t2.tv_nsec
        then pos 0
        else pos 1)
    else pos 1
