-- ===== src/Time/Order.antt =====
-- timespec_add_usec is exact, and timespec_compare is an order whose last element is (0, 0).
use labcomm_core.Common.{ℕ, ◌+◌, ◌*◌, ◌≤◌, ◌<◌, ◌≡◌, ◌⊎◌, ◌↔◌, arith, pos, ◌≤ℤ◌, ◌<ℤ◌}
use labcomm_core.Time.{Timespec, timespec_add_usec, timespec_compare}

-- Nanoseconds since the epoch.
abbrev pub nanoseconds : Timespec → ℕ
nanoseconds t = t.tv_sec * 1000000000 + t.tv_nsec

-- The nanoseconds are less than a second.
abbrev pub IsNormal : Timespec → Type 0
IsNormal t = t.tv_nsec < 1000000000

-- timespec_add_usec adds exactly the microseconds to the nanoseconds since the epoch, and
-- leaves less than a second of nanoseconds.
pub timespec_add_usec-exact :
    (t : Timespec) (usec : ℕ)
    → (nanoseconds (timespec_add_usec t usec) ≡ nanoseconds t + usec * 1000)
      × IsNormal (timespec_add_usec t usec)
unfolding timespec_add_usec
timespec_add_usec-exact t usec = (omega arith, omega arith)

infix 50 ◌≼◌
-- `t1` is not later than `t2`: the point (0, 0) is the end of time.
abbrev pub ◌≼◌ : Timespec → Timespec → Type 0
t1 ≼ t2 = (nanoseconds t2 ≡ 0) ⊎ ((0 < nanoseconds t1) × (nanoseconds t1 ≤ nanoseconds t2))

-- For two points in time with less than a second of nanoseconds, timespec_compare is at most 0
-- exactly where the second is (0, 0), the end of time, or the first is another point and not
-- later, counted in nanoseconds.
pub timespec_compare-order :
    (t1 t2 : Timespec) → IsNormal t1 → IsNormal t2 → (timespec_compare t1 t2 ≤ℤ pos 0) ↔ (t1 ≼ t2)
unfolding timespec_compare
timespec_compare-order t1 t2 n1 n2 = ground arith

pub timespec_compare-swap :
    (t1 t2 : Timespec) → (timespec_compare t1 t2 <ℤ pos 0) ↔ (pos 0 <ℤ timespec_compare t2 t1)
unfolding timespec_compare
timespec_compare-swap t1 t2 = ground arith
