-- ===== src/Range/Print.antt =====
-- How examples/main.c prints the CPUs of an instance in `list_events`.
use pmu_events.Base.{[], ◌∷◌, ◌++◌, ◌≡◌, refl, ◌==◌, if◌then◌else◌, Bytes, codes}
use pmu_events.Libc.Print.{print}
use pmu_events.Range.{Range, RangeList, range}

unfoldable pub print_range : Range → Bytes
print_range r =
    if r.start == r.end then print 10 r.start else print 10 r.start ++ b'-' ∷ print 10 r.end

unfoldable pub print_cpus : RangeList → Bytes
print_cpus [] = []
print_cpus (r ∷ []) = print_range r
print_cpus (r ∷ q ∷ ranges) = print_range r ++ b',' ∷ b' ' ∷ print_cpus (q ∷ ranges)

two_ranges : print_cpus (range 0 7 ∷ range 16 16 ∷ []) ≡ codes "0-7, 16"
unfolding print_cpus print_range print
two_ranges = refl
