-- ===== src/Update/Serial.antt =====
-- SOA serial arithmetic of the `update` command (src/commands/update.rs).
pub mod Window
use Prim.Native.Nat.{Ordering}
use dnst.Base.{ℕ, ◌^◌, ◌-◌, Bool, true, false, ◌&&◌, ◌||◌, ltb, ◌==◌, if◌then◌else◌}

abbrev pub serial_bits : ℕ
serial_bits = 32

abbrev pub soa_serial_cutoff : ℕ
soa_serial_cutoff = 2 ^ (serial_bits - 1)

-- The subtractions are guarded by the comparison before them, so `-` on ℕ is exact.
unfoldable pub compare_serial : ℕ → ℕ → Ordering
compare_serial a b =
    if a == b
    then Ordering.eq
    else if (ltb a b && ltb (b - a) soa_serial_cutoff) || (ltb b a && ltb soa_serial_cutoff (a - b))
    then Ordering.lt
    else Ordering.gt

abbrev is_gt : Ordering → Bool
is_gt Ordering.gt = true
is_gt _ = false

-- On the serials of the two SOA records.
unfoldable pub verify_soa_serial_increment : ℕ → ℕ → Bool
unfolding compare_serial
verify_soa_serial_increment old new = is_gt (compare_serial new old)
