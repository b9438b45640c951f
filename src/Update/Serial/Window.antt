-- ===== src/Update/Serial/Window.antt =====
-- Which serials the `update` command accepts as an increment, and where the comparison is not an
-- order (src/commands/update.rs, compare_serial and verify_soa_serial_increment).
use Prim.Native.Nat.{Ordering}
use dnst.Base.{ℕ, ◌+◌, ◌-◌, ◌%◌, ◌^◌, ◌≤◌, ◌<◌, ◌≡◌, ◌≢◌, ◌↔◌, true, arith}
use dnst.Update.Serial.{compare_serial, verify_soa_serial_increment}

-- How far `new` is ahead of `old` on the circle of 32-bit serials.
abbrev pub ahead : ℕ → ℕ → ℕ
ahead old new = (new + 2 ^ 32 - old) % 2 ^ 32

abbrev pub flip_ordering : Ordering → Ordering
flip_ordering Ordering.lt = Ordering.gt
flip_ordering Ordering.eq = Ordering.eq
flip_ordering Ordering.gt = Ordering.lt

module _ (old new : ℕ) (old_fits : old < 2 ^ 32) (new_fits : new < 2 ^ 32) where
  -- For 32-bit serials, the increment check passes exactly when the new serial is between 1 and
  -- 2^31 steps ahead of the old one, modulo 2^32.
  pub verify_soa_serial_increment_iff :
      (verify_soa_serial_increment old new ≡ true)
      ↔ ((0 < ahead old new) × (ahead old new ≤ 2 ^ 31))
  unfolding verify_soa_serial_increment
  verify_soa_serial_increment_iff = ground arith

  -- For 32-bit serials that are not exactly 2^31 apart, swapping the arguments of the comparison
  -- reverses its answer.
  pub compare_serial-flip :
      ahead old new ≢ 2 ^ 31 → compare_serial new old ≡ flip_ordering (compare_serial old new)
  unfolding compare_serial
  compare_serial-flip apart = ground arith

  -- For 32-bit serials exactly 2^31 apart, each of the two is accepted as an increment of the other.
  pub verify_soa_serial_increment-both :
      ahead old new ≡ 2 ^ 31
      → (verify_soa_serial_increment old new ≡ true) × (verify_soa_serial_increment new old ≡ true)
  unfolding verify_soa_serial_increment
  verify_soa_serial_increment-both apart = ground arith
