-- ===== src/Event/Flags.antt =====
-- The flags of an `IOEvent`.
use Prim.Native.Nat.{bit_and, bit_or}
use zrh_rtsp_server.Prelude.{
  ℕ, ◌+◌, ◌*◌, ◌/◌, ◌%◌, ◌<◌, ◌≡◌, refl, true, false, ◌==◌, if◌then◌else◌, arith,
}
use zrh_rtsp_server.Bits.{agree, agree-lookup}
use zrh_rtsp_server.Event.{
  IoEvent, event_read, event_write, event_error, enable, disable, is_handling,
}

-- The three flags as digits.
and_read : (x : ℕ) → x < 8 → bit_and x 1 ≡ x % 2
unfolding agree
and_read _ = agree-lookup (λ x. bit_and x 1) (λ x. x % 2) 8 refl

and_write : (x : ℕ) → x < 8 → bit_and x 2 ≡ x / 2 % 2 * 2
unfolding agree
and_write _ = agree-lookup (λ x. bit_and x 2) (λ x. x / 2 % 2 * 2) 8 refl

and_error : (x : ℕ) → x < 8 → bit_and x 4 ≡ x / 4 % 2 * 4
unfolding agree
and_error _ = agree-lookup (λ x. bit_and x 4) (λ x. x / 4 % 2 * 4) 8 refl

or_read : (x : ℕ) → x < 8 → bit_or x 1 ≡ x / 2 * 2 + 1
unfolding agree
or_read _ = agree-lookup (λ x. bit_or x 1) (λ x. x / 2 * 2 + 1) 8 refl

or_write : (x : ℕ) → x < 8 → bit_or x 2 ≡ x / 4 * 4 + 2 + x % 2
unfolding agree
or_write _ = agree-lookup (λ x. bit_or x 2) (λ x. x / 4 * 4 + 2 + x % 2) 8 refl

or_error : (x : ℕ) → x < 8 → bit_or x 4 ≡ 4 + x % 4
unfolding agree
or_error _ = agree-lookup (λ x. bit_or x 4) (λ x. 4 + x % 4) 8 refl

without_read : (x : ℕ) → x < 8 → bit_and x 0xfffffffe ≡ x / 2 * 2
unfolding agree
without_read _ = agree-lookup (λ x. bit_and x 0xfffffffe) (λ x. x / 2 * 2) 8 refl

without_write : (x : ℕ) → x < 8 → bit_and x 0xfffffffd ≡ x / 4 * 4 + x % 2
unfolding agree
without_write _ = agree-lookup (λ x. bit_and x 0xfffffffd) (λ x. x / 4 * 4 + x % 2) 8 refl

without_error : (x : ℕ) → x < 8 → bit_and x 0xfffffffb ≡ x % 4
unfolding agree
without_error _ = agree-lookup (λ x. bit_and x 0xfffffffb) (λ x. x % 4) 8 refl

pub data IsFlag (flag : ℕ) : Type 0 where
  read : flag ≡ event_read → IsFlag flag
  write : flag ≡ event_write → IsFlag flag
  error : flag ≡ event_error → IsFlag flag

module _ {C : Type 0} (e : IoEvent C) (small : e.event < 8) where
  -- Enabling or disabling one of the three handlings of an event turns that one on or off and leaves the
  -- other two as they were, and the event keeps to the three flags.
  pub enable-disable :
      (flag other : ℕ)
      → IsFlag flag
      → IsFlag other
      → (is_handling other (enable flag e) ≡ (if other == flag then true else is_handling other e))
        × (is_handling other (disable flag e)
            ≡ (if other == flag then false else is_handling other e))
        × ((enable flag e).event < 8)
        × ((disable flag e).event < 8)
  unfolding enable disable is_handling
  enable-disable flag other (read f) (read g) =
      let x = e.event in
      rw (f, g)
        (ground (
          arith,
          or_read x small,
          without_read x small,
          and_read x small,
          and_read (x / 2 * 2 + 1) (omega arith),
          and_read (x / 2 * 2) (omega arith),
        ))
  enable-disable flag other (read f) (write g) =
      let x = e.event in
      rw (f, g)
        (ground (
          arith,
          or_read x small,
          without_read x small,
          and_write x small,
          and_write (x / 2 * 2 + 1) (omega arith),
          and_write (x / 2 * 2) (omega arith),
        ))
  enable-disable flag other (read f) (error g) =
      let x = e.event in
      rw (f, g)
        (ground (
          arith,
          or_read x small,
          without_read x small,
          and_error x small,
          and_error (x / 2 * 2 + 1) (omega arith),
          and_error (x / 2 * 2) (omega arith),
        ))
  enable-disable flag other (write f) (read g) =
      let x = e.event in
      rw (f, g)
        (ground (
          arith,
          or_write x small,
          without_write x small,
          and_read x small,
          and_read (x / 4 * 4 + 2 + x % 2) (omega arith),
          and_read (x / 4 * 4 + x % 2) (omega arith),
        ))
  enable-disable flag other (write f) (write g) =
      let x = e.event in
      rw (f, g)
        (ground (
          arith,
          or_write x small,
          without_write x small,
          and_write x small,
          and_write (x / 4 * 4 + 2 + x % 2) (omega arith),
          and_write (x / 4 * 4 + x % 2) (omega arith),
        ))
  enable-disable flag other (write f) (error g) =
      let x = e.event in
      rw (f, g)
        (ground (
          arith,
          or_write x small,
          without_write x small,
          and_error x small,
          and_error (x / 4 * 4 + 2 + x % 2) (omega arith),
          and_error (x / 4 * 4 + x % 2) (omega arith),
        ))
  enable-disable flag other (error f) (read g) =
      let x = e.event in
      rw (f, g)
        (ground (
          arith,
          or_error x small,
          without_error x small,
          and_read x small,
          and_read (4 + x % 4) (omega arith),
          and_read (x % 4) (omega arith),
        ))
  enable-disable flag other (error f) (write g) =
      let x = e.event in
      rw (f, g)
        (ground (
          arith,
          or_error x small,
          without_error x small,
          and_write x small,
          and_write (4 + x % 4) (omega arith),
          and_write (x % 4) (omega arith),
        ))
  enable-disable flag other (error f) (error g) =
      let x = e.event in
      rw (f, g)
        (ground (
          arith,
          or_error x small,
          without_error x small,
          and_error x small,
          and_error (4 + x % 4) (omega arith),
          and_error (x % 4) (omega arith),
        ))
