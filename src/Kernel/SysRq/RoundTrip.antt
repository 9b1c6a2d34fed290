-- ===== src/Kernel/SysRq/RoundTrip.antt =====
-- `SysRq`: the number that is written, and the numbers that are accepted.
use async_procfs.Prelude.{
  ℕ, ◌<◌, ◌^◌, ◌≡◌, ◌≢◌, refl, arith, Text, codes, if◌then◌else◌, ◌==◌, bit_and, none, some, ok,
  err, returned,
}
use async_procfs.Std.Ints.{show_uint}
use async_procfs.Std.Ints.RoundTrip.{parse_uint-show_uint, show_uint-ne-nil, show_uint-ascii}
use async_procfs.Env.{Env}
use async_procfs.Machine.{State}
use async_procfs.Procfs.{AsyncProcfs}
use async_procfs.Helpers.RoundTrip.{Keeps, read_value-write_value, show_uint-Free}
use async_procfs.Kernel.SysRq.{
  SysRq, disable, enable, allowed_functions, all_functions, to_number, from_number, sysrq_from_str,
  sysrq, set_sysrq,
}

-- `bitflags!`: `from_bits` accepts the bits of the constants alone, and returns them.
abbrev pub AcceptsKnownBits : Env → Type 0
AcceptsKnownBits E = (all n : ℕ) → E.from_bits all n ≡ (if bit_and n all == n then some n else none)

-- The allowed functions are a `u16` made of the source's constants.
abbrev pub IsKnown : SysRq → Type 0
IsKnown disable = Unit
IsKnown enable = Unit
IsKnown (allowed_functions bits) = (bits < 2 ^ 16) × (bit_and bits all_functions ≡ bits)

-- What a value is read back as: no function allowed is `Disable`.
abbrev pub normal : SysRq → SysRq
normal disable = disable
normal enable = enable
normal (allowed_functions bits) = if bits == 0 then disable else allowed_functions bits

to_number_fits : (r : SysRq) → IsKnown r → to_number r < 2 ^ 16
unfolding to_number
to_number_fits disable h = omega arith
to_number_fits enable h = omega arith
to_number_fits (allowed_functions bits) h = h.0

one_unknown : bit_and 1 all_functions ≡ 1 → ⊥
one_unknown h = omega arith

module _ (E : Env) (known : AcceptsKnownBits E) where
  from_number-to_number : (r : SysRq) → IsKnown r → from_number E (to_number r) ≡ ok (normal r)
  unfolding from_number to_number
  from_number-to_number disable h = refl
  from_number-to_number enable h = refl
  from_number-to_number (allowed_functions bits) h =
      let some_bits : (bits ≡ 1) → ⊥ = λ e. one_unknown (rw e at h.1) in
      ground (arith, known all_functions bits, h.1)

  -- A value made of the constants is what its number is parsed to, but that no function allowed is
  -- read as `Disable`.
  pub sysrq_from_str-to_number :
      (r : SysRq) → IsKnown r → sysrq_from_str E (show_uint (to_number r)) ≡ ok (normal r)
  unfolding sysrq_from_str
  sysrq_from_str-to_number r h =
      rw (parse_uint-show_uint 16 (to_number r) (to_number_fits r h)) (from_number-to_number r h)

  -- Every number beyond 1 with a bit that is no constant is refused as an invalid value.
  pub sysrq_from_str_unknown :
      (n : ℕ)
      → n < 2 ^ 16
      → 1 < n
      → bit_and n all_functions ≢ n
      → sysrq_from_str E (show_uint n) ≡ err (E.from_message (codes "Invalid value"))
  unfolding sysrq_from_str from_number
  sysrq_from_str_unknown n fits large unknown =
      rw (parse_uint-show_uint 16 n fits) (ground (arith, known all_functions n))

-- With `from_bits` accepting the known bits alone, and a file that keeps the ASCII text written to it: after
-- `set_sysrq` of a value made of the constants, `sysrq` returns that value, or `Disable` for no
-- function allowed.
pub sysrq-set_sysrq :
    (E : Env) (procfs : AsyncProcfs E.File) (tail : Text)
    → AcceptsKnownBits E
    → Keeps E procfs (codes "sys/kernel/sysrq") tail
    → (r : SysRq) (s t : State E.World) → IsKnown r
    → set_sysrq E procfs r s ≡ returned tt t
    → (u : State E.World) × (sysrq E procfs t ≡ returned (normal r) u)
unfolding sysrq set_sysrq
sysrq-set_sysrq E procfs tail known keeps r s t h e =
    read_value-write_value E procfs (codes "sys/kernel/sysrq") tail keeps (sysrq_from_str E)
      (λ x. x) show_uint (to_number r) (normal r) (sysrq_from_str-to_number E known r h)
      (show_uint-Free (to_number r)) (show_uint-ne-nil (to_number r))
      (show_uint-ascii (to_number r)) s t e
