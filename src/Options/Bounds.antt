-- ===== src/Options/Bounds.antt =====
-- What the option for the port makes of a number that is no port.
use redis_cpp.Base.{InInt32, ℕ, ◌+◌, ◌*◌, ◌/◌, ◌<◌, ◌≡◌, refl, [], ◌∷◌, ℤ, pos, negsuc, arith}
use redis_cpp.Decimal.{to_string}
use redis_cpp.Decimal.RoundTrip.{stoi-to_string}
use redis_cpp.Options.{
  settled, default_settings, to_uint16, with_number, take_option, parse_options,
}

-- The port differs from the number by a multiple of 2^16. `negsuc n` is -(n + 1).
abbrev pub DiffersByTurns : ℤ → ℕ → Type 0
DiffersByTurns (pos n) p = (k : ℕ) × (n ≡ p + 65536 * k)
DiffersByTurns (negsuc n) p = (k : ℕ) × (p + (n + 1) ≡ 65536 * k)

to_uint16_lt : (z : ℤ) → to_uint16 z < 65536
unfolding to_uint16
to_uint16_lt (pos n) = omega arith
to_uint16_lt (negsuc n) = omega arith

to_uint16-DiffersByTurns : (z : ℤ) → DiffersByTurns z (to_uint16 z)
unfolding to_uint16
to_uint16-DiffersByTurns (pos n) = (n / 65536, omega arith)
to_uint16-DiffersByTurns (negsuc n) = (n / 65536 + 1, omega arith)

-- The option --port with any number that fits an int, a negative one included, is accepted: it
-- sets the port to the number below 2^16 that differs from it by a multiple of 2^16.
pub parse_options-port_wraps :
    (z : ℤ)
    → InInt32 z
    → (p : ℕ) × (p < 65536)
      × DiffersByTurns z p
      × (parse_options ((b'p', to_string z) ∷ []) default_settings
          ≡ settled (record default_settings { port = p }))
unfolding parse_options take_option with_number
parse_options-port_wraps z h = (
  to_uint16 z,
  to_uint16_lt z,
  to_uint16-DiffersByTurns z,
  rw (stoi-to_string z h, parse_options, take_option, with_number) refl,
)
