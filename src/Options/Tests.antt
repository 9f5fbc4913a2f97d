-- ===== src/Options/Tests.antt =====
-- Command lines with repeated options, and with a port that no port has.
use redis_cpp.Base.{ℕ, ◌≡◌, ◌<◌, refl, true, List, [], ◌∷◌, codes, pos, negsuc, arith, Bytes}
use redis_cpp.Decimal.{to_string, stoi}
use redis_cpp.Options.{
  Settings, settled, default_settings, to_uint16, with_number, take_option, parse_options,
}
use redis_cpp.Options.Bounds.{DiffersByTurns, parse_options-port_wraps}
use redis_cpp.Options.LastWins.{Wish, wants_port, wants_workers, wants_timeout, wants_no_log}

abbrev line : List (ℕ × Bytes)
line = (b'p', codes "70000") ∷ (b'w', codes "-3") ∷ []

abbrev read : Settings
read = record {
  port = 4464;
  workers = negsuc 2;
  idle_timeout = pos 60;
  aof_path = codes "redis_cpp.aof";
  use_aof = true;
}

line-read : parse_options line default_settings ≡ settled read
unfolding parse_options take_option with_number to_uint16 default_settings stoi
line-read = refl

abbrev wishes : List Wish
wishes =
    wants_workers (negsuc 2)
    ∷ wants_port 7000
    ∷ wants_timeout (pos 5)
    ∷ wants_workers (pos 8)
    ∷ wants_no_log
    ∷ wants_port 7001
    ∷ []

parse_options-port_wraps_example :
    (p : ℕ) × (p < 65536)
    × DiffersByTurns (negsuc 0) p
    × (parse_options ((b'p', to_string (negsuc 0)) ∷ []) default_settings
        ≡ settled (record default_settings { port = p }))
parse_options-port_wraps_example = parse_options-port_wraps (negsuc 0) (omega arith)
