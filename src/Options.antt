-- ===== src/Options.antt =====
-- The command line of src/main.cpp. What getopt_long yields is an argument: each option's letter, in
-- order, with its argument, or no bytes where it has none.
pub mod Bounds
pub mod LastWins
mod Tests
use redis_cpp.Base.{
  ℕ, zero, suc, ◌-◌, ◌%◌, Bool, true, false, Option, none, some, List, [], ◌∷◌, Bytes, codes, ℤ,
  pos, negsuc, ◌==◌, if◌then◌else◌,
}
use redis_cpp.Decimal.{stoi}

pub record Settings : Type 0 where
  pub port : ℕ
  pub workers : ℤ
  pub idle_timeout : ℤ
  pub aof_path : Bytes
  pub use_aof : Bool

-- DEFAULT_PORT, DEFAULT_WORKERS, DEFAULT_IDLE_S and DEFAULT_AOF
unfoldable pub default_settings : Settings
default_settings = record {
  port = 6380;
  workers = pos 0;
  idle_timeout = pos 60;
  aof_path = codes "redis_cpp.aof";
  use_aof = true;
}

-- How the loop goes on: with settings, by an exit with that status, or by an exception.
pub data CommandLine : Type 0 where
  settled : Settings → CommandLine
  exits : ℕ → CommandLine
  bad_number : CommandLine

-- static_cast<uint16_t>
unfoldable pub to_uint16 : ℤ → ℕ
to_uint16 (pos n) = n % 65536
to_uint16 (negsuc n) = 65535 - n % 65536

-- A setting that is a number.
unfoldable pub with_number : Bytes → (ℤ → Settings) → CommandLine
with_number optarg f = elim (stoi optarg) [ none ↦ bad_number | some z ↦ settled (f z) ]

-- The switch.
unfoldable pub take_option : ℕ → Bytes → Settings → CommandLine
unfolding with_number
take_option opt optarg s =
    if opt == b'p'
    then with_number optarg (λ z. record s { port = to_uint16 z })
    else if opt == b'w'
    then with_number optarg (λ z. record s { workers = z })
    else if opt == b'i'
    then with_number optarg (λ z. record s { idle_timeout = z })
    else if opt == b'a'
    then settled (record s { aof_path = optarg })
    else if opt == b'n'
    then settled (record s { use_aof = false })
    else if opt == b'h'
    then exits 0
    else exits 1

-- The loop.
unfoldable pub parse_options : List (ℕ × Bytes) → Settings → CommandLine
unfolding take_option
parse_options [] s = settled s
parse_options ((opt, optarg) ∷ opts) s = elim (take_option opt optarg s) [
  | settled t ↦ parse_options opts t
  | exits status ↦ exits status
  | bad_number ↦ bad_number
]

-- The number of threads that main asks the pool for.
unfoldable pub n_threads : Settings → ℕ → ℕ
n_threads s hardware = elim s.workers [
  | pos zero ↦ hardware
  | pos (suc n) ↦ suc n
  | negsuc n ↦ hardware
]
