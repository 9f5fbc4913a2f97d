-- ===== src/Options/LastWins.antt =====
-- What the command line makes of the settings, from the options one may write on it.
use redis_cpp.Base.{InInt32, ℕ, ◌<◌, Bool, false, Option, none, some, List, [], ◌∷◌, Bytes, ℤ, pos}
use redis_cpp.Decimal.{to_string}
use redis_cpp.Options.{Settings}

-- What an option may ask for.
pub data Wish : Type 0 where
  wants_port : ℕ → Wish
  wants_workers : ℤ → Wish
  wants_timeout : ℤ → Wish
  wants_log : Bytes → Wish
  wants_no_log : Wish

-- How it is written.
abbrev pub option_of : Wish → ℕ × Bytes
option_of (wants_port p) = (b'p', to_string (pos p))
option_of (wants_workers z) = (b'w', to_string z)
option_of (wants_timeout z) = (b'i', to_string z)
option_of (wants_log path) = (b'a', path)
option_of wants_no_log = (b'n', [])

-- A port is below 2^16, and a count fits an `int`.
abbrev pub IsWish : Wish → Type 0
IsWish (wants_port p) = p < 65536
IsWish (wants_workers z) = InInt32 z
IsWish (wants_timeout z) = InInt32 z
IsWish (wants_log path) = Unit
IsWish wants_no_log = Unit

abbrev pub AllWishes : List Wish → Type 0
AllWishes [] = Unit {0}
AllWishes (w ∷ ws) = IsWish w × AllWishes ws

-- The last answer that `f` gives for a list, or `d`.
abbrev pub last {ℓ} : {A : Type ℓ} → (Wish → Option A) → A → List Wish → A
last f d [] = d
last f d (w ∷ ws) = last f (elim (f w) [ none ↦ d | some a ↦ a ]) ws

abbrev pub port_of : Wish → Option ℕ
port_of (wants_port p) = some p
port_of (wants_workers z) = none
port_of (wants_timeout z) = none
port_of (wants_log path) = none
port_of wants_no_log = none

abbrev pub workers_of : Wish → Option ℤ
workers_of (wants_port p) = none
workers_of (wants_workers z) = some z
workers_of (wants_timeout z) = none
workers_of (wants_log path) = none
workers_of wants_no_log = none

abbrev pub timeout_of : Wish → Option ℤ
timeout_of (wants_port p) = none
timeout_of (wants_workers z) = none
timeout_of (wants_timeout z) = some z
timeout_of (wants_log path) = none
timeout_of wants_no_log = none

abbrev pub log_path_of : Wish → Option Bytes
log_path_of (wants_port p) = none
log_path_of (wants_workers z) = none
log_path_of (wants_timeout z) = none
log_path_of (wants_log path) = some path
log_path_of wants_no_log = none

abbrev pub use_log_of : Wish → Option Bool
use_log_of (wants_port p) = none
use_log_of (wants_workers z) = none
use_log_of (wants_timeout z) = none
use_log_of (wants_log path) = none
use_log_of wants_no_log = some false

-- Each setting as the last option for it says, or as it is in `s`.
abbrev pub chosen : List Wish → Settings → Settings
chosen ws s = record {
  port = last port_of s.port ws;
  workers = last workers_of s.workers ws;
  idle_timeout = last timeout_of s.idle_timeout ws;
  aof_path = last log_path_of s.aof_path ws;
  use_aof = last use_log_of s.use_aof ws;
}
