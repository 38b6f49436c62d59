-- ===== src/Env.antt =====
-- The port table of register_env.c and register_env.h: the limits of each port, and what is left of
-- the current window. Every operation takes the `register_env_struct`; `ip_address` is never used.
-- `ssize_t` values are integers without bound: a limit is at most 1000 times an `int`, and the counters
-- only fall from a limit, so 64 bits hold them.
pub mod Limits
pub mod Setup
use Prim.Native.Nat.Ordering.{lt, eq, gt}
use band_width_limiter.Base.{
  ℕ, ◌+◌, ◌-◌, ◌%◌, ◌^◌, Bool, true, false, Option, none, some, List, [], ◌∷◌, if◌then◌else◌,
}
use band_width_limiter.Base.Int.{ℤ, pos, negsuc, ◌-ℤ◌, ◌*ℤ◌, lt_ℤ, eq_ℤ}
use band_width_limiter.Base.Outcome.{Outcome, ok, crashed, ◌>>=◌, checked}
use band_width_limiter.Tree.Order.{port_ord}
use band_width_limiter.Tree.Shape.{Tree, leaf, Pointer, set_info}
use band_width_limiter.Tree.Query.{rb_exact_query}
use band_width_limiter.Tree.Insert.{rb_tree_insert}
use band_width_limiter.Sock.{Timespec, no_time}

pub record PortStruct : Type 0 where
  pub up_limit : ℤ
  pub bind_port : ℕ
  pub down_limit : ℤ
  pub start_time_read : Timespec
  pub start_time_write : Timespec
  pub remaining_read : ℤ
  pub remaining_write : ℤ
  pub latency : ℕ

-- `port_rb` is NULL until a port is registered; `rb_exact_query` finds nothing in a NULL tree.
pub record RegisterEnv : Type 0 where
  pub port_rb : Option (Tree (ℕ × PortStruct))

-- A port of the configuration file, `port_str`.
pub record PortStr : Type 0 where
  pub port_no : ℕ
  pub up_limit : ℤ
  pub down_limit : ℤ
  pub latency : ℕ

-- The conversion of an `int` to `uint32_t`.
unfoldable pub to_uint32 : ℤ → ℕ
to_uint32 (pos n) = n % 2 ^ 32
to_uint32 (negsuc n) = 2 ^ 32 - 1 - n % 2 ^ 32

-- A positive limit is given in thousands of bytes.
unfoldable pub scaled : ℤ → ℤ
scaled l = if lt_ℤ (pos 0) l then l *ℤ pos 1000 else l

unfoldable pub new_port : PortStr → PortStruct
unfolding scaled
new_port p = record {
  up_limit = scaled p.up_limit;
  bind_port = p.port_no;
  down_limit = scaled p.down_limit;
  start_time_read = no_time;
  start_time_write = no_time;
  remaining_read = scaled p.down_limit;
  remaining_write = scaled p.up_limit;
  latency = p.latency;
}

-- The loop of `__do_register_from_config__` over the ports that were parsed.
unfoldable pub register_ports :
    List PortStr → Tree (ℕ × PortStruct) → Outcome (Tree (ℕ × PortStruct))
unfolding new_port
register_ports [] t = ok t
register_ports (p ∷ ps) t = do
  u ← checked (rb_tree_insert t p.port_no (new_port p))
  register_ports ps u

-- `__do_register__`. The arguments are what `atoi` makes of the four environment variables; the port
-- -1 means that nothing is limited.
unfoldable pub do_register : RegisterEnv → ℤ → ℤ → ℤ → ℤ → Outcome (RegisterEnv × Bool)
unfolding new_port to_uint32
do_register env port up_limit down_limit latency =
    if eq_ℤ port (negsuc 0) then ok (env, true) else do
      t ← checked (
          rb_tree_insert leaf (to_uint32 port) (
            new_port (record {
              port_no = to_uint32 port;
              up_limit = up_limit;
              down_limit = down_limit;
              latency = to_uint32 latency;
            })))
      ok (record { port_rb = some t }, true)

-- `rb_exact_query( env->port_rb , &pp )`
unfoldable pub query_port : RegisterEnv → ℕ → Option (Pointer (ℕ × PortStruct))
query_port env port = elim env.port_rb [ none ↦ none | some t ↦ rb_exact_query t port ]

-- A write to the structure of a port that was found.
unfoldable pub write_port : Pointer (ℕ × PortStruct) → PortStruct → RegisterEnv
write_port node p = record { port_rb = some (set_info node p) }

unfoldable pub get_init_up_limit : RegisterEnv → ℕ → ℤ
unfolding query_port
get_init_up_limit env port = elim (query_port env port) [
  | none ↦ negsuc 0
  | some node ↦ node.entry.1.up_limit
]

unfoldable pub get_init_down_limit : RegisterEnv → ℕ → ℤ
unfolding query_port
get_init_down_limit env port = elim (query_port env port) [
  | none ↦ negsuc 0
  | some node ↦ node.entry.1.down_limit
]

-- In what follows the flag is true for a read.
abbrev pub start_time : Bool → PortStruct → Timespec
start_time true p = p.start_time_read
start_time false p = p.start_time_write

unfoldable pub get_time_val : RegisterEnv → ℕ → Bool → Timespec
unfolding query_port
get_time_val env port flag = elim (query_port env port) [
  | none ↦ record { tv_sec = pos 9999; tv_nsec = pos 9999 }
  | some node ↦ start_time flag node.entry.1
]

abbrev pub with_start_time : Bool → Timespec → PortStruct → PortStruct
with_start_time true ts p = record p { start_time_read = ts }
with_start_time false ts p = record p { start_time_write = ts }

-- The clock is what `clock_gettime` gives, and `none` if it fails.
unfoldable pub update_time_val : RegisterEnv → ℕ → Bool → Option Timespec → RegisterEnv × Bool
unfolding query_port write_port
update_time_val env port flag clock = elim (query_port env port) [
  | none ↦ (env, false)
  | some node ↦ elim clock [
    | none ↦ (env, false)
    | some ts ↦ (write_port node (with_start_time flag ts node.entry.1), true)
  ]
]

abbrev pub remaining : Bool → PortStruct → ℤ
remaining true p = p.remaining_read
remaining false p = p.remaining_write

unfoldable pub get_remaining_byte_count : RegisterEnv → ℕ → Bool → ℤ
unfolding query_port
get_remaining_byte_count env port flag = elim (query_port env port) [
  | none ↦ pos 0
  | some node ↦ remaining flag node.entry.1
]

abbrev pub with_remaining : Bool → ℤ → PortStruct → PortStruct
with_remaining true n p = record p { remaining_read = n }
with_remaining false n p = record p { remaining_write = n }

-- A counter below 0 is set to 0.
unfoldable pub floor_zero : ℤ → ℤ
floor_zero n = if lt_ℤ n (pos 0) then pos 0 else n

-- The bytes used are taken off one counter, and then both are kept from falling below 0.
unfoldable pub deduct : Bool → ℤ → PortStruct → PortStruct
unfolding floor_zero
deduct flag used p =
    let q = with_remaining flag (remaining flag p -ℤ used) p in
    record q {
      remaining_read = floor_zero q.remaining_read;
      remaining_write = floor_zero q.remaining_write;
    }

unfoldable pub update_byte_count : RegisterEnv → ℕ → ℤ → Bool → RegisterEnv × Bool
unfolding query_port write_port deduct
update_byte_count env port used flag = elim (query_port env port) [
  | none ↦ (env, false)
  | some node ↦ (write_port node (deduct flag used node.entry.1), true)
]

unfoldable pub set_byte_count_window : RegisterEnv → ℕ → ℤ → Bool → RegisterEnv × Bool
unfolding query_port write_port
set_byte_count_window env port size flag = elim (query_port env port) [
  | none ↦ (env, false)
  | some node ↦ (write_port node (with_remaining flag size node.entry.1), true)
]

unfoldable pub is_port_registered : RegisterEnv → ℕ → Bool
unfolding query_port
is_port_registered env port = elim (query_port env port) [ none ↦ false | some _ ↦ true ]
