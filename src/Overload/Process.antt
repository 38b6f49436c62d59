-- ===== src/Overload/Process.antt =====
-- The global state of overload.c, and the wrappers from the first call on: `INIT_ENV` sets everything up
-- once. `dlopen` and `dlsym` are arguments. A wrapper holds the lock while it sets up.
pub mod Once
use Prim.Native.Nat.Ordering.{lt, eq, gt}
use band_width_limiter.Base.{
  ℕ, Bool, true, false, not, ◌&&◌, Option, none, some, List, [], ◌∷◌, if◌then◌else◌,
}
use band_width_limiter.Base.Outcome.{Outcome, ok, exited, crashed, ◌>>=◌}
use band_width_limiter.Text.{Bytes, Environment, getenv}
use band_width_limiter.Text.Variables.{var_glibc_path}
use band_width_limiter.Config.{Text}
use band_width_limiter.Controller.{Controller}
use band_width_limiter.Base.Int.{ℤ, pos, eq_ℤ}
use band_width_limiter.Controller.CleanUp.{Block, clean_up}
use band_width_limiter.Controller.Init.{init_process}
use band_width_limiter.Overload.{Call, step}

-- The pointers to the functions of libc, in the order in which they are loaded.
pub data LibcName : Type 0 where
  libc_socket libc_close libc_read libc_recv libc_readv libc_recvfrom libc_write libc_send :
      LibcName
  libc_writev libc_sendto libc_select libc_poll libc_accept libc_dup libc_dup2 libc_bind : LibcName
  libc_connect : LibcName

abbrev pub libc_names : List LibcName
libc_names =
    libc_socket ∷ libc_close ∷ libc_read ∷ libc_recv ∷ libc_readv ∷ libc_recvfrom ∷ libc_write
    ∷ libc_send ∷ libc_writev ∷ libc_sendto ∷ libc_select ∷ libc_poll ∷ libc_accept ∷ libc_dup
    ∷ libc_dup2 ∷ libc_bind ∷ libc_connect ∷ []

-- The globals, and the environment of the process.
pub record Process : Type 0 where
  pub init0 : Bool
  pub init1 : Bool
  pub ins_cont_str : Option Controller
  pub handle : Option ℕ
  pub vars : Environment

-- Before the first call.
abbrev pub fresh_process : Environment → Process
fresh_process vars = record {
  init0 = false;
  init1 = false;
  ins_cont_str = none;
  handle = none;
  vars = vars;
}

-- A call of a wrapper: of one that keeps books, or of `socket`, `readv`, `writev`, `select` or `poll`,
-- which call libc and do nothing else.
pub data Wrapper : Type 0 where
  counted : Call → Wrapper
  passed : Wrapper

-- `close_dl`, with the result of `dlclose`.
unfoldable close_dl : (ℕ → ℤ) → Process → Process
close_dl dlclose p = elim p.handle [
  | none ↦ p
  | some handle ↦
      if eq_ℤ (dlclose handle) (pos 0) then p else record p { init0 = false; init1 = false }
]

-- `init_clean_up`, at the exit of a process that was set up: the flags, and what is freed.
unfoldable init_clean_up : (ℕ → ℤ) → Process → Process × List Block
unfolding close_dl clean_up
init_clean_up dlclose p =
    (close_dl dlclose p, elim p.ins_cont_str [ none ↦ [] | some c ↦ clean_up c ])

module _ (fuel : ℕ) (left : Text → Option Bytes) (file : Option Bytes)
    (dlopen : Option Bytes → Option ℕ) (dlsym : ℕ → LibcName → Bool) where
  -- The row of `__LOAD__ADDR__`: a function that is not there ends the process with status 255.
  unfoldable pub load_addresses : ℕ → List LibcName → Process → Outcome Process
  load_addresses handle [] p = ok p
  load_addresses handle (name ∷ names) p = elim (dlsym handle name) [
    | false ↦ exited 255
    | true ↦ load_addresses handle names p
  ]

  -- `init_overload`: EXIT_FAILURE is 1. What the handler of `atexit` frees is not followed.
  unfoldable pub init_overload : Process → Outcome Process
  unfolding load_addresses
  init_overload p = do
    (found, vars) ← init_process fuel left file p.vars
    elim found [
      | none ↦ exited 1
      | some c ↦ elim (dlopen (getenv var_glibc_path vars)) [
        | none ↦ exited 1
        | some handle ↦
            load_addresses handle libc_names (record {
              init0 = true;
              init1 = false;
              ins_cont_str = some c;
              handle = some handle;
              vars = vars;
            })
            >>= λ q. ok (record q { init1 = true })
      ]
    ]

  -- `INIT_ENV`
  unfoldable pub init_env_once : Process → Outcome Process
  unfolding init_overload
  init_env_once p = if not p.init0 && not p.init1 then init_overload p else ok p

  unfoldable pub books : Wrapper → Process → Outcome Process
  books passed p = ok p
  books (counted call) p = elim p.ins_cont_str [
    | none ↦ crashed
    | some c ↦ step c call >>= λ after. ok (record p { ins_cont_str = some after })
  ]

  unfoldable pub wrap : Process → Wrapper → Outcome Process
  unfolding init_env_once books
  wrap p w = init_env_once p >>= books w

  -- The calls of a program.
  unfoldable pub wrap_all : Process → List Wrapper → Outcome Process
  unfolding wrap
  wrap_all p [] = ok p
  wrap_all p (w ∷ ws) = wrap p w >>= λ q. wrap_all q ws
