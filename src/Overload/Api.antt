-- ===== src/Overload/Api.antt =====
-- The functions that overload.c exports, with the arguments of the program and the functions of libc,
-- on the globals of the process. What they print, and the buffers that libc fills, are left out.
pub mod Serve
pub mod Transparent
use Prim.Native.Nat.Ordering.{lt, eq, gt}
use band_width_limiter.Base.{
  ℕ, zero, suc, ◌+◌, ◌-◌, ◌*◌, ◌/◌, ◌%◌, ◌^◌, ltb, Bool, true, false, Option, none, some, List, [],
  ◌∷◌, if◌then◌else◌, ◌==◌,
}
use band_width_limiter.Base.Int.{ℤ, pos, negsuc}
use band_width_limiter.Base.Outcome.{Outcome, ok, exited, crashed, out_of_fuel, ◌>>=◌, checked}
use band_width_limiter.Sock.{Timespec}
use band_width_limiter.Controller.{Controller}
use band_width_limiter.Overload.{transfer, close, accept, dup, bind, connect}
use band_width_limiter.Overload.Process.{Process}

-- A socket address: its bytes in memory, on a machine that stores the low byte first.
abbrev pub SockAddr : Type 0
SockAddr = List ℕ

unfoldable pub load16 : ℕ → SockAddr → Option ℕ
load16 zero (low ∷ high ∷ rest) = some (low + 256 * high)
load16 zero (low ∷ []) = none
load16 zero [] = none
load16 (suc k) (b ∷ rest) = load16 k rest
load16 (suc k) [] = none

unfoldable pub ntohs : ℕ → ℕ
ntohs n = n % 256 * 256 + n / 256

-- AF_INET
abbrev pub af_inet : ℕ
af_inet = 2

unfoldable pub sin_port : SockAddr → Option ℕ
sin_port addr = load16 2 addr

unfoldable pub sin6_port : SockAddr → Option ℕ
sin6_port addr = load16 2 addr

-- The port that `bind` and `connect` read. A read behind the address is out of bounds.
unfoldable pub address_port : SockAddr → Outcome ℕ
unfolding load16 ntohs sin_port sin6_port
address_port addr = do
  family ← checked (load16 0 addr)
  port ← checked (if family == af_inet then sin_port addr else sin6_port addr)
  ok (ntohs port)

-- An `nfds_t`, of 64 bits, as an `int`, of 32.
unfoldable pub to_int : ℕ → ℤ
to_int n = let low = n % 2 ^ 32 in if ltb low (2 ^ 31) then pos low else negsuc (2 ^ 32 - 1 - low)

-- The functions of libc, as they answer one call. `libc_poll` is declared with an `int` for the number
-- of descriptors.
pub record Libc : Type 0 where
  pub socket : ℤ → ℤ → ℤ → ℤ
  pub close : ℤ → ℤ
  pub read : ℤ → ℕ → ℤ
  pub recv : ℤ → ℕ → ℤ → ℤ
  pub readv : ℤ → ℤ → ℤ
  pub recvfrom : ℤ → ℕ → ℤ → ℤ
  pub write : ℤ → ℕ → ℤ
  pub send : ℤ → ℕ → ℤ → ℤ
  pub writev : ℤ → ℤ → ℤ
  pub sendto : ℤ → ℕ → ℤ → SockAddr → ℤ
  pub select : ℤ → ℤ
  pub poll : ℤ → ℤ → ℤ
  pub accept : ℤ → ℤ
  pub dup : ℤ → ℤ
  pub dup2 : ℤ → ℤ → ℤ
  pub bind : ℤ → SockAddr → ℤ
  pub connect : ℤ → SockAddr → ℤ

-- A call on the books of the process.
unfoldable pub with_books :
    (Controller → Outcome (Controller × ℤ)) → Process → Outcome (Process × ℤ)
with_books f p = elim p.ins_cont_str [
  | none ↦ crashed
  | some c ↦ f c >>= λ (after, answer). ok (record p { ins_cont_str = some after }, answer)
]

-- The books, and then the answer.
abbrev then_answer : Outcome Controller → ℤ → Outcome (Controller × ℤ)
then_answer o answer = o >>= λ after. ok (after, answer)

-- Each wrapper after `INIT_ENV`. The times are those of the readings of the clock in a transfer.
module _ (l : Libc) (now : Timespec) (clock : Option Timespec) where
  unfoldable pub wrap_socket : ℤ → ℤ → ℤ → Process → Outcome (Process × ℤ)
  wrap_socket domain kind protocol p = ok (p, l.socket domain kind protocol)

  unfoldable pub wrap_close : ℤ → Process → Outcome (Process × ℤ)
  unfolding with_books
  wrap_close fd = with_books (λ c. then_answer (close c fd) (l.close fd))

  unfoldable pub wrap_read : ℤ → ℕ → Process → Outcome (Process × ℤ)
  unfolding with_books
  wrap_read fd count = with_books (λ c. transfer (l.read fd) c fd count true now clock)

  unfoldable pub wrap_recv : ℤ → ℕ → ℤ → Process → Outcome (Process × ℤ)
  unfolding with_books
  wrap_recv fd len flags =
      with_books (λ c. transfer (λ n. l.recv fd n flags) c fd len true now clock)

  unfoldable pub wrap_readv : ℤ → ℤ → Process → Outcome (Process × ℤ)
  wrap_readv fd iov_count p = ok (p, l.readv fd iov_count)

  unfoldable pub wrap_recvfrom : ℤ → ℕ → ℤ → Process → Outcome (Process × ℤ)
  unfolding with_books
  wrap_recvfrom fd len flags =
      with_books (λ c. transfer (λ n. l.recvfrom fd n flags) c fd len true now clock)

  unfoldable pub wrap_write : ℤ → ℕ → Process → Outcome (Process × ℤ)
  unfolding with_books
  wrap_write fd len = with_books (λ c. transfer (l.write fd) c fd len false now clock)

  unfoldable pub wrap_send : ℤ → ℕ → ℤ → Process → Outcome (Process × ℤ)
  unfolding with_books
  wrap_send fd len flags =
      with_books (λ c. transfer (λ n. l.send fd n flags) c fd len false now clock)

  unfoldable pub wrap_writev : ℤ → ℤ → Process → Outcome (Process × ℤ)
  wrap_writev fd iov_count p = ok (p, l.writev fd iov_count)

  unfoldable pub wrap_sendto : ℤ → ℕ → ℤ → SockAddr → Process → Outcome (Process × ℤ)
  unfolding with_books
  wrap_sendto fd len flags dest_addr =
      with_books (λ c. transfer (λ n. l.sendto fd n flags dest_addr) c fd len false now clock)

  unfoldable pub wrap_select : ℤ → Process → Outcome (Process × ℤ)
  wrap_select nfds p = ok (p, l.select nfds)

  unfoldable pub wrap_poll : ℕ → ℤ → Process → Outcome (Process × ℤ)
  unfolding to_int
  wrap_poll nfds timeout p = ok (p, l.poll (to_int nfds) timeout)

  unfoldable pub wrap_accept : ℤ → Process → Outcome (Process × ℤ)
  unfolding with_books
  wrap_accept fd = with_books (λ c. then_answer (accept c fd (l.accept fd)) (l.accept fd))

  unfoldable pub wrap_dup : ℤ → Process → Outcome (Process × ℤ)
  unfolding with_books
  wrap_dup old_fd =
      with_books (λ c. then_answer (dup c old_fd (l.dup old_fd) (l.dup old_fd)) (l.dup old_fd))

  unfoldable pub wrap_dup2 : ℤ → ℤ → Process → Outcome (Process × ℤ)
  unfolding with_books
  wrap_dup2 old_fd new_fd =
      with_books
        (λ c. then_answer (dup c old_fd (l.dup2 old_fd new_fd) new_fd) (l.dup2 old_fd new_fd))

  unfoldable pub wrap_bind : ℤ → SockAddr → Process → Outcome (Process × ℤ)
  unfolding with_books
  wrap_bind fd addr p = address_port addr >>= λ port.
      with_books (λ c. then_answer (bind c fd port) (l.bind fd addr)) p

  unfoldable pub wrap_connect : ℤ → SockAddr → Process → Outcome (Process × ℤ)
  unfolding with_books
  wrap_connect fd addr p = address_port addr >>= λ port.
      with_books (λ c. then_answer (connect c fd port) (l.connect fd addr)) p
