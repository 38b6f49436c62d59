-- ===== src/Overload/Api/Serve.antt =====
-- A program's calls of the exported functions, from the first one on.
use band_width_limiter.Base.{ℕ, Bool, Option, some, List, [], ◌∷◌}
use band_width_limiter.Base.Int.{ℤ}
use band_width_limiter.Base.Outcome.{Outcome, ok, ◌>>=◌}
use band_width_limiter.Text.{Bytes}
use band_width_limiter.Config.{Text}
use band_width_limiter.Sock.{Timespec}
use band_width_limiter.Overload.Process.{Process, LibcName, init_env_once}
use band_width_limiter.Overload.Api.{
  SockAddr, Libc, wrap_socket, wrap_close, wrap_read, wrap_recv, wrap_readv, wrap_recvfrom,
  wrap_write, wrap_send, wrap_writev, wrap_sendto, wrap_select, wrap_poll, wrap_accept, wrap_dup,
  wrap_dup2, wrap_bind, wrap_connect,
}

-- A call of an exported function.
pub data Api : Type 0 where
  call_socket : (domain kind protocol : ℤ) → Api
  call_close : (fd : ℤ) → Api
  call_read : (fd : ℤ) (count : ℕ) → Api
  call_recv : (fd : ℤ) (len : ℕ) (flags : ℤ) → Api
  call_readv : (fd iov_count : ℤ) → Api
  call_recvfrom : (fd : ℤ) (len : ℕ) (flags : ℤ) → Api
  call_write : (fd : ℤ) (len : ℕ) → Api
  call_send : (fd : ℤ) (len : ℕ) (flags : ℤ) → Api
  call_writev : (fd iov_count : ℤ) → Api
  call_sendto : (fd : ℤ) (len : ℕ) (flags : ℤ) (dest_addr : SockAddr) → Api
  call_select : (nfds : ℤ) → Api
  call_poll : (nfds : ℕ) (timeout : ℤ) → Api
  call_accept : (fd : ℤ) → Api
  call_dup : (old_fd : ℤ) → Api
  call_dup2 : (old_fd new_fd : ℤ) → Api
  call_bind : (fd : ℤ) (addr : SockAddr) → Api
  call_connect : (fd : ℤ) (addr : SockAddr) → Api

-- With the functions of libc, and the readings of a clock that works.
pub record Visit : Type 0 where
  pub libc : Libc
  pub now : Timespec
  pub clock : Timespec
  pub api : Api

unfoldable pub answer_of : Libc → Timespec → Option Timespec → Api → Process → Outcome (Process × ℤ)
answer_of l now clock (call_socket domain kind protocol) =
    wrap_socket l now clock domain kind protocol
answer_of l now clock (call_close fd) = wrap_close l now clock fd
answer_of l now clock (call_read fd count) = wrap_read l now clock fd count
answer_of l now clock (call_recv fd len flags) = wrap_recv l now clock fd len flags
answer_of l now clock (call_readv fd iov_count) = wrap_readv l now clock fd iov_count
answer_of l now clock (call_recvfrom fd len flags) = wrap_recvfrom l now clock fd len flags
answer_of l now clock (call_write fd len) = wrap_write l now clock fd len
answer_of l now clock (call_send fd len flags) = wrap_send l now clock fd len flags
answer_of l now clock (call_writev fd iov_count) = wrap_writev l now clock fd iov_count
answer_of l now clock (call_sendto fd len flags dest_addr) =
    wrap_sendto l now clock fd len flags dest_addr
answer_of l now clock (call_select nfds) = wrap_select l now clock nfds
answer_of l now clock (call_poll nfds timeout) = wrap_poll l now clock nfds timeout
answer_of l now clock (call_accept fd) = wrap_accept l now clock fd
answer_of l now clock (call_dup old_fd) = wrap_dup l now clock old_fd
answer_of l now clock (call_dup2 old_fd new_fd) = wrap_dup2 l now clock old_fd new_fd
answer_of l now clock (call_bind fd addr) = wrap_bind l now clock fd addr
answer_of l now clock (call_connect fd addr) = wrap_connect l now clock fd addr

module _ (fuel : ℕ) (left : Text → Option Bytes) (file : Option Bytes)
    (dlopen : Option Bytes → Option ℕ) (dlsym : ℕ → LibcName → Bool) where
  -- One call: `INIT_ENV`, and then the wrapper.
  unfoldable pub serve : Process → Visit → Outcome (Process × ℤ)
  unfolding answer_of
  serve p v =
      init_env_once fuel left file dlopen dlsym p >>= answer_of v.libc v.now (some v.clock) v.api

  -- The calls of a program, and their answers.
  unfoldable pub serve_all : Process → List Visit → Outcome (Process × List ℤ)
  serve_all p [] = ok (p, [])
  serve_all p (v ∷ vs) =
      serve p v >>= λ (q, answer). serve_all q vs >>= λ (r, answers). ok (r, answer ∷ answers)
