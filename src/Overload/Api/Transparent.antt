-- ===== src/Overload/Api/Transparent.antt =====
-- The exported functions answer what libc answers.
use band_width_limiter.Base.{
  ℕ, ◌+◌, ◌-◌, ◌⊎◌, ltb, ◌*◌, ◌/◌, ◌%◌, ◌^◌, ◌<◌, ◌≡◌, refl, sym, ap, ◌∙◌, Bool, true, false,
  Option, some, List, [], ◌∷◌, All, inl, inr, arith, ◌==◌, Bool-cases,
}
use band_width_limiter.Base.Int.{ℤ, pos, negsuc}
use band_width_limiter.Base.Outcome.{ok, Returns, ◌>>=◌}
use band_width_limiter.Text.{Bytes, Environment, getenv}
use band_width_limiter.Text.Variables.{var_glibc_path}
use band_width_limiter.Config.{Text}
use band_width_limiter.Sock.{Timespec}
use band_width_limiter.Controller.{Controller}
use band_width_limiter.Controller.Invariant.{IsController}
use band_width_limiter.Controller.Init.{init_process}
use band_width_limiter.Overload.{transfer, step, Call, close_of, accept_of, bind_of, connect_of}
use band_width_limiter.Overload.Transfer.{transfer-Transferred}
use band_width_limiter.Overload.Safety.{step-IsController}
use band_width_limiter.Overload.Process.{Process, LibcName, fresh_process, init_env_once}
use band_width_limiter.Overload.Process.Once.{ready, IsRunning, set_up}
use band_width_limiter.Overload.Api.{
  SockAddr, Libc, address_port, af_inet, with_books, wrap_socket, wrap_close, wrap_read, wrap_recv,
  wrap_readv, wrap_recvfrom, wrap_write, wrap_send, wrap_writev, wrap_sendto, wrap_select,
  wrap_poll, wrap_accept, wrap_bind, wrap_connect, to_int,
}
use band_width_limiter.Overload.Api.Serve.{
  Api, call_socket, call_close, call_read, call_recv, call_readv, call_recvfrom, call_write,
  call_send, call_writev, call_sendto, call_select, call_poll, call_accept, call_dup, call_dup2,
  call_bind, call_connect, Visit, answer_of, serve, serve_all,
}

-- `bind` and `connect` read the port that the third and the fourth byte of an address hold, high
-- byte first, whatever family the first two bytes name.
pub address_port_lem :
    (family_low family_high port : ℕ) (rest : SockAddr)
    → port < 2 ^ 16
    → address_port (family_low ∷ family_high ∷ (port / 256) ∷ (port % 256) ∷ rest) ≡ ok port
unfolding address_port
address_port_lem family_low family_high port rest h =
    elim (Bool-cases (family_low + 256 * family_high == af_inet)) [
      | inl e ↦ rw (e) (ap ok (omega (arith, h)))
      | inr e ↦ rw (e) (ap ok (omega (arith, h)))
    ]

-- The calls that are treated here: not `dup` and `dup2`, and with an address whose port can be read.
abbrev pub IsPlain : Api → Type 0
IsPlain (call_dup old_fd) = ⊥
IsPlain (call_dup2 old_fd new_fd) = ⊥
IsPlain (call_bind fd addr) = (port : ℕ) × (address_port addr ≡ ok port)
IsPlain (call_connect fd addr) = (port : ℕ) × (address_port addr ≡ ok port)
IsPlain api = Unit {0}

-- `poll` passes on a number of descriptors below 2^31, and of a greater one what an `int` holds: a
-- number from -2^31 on and below 2^31 that differs from it by a multiple of 2^32.
abbrev IsPolled : Libc → ℕ → ℤ → ℤ → Type 0
IsPolled l nfds timeout r =
    (number : ℤ) × (r ≡ l.poll number timeout)
    × ((m : ℕ) × (((number ≡ pos m) × (m < 2 ^ 31) × (m ≡ nfds % 2 ^ 32))
          ⊎ ((number ≡ negsuc m) × (m < 2 ^ 31) × (m + 1 + nfds % 2 ^ 32 ≡ 2 ^ 32))))

to_int_cases :
    (l : Libc) (nfds : ℕ) (timeout : ℤ) → IsPolled l nfds timeout (l.poll (to_int nfds) timeout)
unfolding to_int
to_int_cases l nfds timeout = elim (Bool-cases (ltb (nfds % 2 ^ 32) (2 ^ 31))) [
  | inl e ↦ rw (e) (pos (nfds % 2 ^ 32), refl, (nfds % 2 ^ 32, inl (refl, ground (arith, e), refl)))
  | inr e ↦
      let m = 2 ^ 32 - 1 - nfds % 2 ^ 32 in
      rw (e) (negsuc m, refl, (m, inr (refl, ground (arith, e), omega arith)))
]

-- What libc answered the call; in a transfer, the call of some size.
abbrev pub Answers : Libc → Api → ℤ → Type 0
Answers l (call_socket domain kind protocol) r = r ≡ l.socket domain kind protocol
Answers l (call_close fd) r = r ≡ l.close fd
Answers l (call_read fd count) r = (size : ℕ) × (r ≡ l.read fd size)
Answers l (call_recv fd len flags) r = (size : ℕ) × (r ≡ l.recv fd size flags)
Answers l (call_readv fd iov_count) r = r ≡ l.readv fd iov_count
Answers l (call_recvfrom fd len flags) r = (size : ℕ) × (r ≡ l.recvfrom fd size flags)
Answers l (call_write fd len) r = (size : ℕ) × (r ≡ l.write fd size)
Answers l (call_send fd len flags) r = (size : ℕ) × (r ≡ l.send fd size flags)
Answers l (call_writev fd iov_count) r = r ≡ l.writev fd iov_count
Answers l (call_sendto fd len flags dest_addr) r =
    (size : ℕ) × (r ≡ l.sendto fd size flags dest_addr)
Answers l (call_select nfds) r = r ≡ l.select nfds
Answers l (call_poll nfds timeout) r = IsPolled l nfds timeout r
Answers l (call_accept fd) r = r ≡ l.accept fd
Answers l (call_dup old_fd) r = r ≡ l.dup old_fd
Answers l (call_dup2 old_fd new_fd) r = r ≡ l.dup2 old_fd new_fd
Answers l (call_bind fd addr) r = r ≡ l.bind fd addr
Answers l (call_connect fd addr) r = r ≡ l.connect fd addr

-- In a process that is set up, an answer, and a valid state.
abbrev Served : ℕ → Environment → Libc → Api → Process × ℤ → Type 0
Served handle vars l api (q, r) = IsRunning handle vars q × Answers l api r

module _ (handle : ℕ) (vars : Environment) (c : Controller) (valid : IsController c) where
  moved :
      (libc : ℕ → ℤ) (fd : ℤ) (count : ℕ) (flag : Bool) (now clock : Timespec)
      → Returns
          (λ (q, r). IsRunning handle vars q × ((size : ℕ) × (r ≡ libc size)))
          (with_books (λ x. transfer libc x fd count flag now (some clock)) (ready handle vars c))
  unfolding with_books
  moved libc fd count flag now clock =
      let ((c', n), got, (v, _, done)) =
        transfer-Transferred libc c fd count flag now clock valid in
      (
        (ready handle vars c', n),
        rw (got) refl,
        (
          (c', refl, v),
          elim done [
            | inl (_, same, _) ↦ (count, same)
            | inr (_, _, _, _, _, _, _, _, same, _) ↦ (_, same)
          ],
        ),
      )

  kept :
      (call : Call) (r : ℤ)
      → Returns
          (λ (q, r'). IsRunning handle vars q × (r' ≡ r))
          (with_books (λ x. step x call >>= λ y. ok (y, r)) (ready handle vars c))
  unfolding with_books
  kept call r =
      let (c', got, v) = step-IsController c call valid in
      ((ready handle vars c', r), rw (got) refl, ((c', refl, v), refl))

  passed_on :
      (r : ℤ)
      → Returns (λ (q, r'). IsRunning handle vars q × (r' ≡ r)) (ok (ready handle vars c, r))
  passed_on r = ((ready handle vars c, r), refl, ((c, refl, valid), refl))

  polled :
      (l : Libc) (nfds : ℕ) (timeout : ℤ)
      → Returns
          (λ (q, r). IsRunning handle vars q × IsPolled l nfds timeout r)
          (ok (ready handle vars c, l.poll (to_int nfds) timeout))
  polled l nfds timeout = (
    (ready handle vars c, l.poll (to_int nfds) timeout),
    refl,
    ((c, refl, valid), to_int_cases l nfds timeout),
  )

  answer_of-Served :
      (l : Libc) (now clock : Timespec) (api : Api)
      → IsPlain api
      → Returns (Served handle vars l api) (answer_of l now (some clock) api (ready handle vars c))
  unfolding answer_of wrap_socket wrap_close wrap_read wrap_recv wrap_readv wrap_recvfrom wrap_write
      wrap_send wrap_writev wrap_sendto wrap_select wrap_poll wrap_accept wrap_bind wrap_connect
      step
  answer_of-Served l now clock (call_socket domain kind protocol) h =
      passed_on (l.socket domain kind protocol)
  answer_of-Served l now clock (call_close fd) h = kept (close_of fd) (l.close fd)
  answer_of-Served l now clock (call_read fd count) h = moved (l.read fd) fd count true now clock
  answer_of-Served l now clock (call_recv fd len flags) h =
      moved (λ n. l.recv fd n flags) fd len true now clock
  answer_of-Served l now clock (call_readv fd iov_count) h = passed_on (l.readv fd iov_count)
  answer_of-Served l now clock (call_recvfrom fd len flags) h =
      moved (λ n. l.recvfrom fd n flags) fd len true now clock
  answer_of-Served l now clock (call_write fd len) h = moved (l.write fd) fd len false now clock
  answer_of-Served l now clock (call_send fd len flags) h =
      moved (λ n. l.send fd n flags) fd len false now clock
  answer_of-Served l now clock (call_writev fd iov_count) h = passed_on (l.writev fd iov_count)
  answer_of-Served l now clock (call_sendto fd len flags dest_addr) h =
      moved (λ n. l.sendto fd n flags dest_addr) fd len false now clock
  answer_of-Served l now clock (call_select nfds) h = passed_on (l.select nfds)
  answer_of-Served l now clock (call_poll nfds timeout) h = polled l nfds timeout
  answer_of-Served l now clock (call_accept fd) h = kept (accept_of fd (l.accept fd)) (l.accept fd)
  answer_of-Served l now clock (call_dup old_fd) h = absurd h
  answer_of-Served l now clock (call_dup2 old_fd new_fd) h = absurd h
  answer_of-Served l now clock (call_bind fd addr) (port, e) =
      rw (e) (kept (bind_of fd port) (l.bind fd addr))
  answer_of-Served l now clock (call_connect fd addr) (port, e) =
      rw (e) (kept (connect_of fd port) (l.connect fd addr))

-- Each answer is one of libc to its call.
abbrev pub AllAnswers : List Visit → List ℤ → Type 0
AllAnswers [] [] = Unit {0}
AllAnswers [] (r ∷ rs) = ⊥
AllAnswers (v ∷ vs) [] = ⊥
AllAnswers (v ∷ vs) (r ∷ rs) = Answers v.libc v.api r × AllAnswers vs rs

abbrev pub ServedAll : ℕ → Environment → List Visit → Process × List ℤ → Type 0
ServedAll handle vars vs (q, rs) = IsRunning handle vars q × AllAnswers vs rs

module _ (fuel : ℕ) (left : Text → Option Bytes) (file : Option Bytes)
    (dlopen : Option Bytes → Option ℕ) (dlsym : ℕ → LibcName → Bool) where
  serve-ready :
      (handle : ℕ) (vars : Environment) (c : Controller) (v : Visit)
      → serve fuel left file dlopen dlsym (ready handle vars c) v
        ≡ answer_of v.libc v.now (some v.clock) v.api (ready handle vars c)
  unfolding serve init_env_once
  serve-ready handle vars c v = refl

  serve_all-ready :
      (handle : ℕ) (vars : Environment) (c : Controller) (vs : List Visit)
      → IsController c
      → All (λ v. IsPlain v.api) vs
      → Returns
          (ServedAll handle vars vs)
          (serve_all fuel left file dlopen dlsym (ready handle vars c) vs)
  unfolding serve_all
  serve_all-ready handle vars c [] valid plain =
      ((ready handle vars c, []), refl, ((c, refl, valid), tt))
  serve_all-ready handle vars c (v ∷ vs) valid (h, plain) =
      let ((q, r), got, ((c', same, valid'), answers)) =
        answer_of-Served handle vars c valid v.libc v.now v.clock v.api h in
      let ((q', rs), got', (runs, all)) = serve_all-ready handle vars c' vs valid' plain in
      (
        (q', r ∷ rs),
        rw (serve-ready handle vars c v) rw (got) rw (same) rw (got') refl,
        (runs, (answers, all)),
      )

  -- The first call sets the process up.
  serve-fresh :
      (p vars : Environment) (c : Controller) (handle : ℕ) (v : Visit)
      → init_env_once fuel left file dlopen dlsym (fresh_process p) ≡ ok (ready handle vars c)
      → serve fuel left file dlopen dlsym (fresh_process p) v
        ≡ serve fuel left file dlopen dlsym (ready handle vars c) v
  unfolding serve
  serve-fresh p vars c handle v e =
      ap (λ o. o >>= answer_of v.libc v.now (some v.clock) v.api) e
      ∙ sym (serve-ready handle vars c v)

  -- If `init_env` returns a valid controller, `dlopen` finds libc at the path that it left and
  -- `dlsym` all functions, then a program that has made no call may make any calls of the exported
  -- functions, `dup` and `dup2` left out, with addresses whose port can be read: each call
  -- returns, with the state valid and the process set up, and answers what the function of libc
  -- answers to the same arguments (in a transfer, with some size; in `poll`, with the number of
  -- descriptors as an `int`, which is the same number below 2^31). The clock of a transfer works.
  pub serve_all-ServedAll :
      (p vars : Environment) (c : Controller) (handle : ℕ) (v : Visit) (vs : List Visit)
      → init_process fuel left file p ≡ ok (some c, vars)
      → dlopen (getenv var_glibc_path vars) ≡ some handle
      → ((name : LibcName) → dlsym handle name ≡ true)
      → IsController c
      → All (λ w. IsPlain w.api) (v ∷ vs)
      → Returns
          (ServedAll handle vars (v ∷ vs))
          (serve_all fuel left file dlopen dlsym (fresh_process p) (v ∷ vs))
  unfolding serve_all
  serve_all-ServedAll p vars c handle v vs init opens loads valid plain =
      let (r, got, all) = serve_all-ready handle vars c (v ∷ vs) valid plain in
      let first = set_up fuel left file dlopen dlsym p vars c init handle opens loads in
      (r, rw (serve-fresh p vars c handle v first) got, all)
