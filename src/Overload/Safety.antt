-- ===== src/Overload/Safety.antt =====
-- Every sequence of calls, `dup` and `dup2` left out, keeps the state of the controller valid.
use band_width_limiter.Base.{ℕ, ◌≡◌, refl, Bool, some, List, [], ◌∷◌, Bool-cases, inl, inr}
use band_width_limiter.Base.Int.{ℤ, pos, negsuc, lt_ℤ, eq_ℤ}
use band_width_limiter.Base.Outcome.{Returns}
use band_width_limiter.Sock.{Timespec}
use band_width_limiter.Controller.{Controller}
use band_width_limiter.Controller.Invariant.{IsController}
use band_width_limiter.Controller.Sockets.{
  regis_new_created_socket-Created, register_sock-IsController, unregister-IsController,
}
use band_width_limiter.Controller.PreOp.{pre_op-Prepared, do_update-Charged, update_time-Stamped}
use band_width_limiter.Overload.{
  transfer, account, close, accept, bind, connect, step, run, to_ssize, to_size, Call, transfer_of,
  close_of, accept_of, bind_of, connect_of,
}

pub account-IsController :
    (c : Controller) (fd : ℤ) (flag : Bool) (clock : Timespec) (done : ℤ)
    → IsController c
    → Returns (λ (c', n). IsController c' × (n ≡ done)) (account c fd flag (some clock) done)
unfolding account
account-IsController c fd flag clock done v = elim (Bool-cases (lt_ℤ (pos 0) done)) [
  | inr stopped ↦ ((c, done), rw (stopped, account) refl, (v, refl))
  | inl some' ↦
      let (c1, got, (v1, _, _)) = do_update-Charged c done fd flag v in
      let ((c2, b), got', (v2, _, _)) = update_time-Stamped c1 fd flag clock v1 in
      ((c2, done), rw (some', account, got, got') refl, (v2, refl))
]

transfer-IsController :
    (libc : ℕ → ℤ) (c : Controller) (fd : ℤ) (count : ℕ) (flag : Bool) (now clock : Timespec)
    → IsController c
    → Returns (λ (c', _). IsController c') (transfer libc c fd count flag now (some clock))
unfolding transfer
transfer-IsController libc c fd count flag now clock v =
    let ((c1, demand, active), got, (v1, _)) = pre_op-Prepared c fd (to_ssize count) flag now v in
    elim (Bool-cases active) [
      | inr off ↦ ((c1, libc count), rw (transfer, got, off) refl, v1)
      | inl on ↦
          let ((c2, n), got', (v2, _)) =
            account-IsController c1 fd flag clock (libc (to_size demand)) v1 in
          ((c2, n), rw (transfer, got, on, got') refl, v2)
    ]

connect-IsController :
    (c : Controller) (fd : ℤ) (port : ℕ) → IsController c → Returns IsController (connect c fd port)
unfolding connect
connect-IsController c fd port v =
    let ((c1, registered), got, (v1, _, _)) = regis_new_created_socket-Created c fd port v in
    elim (Bool-cases registered) [
      | inr off ↦ (c1, rw (connect, got, off) refl, v1)
      | inl on ↦
          let ((s, b), got', v2) = register_sock-IsController c1 fd fd v1 in
          (record c1 { soc_str = s }, rw (connect, got, on, got') refl, v2)
    ]

pub step-IsController :
    (c : Controller) (call : Call) → IsController c → Returns IsController (step c call)
unfolding step close accept bind
step-IsController c (transfer_of libc fd count flag now clock) v =
    let ((c1, n), got, v1) = transfer-IsController libc c fd count flag now clock v in
    (c1, rw (got) refl, v1)
step-IsController c (close_of fd) v =
    let ((s, b), got, v1) = unregister-IsController c fd v in
    (record c { soc_str = s }, rw (got) refl, v1)
step-IsController c (accept_of fd acp_fd) v = elim (Bool-cases (eq_ℤ acp_fd (negsuc 0))) [
  | inl failed ↦ (c, rw (failed, accept) refl, v)
  | inr worked ↦
      let ((s, b), got, v1) = register_sock-IsController c fd acp_fd v in
      (record c { soc_str = s }, rw (worked, accept, got) refl, v1)
]
step-IsController c (bind_of fd port) v =
    let ((c1, b), got, (v1, _, _)) = regis_new_created_socket-Created c fd port v in
    (c1, rw (got) refl, v1)
step-IsController c (connect_of fd port) v = connect-IsController c fd port v

-- From a valid state of the controller, every sequence of calls of the wrappers (transfers,
-- `close`, `accept`, `bind` and `connect`, whatever libc answers) runs to its end: no NULL pointer
-- is read, no sentinel of a tree is painted or rotated, the process does not exit, and the state
-- is valid again. `dup` and `dup2` are not among the calls, and the clock of a transfer works.
pub run-IsController :
    (c : Controller) (calls : List Call) → IsController c → Returns IsController (run c calls)
unfolding run
run-IsController c [] v = (c, refl, v)
run-IsController c (call ∷ calls) v =
    let (c1, got, v1) = step-IsController c call v in
    let (c2, got', v2) = run-IsController c1 calls v1 in (c2, rw (got, got') refl, v2)
