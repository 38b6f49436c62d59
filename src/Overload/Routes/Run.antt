-- ===== src/Overload/Routes/Run.antt =====
-- A run of the wrappers, seen as a run of the routes.
use mathlib.Core.Path.{subst, fun_ext}
use band_width_limiter.Base.{
  ℕ, ◌≡◌, refl, sym, ap, ◌∙◌, Bool, true, false, Option, none, some, List, [], ◌∷◌, inl, inr,
  Bool-cases, Option-cases,
}
use band_width_limiter.Base.Int.{ℤ, negsuc, eq_ℤ}
use band_width_limiter.Base.Outcome.{Outcome, ok, Returns}
use band_width_limiter.Tree.Order.{port_ord, fd_ord}
use band_width_limiter.Tree.Table.Keys.{update, update-cases}
use band_width_limiter.Sock.{get_dest_port}
use band_width_limiter.Sock.Accept.{register_sock-Registered}
use band_width_limiter.Sock.Release.{unregister-Released}
use band_width_limiter.Sock.Port.{PortOf, get_dest_port-PortOf}
use band_width_limiter.Env.{PortStruct, query_port, is_port_registered}
use band_width_limiter.Env.Limits.{port_of}
use band_width_limiter.Controller.{Controller}
use band_width_limiter.Controller.Invariant.{IsController}
use band_width_limiter.Controller.Sockets.{regis_new_created_socket-Created}
use band_width_limiter.Overload.{
  close, accept, bind, connect, step, run, Call, transfer_of, close_of, accept_of, bind_of,
  connect_of,
}
use band_width_limiter.Overload.Transfer.{transfer-Transferred}
use band_width_limiter.Overload.Safety.{step-IsController}
use band_width_limiter.Overload.Routes.{view, port_for, Routed, Trace, ended, next}
use band_width_limiter.Overload.Routes.Refined.{
  unchanged_routes, Registered-Joined, Released-Left, Created-Bound,
}

-- The ports that have limits.
abbrev pub known : Controller → ℕ → Bool
known c port = is_port_registered c.reg_env_str port

is_there : Option PortStruct → Bool
is_there none = false
is_there (some p) = true

known-port_of : (c : Controller) (q : ℕ) → known c q ≡ is_there (port_of c.reg_env_str q)
unfolding is_port_registered is_there
known-port_of c q = elim (Option-cases (query_port c.reg_env_str q)) [
  | inl e ↦ rw (e, is_port_registered) refl
  | inr (node, e) ↦ rw (e, is_port_registered) refl
]

-- A write to the structure of a port with limits.
known_written :
    (c c' : Controller) (port : ℕ) (p p' : PortStruct)
    → port_of c.reg_env_str port ≡ some p
    → ((q : ℕ) → port_of c'.reg_env_str q ≡ update (port_of c.reg_env_str) port (some p') q)
    → (q : ℕ) → known c' q ≡ known c q
unfolding is_there
known_written c c' port p p' e h q =
    rw (known-port_of c' q) rw (known-port_of c q)
      (elim (update-cases (port_of c.reg_env_str) port (some p') q) [
        | inl (same, got) ↦
            ap is_there (h q ∙ got) ∙ sym (ap is_there (ap (port_of c.reg_env_str) (sym same) ∙ e))
        | inr (_, got) ↦ ap is_there (h q ∙ got)
      ])

-- What a step does to the routes; the ports with limits stay.
abbrev Moved : Controller → Call → Controller → Type 0
Moved c call c' = (known c' ≡ known c) × Routed (known c) (view c.soc_str) call (view c'.soc_str)

step-Moved : (c : Controller) (call : Call) → IsController c → Returns (Moved c call) (step c call)
unfolding step close accept bind connect
step-Moved c (transfer_of libc fd count flag now clock) v =
    let ((c1, n), got, (_, socks, moved)) = transfer-Transferred libc c fd count flag now clock v in
    (
      c1,
      rw (got) refl,
      (
        elim moved [
          | inl (_, _, same) ↦ ap known same
          | inr (port, p, _, _, _, _, limits, _, _, settles) ↦
              fun_ext (known_written c c1 port p _ limits settles)
        ],
        unchanged_routes c.soc_str c1.soc_str socks,
      ),
    )
step-Moved c (close_of fd) v =
    let (r, got, left) = unregister-Released c.soc_str fd v.sockets in
    (record c { soc_str = r.0 }, rw (got) refl, (refl, Released-Left c.soc_str fd r left))
step-Moved c (accept_of fd acp_fd) v = elim (Bool-cases (eq_ℤ acp_fd (negsuc 0))) [
  | inl failed ↦ (c, rw (failed, accept) refl, (refl, rw (failed) (λ q. refl, λ q. refl)))
  | inr worked ↦
      let (r, got, joined) = register_sock-Registered c.soc_str fd acp_fd v.sockets in
      (
        record c { soc_str = r.0 },
        rw (worked, accept, got) refl,
        (refl, rw (worked) (Registered-Joined c.soc_str fd acp_fd r joined)),
      )
]
step-Moved c (bind_of fd port) v =
    let (r, got, created) = regis_new_created_socket-Created c fd port v in
    (
      r.0,
      rw (got) refl,
      (ap (λ env q. is_port_registered env q) created.1, (r.1, Created-Bound c fd port r created)),
    )
step-Moved c (connect_of fd port) v =
    let (r, got, created) = regis_new_created_socket-Created c fd port v in
    let table : known r.0 ≡ known c = ap (λ env q. is_port_registered env q) created.1 in
    let bound = Created-Bound c fd port r created in
    elim (Bool-cases r.1) [
      | inr off ↦ (
        r.0,
        rw (connect, got, off) refl,
        (table, (r.1, view r.0.soc_str, bound, rw (off) (λ q. refl, λ q. refl))),
      )
      | inl on ↦
          let (r', got', joined) = register_sock-Registered r.0.soc_str fd fd created.0.sockets in
          (
            record r.0 { soc_str = r'.0 },
            rw (connect, got, on, got') refl,
            (
              table,
              (
                r.1,
                view r.0.soc_str,
                bound,
                rw (on) (Registered-Joined r.0.soc_str fd fd r' joined),
              ),
            ),
          )
    ]

both :
    {A : Type 0} (P Q : A → Type 0) (r : Outcome A)
    → Returns P r
    → Returns Q r
    → Returns (λ a. P a × Q a) r
both P Q r (a, e, p) (a', e', q) = (a, e, (p, subst Q (eq_of_ok (sym e' ∙ e)) q))
  where
    eq_of_ok : {A : Type 0} {a b : A} → ok a ≡ ok b → a ≡ b
    eq_of_ok h = cc

-- What `get_dest_port` gives is the port of the routes.
pub get_dest_port-port_for :
    (c : Controller) (fd : ℤ)
    → IsController c
    → get_dest_port c.soc_str fd ≡ ok (port_for (view c.soc_str) fd)
get_dest_port-port_for c fd v =
    let (found, got, at) = get_dest_port-PortOf c.soc_str fd v.sockets in got ∙ ap ok (go found at)
  where
    go : (found : Option ℕ) → PortOf c.soc_str fd found → found ≡ port_for (view c.soc_str) fd
    go none e = rw (e) refl
    go (some port) (a, r, e, f, same) = rw (e) rw (f) (ap some (sym same))

-- A run, and what is read at its end.
abbrev pub Followed : Controller → List Call → Controller → Type 0
Followed c calls c' =
    IsController c'
    × Trace (known c) (view c.soc_str) calls (view c'.soc_str)
    × ((fd : ℤ) → get_dest_port c'.soc_str fd ≡ ok (port_for (view c'.soc_str) fd))

-- From a valid state of the controller, every sequence of calls of the wrappers (transfers,
-- `close`, `accept`, `bind` and `connect`, whatever libc answers) returns in a valid state, and
-- does to the routes (the port of each socket, and the socket of each accepted descriptor) what
-- the specification `Routed` says of each call in turn. The specification has no counters: a
-- socket loses its port when the last descriptor that has it goes. At the end `get_dest_port`
-- gives for each descriptor the port of the routes. `dup` and `dup2` are not among the calls, and
-- the clock of a transfer works.
pub run-Followed :
    (c : Controller) (calls : List Call) → IsController c → Returns (Followed c calls) (run c calls)
unfolding run
run-Followed c [] v = (c, refl, (v, ended, λ fd. get_dest_port-port_for c fd v))
run-Followed c (call ∷ calls) v =
    let (c1, got, (v1, (same, routed))) =
      both IsController (Moved c call) (step c call) (step-IsController c call v)
        (step-Moved c call v) in
    let (c2, got', (v2, trace, reads)) = run-Followed c1 calls v1 in
    (
      c2,
      rw (got, got') refl,
      (
        v2,
        next routed (subst (λ k. Trace k (view c1.soc_str) calls (view c2.soc_str)) same trace),
        reads,
      ),
    )
