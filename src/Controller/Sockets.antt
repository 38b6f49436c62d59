-- ===== src/Controller/Sockets.antt =====
-- The calls that change the sockets keep the state of the controller valid.
use band_width_limiter.Base.{
  ℕ, zero, suc, ◌≡◌, ◌≢◌, refl, sym, ap, ◌∙◌, Bool, true, false, Option, none, some, ◌⊎◌, inl, inr,
  arith, Option-cases, Bool-cases, eq_of_some,
}
use band_width_limiter.Base.Int.{ℤ, pos}
use band_width_limiter.Base.Outcome.{Returns}
use band_width_limiter.Tree.Order.{port_ord, fd_ord}
use band_width_limiter.Tree.Table.Keys.{update, update-cases}
use band_width_limiter.Tree.Table.Laws.{find, info_of}
use band_width_limiter.Sock.{SocketFd, SockStruct, register_sock, unregister_socket_descriptor}
use band_width_limiter.Sock.Invariant.{init_sock-Inited}
use band_width_limiter.Sock.Accept.{register_sock-Registered}
use band_width_limiter.Sock.Release.{unregister-Released, root_left}
use band_width_limiter.Env.{PortStruct, RegisterEnv, is_port_registered, query_port}
use band_width_limiter.Env.Limits.{port_of}
use band_width_limiter.Controller.{Controller, regis_new_created_socket}
use band_width_limiter.Controller.Invariant.{IsController, Covered}

is_port_registered-port_of :
    (env : RegisterEnv) (port : ℕ)
    → is_port_registered env port ≡ true
    → (p : PortStruct) × (port_of env port ≡ some p)
unfolding is_port_registered
is_port_registered-port_of env port h = elim (Option-cases (query_port env port)) [
  | inl e ↦ absurd (ground arith)
  | inr (node, e) ↦ (node.entry.1, ap info_of e)
]

-- A change of the roots at one descriptor keeps the ports covered if what is put there is.
Covered-root :
    (s s' : SockStruct) (env : RegisterEnv) (fd : ℤ) (o : Option SocketFd)
    → Covered s env
    → ((q : ℤ) → find s'.sock_rb q ≡ update (find s.sock_rb) fd o q)
    → ((r : SocketFd) → o ≡ some r → (p : PortStruct) × (port_of env r.port ≡ some p))
    → Covered s' env
Covered-root s s' env fd o h roots put q r e = elim (update-cases (find s.sock_rb) fd o q) [
  | inl (same, got) ↦ put r (sym got ∙ sym (roots q) ∙ e)
  | inr (other, got) ↦ h q r (sym got ∙ sym (roots q) ∙ e)
]

-- What `regis_new_created_socket` does: a socket of a registered port becomes a root, unless it is
-- one; otherwise nothing changes.
abbrev pub Created : Controller → ℤ → ℕ → Controller × Bool → Type 0
Created c fd port (c', b) =
    IsController c'
    × (c'.reg_env_str ≡ c.reg_env_str)
    × (((is_port_registered c.reg_env_str port ≡ true)
          × (find c.soc_str.sock_rb fd ≡ none)
          × (b ≡ true)
          × ((q : ℤ)
              → find c'.soc_str.sock_rb q
                ≡ update (find c.soc_str.sock_rb) fd
                    (some (record { port = port; ref_count = pos 0 })) q)
          × (c'.soc_str.acp_socket_rb ≡ c.soc_str.acp_socket_rb))
        ⊎ (((is_port_registered c.reg_env_str port ≡ false) ⊎ (find c.soc_str.sock_rb fd ≢ none))
            × (b ≡ false)
            × (c' ≡ c)))

-- From a valid state `regis_new_created_socket` returns in a valid state with the same port table.
-- A socket of a registered port becomes a root, unless it is one, and the result is true;
-- otherwise nothing changes, and the result is false.
pub regis_new_created_socket-Created :
    (c : Controller) (fd : ℤ) (port : ℕ)
    → IsController c
    → Returns (Created c fd port) (regis_new_created_socket c fd port)
unfolding regis_new_created_socket
regis_new_created_socket-Created c fd port v =
    elim (Bool-cases (is_port_registered c.reg_env_str port)) [
      | inl known ↦
          let ((s, b), got, (valid, accepted, changed)) =
            init_sock-Inited c.soc_str fd port v.sockets in
          let (p, limits) = is_port_registered-port_of c.reg_env_str port known in
          elim changed [
            | inl (fresh, yes', roots) ↦ (
              (record c { soc_str = s }, b),
              rw (known, regis_new_created_socket, got) refl,
              (
                record {
                  sockets = valid;
                  limits = v.limits;
                  covered = Covered-root c.soc_str s c.reg_env_str fd _ v.covered roots (λ r e.
                      (p, ap (λ x. port_of c.reg_env_str x.port) (sym (eq_of_some e)) ∙ limits));
                },
                refl,
                inl (known, fresh, yes', roots, accepted),
              ),
            )
            | inr (r, there, no', same) ↦ (
              (c, false),
              rw (known, regis_new_created_socket, got, no', same) refl,
              (v, refl, inr (inr (λ e. absurd (cc (sym e ∙ there))), refl, refl)),
            )
          ]
      | inr unknown ↦ (
        (c, false),
        rw (unknown, regis_new_created_socket) refl,
        (v, refl, inr (inl unknown, refl, refl)),
      )
    ]

-- `register_sock` and `unregister_socket_descriptor`, which the wrappers of `accept`, `connect` and
-- `close` call, return in a state that is valid again.
pub register_sock-IsController :
    (c : Controller) (org listen : ℤ)
    → IsController c
    → Returns
        (λ (s, _). IsController (record c { soc_str = s }))
        (register_sock c.soc_str org listen)
register_sock-IsController c org listen v =
    let ((s, b), got, (valid, changed)) = register_sock-Registered c.soc_str org listen v.sockets in
    (
      (s, b),
      got,
      record {
        sockets = valid;
        limits = v.limits;
        covered = elim changed [
          | inl (r, at, _, _, _, roots) ↦
              Covered-root c.soc_str s c.reg_env_str org _ v.covered roots (λ r' e.
                let (p, limits) = v.covered org r at in
                (p, ap (λ x. port_of c.reg_env_str x.port) (sym (eq_of_some e)) ∙ limits))
          | inr (_, _, same) ↦ rw (same) v.covered
        ];
      },
    )

-- A root that is left has its port.
root_left-port : (n : ℕ) (r r' : SocketFd) → root_left n r ≡ some r' → r.port ≡ r'.port
root_left-port zero r r' e = absurd (ground arith)
root_left-port (suc n) r r' e = ap (λ x. x.port) (eq_of_some e)

pub unregister-IsController :
    (c : Controller) (fd : ℤ)
    → IsController c
    → Returns
        (λ (s, _). IsController (record c { soc_str = s }))
        (unregister_socket_descriptor c.soc_str fd)
unregister-IsController c fd v =
    let ((s, b), got, (valid, _, changed)) = unregister-Released c.soc_str fd v.sockets in
    (
      (s, b),
      got,
      record {
        sockets = valid;
        limits = v.limits;
        covered = elim changed [
          | inl (a, r, n, _, at, _, _, roots) ↦
              Covered-root c.soc_str s c.reg_env_str a.root_fd_number (root_left n r) v.covered
                roots
                (λ r' e.
                  let (p, limits) = v.covered a.root_fd_number r at in
                  (p, ap (port_of c.reg_env_str) (sym (root_left-port n r r' e)) ∙ limits))
          | inr (_, same) ↦ rw (same) v.covered
        ];
      },
    )
