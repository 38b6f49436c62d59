-- ===== src/Controller/Invariant.antt =====
-- The state of the controller between two calls, and the operations that change it.
use mathlib.Core.Option
use band_width_limiter.Base.{
  ℕ, ◌≡◌, refl, sym, ap, ◌∙◌, Bool, true, false, Option, none, some, inl, inr, arith,
}
use band_width_limiter.Base.Int.{ℤ}
use band_width_limiter.Base.Outcome.{ok}
use band_width_limiter.Tree.Order.{port_ord, fd_ord}
use band_width_limiter.Tree.Query.{rb_exact_query, query_from}
use band_width_limiter.Tree.Table.Keys.{update, update-cases}
use band_width_limiter.Tree.Table.Laws.{find}
use band_width_limiter.Sock.{
  setup_sock_env, SocketFd, SockStruct, get_dest_port, is_acp_sock_fd_present,
}
use band_width_limiter.Sock.Invariant.{IsValid, setup_sock_env-IsValid}
use band_width_limiter.Sock.Port.{PortOf, get_dest_port-PortOf}
use band_width_limiter.Env.{PortStruct, RegisterEnv}
use band_width_limiter.Env.Limits.{port_of, IsEnv, Wrote}
use band_width_limiter.Controller.{Controller}

-- Every registered socket has a port with limits.
abbrev pub Covered : SockStruct → RegisterEnv → Type 0
Covered s env =
    (fd : ℤ) (r : SocketFd)
    → find s.sock_rb fd ≡ some r
    → (p : PortStruct) × (port_of env r.port ≡ some p)

pub record IsController (c : Controller) : Type 0 where
  pub sockets : IsValid c.soc_str
  pub limits : IsEnv c.reg_env_str
  pub covered : Covered c.soc_str c.reg_env_str

-- Changing what is stored for one registered port keeps the ports of the table.
pub Covered-update :
    (s : SockStruct) (env env' : RegisterEnv) (port : ℕ) (p : PortStruct)
    → Covered s env
    → ((q : ℕ) → port_of env' q ≡ update (port_of env) port (some p) q)
    → Covered s env'
Covered-update s env env' port p h ports fd r e =
    elim (update-cases (port_of env) port (some p) r.port) [
      | inl (same, got) ↦ (p, ports r.port ∙ got)
      | inr (other, got) ↦ let (q, at) = h fd r e in (q, ports r.port ∙ got ∙ at)
    ]

pub Covered-Wrote :
    (s : SockStruct) (env : RegisterEnv) (port : ℕ) (change : PortStruct → PortStruct)
    (p : PortStruct) (r : RegisterEnv × Bool)
    → Covered s env
    → port_of env port ≡ some p
    → Wrote env port change r
    → Covered s r.0
Covered-Wrote s env port change p r h e w =
    Covered-update s env r.0 port (change p) h
      (λ q. w.ports q ∙ ap (λ o. update (port_of env) port (Option.map change o) q) e)

-- In a valid state a descriptor is not accepted, or it has a port, and the port has limits.
pub data Destination (c : Controller) (fd : ℤ) : Type 0 where
  nowhere :
      find c.soc_str.acp_socket_rb fd ≡ none
      → get_dest_port c.soc_str fd ≡ ok none
      → is_acp_sock_fd_present c.soc_str fd ≡ false
      → Destination c fd
  bound_for :
      (port : ℕ) (p : PortStruct)
      → PortOf c.soc_str fd (some port)
      → get_dest_port c.soc_str fd ≡ ok (some port)
      → is_acp_sock_fd_present c.soc_str fd ≡ true
      → port_of c.reg_env_str port ≡ some p
      → Destination c fd

present :
    (s : SockStruct) (fd : ℤ) (b : Bool)
    → is_acp_sock_fd_present s fd ≡ b
    → (o : Option _) → find s.acp_socket_rb fd ≡ o
    → b ≡ elim o [ none ↦ false | some _ ↦ true ]
unfolding is_acp_sock_fd_present
present s fd b h o e = ground arith

pub destination : (c : Controller) (fd : ℤ) → IsController c → Destination c fd
destination c fd v =
    let (found, got, at) = get_dest_port-PortOf c.soc_str fd v.sockets in go found got at
  where
    go :
        (found : Option ℕ)
        → get_dest_port c.soc_str fd ≡ ok found
        → PortOf c.soc_str fd found
        → Destination c fd
    go none got at = nowhere at got (present c.soc_str fd _ refl none at)
    go (some port) got (a, r, e, f, same) =
        let (p, limits) = v.covered a.root_fd_number r f in
        bound_for port p (a, r, e, f, same) got (present c.soc_str fd _ refl (some a) e)
          (ap (port_of c.reg_env_str) (sym same) ∙ limits)

-- The state that the set-up leaves.
pub setup-IsController :
    (env : RegisterEnv)
    → IsEnv env
    → IsController (record { soc_str = setup_sock_env; reg_env_str = env })
unfolding setup_sock_env rb_exact_query query_from
setup-IsController env h = record {
  sockets = setup_sock_env-IsValid;
  limits = h;
  covered = λ fd r e. absurd (cc e);
}
