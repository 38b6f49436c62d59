-- ===== src/Overload/Routes.antt =====
-- What the bookkeeping of the sockets promises, without trees and counters: each listening or connected
-- socket has a port, each accepted descriptor a socket, and a socket goes with its last descriptor.
pub mod Refined
pub mod Run
pub mod Steps
pub mod Defects
pub mod Races
pub mod Stays
use mathlib.Core.Option
use band_width_limiter.Base.{
  ℕ, ◌≡◌, ◌≢◌, Bool, true, false, Option, none, some, List, [], ◌∷◌, ◌⊎◌, if◌then◌else◌, ◌>>=◌,
}
use band_width_limiter.Base.Int.{ℤ, negsuc, eq_ℤ}
use band_width_limiter.Tree.Order.{fd_ord}
use band_width_limiter.Tree.Table.Keys.{update}
use band_width_limiter.Tree.Table.Laws.{find}
use band_width_limiter.Sock.{SocketFd, AcpSocketFd, SockStruct}
use band_width_limiter.Overload.{Call, transfer_of, close_of, accept_of, bind_of, connect_of}

-- The port of each socket, and the socket of each accepted descriptor.
pub record Routes : Type 0 where
  pub ports : ℤ → Option ℕ
  pub sockets : ℤ → Option ℤ

abbrev pub view : SockStruct → Routes
view s = record {
  ports = λ q. Option.map (λ (r : SocketFd). r.port) (find s.sock_rb q);
  sockets = λ q. Option.map (λ (a : AcpSocketFd). a.root_fd_number) (find s.acp_socket_rb q);
}

-- The port that a descriptor is counted for.
abbrev pub port_for : Routes → ℤ → Option ℕ
port_for v fd = v.sockets fd >>= v.ports

infix 4 ◌≐◌
abbrev pub ◌≐◌ : {B : Type 0} → (ℤ → B) → (ℤ → B) → Type 0
f ≐ g = (q : ℤ) → f q ≡ g q

abbrev pub Same : Routes → Routes → Type 0
Same v v' = (v'.ports ≐ v.ports) × (v'.sockets ≐ v.sockets)

-- A socket gets a port that has limits, unless it has a port. The test says which happens.
abbrev pub Bound : (ℕ → Bool) → Routes → ℤ → ℕ → Bool → Routes → Type 0
Bound known v fd port b v' =
    ((b ≡ true)
      × (known port ≡ true)
      × (v.ports fd ≡ none)
      × (v'.ports ≐ update v.ports fd (some port))
      × (v'.sockets ≐ v.sockets))
    ⊎ ((b ≡ false) × ((known port ≡ false) ⊎ (v.ports fd ≢ none)) × Same v v')

-- A descriptor gets a socket that has a port, unless it has a socket.
abbrev pub Joined : Routes → ℤ → ℤ → Routes → Type 0
Joined v org fd v' =
    ((v.ports org ≢ none)
      × (v.sockets fd ≡ none)
      × (v'.sockets ≐ update v.sockets fd (some org))
      × (v'.ports ≐ v.ports))
    ⊎ (((v.ports org ≡ none) ⊎ (v.sockets fd ≢ none)) × Same v v')

-- A descriptor loses its socket, which loses its port if no other descriptor has it.
abbrev pub Left : Routes → ℤ → Routes → Type 0
Left v fd v' =
    ((org : ℤ) × (v.sockets fd ≡ some org)
      × (v'.sockets ≐ update v.sockets fd none)
      × ((((q : ℤ) → v'.sockets q ≢ some org) × (v'.ports ≐ update v.ports org none))
          ⊎ (((q : ℤ) × (v'.sockets q ≡ some org)) × (v'.ports ≐ v.ports))))
    ⊎ ((v.sockets fd ≡ none) × Same v v')

-- What a call does to the routes.
abbrev pub Routed : (ℕ → Bool) → Routes → Call → Routes → Type 0
Routed known v (transfer_of libc fd count flag now clock) v' = Same v v'
Routed known v (close_of fd) v' = Left v fd v'
Routed known v (accept_of fd acp_fd) v' =
    if eq_ℤ acp_fd (negsuc 0) then Same v v' else Joined v fd acp_fd v'
Routed known v (bind_of fd port) v' = (b : Bool) × Bound known v fd port b v'
Routed known v (connect_of fd port) v' =
    (b : Bool) × (m : Routes) × Bound known v fd port b m
    × (if b then Joined m fd fd v' else Same m v')

-- The calls one after the other.
pub data Trace (known : ℕ → Bool) : Routes → List Call → Routes → Type 0 where
  ended : {v : Routes} → Trace known v [] v
  next :
      {v m v' : Routes} {call : Call} {calls : List Call}
      → Routed known v call m
      → Trace known m calls v'
      → Trace known v (call ∷ calls) v'
