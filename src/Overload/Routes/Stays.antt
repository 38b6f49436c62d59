-- ===== src/Overload/Routes/Stays.antt =====
-- How long a descriptor keeps its port.
use band_width_limiter.Base.{
  ℕ, ◌≡◌, ◌≢◌, sym, ap, ◌∙◌, Bool, true, false, Option, none, some, List, All, inl, inr, Bool-cases,
  Option-cases,
}
use band_width_limiter.Base.Int.{ℤ, negsuc, eq_ℤ}
use band_width_limiter.Base.Outcome.{ok, Returns}
use band_width_limiter.Tree.Order.{fd_ord}
use band_width_limiter.Tree.Table.Keys.{update, update-cases}
use band_width_limiter.Sock.{get_dest_port}
use band_width_limiter.Controller.{Controller}
use band_width_limiter.Controller.Invariant.{IsController}
use band_width_limiter.Overload.{run, Call, transfer_of, close_of, accept_of, bind_of, connect_of}
use band_width_limiter.Overload.Routes.{
  Routes, view, port_for, Same, Bound, Joined, Left, Routed, Trace, ended, next,
}
use band_width_limiter.Overload.Routes.Run.{run-Followed, get_dest_port-port_for}
use band_width_limiter.Overload.Routes.Steps.{leads_to}

-- The descriptor has a socket, and the socket the port.
abbrev LeadsTo : ℤ → ℤ → ℕ → Routes → Type 0
LeadsTo fd org port v = (v.sockets fd ≡ some org) × (v.ports org ≡ some port)

-- A change of a map at a key where nothing is leaves what is elsewhere.
elsewhere :
    {V : Type 0} (f : ℤ → Option V) (k q : ℤ) (o : Option V) (w : V)
    → f k ≡ none
    → f q ≡ some w
    → update f k o q ≡ some w
elsewhere f k q o w free e = elim (update-cases f k o q) [
  | inl (same, _) ↦ absurd (cc (sym free ∙ ap f same ∙ e))
  | inr (_, got) ↦ got ∙ e
]

other_key :
    {V : Type 0} (f : ℤ → Option V) (k q : ℤ) (o w : Option V)
    → k ≢ q
    → f q ≡ w
    → update f k o q ≡ w
other_key f k q o w apart e = elim (update-cases f k o q) [
  | inl (same, _) ↦ absurd (apart same)
  | inr (_, got) ↦ got ∙ e
]

-- The call does not close the descriptor.
abbrev pub Spares : ℤ → Call → Type 0
Spares fd (close_of q) = q ≢ fd
Spares fd call = Unit {0}

module _ (fd org : ℤ) (port : ℕ) where
  Same-LeadsTo : (v v' : Routes) → Same v v' → LeadsTo fd org port v → LeadsTo fd org port v'
  Same-LeadsTo v v' (ports, sockets) (e, f) = (sockets fd ∙ e, ports org ∙ f)

  Bound-LeadsTo :
      (know : ℕ → Bool) (v v' : Routes) (q : ℤ) (p : ℕ) (b : Bool)
      → Bound know v q p b v'
      → LeadsTo fd org port v
      → LeadsTo fd org port v'
  Bound-LeadsTo know v v' q p b (inl (_, _, free, ports, sockets)) (e, f) =
      (sockets fd ∙ e, ports org ∙ elsewhere v.ports q org (some p) port free f)
  Bound-LeadsTo know v v' q p b (inr (_, _, same)) h = Same-LeadsTo v v' same h

  Joined-LeadsTo :
      (v v' : Routes) (o q : ℤ) → Joined v o q v' → LeadsTo fd org port v → LeadsTo fd org port v'
  Joined-LeadsTo v v' o q (inl (_, free, sockets, ports)) (e, f) =
      (sockets fd ∙ elsewhere v.sockets q fd (some o) org free e, ports org ∙ f)
  Joined-LeadsTo v v' o q (inr (_, same)) h = Same-LeadsTo v v' same h

  -- Another descriptor goes; the socket still has this one.
  Left-LeadsTo :
      (v v' : Routes) (q : ℤ)
      → q ≢ fd
      → Left v q v'
      → LeadsTo fd org port v
      → LeadsTo fd org port v'
  Left-LeadsTo v v' q apart (inr (_, same)) h = Same-LeadsTo v v' same h
  Left-LeadsTo v v' q apart (inl (o, _, sockets, inr (_, ports))) (e, f) =
      (sockets fd ∙ other_key v.sockets q fd none (some org) apart e, ports org ∙ f)
  Left-LeadsTo v v' q apart (inl (o, _, sockets, inl (alone, ports))) (e, f) =
      let stays = sockets fd ∙ other_key v.sockets q fd none (some org) apart e in
      (
        stays,
        ports org
            ∙ other_key v.ports o org none (some port)
                (λ same. alone fd (stays ∙ ap some (sym same))) f,
      )

  Routed-LeadsTo :
      (know : ℕ → Bool) (v v' : Routes) (call : Call)
      → Spares fd call
      → Routed know v call v'
      → LeadsTo fd org port v
      → LeadsTo fd org port v'
  Routed-LeadsTo know v v' (transfer_of libc q count flag now clock) s r h = Same-LeadsTo v v' r h
  Routed-LeadsTo know v v' (close_of q) s r h = Left-LeadsTo v v' q s r h
  Routed-LeadsTo know v v' (accept_of o q) s r h = elim (Bool-cases (eq_ℤ q (negsuc 0))) [
    | inl failed ↦ Same-LeadsTo v v' (rw (failed) at r) h
    | inr fine ↦ Joined-LeadsTo v v' o q (rw (fine) at r) h
  ]
  Routed-LeadsTo know v v' (bind_of q p) s (b, bound) h = Bound-LeadsTo know v v' q p b bound h
  Routed-LeadsTo know v v' (connect_of q p) s (true, m, bound, joined) h =
      Joined-LeadsTo m v' q q joined (Bound-LeadsTo know v m q p true bound h)
  Routed-LeadsTo know v v' (connect_of q p) s (false, m, bound, same) h =
      Same-LeadsTo m v' same (Bound-LeadsTo know v m q p false bound h)

  Trace-LeadsTo :
      {know : ℕ → Bool} {v v' : Routes} {calls : List Call}
      → Trace know v calls v'
      → All (Spares fd) calls
      → LeadsTo fd org port v
      → LeadsTo fd org port v'
  Trace-LeadsTo ended spared h = h
  Trace-LeadsTo {know} {v} (next {m = m} {call = call} routed trace) (s, spared) h =
      Trace-LeadsTo trace spared (Routed-LeadsTo know v m call s routed h)

-- A descriptor with a port has a socket with that port.
led :
    (v : Routes) (fd : ℤ) (port : ℕ) → port_for v fd ≡ some port → (org : ℤ) × LeadsTo fd org port v
led v fd port e = elim (Option-cases (v.sockets fd)) [
  | inl none' ↦ absurd (cc (rw (none') at e))
  | inr (org, some') ↦ (org, (some', rw (some') at e))
]

-- A descriptor keeps its port until it is closed. From a valid state in which `get_dest_port`
-- gives a port for a descriptor, every sequence of calls of the wrappers (transfers, `close` of
-- other descriptors, `accept`, `bind` and `connect`, whatever libc answers) returns in a valid
-- state in which it gives the same port. `dup` and `dup2` are not among the calls, and the clock
-- of a transfer works.
pub stays_limited :
    (c : Controller) (calls : List Call) (fd : ℤ) (port : ℕ)
    → IsController c
    → get_dest_port c.soc_str fd ≡ ok (some port)
    → All (Spares fd) calls
    → Returns (λ c'. IsController c' × (get_dest_port c'.soc_str fd ≡ ok (some port))) (run c calls)
stays_limited c calls fd port v at spared =
    let leads : port_for (view c.soc_str) fd ≡ some port =
      cc (sym (get_dest_port-port_for c fd v) ∙ at) in
    let (org, h) = led (view c.soc_str) fd port leads in
    let (c', got, (v', trace, reads)) = run-Followed c calls v in
    let (e, f) = Trace-LeadsTo fd org port trace spared h in
    (c', got, (v', reads fd ∙ ap ok (leads_to (view c'.soc_str) fd org (some port) e f)))
