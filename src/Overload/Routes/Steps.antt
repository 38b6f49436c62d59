-- ===== src/Overload/Routes/Steps.antt =====
-- What single steps of the routes lead to.
use band_width_limiter.Base.{
  ℕ, ◌≡◌, refl, sym, ap, ◌∙◌, Bool, false, Option, none, some, List, [], ◌∷◌, inl, inr, arith,
  eq_of_some,
}
use band_width_limiter.Base.Int.{ℤ, pos, negsuc, eq_ℤ}
use band_width_limiter.Base.Outcome.{ok, Returns}
use band_width_limiter.Tree.Order.{fd_ord}
use band_width_limiter.Tree.Table.Keys.{update, update-cases, update_self}
use band_width_limiter.Sock.{get_dest_port}
use band_width_limiter.Controller.{Controller}
use band_width_limiter.Controller.Invariant.{IsController}
use band_width_limiter.Overload.{run, Call, accept_of}
use band_width_limiter.Overload.Routes.{
  Routes, view, port_for, Joined, Left, Routed, Trace, ended, next, ◌≐◌,
}
use band_width_limiter.Overload.Routes.Run.{known, run-Followed}

abbrev pub Unrolled : (ℕ → Bool) → Routes → List Call → Routes → Type 0
Unrolled known v [] v' = v' ≡ v
Unrolled known v (call ∷ calls) v' =
    (m : Routes) × Routed known v call m × Unrolled known m calls v'

unroll :
    {known : ℕ → Bool} {v v' : Routes} {calls : List Call}
    → Trace known v calls v'
    → Unrolled known v calls v'
unroll ended = refl
unroll (next routed trace) = (_, routed, unroll trace)

-- What holds of the routes after the calls holds of the port that `get_dest_port` finds.
pub followed :
    (c : Controller) (calls : List Call) (fd : ℤ) (o : Option ℕ)
    → IsController c
    → ((v' : Routes) → Unrolled (known c) (view c.soc_str) calls v' → port_for v' fd ≡ o)
    → Returns (λ c'. get_dest_port c'.soc_str fd ≡ ok o) (run c calls)
followed c calls fd o v leads =
    let (c', got, (_, trace, reads)) = run-Followed c calls v in
    (c', got, reads fd ∙ ap ok (leads (view c'.soc_str) (unroll trace)))

-- The descriptor that `accept` returns.
succeeded : (fd : ℕ) → eq_ℤ (pos fd) (negsuc 0) ≡ false
succeeded fd = ground arith

pub accepted :
    (known : ℕ → Bool) (v v' : Routes) (org : ℤ) (fd : ℕ)
    → Routed known v (accept_of org (pos fd)) v'
    → Joined v org (pos fd) v'
accepted known v v' org fd h = rw (succeeded fd) at h

-- A new descriptor of a socket with a port.
pub joins :
    (v v' : Routes) (org fd : ℤ) (port : ℕ)
    → v.ports org ≡ some port
    → v.sockets fd ≡ none
    → Joined v org fd v'
    → (v'.sockets ≐ update v.sockets fd (some org)) × (v'.ports ≐ v.ports)
joins v v' org fd port e f (inl (_, _, sockets, ports)) = (sockets, ports)
joins v v' org fd port e f (inr (inl none', _)) = absurd (cc (sym e ∙ none'))
joins v v' org fd port e f (inr (inr taken, _)) = absurd (taken f)

-- The port of a descriptor with a socket.
pub leads_to :
    (v : Routes) (fd org : ℤ) (o : Option ℕ)
    → v.sockets fd ≡ some org
    → v.ports org ≡ o
    → port_for v fd ≡ o
leads_to v fd org o e f = rw (e) f

pub nowhere_to : (v : Routes) (fd : ℤ) → v.sockets fd ≡ none → port_for v fd ≡ none
nowhere_to v fd e = rw (e) refl

-- A listening socket whose only client closes.
pub last_client :
    (v m : Routes) (org fd : ℤ)
    → ((q : ℤ) → v.sockets q ≡ some org → q ≡ fd)
    → v.sockets fd ≡ some org
    → Left v fd m
    → (m.ports org ≡ none)
      × ((q : ℤ) → v.sockets q ≡ none → m.sockets q ≡ none)
      × (m.sockets fd ≡ none)
last_client v m org fd only e (inr (none', _)) = absurd (cc (sym e ∙ none'))
last_client v m org fd only e (inl (org', e', sockets, inl (_, ports))) =
    let same : org' ≡ org = eq_of_some (sym e' ∙ e) in
    (
      ports org ∙ ap (λ k. update v.ports k none org) same ∙ update_self v.ports org none,
      λ q h. sockets q ∙ still_none q h,
      sockets fd ∙ update_self v.sockets fd none,
    )
  where
    still_none : (q : ℤ) → v.sockets q ≡ none → update v.sockets fd none q ≡ none
    still_none q h = elim (update-cases v.sockets fd none q) [
      | inl (_, got) ↦ got
      | inr (_, got) ↦ got ∙ h
    ]
last_client v m org fd only e (inl (org', e', sockets, inr ((q, at), ports))) =
    let same : org' ≡ org = eq_of_some (sym e' ∙ e) in
    elim (update-cases v.sockets fd none q) [
      | inl (_, got) ↦ absurd (cc (sym at ∙ sockets q ∙ got))
      | inr (other, got) ↦
          let here : q ≡ fd = only q (sym got ∙ sym (sockets q) ∙ at ∙ ap some same) in
          absurd (
            cc (
              sym (update_self v.sockets fd none)
              ∙ ap (update v.sockets fd none) (sym here)
              ∙ sym (sockets q)
              ∙ at))
    ]
