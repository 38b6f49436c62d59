-- ===== src/Overload/Routes/Defects.antt =====
-- Where the routes are not those of the program: descriptors that escape the limit, or have the limit
-- of another port.
use band_width_limiter.Base.{ℕ, ◌≡◌, ◌≢◌, sym, ap, ◌∙◌, none, some, [], ◌∷◌, inl, inr, eq_of_some}
use band_width_limiter.Base.Int.{ℤ, pos}
use band_width_limiter.Base.Outcome.{ok, Returns}
use band_width_limiter.Tree.Order.{fd_ord}
use band_width_limiter.Tree.Table.Keys.{update-cases, update_self}
use band_width_limiter.Sock.{get_dest_port}
use band_width_limiter.Controller.{Controller}
use band_width_limiter.Controller.Invariant.{IsController}
use band_width_limiter.Overload.{run, close_of, accept_of, bind_of}
use band_width_limiter.Overload.Routes.{Routes, view, port_for, Left, Joined}
use band_width_limiter.Overload.Routes.Run.{known}
use band_width_limiter.Overload.Routes.Steps.{
  followed, accepted, joins, leads_to, nowhere_to, last_client,
}

-- The socket `org` listens on a port, and `first` is accepted on it.
module _ (v m : Routes) (org first : ℤ) (port : ℕ) (listens : v.ports org ≡ some port)
    (new : v.sockets first ≡ none) (join : Joined v org first m) where
  joined_port : port_for m first ≡ some port
  joined_port =
      let (sockets, ports) = joins v m org first port listens new join in
      leads_to m first org (some port) (sockets first ∙ update_self v.sockets first (some org))
        (ports org ∙ listens)

  joined_only : ((q : ℤ) → v.sockets q ≢ some org) → (q : ℤ) → m.sockets q ≡ some org → q ≡ first
  joined_only alone q e =
      let (sockets, _) = joins v m org first port listens new join in
      elim (update-cases v.sockets first (some org) q) [
        | inl (same, _) ↦ sym same
        | inr (_, got) ↦ absurd (alone q (sym got ∙ sym (sockets q) ∙ e))
      ]

-- After its only client, a socket has no port, and the next client gets none.
abandoned :
    (v m m' n : Routes) (org first second : ℤ) (port : ℕ)
    → v.ports org ≡ some port
    → ((q : ℤ) → v.sockets q ≢ some org)
    → v.sockets first ≡ none
    → v.sockets second ≡ none
    → Joined v org first m
    → Left m first m'
    → Joined m' org second n
    → port_for n second ≡ none
abandoned v m m' n org first second port listens alone new new' join left join' =
    let (sockets, ports) = joins v m org first port listens new join in
    let (no_port, others, gone) =
      last_client m m' org first (joined_only v m org first port listens new join alone)
        (sockets first ∙ update_self v.sockets first (some org)) left in
    let absent : m'.sockets second ≡ none = elim (update-cases v.sockets first (some org) second) [
      | inl (same, _) ↦ ap m'.sockets (sym same) ∙ gone
      | inr (_, got) ↦ others second (sockets second ∙ got ∙ new')
    ] in
    elim join' [
      | inl (port', _, _, _) ↦ absurd (port' no_port)
      | inr (_, (_, same)) ↦ nowhere_to n second (same second ∙ absent)
    ]

-- A socket that listens is forgotten with its client. In a valid state, let a socket have a port
-- and no accepted descriptor, and let two descriptors not be accepted: the first that is accepted
-- on the socket goes to the port; but if it is closed, and then the second is accepted on the same
-- socket, the second has no port.
pub second_client_escapes :
    (c : Controller) (org : ℤ) (first second port : ℕ)
    → IsController c
    → (view c.soc_str).ports org ≡ some port
    → ((q : ℤ) → (view c.soc_str).sockets q ≢ some org)
    → (view c.soc_str).sockets (pos first) ≡ none
    → (view c.soc_str).sockets (pos second) ≡ none
    → Returns
        (λ c'. get_dest_port c'.soc_str (pos first) ≡ ok (some port))
        (run c (accept_of org (pos first) ∷ []))
      × Returns
          (λ c'. get_dest_port c'.soc_str (pos second) ≡ ok none)
          (run c
            (accept_of org (pos first) ∷ close_of (pos first) ∷ accept_of org (pos second) ∷ []))
second_client_escapes c org first second port v listens alone new new' =
    let r = view c.soc_str in
    (
      followed c _ (pos first) (some port) v (λ v' (m, join, e).
          ap (λ x. port_for x (pos first)) e
          ∙ joined_port r m org (pos first) port listens new
              (accepted (known c) r m org first join)),
      followed c _ (pos second) none v (λ v' (m, join, (m', left, (n, join', e))).
          ap (λ x. port_for x (pos second)) e
          ∙ abandoned r m m' n org (pos first) (pos second) port listens alone new new'
              (accepted (known c) r m org first join) left
              (accepted (known c) m' n org second join')),
    )

-- In a valid state, let a socket have a port and no accepted descriptor, and not be accepted
-- itself. After it is closed, and a new socket with the same number is bound to any other port, a
-- descriptor that is accepted on the new socket goes to the old port.
pub closed_socket_stays :
    (c : Controller) (fd : ℤ) (client port other : ℕ)
    → IsController c
    → (view c.soc_str).ports fd ≡ some port
    → (view c.soc_str).sockets fd ≡ none
    → (view c.soc_str).sockets (pos client) ≡ none
    → Returns
        (λ c'. get_dest_port c'.soc_str (pos client) ≡ ok (some port))
        (run c (close_of fd ∷ bind_of fd other ∷ accept_of fd (pos client) ∷ []))
closed_socket_stays c fd client port other v listens alone new =
    let r = view c.soc_str in
    followed c _ (pos client) (some port) v (λ v' (m, left, (m', (b, bound), (n, join, e))).
      ap (λ x. port_for x (pos client)) e ∙ elim left [
        | inl (_, taken, _, _) ↦ absurd (cc (sym taken ∙ alone))
        | inr (_, (ports, sockets)) ↦
            let listens' : m.ports fd ≡ some port = ports fd ∙ listens in
            elim bound [
              | inl (_, _, free, _, _) ↦ absurd (cc (sym free ∙ listens'))
              | inr (_, _, (ports', sockets')) ↦
                  joined_port m' n fd (pos client) port (ports' fd ∙ listens')
                    (sockets' (pos client) ∙ sockets (pos client) ∙ new)
                    (accepted (known c) m' n fd client join)
            ]
      ])

-- A descriptor that is closed leaves the sockets of others their ports.
other_port :
    (v m : Routes) (fd org org' : ℤ) (port : ℕ)
    → v.sockets fd ≡ some org'
    → v.ports org ≡ some port
    → org' ≢ org
    → Left v fd m
    → (m.ports org ≡ some port) × (m.sockets fd ≡ none)
other_port v m fd org org' port e listens apart (inr (none', _)) = absurd (cc (sym e ∙ none'))
other_port v m fd org org' port e listens apart (inl (org'', e', sockets, inr (_, ports))) =
    (ports org ∙ listens, sockets fd ∙ update_self v.sockets fd none)
other_port v m fd org org' port e listens apart (inl (org'', e', sockets, inl (_, ports))) = (
  elim (update-cases v.ports org'' none org) [
    | inl (same, _) ↦ absurd (apart (eq_of_some (sym e ∙ e') ∙ same))
    | inr (_, got) ↦ ports org ∙ got ∙ listens
  ],
  sockets fd ∙ update_self v.sockets fd none,
)

-- The books of the new descriptor come before those of the old one.
crossed_books :
    (v m n : Routes) (org fd org' : ℤ)
    → v.sockets fd ≡ some org'
    → Joined v org fd m
    → Left m fd n
    → port_for n fd ≡ none
crossed_books v m n org fd org' e (inl (_, free, _, _)) left = absurd (cc (sym e ∙ free))
crossed_books v m n org fd org' e (inr (_, (_, same))) (inr (none', _)) =
    absurd (cc (sym e ∙ sym (same fd) ∙ none'))
crossed_books v m n org fd org' e (inr (_, (_, same))) (inl (_, _, sockets, _)) =
    nowhere_to n fd (sockets fd ∙ update_self m.sockets fd none)

-- The books of two calls, in both orders. In a valid state, let a descriptor be
-- accepted on one socket, and another socket have a port. If the books of `close` come before
-- those of an `accept` that returned the same descriptor on the other socket, it goes to that
-- port; if they come after them, it has no port.
pub close_accept_orders :
    (c : Controller) (org org' : ℤ) (fd port : ℕ)
    → IsController c
    → (view c.soc_str).ports org ≡ some port
    → (view c.soc_str).sockets (pos fd) ≡ some org'
    → org' ≢ org
    → Returns
        (λ c'. get_dest_port c'.soc_str (pos fd) ≡ ok (some port))
        (run c (close_of (pos fd) ∷ accept_of org (pos fd) ∷ []))
      × Returns
          (λ c'. get_dest_port c'.soc_str (pos fd) ≡ ok none)
          (run c (accept_of org (pos fd) ∷ close_of (pos fd) ∷ []))
close_accept_orders c org org' fd port v listens taken apart =
    let r = view c.soc_str in
    (
      followed c _ (pos fd) (some port) v (λ v' (m, left, (n, join, e)).
          let (stays, free) = other_port r m (pos fd) org org' port taken listens apart left in
          ap (λ x. port_for x (pos fd)) e
          ∙ joined_port m n org (pos fd) port stays free (accepted (known c) m n org fd join)),
      followed c _ (pos fd) none v (λ v' (m, join, (n, left, e)).
          ap (λ x. port_for x (pos fd)) e
          ∙ crossed_books r m n org (pos fd) org' taken (accepted (known c) r m org fd join) left),
    )
