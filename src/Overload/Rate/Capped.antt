-- ===== src/Overload/Rate/Capped.antt =====
-- The bytes that a port moves in a time.
use Prim.Native.Nat.Ordering.{eq}
use mathlib.Core.Path.{subst}
use band_width_limiter.Base.{
  ℕ, suc, ◌+◌, ◌-◌, ◌*◌, ◌/◌, ◌^◌, ◌≤◌, ◌<◌, ◌≡◌, ◌≢◌, refl, sym, ap, ◌∙◌, Bool, true, false,
  if◌then◌else◌, Option, some, List, [], ◌∷◌, All, inl, inr, arith, Bool-cases, ◌==◌, eq_of_some,
}
use band_width_limiter.Base.Int.{ℤ, pos, pos_part, ◌≤ℤ◌}
use band_width_limiter.Base.Outcome.{ok, Returns}
use band_width_limiter.Tree.Order.{port_ord, uint32_comp}
use band_width_limiter.Tree.Table.Keys.{update-cases}
use band_width_limiter.Sock.{Timespec, get_dest_port}
use band_width_limiter.Sock.Port.{PortOf}
use band_width_limiter.Env.{PortStruct, with_remaining}
use band_width_limiter.Env.Limits.{port_of}
use band_width_limiter.Controller.{Controller, nano_mult, regis_new_created_socket}
use band_width_limiter.Controller.Grant.{Granted}
use band_width_limiter.Controller.Invariant.{IsController, nowhere, bound_for, destination}
use band_width_limiter.Controller.PreOp.{cut}
use band_width_limiter.Overload.{transfer, step, close, accept, bind, connect, to_ssize, to_size}
use band_width_limiter.Overload.Transfer.{
  settled, PortOf-accepted, PortOf-unique, transfer-Transferred,
}
use band_width_limiter.Overload.Safety.{step-IsController}
use band_width_limiter.Overload.Budget.{asked, below}
use band_width_limiter.Overload.Rate.{
  at_ns, sleep_of, share, goes_to, same_flag, Keeping, closes, accepts, binds, connects, call_of,
  Turn, moves, keeps, vectors, vectored, live,
}
use band_width_limiter.Overload.Rate.Bound.{Touched, allowed, allowed_turn, allowed_le}
use band_width_limiter.Overload.Rate.Turns.{
  HasWindow, Turned, granted_window, sleep_of-waited, settled-Turned, settled_other,
}

-- A transfer that moved nothing of the port in the direction.
kept-Turned :
    (flag : Bool) (p : PortStruct) (l clock b s m : ℕ)
    → HasWindow flag p l b s
    → m ≡ 0
    → Turned flag p l clock b s m
kept-Turned flag p l clock b s m w e = (b, s, w, (inl (refl, e), inl (omega (arith, e))))

not_shared :
    (port : ℕ) (flag : Bool) (c : Controller) (fd : ℤ) (way : Bool) (n : ℤ)
    → goes_to port (get_dest_port c.soc_str fd) ≡ false
    → share port flag c fd way n ≡ 0
not_shared port flag c fd way n e =
    rw (e) (elim (Bool-cases (same_flag flag way)) [ inl f ↦ rw (f) refl | inr f ↦ rw (f) refl ])

same_flag_sound : (flag way : Bool) → same_flag flag way ≡ true → way ≡ flag
same_flag_sound true true e = refl
same_flag_sound false false e = refl
same_flag_sound true false e = absurd (cc e)
same_flag_sound false true e = absurd (cc e)

-- After a transfer the port still has its limit, and what it moved was allowed.
abbrev AfterTurn : ℕ → Bool → Controller → ℤ → Bool → ℕ → ℕ → ℕ → ℕ → Controller × ℤ → Type 0
AfterTurn port flag c fd way l clock b s (c', n) =
    IsController c'
    × ((p : PortStruct) × (port_of c'.reg_env_str port ≡ some p)
        × Turned flag p l clock b s (share port flag c fd way n))

shared :
    (port : ℕ) (flag : Bool) (c : Controller) (fd : ℤ) (way : Bool) (n : ℤ)
    → get_dest_port c.soc_str fd ≡ ok (some port)
    → same_flag flag way ≡ true
    → share port flag c fd way n ≡ pos_part n
shared port flag c fd way n to same =
    let here : (port == port) ≡ true = ground arith in rw (same) rw (to) rw (here) refl

crossed :
    (port : ℕ) (flag : Bool) (c : Controller) (fd : ℤ) (way : Bool) (n : ℤ)
    → same_flag flag way ≡ false
    → share port flag c fd way n ≡ 0
crossed port flag c fd way n other = rw (other) refl

goes_elsewhere : (a b : ℕ) → uint32_comp a b ≢ eq → goes_to b (ok (some a)) ≡ false
unfolding uint32_comp
goes_elsewhere a b h = ground (arith, h)

-- A transfer of a descriptor of the port.
own_port-Turned :
    (port : ℕ) (flag : Bool) (libc : ℕ → ℤ) (c : Controller) (fd : ℤ) (count : ℕ) (way : Bool)
    (now took : ℕ) (p : PortStruct) (l b s : ℕ) (n bytes counter : ℤ) (sleep : Option Timespec)
    → IsController c
    → ((m : ℕ) → libc m ≤ℤ pos m)
    → count < 2 ^ 63
    → port_of c.reg_env_str port ≡ some p
    → HasWindow flag p l b s
    → s ≤ now
    → PortOf c.soc_str fd (some port)
    → get_dest_port c.soc_str fd ≡ ok (some port)
    → Granted way p (at_ns now) bytes counter sleep
    → n ≡ libc (to_size (cut (to_ssize count) bytes))
    → Turned flag
        (settled way
          (at_ns (now + sleep_of c fd way (at_ns now) + took))
          n
          (with_remaining way counter p))
        l
        (now + sleep_of c fd way (at_ns now) + took)
        b
        s
        (share port flag c fd way n)
own_port-Turned port flag libc c fd count way now took p l b s n bytes counter sleep v lawful small
      limits w past at to granted done =
    let clock = now + sleep_of c fd way (at_ns now) + took in
    elim (Bool-cases (same_flag flag way)) [
      | inr other ↦
          kept-Turned flag (settled way (at_ns clock) n (with_remaining way counter p)) l clock b s
            _ (settled_other flag way p l b s (at_ns clock) n counter other w)
            (crossed port flag c fd way n other)
      | inl same ↦
          let ways : way ≡ flag = same_flag_sound flag way same in
          let slept = sleep_of-waited c fd flag port p s now v at limits w.1 past in
          let (k, bytes_k, counter_k, within, whose) =
            granted_window flag p l b s now clock w past (omega arith)
              (λ u early spent.
                omega (arith, slept u early spent, ap (λ f. sleep_of c fd f (at_ns now)) ways))
              (subst (λ f. Granted f p (at_ns now) bytes counter sleep) ways granted) in
          let (few, fits) = asked count k small in
          let n_size : n ≤ℤ pos (to_size (cut (to_ssize count) (pos k))) =
            rw (done, bytes_k) (lawful (to_size (cut (to_ssize count) (pos k)))) in
          subst
            (λ m.
              Turned flag (settled way (at_ns clock) n (with_remaining way counter p)) l clock b s
                m)
            (sym (shared port flag c fd way n to same))
            (subst
              (λ f.
                Turned flag (settled f (at_ns clock) n (with_remaining f counter p)) l clock b s
                  (pos_part n))
              (sym ways)
              (settled-Turned flag p l b s clock k n counter w counter_k within
                (below n _ k n_size fits) whose))
    ]

transfer-AfterTurn :
    (port : ℕ) (flag : Bool) (libc : ℕ → ℤ) (c : Controller) (fd : ℤ) (count : ℕ) (way : Bool)
    (now took : ℕ) (p : PortStruct) (l b s : ℕ)
    → IsController c
    → ((m : ℕ) → libc m ≤ℤ pos m)
    → count < 2 ^ 63
    → port_of c.reg_env_str port ≡ some p
    → HasWindow flag p l b s
    → s ≤ now
    → Returns (AfterTurn port flag c fd way l (now + sleep_of c fd way (at_ns now) + took) b s) (
        transfer libc c fd count way
          (at_ns now)
          (some (at_ns (now + sleep_of c fd way (at_ns now) + took))))
unfolding port_ord uint32_comp
transfer-AfterTurn port flag libc c fd count way now took p l b s v lawful small limits w past =
    let clock = now + sleep_of c fd way (at_ns now) + took in
    let (r, got, (v1, _, moved)) =
      transfer-Transferred libc c fd count way (at_ns now) (at_ns clock) v in
    (
      r,
      got,
      (
        v1,
        elim (destination c fd v) [
          | nowhere none' to _ ↦ elim moved [
            | inl (_, _, same) ↦ (
              p,
              ap (λ x. port_of x.reg_env_str port) same ∙ limits,
              kept-Turned flag p l clock b s _ w
                  (not_shared port flag c fd way r.1 (ap (goes_to port) to)),
            )
            | inr (port', p', bytes, counter, sleep, at', _, _, _, _) ↦
                absurd (PortOf-accepted c.soc_str fd port' at' none')
          ]
          | bound_for to_port q at to _ _ ↦ elim moved [
            | inl (absent, _, _) ↦ absurd (PortOf-accepted c.soc_str fd to_port at absent)
            | inr (port', p', bytes, counter, sleep, at', limits', granted, done, settles) ↦
                let ports : to_port ≡ port' = PortOf-unique c.soc_str fd to_port port' at at' in
                elim (update-cases (port_of c.reg_env_str) port'
                  (some (settled way (at_ns clock) r.1 (with_remaining way counter p'))) port) [
                    | inr (other, kept) ↦ (
                      p,
                      settles port ∙ kept ∙ limits,
                      kept-Turned flag p l clock b s _ w (
                          not_shared port flag c fd way r.1 (
                            ap (λ x. goes_to port x) (to ∙ ap (λ x. ok (some x)) ports)
                            ∙ goes_elsewhere port' port other)),
                    )
                    | inl (same, new) ↦
                        let infos : p ≡ p' =
                          eq_of_some
                            (sym limits ∙ ap (port_of c.reg_env_str) (sym same) ∙ limits') in
                        (
                          settled way (at_ns clock) r.1 (with_remaining way counter p'),
                          settles port ∙ new,
                          own_port-Turned port flag libc c fd count way now took p' l b s r.1 bytes
                              counter sleep v lawful small (limits ∙ ap some infos)
                              (subst (λ x. HasWindow flag x l b s) infos w) past
                              (subst (λ x. PortOf c.soc_str fd (some x)) same at')
                              (to ∙ ap (λ x. ok (some x)) (ports ∙ same)) granted done,
                        )
                  ]
          ]
        ],
      ),
    )

recorded_before : (clock s m s' : ℕ) → s ≤ clock → Touched clock s m s' → s' ≤ clock
recorded_before clock s m s' h (inl (same, _)) = omega (arith, h, same)
recorded_before clock s m s' h (inr same) = omega (arith, same)

-- A wrapper that keeps the books leaves the ports alone.
same_table :
    (c c' : Controller) (call : Keeping)
    → step c (call_of call) ≡ ok c'
    → c'.reg_env_str ≡ c.reg_env_str
unfolding step close accept bind connect regis_new_created_socket
same_table c c' (closes fd) h = ground (arith, h)
same_table c c' (accepts fd acp_fd) h = ground (arith, h)
same_table c c' (binds fd port) h = ground (arith, h)
same_table c c' (connects fd port) h = ground (arith, h)

-- A transfer is fair if libc moves at most what it is asked for, and the demand is below 2^63.
abbrev pub IsFairTurn : Turn → Type 0
IsFairTurn (moves idle took libc fd count way) = ((m : ℕ) → libc m ≤ℤ pos m) × (count < 2 ^ 63)
IsFairTurn (keeps idle call) = Unit {0}
IsFairTurn (vectors took fd n way) = Unit {0}

abbrev pub Within : ℕ → ℕ → ℕ → ℕ → ℕ → Controller × ℕ × ℕ → Type 0
Within l b s t free (c', end, moved) =
    IsController c' × (t ≤ end) × (moved ≤ allowed l b s t end + free)

share_le :
    (port : ℕ) (flag : Bool) (c : Controller) (fd : ℤ) (way : Bool) (n : ℤ)
    → share port flag c fd way n ≤ (if same_flag flag way then pos_part n else 0)
share_le port flag c fd way n = elim (Bool-cases (same_flag flag way)) [
  | inr e ↦ rw (e) (omega arith)
  | inl e ↦ rw (e) (elim (Bool-cases (goes_to port (get_dest_port c.soc_str fd))) [
    | inl g ↦ rw (g) (omega arith)
    | inr g ↦ rw (g) (omega arith)
  ])
]

live-Within :
    (port : ℕ) (flag : Bool) (t : ℕ) (c : Controller) (turns : List Turn) (p : PortStruct)
    (l b s : ℕ)
    → IsController c
    → All IsFairTurn turns
    → port_of c.reg_env_str port ≡ some p
    → HasWindow flag p l b s
    → s ≤ t
    → Returns (Within l b s t (vectored flag turns)) (live port flag t c turns)
unfolding live
live-Within port flag t c [] p l b s v fair limits w past =
    ((c, t, 0), refl, (v, omega arith, omega arith))
live-Within port flag t c (moves idle took libc fd count way ∷ turns) p l b s v
      ((lawful, small), fair) limits w past =
    let now = t + idle in
    let clock = now + sleep_of c fd way (at_ns now) + took in
    let ((c1, n), got, (v1, (p1, limits1, (b1, s1, w1, drawn)))) =
      transfer-AfterTurn port flag libc c fd count way now took p l b s v lawful small limits w
        (omega (arith, past)) in
    let ((c2, end, moved), got', (v2, on, few)) =
      live-Within port flag clock c1 turns p1 l b1 s1 v1 fair limits1 w1
        (recorded_before clock s _ s1 (omega (arith, past)) drawn.0) in
    (
      (c2, end, share port flag c fd way n + moved),
      rw (got) rw (got') refl,
      (
        v2,
        omega (arith, on),
        omega (
          arith,
          few,
          allowed_turn l b s t end clock past (omega arith) on w.0.2 (share port flag c fd way n) b1
              s1 drawn,
        ),
      ),
    )
live-Within port flag t c (keeps idle call ∷ turns) p l b s v (_, fair) limits w past =
    let (c1, got, v1) = step-IsController c (call_of call) v in
    let same = same_table c c1 call got in
    let ((c2, end, moved), got', (v2, on, few)) =
      live-Within port flag (t + idle) c1 turns p l b s v1 fair
        (ap (λ x. port_of x port) same ∙ limits) w (omega (arith, past)) in
    (
      (c2, end, moved),
      rw (got) got',
      (
        v2,
        omega (arith, on),
        omega (
          arith,
          few,
          allowed_turn l b s t end (t + idle) past (omega arith) on w.0.2 0 b s
              (inl (refl, refl), inl (omega arith)),
        ),
      ),
    )
live-Within port flag t c (vectors took fd n way ∷ turns) p l b s v (_, fair) limits w past =
    let ((c2, end, moved), got, (v2, on, few)) =
      live-Within port flag (t + took) c turns p l b s v fair limits w (omega (arith, past)) in
    (
      (c2, end, share port flag c fd way n + moved),
      rw (got) refl,
      (
        v2,
        omega (arith, on),
        omega (
          arith,
          few,
          share_le port flag c fd way n,
          allowed_turn l b s t end (t + took) past (omega arith) on w.0.2 0 b s
              (inl (refl, refl), inl (omega arith)),
        ),
      ),
    )

-- In a valid state, let a port have a limit of `l` bytes in a direction, of which `b`, at most
-- `l`, are left, with the last access not after the time `t`. From `t` on, if libc transfers at
-- most what it is asked for and the demands are below 2^63, any row of calls of the transfers,
-- `readv`, `writev`, `close`, `accept`, `bind` and `connect` returns in a valid state, and in it
-- the descriptors that are accepted for the port move in the direction, together, at most `b`
-- bytes, and `l` more for each second begun (one more than the whole seconds that pass), and what
-- the calls of `readv` (for a write, of `writev`) in the row answer, which have no limit. The
-- clock shows the time that passes, a sleep lasts at least as long as it was asked for, and a call
-- ends before the next begins; `dup` and `dup2` are not among the calls.
pub live-Capped :
    (port : ℕ) (flag : Bool) (t : ℕ) (c : Controller) (turns : List Turn) (p : PortStruct)
    (l b s : ℕ)
    → IsController c
    → All IsFairTurn turns
    → port_of c.reg_env_str port ≡ some p
    → HasWindow flag p l b s
    → s ≤ t
    → Returns
        (λ (c', end, moved).
          IsController c'
          × (t ≤ end)
          × (moved ≤ b + l * suc ((end - t) / nano_mult) + vectored flag turns))
        (live port flag t c turns)
live-Capped port flag t c turns p l b s v fair limits w past =
    let ((c1, end, moved), got, (v1, on, few)) =
      live-Within port flag t c turns p l b s v fair limits w past in
    ((c1, end, moved), got, (v1, on, omega (arith, few, allowed_le l b s t end past on)))
