-- ===== src/Overload/Routes/Races.antt =====
-- `close` and `accept` in two threads. A wrapper calls libc without the lock, `close` before its books
-- and `accept` too, so the parts of one may come between those of the other.
use mathlib.Core.Path.{subst}
use band_width_limiter.Base.{
  ℕ, ◌≡◌, ◌≢◌, refl, sym, ◌∙◌, Bool, true, false, Option, none, some, List, [], ◌∷◌, if◌then◌else◌,
  arith,
}
use band_width_limiter.Base.Int.{ℤ, pos, eq_ℤ}
use band_width_limiter.Base.Outcome.{ok, Returns}
use band_width_limiter.Sock.{get_dest_port}
use band_width_limiter.Controller.{Controller}
use band_width_limiter.Controller.Invariant.{IsController}
use band_width_limiter.Overload.{Call, step, run, close_of, accept_of}
use band_width_limiter.Overload.Safety.{step-IsController}
use band_width_limiter.Overload.Routes.{view}
use band_width_limiter.Overload.Routes.Defects.{close_accept_orders}

-- The controller, and which descriptors of the process are open.
pub record World : Type 0 where
  pub controller : Controller
  pub is_open : ℤ → Bool

-- A part of a wrapper: a call of libc that closes a descriptor, one that returns a new one, and the books
-- of a call, which are kept under the lock.
pub data Part : Type 0 where
  libc_close : ℤ → Part
  libc_accept : ℤ → Part
  keep_books : Call → Part

-- The parts of `close`, behind `INIT_ENV`.
abbrev pub close_parts : ℤ → List Part
close_parts fd = libc_close fd ∷ keep_books (close_of fd) ∷ []

-- Those of an `accept` on a socket, to which libc answers `acp_fd`.
abbrev pub accept_parts : ℤ → ℤ → List Part
accept_parts fd acp_fd = libc_accept acp_fd ∷ keep_books (accept_of fd acp_fd) ∷ []

abbrev pub opened : World → ℤ → Bool → World
opened w fd b = record w { is_open = λ q. if eq_ℤ q fd then b else w.is_open q }

-- libc closes a descriptor that is open, and returns one that is not open.
pub data Happens : World → Part → World → Type 0 where
  closed :
      {w : World} (fd : ℤ) → w.is_open fd ≡ true → Happens w (libc_close fd) (opened w fd false)
  returned :
      {w : World} (fd : ℤ) → w.is_open fd ≡ false → Happens w (libc_accept fd) (opened w fd true)
  kept :
      {w : World} (call : Call) (c : Controller)
      → step w.controller call ≡ ok c
      → Happens w (keep_books call) (record w { controller = c })

-- The parts that two threads have before them, in any order in which each thread keeps its own.
pub data Interleaved : World → List Part → List Part → World → Type 0 where
  ended : {w : World} → Interleaved w [] [] w
  by_first :
      {w v u : World} {p : Part} {ps qs : List Part}
      → Happens w p v
      → Interleaved v ps qs u
      → Interleaved w (p ∷ ps) qs u
  by_second :
      {w v u : World} {q : Part} {ps qs : List Part}
      → Happens w q v
      → Interleaved v ps qs u
      → Interleaved w ps (q ∷ qs) u

-- The two threads may come to an end at which the descriptor is open, and goes to this port.
abbrev pub Ends : World → List Part → List Part → ℤ → Option ℕ → Type 0
Ends w ps qs fd port =
    (u : World) × Interleaved w ps qs u
    × (u.is_open fd ≡ true)
    × (get_dest_port u.controller.soc_str fd ≡ ok port)

ok_same : {a b : Controller} → ok a ≡ ok b → a ≡ b
ok_same e = cc

opened-same : (w : World) (fd : ℕ) (b : Bool) → (opened w (pos fd) b).is_open (pos fd) ≡ b
opened-same w fd b = let here : eq_ℤ (pos fd) (pos fd) ≡ true = ground arith in rw (here) refl

-- Two calls one after the other, each with what it leaves.
two_calls :
    (P : Controller → Type 0) (c : Controller) (a b : Call)
    → IsController c
    → Returns P (run c (a ∷ b ∷ []))
    → (c1 : Controller) × (c2 : Controller) × (step c a ≡ ok c1) × (step c1 b ≡ ok c2) × P c2
unfolding run
two_calls P c a b v (r, got, p) =
    let (c1, first, v1) = step-IsController c a v in
    let (c2, second, _) = step-IsController c1 b v1 in
    let same : r ≡ c2 = ok_same (sym got ∙ (rw (first) rw (second) refl)) in
    (c1, c2, first, second, subst P same p)

-- `close` calls libc before its books, and `accept` too, both without the lock. In a valid state,
-- let an open descriptor be accepted on one socket, and another socket have a port, and let one
-- thread close the descriptor while another accepts on the other socket, where libc closes a
-- descriptor that is open, and returns one that is not. Then libc may return the descriptor that
-- was closed, and the parts of the two calls may follow one another in such an order that the
-- descriptor, open again, goes to the port, and in such an order that it, open again, has no port.
pub reused_descriptor_escapes :
    (w : World) (org org' : ℤ) (fd port : ℕ)
    → IsController w.controller
    → w.is_open (pos fd) ≡ true
    → (view w.controller.soc_str).ports org ≡ some port
    → (view w.controller.soc_str).sockets (pos fd) ≡ some org'
    → org' ≢ org
    → Ends w (close_parts (pos fd)) (accept_parts org (pos fd)) (pos fd) (some port)
      × Ends w (close_parts (pos fd)) (accept_parts org (pos fd)) (pos fd) none
reused_descriptor_escapes w org org' fd port v busy listens taken apart =
    let (kept_order, crossed_order) =
      close_accept_orders w.controller org org' fd port v listens taken apart in
    let (c1, c2, one, two, to) = two_calls _ w.controller (close_of (pos fd)) _ v kept_order in
    let (d1, d2, uno, due, nowhere) =
      two_calls _ w.controller (accept_of org (pos fd)) _ v crossed_order in
    let free = opened-same w fd false in
    (
      (
        _,
        by_first (closed (pos fd) busy) (
            by_first (kept _ c1 one)
              (by_second (returned (pos fd) free) (by_second (kept _ c2 two) ended))),
        opened-same (opened w (pos fd) false) fd true,
        to,
      ),
      (
        _,
        by_first (closed (pos fd) busy) (
            by_second (returned (pos fd) free)
              (by_second (kept _ d1 uno) (by_first (kept _ d2 due) ended))),
        opened-same (opened w (pos fd) false) fd true,
        nowhere,
      ),
    )
