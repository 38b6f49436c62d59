-- ===== src/Overload/Routes/Refined.antt =====
-- The wrappers keep the routes.
use mathlib.Core.Option
use band_width_limiter.Base.{
  ℕ, zero, suc, ◌≡◌, ◌≢◌, refl, sym, ap, ◌∙◌, Bool, true, Option, none, some, inl, inr, arith,
  eq_of_some,
}
use band_width_limiter.Base.Int.{ℤ, pos}
use band_width_limiter.Tree.Order.{fd_ord, int_comp, int_comp-IsLawful}
use band_width_limiter.Tree.Table.Keys.{update, update-cases, update_self}
use band_width_limiter.Tree.Table.Laws.{find}
use band_width_limiter.Tree.Table.Count.{count_in-cases}
use band_width_limiter.Sock.{SocketFd, AcpSocketFd, SockStruct}
use band_width_limiter.Sock.Invariant.{IsValid, has_root}
use band_width_limiter.Sock.Accept.{Registered, one_more, fresh_on}
use band_width_limiter.Sock.Release.{Released, root_left, root_left_count}
use band_width_limiter.Controller.Sockets.{Created}
use band_width_limiter.Env.{is_port_registered}
use band_width_limiter.Controller.{Controller}
use band_width_limiter.Overload.Routes.{view, Same, Bound, Joined, Left}

module _ {A B : Type 0} (h : A → B) where
  -- A view of a changed map is the view, changed.
  map-update :
      (f : ℤ → Option A) (k : ℤ) (o : Option A) (q : ℤ)
      → Option.map h (update f k o q) ≡ update (λ p. Option.map h (f p)) k (Option.map h o) q
  map-update f k o q = ground arith

  -- A change that the view does not show.
  map-update_same :
      (f : ℤ → Option A) (k : ℤ) (a b : A) (q : ℤ)
      → f k ≡ some a
      → h b ≡ h a
      → Option.map h (update f k (some b) q) ≡ Option.map h (f q)
  map-update_same f k a b q e same = elim (update-cases f k (some b) q) [
    | inl (here, got) ↦
        ap (Option.map h) got ∙ ap some same ∙ sym (ap (Option.map h) (ap f (sym here) ∙ e))
    | inr (_, got) ↦ ap (Option.map h) got
  ]

abbrev port : SocketFd → ℕ
port r = r.port

abbrev root : AcpSocketFd → ℤ
root a = a.root_fd_number

pub unchanged_routes : (s s' : SockStruct) → s' ≡ s → Same (view s) (view s')
unchanged_routes s s' e = (
  λ q. ap (λ x. Option.map port (find x.sock_rb q)) e,
  λ q. ap (λ x. Option.map root (find x.acp_socket_rb q)) e,
)

some_of_map :
    {A B : Type 0} (h : A → B) (o : Option A) (b : B)
    → Option.map h o ≡ some b
    → (a : A) × (o ≡ some a) × (h a ≡ b)
some_of_map h none b e = absurd (cc e)
some_of_map h (some a) b e = (a, refl, eq_of_some e)

none_of_map : {A B : Type 0} (h : A → B) (o : Option A) → Option.map h o ≡ none → o ≡ none
none_of_map h none e = refl
none_of_map h (some a) e = absurd (cc e)

some_ne_none : {A : Type 0} (o : Option A) (a : A) → o ≡ some a → o ≢ none
some_ne_none o a e n = cc

pub Registered-Joined :
    (s : SockStruct) (org fd : ℤ) (r : SockStruct × Bool)
    → Registered s org fd r
    → Joined (view s) org fd (view r.0)
Registered-Joined s org fd r (v, inl (x, at, absent, _, accepts, roots)) = inl (
  some_ne_none _ x.port (ap (Option.map port) at),
  ap (Option.map root) absent,
  λ q.
      ap (Option.map root) (accepts q)
      ∙ map-update root (find s.acp_socket_rb) fd (some (fresh_on org)) q,
  λ q.
      ap (Option.map port) (roots q)
      ∙ map-update_same port (find s.sock_rb) org x (one_more x) q at refl,
)
Registered-Joined s org fd r (v, inr (inl e, _, same)) =
    inr (inl (ap (Option.map port) e), unchanged_routes s r.0 same)
Registered-Joined s org fd r (v, inr (inr ne, _, same)) =
    inr (inr (λ e. ne (none_of_map root _ e)), unchanged_routes s r.0 same)

-- A root that is left still has a descriptor.
has_root-eq : (fd : ℤ) (a : AcpSocketFd) → has_root fd a ≡ true → a.root_fd_number ≡ fd
unfolding int_comp
has_root-eq fd a h = sym (int_comp-IsLawful.eq_of_cmp fd a.root_fd_number (ground arith))

still_held :
    (s : SockStruct) (org : ℤ) (r : SocketFd) (n : ℕ)
    → IsValid s
    → find s.sock_rb org ≡ some r
    → r.ref_count ≡ pos (suc n)
    → (q : ℤ) × ((view s).sockets q ≡ some org)
still_held s org r n v at held = elim (count_in-cases (has_root org) v.accepted) [
  | inl none' ↦ absurd (ground (arith, v.counted org r at, held, none'))
  | inr (q, a, found, names) ↦ (q, ap (Option.map root) found ∙ ap some (has_root-eq org a names))
]

pub Released-Left :
    (s : SockStruct) (fd : ℤ) (r : SockStruct × Bool)
    → Released s fd r
    → Left (view s) fd (view r.0)
Released-Left s fd r (v, _, inr (absent, same)) =
    inr (ap (Option.map root) absent, unchanged_routes s r.0 same)
Released-Left s fd r (v, _, inl (a, x, zero, at, linked, held, accepts, roots)) =
    let org = a.root_fd_number in
    let gone : find r.0.sock_rb org ≡ none = roots org ∙ update_self (find s.sock_rb) org none in
    inl (
      org,
      ap (Option.map root) at,
      λ q. ap (Option.map root) (accepts q) ∙ map-update root (find s.acp_socket_rb) fd none q,
      inl (
        λ q e.
            let (b, found, names) = some_of_map root (find r.0.acp_socket_rb q) org e in
            let (y, stands) = v.linked q b found in
            absurd (cc (sym (ap (find r.0.sock_rb) names ∙ gone) ∙ stands)),
        λ q. ap (Option.map port) (roots q) ∙ map-update port (find s.sock_rb) org none q,
      ),
    )
Released-Left s fd r (v, _, inl (a, x, suc n, at, linked, held, accepts, roots)) =
    let org = a.root_fd_number in
    let stands : find r.0.sock_rb org ≡ root_left (suc n) x =
      roots org ∙ update_self (find s.sock_rb) org (root_left (suc n) x) in
    inl (
      org,
      ap (Option.map root) at,
      λ q. ap (Option.map root) (accepts q) ∙ map-update root (find s.acp_socket_rb) fd none q,
      inr (
        still_held r.0 org _ n v stands (root_left_count (suc n) x _ held refl),
        λ q.
            ap (Option.map port) (roots q)
            ∙ map-update_same port (find s.sock_rb) org x _ q linked refl,
      ),
    )

pub Created-Bound :
    (c : Controller) (fd : ℤ) (port : ℕ) (r : Controller × Bool)
    → Created c fd port r
    → Bound
        (λ q. is_port_registered c.reg_env_str q)
        (view c.soc_str)
        fd
        port
        r.1
        (view r.0.soc_str)
Created-Bound c fd number r (_, _, inl (known, fresh, done, roots, accepted)) = inl (
  done,
  known,
  ap (Option.map port) fresh,
  λ q. ap (Option.map port) (roots q) ∙ map-update port (find c.soc_str.sock_rb) fd _ q,
  λ q. ap (λ t. Option.map root (find t q)) accepted,
)
Created-Bound c fd number r (_, _, inr (inl unknown, failed, same)) =
    inr (failed, inl unknown, unchanged_routes c.soc_str r.0.soc_str (ap (λ x. x.soc_str) same))
Created-Bound c fd number r (_, _, inr (inr taken, failed, same)) = inr (
  failed,
  inr (λ e. taken (none_of_map port _ e)),
  unchanged_routes c.soc_str r.0.soc_str (ap (λ x. x.soc_str) same),
)
