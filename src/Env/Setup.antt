-- ===== src/Env/Setup.antt =====
-- How the port table comes to be: from the environment variables, or from the configuration file.
use mathlib.Core.Path.{subst, fun_ext}
use band_width_limiter.Base.{
  ℕ, ◌≡◌, ◌≢◌, ◌⊎◌, refl, sym, ap, ◌∙◌, Bool, true, Option, none, some, List, [], ◌∷◌, map, inl,
  inr, Bool-cases, All, eq_of_some, if◌then◌else◌, Option-cases,
}
use band_width_limiter.Base.Int.{ℤ, negsuc, eq_ℤ}
use band_width_limiter.Base.Outcome.{Returns}
use band_width_limiter.Tree.Order.{port_ord}
use band_width_limiter.Tree.Shape.{Tree, leaf, inorder}
use band_width_limiter.Tree.Balance.{nil}
use band_width_limiter.Tree.Query.{query_from, rb_exact_query}
use band_width_limiter.Tree.Table.Keys.{update, update-cases, lookup, or_else}
use band_width_limiter.Tree.Table.Laws.{IsTable, find, info_of, find-insert}
use band_width_limiter.Env.{
  PortStruct, PortStr, RegisterEnv, to_uint32, new_port, register_ports, do_register, query_port,
}
use band_width_limiter.Env.Limits.{port_of, IsEnv}

pub leaf-IsTable : IsTable {K = ℕ} {V = PortStruct} leaf
unfolding inorder
leaf-IsTable = record { increasing = tt; balanced = (_, nil) }

pub find-leaf : (q : ℕ) → find {V = PortStruct} leaf q ≡ none
unfolding rb_exact_query query_from
find-leaf q = refl

query-leaf : (q : ℕ) → rb_exact_query {V = PortStruct} leaf q ≡ none
unfolding rb_exact_query query_from
query-leaf q = refl

-- The structure that the environment variables describe.
abbrev pub described : ℤ → ℤ → ℤ → ℤ → PortStruct
described port up_limit down_limit latency = new_port (record {
  port_no = to_uint32 port;
  up_limit = up_limit;
  down_limit = down_limit;
  latency = to_uint32 latency;
})

-- `do_register` leaves a table of the one port, or, at the port -1, what was there.
abbrev pub RegisteredOne : RegisterEnv → ℤ → ℤ → ℤ → ℤ → RegisterEnv × Bool → Type 0
RegisteredOne env port up_limit down_limit latency (env', b) =
    (b ≡ true)
    × (if eq_ℤ port (negsuc 0)
        then (env' ≡ env)
        else (IsEnv env'
            × ((q : ℕ)
                → port_of env' q
                  ≡ update (λ _. none) (to_uint32 port)
                      (some (described port up_limit down_limit latency)) q)))

-- `do_register` returns true. At the port -1 it leaves the environment as it was; otherwise it
-- leaves a table with the described port, converted to `uint32_t`, and no other.
pub do_register-RegisteredOne :
    (env : RegisterEnv) (port up_limit down_limit latency : ℤ)
    → Returns
        (RegisteredOne env port up_limit down_limit latency)
        (do_register env port up_limit down_limit latency)
unfolding do_register query_port
do_register-RegisteredOne env port up_limit down_limit latency =
    elim (Bool-cases (eq_ℤ port (negsuc 0))) [
      | inl e ↦ ((env, true), rw (e, do_register) refl, (refl, rw (e) refl))
      | inr e ↦
          let p = described port up_limit down_limit latency in
          let (t, got, table, reads) =
            find-insert leaf (to_uint32 port) p leaf-IsTable (query-leaf (to_uint32 port)) in
          (
            (record { port_rb = some t }, true),
            rw (e, do_register, got) refl,
            (
              refl,
              rw (e) (
                (λ u g. subst IsTable (eq_of_some g) table),
                (λ q. reads q ∙ ap (λ f. update f (to_uint32 port) (some p) q) (fun_ext find-leaf)),
              ),
            ),
          )
    ]

-- No port occurs twice.
abbrev pub Distinct : List PortStr → Type 0
Distinct [] = Unit
Distinct (p ∷ ps) = All (λ x. p.port_no ≢ x.port_no) ps × Distinct ps

abbrev pub entries : List PortStr → List (ℕ × PortStruct)
entries ps = map (λ (p : PortStr). (p.port_no, new_port p)) ps

-- The first entry decides, or it does not.
pub lookup_first :
    (e : ℕ × PortStruct) (es : List (ℕ × PortStruct)) (q : ℕ)
    → ((e.0 ≡ q) × (lookup (e ∷ es) q ≡ some e.1)) ⊎ ((e.0 ≢ q) × (lookup (e ∷ es) q ≡ lookup es q))
unfolding lookup
lookup_first e es q = elim (update-cases (lookup es) e.0 (some e.1) q) [
  | inl (same, got) ↦ inl (same, got)
  | inr (other, got) ↦ inr (λ same. other (rw (same) (port_ord.cmp_refl q)), got)
]

lookup-distinct :
    (q : ℕ) (ps : List PortStr) → All (λ x. q ≢ x.port_no) ps → lookup (entries ps) q ≡ none
unfolding lookup
lookup-distinct q [] h = refl
lookup-distinct q (p ∷ ps) h = elim (lookup_first (p.port_no, new_port p) (entries ps) q) [
  | inl (same, _) ↦ absurd (h.0 (sym same))
  | inr (_, got) ↦ got ∙ lookup-distinct q ps h.1
]

missing_after :
    (f g : ℕ → Option PortStruct) (k : ℕ) (v : PortStruct) (ps : List PortStr)
    → ((q : ℕ) → g q ≡ update f k (some v) q)
    → All (λ x. k ≢ x.port_no) ps
    → All (λ x. f x.port_no ≡ none) ps
    → All (λ x. g x.port_no ≡ none) ps
missing_after f g k v [] reads apart h = tt
missing_after f g k v (p ∷ ps) reads apart h = (
  elim (update-cases f k (some v) p.port_no) [
    | inl (same, _) ↦ absurd (apart.0 same)
    | inr (_, got) ↦ reads p.port_no ∙ got ∙ h.0
  ],
  missing_after f g k v ps reads apart.1 h.1,
)

no_node : (t : Tree (ℕ × PortStruct)) (k : ℕ) → find t k ≡ none → rb_exact_query t k ≡ none
no_node t k e = elim (Option-cases (rb_exact_query t k)) [
  | inl f ↦ f
  | inr (node, f) ↦ absurd (cc (sym (ap info_of f) ∙ e))
]

-- The loop over the ports of the configuration file, from a table, if no port is repeated and none
-- is in the table: it returns a table in which each port has the structure of its line, and the
-- others are as before.
pub register_ports-lookup :
    (ps : List PortStr) (t : Tree (ℕ × PortStruct))
    → IsTable t
    → Distinct ps
    → All (λ p. find t p.port_no ≡ none) ps
    → Returns
        (λ u. IsTable u × ((q : ℕ) → find u q ≡ or_else (lookup (entries ps) q) (find t q)))
        (register_ports ps t)
unfolding register_ports lookup
register_ports-lookup [] t h d f = (t, refl, (h, λ q. refl))
register_ports-lookup (p ∷ ps) t h (apart, d) (fresh, f) =
    let (t1, got, table, reads) =
      find-insert t p.port_no (new_port p) h (no_node t p.port_no fresh) in
    let (u, got', (table', rest)) =
      register_ports-lookup ps t1 table d
        (missing_after (find t) (find t1) p.port_no (new_port p) ps reads apart f) in
    (
      u,
      rw (got, got') refl,
      (
        table',
        λ q. rest q ∙ elim (update-cases (find t) p.port_no (some (new_port p)) q) [
          | inl (same, gained) ↦
              let later =
                lookup-distinct q ps (subst (λ k. All (λ x. k ≢ x.port_no) ps) same apart) in
              elim (lookup_first (p.port_no, new_port p) (entries ps) q) [
                | inl (_, first) ↦ rw (later, reads q, gained, first) refl
                | inr (other, _) ↦ absurd (other same)
              ]
          | inr (other, kept) ↦ elim (lookup_first (p.port_no, new_port p) (entries ps) q) [
            | inl (same, _) ↦ absurd (other (rw (same) (port_ord.cmp_refl q)))
            | inr (_, skip) ↦ rw (reads q, kept, skip) refl
          ]
        ],
      ),
    )
