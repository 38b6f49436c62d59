-- ===== src/Env/Limits.antt =====
-- The port table as a finite map, and the limits that it keeps.
use mathlib.Core.Path.{subst, fun_ext}
use mathlib.Core.Option
use band_width_limiter.Base.{
  ℕ, ◌≡◌, refl, sym, ap, ◌∙◌, Bool, true, false, Option, none, some, inl, inr, arith, Option-cases,
  eq_of_some,
}
use band_width_limiter.Base.Int.{ℤ}
use band_width_limiter.Tree.Order.{port_ord}
use band_width_limiter.Tree.Shape.{Tree, Pointer}
use band_width_limiter.Tree.Query.{rb_exact_query}
use band_width_limiter.Tree.Table.Keys.{update, update-cases}
use band_width_limiter.Tree.Table.Laws.{IsTable, find, info_of, find-set_info}
use band_width_limiter.Env.{
  PortStruct, RegisterEnv, query_port, write_port, update_time_val, update_byte_count,
  set_byte_count_window, is_port_registered, with_start_time, with_remaining, deduct,
}
use band_width_limiter.Sock.{Timespec}

-- The structure of a port.
abbrev pub port_of : RegisterEnv → ℕ → Option PortStruct
port_of env port = info_of (query_port env port)

-- The table is a table, where there is one.
abbrev pub IsEnv : RegisterEnv → Type 0
IsEnv env = (t : Tree (ℕ × PortStruct)) → env.port_rb ≡ some t → IsTable t

-- What is known of a port is what the tree says of it.
pub port_of-find :
    (env : RegisterEnv) (t : Tree (ℕ × PortStruct))
    → env.port_rb ≡ some t
    → (q : ℕ) → port_of env q ≡ find t q
unfolding query_port
port_of-find env t f q = rw (f, query_port) refl

-- The one way in which the operations write: the table is a table again, and only the structure of
-- the one port changes.
write_port-IsEnv :
    (env : RegisterEnv) (port : ℕ) (node : Pointer (ℕ × PortStruct)) (p : PortStruct)
    → IsEnv env
    → query_port env port ≡ some node
    → IsEnv (write_port node p)
      × ((q : ℕ) → port_of (write_port node p) q ≡ update (port_of env) port (some p) q)
unfolding query_port write_port
write_port-IsEnv env port node p h e = elim (Option-cases env.port_rb) [
  | inl f ↦ absurd (ground arith)
  | inr (t, f) ↦
      let found : rb_exact_query t port ≡ some node = ground arith in
      let (table, reads) = find-set_info t port node p (h t f) found in
      (
        λ u g. subst IsTable (eq_of_some g) table,
        λ q. reads q ∙ ap (λ g. update g port (some p) q) (sym (fun_ext (port_of-find env t f))),
      )
]

-- A write of one port: the result says whether the port is registered, the table is a table again,
-- and `change` was made to the structure of that port and to nothing else.
pub record Wrote (env : RegisterEnv) (port : ℕ) (change : PortStruct → PortStruct)
    (r : RegisterEnv × Bool) : Type 0 where
  pub table : IsEnv r.0
  pub answer : r.1 ≡ is_port_registered env port
  pub ports :
      (q : ℕ) → port_of r.0 q ≡ update (port_of env) port (Option.map change (port_of env port)) q

edited-Wrote :
    (env : RegisterEnv) (port : ℕ) (change : PortStruct → PortStruct)
    (o : Option (Pointer (ℕ × PortStruct)))
    → query_port env port ≡ o
    → IsEnv env
    → Wrote env port change
        (elim o [ none ↦ (env, false) | some node ↦ (write_port node (change node.entry.1), true) ])
unfolding is_port_registered
edited-Wrote env port change none e h = record {
  table = h;
  answer = rw (e, is_port_registered) refl;
  ports = λ q. elim (update-cases (port_of env) port none q) [
    | inl (same, got) ↦ ground arith
    | inr (other, got) ↦ rw (e) (sym got)
  ];
}
edited-Wrote env port change (some node) e h =
    let (table, ports) = write_port-IsEnv env port node (change node.entry.1) h e in
    record {
      table = table;
      answer = rw (e, is_port_registered) refl;
      ports = λ q. rw (e) (ports q);
    }

-- If the port table is a table, `update_byte_count_current_window` leaves a table, in which the
-- counters of the port are changed by `deduct` and nothing else changes; the result says whether
-- the port is registered.
pub update_byte_count-Wrote :
    (env : RegisterEnv) (port : ℕ) (used : ℤ) (flag : Bool)
    → IsEnv env
    → Wrote env port (deduct flag used) (update_byte_count env port used flag)
unfolding update_byte_count
update_byte_count-Wrote env port used flag =
    edited-Wrote env port (deduct flag used) (query_port env port) refl

-- If the port table is a table, `set_byte_count_window` leaves a table, in which the counter of
-- the port in the direction is set and nothing else changes; the result says whether the port is
-- registered.
pub set_byte_count_window-Wrote :
    (env : RegisterEnv) (port : ℕ) (size : ℤ) (flag : Bool)
    → IsEnv env
    → Wrote env port (with_remaining flag size) (set_byte_count_window env port size flag)
unfolding set_byte_count_window
set_byte_count_window-Wrote env port size flag =
    edited-Wrote env port (with_remaining flag size) (query_port env port) refl

-- If the port table is a table, `update_time_val` with a clock that works leaves a table, in which
-- the time of the port in the direction is set and nothing else changes; the result says whether
-- the port is registered.
pub update_time_val-Wrote :
    (env : RegisterEnv) (port : ℕ) (flag : Bool) (ts : Timespec)
    → IsEnv env
    → Wrote env port (with_start_time flag ts) (update_time_val env port flag (some ts))
unfolding update_time_val
update_time_val-Wrote env port flag ts =
    edited-Wrote env port (with_start_time flag ts) (query_port env port) refl
