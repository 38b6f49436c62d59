-- ===== src/Config/Ends.antt =====
-- Does `__parse_config__` return? The loop over the lines of the file calls the loop over the lines of
-- the ports, which reads on in the same file.
use band_width_limiter.Base.{
  ℕ, zero, suc, ◌+◌, ◌≤◌, ◌<◌, ◌^◌, ◌≡◌, ◌≢◌, refl, sym, ◌⊎◌, [], Bool, true, false, if◌then◌else◌,
  Option, none, some, List, arith, leb, Bool-cases, inl, inr, Option-cases,
}
use band_width_limiter.Base.Outcome.{Outcome, ok, exited, crashed, out_of_fuel, ◌>>=◌}
use band_width_limiter.Text.{Bytes, length, equal, fgets, atoi}
use band_width_limiter.Env.{PortStr}
use band_width_limiter.Config.{
  ConfigStruct, max_len, name_no_port, name_libc_path, name_server_ip, name_server_port, no_config,
  trim, entry, line_of, int_size, read_ports, set_entry, read_lines, parse_config, printed,
}
use band_width_limiter.Config.Count.{
  Later, unread, read_on, Later-trans, Later-le, fgets_shorter, Line-cases, trim_cases, round,
  read_ports_ends,
}

-- Each line of the file that can be read as one of `NO_PORT` gives a number up to `k`.
abbrev pub IsCounted : ℕ → Bytes → Type 0
IsCounted k file =
    (g h buff name value v : Bytes)
    → Later file g
    → fgets max_len g ≡ some (buff, h)
    → line_of buff ≡ entry name value
    → equal name name_no_port ≡ true
    → trim value ≡ ok v
    → int_size (atoi v) ≤ k

-- The first line, or what is behind it.
Later-first :
    {f g : Bytes}
    → Later f g
    → (g ≡ f) ⊎ ((buff : Bytes) × (h : Bytes) × ((fgets max_len f ≡ some (buff, h)) × Later h g))
Later-first unread = inl refl
Later-first (read_on {g} {h} buff a e) = elim (Later-first a) [
  | inl same ↦ inr (buff, h, (rw (sym same) e, unread))
  | inr (b, h', (e', a')) ↦ inr (b, h', (e', read_on buff a' e))
]

-- The lines one by one.
pub IsCounted-end : (k : ℕ) → IsCounted k []
unfolding fgets
IsCounted-end k g h buff name value v l e = elim (Later-first l) [
  | inl same ↦ absurd cc
  | inr (b, h', (e', l')) ↦ absurd cc
]

pub IsCounted-line :
    (k : ℕ) (f buff₀ h₀ : Bytes)
    → fgets max_len f ≡ some (buff₀, h₀)
    → ((name value v : Bytes)
        → line_of buff₀ ≡ entry name value
        → equal name name_no_port ≡ true
        → trim value ≡ ok v
        → int_size (atoi v) ≤ k)
    → IsCounted k h₀
    → IsCounted k f
IsCounted-line k f buff₀ h₀ e₀ first behind g h buff name value v l e line = elim (Later-first l) [
  | inl same ↦ first name value v (let b : buff₀ ≡ buff = cc in rw b line)
  | inr (b, h', (e', l')) ↦
      let same : h' ≡ h₀ = cc in behind g h buff name value v (rw (sym same) l') e line
]

-- The loop over the lines of the ports reads on in the file.
read_ports-Later :
    (fuel loop no_port : ℕ) (file : Bytes) (ports : List PortStr) (r : Bytes × List PortStr)
    → read_ports fuel loop no_port file ports ≡ ok r
    → Later file r.0
unfolding read_ports
read_ports-Later zero loop no_port file ports r = λ e. absurd cc
read_ports-Later (suc fuel) loop no_port file ports r = elim (Bool-cases (leb loop no_port)) [
  | inl more ↦
      round (λ o. o ≡ ok r → Later file r.0) fuel loop no_port file ports more (λ e. absurd cc)
        (λ loop' file' ports' on _ e.
          Later-trans on (read_ports-Later fuel loop' no_port file' ports' r e))
  | inr done ↦ rw (done, read_ports) (λ e. let same : file ≡ r.0 = cc in rw (sym same) unread)
]

bind_ends {ℓ κ} :
    {A : Type ℓ} {B : Type κ} (o : Outcome A) (f : A → Outcome B)
    → o ≢ out_of_fuel
    → ((a : A) → o ≡ ok a → f a ≢ out_of_fuel)
    → (o >>= f) ≢ out_of_fuel
bind_ends (ok a) f ne h = h a refl
bind_ends (exited n) f ne h = λ e. cc
bind_ends crashed f ne h = λ e. cc
bind_ends out_of_fuel f ne h = λ e. ne refl

bind_ok {ℓ κ} :
    {A : Type ℓ} {B : Type κ} (o : Outcome A) (f : A → Outcome B) (b : B)
    → (o >>= f) ≡ ok b
    → (a : A) × ((o ≡ ok a) × (f a ≡ ok b))
bind_ok (ok a) f b e = (a, (refl, e))
bind_ok (exited n) f b e = absurd cc
bind_ok crashed f b e = absurd cc
bind_ok out_of_fuel f b e = absurd cc

if_by {ℓ κ} :
    {A : Type ℓ} (P : A → Type κ) (b : Bool) (x y : A) → P x → P y → P (if b then x else y)
if_by P true x y p q = p
if_by P false x y p q = q

printed_by {ℓ κ} :
    {A : Type ℓ} (P : Outcome A → Type κ) (o : Option Bytes) (next : Outcome A)
    → P crashed
    → P next
    → P (printed o next)
unfolding printed
printed_by P none next crash p = crash
printed_by P (some s) next crash p = p

module _ (fuel : ℕ) (name value file : Bytes) (c : ConfigStruct) where
  -- A line gives the number of ports, or it leaves the file as it is.
  set_entry_by :
      (P : Outcome (Bytes × ConfigStruct) → Type 0)
      → P crashed
      → ((c' : ConfigStruct) → P (ok (file, c')))
      → (equal name name_no_port ≡ true
          → P (
              read_ports fuel 1 (int_size (atoi value)) file c.ports >>= λ (file', ports).
              ok (file', record c { no_port = some (int_size (atoi value)); ports = ports })))
      → P (set_entry fuel name value file c)
  unfolding set_entry
  set_entry_by P crash kept ports = elim (Bool-cases (equal name name_no_port)) [
    | inl e ↦ rw (e, set_entry) (ports e)
    | inr e ↦
        rw (e, set_entry)
          (if_by P (equal name name_libc_path) _ _ (kept _) (
            if_by P (equal name name_server_ip) _ _ (printed_by P _ _ crash (kept _)) (
              if_by P (equal name name_server_port) _ _
                (printed_by P _ _ crash (printed_by P _ _ crash (kept _))) (kept _))))
  ]

  set_entry_ends :
      (k : ℕ)
      → k + 1 < 2 ^ 64
      → (equal name name_no_port ≡ true → int_size (atoi value) ≤ k)
      → k + length file + 1 ≤ fuel
      → set_entry fuel name value file c ≢ out_of_fuel
  set_entry_ends k small counted le =
      set_entry_by (λ o. o ≢ out_of_fuel) (λ e. cc) (λ c' e. cc)
        (λ e.
          let n = counted e in
          bind_ends (read_ports fuel 1 (int_size (atoi value)) file c.ports) _
            (read_ports_ends fuel 1 (int_size (atoi value)) file c.ports (omega (arith, n, small))
              (omega (arith, n, le)))
            (λ a _ e. cc))

  set_entry-Later :
      (r : Bytes × ConfigStruct) → set_entry fuel name value file c ≡ ok r → Later file r.0
  set_entry-Later r =
      set_entry_by (λ o. o ≡ ok r → Later file r.0) (λ e. absurd cc)
        (λ c' e. let same : file ≡ r.0 = cc in rw (sym same) unread)
        (λ _ e.
          let (a, (read, eq)) =
            bind_ok (read_ports fuel 1 (int_size (atoi value)) file c.ports) _ r e in
          let same : r.0 ≡ a.0 = cc in rw same (read_ports-Later fuel 1 _ file c.ports a read))

read_lines_ends :
    (fuel k : ℕ) (file : Bytes) (c : ConfigStruct)
    → k + 1 < 2 ^ 64
    → IsCounted k file
    → k + length file + 1 ≤ fuel
    → read_lines fuel file c ≢ out_of_fuel
unfolding read_lines
read_lines_ends zero k file c small counted le = absurd (omega (arith, le))
read_lines_ends (suc fuel) k file c small counted le = elim (Option-cases (fgets max_len file)) [
  | inl e ↦ rw (e, read_lines) (λ e. cc)
  | inr ((buff, file'), e) ↦
      let lt = fgets_shorter file buff file' e in
      let on = read_on buff unread e in
      let next = λ (g : Bytes) (c' : ConfigStruct) (later : Later file' g).
        read_lines_ends fuel k g c' small
          (λ g h s n w v l. counted g h s n w v (Later-trans (Later-trans on later) l))
          (omega (arith, le, lt, Later-le later)) in
      rw (e, read_lines)
        (elim (Line-cases (line_of buff)) [
          | inl b ↦ rw b (next file' c unread)
          | inr (inl b) ↦ rw b (next file' c unread)
          | inr (inr (name, value, b)) ↦ rw b (elim (trim_cases value) [
            | inr (v, t) ↦ rw t (
                bind_ends (set_entry fuel name v file' c) _
                  (set_entry_ends fuel name v file' c k small
                    (λ n. counted file file' buff name value v unread e b n t)
                    (omega (arith, le, lt)))
                  (λ a s. next a.0 a.1 (set_entry-Later fuel name v file' c a s)))
            | inl t ↦ rw t (λ e. cc)
          ])
        ])
]

-- On every file in which each line that can be read as one of `NO_PORT` gives a number up to `k`,
-- where `k + 1` is a `size_t`, `parse_config` does not run out of rounds: more rounds than `k` and
-- the bytes of the file together are enough for the loop over the lines and the loop over the
-- lines of the ports in it.
pub parse_config_ends :
    (fuel k : ℕ) (file : Bytes)
    → k + 1 < 2 ^ 64
    → IsCounted k file
    → k + length file + 1 ≤ fuel
    → parse_config fuel (some file) ≢ out_of_fuel
unfolding parse_config
parse_config_ends fuel k file small counted le =
    bind_ends (read_lines fuel file no_config) _
      (read_lines_ends fuel k file no_config small counted le) (λ c _ e. cc)
