-- ===== src/Config/Ports.antt =====
-- The loop over the lines of the ports.
use band_width_limiter.Base.{
  ℕ, zero, suc, ◌+◌, ◌≤◌, ◌<◌, ◌^◌, ◌≡◌, ◌≢◌, refl, sym, ap, ◌∙◌, false, List, [], ◌∷◌, ◌++◌, map,
  append_nil, append_assoc, arith, All, All-append, All-imp, leb,
}
use band_width_limiter.Base.Outcome.{Outcome, ok}
use band_width_limiter.Text.{Bytes, contains}
use band_width_limiter.Env.{PortStr}
use band_width_limiter.Config.{trim, entry, line_of, next_loop, read_port, read_ports}
use band_width_limiter.Config.Fields.{value_of, read_port-described}
use band_width_limiter.Config.Lines.{
  IsInline, IsPlain, IsName, fgets_line, line_of_entry, trim_line,
}
use band_width_limiter.Config.File.{
  count, PortLine, port_text, write_ports, port_of, lines_of, IsPortLine, read_ports_entry,
  read_ports_notes,
}

-- The value without its brackets.
abbrev inner : Bytes → Bytes → Bytes → Bytes → Bytes
inner a b c d = a ++ (b',' ∷ (b ++ (b',' ∷ (c ++ (b',' ∷ d)))))

value_of_split : (a b c d : Bytes) → value_of a b c d ≡ b'[' ∷ (inner a b c d ++ (b']' ∷ []))
value_of_split a b c d = simp append_assoc

All-value_of :
    (P : ℕ → Type 0) (a b c d : Bytes)
    → P b'['
    → P b','
    → P b']'
    → All P a
    → All P b
    → All P c
    → All P d
    → All P (value_of a b c d)
All-value_of P a b c d left comma close ha hb hc hd = (
  left,
  All-append P a _ ha (
    comma,
    All-append P b _ hb (comma, All-append P c _ hc (comma, All-append P d _ hd (close, tt))),
  ),
)

trim-value_of : (a b c d : Bytes) → trim (value_of a b c d ++ (b'\n' ∷ [])) ≡ ok (value_of a b c d)
trim-value_of a b c d =
    ap (λ s. trim (s ++ (b'\n' ∷ []))) (value_of_split a b c d)
    ∙ ap (λ s. trim (b'[' ∷ s)) (append_assoc (inner a b c d) (b']' ∷ []) (b'\n' ∷ []))
    ∙ trim_line b'[' b']' (inner a b c d) refl refl
    ∙ ap ok (sym (value_of_split a b c d))

pub IsPlain-IsInline : (s : Bytes) → All IsPlain s → IsInline s
IsPlain-IsInline s h = All-imp (λ c (k : IsPlain c). (k.1, k.2)) s h

IsName-IsInline : (s : Bytes) → IsName s → IsInline s
IsName-IsInline [] h = absurd h
IsName-IsInline (c ∷ s) h = IsPlain-IsInline (c ∷ s) h.1

module _ (l : PortLine) (h : IsPortLine l) where
  plain : All IsPlain (value_of l.no l.up l.down l.latency)
  plain =
      All-value_of _ l.no l.up l.down l.latency (ground arith, ground arith, ground arith)
        (ground arith, ground arith, ground arith) (ground arith, ground arith, ground arith) h.2.1
        h.3.1 h.4.1 h.5.1

  port_text-IsInline : IsInline (port_text l)
  port_text-IsInline =
      All-append _ l.name _ (IsName-IsInline l.name h.1)
        ((ground arith, ground arith), IsPlain-IsInline (value_of l.no l.up l.down l.latency) plain)

  line_of_port :
      line_of (port_text l ++ (b'\n' ∷ []))
      ≡ entry l.name (value_of l.no l.up l.down l.latency ++ (b'\n' ∷ []))
  line_of_port =
      let free =
        All-append (λ c. contains (b'=' ∷ []) c ≡ false) (value_of l.no l.up l.down l.latency)
          (b'\n' ∷ [])
          (All-imp {Q = λ c. contains (b'=' ∷ []) c ≡ false}
            (λ c (k : IsPlain c). ground (arith, k.0)) (value_of l.no l.up l.down l.latency) plain)
          (refl, tt) in
      ap line_of (append_assoc l.name (b'=' ∷ value_of l.no l.up l.down l.latency) (b'\n' ∷ []))
      ∙ line_of_entry l.name (value_of l.no l.up l.down l.latency ++ (b'\n' ∷ [])) h.1 (λ e. cc)
          free

  value_not_nil : value_of l.no l.up l.down l.latency ++ (b'\n' ∷ []) ≢ []
  value_not_nil e = cc

  -- One round on the line of a port.
  read_ports_line :
      (fuel loop no_port : ℕ) (rest : Bytes) (ports : List PortStr)
      → loop ≤ no_port
      → no_port + 1 < 2 ^ 64
      → read_ports (suc fuel) loop no_port (port_text l ++ (b'\n' ∷ rest)) ports
        ≡ read_ports fuel (loop + 1) no_port rest (ports ++ (port_of l ∷ []))
  read_ports_line fuel loop no_port rest ports le small =
      let next : next_loop loop ≡ loop + 1 = omega (arith, le, small) in
      let read = read_port-described l.no l.up l.down l.latency h.2.0 h.3.0 h.4.0 h.5.0 in
      read_ports_entry fuel loop no_port _ _ rest ports (ground (arith, le))
        (fgets_line (port_text l) rest port_text-IsInline h.6) l.name _ _ line_of_port
        (trim-value_of l.no l.up l.down l.latency)
      ∙ ap
          (λ n.
            read_ports fuel n no_port rest
              (ports ++ (read_port (value_of l.no l.up l.down l.latency) ∷ [])))
          next
      ∙ ap (λ p. read_ports fuel (loop + 1) no_port rest (ports ++ (p ∷ []))) read

  -- The same, for whatever the rounds after it do.
  read_ports_line_then :
      (k fuel loop no_port : ℕ) (rest : Bytes) (ports : List PortStr)
      (r : Outcome (Bytes × List PortStr))
      → loop ≤ no_port
      → no_port + 1 < 2 ^ 64
      → ((fuel' : ℕ)
          → k ≤ fuel'
          → read_ports fuel' (loop + 1) no_port rest (ports ++ (port_of l ∷ [])) ≡ r)
      → suc k ≤ fuel
      → read_ports fuel loop no_port (port_text l ++ (b'\n' ∷ rest)) ports ≡ r
  read_ports_line_then k zero loop no_port rest ports r lt small go le = absurd (omega (arith, le))
  read_ports_line_then k (suc fuel) loop no_port rest ports r lt small go le =
      read_ports_line fuel loop no_port rest ports lt small ∙ go fuel (omega (arith, le))

read_ports_end :
    (fuel loop no_port : ℕ) (file : Bytes) (ports : List PortStr)
    → no_port < loop
    → read_ports (suc fuel) loop no_port file ports ≡ ok (file, ports)
unfolding read_ports
read_ports_end fuel loop no_port file ports lt =
    let done : leb loop no_port ≡ false = ground (arith, lt) in rw (done, read_ports) refl

pub read_ports_lines :
    (ls : List PortLine) (fuel loop no_port : ℕ) (rest : Bytes) (ports : List PortStr)
    → All IsPortLine ls
    → loop + count ls ≡ no_port + 1
    → no_port + 1 < 2 ^ 64
    → lines_of ls + 1 ≤ fuel
    → read_ports fuel loop no_port (write_ports ls rest) ports ≡ ok (rest, ports ++ map port_of ls)
read_ports_lines ls zero loop no_port rest ports hs n small le = absurd (omega (arith, le))
read_ports_lines [] (suc fuel) loop no_port rest ports hs n small le =
    read_ports_end fuel loop no_port rest ports (omega (arith, n))
    ∙ ap (λ ps. ok (rest, ps)) (sym (append_nil ports))
read_ports_lines (l ∷ ls) (suc fuel) loop no_port rest ports hs n small le =
    let le' : loop ≤ no_port = omega (arith, n) in
    read_ports_notes l.notes (suc (lines_of ls + 1)) (suc fuel) loop no_port
      (port_text l ++ (b'\n' ∷ write_ports ls rest)) ports
      (ok (rest, ports ++ (port_of l ∷ map port_of ls))) hs.0.0 (ground (arith, le'))
      (λ f lf.
        read_ports_line_then l hs.0 (lines_of ls + 1) f loop no_port (write_ports ls rest) ports _
          le' small
          (λ f' lf'.
            read_ports_lines ls f' (loop + 1) no_port rest (ports ++ (port_of l ∷ [])) hs.1
              (omega (arith, n)) small lf'
            ∙ ap (λ ps. ok (rest, ps)) (append_assoc ports (port_of l ∷ []) (map port_of ls)))
          lf)
      (omega (arith, le))
