-- ===== src/Config/Total.antt =====
-- The line that gives the number of ports, and the lines of the ports behind it.
use band_width_limiter.Base.{
  ℕ, zero, suc, ◌+◌, ◌≤◌, ◌<◌, ◌^◌, ◌≡◌, ◌≢◌, refl, ap, ◌∙◌, false, some, List, [], ◌∷◌, ◌++◌, map,
  arith, All, All-append, All-imp,
}
use band_width_limiter.Base.Int.{pos}
use band_width_limiter.Base.Outcome.{Outcome, ok}
use band_width_limiter.Text.{
  Bytes, length, is_space, equal, atoi, contains, digits, skip_space, number, signed, wrap_int,
}
use band_width_limiter.Config.{
  ConfigStruct, trim, entry, line_of, set_entry, read_lines, name_no_port, int_size,
}
use band_width_limiter.Config.Lines.{IsPlain, fgets_line, line_of_entry, trim_word, line_ne_nil}
use band_width_limiter.Config.File.{
  count, PortLine, write_ports, port_of, lines_of, IsPortLine, read_lines_entry,
}
use band_width_limiter.Config.Ports.{IsPlain-IsInline, read_ports_lines}

-- A digit.
abbrev pub IsDigit : ℕ → Type 0
IsDigit c = (b'0' ≤ c) × (c ≤ b'9')

atoi-digits : (v : Bytes) → v ≢ [] → All IsDigit v → digits 0 v < 2 ^ 31 → atoi v ≡ pos (digits 0 v)
unfolding atoi skip_space number signed wrap_int
atoi-digits [] ne h lt = absurd (ne refl)
atoi-digits (c ∷ v) ne h lt = ground (arith, h.0, lt)

-- The line that gives the number of ports.
abbrev pub count_text : Bytes → Bytes
count_text v = name_no_port ++ (b'=' ∷ v)

module _ (v : Bytes) (ne : v ≢ []) (h : All IsDigit v) where
  digits-IsPlain : All IsPlain v
  digits-IsPlain =
      All-imp (λ c (k : IsDigit c). (ground (arith, k), ground (arith, k), ground (arith, k))) v h

  line_of_count : line_of (count_text v ++ (b'\n' ∷ [])) ≡ entry name_no_port (v ++ (b'\n' ∷ []))
  line_of_count =
      let free =
        All-append (λ c. contains (b'=' ∷ []) c ≡ false) v (b'\n' ∷ [])
          (All-imp {Q = λ c. contains (b'=' ∷ []) c ≡ false}
            (λ c (k : IsDigit c). ground (arith, k)) v h)
          (refl, tt) in
      line_of_entry name_no_port (v ++ (b'\n' ∷ [])) (ground arith, ground arith) (line_ne_nil v [])
        free

  trim_count : trim (v ++ (b'\n' ∷ [])) ≡ ok v
  trim_count =
      trim_word v ne
        (All-imp {Q = λ c. is_space c ≡ false} (λ c (k : IsDigit c). ground (arith, k)) v h)

  read_lines_count :
      (fuel : ℕ) (ls : List PortLine) (rest : Bytes) (c : ConfigStruct)
      → length v ≤ 1000
      → digits 0 v ≡ count ls
      → count ls < 2 ^ 31
      → All IsPortLine ls
      → lines_of ls + 1 ≤ fuel
      → read_lines (suc fuel) (count_text v ++ (b'\n' ∷ write_ports ls rest)) c
        ≡ read_lines fuel rest
            (record c { no_port = some (count ls); ports = c.ports ++ map port_of ls })
  unfolding set_entry equal int_size
  read_lines_count fuel ls rest c short n small hs le =
      let inline =
        All-append (λ c. (c ≢ b'\n') × (c ≢ 0)) (name_no_port ++ (b'=' ∷ [])) v (ground arith)
          (IsPlain-IsInline v digits-IsPlain) in
      let number : atoi v ≡ pos (count ls) =
        atoi-digits v ne h (omega (arith, n, small)) ∙ ap pos n in
      read_lines_entry fuel _ _ _ c
        (fgets_line (count_text v) (write_ports ls rest) inline (omega (arith, short))) name_no_port
        _ v line_of_count trim_count
      ∙ rw number rw
          (read_ports_lines ls fuel 1 (count ls) rest c.ports hs (omega arith)
            (omega (arith, small)) le)
          refl

  pub read_lines_count_then :
      (k fuel : ℕ) (ls : List PortLine) (rest : Bytes) (c : ConfigStruct) (r : Outcome ConfigStruct)
      → length v ≤ 1000
      → digits 0 v ≡ count ls
      → count ls < 2 ^ 31
      → All IsPortLine ls
      → lines_of ls + 1 ≤ k
      → ((fuel' : ℕ)
          → k ≤ fuel'
          → read_lines fuel' rest
              (record c { no_port = some (count ls); ports = c.ports ++ map port_of ls })
            ≡ r)
      → suc k ≤ fuel
      → read_lines fuel (count_text v ++ (b'\n' ∷ write_ports ls rest)) c ≡ r
  read_lines_count_then k zero ls rest c r short n small hs room go le = absurd (omega (arith, le))
  read_lines_count_then k (suc fuel) ls rest c r short n small hs room go le =
      read_lines_count fuel ls rest c short n small hs (omega (arith, room, le))
      ∙ go fuel (omega (arith, le))
