-- ===== src/Config/File.antt =====
-- Configuration files as a user writes them, and what the parser makes of them.
use band_width_limiter.Base.{
  ℕ, zero, suc, ◌+◌, ◌≤◌, ◌≡◌, refl, ◌∙◌, true, some, List, [], ◌∷◌, ◌++◌, arith, All, leb,
}
use band_width_limiter.Base.Outcome.{Outcome, ok, ◌>>=◌}
use band_width_limiter.Text.{Bytes, length, fgets}
use band_width_limiter.Env.{PortStr}
use band_width_limiter.Config.{
  max_len, ConfigStruct, trim, blank, entry, line_of, next_loop, read_port, read_ports, set_entry,
  read_lines,
}
use band_width_limiter.Config.Fields.{IsWord, value_of, described}
use band_width_limiter.Config.Lines.{
  IsInline, IsPlain, IsName, fgets_line, line_of_comment, line_of_empty,
}

-- A line that is skipped: empty, or `#` and the text.
pub data Note : Type 0 where
  empty_line : Note
  comment : Bytes → Note

abbrev note_text : Note → Bytes
note_text empty_line = []
note_text (comment s) = b'#' ∷ s

-- The lines that are skipped, with their newlines, and what follows them.
abbrev pub write_notes : List Note → Bytes → Bytes
write_notes [] rest = rest
write_notes (n ∷ ns) rest = note_text n ++ (b'\n' ∷ write_notes ns rest)

-- A port: the skipped lines above it, the name, and the four fields.
pub record PortLine : Type 0 where
  pub notes : List Note
  pub name : Bytes
  pub no : Bytes
  pub up : Bytes
  pub down : Bytes
  pub latency : Bytes

abbrev pub port_text : PortLine → Bytes
port_text l = l.name ++ (b'=' ∷ value_of l.no l.up l.down l.latency)

abbrev pub write_ports : List PortLine → Bytes → Bytes
write_ports [] rest = rest
write_ports (l ∷ ls) rest = write_notes l.notes (port_text l ++ (b'\n' ∷ write_ports ls rest))

abbrev pub port_of : PortLine → PortStr
port_of l = described l.no l.up l.down l.latency

abbrev pub count {ℓ} : {A : Type ℓ} → List A → ℕ
count [] = 0
count (x ∷ xs) = suc (count xs)

-- The lines of the ports.
abbrev pub lines_of : List PortLine → ℕ
lines_of [] = 0
lines_of (l ∷ ls) = count l.notes + suc (lines_of ls)

abbrev pub IsNote : Note → Type 0
IsNote n = IsInline (note_text n) × (length (note_text n) ≤ 1022)

-- A field of a port: a word of the line with no `=` in it.
abbrev IsField : Bytes → Type 0
IsField s = IsWord s × All IsPlain s

abbrev pub IsPortLine : PortLine → Type 0
IsPortLine l =
    All IsNote l.notes
    × IsName l.name
    × IsField l.no
    × IsField l.up
    × IsField l.down
    × IsField l.latency
    × (length (port_text l) ≤ 1022)

module _ (fuel loop no_port : ℕ) (file buff file' : Bytes) (ports : List PortStr)
    (more : leb loop no_port ≡ true) (line : fgets max_len file ≡ some (buff, file')) where
  read_ports_blank :
      line_of buff ≡ blank
      → read_ports (suc fuel) loop no_port file ports ≡ read_ports fuel loop no_port file' ports
  unfolding read_ports
  read_ports_blank e = rw (more, read_ports, line, e) refl

  pub read_ports_entry :
      (name value v : Bytes)
      → line_of buff ≡ entry name value
      → trim value ≡ ok v
      → read_ports (suc fuel) loop no_port file ports
        ≡ read_ports fuel (next_loop loop) no_port file' (ports ++ (read_port v ∷ []))
  unfolding read_ports
  read_ports_entry name value v e t = rw (more, read_ports, line, e, t) refl

module _ (fuel : ℕ) (file buff file' : Bytes) (c : ConfigStruct)
    (line : fgets max_len file ≡ some (buff, file')) where
  read_lines_blank : line_of buff ≡ blank → read_lines (suc fuel) file c ≡ read_lines fuel file' c
  unfolding read_lines
  read_lines_blank e = rw (line, read_lines, e) refl

  pub read_lines_entry :
      (name value v : Bytes)
      → line_of buff ≡ entry name value
      → trim value ≡ ok v
      → read_lines (suc fuel) file c
        ≡ (set_entry fuel name v file' c >>= λ (file'', c'). read_lines fuel file'' c')
  unfolding read_lines
  read_lines_entry name value v e t = rw (line, read_lines, e, t) refl

note_line :
    (n : Note) (rest : Bytes)
    → IsNote n
    → (buff : Bytes) × (fgets max_len (note_text n ++ (b'\n' ∷ rest)) ≡ some (buff, rest))
      × (line_of buff ≡ blank)
note_line empty_line rest h = (_, fgets_line [] rest h.0 h.1, line_of_empty)
note_line (comment s) rest h =
    (_, fgets_line (b'#' ∷ s) rest h.0 h.1, line_of_comment (s ++ (b'\n' ∷ [])))

-- Skipped lines take a round each, and leave the loops where they are.
pub read_ports_notes :
    (ns : List Note) (k fuel loop no_port : ℕ) (rest : Bytes) (ports : List PortStr)
    (r : Outcome (Bytes × List PortStr))
    → All IsNote ns
    → leb loop no_port ≡ true
    → ((fuel' : ℕ) → k ≤ fuel' → read_ports fuel' loop no_port rest ports ≡ r)
    → count ns + k ≤ fuel
    → read_ports fuel loop no_port (write_notes ns rest) ports ≡ r
read_ports_notes [] k fuel loop no_port rest ports r hs more go le = go fuel (omega (arith, le))
read_ports_notes (n ∷ ns) k zero loop no_port rest ports r hs more go le =
    absurd (omega (arith, le))
read_ports_notes (n ∷ ns) k (suc fuel) loop no_port rest ports r hs more go le =
    let (buff, line, e) = note_line n (write_notes ns rest) hs.0 in
    read_ports_blank fuel loop no_port _ buff _ ports more line e
    ∙ read_ports_notes ns k fuel loop no_port rest ports r hs.1 more go (omega (arith, le))

pub read_lines_notes :
    (ns : List Note) (k fuel : ℕ) (rest : Bytes) (c : ConfigStruct) (r : Outcome ConfigStruct)
    → All IsNote ns
    → ((fuel' : ℕ) → k ≤ fuel' → read_lines fuel' rest c ≡ r)
    → count ns + k ≤ fuel
    → read_lines fuel (write_notes ns rest) c ≡ r
read_lines_notes [] k fuel rest c r hs go le = go fuel (omega (arith, le))
read_lines_notes (n ∷ ns) k zero rest c r hs go le = absurd (omega (arith, le))
read_lines_notes (n ∷ ns) k (suc fuel) rest c r hs go le =
    let (buff, line, e) = note_line n (write_notes ns rest) hs.0 in
    read_lines_blank fuel _ buff _ c line e
    ∙ read_lines_notes ns k fuel rest c r hs.1 go (omega (arith, le))
