-- ===== src/Config/Whole.antt =====
-- A whole configuration file: notes, the number of ports, the ports, notes, and the path of libc.
use band_width_limiter.Base.{
  ℕ, zero, suc, ◌+◌, ◌≤◌, ◌<◌, ◌^◌, ◌≡◌, ◌≢◌, refl, ap, ◌∙◌, false, none, some, List, [], ◌∷◌, ◌++◌,
  map, append_assoc, append_nonempty, arith, All, All-append, All-imp,
}
use band_width_limiter.Base.Int.{pos}
use band_width_limiter.Base.Outcome.{ok}
use band_width_limiter.Text.{Bytes, length, fgets, equal, contains, digits, strtok}
use band_width_limiter.Text.Tokens.{Free, strtok-Free, strtok_last, strtok_skip}
use band_width_limiter.Config.{
  string, ConfigStruct, trim, bracketed, text_of, set_entry, read_lines, parse_config,
  name_libc_path, no_config,
}
use band_width_limiter.Config.Lines.{
  IsInline, IsPlain, length_append, fgets_line, line_of_entry, trim_line,
}
use band_width_limiter.Config.File.{
  Note, write_notes, count, IsNote, PortLine, write_ports, port_of, lines_of, IsPortLine,
  read_lines_entry, read_lines_notes,
}
use band_width_limiter.Config.Ports.{IsPlain-IsInline}
use band_width_limiter.Config.Total.{IsDigit, count_text, read_lines_count_then}

-- A path: a part of a line, with no bracket and no `=` in it.
abbrev IsPath : Bytes → Type 0
IsPath s = (s ≢ []) × All (λ c. IsPlain c × (c ≢ b'[') × (c ≢ b']')) s × (length s ≤ 1000)

abbrev path_value : Bytes → Bytes
path_value path = b'[' ∷ (path ++ (b']' ∷ []))

abbrev path_text : Bytes → Bytes
path_text path = name_libc_path ++ (b'=' ∷ path_value path)

module _ (path : Bytes) (h : IsPath path) where
  path-IsPlain : All IsPlain path
  path-IsPlain = All-imp {Q = IsPlain} (λ c (k : IsPlain c × (c ≢ b'[') × (c ≢ b']')). k.0) path h.1

  path-open : Free (b'[' ∷ []) (path ++ (b']' ∷ []))
  path-open =
      All-append (λ c. contains (b'[' ∷ []) c ≡ false) path (b']' ∷ [])
        (All-imp {Q = λ c. contains (b'[' ∷ []) c ≡ false}
          (λ c (k : IsPlain c × (c ≢ b'[') × (c ≢ b']')). ground (arith, k.1)) path h.1)
        (refl, tt)

  path-close : Free (b']' ∷ []) path
  path-close =
      All-imp {Q = λ c. contains (b']' ∷ []) c ≡ false}
        (λ c (k : IsPlain c × (c ≢ b'[') × (c ≢ b']')). ground (arith, k.2)) path h.1

  bracketed_path : (bracketed (path_value path)).1 ≡ some path
  unfolding bracketed
  bracketed_path =
      let first : strtok (b'[' ∷ []) (path_value path) ≡ (some (path ++ (b']' ∷ [])), []) =
        strtok_skip (b'[' ∷ []) b'[' (path ++ (b']' ∷ [])) refl
        ∙ strtok_last (b'[' ∷ []) (path ++ (b']' ∷ [])) (append_nonempty path (b']' ∷ []) h.0)
            path-open in
      ap (λ x. (strtok (b']' ∷ []) (elim x.0 [ none ↦ x.1 | some s ↦ s ])).0) first
      ∙ ap (λ x. x.0) (strtok-Free (b']' ∷ []) path b']' [] h.0 path-close refl)

  value-IsPlain : All IsPlain (path_value path)
  value-IsPlain = (ground arith, All-append IsPlain path (b']' ∷ []) path-IsPlain (ground arith))

  read_lines_path :
      (fuel : ℕ) (rest : Bytes) (c : ConfigStruct)
      → read_lines (suc fuel) (path_text path ++ (b'\n' ∷ rest)) c
        ≡ read_lines fuel rest (record c { libc_path = string path })
  unfolding set_entry equal text_of
  read_lines_path fuel rest c =
      let inline : IsInline (path_text path) =
        All-append (λ c. (c ≢ b'\n') × (c ≢ 0)) (name_libc_path ++ (b'=' ∷ [])) (path_value path)
          (ground arith) (IsPlain-IsInline (path_value path) value-IsPlain) in
      let fits : length (path_text path) ≤ 1022 =
        let n = length_append path (b']' ∷ []) in omega (arith, n, h.2) in
      let free : Free (b'=' ∷ []) (path_value path ++ (b'\n' ∷ [])) =
        All-append (λ c. contains (b'=' ∷ []) c ≡ false) (path_value path) (b'\n' ∷ [])
          (All-imp {Q = λ c. contains (b'=' ∷ []) c ≡ false}
            (λ c (k : IsPlain c). ground (arith, k)) (path_value path) value-IsPlain)
          (refl, tt) in
      let trimmed : trim (path_value path ++ (b'\n' ∷ [])) ≡ ok (path_value path) =
        ap (λ s. trim (b'[' ∷ s)) (append_assoc path (b']' ∷ []) (b'\n' ∷ []))
        ∙ trim_line b'[' b']' path refl refl in
      read_lines_entry fuel (path_text path ++ (b'\n' ∷ rest)) (path_text path ++ (b'\n' ∷ [])) rest
        c (fgets_line (path_text path) rest inline fits) name_libc_path
        (path_value path ++ (b'\n' ∷ [])) (path_value path)
        (line_of_entry name_libc_path (path_value path ++ (b'\n' ∷ [])) (ground arith) (λ e. cc)
          free)
        trimmed
      ∙ rw bracketed_path refl

read_lines_end : (fuel : ℕ) (c : ConfigStruct) → 1 ≤ fuel → read_lines fuel [] c ≡ ok c
unfolding read_lines fgets
read_lines_end zero c le = absurd (omega (arith, le))
read_lines_end (suc fuel) c le = refl

read_lines_last :
    (fuel : ℕ) (path : Bytes) (c : ConfigStruct)
    → IsPath path
    → 2 ≤ fuel
    → read_lines fuel (path_text path ++ (b'\n' ∷ [])) c ≡ ok (record c { libc_path = string path })
read_lines_last zero path c h le = absurd (omega (arith, le))
read_lines_last (suc fuel) path c h le =
    read_lines_path path h fuel [] c
    ∙ read_lines_end fuel (record c { libc_path = string path }) (omega (arith, le))

-- What a file is written from.
pub record Source : Type 0 where
  pub above : List Note
  pub number : Bytes
  pub ports : List PortLine
  pub below : List Note
  pub path : Bytes

abbrev pub file_text : Source → Bytes
file_text s = write_notes s.above (
    count_text s.number
    ++ (b'\n' ∷ write_ports s.ports (write_notes s.below (path_text s.path ++ (b'\n' ∷ [])))))

-- The lines fit the buffer and have the right form, and the number is that of the ports.
pub record IsSource (s : Source) : Type 0 where
  pub above : All IsNote s.above
  pub ports : All IsPortLine s.ports
  pub below : All IsNote s.below
  pub path : IsPath s.path
  pub decimal : All IsDigit s.number
  pub some_digit : s.number ≢ []
  pub short : length s.number ≤ 1000
  pub number : digits 0 s.number ≡ count s.ports
  pub small : count s.ports < 2 ^ 31

-- Rounds enough for the file.
abbrev pub rounds : Source → ℕ
rounds s = count s.above + lines_of s.ports + count s.below + 4

abbrev pub config_of : Source → ConfigStruct
config_of s = record no_config {
  no_port = some (count s.ports);
  ports = map port_of s.ports;
  libc_path = string s.path;
}

-- A file that is written from a source of the right form (notes, the number of ports, the lines of
-- the ports with notes above them, notes, the path of libc) is read back by `parse_config` with
-- result 1, given a round for each line and two more: the number, the four fields of each port in
-- the order of the lines, and the path.
pub parse_config-file_text :
    (s : Source) (fuel : ℕ)
    → IsSource s
    → rounds s ≤ fuel
    → parse_config fuel (some (file_text s)) ≡ ok (pos 1, config_of s)
unfolding parse_config
parse_config-file_text s fuel h le =
    let done = ok (config_of s) in
    let counted = record no_config {
      no_port = some (count s.ports);
      ports = map port_of s.ports;
    } in
    let tail = path_text s.path ++ (b'\n' ∷ []) in
    let lines : read_lines fuel (file_text s) no_config ≡ done =
      read_lines_notes s.above (suc (lines_of s.ports + count s.below + 2)) fuel
        (count_text s.number ++ (b'\n' ∷ write_ports s.ports (write_notes s.below tail))) no_config
        done h.above
        (λ f lf.
          read_lines_count_then s.number h.some_digit h.decimal
            (lines_of s.ports + count s.below + 2) f s.ports (write_notes s.below tail) no_config
            done h.short h.number h.small h.ports (omega arith)
            (λ g lg.
              read_lines_notes s.below 2 g tail counted done h.below
                (λ e le'. read_lines_last e s.path counted h.path le') (omega (arith, lg)))
            lf)
        (omega (arith, le)) in
    rw lines refl
