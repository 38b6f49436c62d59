-- ===== src/Config.antt =====
-- The parser of the configuration file, parse_config.c and parse_config.h. The file is its bytes, and
-- each loop takes fuel: one round for each line that is read or counted.
pub mod Fields
pub mod Lines
pub mod File
pub mod Ports
pub mod Total
pub mod Whole
pub mod Count
pub mod Endless
pub mod Ends
use Prim.Native.Nat.Ordering.{lt, eq, gt}
use band_width_limiter.Base.{
  ℕ, zero, suc, ◌+◌, ◌-◌, ◌%◌, ◌^◌, Bool, true, false, not, ◌||◌, Option, none, some, List, [], ◌∷◌,
  ◌++◌, leb, ◌==◌, if◌then◌else◌,
}
use band_width_limiter.Base.Int.{ℤ, pos, negsuc}
use band_width_limiter.Base.Outcome.{Outcome, ok, crashed, out_of_fuel, ◌>>=◌}
use band_width_limiter.Text.{Bytes, is_space, equal, fgets, strtok, skip_space, atoi}
use band_width_limiter.Env.{PortStr, to_uint32}

-- A pointer to a string: not set, NULL, or to these bytes. The strings of a `config_struct` lie in the
-- array `value` of the loop body.
pub data Text : Type 0 where
  unset null : Text
  string : Bytes → Text

pub record ConfigStruct : Type 0 where
  pub no_port : Option ℕ
  pub libc_path : Text
  pub server_ip : Text
  pub ports : List PortStr

-- `MAXLEN`
abbrev pub max_len : ℕ
max_len = 1024

-- What the first loop of `trim` leaves.
unfoldable pub trim_end : Bytes → Bytes
trim_end [] = []
trim_end (c ∷ s) = elim (trim_end s) [
  | [] ↦ if is_space c then [] else c ∷ []
  | x ∷ xs ↦ c ∷ x ∷ xs
]

-- If every byte is white space, that loop reads the byte before the string.
unfoldable pub trimmed : Bytes → Outcome Bytes
trimmed [] = crashed
trimmed (c ∷ s) = ok (skip_space (c ∷ s))

unfoldable pub trim : Bytes → Outcome Bytes
unfolding trim_end trimmed
trim s = trimmed (trim_end s)

-- A line: blank or a comment, without a name or without a value, or both.
pub data Line : Type 0 where
  blank incomplete : Line
  entry : Bytes → Bytes → Line

unfoldable pub name_value : Bytes → Line
name_value buff =
    let (name, rest) = strtok (b'=' ∷ []) buff in
    elim name [
      | none ↦ incomplete
      | some name ↦ elim (strtok (b'=' ∷ []) rest).0 [
        | none ↦ incomplete
        | some value ↦ entry name value
      ]
    ]

unfoldable pub line_of : Bytes → Line
unfolding name_value
line_of [] = name_value []
line_of (c ∷ buff) = if c == b'\n' || c == b'#' then blank else name_value (c ∷ buff)

-- The `switch` on `loop2`.
unfoldable pub assign : ℕ → Bytes → PortStr → PortStr
assign loop2 temp2 p =
    if loop2 == 1
    then record p { port_no = to_uint32 (atoi temp2) }
    else if loop2 == 2
    then record p { up_limit = atoi temp2 }
    else if loop2 == 3
    then record p { down_limit = atoi temp2 }
    else if loop2 == 4
    then record p { latency = to_uint32 (atoi temp2) }
    else p

-- The rounds of the loop over `loop2` that are left, from `loop2` and `temp1` on.
unfoldable pub fields : ℕ → ℕ → Option Bytes → PortStr → PortStr
fields zero loop2 temp1 p = p
fields (suc more) loop2 none p = fields more (loop2 + 1) none p
fields (suc more) loop2 (some temp1) p =
    let (temp2, rest) = strtok (if loop2 == 4 then b']' ∷ [] else b',' ∷ []) temp1 in
    fields more (loop2 + 1) (strtok (b']' ∷ []) rest).0
      (elim temp2 [ none ↦ p | some word ↦ assign loop2 word p ])

-- The structure that `safe_malloc` leaves.
abbrev pub empty_port : PortStr
empty_port = record { port_no = 0; up_limit = pos 0; down_limit = pos 0; latency = 0 }

-- The structure of a line of a port, from its trimmed value.
unfoldable pub read_port : Bytes → PortStr
unfolding fields
read_port value = fields 4 1 (strtok (b'[' ∷ []) value).0 empty_port

-- `++loop` of a `size_t`
abbrev pub next_loop : ℕ → ℕ
next_loop loop = (loop + 1) % 2 ^ 64

-- The loop over the lines of the ports, with the file and the list of ports.
unfoldable pub read_ports : ℕ → ℕ → ℕ → Bytes → List PortStr → Outcome (Bytes × List PortStr)
unfolding line_of trim read_port
read_ports zero loop no_port file ports = out_of_fuel
read_ports (suc fuel) loop no_port file ports = elim (leb loop no_port) [
  | false ↦ ok (file, ports)
  | true ↦ elim (fgets max_len file) [
    | none ↦ read_ports fuel (next_loop loop) no_port file ports
    | some (buff, file') ↦ elim (line_of buff) [
      | blank ↦ read_ports fuel loop no_port file' ports
      | incomplete ↦ read_ports fuel (next_loop loop) no_port file' ports
      | entry name value ↦ trim value >>= λ v.
          read_ports fuel (next_loop loop) no_port file' (ports ++ (read_port v ∷ []))
    ]
  ]
]

-- `temp1 = strtok(value,"["); temp2 = strtok(temp1,"]");`, where a NULL `temp1` goes on with the string
-- of the first call.
unfoldable pub bracketed : Bytes → Option Bytes × Option Bytes
bracketed value =
    let (temp1, rest) = strtok (b'[' ∷ []) value in
    (temp1, (strtok (b']' ∷ []) (elim temp1 [ none ↦ rest | some s ↦ s ])).0)

unfoldable pub text_of : Option Bytes → Text
text_of none = null
text_of (some s) = string s

-- `fprintf(stdout,"%s\n",s)`, and what follows it.
unfoldable pub printed {ℓ} : {A : Type ℓ} → Option Bytes → Outcome A → Outcome A
printed none next = crashed
printed (some s) next = next

abbrev pub name_no_port : Bytes
name_no_port = b'N' ∷ b'O' ∷ b'_' ∷ b'P' ∷ b'O' ∷ b'R' ∷ b'T' ∷ []

abbrev pub name_libc_path : Bytes
name_libc_path = b'L' ∷ b'I' ∷ b'B' ∷ b'C' ∷ b'_' ∷ b'P' ∷ b'A' ∷ b'T' ∷ b'H' ∷ []

abbrev pub name_server_ip : Bytes
name_server_ip = b'S' ∷ b'E' ∷ b'R' ∷ b'V' ∷ b'E' ∷ b'R' ∷ b'_' ∷ b'I' ∷ b'P' ∷ []

abbrev pub name_server_port : Bytes
name_server_port = b'S' ∷ b'E' ∷ b'R' ∷ b'V' ∷ b'E' ∷ b'R' ∷ b'_' ∷ b'P' ∷ b'O' ∷ b'R' ∷ b'T' ∷ []

-- An `int` as a `size_t`.
unfoldable pub int_size : ℤ → ℕ
int_size (pos n) = n
int_size (negsuc n) = 2 ^ 64 - 1 - n

-- The chain of tests on the name, with the trimmed value.
unfoldable pub set_entry : ℕ → Bytes → Bytes → Bytes → ConfigStruct → Outcome (Bytes × ConfigStruct)
unfolding equal read_ports bracketed text_of printed int_size
set_entry fuel name value file c =
    if equal name name_no_port
    then (let no_port = int_size (atoi value) in
        read_ports fuel 1 no_port file c.ports >>= λ (file', ports).
        ok (file', record c { no_port = some no_port; ports = ports }))
    else if equal name name_libc_path
    then ok (file, record c { libc_path = text_of (bracketed value).1 })
    else if equal name name_server_ip
    then printed (bracketed value).1
        (ok (file, record c { server_ip = text_of (bracketed value).1 }))
    else if equal name name_server_port
    then printed (bracketed value).0 (printed (bracketed value).1 (ok (file, c)))
    else ok (file, c)

-- The loop over the lines of the file. `return_val` is 1 all along.
unfoldable pub read_lines : ℕ → Bytes → ConfigStruct → Outcome ConfigStruct
unfolding line_of trim set_entry
read_lines zero file c = out_of_fuel
read_lines (suc fuel) file c = elim (fgets max_len file) [
  | none ↦ ok c
  | some (buff, file') ↦ elim (line_of buff) [
    | blank ↦ read_lines fuel file' c
    | incomplete ↦ read_lines fuel file' c
    | entry name value ↦ trim value >>= λ v.
        set_entry fuel name v file' c >>= λ (file'', c'). read_lines fuel file'' c'
  ]
]

-- The `config_struct` of the caller, with its list initialised.
abbrev pub no_config : ConfigStruct
no_config = record { no_port = none; libc_path = unset; server_ip = unset; ports = [] }

-- `__parse_config__`: the file is `none` if it cannot be opened.
unfoldable pub parse_config : ℕ → Option Bytes → Outcome (ℤ × ConfigStruct)
unfolding read_lines
parse_config fuel none = ok (negsuc 0, no_config)
parse_config fuel (some file) = read_lines fuel file no_config >>= λ c. ok (pos 1, c)
