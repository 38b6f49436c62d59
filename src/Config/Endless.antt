-- ===== src/Config/Endless.antt =====
-- A file that begins with the line `NO_PORT=-1`.
use band_width_limiter.Base.{ℕ, zero, suc, ◌-◌, ◌^◌, ◌≢◌, refl, some, [], ◌∷◌, ◌++◌, arith}
use band_width_limiter.Base.Int.{ℤ}
use band_width_limiter.Base.Outcome.{Outcome, ok, exited, crashed, out_of_fuel, ◌>>=◌}
use band_width_limiter.Text.{Bytes, equal, atoi}
use band_width_limiter.Config.{
  ConfigStruct, name_no_port, no_config, set_entry, int_size, read_ports, read_lines, parse_config,
}
use band_width_limiter.Config.Lines.{fgets_line, line_of_entry, trim_word}
use band_width_limiter.Config.File.{read_lines_entry}
use band_width_limiter.Config.Count.{read_ports_goes_on}

abbrev pub minus_one : Bytes
minus_one = b'-' ∷ b'1' ∷ []

abbrev minus_line : Bytes
minus_line = name_no_port ++ (b'=' ∷ minus_one)

bind_not_ok {ℓ κ} :
    {A : Type ℓ} {B : Type κ} (o : Outcome A) (f : A → Outcome B) (b : B)
    → ((a : A) → o ≢ ok a)
    → (o >>= f) ≢ ok b
bind_not_ok (ok a) f b h e = h a refl
bind_not_ok (exited n) f b h e = cc
bind_not_ok crashed f b h e = cc
bind_not_ok out_of_fuel f b h e = cc

set_entry_goes_on :
    (fuel : ℕ) (file : Bytes) (c : ConfigStruct) (r : Bytes × ConfigStruct)
    → set_entry fuel name_no_port minus_one file c ≢ ok r
unfolding set_entry equal int_size atoi
set_entry_goes_on fuel file c r =
    bind_not_ok (read_ports fuel 1 (2 ^ 64 - 1) file c.ports) _ r
      (λ a. read_ports_goes_on fuel 1 file c.ports a (omega arith))

read_lines_goes_on :
    (fuel : ℕ) (rest : Bytes) (c r : ConfigStruct)
    → read_lines fuel (minus_line ++ (b'\n' ∷ rest)) c ≢ ok r
unfolding read_lines
read_lines_goes_on zero rest c r = λ e. cc
read_lines_goes_on (suc fuel) rest c r =
    let step =
      read_lines_entry fuel (minus_line ++ (b'\n' ∷ rest)) (minus_line ++ (b'\n' ∷ [])) rest c
        (fgets_line minus_line rest (ground arith) (omega arith)) name_no_port
        (minus_one ++ (b'\n' ∷ [])) minus_one
        (line_of_entry name_no_port (minus_one ++ (b'\n' ∷ [])) (ground arith) (λ e. cc)
          (refl, (refl, (refl, tt))))
        (trim_word minus_one (λ e. cc) (refl, (refl, tt))) in
    rw step (
      bind_not_ok (set_entry fuel name_no_port minus_one rest c) _ r
        (set_entry_goes_on fuel rest c))

-- On a file that begins with the line `NO_PORT=-1`, whatever follows, `parse_config` never
-- returns: no number of rounds gives a result.
pub parse_config_goes_on :
    (fuel : ℕ) (rest : Bytes) (r : ℤ × ConfigStruct)
    → parse_config fuel (some (minus_line ++ (b'\n' ∷ rest))) ≢ ok r
unfolding parse_config
parse_config_goes_on fuel rest r =
    bind_not_ok (read_lines fuel (minus_line ++ (b'\n' ∷ rest)) no_config) _ r
      (read_lines_goes_on fuel rest no_config)
