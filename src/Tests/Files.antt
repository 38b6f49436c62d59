-- ===== src/Tests/Files.antt =====
-- The configuration file, read at small files.
use Prim.Native.Char.{code}
use Prim.Native.String.{String}
use band_width_limiter.Base.{ℕ, ◌≡◌, ◌≢◌, refl, sym, ap, ◌∙◌, true, some, List, [], ◌∷◌, arith}
use band_width_limiter.Text.{digits}
use band_width_limiter.Config.Ends.{IsCounted, IsCounted-line, IsCounted-end, parse_config_ends}
use band_width_limiter.Config.Endless.{parse_config_goes_on}
use band_width_limiter.Config.File.{empty_line, comment, PortLine, IsPortLine}
use band_width_limiter.Config.Whole.{Source, IsSource, file_text, config_of, parse_config-file_text}
use band_width_limiter.Links.{Memory, init_list_head, list_for_each, do_cleanup_list}
use band_width_limiter.Links.Chain.{add_all}
use band_width_limiter.Links.Clean.{Cleaned, add_all-Cleaned}
use band_width_limiter.Base.Int.{pos, negsuc}
use band_width_limiter.Base.Outcome.{ok, crashed, out_of_fuel}
use band_width_limiter.Text.{Bytes, equal, fgets, strtok, atoi}
use band_width_limiter.Env.{to_uint32}
use band_width_limiter.Config.{
  parse_config, name_no_port, line_of, trim, int_size, assign, string, unset,
}

abbrev pub codes : String → Bytes
codes String.[] = []
codes (String.◌∷◌ c s) = code c ∷ codes s

abbrev sample : Bytes
sample =
    codes
      "#config\nNO_PORT= 3\nPORT1=[5000,1024,-1,245]\n\nPORT2\nPORT3=[5003,7,8,9]\nLIBC_PATH=[/lib/libc.so.6]\n"

sample_run :
    parse_config 20 (some sample)
    ≡ ok (
      pos 1,
      record {
        no_port = some 3;
        libc_path = string (codes "/lib/libc.so.6");
        server_ip = unset;
        ports =
            record { port_no = 5000; up_limit = pos 1024; down_limit = negsuc 0; latency = 245 }
            ∷ record { port_no = 5003; up_limit = pos 7; down_limit = pos 8; latency = 9 }
            ∷ [];
      },
    )
unfolding parse_config assign to_uint32 fgets strtok atoi
sample_run = refl

-- A value of white space only makes `trim` read out of bounds.
blank_value : parse_config 20 (some (codes "NO_PORT=  \n")) ≡ crashed
unfolding parse_config fgets strtok
blank_value = refl

-- Two ports, with a note above one of them and an empty line above the path.
abbrev web : PortLine
web = record {
  notes = comment (codes " http") ∷ [];
  name = codes "PORT1";
  no = codes "80";
  up = codes "-1";
  down = codes "4";
  latency = codes "0";
}

abbrev ssh : PortLine
ssh = record {
  notes = [];
  name = codes "PORT2";
  no = codes "22";
  up = codes "10";
  down = codes "20";
  latency = codes "5";
}

abbrev pub source : Source
source = record {
  above = comment (codes "ports") ∷ [];
  number = codes "2";
  ports = web ∷ ssh ∷ [];
  below = empty_line ∷ [];
  path = codes "/lib/c";
}

web-IsPortLine : IsPortLine web
web-IsPortLine = (
  ground arith,
  ground arith,
  ((λ e. cc, ground arith), ground arith),
  ((λ e. cc, ground arith), ground arith),
  ((λ e. cc, ground arith), ground arith),
  ((λ e. cc, ground arith), ground arith),
  ground arith,
)

ssh-IsPortLine : IsPortLine ssh
ssh-IsPortLine = (
  ground arith,
  ground arith,
  ((λ e. cc, ground arith), ground arith),
  ((λ e. cc, ground arith), ground arith),
  ((λ e. cc, ground arith), ground arith),
  ((λ e. cc, ground arith), ground arith),
  ground arith,
)

pub source-IsSource : IsSource source
unfolding digits
source-IsSource = record {
  above = ground arith;
  ports = (web-IsPortLine, (ssh-IsPortLine, tt));
  below = ground arith;
  path = (λ e. cc, ground arith, ground arith);
  decimal = ground arith;
  some_digit = λ e. cc;
  short = ground arith;
  number = refl;
  small = ground arith;
}

parse_config_example : parse_config 30 (some (file_text source)) ≡ ok (pos 1, config_of source)
parse_config_example = parse_config-file_text source 30 source-IsSource (ground arith)

goes_on_example :
    parse_config 9 (some (codes "NO_PORT=-1\nPORT1=[80,1,1,0]\n")) ≢ ok (pos 1, config_of source)
goes_on_example = parse_config_goes_on 9 (codes "PORT1=[80,1,1,0]\n") (pos 1, config_of source)

-- One port.
abbrev short : Bytes
short = codes "NO_PORT=1\nP=[1,2,3,4]\n"

short-IsCounted : IsCounted 1 short
unfolding fgets line_of equal trim int_size strtok atoi
short-IsCounted =
    IsCounted-line 1 short (codes "NO_PORT=1\n") (codes "P=[1,2,3,4]\n") refl
      (λ name value v l _ t.
        let value' : value ≡ codes "1\n" = cc in
        let t' : trim (codes "1\n") ≡ ok v = ap trim (sym value') ∙ t in
        let v' : v ≡ codes "1" = cc in rw v' (omega arith))
      (IsCounted-line 1 (codes "P=[1,2,3,4]\n") (codes "P=[1,2,3,4]\n") [] refl
        (λ name value v l n _.
          let name' : codes "P" ≡ name = cc in
          let n' : equal (codes "P") name_no_port ≡ true =
            ap (λ x. equal x name_no_port) name' ∙ n in
          absurd cc)
        (IsCounted-end 1))

parse_config_ends_example : parse_config 24 (some short) ≢ out_of_fuel
parse_config_ends_example = parse_config_ends 24 1 short (omega arith) short-IsCounted (omega arith)

-- The members of a list lie at 200 and 300, and its head at 100; at first memory is zero.
abbrev zeros : Memory
zeros = record { next = λ _. 0; prev = λ _. 0 }

abbrev members : List ℕ
members = 200 ∷ 300 ∷ []

clean_list_example :
    (list_for_each 9 100 (add_all 100 members (init_list_head 100 zeros)) ≡ some members)
    × Cleaned 100 members (do_cleanup_list 9 100 (add_all 100 members (init_list_head 100 zeros)))
clean_list_example = add_all-Cleaned zeros 100 members 9 (ground arith) (ground arith) (omega arith)
