-- ===== src/Main/Options.antt =====
-- The command line of src/rds95.c: what `getopt_long` finds, one option after the other.
use rds.Common.{ℕ, List, [], ◌∷◌}
use rds.Setters.{is_nul}
use rds.Setters.Copy.{text_prefix}
use rds.Rds95.{Rds95Config}

-- An option with its argument, or one that is not known. An argument is the memory from `optarg` on.
pub data Opt : Type 0 where
  config_option socket_option : List ℕ → Opt
  asciig_option help_option unknown_option : Opt

pub record Args : Type 0 where
  pub config_path : List ℕ
  pub socket_path : List ℕ
  pub config : Rds95Config

-- The text of an array of 64 bytes, of which 63 are copied and the last is NUL.
unfoldable pub copied_path : List ℕ → List ℕ
copied_path memory = text_prefix is_nul 63 memory

-- "/etc/rds95.conf" and "/etc/fm95/ctl.socket"
abbrev pub default_config_path : List ℕ
default_config_path =
    0x2f ∷ 0x65 ∷ 0x74 ∷ 0x63 ∷ 0x2f ∷ 0x72 ∷ 0x64 ∷ 0x73 ∷ 0x39 ∷ 0x35 ∷ 0x2e ∷ 0x63 ∷ 0x6f ∷ 0x6e
    ∷ 0x66 ∷ []

abbrev pub default_socket_path : List ℕ
default_socket_path =
    0x2f ∷ 0x65 ∷ 0x74 ∷ 0x63 ∷ 0x2f ∷ 0x66 ∷ 0x6d ∷ 0x39 ∷ 0x35 ∷ 0x2f ∷ 0x63 ∷ 0x74 ∷ 0x6c ∷ 0x2e
    ∷ 0x73 ∷ 0x6f ∷ 0x63 ∷ 0x6b ∷ 0x65 ∷ 0x74 ∷ []

abbrev pub default_args : Args
default_args = record {
  config_path = default_config_path;
  socket_path = default_socket_path;
  config = record { udp_port = 0; tcp_port = 0; asciig = 0 };
}

-- The exit code, or the arguments to go on with.
pub data Parsed : Type 0 where
  quit : ℕ → Parsed
  go : Args → Parsed

unfoldable pub parse_options : List Opt → Args → Parsed
unfolding copied_path
parse_options [] args = go args
parse_options (config_option memory ∷ os) args =
    parse_options os (record args { config_path = copied_path memory })
parse_options (socket_option memory ∷ os) args =
    parse_options os (record args { socket_path = copied_path memory })
parse_options (asciig_option ∷ os) args =
    parse_options os (record args { config = record args.config { asciig = 1 } })
parse_options (help_option ∷ os) args = quit 0
parse_options (unknown_option ∷ os) args = quit 1
