-- ===== src/Coordinator/Arguments.antt =====
-- Config and parseArgs. A text is the list of its bytes.
use mcpd.Base.{
  ℕ, ◌*◌, ◌^◌, ◌-◌, Bool, true, false, ◌||◌, List, [], ◌∷◌, ◌++◌, Option, none, some, ltb, ◌==◌,
  if◌then◌else◌,
}
use mcpd.Base.Int.{ℤ, pos, negsuc, long_min, long_max, ltb_ℤ}
use mcpd.Base.Text.{codes, same_text, read_number}
use mcpd.Wire.{Bytes, Result, ok, err, and_then, other_error}
use mcpd.Tcp.{TransportCompression, no_compression, snappy}

pub record Config : Type 0 where
  pub dimacs_path : Bytes
  pub bind_host : Bytes
  pub port : ℕ
  pub worker_count : ℕ
  pub partition_count : ℕ
  pub max_iterations : ℕ
  pub schedule_levels : ℕ
  pub schedule_start : ℕ
  pub objective_scale : ℕ
  pub accept_timeout_ms : ℕ
  pub progress_every : ℕ
  pub ready_file : Bytes
  pub discovery_port : ℕ
  pub discovery_token : Bytes
  pub advertise_host : Bytes
  pub status_port : ℕ
  pub status_token : Bytes
  pub status_file : Bytes
  pub telemetry_csv_prefix : Bytes
  pub rpc_compression : TransportCompression
  pub saturate_capacity_overflow : Bool
  pub directed : Bool

-- The start values.
abbrev pub default_config : Bytes → Config
default_config path = record {
  dimacs_path = path;
  bind_host = codes "127.0.0.1";
  port = 0;
  worker_count = 1;
  partition_count = 1;
  max_iterations = 10000;
  schedule_levels = 5;
  schedule_start = 10000;
  objective_scale = 1;
  accept_timeout_ms = 24 * 60 * 60 * 1000;
  progress_every = 0;
  ready_file = [];
  discovery_port = 0;
  discovery_token = codes "mcpd4";
  advertise_host = [];
  status_port = 0;
  status_token = codes "mcpd4";
  status_file = [];
  telemetry_csv_prefix = [];
  rpc_compression = no_compression;
  saturate_capacity_overflow = false;
  directed = false;
}

abbrev pub in_long : ℤ → Result ℤ
in_long n = if ltb_ℤ n long_min || ltb_ℤ long_max n then err (other_error (codes "stol")) else ok n

-- std::stol, which throws std::invalid_argument or std::out_of_range with this text.
unfoldable pub stol : Bytes → Result ℤ
stol text = elim (read_number text) [ none ↦ err (other_error (codes "stol")) | some n ↦ in_long n ]

-- The values that parseLong and parseNonNegativeInt let through are natural numbers.
abbrev pub positive : Bytes → ℤ → Result ℕ
positive name (pos n) =
    if n == 0 then err (other_error (name ++ codes " must be positive")) else ok n
positive name (negsuc n) = err (other_error (name ++ codes " must be positive"))

abbrev pub non_negative : Bytes → ℤ → Result ℕ
non_negative name (pos n) = ok n
non_negative name (negsuc n) = err (other_error (name ++ codes " must be non-negative"))

abbrev pub int_range : Bytes → ℕ → Result ℕ
int_range name n =
    if ltb (2 ^ 31 - 1) n then err (other_error (name ++ codes " exceeds int range")) else ok n

abbrev pub port_range : ℕ → Result ℕ
port_range n =
    if ltb (2 ^ 16 - 1) n then err (other_error (codes "port exceeds uint16 range")) else ok n

unfoldable pub parse_long : Bytes → Bytes → Result ℕ
parse_long value name = and_then (stol value) (positive name)

unfoldable pub parse_int : Bytes → Bytes → Result ℕ
parse_int value name = and_then (parse_long value name) (int_range name)

unfoldable pub parse_non_negative_int : Bytes → Bytes → Result ℕ
parse_non_negative_int value name =
    and_then (and_then (stol value) (non_negative name)) (int_range name)

unfoldable pub parse_port : Bytes → Result ℕ
parse_port value = and_then (parse_long value (codes "port")) port_range

unfoldable pub parse_transport_compression : Bytes → Result TransportCompression
parse_transport_compression value =
    if same_text value (codes "none")
    then ok no_compression
    else if same_text value (codes "snappy")
    then ok snappy
    else err (other_error (codes "unknown RPC compression mode: " ++ value))

-- An option that takes a value: its names, and what it does with its name and its value.
pub record ValueOption : Type 0 where
  pub names : List Bytes
  pub set : Bytes → Bytes → Config → Result Config

abbrev pub option :
    {A : Type 0} → List Bytes → (Bytes → Bytes → Result A) → (Config → A → Config) → ValueOption
option names parse store = record {
  names = names;
  set = λ name value config. and_then (parse value name) (λ a. ok (store config a));
}

abbrev pub text_value : Bytes → Bytes → Result Bytes
text_value value name = ok value

abbrev pub port_value : Bytes → Bytes → Result ℕ
port_value value name = parse_port value

-- The branches that call require_value, in their order.
unfoldable pub value_options : List ValueOption
value_options =
    option (codes "--port" ∷ []) port_value (λ c n. record c { port = n })
    ∷ option (codes "--bind" ∷ []) text_value (λ c t. record c { bind_host = t })
    ∷ option (codes "--workers" ∷ []) parse_int (λ c n. record c { worker_count = n })
    ∷ option (codes "--partitions" ∷ []) parse_int (λ c n. record c { partition_count = n })
    ∷ option (codes "--max-iterations" ∷ []) parse_int (λ c n. record c { max_iterations = n })
    ∷ option (codes "--schedule-levels" ∷ codes "--num-scales" ∷ []) parse_int
        (λ c n. record c { schedule_levels = n })
    ∷ option (codes "--schedule-start" ∷ codes "--initial-step" ∷ []) parse_long
        (λ c n. record c { schedule_start = n })
    ∷ option (codes "--objective-scale" ∷ codes "--capacity-multiplier" ∷ []) parse_long
        (λ c n. record c { objective_scale = n })
    ∷ option (codes "--accept-timeout-ms" ∷ []) parse_long
        (λ c n. record c { accept_timeout_ms = n })
    ∷ option (codes "--progress-every" ∷ []) parse_non_negative_int
        (λ c n. record c { progress_every = n })
    ∷ option (codes "--ready-file" ∷ []) text_value (λ c t. record c { ready_file = t })
    ∷ option (codes "--discovery-port" ∷ []) port_value (λ c n. record c { discovery_port = n })
    ∷ option (codes "--discovery-token" ∷ []) text_value (λ c t. record c { discovery_token = t })
    ∷ option (codes "--advertise-host" ∷ []) text_value (λ c t. record c { advertise_host = t })
    ∷ option (codes "--status-port" ∷ []) port_value (λ c n. record c { status_port = n })
    ∷ option (codes "--status-token" ∷ []) text_value (λ c t. record c { status_token = t })
    ∷ option (codes "--status-file" ∷ []) text_value (λ c t. record c { status_file = t })
    ∷ option (codes "--telemetry-csv-prefix" ∷ []) text_value
        (λ c t. record c { telemetry_csv_prefix = t })
    ∷ option (codes "--rpc-compression" ∷ []) (λ value name. parse_transport_compression value)
        (λ c m. record c { rpc_compression = m })
    ∷ []

abbrev pub named : Bytes → List Bytes → Bool
named arg [] = false
named arg (name ∷ names) = same_text arg name || named arg names

abbrev pub find_option : Bytes → List ValueOption → Option ValueOption
find_option arg [] = none
find_option arg (o ∷ options) =
    let rest = find_option arg options in if named arg o.names then some o else rest

-- The branches without a value.
abbrev pub set_flag : Bytes → Config → Result Config
set_flag arg config =
    if same_text arg (codes "--saturate-capacity-overflow")
      || same_text arg (codes "--truncate-capacity-overflow")
    then ok (record config { saturate_capacity_overflow = true })
    else if same_text arg (codes "--directed")
    then ok (record config { directed = true })
    else err (other_error (codes "unknown argument: " ++ arg))

-- The loop over argv.
unfoldable pub parse_loop : List Bytes → Config → Result Config
parse_loop [] config = ok config
parse_loop (arg ∷ []) config = elim (find_option arg value_options) [
  | none ↦ set_flag arg config
  | some o ↦ err (other_error (arg ++ codes " requires a value"))
]
parse_loop (arg ∷ (value ∷ args)) config = elim (find_option arg value_options) [
  | none ↦ and_then (set_flag arg config) (parse_loop (value ∷ args))
  | some o ↦ and_then (o.set arg value config) (parse_loop args)
]

-- The checks after the loop.
abbrev pub final_checks : Bool → Config → Result Config
final_checks available config =
    if config.port == 0
    then err (other_error (codes "--port is required"))
    else elim config.rpc_compression [
      | no_compression ↦ ok config
      | snappy ↦
          if available
          then ok config
          else err (
              other_error (
                codes
                  "--rpc-compression snappy requested but this binary was built without Snappy support"))
    ]

-- `argv` without the name of the program. `available` is snappyCompressionAvailable().
unfoldable pub parse_args : Bool → List Bytes → Result Config
parse_args available [] = err (other_error (codes "DIMACS path is required"))
parse_args available (path ∷ args) =
    and_then (parse_loop args (default_config path)) (final_checks available)
