-- ===== src/Cmd/Flags.antt =====
-- The flags and environment variables of cmd/clippy/main.go, with the parser of Go's package
-- `flag`, and the arguments that `start` passes to the daemon it launches.
pub mod RoundTrip
use clippy.Base.{
  ℕ, Bool, true, false, ◌&&◌, ◌||◌, not, Option, none, some, List, [], ◌∷◌, ◌++◌, ◌==◌,
  if◌then◌else◌, Result, ok, err, ◌>>=◌,
}
use clippy.Base.Bytes.{Bytes, codes, bytes_beq}
use clippy.Base.Int.{ℤ, pos}
use clippy.Base.Number.{itoa, parse_int, atoi}
use clippy.Base.Text.{trim_space}
use clippy.App.Config.{Config, config_defaults}
use clippy.Netmesh.PeerState.{is_zero}

-- `getenv` is `os.Getenv`, for which a missing variable is the empty text.
unfoldable pub env_string : (Bytes → Bytes) → Bytes → Bytes → Bytes
env_string getenv name fallback =
    let value = trim_space (getenv name) in if bytes_beq value [] then fallback else value

unfoldable pub env_int : (Bytes → Bytes) → Bytes → ℤ → ℤ
env_int getenv name fallback =
    let value = trim_space (getenv name) in
    if bytes_beq value []
    then fallback
    else elim (atoi value) [ none ↦ fallback | some parsed ↦ parsed ]

-- The literal of `parseCommonFlags`; `endpoint` is `DefaultControlEndpoint()`.
unfoldable pub env_config : (Bytes → Bytes) → Bytes → Config
env_config getenv endpoint = record {
  name = env_string getenv (codes "CLIPPY_NAME") [];
  listen_addr = env_string getenv (codes "CLIPPY_LISTEN_ADDR") [];
  port = env_int getenv (codes "CLIPPY_PORT") (pos 0);
  service_name = env_string getenv (codes "CLIPPY_SERVICE_NAME") [];
  domain = env_string getenv (codes "CLIPPY_DOMAIN") [];
  web_socket_path = env_string getenv (codes "CLIPPY_WEBSOCKET_PATH") [];
  control_endpoint = env_string getenv (codes "CLIPPY_CONTROL_ENDPOINT") endpoint;
}

-- The flags that `fs` defines.
pub data Flag : Type 0 where
  name listen_addr port service_name domain websocket_path control foreground : Flag

pub data FlagError : Type 0 where
  bad_syntax not_defined help missing_argument invalid_value : FlagError

-- What the variables behind the flags hold.
pub record Flags : Type 0 where
  pub config : Config
  pub foreground : Bool

-- The flag of a name; `foreground` is defined for two of the commands.
unfoldable pub find_flag : Bool → Bytes → Option Flag
unfolding bytes_beq
find_flag has_foreground s =
    if bytes_beq s (codes "name")
    then some name
    else if bytes_beq s (codes "listen-addr")
    then some listen_addr
    else if bytes_beq s (codes "port")
    then some port
    else if bytes_beq s (codes "service-name")
    then some service_name
    else if bytes_beq s (codes "domain")
    then some domain
    else if bytes_beq s (codes "websocket-path")
    then some websocket_path
    else if bytes_beq s (codes "control")
    then some control
    else if has_foreground && bytes_beq s (codes "foreground")
    then some foreground
    else none

abbrev is_any : List Bytes → Bytes → Bool
is_any [] s = false
is_any (t ∷ ts) s = bytes_beq s t || is_any ts s

-- `strconv.ParseBool`.
unfoldable pub parse_bool : Bytes → Option Bool
parse_bool s =
    if is_any (codes "1" ∷ codes "t" ∷ codes "T" ∷ codes "true" ∷ codes "TRUE" ∷ codes "True" ∷ [])
      s
    then some true
    else if is_any
        (codes "0" ∷ codes "f" ∷ codes "F" ∷ codes "false" ∷ codes "FALSE" ∷ codes "False" ∷ []) s
    then some false
    else none

-- `Set` of the flag's value.
unfoldable pub set_flag : Flag → Bytes → Flags → Result FlagError Flags
set_flag name v f = ok (record f { config = record f.config { name = v } })
set_flag listen_addr v f = ok (record f { config = record f.config { listen_addr = v } })
set_flag port v f = elim (parse_int v) [
  | none ↦ err invalid_value
  | some n ↦ ok (record f { config = record f.config { port = n } })
]
set_flag service_name v f = ok (record f { config = record f.config { service_name = v } })
set_flag domain v f = ok (record f { config = record f.config { domain = v } })
set_flag websocket_path v f = ok (record f { config = record f.config { web_socket_path = v } })
set_flag control v f = ok (record f { config = record f.config { control_endpoint = v } })
set_flag foreground v f = elim (parse_bool v) [
  | none ↦ err invalid_value
  | some b ↦ ok (record f { foreground = b })
]

-- What an argument is: no flag, the end of the flags, a malformed flag, or a name without its
-- dashes, with the value behind an equals sign if there is one.
pub data Argument : Type 0 where
  plain terminator malformed : Argument
  named : Bytes → Option Bytes → Argument

-- A name from its second byte on: an equals sign there ends it.
unfoldable pub split_value : Bytes → Bytes × Option Bytes
split_value [] = ([], none)
split_value (c ∷ cs) =
    let (rest, value) = split_value cs in if c == b'=' then ([], some cs) else (c ∷ rest, value)

unfoldable pub classify_name : Bytes → Argument
classify_name [] = malformed
classify_name (c ∷ cs) =
    let (rest, value) = split_value cs in
    if c == b'-' || c == b'=' then malformed else named (c ∷ rest) value

unfoldable pub classify : Bytes → Argument
unfolding classify_name split_value
classify [] = plain
classify (a ∷ []) = plain
classify (a ∷ b ∷ cs) =
    if not (a == b'-')
    then plain
    else if b == b'-'
    then elim cs [ [] ↦ terminator | c ∷ rest ↦ classify_name (c ∷ rest) ]
    else classify_name (b ∷ cs)

-- What a flag asks for next: to go on with these values, or to read its value first.
pub data Next : Type 0 where
  go_on : Flags → Next
  wants : Flag → Next

abbrev go_on_if : Result FlagError Flags → Result FlagError Next
go_on_if (ok f) = ok (go_on f)
go_on_if (err e) = err e

-- A flag with the value behind its equals sign. Only a Boolean flag can do without a value.
unfoldable pub begin_flag : Flag → Option Bytes → Flags → Result FlagError Next
begin_flag flag (some v) f = go_on_if (set_flag flag v f)
begin_flag foreground none f = go_on_if (set_flag foreground (codes "true") f)
begin_flag flag none f = ok (wants flag)

unfoldable pub undefined_flag : Bytes → FlagError
undefined_flag s =
    if bytes_beq s (codes "help") || bytes_beq s (codes "h") then help else not_defined

-- `Parse`; the first argument is the flag whose value comes next.
unfoldable pub parse_flags : Bool → Option Flag → List Bytes → Flags → Result FlagError Flags
parse_flags has_foreground none [] f = ok f
parse_flags has_foreground (some flag) [] f = err missing_argument
parse_flags has_foreground (some flag) (v ∷ args) f = elim (set_flag flag v f) [
  | err e ↦ err e
  | ok f' ↦ parse_flags has_foreground none args f'
]
parse_flags has_foreground none (s ∷ args) f = elim (classify s) [
  | plain ↦ ok f
  | terminator ↦ ok f
  | malformed ↦ err bad_syntax
  | named n value ↦ elim (find_flag has_foreground n) [
    | none ↦ err (undefined_flag n)
    | some flag ↦ elim (begin_flag flag value f) [
      | err e ↦ err e
      | ok (go_on f') ↦ parse_flags has_foreground none args f'
      | ok (wants flag') ↦ parse_flags has_foreground (some flag') args f
    ]
  ]
]

abbrev with_config_defaults : Flags → Config × Bool
with_config_defaults f = (config_defaults f.config, f.foreground)

abbrev has_foreground_flag : Bytes → Bool
has_foreground_flag command =
    bytes_beq command (codes "start") || bytes_beq command (codes "daemon")

unfoldable pub parse_common_flags :
    (Bytes → Bytes) → Bytes → Bytes → List Bytes → Result FlagError (Config × Bool)
parse_common_flags getenv endpoint command args = do
  f ←
      parse_flags (has_foreground_flag command) none args
        (record { config = env_config getenv endpoint; foreground = false })
  ok (with_config_defaults f)

-- `if value != "" { args = append(args, flag, value) }`.
unfoldable pub text_args : Bytes → Bytes → List Bytes
text_args flag value = if bytes_beq value [] then [] else flag ∷ value ∷ []

-- `if cfg.Port != 0 { … }`.
unfoldable pub port_args : ℤ → List Bytes
port_args n = if is_zero n then [] else codes "--port" ∷ itoa n ∷ []

unfoldable pub daemon_args : Config → List Bytes
daemon_args c =
    text_args (codes "--name") c.name
    ++ (text_args (codes "--listen-addr") c.listen_addr
        ++ (port_args c.port
            ++ (text_args (codes "--service-name") c.service_name
                ++ (text_args (codes "--domain") c.domain
                    ++ (text_args (codes "--websocket-path") c.web_socket_path
                        ++ text_args (codes "--control") c.control_endpoint)))))
