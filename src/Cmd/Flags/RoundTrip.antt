-- ===== src/Cmd/Flags/RoundTrip.antt =====
-- The daemon reads from its arguments the configuration that `start` was given.
use clippy.Base.{
  ◌≡◌, refl, ap, sym, ◌∙◌, inl, inr, true, false, none, some, List, [], ◌∷◌, ◌++◌, if◌then◌else◌,
  ok, Bool-cases, append-nil,
}
use clippy.Base.Bytes.{Bytes, codes, bytes_beq}
use clippy.Base.Int.{ℤ}
use clippy.Base.Number.{itoa, parse_int}
use clippy.Base.Number.RoundTrip.{IsInt64, parse_int-itoa}
use clippy.App.Config.{Config, or_default, config_defaults}
use clippy.Netmesh.PeerState.{is_zero}
use clippy.Cmd.Flags.{
  env_config, Flag, name, listen_addr, port, service_name, domain, websocket_path, control, Flags,
  find_flag, set_flag, named, classify, wants, begin_flag, parse_flags, parse_common_flags,
  text_args, port_args, daemon_args,
}

module _ (dashed n : Bytes) (flag : Flag) (v : Bytes) (rest : List Bytes) (f m : Flags)
    (classified : classify dashed ≡ named n none) (found : find_flag true n ≡ some flag)
    (begun : begin_flag flag none f ≡ ok (wants flag)) where
  parse_name :
      parse_flags true none (dashed ∷ v ∷ rest) f ≡ parse_flags true (some flag) (v ∷ rest) f
  parse_name = unfold parse_flags in rw (classified, parse_flags) (rw found (rw begun))

  -- A flag and its value are read together.
  parse_pair :
      set_flag flag v f ≡ ok m
      → parse_flags true none (dashed ∷ v ∷ rest) f ≡ parse_flags true none rest m
  parse_pair set = parse_name ∙ (unfold parse_flags in rw (set, parse_flags))

  parse_text :
      (bytes_beq v [] ≡ true → f ≡ m)
      → (bytes_beq v [] ≡ false → set_flag flag v f ≡ ok m)
      → parse_flags true none (text_args dashed v ++ rest) f ≡ parse_flags true none rest m
  unfolding text_args
  parse_text kept set = elim (Bool-cases (bytes_beq v [])) [
    | inl empty ↦ rw empty (ap (parse_flags true none rest) (kept empty))
    | inr given ↦ rw given (parse_pair (set given))
  ]

-- `n`, or `d` where it is 0.
abbrev pub or_port : ℤ → ℤ → ℤ
or_port n d = if is_zero n then d else n

with_port : Flags → ℤ → Flags
with_port f n = record f { config = record f.config { port = or_port n f.config.port } }

parse_port :
    (n : ℤ) (rest : List Bytes) (f : Flags)
    → IsInt64 n
    → parse_flags true none (port_args n ++ rest) f ≡ parse_flags true none rest (with_port f n)
unfolding port_args with_port
parse_port n rest f h = elim (Bool-cases (is_zero n)) [
  | inl zero ↦ rw zero
  | inr given ↦
      let read : parse_int (itoa n) ≡ some n =
        parse_int-itoa n h (λ e. let z = ap is_zero e in cc) in
      rw given (
        parse_pair (codes "--port") (codes "port") port (itoa n) rest f _ (unfold classify in refl)
          (unfold find_flag in refl) (unfold begin_flag in refl)
          (unfold set_flag in rw (read, set_flag)))
]

-- The fields of `c`, and those of `d` where they are empty or 0.
pub merged : Config → Config → Config
merged c d = record {
  name = or_default c.name d.name;
  listen_addr = or_default c.listen_addr d.listen_addr;
  port = or_port c.port d.port;
  service_name = or_default c.service_name d.service_name;
  domain = or_default c.domain d.domain;
  web_socket_path = or_default c.web_socket_path d.web_socket_path;
  control_endpoint = or_default c.control_endpoint d.control_endpoint;
}

with_config : Flags → Config → Flags
with_config f c = record f { config = c }

parse_daemon_args :
    (c d : Config)
    → IsInt64 c.port
    → parse_flags true none (daemon_args c) (record { config = d; foreground = false })
      ≡ ok (record { config = merged c d; foreground = false })
unfolding daemon_args merged classify find_flag begin_flag set_flag with_port with_config
    parse_flags
parse_daemon_args c d h =
    let f0 : Flags = record { config = d; foreground = false } in
    let c1 = record d { name = or_default c.name d.name } in
    let c2 = record c1 { listen_addr = or_default c.listen_addr d.listen_addr } in
    let c3 = record c2 { port = or_port c.port d.port } in
    let c4 = record c3 { service_name = or_default c.service_name d.service_name } in
    let c5 = record c4 { domain = or_default c.domain d.domain } in
    let c6 = record c5 { web_socket_path = or_default c.web_socket_path d.web_socket_path } in
    let c7 = record c6 { control_endpoint = or_default c.control_endpoint d.control_endpoint } in
    parse_text (codes "--name") (codes "name") name c.name _ _ (with_config f0 c1) refl refl refl
      (λ e. rw e) (λ e. rw e)
    ∙ parse_text (codes "--listen-addr") (codes "listen-addr") listen_addr c.listen_addr _ _
        (with_config f0 c2) refl refl refl (λ e. rw e) (λ e. rw e)
    ∙ parse_port c.port _ (with_config f0 c2) h
    ∙ parse_text (codes "--service-name") (codes "service-name") service_name c.service_name _
        (with_config f0 c3) (with_config f0 c4) refl refl refl (λ e. rw e) (λ e. rw e)
    ∙ parse_text (codes "--domain") (codes "domain") domain c.domain _ _ (with_config f0 c5) refl
        refl refl (λ e. rw e) (λ e. rw e)
    ∙ parse_text (codes "--websocket-path") (codes "websocket-path") websocket_path
        c.web_socket_path _ _ (with_config f0 c6) refl refl refl (λ e. rw e) (λ e. rw e)
    ∙ ap (λ l. parse_flags true none l (with_config f0 c6))
        (sym (append-nil (text_args (codes "--control") c.control_endpoint)))
    ∙ parse_text (codes "--control") (codes "control") control c.control_endpoint [] _
        (with_config f0 c7) refl refl refl (λ e. rw e) (λ e. rw e)

-- The daemon that `start` launches in its own environment with the arguments of `daemonArgs`
-- reads from them the configuration with the defaults filled in, where each text that is empty
-- and a port that is 0 is taken from the environment, and no other flag; the port is a 64-bit
-- integer.
pub parse-daemon_args :
    (getenv : Bytes → Bytes) (endpoint : Bytes) (c : Config)
    → IsInt64 c.port
    → parse_common_flags getenv endpoint (codes "daemon") (daemon_args c)
      ≡ ok (config_defaults (merged c (env_config getenv endpoint)), false)
unfolding parse_common_flags bytes_beq
parse-daemon_args getenv endpoint c h = rw (parse_daemon_args c (env_config getenv endpoint) h)
