-- ===== src/Manager/RemoteSpec.antt =====
-- manager/manager.go, parseRemoteSpec: [bind:]port:host:hostport of a remote tunnel.
use tunnelmanager.Prelude.{
  ◌==◌, ◌||◌, Bool, Bytes, Option, Result, [], codes, cut_last, decimal, err, has_byte,
  if◌then◌else◌, join_host_port, length, none, ok, parse_u16, some, ℕ,
}

pub data SpecError : Type 0 where
  empty_spec ipv6_literal bad_format empty_host : SpecError
  bind_unsupported : SpecError
  bad_port bad_host_port : Bytes → SpecError

-- strings.ContainsAny(spec, "[]").
abbrev pub has_bracket : Bytes → Bool
has_bracket s = has_byte 91 s || has_byte 93 s

-- The bytes of `spec` before the host, the host, and the bytes behind it.
unfoldable pub split_spec : Bytes → Option (Bytes × Bytes × Bytes)
split_spec spec = elim (cut_last 58 spec) [
  | none ↦ none
  | some (mid, host_port) ↦ elim (cut_last 58 mid) [
    | none ↦ none
    | some (front, host) ↦ some (front, host, host_port)
  ]
]

-- bind and portStr; a front without a colon is the port.
unfoldable pub split_front : Bytes → Bytes × Bytes
split_front front = elim (cut_last 58 front) [ none ↦ ([], front) | some p ↦ p ]

-- The result: bind, port and target.
parse_ports : Bytes → Bytes → Bytes → Bytes → Result SpecError (Bytes × ℕ × Bytes)
parse_ports bind port host host_port = elim (parse_u16 port) [
  | none ↦ err (bad_port port)
  | some p ↦ elim (parse_u16 host_port) [
    | none ↦ err (bad_host_port host_port)
    | some hp ↦
        ok (
          (if length bind == 0 then codes "0.0.0.0" else bind),
          p,
          join_host_port host (decimal hp),
        )
  ]
]

unfoldable pub parse_remote_spec : Bytes → Result SpecError (Bytes × ℕ × Bytes)
unfolding parse_ports
parse_remote_spec spec =
    if length spec == 0
    then err empty_spec
    else if has_bracket spec
    then err ipv6_literal
    else elim (split_spec spec) [
      | none ↦ err bad_format
      | some (front, host, host_port) ↦
          if length host == 0
          then err empty_host
          else parse_ports (split_front front).0 (split_front front).1 host host_port
    ]
