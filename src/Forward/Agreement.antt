-- ===== src/Forward/Agreement.antt =====
-- The two parsers of remote specifications, in main.go and in manager/manager.go.
use tunnelmanager.Prelude.{◌≡◌, Bytes, Option, Result, arith, err, none, ok, parse_u16, some}
use tunnelmanager.Forward.{parse_port, parse_forward_spec, parse_remote_flag}
use tunnelmanager.Manager.RemoteSpec.{SpecError, parse_remote_spec}

abbrev pub accepted_as : {A : Type 0} → Result SpecError A → Option A
accepted_as (ok a) = some a
accepted_as (err e) = none

-- The parser of remote specifications in main.go accepts a text exactly when the one in
-- manager/manager.go does, with the same bind address, port and target.
pub parse_remote_flag-parse_remote_spec :
    (spec : Bytes) → accepted_as (parse_remote_flag spec) ≡ accepted_as (parse_remote_spec spec)
unfolding parse_remote_flag parse_forward_spec parse_remote_spec parse_port parse_u16
parse_remote_flag-parse_remote_spec spec = ground arith
