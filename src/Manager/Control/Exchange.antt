-- ===== src/Manager/Control/Exchange.antt =====
-- manager/control.go: SendControl and handleControlConn, on a socket that does not break between
-- them. The codings of package json are parameters.
use tunnelmanager.Prelude.{
  ◌≡◌, Bool, Bytes, Option, Result, [], err, if◌then◌else◌, none, not, ok, refl, some, true, ℤ,
}
use tunnelmanager.Manager.Tunnels.{Manager}
use tunnelmanager.Manager.Config.{TunnelConfig}
use tunnelmanager.Manager.Control.{Request, ControlError, Response}

-- What SendControl is given beside the method.
pub data Params : Type 0 where
  bare : Params
  of_name of_group : Bytes → Params
  of_tunnel : TunnelConfig → Params
  of_logs : Bytes → ℤ → Params

-- The JSON texts of parameters, requests and responses.
pub record Wire : Type 0 where
  pub params_text : Params → Bytes
  pub request_text : Request → Bytes
  pub read_request : Bytes → Option Request
  pub response_text : Response → Bytes
  pub read_response : Bytes → Option Response

pub data CallError : Type 0 where
  dial_control read_response_failed : CallError
  control_error : ControlError → CallError

-- What the daemon does with a request.
abbrev pub Handler : Type 0
Handler = Request → Manager → Response × Manager

-- What the daemon answers on a connection, and its manager then.
unfoldable pub handle_control_conn : Wire → Handler → Bytes → Manager → Bytes × Manager
handle_control_conn w h text m = elim (w.read_request text) [
  | none ↦ ([], m)
  | some req ↦ (w.response_text (h req m).0, (h req m).1)
]

unfoldable pub control_request : Wire → Bytes → Params → Request
control_request w method params = record { method = method; params = w.params_text params; id = 1 }

unfoldable pub checked_response : Option Response → Result CallError Bytes
checked_response none = err read_response_failed
checked_response (some r) = elim r.answer [ err e ↦ err (control_error e) | ok result ↦ ok result ]

-- `listening` says whether the socket can be dialled.
unfoldable pub send_control :
    Wire → Handler → Bool → Bytes → Params → Manager → Result CallError Bytes × Manager
unfolding handle_control_conn control_request checked_response
send_control w h listening method params m =
    if not listening
    then (err dial_control, m)
    else let r = handle_control_conn w h (w.request_text (control_request w method params)) m in
      (checked_response (w.read_response r.0), r.1)

-- On a socket that can be dialled, SendControl leaves the daemon as the handler leaves it, if its
-- request can be read back.
pub send_control-state :
    (w : Wire) (h : Handler) (method : Bytes) (params : Params) (m : Manager)
    → (let req = control_request w method params in w.read_request (w.request_text req) ≡ some req)
    → (send_control w h true method params m).1 ≡ (h (control_request w method params) m).1
unfolding send_control
send_control-state w h method params m f = rw (f, handle_control_conn) refl
