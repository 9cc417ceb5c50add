-- ===== src/Command/Meaning.antt =====
-- main.go: the commands that change the tunnels, end to end through the control socket
-- (manager/control.go) to the manager of the daemon (manager/manager.go).
use tunnelmanager.Prelude.{
  ◌∙◌, ◌∷◌, ◌≡◌, Bool, Bytes, List, Option, ap, codes, ok, refl, some, text_eq, true,
}
use tunnelmanager.Command.{
  Command, usage, starts_daemon, shows_init, runs_adhoc, bad_tunnel, sends, Flags, with_arg,
  run_command, cmd_add, cmd_stop, cmd_list, cmd_save, cmd_reload, cmd_remove, cmd_enable,
  cmd_disable, cmd_restart, cmd_start_group, cmd_stop_group,
}
use tunnelmanager.Forward.{AddParams, build_tunnel_config}
use tunnelmanager.Manager.Tunnels.{Manager}
use tunnelmanager.Manager.Config.{TunnelConfig, Yaml}
use tunnelmanager.Manager.Control.{Json, Request, handle_control}
use tunnelmanager.Manager.Control.Exchange.{
  Params, bare, of_name, of_group, of_tunnel, Wire, Handler, control_request, send_control,
  send_control-state,
}
use tunnelmanager.Manager.Control.Requests.{request_op, maybe_step, handle_control-step}
use tunnelmanager.Manager.Operations.Steps.{
  Op, stops, saves, reloads, starts_group, stops_group, adds, removes, enables, disables, restarts,
  step, starts,
}
use tunnelmanager.Manager.Logging.{LogBuffer}
use mathlib.Core.Option as CoreOption

-- The operations of the manager that commands stand for.
pub data Means (fl : Flags) : List Bytes → Op → Type 0 where
  means_stop : (rest : List Bytes) → Means fl (codes "stop" ∷ rest) stops
  means_save : (rest : List Bytes) → Means fl (codes "save" ∷ rest) saves
  means_reload : (rest : List Bytes) → Means fl (codes "reload" ∷ rest) reloads
  means_add :
      (rest : List Bytes) (p : AddParams) (tc : TunnelConfig)
      → fl.add_flags rest ≡ some p
      → build_tunnel_config p ≡ ok tc
      → Means fl (codes "add" ∷ rest) (adds tc)
  means_rm : (n : Bytes) (rest : List Bytes) → Means fl (codes "rm" ∷ n ∷ rest) (removes n)
  means_remove : (n : Bytes) (rest : List Bytes) → Means fl (codes "remove" ∷ n ∷ rest) (removes n)
  means_enable : (n : Bytes) (rest : List Bytes) → Means fl (codes "enable" ∷ n ∷ rest) (enables n)
  means_disable :
      (n : Bytes) (rest : List Bytes) → Means fl (codes "disable" ∷ n ∷ rest) (disables n)
  means_restart :
      (n : Bytes) (rest : List Bytes) → Means fl (codes "restart" ∷ n ∷ rest) (restarts n)
  means_start_group :
      (g : Bytes) (rest : List Bytes) → Means fl (codes "start-group" ∷ g ∷ rest) (starts_group g)
  means_stop_group :
      (g : Bytes) (rest : List Bytes) → Means fl (codes "stop-group" ∷ g ∷ rest) (stops_group g)

-- The daemon decodes the parameters of an operation as the command encoded them.
abbrev pub Decodes : Wire → Json → Op → Type 0
Decodes w j (removes n) = j.name_params (w.params_text (of_name n)) ≡ some n
Decodes w j (enables n) = j.name_params (w.params_text (of_name n)) ≡ some n
Decodes w j (disables n) = j.name_params (w.params_text (of_name n)) ≡ some n
Decodes w j (restarts n) = j.name_params (w.params_text (of_name n)) ≡ some n
Decodes w j (starts_group g) = j.group_params (w.params_text (of_group g)) ≡ some g
Decodes w j (stops_group g) = j.group_params (w.params_text (of_group g)) ≡ some g
Decodes w j (adds tc) = j.tunnel_params (w.params_text (of_tunnel tc)) ≡ some tc
Decodes w j starts = Unit
Decodes w j stops = Unit
Decodes w j saves = Unit
Decodes w j reloads = Unit

-- What a command leaves of the daemon's manager.
unfoldable pub manager_after : Wire → Handler → Bool → Command → Manager → Manager
manager_after w h listening (sends method params) m = (send_control w h listening method params m).1
manager_after w h listening usage m = m
manager_after w h listening starts_daemon m = m
manager_after w h listening shows_init m = m
manager_after w h listening runs_adhoc m = m
manager_after w h listening (bad_tunnel e) m = m

-- A command as the request that its operation needs.
record Sends (w : Wire) (j : Json) (c : Command) (o : Op) : Type 0 where
  method : Bytes
  params : Params
  command : c ≡ sends method params
  op : request_op j (control_request w method params) ≡ some o

module _ (fl : Flags) (w : Wire) (j : Json) where
  named_op :
      {A : Type 0} (o : A → Op) (p : Option A) (a : A)
      → p ≡ some a
      → CoreOption.map o p ≡ some (o a)
  named_op o p a e = rw (e) refl

  cmd_add_lem :
      (args : List Bytes) (p : AddParams) (tc : TunnelConfig)
      → fl.add_flags args ≡ some p
      → build_tunnel_config p ≡ ok tc
      → cmd_add fl args ≡ sends (codes "add") (of_tunnel tc)
  unfolding cmd_add
  cmd_add_lem args p tc e b = rw (e, b, cmd_add) refl

  Means-Sends :
      (args : List Bytes) (o : Op)
      → Decodes w j o
      → Means fl args o
      → Sends w j (run_command fl args) o
  unfolding run_command control_request text_eq with_arg cmd_stop cmd_list cmd_save cmd_reload
      cmd_remove cmd_enable cmd_disable cmd_restart cmd_start_group cmd_stop_group
  Means-Sends _ _ d (means_stop rest) = record {
    method = codes "stop";
    params = bare;
    command = refl;
    op = refl;
  }
  Means-Sends _ _ d (means_save rest) = record {
    method = codes "save";
    params = bare;
    command = refl;
    op = refl;
  }
  Means-Sends _ _ d (means_reload rest) = record {
    method = codes "reload";
    params = bare;
    command = refl;
    op = refl;
  }
  Means-Sends _ _ d (means_add rest p tc e b) = record {
    method = codes "add";
    params = of_tunnel tc;
    command = cmd_add_lem rest p tc e b;
    op = named_op adds _ tc d;
  }
  Means-Sends _ _ d (means_rm n rest) = record {
    method = codes "remove";
    params = of_name n;
    command = refl;
    op = named_op removes _ n d;
  }
  Means-Sends _ _ d (means_remove n rest) = record {
    method = codes "remove";
    params = of_name n;
    command = refl;
    op = named_op removes _ n d;
  }
  Means-Sends _ _ d (means_enable n rest) = record {
    method = codes "enable";
    params = of_name n;
    command = refl;
    op = named_op enables _ n d;
  }
  Means-Sends _ _ d (means_disable n rest) = record {
    method = codes "disable";
    params = of_name n;
    command = refl;
    op = named_op disables _ n d;
  }
  Means-Sends _ _ d (means_restart n rest) = record {
    method = codes "restart";
    params = of_name n;
    command = refl;
    op = named_op restarts _ n d;
  }
  Means-Sends _ _ d (means_start_group n rest) = record {
    method = codes "start-group";
    params = of_group n;
    command = refl;
    op = named_op starts_group _ n d;
  }
  Means-Sends _ _ d (means_stop_group n rest) = record {
    method = codes "stop-group";
    params = of_group n;
    command = refl;
    op = named_op stops_group _ n d;
  }

  sent :
      (y : Yaml) (b : LogBuffer) (m : Manager) (c : Command) (o : Op)
      → ((r : Request) → w.read_request (w.request_text r) ≡ some r)
      → Sends w j c o
      → manager_after w (handle_control y j b) true c m ≡ step y o m
  unfolding manager_after
  sent y b m c o f s =
      let r : Request = control_request w s.method s.params in
      ap (λ (x : Command). manager_after w (handle_control y j b) true x m) s.command
      ∙ send_control-state w (handle_control y j b) s.method s.params m (f r)
      ∙ (handle_control-step y j b r m).0
      ∙ ap (λ (x : Option Op). maybe_step y x m) s.op

-- A command of main.go that stands for an operation of the manager, sent over a socket that can be
-- dialled to a daemon that serves it, changes the daemon's manager as that operation does, when
-- the daemon reads requests and the parameters of that operation as they were written.
pub command-step :
    (fl : Flags) (w : Wire) (y : Yaml) (j : Json) (b : LogBuffer) (args : List Bytes) (o : Op)
    (m : Manager)
    → ((r : Request) → w.read_request (w.request_text r) ≡ some r)
    → Decodes w j o
    → Means fl args o
    → manager_after w (handle_control y j b) true (run_command fl args) m ≡ step y o m
command-step fl w y j b args o m f d h =
    sent fl w j y b m (run_command fl args) o f (Means-Sends fl w j args o d h)
