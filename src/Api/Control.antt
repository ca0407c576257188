-- ===== src/Api/Control.antt =====
-- The handlers that act on the executor: mode, abort and proceed (internal/api/server.go).
use canarium.State.Tables.{set_kv}
use canarium.Engine.Types.{mode_text, parse_mode_strict, Mode}
use canarium.Common.Text.{trim_space}
use canarium.Api.Access.{Handler}
use canarium.Api.Server.{ok, kept, accepted, bad_request, Response, conflict, Site, Form, Server}
use canarium.Engine.Executor.{set_mode, abort_sequence, force_stage, Executor, write}
use canarium.Common.{String, Bool, true, false, Option, none, some, is_empty, if◌then◌else◌}

unfoldable change_mode : Site → Mode × Bool → Server → Response × Server
change_mode site (m, false) s = ((bad_request, kept), s)
change_mode site (m, true) s = (
  (ok, kept),
  record s { executor = write (set_kv "mode" (mode_text m)) (set_mode site.setup m s.executor) },
)

unfoldable pub handle_set_mode : Handler
unfolding change_mode
handle_set_mode site q s =
    if site.setup.cfg.canarium.config_readonly then ((conflict, kept), s) else elim q.body [
      | none ↦ ((bad_request, kept), s)
      | some form ↦ change_mode site (parse_mode_strict form.mode) s
    ]

abbrev reason_of : Option Form → String
reason_of none = "requested via API"
reason_of (some form) =
    if is_empty (trim_space form.reason) then "requested via API" else trim_space form.reason

abbrev answer_call : Server → Executor × Option String → Response × Server
answer_call s (e, none) = ((accepted, kept), record s { executor = e })
answer_call s (e, some error) = ((conflict, kept), record s { executor = e })

unfoldable pub handle_abort : Handler
handle_abort site q s = answer_call s (abort_sequence (reason_of q.body) s.executor)

unfoldable pub handle_proceed : Handler
handle_proceed site q s = answer_call s (force_stage (reason_of q.body) s.executor)
