-- ===== src/Admission/Tests.antt =====
-- The theorems on the admission registry at concrete inputs.
use sqlite_mcp.Prelude.{◌≡◌, List, [], ◌∷◌, arith}
use sqlite_mcp.Admission.{
  AdmissionRegistry, Call, ordinary, transient_merge, admits, finishes, begins_shutdown, default,
  run, begin_shutdown, complete_shutdown, shutdown_complete,
}
use sqlite_mcp.Admission.Bounds.{IsValid, run-IsValid}
use sqlite_mcp.Admission.Drain.{shutdown_drains, finish_all, ids}

abbrev calls : List Call
calls =
    admits ordinary ∷ admits transient_merge ∷ finishes 1 ∷ admits ordinary ∷ begins_shutdown ∷ []

run-IsValid_example : IsValid (run default calls)
run-IsValid_example = run-IsValid calls (omega arith)

abbrev busy : AdmissionRegistry
busy = run default (admits ordinary ∷ admits transient_merge ∷ [])

shutdown_drains_example :
    let (r', entries) = begin_shutdown busy in
    let last = complete_shutdown (finish_all r' (ids entries)) in
    (last.active ≡ []) × (last.state ≡ shutdown_complete)
shutdown_drains_example = shutdown_drains busy
