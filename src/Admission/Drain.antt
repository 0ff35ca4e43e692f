-- ===== src/Admission/Drain.antt =====
-- admission.rs: the order of shutdown, as `Core::shutdown` drives it.
use sqlite_mcp.Admission.{
  shutdown_complete, ReservationKind, Reservation, AdmissionRegistry, is_running, admit,
  retain_others, finish, cancel_all, begin_shutdown, complete_shutdown, Call, step, run,
}
use sqlite_mcp.Prelude.{ℕ, ◌≡◌, refl, Bool, true, false, ◌||◌, none, List, [], ◌∷◌, arith, ◌==◌}

-- The ids of a list of reservations.
abbrev pub ids : List Reservation → List ℕ
ids [] = []
ids (e ∷ es) = e.id ∷ ids es

-- Every holder of a reservation reports that its operation has ended.
pub finish_all : AdmissionRegistry → List ℕ → AdmissionRegistry
finish_all r [] = r
finish_all r (i ∷ is) = finish_all (finish r i) is

has : ℕ → List ℕ → Bool
has i [] = false
has i (j ∷ js) = i == j || has i js

-- Every active reservation is among the ids still to be reported.
abbrev Covered : List Reservation → List ℕ → Type 0
Covered [] is = Unit
Covered (e ∷ es) is = (has e.id is ≡ true) × Covered es is

Covered-weaken : (es : List Reservation) (i : ℕ) (is : List ℕ) → Covered es is → Covered es (i ∷ is)
unfolding has
Covered-weaken [] i is h = tt
Covered-weaken (e ∷ es) i is h = (ground arith, Covered-weaken es i is h.1)

Covered-ids : (es : List Reservation) → Covered es (ids es)
unfolding has
Covered-ids [] = tt
Covered-ids (e ∷ es) = (ground arith, Covered-weaken es e.id (ids es) (Covered-ids es))

Covered-retain_others :
    (es : List Reservation) (i : ℕ) (is : List ℕ)
    → Covered es (i ∷ is)
    → Covered (retain_others i es) is
unfolding has retain_others
Covered-retain_others [] i is h = tt
Covered-retain_others (e ∷ es) i is h = ground (arith, Covered-retain_others es i is h.1)

Covered-nil : (es : List Reservation) → Covered es [] → es ≡ []
unfolding has
Covered-nil [] h = refl
Covered-nil (e ∷ es) h = cc

finish_all-active :
    (is : List ℕ) (r : AdmissionRegistry) → Covered r.active is → (finish_all r is).active ≡ []
unfolding finish_all finish
finish_all-active [] r h = Covered-nil r.active h
finish_all-active (i ∷ is) r h =
    finish_all-active is (finish r i) (Covered-retain_others r.active i is h)

begin_shutdown-Covered :
    (r : AdmissionRegistry) → Covered (begin_shutdown r).0.active (ids (begin_shutdown r).1)
unfolding begin_shutdown
begin_shutdown-Covered r = Covered-ids (cancel_all r.active)

-- Shutdown drains: from any state, once `begin_shutdown` has been called and each reservation that
-- it returned has finished, in the order returned, no reservation is active and
-- `complete_shutdown` reaches the final state.
pub shutdown_drains :
    (r : AdmissionRegistry)
    → let (r', entries) = begin_shutdown r in
      let last = complete_shutdown (finish_all r' (ids entries)) in
      (last.active ≡ []) × (last.state ≡ shutdown_complete)
unfolding complete_shutdown
shutdown_drains r =
    let e =
      finish_all-active (ids (begin_shutdown r).1) (begin_shutdown r).0
        (begin_shutdown-Covered r) in
    ground arith

not_running-step :
    (r : AdmissionRegistry) (c : Call)
    → is_running r.state ≡ false
    → is_running (step r c).state ≡ false
unfolding step
not_running-step r c h = ground arith

not_running-run :
    (r : AdmissionRegistry) (cs : List Call)
    → is_running r.state ≡ false
    → is_running (run r cs).state ≡ false
unfolding run
not_running-run r [] h = h
not_running-run r (c ∷ cs) h = not_running-run (step r c) cs (not_running-step r c h)

begin_shutdown-not_running : (r : AdmissionRegistry) → is_running (begin_shutdown r).0.state ≡ false
unfolding begin_shutdown
begin_shutdown-not_running r = ground arith

-- Shutdown is final: whatever calls follow `begin_shutdown`, no operation is admitted any more, and
-- a refused admission leaves the registry as it was.
pub shutdown_final :
    (r : AdmissionRegistry) (cs : List Call) (kind : ReservationKind)
    → let r' = run (begin_shutdown r).0 cs in admit r' kind ≡ (r', none)
unfolding admit
shutdown_final r cs kind =
    let e = not_running-run (begin_shutdown r).0 cs (begin_shutdown-not_running r) in rw e
