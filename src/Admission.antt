-- ===== src/Admission.antt =====
-- crates/sqlite-mcp-core/src/admission.rs: the registry of reservations behind core-wide shutdown.
-- A cancellation token is shared, so its flag is kept in the entry; a method returns the registry.
pub mod Bounds
pub mod Drain
mod Tests
use sqlite_mcp.Prelude.{
  ℕ, zero, suc, ◌+◌, ◌-◌, ◌*◌, ◌≤◌, ◌<◌, ◌≡◌, refl, sym, ap, ◌∙◌, ◌≢◌, ◌↔◌, ◌⊎◌, inl, inr, Bool,
  true, false, not, ◌&&◌, ◌||◌, Option, none, some, List, [], ◌∷◌, ◌++◌, map, arith, ltb, leb, ◌==◌,
  if◌then◌else◌, ==_iff, leb→le, Bool-cases, Option-cases, Result-cases, is_some, is_none,
  unwrap_or, Result, ok, err, is_ok, is_err, ◌>>=◌, ◌>>◌, fail_if, ok_or, length, length-append,
  All, all, any, is_empty,
}
use sqlite_mcp.Prelude.Words.{saturating_add}

pub data AdmissionState : Type 0 where
  running shutting_down shutdown_complete : AdmissionState

pub data ReservationKind : Type 0 where
  ordinary transient_merge : ReservationKind

pub record Reservation : Type 0 where
  pub id : ℕ
  pub kind : ReservationKind
  pub cancelled : Bool

pub record AdmissionRegistry : Type 0 where
  pub state : AdmissionState
  pub next_id : ℕ
  pub active : List Reservation

abbrev pub is_running : AdmissionState → Bool
is_running running = true
is_running _ = false

abbrev pub is_shutting_down : AdmissionState → Bool
is_shutting_down shutting_down = true
is_shutting_down _ = false

unfoldable pub default : AdmissionRegistry
default = record { state = running; next_id = 1; active = [] }

unfoldable pub admit : AdmissionRegistry → ReservationKind → AdmissionRegistry × Option Reservation
admit r kind =
    let entry : Reservation = record { id = r.next_id; kind = kind; cancelled = false } in
    if is_running r.state
    then (
      record r { next_id = saturating_add r.next_id 1; active = r.active ++ entry ∷ [] },
      some entry,
    )
    else (r, none)

-- `Vec::retain(|entry| entry.id != id)`.
unfoldable pub retain_others : ℕ → List Reservation → List Reservation
retain_others id [] = []
retain_others id (e ∷ es) = let rest = retain_others id es in if e.id == id then rest else e ∷ rest

unfoldable pub finish : AdmissionRegistry → ℕ → AdmissionRegistry
unfolding retain_others
finish r id =
    let left = retain_others id r.active in
    record r {
      active = left;
      state = if is_shutting_down r.state && is_empty left then shutdown_complete else r.state;
    }

unfoldable pub cancel_all : List Reservation → List Reservation
cancel_all [] = []
cancel_all (e ∷ es) = record e { cancelled = true } ∷ cancel_all es

unfoldable pub begin_shutdown : AdmissionRegistry → AdmissionRegistry × List Reservation
unfolding cancel_all
begin_shutdown r =
    let entries = cancel_all r.active in
    (
      record r { state = if is_running r.state then shutting_down else r.state; active = entries },
      entries,
    )

unfoldable pub complete_shutdown : AdmissionRegistry → AdmissionRegistry
complete_shutdown r = record r { state = if is_empty r.active then shutdown_complete else r.state }

unfoldable pub active_len : AdmissionRegistry → ℕ
active_len r = length r.active

pub data Call : Type 0 where
  admits : ReservationKind → Call
  finishes : ℕ → Call
  begins_shutdown completes_shutdown : Call

unfoldable pub step : AdmissionRegistry → Call → AdmissionRegistry
unfolding admit finish begin_shutdown complete_shutdown
step r (admits kind) = (admit r kind).0
step r (finishes id) = finish r id
step r begins_shutdown = (begin_shutdown r).0
step r completes_shutdown = complete_shutdown r

unfoldable pub run : AdmissionRegistry → List Call → AdmissionRegistry
unfolding step
run r [] = r
run r (c ∷ cs) = run (step r c) cs
