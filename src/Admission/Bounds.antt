-- ===== src/Admission/Bounds.antt =====
-- admission.rs: what holds of the registry after any calls.
use sqlite_mcp.Admission.{
  running, shutdown_complete, ReservationKind, Reservation, AdmissionRegistry, default, admit,
  retain_others, finish, cancel_all, begin_shutdown, complete_shutdown, Call, admits, finishes,
  begins_shutdown, completes_shutdown, step, run,
}
use sqlite_mcp.Prelude.{
  ℕ, suc, ◌+◌, ◌≤◌, ◌<◌, ◌≡◌, refl, ◌≢◌, true, false, List, [], ◌∷◌, ◌++◌, arith, length, All,
  is_empty,
}
use sqlite_mcp.Prelude.Words.{u64_max, lt-saturating_add}

-- Ids below a bound, in strictly rising order from `low` on.
abbrev pub Rising : ℕ → List Reservation → ℕ → Type 0
Rising low [] high = low ≤ high
Rising low (e ∷ es) high = (low ≤ e.id) × Rising (suc e.id) es high

abbrev pub Cancelled : List Reservation → Type 0
Cancelled = All λ e. e.cancelled ≡ true

pub record IsValid (r : AdmissionRegistry) : Type 0 where
  pub rising : Rising 0 r.active r.next_id
  pub drained : r.state ≡ shutdown_complete → r.active ≡ []
  pub told : r.state ≢ running → Cancelled r.active

Rising-append :
    (low : ℕ) (es : List Reservation) (high : ℕ) (e : Reservation)
    → Rising low es high
    → e.id ≡ high
    → Rising low (es ++ e ∷ []) (high + 1)
Rising-append low [] high e h eq = omega arith
Rising-append low (x ∷ es) high e h eq = (h.0, Rising-append (suc x.id) es high e h.1 eq)

Rising-lower :
    (low low' : ℕ) (es : List Reservation) (high : ℕ)
    → low' ≤ low
    → Rising low es high
    → Rising low' es high
Rising-lower low low' [] high le h = omega arith
Rising-lower low low' (x ∷ es) high le h = (omega arith, h.1)

Rising-retain_others :
    (low : ℕ) (es : List Reservation) (high id : ℕ)
    → Rising low es high
    → Rising low (retain_others id es) high
unfolding retain_others
Rising-retain_others low [] high id h = h
Rising-retain_others low (x ∷ es) high id h = ground (
  arith,
  Rising-retain_others (suc x.id) es high id h.1,
  Rising-lower (suc x.id) low (retain_others id es) high,
)

Rising-cancel_all :
    (low : ℕ) (es : List Reservation) (high : ℕ)
    → Rising low es high
    → Rising low (cancel_all es) high
unfolding cancel_all
Rising-cancel_all low [] high h = h
Rising-cancel_all low (x ∷ es) high h = (h.0, Rising-cancel_all (suc x.id) es high h.1)

Cancelled-retain_others :
    (es : List Reservation) (id : ℕ) → Cancelled es → Cancelled (retain_others id es)
unfolding retain_others
Cancelled-retain_others [] id h = tt
Cancelled-retain_others (x ∷ es) id h = ground (arith, Cancelled-retain_others es id h.1)

Cancelled-cancel_all : (es : List Reservation) → Cancelled (cancel_all es)
unfolding cancel_all
Cancelled-cancel_all [] = tt
Cancelled-cancel_all (x ∷ es) = (refl, Cancelled-cancel_all es)

is_empty-eq : (es : List Reservation) → is_empty es ≡ true → es ≡ []
is_empty-eq [] h = refl
is_empty-eq (x ∷ es) h = cc

cancel_all-nil : (es : List Reservation) → es ≡ [] → cancel_all es ≡ []
unfolding cancel_all
cancel_all-nil es h = rw h

retain_others-nil : (es : List Reservation) (id : ℕ) → es ≡ [] → retain_others id es ≡ []
unfolding retain_others
retain_others-nil es id h = rw h

admit-IsValid :
    (r : AdmissionRegistry) (kind : ReservationKind)
    → r.next_id < u64_max
    → IsValid r
    → IsValid (admit r kind).0
unfolding admit
admit-IsValid r kind room v = ground (
  arith,
  lt-saturating_add r.next_id,
  Rising-append 0 r.active r.next_id (record { id = r.next_id; kind = kind; cancelled = false }),
)

finish-IsValid : (r : AdmissionRegistry) (id : ℕ) → IsValid r → IsValid (finish r id)
unfolding finish
finish-IsValid r id v = ground (
  arith,
  Rising-retain_others 0 r.active r.next_id id v.rising,
  is_empty-eq (retain_others id r.active),
  retain_others-nil r.active id,
  Cancelled-retain_others r.active id,
)

begin_shutdown-IsValid : (r : AdmissionRegistry) → IsValid r → IsValid (begin_shutdown r).0
unfolding begin_shutdown
begin_shutdown-IsValid r v = ground (
  arith,
  Rising-cancel_all 0 r.active r.next_id v.rising,
  cancel_all-nil r.active,
  Cancelled-cancel_all r.active,
)

complete_shutdown-IsValid : (r : AdmissionRegistry) → IsValid r → IsValid (complete_shutdown r)
unfolding complete_shutdown
complete_shutdown-IsValid r v = ground (arith, is_empty-eq r.active)

step-next_id :
    (r : AdmissionRegistry) (c : Call) → r.next_id < u64_max → (step r c).next_id ≤ r.next_id + 1
unfolding step
step-next_id r c h = ground (arith, lt-saturating_add r.next_id)

step-IsValid :
    (r : AdmissionRegistry) (c : Call) → r.next_id < u64_max → IsValid r → IsValid (step r c)
unfolding step
step-IsValid r (admits kind) h v = admit-IsValid r kind h v
step-IsValid r (finishes id) h v = finish-IsValid r id v
step-IsValid r begins_shutdown h v = begin_shutdown-IsValid r v
step-IsValid r completes_shutdown h v = complete_shutdown-IsValid r v

run-IsValid_from :
    (r : AdmissionRegistry) (cs : List Call)
    → r.next_id + length cs < u64_max
    → IsValid r
    → IsValid (run r cs)
unfolding run
run-IsValid_from r [] h v = v
run-IsValid_from r (c ∷ cs) h v =
    run-IsValid_from (step r c) cs (omega (arith, step-next_id r c))
      (step-IsValid r c (omega arith) v)

-- After any calls on a new registry, fewer than 2^64 - 2 of them: the ids of the active
-- reservations rise strictly and stay below the next id (so no two are equal), a registry that is
-- shut down has no active reservation, and once it no longer runs every active reservation has been
-- cancelled.
pub run-IsValid : (cs : List Call) → 1 + length cs < u64_max → IsValid (run default cs)
unfolding default
run-IsValid cs h =
    run-IsValid_from default cs h
      (record { rising = omega arith; drained = λ e. refl; told = λ e. tt })
