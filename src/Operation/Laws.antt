-- ===== src/Operation/Laws.antt =====
-- operation.rs: round trip of the modes, the flags of an outcome, the order of a report.
use Prim.Native.String.{String}
use text.Mathlib.TextEquality.{eq_iff}
use sqlite_mcp.Operation.{
  TransactionMode, deferred, immediate, exclusive, parse, render, OperationOutcome, CleanupFailure,
  new, with_expired, with_invalidated, with_mutation_attempted, with_cleanup_error, Status,
  ShutdownReport, new_report, place, record_entry,
}
use sqlite_mcp.Prelude.{
  ℕ, suc, ◌≤◌, ◌<◌, ◌≡◌, refl, ◌∙◌, ◌↔◌, Bool, true, Option, none, some, List, [], ◌∷◌, arith, ◌==◌,
  if◌then◌else◌, unwrap_or,
}

parse-render : (m : TransactionMode) → parse (render m) ≡ some m
unfolding parse render
parse-render deferred = refl
parse-render immediate = refl
parse-render exclusive = refl

render-parse : (s : String) (m : TransactionMode) → parse s ≡ some m → s ≡ render m
unfolding parse render
render-parse s m h = ground (arith, eq_iff s "deferred", eq_iff s "immediate", eq_iff s "exclusive")

-- A text is read as a transaction mode exactly when it is that mode's rendering, so no other
-- spelling (upper case, spaces) is accepted.
pub parse_iff : (s : String) (m : TransactionMode) → (parse s ≡ some m) ↔ (s ≡ render m)
parse_iff s m = (render-parse s m, λ e. rw e (parse-render m))

-- The updates that may follow the construction of an outcome.
pub data Update : Type 0 where
  expires invalidates mutates : Bool → Update
  cleans : CleanupFailure → Update

module _ {R : Type 0} where
  pub update : OperationOutcome R → Update → OperationOutcome R
  unfolding with_expired with_invalidated with_mutation_attempted with_cleanup_error
  update o (expires b) = with_expired o b
  update o (invalidates b) = with_invalidated o b
  update o (mutates b) = with_mutation_attempted o b
  update o (cleans f) = with_cleanup_error o f

  pub updates : OperationOutcome R → List Update → OperationOutcome R
  updates o [] = o
  updates o (u ∷ us) = updates (update o u) us

  pub record IsConsistent (o : OperationOutcome R) : Type 0 where
    pub continuable_open : o.transaction_continuable ≡ true → o.transaction_open ≡ true

  update-IsConsistent :
      (o : OperationOutcome R) (u : Update) → IsConsistent o → IsConsistent (update o u)
  unfolding update
  update-IsConsistent o u c = ground arith

  updates-IsConsistent :
      (o : OperationOutcome R) (us : List Update) → IsConsistent o → IsConsistent (updates o us)
  unfolding updates
  updates-IsConsistent o [] c = c
  updates-IsConsistent o (u ∷ us) c =
      updates-IsConsistent (update o u) us (update-IsConsistent o u c)

  update-result : (o : OperationOutcome R) (u : Update) → (update o u).result ≡ o.result
  unfolding update
  update-result o u = ground arith

  updates-result : (o : OperationOutcome R) (us : List Update) → (updates o us).result ≡ o.result
  unfolding updates
  updates-result o [] = refl
  updates-result o (u ∷ us) = updates-result (update o u) us ∙ update-result o u

  -- However an outcome is built and updated, its result is the operation's, and it calls the
  -- transaction continuable only if it calls it open.
  pub outcome-IsConsistent :
      (result : R) (transaction_open continuable : Bool) (us : List Update)
      → ((updates (new result transaction_open continuable) us).result ≡ result)
        × IsConsistent (updates (new result transaction_open continuable) us)
  unfolding new
  outcome-IsConsistent result transaction_open continuable us = (
    updates-result (new result transaction_open continuable) us,
    updates-IsConsistent (new result transaction_open continuable) us
        (record { continuable_open = ground arith }),
  )

-- Strictly rising ids from `low` on.
abbrev pub Sorted : ℕ → List (ℕ × Status) → Type 0
Sorted low [] = Unit
Sorted low (e ∷ es) = (low ≤ e.0) × Sorted (suc e.0) es

place-Sorted :
    (low id : ℕ) (status : Status) (es : List (ℕ × Status))
    → low ≤ id
    → Sorted low es
    → Sorted low (place id status es)
unfolding place
place-Sorted low id status [] h s = (h, tt)
place-Sorted low id status (e ∷ es) h s = ground (arith, place-Sorted (suc e.0) id status es)

-- The first status recorded for an id.
unfoldable pub status_of : ℕ → List (ℕ × Status) → Option Status
status_of id [] = none
status_of id ((i, s) ∷ es) = if i == id then some s else status_of id es

status_of-below :
    (id low : ℕ) (es : List (ℕ × Status)) → Sorted low es → id < low → status_of id es ≡ none
unfolding status_of
status_of-below id low [] s h = refl
status_of-below id low (e ∷ es) s h = ground (arith, status_of-below id (suc e.0) es)

status_of-place :
    (id j low : ℕ) (status : Status) (es : List (ℕ × Status))
    → Sorted low es
    → status_of j (place id status es)
      ≡ (if id == j then some (unwrap_or (status_of id es) status) else status_of j es)
unfolding place status_of
status_of-place id j low status [] s = ground arith
status_of-place id j low status (e ∷ es) s = ground (
  arith,
  status_of-place id j (suc e.0) status es s.1,
  status_of-below id (suc e.0) es s.1,
  status_of-below j (suc e.0) es s.1,
)

abbrev or_else : Option Status → Option Status → Option Status
or_else none o = o
or_else (some s) o = some s

unfoldable pub record_all : ShutdownReport → List (ℕ × Status) → ShutdownReport
unfolding record_entry
record_all r [] = r
record_all r ((id, status) ∷ xs) = record_all (record_entry r id status) xs

record_all-Sorted :
    (r : ShutdownReport) (xs : List (ℕ × Status))
    → Sorted 0 r.entries
    → Sorted 0 (record_all r xs).entries
unfolding record_all
record_all-Sorted r [] s = s
record_all-Sorted r ((id, status) ∷ xs) s =
    record_all-Sorted (record_entry r id status) xs
      (place-Sorted 0 id status r.entries (omega arith) s)

status_of-record_all :
    (r : ShutdownReport) (xs : List (ℕ × Status)) (j : ℕ)
    → Sorted 0 r.entries
    → status_of j (record_all r xs).entries ≡ or_else (status_of j r.entries) (status_of j xs)
unfolding record_all status_of
status_of-record_all r [] j s = ground arith
status_of-record_all r ((id, status) ∷ xs) j s = ground (
  arith,
  status_of-record_all (record_entry r id status) xs j
      (place-Sorted 0 id status r.entries (omega arith) s),
  status_of-place id j 0 status r.entries s,
)

-- A shutdown report lists each worker once, in the order of the ids and whatever the order in which
-- the workers answered, with the first status that was recorded for it.
pub record_all_report :
    (xs : List (ℕ × Status)) (j : ℕ)
    → Sorted 0 (record_all new_report xs).entries
      × (status_of j (record_all new_report xs).entries ≡ status_of j xs)
unfolding new_report status_of
record_all_report xs j =
    (record_all-Sorted new_report xs tt, status_of-record_all new_report xs j tt)
