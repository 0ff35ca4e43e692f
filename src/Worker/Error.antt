-- ===== src/Worker/Error.antt =====
-- worker.rs: `WorkerError` and the text that it displays as.
use sqlite_mcp.Prelude.{
  ℕ, zero, suc, ◌+◌, ◌/◌, ◌%◌, Bool, true, false, [], ◌∷◌, ◌++◌, ◌==◌, if◌then◌else◌, Result, err,
}
use sqlite_mcp.Prelude.Text.{Text, codes}
use sqlite_mcp.Sqlite.{SqliteError}

pub data WorkerError : Type 0 where
  closed : WorkerError
  sqlite : SqliteError → WorkerError
  message : Text → WorkerError
  result_too_large : ℕ → ℕ → WorkerError
  policy_denied : Bool → Bool → WorkerError
  startup : Text → Text → WorkerError
  interrupted : Bool → Bool → Bool → WorkerError

-- The decimal digits of a number; a number has fewer digits than its successor.
unfoldable pub digits : ℕ → ℕ → Text → Text
digits zero n out = out
digits (suc fuel) n out =
    let out' = (b'0' + (n % 10)) ∷ out in
    let rest = digits fuel (n / 10) out' in if n / 10 == 0 then out' else rest

unfoldable pub decimal : ℕ → Text
unfolding digits
decimal n = digits (suc n) n []

-- `Display` of the error.
unfoldable pub to_string : WorkerError → Text
unfolding decimal
to_string closed = codes "worker closed"
to_string (sqlite e) = codes "sqlite: " ++ e.text
to_string (message m) = m
to_string (result_too_large retained limit) =
    codes "result too large: retained "
    ++ (decimal retained ++ (codes " bytes exceeds limit " ++ decimal limit))
to_string (policy_denied o c) = codes "policy denied"
to_string (startup stage m) = codes "worker startup failed at " ++ (stage ++ (codes ": " ++ m))
to_string (interrupted by_client o c) = codes "request interrupted"

abbrev pub is_sqlite {ℓ} : {A : Type ℓ} → Result A WorkerError → Bool
is_sqlite (err (sqlite e)) = true
is_sqlite _ = false

abbrev pub is_interrupted {ℓ} : {A : Type ℓ} → Result A WorkerError → Bool
is_interrupted (err (interrupted b o c)) = true
is_interrupted _ = false

-- The fixed messages of the worker.
abbrev pub server_shutdown : WorkerError
server_shutdown = message (codes "SERVER_SHUTDOWN")

abbrev pub transaction_expired : WorkerError
transaction_expired = message (codes "TRANSACTION_EXPIRED")

abbrev pub expiry_uncertain : WorkerError
expiry_uncertain = message (codes "handle invalidated; expiry rollback uncertain")
