-- ===== src/Policy/Rules.antt =====
-- policy.rs: what the authorizer permits, and what a request's callbacks leave in the signal.
use sqlite_mcp.Prelude.{
  ◌≡◌, refl, ◌↔◌, Bool, true, false, not, ◌&&◌, ◌||◌, Option, none, List, [], ◌∷◌, arith, any,
}
use sqlite_mcp.Prelude.Text.{Text}
use sqlite_mcp.Policy.Pragma.{ApprovedPragma}
use sqlite_mcp.Policy.Signal.{
  MutationSignal, approved, mark_attempt, mark_ddl_attempt, mark_policy_denied,
}
use sqlite_mcp.Policy.Action.{ActionKind, classify, is_dml, is_ddl}
use sqlite_mcp.Policy.Authorize.{
  allow, deny, AuthContext, database_is_main, database_of, source_matches, denied_function, mark,
  decide_kind, authorize, is_denied, callback,
}

-- The rules by which an action is permitted. There is no rule for the other actions.
pub data Permitted (database accessor : Option Text) (readonly : Bool) (a : ApprovedPragma)
    : ActionKind → Type 0 where
  mutation :
      {kind : ActionKind}
      → (is_dml kind || is_ddl kind) ≡ true
      → readonly ≡ false
      → database_is_main (database_of kind database) ≡ true
      → Permitted database accessor readonly a kind
  reading :
      database_is_main database ≡ true → Permitted database accessor readonly a ActionKind.read
  selecting : Permitted database accessor readonly a ActionKind.select
  recursion : Permitted database accessor readonly a ActionKind.recursive
  reindexing : Permitted database accessor readonly a ActionKind.reindex
  calling :
      {name : Text}
      → denied_function name ≡ false
      → Permitted database accessor readonly a (ActionKind.function name)
  getting :
      {name : Text} {value : Option Text}
      → source_matches a name ≡ true
      → value ≡ none
      → database_is_main database ≡ true
      → accessor ≡ none
      → Permitted database accessor readonly a (ActionKind.pragma name value)

module _ (database accessor : Option Text) (readonly : Bool) (seen : MutationSignal) where
  allow-Permitted :
      (kind : ActionKind)
      → (decide_kind kind database accessor readonly seen).0 ≡ allow
      → Permitted database accessor readonly (approved seen) kind
  unfolding decide_kind approved
  allow-Permitted ActionKind.insert h = mutation refl (ground arith) (ground arith)
  allow-Permitted ActionKind.update h = mutation refl (ground arith) (ground arith)
  allow-Permitted ActionKind.delete h = mutation refl (ground arith) (ground arith)
  allow-Permitted ActionKind.create_index h = mutation refl (ground arith) (ground arith)
  allow-Permitted ActionKind.create_table h = mutation refl (ground arith) (ground arith)
  allow-Permitted ActionKind.create_trigger h = mutation refl (ground arith) (ground arith)
  allow-Permitted ActionKind.create_view h = mutation refl (ground arith) (ground arith)
  allow-Permitted ActionKind.drop_index h = mutation refl (ground arith) (ground arith)
  allow-Permitted ActionKind.drop_table h = mutation refl (ground arith) (ground arith)
  allow-Permitted ActionKind.drop_trigger h = mutation refl (ground arith) (ground arith)
  allow-Permitted ActionKind.drop_view h = mutation refl (ground arith) (ground arith)
  allow-Permitted (ActionKind.alter_table own) h = mutation refl (ground arith) (ground arith)
  allow-Permitted ActionKind.read h = reading (ground arith)
  allow-Permitted ActionKind.select h = selecting
  allow-Permitted ActionKind.recursive h = recursion
  allow-Permitted ActionKind.reindex h = reindexing
  allow-Permitted (ActionKind.function name) h = calling (ground arith)
  allow-Permitted (ActionKind.pragma name value) h =
      getting (ground arith) (ground arith) (ground arith) (ground arith)
  allow-Permitted _ h = cc

  allow_mutation :
      (kind : ActionKind)
      → (is_dml kind || is_ddl kind) ≡ true
      → readonly ≡ false
      → database_is_main (database_of kind database) ≡ true
      → (decide_kind kind database accessor readonly seen).0 ≡ allow
  unfolding decide_kind
  allow_mutation ActionKind.insert m w d = ground arith
  allow_mutation ActionKind.update m w d = ground arith
  allow_mutation ActionKind.delete m w d = ground arith
  allow_mutation ActionKind.create_index m w d = ground arith
  allow_mutation ActionKind.create_table m w d = ground arith
  allow_mutation ActionKind.create_trigger m w d = ground arith
  allow_mutation ActionKind.create_view m w d = ground arith
  allow_mutation ActionKind.drop_index m w d = ground arith
  allow_mutation ActionKind.drop_table m w d = ground arith
  allow_mutation ActionKind.drop_trigger m w d = ground arith
  allow_mutation ActionKind.drop_view m w d = ground arith
  allow_mutation (ActionKind.alter_table own) m w d = ground arith
  allow_mutation _ m w d = cc

  Permitted-allow :
      (kind : ActionKind)
      → Permitted database accessor readonly (approved seen) kind
      → (decide_kind kind database accessor readonly seen).0 ≡ allow
  unfolding decide_kind approved
  Permitted-allow kind (mutation m w d) = allow_mutation kind m w d
  Permitted-allow _ (reading d) = ground arith
  Permitted-allow _ selecting = refl
  Permitted-allow _ recursion = refl
  Permitted-allow _ reindexing = refl
  Permitted-allow _ (calling d) = ground arith
  Permitted-allow _ (getting s v d c) = ground arith

  -- The authorizer allows an action exactly when one of the rules of `Permitted` does: every other
  -- action, unknown ones included, is denied.
  pub decide_kind_iff :
      (kind : ActionKind)
      → ((decide_kind kind database accessor readonly seen).0 ≡ allow)
        ↔ Permitted database accessor readonly (approved seen) kind
  decide_kind_iff kind = (allow-Permitted kind, Permitted-allow kind)

-- What the callbacks of one statement make of the signal, and whether one of them denied.
pub callbacks : Bool → List AuthContext → MutationSignal → Bool × MutationSignal
callbacks readonly [] seen = (false, seen)
callbacks readonly (ctx ∷ ctxs) seen =
    let (decision, seen') = callback false readonly ctx seen in
    let (denied, last) = callbacks readonly ctxs seen' in (is_denied decision || denied, last)

unfoldable pub mutates : AuthContext → Bool
unfolding classify
mutates ctx = is_dml (classify ctx.action) || is_ddl (classify ctx.action)

decided :
    (database accessor : Option Text) (readonly : Bool) (seen : MutationSignal) (kind : ActionKind)
    → (decide_kind kind database accessor readonly seen).1 ≡ mark kind seen
unfolding decide_kind
decided database accessor readonly seen kind = ground arith

marked :
    (kind : ActionKind) (seen : MutationSignal)
    → ((mark kind seen).policy_denied ≡ seen.policy_denied)
      × ((mark kind seen).attempted ≡ ((is_dml kind || is_ddl kind) || seen.attempted))
      × ((mark kind seen).ddl ≡ ((not (is_dml kind) && is_ddl kind) || seen.ddl))
      × ((mark kind seen).approved_pragma ≡ seen.approved_pragma)
unfolding mark mark_attempt mark_ddl_attempt
marked kind seen = ground arith

-- One callback: the flags that it sets, whatever it decides.
callback_flags :
    (readonly : Bool) (ctx : AuthContext) (seen : MutationSignal)
    → let (decision, seen') = callback false readonly ctx seen in
      (seen'.policy_denied ≡ (is_denied decision || seen.policy_denied))
      × (seen'.attempted ≡ (mutates ctx || seen.attempted))
      × (seen'.approved_pragma ≡ seen.approved_pragma)
unfolding callback authorize mutates mark_policy_denied
callback_flags readonly ctx seen = ground (
  arith,
  decided ctx.database_name ctx.accessor readonly seen (classify ctx.action),
  marked (classify ctx.action) seen,
)

readonly_denies :
    (ctx : AuthContext) (seen : MutationSignal)
    → mutates ctx ≡ true
    → (callback false true ctx seen).0 ≡ deny
unfolding callback authorize mutates decide_kind
readonly_denies ctx seen h = ground arith

-- The authorizer's flags tell the truth about a request: after any callbacks, the denial flag is
-- set exactly if it was before or a callback denied, and the attempt flag exactly if it was before
-- or some callback was for a change of data or schema, denied ones included; the approved pragma
-- stays.
pub callbacks_flags :
    (readonly : Bool) (ctxs : List AuthContext) (seen : MutationSignal)
    → let (denied, last) = callbacks readonly ctxs seen in
      (last.policy_denied ≡ (denied || seen.policy_denied))
      × (last.attempted ≡ (any mutates ctxs || seen.attempted))
      × (last.approved_pragma ≡ seen.approved_pragma)
unfolding callbacks
callbacks_flags readonly [] seen = (refl, refl, refl)
callbacks_flags readonly (ctx ∷ ctxs) seen = ground (
  arith,
  callback_flags readonly ctx seen,
  callbacks_flags readonly ctxs (callback false readonly ctx seen).1,
)

-- On a read-only connection a statement that tries any change of data or schema is denied.
pub callbacks_readonly :
    (ctxs : List AuthContext) (seen : MutationSignal)
    → any mutates ctxs ≡ true
    → (callbacks true ctxs seen).0 ≡ true
unfolding callbacks
callbacks_readonly [] seen h = cc
callbacks_readonly (ctx ∷ ctxs) seen h =
    ground
      (arith, readonly_denies ctx seen, callbacks_readonly ctxs (callback false true ctx seen).1)
