-- ===== src/Policy/Tests.antt =====
-- The theorems on the authorizer at concrete inputs.
use sqlite_mcp.Prelude.{◌≡◌, refl, ◌↔◌, true, false, none, some, List, [], ◌∷◌, any}
use sqlite_mcp.Prelude.Text.{codes}
use sqlite_mcp.Policy.Signal.{new, approved}
use sqlite_mcp.Policy.Action.{AuthAction, ActionKind}
use sqlite_mcp.Policy.Authorize.{allow, AuthContext, decide_kind}
use sqlite_mcp.Policy.Rules.{Permitted, decide_kind_iff, mutates}

decide_kind_iff_example :
    ((decide_kind ActionKind.update (some (codes "main")) none false new).0 ≡ allow)
    ↔ Permitted (some (codes "main")) none false (approved new) ActionKind.update
decide_kind_iff_example = decide_kind_iff (some (codes "main")) none false new ActionKind.update

abbrev contexts : List AuthContext
contexts =
    record { action = AuthAction.read; database_name = some (codes "main"); accessor = none }
    ∷ record { action = AuthAction.delete; database_name = some (codes "main"); accessor = none }
    ∷ []

contexts-mutate : any mutates contexts ≡ true
unfolding mutates
contexts-mutate = refl
