-- ===== src/Tools/Classes.antt =====
-- tools.rs: what the envelope of an error says.
use sqlite_mcp.Tools.Envelope.{explicit_lifecycle}
use sqlite_mcp.Prelude.{not, none, some}
use sqlite_mcp.Tools.Envelope.{tools}
use sqlite_mcp.Tools.{class_of_text, class_of, error_classes, core_text, is_retryable_busy}
use sqlite_mcp.Core.Error.{CoreError, CommitLifecycle}
use sqlite_mcp.Prelude.Text.{Text, text_eq, contains, codes, to_ascii_lowercase}
use sqlite_mcp.Prelude.{◌≡◌, Bool, true, false, ◌||◌, List, arith, all, any}

abbrev pub is_known : Text → Bool
is_known class = any (text_eq class) error_classes

abbrev pub are_tools : List Text → Bool
are_tools names = all (λ name. any (text_eq name) tools) names

-- The flags that an error carries, if it carries any, do not call a transaction continuable that is
-- not open.
abbrev pub is_coherent : CoreError → Bool
is_coherent x = elim (explicit_lifecycle x) [ some (o, k) ↦ not k || o | none ↦ true ]

-- A commit that was confirmed is presented as the retryable class BUSY all the same if the text of its
-- error spells `busy` in any case, and does not speak of a missing transaction.
pub confirmed_busy :
    (c : CommitLifecycle)
    → c.commit_confirmed ≡ true
    → contains (core_text (CoreError.commit_lifecycle c)) (codes "no transaction") ≡ false
    → contains (core_text (CoreError.commit_lifecycle c)) (codes "transaction required") ≡ false
    → contains (to_ascii_lowercase (core_text (CoreError.commit_lifecycle c))) (codes "busy") ≡ true
    → class_of (CoreError.commit_lifecycle c) ≡ codes "BUSY"
unfolding class_of is_retryable_busy class_of_text
confirmed_busy c confirmed p p' p'' = ground (arith, confirmed, p, p', p'')
