-- ===== src/Hooks/Isolation/Examples.antt =====
-- A call that names another matter, three hooks, and the theorems on the hooks at them.
use kaos_agents.Prelude.{◌≡◌, refl, some, [], ◌∷◌, String, inl, true}
use kaos_agents.Prelude.Equality.{contains, string_key}
use kaos_agents.Prelude.Reply.{replies, fails}
use mathlib.Core.List.Perm
use kaos_agents.Action.Circuit.{HookAction, continue, skip, require_approval}
use kaos_agents.Hooks.Dispatch.{
  Hook, span, tool_call, start, dispatch_hook, dispatch_from, answers_of, answer, action_priority,
}
use kaos_agents.Hooks.Dispatch.Combine.{dispatch_hook-perm}
use kaos_agents.Hooks.Isolation.{
  Value, str, dict, entry, no_entry, scan_text, matter_isolation_hook,
}
use kaos_agents.Hooks.Isolation.Refusal.{dispatch_hook-isolation}

abbrev path : String
path = "matters/M-2/brief.pdf"

abbrev arguments : Value
arguments = dict (entry "path" (str path) no_entry)

abbrev answering : HookAction → Hook
answering action = record { on_event = replies tt; method = λ m. replies action }

scanned : scan_text "matters/M-2/brief.pdf?matter_id=M-3&x=1" ≡ "M-2" ∷ "M-3" ∷ []
unfolding scan_text contains
scanned = refl

names_other : contains (scan_text path) "M-2" ≡ true
unfolding scan_text contains
names_other = refl

abbrev bound : Hook
bound = matter_isolation_hook (some "M-1") (some arguments)

dispatch_hook-isolation_example :
    (answer (span tool_call start) bound ≡ fails "MatterIsolationError")
    × (dispatch_hook (answering continue ∷ bound ∷ []) (span tool_call start)
        ≡ dispatch_hook (answering continue ∷ []) (span tool_call start))
dispatch_hook-isolation_example =
    dispatch_hook-isolation "M-1" "M-2" path arguments (answering continue ∷ []) [] (inl refl)
      names_other refl

dispatch_hook-perm_example :
    dispatch_hook (answering skip ∷ answering require_approval ∷ []) (span tool_call start)
    ≡ dispatch_hook (answering require_approval ∷ answering skip ∷ []) (span tool_call start)
dispatch_hook-perm_example =
    dispatch_hook-perm (span tool_call start) (answering skip ∷ answering require_approval ∷ [])
      (answering require_approval ∷ answering skip ∷ [])
      (Perm.swap (answering require_approval) (answering skip) [])

approval_wins :
    dispatch_hook (answering skip ∷ answering require_approval ∷ []) (span tool_call start)
    ≡ some require_approval
unfolding dispatch_hook dispatch_from answers_of answer action_priority
approval_wins = refl
