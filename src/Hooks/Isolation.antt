-- ===== src/Hooks/Isolation.antt =====
-- memory/isolation.py: the hook that keeps the calls of a session inside its matter.
pub mod Refusal
mod Examples
use Prim.Native.Char.{Char}
use Prim.Native.String.{String, len}
use text.Mathlib.Text.{starts_with, find?, get?}
use kaos_agents.Prelude.{
  ℕ, ◌+◌, Bool, true, false, not, ◌||◌, Option, none, some, List, [], ◌∷◌, ◌++◌, filter,
  if◌then◌else◌,
}
use kaos_agents.Prelude.Equality.{◌==◌, string_key}
use kaos_agents.Prelude.Dict.{lookup}
use kaos_agents.Prelude.Reply.{Reply, replies, fails}
use kaos_agents.Action.Circuit.{HookAction, continue}
use kaos_agents.Turn.Refusal.{lstrip, rstrip}
use kaos_agents.Hooks.Dispatch.{Hook, Method, on_tool_call_start}

-- The arguments of a call: texts, dictionaries and lists; a number and the like is `other`.
mutual
  pub data Value : Type 0 where
    str : String → Value
    dict : Entries → Value
    items : Values → Value
    other : Value

  pub data Entries : Type 0 where
    no_entry : Entries
    entry : String → Value → Entries → Entries

  pub data Values : Type 0 where
    no_value : Values
    value : Value → Values → Values

unfoldable pub strip : String → String
unfolding lstrip rstrip
strip s = lstrip (rstrip s)

abbrev pub text_or_empty : Option String → String
text_or_empty none = ""
text_or_empty (some s) = s

-- What follows the first `mark` in the text.
unfoldable pub tail_after : String → String → Option String
tail_after mark s = elim (find? s mark) [
  | none ↦ none
  | some at ↦ some (text_or_empty (get? s (at + len mark) (len s)))
]

-- `s.split(mark, 1)[0]`.
unfoldable pub split_first : String → String → String
split_first mark s = elim (find? s mark) [ none ↦ s | some at ↦ text_or_empty (get? s 0 at) ]

abbrev pub unless_blank : String → List String
unless_blank id = if id == "" then [] else id ∷ []

-- An id after `matter:` is kept even if it is blank, as long as some text follows.
abbrev pub after_matter : Option String → List String
after_matter none = []
after_matter (some tail) = if tail == "" then [] else strip (split_first "/" tail) ∷ []

abbrev pub after_matters : Option String → List String
after_matters none = []
after_matters (some tail) = unless_blank (strip (split_first "/" tail))

abbrev pub after_matter_id : Option String → List String
after_matter_id none = []
after_matter_id (some tail) = unless_blank (strip (split_first "/" (split_first "&" tail)))

unfoldable pub scan_text : String → List String
unfolding strip tail_after split_first
scan_text s =
    (if starts_with s "matter:" then after_matter (tail_after "matter:" s) else [])
    ++ (after_matters (tail_after "matters/" s) ++ after_matter_id (tail_after "matter_id=" s))

-- The value of the key `matter_id`, if it is a text.
abbrev pub own_id : String → Value → List String
own_id key (str id) = if key == "matter_id" then unless_blank id else []
own_id key (dict entries) = []
own_id key (items values) = []
own_id key other = []

unfoldable mutual
  pub scan_value_for_matter_ids : Value → List String
  scan_value_for_matter_ids (str s) = scan_text s
  scan_value_for_matter_ids (dict entries) = scan_entries entries
  scan_value_for_matter_ids (items values) = scan_values values
  scan_value_for_matter_ids other = []

  pub scan_entries : Entries → List String
  scan_entries no_entry = []
  scan_entries (entry key v entries) =
      own_id key v ++ (scan_value_for_matter_ids v ++ scan_entries entries)

  pub scan_values : Values → List String
  scan_values no_value = []
  scan_values (value v values) = scan_value_for_matter_ids v ++ scan_values values

abbrev pub refuse_if : List String → Reply HookAction
refuse_if [] = replies continue
refuse_if (id ∷ ids) = fails "MatterIsolationError"

-- The hook is bound to a matter or not; a call has arguments or not.
unfoldable pub check_matter : Option String → Option Value → Reply HookAction
check_matter none args = replies continue
check_matter (some matter_id) none = replies continue
check_matter (some matter_id) (some args) =
    refuse_if (filter (λ m. not (m == matter_id)) (scan_value_for_matter_ids args))

abbrev pub method_for : Option String → Option Value → Method → Reply HookAction
method_for matter_id args on_tool_call_start = check_matter matter_id args
method_for matter_id args _ = replies continue

-- The hook at a call of a tool; the other methods are those of KaosHook, which do nothing.
abbrev pub matter_isolation_hook : Option String → Option Value → Hook
matter_isolation_hook matter_id args = record {
  on_event = replies tt;
  method = method_for matter_id args;
}
