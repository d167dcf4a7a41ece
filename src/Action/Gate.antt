-- ===== src/Action/Gate.antt =====
-- types/permissions.py, runtime/permissions.py, action/reversibility.py, approval.py and actor.py: which
-- planned tool calls are dispatched. The match of a name with a pattern is fnmatch's, a parameter, and
-- the dispatch callback is the caller's.
pub mod Policy
pub mod Dispatch
mod Examples
use kaos_agents.Prelude.{
  Bool, true, false, not, ◌&&◌, Option, none, some, List, [], ◌∷◌, String, if◌then◌else◌,
}
use kaos_agents.Prelude.Equality.{◌==◌, string_key}

pub data PermissionDecision : Type 0 where
  allow deny ask : PermissionDecision

pub record PermissionRule : Type 0 where
  pub pattern : String
  pub action : PermissionDecision
  pub reason : String

pub record ToolAnnotations : Type 0 where
  pub human_confirmation_required : Bool
  pub read_only_hint : Bool
  pub destructive_hint : Bool

pub data Reversibility : Type 0 where
  reversible recoverable externally_visible irreversible : Reversibility

-- `Reversibility(explicit)`, where `none` is the ValueError.
unfoldable pub parse_reversibility : String → Option Reversibility
parse_reversibility text =
    if text == "reversible"
    then some reversible
    else if text == "recoverable"
    then some recoverable
    else if text == "externally_visible"
    then some externally_visible
    else if text == "irreversible"
    then some irreversible
    else none

-- The hints of a tool; `explicit` is the annotation "reversibility", if it has one.
unfoldable pub infer_reversibility : Option String → Bool → Bool → Reversibility
infer_reversibility explicit read_only_hint destructive_hint =
    let hinted : Reversibility = if read_only_hint then reversible else irreversible in
    elim explicit [
      | none ↦ hinted
      | some text ↦ elim (parse_reversibility text) [ none ↦ hinted | some r ↦ r ]
    ]

pub record ActionPlan : Type 0 where
  pub tool_name : String
  pub reversibility : Reversibility
  pub approval_required : Bool

unfoldable pub required_for : ActionPlan → Bool
required_for plan = elim plan.reversibility [
  | reversible ↦ false
  | recoverable ↦ false
  | externally_visible ↦ plan.approval_required
  | irreversible ↦ true
]

pub data ClassifyVerdict : Type 0 where
  auto_allow approval_required_verdict deny_verdict : ClassifyVerdict

-- The `kind` of an ActionRefusal.
pub data RefusalKind : Type 0 where
  permission_denied approval_pending not_configured : RefusalKind

pub data Outcome {ℓ} (A : Type ℓ) : Type ℓ where
  refused : RefusalKind → Outcome A
  dispatched : A → Outcome A

-- What `forward` does with a verdict.
unfoldable pub follow {ℓ} :
    {A : Type ℓ} → Option (ActionPlan → A) → ActionPlan → ClassifyVerdict → Outcome A
follow dispatch plan deny_verdict = refused permission_denied
follow dispatch plan approval_required_verdict = refused approval_pending
follow none plan auto_allow = refused not_configured
follow (some run) plan auto_allow = dispatched (run plan)

module _ (fnmatch : String → String → Bool) where
  unfoldable pub matches : PermissionRule → String → Bool
  matches rule tool_name = fnmatch tool_name rule.pattern

  -- The loop over the rules.
  unfoldable pub first_match : List PermissionRule → String → Option PermissionDecision
  first_match [] tool_name = none
  first_match (rule ∷ rules) tool_name =
      if matches rule tool_name then some rule.action else first_match rules tool_name

  -- What the hints decide where no rule matches.
  unfoldable pub from_hints : Option ToolAnnotations → PermissionDecision
  from_hints none = allow
  from_hints (some a) =
      if a.read_only_hint then allow else if a.destructive_hint then ask else allow

  unfoldable pub needs_human : Option ToolAnnotations → Bool
  needs_human none = false
  needs_human (some a) = a.human_confirmation_required

  unfoldable pub evaluate :
      List PermissionRule → String → Option ToolAnnotations → PermissionDecision
  unfolding first_match from_hints needs_human
  evaluate rules tool_name annotations =
      if needs_human annotations then ask else elim (first_match rules tool_name) [
        | some decision ↦ decision
        | none ↦ from_hints annotations
      ]

  -- `policy` is the actor's permission policy, if it has one.
  unfoldable pub classify_plan : Option (List PermissionRule) → ActionPlan → ClassifyVerdict
  classify_plan policy plan =
      let by_workflow : ClassifyVerdict =
        if required_for plan then approval_required_verdict else auto_allow in
      elim policy [
        | none ↦ by_workflow
        | some rules ↦ elim (evaluate rules plan.tool_name none) [
          | deny ↦ deny_verdict
          | ask ↦ approval_required_verdict
          | allow ↦ elim plan.reversibility [
            | irreversible ↦ approval_required_verdict
            | _ ↦ auto_allow
          ]
        ]
      ]

  unfoldable pub forward {ℓ} :
      {A : Type ℓ} → Option (ActionPlan → A) → Option (List PermissionRule) → ActionPlan → Outcome A
  forward dispatch policy plan = follow dispatch plan (classify_plan policy plan)
