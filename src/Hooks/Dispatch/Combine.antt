-- ===== src/Hooks/Dispatch/Combine.antt =====
-- hooks/dispatch.py: the order of the hooks, and the hooks that raise.
use kaos_agents.Prelude.{
  ◌≡◌, ◌∙◌, refl, sym, ap, Option, none, some, List, [], ◌∷◌, ◌++◌, arith, String,
}
use mathlib.Core.List.{Perm, foldr}
use mathlib.Core.List.Perm
use mathlib.Core.Path.{fun_ext}
use kaos_agents.Prelude.Reply.{Reply, replies, fails, cancelled}
use kaos_agents.Action.Circuit.{HookAction, continue, skip, require_approval}
use kaos_agents.Hooks.Dispatch.{
  Hook, EventKind, answer, answers_of, dispatch_from, dispatch_hook, more_restrictive,
  action_priority,
}

more_restrictive_comm :
    (best a b : HookAction)
    → more_restrictive (more_restrictive best a) b ≡ more_restrictive (more_restrictive best b) a
unfolding action_priority
more_restrictive_comm continue continue b = ground arith
more_restrictive_comm continue skip b = ground arith
more_restrictive_comm continue require_approval b = ground arith
more_restrictive_comm skip a b = ground arith
more_restrictive_comm require_approval a b = ground arith

-- What is left of a dispatch, waiting for the answer that counts so far.
abbrev Rest : Type 0
Rest = HookAction → Option HookAction

abbrev take_answer : Reply HookAction → Rest → Rest
take_answer (replies a) rest best = rest (more_restrictive best a)
take_answer (fails message) rest best = rest best
take_answer cancelled rest best = none

take_answer_swap :
    (r q : Reply HookAction) (rest : Rest) (best : HookAction)
    → take_answer r (take_answer q rest) best ≡ take_answer q (take_answer r rest) best
take_answer_swap (replies a) (replies b) rest best = ap rest (more_restrictive_comm best a b)
take_answer_swap (replies a) (fails m) rest best = refl
take_answer_swap (replies a) cancelled rest best = refl
take_answer_swap (fails m) (replies b) rest best = refl
take_answer_swap (fails m) (fails m') rest best = refl
take_answer_swap (fails m) cancelled rest best = refl
take_answer_swap cancelled (replies b) rest best = refl
take_answer_swap cancelled (fails m) rest best = refl
take_answer_swap cancelled cancelled rest best = refl

take_answer_lem :
    (r : Reply HookAction) (answers : List (Reply HookAction)) (rest : Rest)
    → ((best : HookAction) → dispatch_from best answers ≡ rest best)
    → (best : HookAction) → dispatch_from best (r ∷ answers) ≡ take_answer r rest best
unfolding dispatch_from
take_answer_lem (replies a) answers rest same best = same (more_restrictive best a)
take_answer_lem (fails m) answers rest same best = same best
take_answer_lem cancelled answers rest same best = refl

dispatch_from-foldr :
    (event : EventKind) (hooks : List Hook) (best : HookAction)
    → dispatch_from best (answers_of event hooks)
      ≡ foldr (λ (h : Hook). take_answer (answer event h)) some hooks best
unfolding answers_of dispatch_from
dispatch_from-foldr event [] best = refl
dispatch_from-foldr event (hook ∷ hooks) best =
    take_answer_lem (answer event hook) (answers_of event hooks)
      (foldr (λ (h : Hook). take_answer (answer event h)) some hooks)
      (dispatch_from-foldr event hooks) best

Rest-set : IsSet Rest
Rest-set = hlevel

-- The order of the hooks does not change the combined answer.
pub dispatch_hook-perm :
    (event : EventKind) (hooks others : List Hook)
    → Perm hooks others
    → dispatch_hook hooks event ≡ dispatch_hook others event
unfolding dispatch_hook
dispatch_hook-perm event hooks others same =
    dispatch_from-foldr event hooks continue
    ∙ (ap (λ (rest : Rest). rest continue)
          (Perm.foldr-eq Rest-set (λ (h : Hook). take_answer (answer event h))
            (λ a b rest. fun_ext (take_answer_swap (answer event a) (answer event b) rest)) same
            some)
        ∙ sym (dispatch_from-foldr event others continue))

-- What holds of the rest of the answers holds after one more answer.
dispatch_from-cons :
    (answers others : List (Reply HookAction))
    → ((best : HookAction) → dispatch_from best answers ≡ dispatch_from best others)
    → (best : HookAction) (r : Reply HookAction)
    → dispatch_from best (r ∷ answers) ≡ dispatch_from best (r ∷ others)
unfolding dispatch_from
dispatch_from-cons answers others same best (replies a) = same (more_restrictive best a)
dispatch_from-cons answers others same best (fails m) = same best
dispatch_from-cons answers others same best cancelled = refl

dispatch_from-fails :
    (event : EventKind) (before after : List Hook) (hook : Hook) (message : String)
    → answer event hook ≡ fails message
    → (best : HookAction)
    → dispatch_from best (answers_of event (before ++ hook ∷ after))
      ≡ dispatch_from best (answers_of event (before ++ after))
unfolding answers_of dispatch_from
dispatch_from-fails event [] after hook message raised best = rw raised refl
dispatch_from-fails event (x ∷ before) after hook message raised best =
    dispatch_from-cons (answers_of event (before ++ hook ∷ after))
      (answers_of event (before ++ after))
      (dispatch_from-fails event before after hook message raised) best (answer event x)

-- A hook that raises changes nothing: the answer is that of the other hooks.
pub dispatch_hook-fails :
    (event : EventKind) (before after : List Hook) (hook : Hook) (message : String)
    → answer event hook ≡ fails message
    → dispatch_hook (before ++ hook ∷ after) event ≡ dispatch_hook (before ++ after) event
unfolding dispatch_hook
dispatch_hook-fails event before after hook message raised =
    dispatch_from-fails event before after hook message raised continue
