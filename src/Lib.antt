-- ===== src/Lib.antt =====
-- A model of the core of kaos_agents, an agent runtime in Python, and the properties of it.
--
-- Paths below are from kaos_agents/ where they do not name it.
--
-- Memory follows kaos_agents/memory: Memory/Types is types/memory.py, Memory/Section is
-- memory/sections.py (one section, a bounded store of items with an eviction policy), Memory/Session
-- is memory/session.py (the sections of a session by name) and Memory/Trim is the trimming of the
-- gathered sections to a turn's budget, which memory/session.py and context/assemble.py share.
-- Memory/Institutional is memory/institutional.py, memory/isolation.py and memory/promotion.py: the
-- knowledge base of a matter, the guard of its namespaces, and the promotion of findings into it.
--
-- Action follows kaos_agents/action, the gates that a tool call passes: Action/Circuit is
-- action/circuit.py, Action/RateLimit is action/rate_limit.py, and Action/Gate is action/actor.py with
-- action/approval.py, action/reversibility.py, runtime/permissions.py and types/permissions.py.
--
-- Planning follows kaos_agents/planning: Planning/Budget is PlanBudget of types/plan.py,
-- Planning/Route is planning/route.py, Planning/Graph is the status of the steps in planning/graph.py,
-- and Planning/Compose is planning/compose.py, the loop that runs a plan on the other three;
-- Planning/ToolPolicy is planning/policy.py and Planning/GoalCheck is planning/goal_check.py.
-- Planning/Delegation and Planning/Hierarchy are planning/hierarchical_planner.py, the plan of
-- sub-agents and its execution; Planning/Hierarchy/Nested runs it on turns of the agent loop.
--
-- Termination follows kaos_agents/termination: Termination/Loop is loop_detect.py, and
-- Termination/Judge is judge.py with degrade.py and types.py. Session/Policy is
-- types/session_policy.py with `_consider_elevation` of patterns/agentic_loop.py. Escalation is
-- types/budget.py and runtime/escalation.py; Escalation/People is escalation/policy.py.
--
-- Turn follows patterns/agentic_loop.py, the loop of a turn, which plans, works, checks and plans
-- again on Planning/ToolPolicy, Session/Policy and Planning/GoalCheck: Turn/Types, Turn/Run and
-- Turn/World are its state, its events and what it asks; Turn/Breaker, Turn/Progress, Turn/Refusal,
-- Turn/Notes and Turn/Critics (with planning/judge.py) are its parts; Turn/Iteration and Turn/Decision
-- are a round, and Turn/Loop is `run_agentic_turn`. Turn/Ends and Turn/Keeps are the rules by which
-- Turn/Phases, Turn/Labor, Turn/Verdicts, Turn/Ending and Turn/Outcome carry an invariant through a
-- whole turn.
--
-- Events follows kaos_agents/events: the emitter, the collector and its stack of open spans, with
-- types/usage.py. Intent is what a turn reads in intent/types.py, and intent/clarify.py. AgentLoop
-- follows loop/agent_loop.py, one turn on Events, Intent, Escalation/People, Termination/Judge and
-- Memory/Institutional: AgentLoop/Types is core/invocation.py, core/plan.py and planning/planner.py;
-- AgentLoop/State is the state of a turn and its steps; AgentLoop/Usage, AgentLoop/Report,
-- AgentLoop/Steps and AgentLoop/Work are the parts of `_run_8_step_turn`, and AgentLoop/Forward is
-- `forward` and `stream`. AgentLoop/Keeps, AgentLoop/Whole and AgentLoop/Acts are the rules by which
-- an invariant of the events is carried through a turn, whatever its collaborators do.
--
-- Hooks/Dispatch is hooks/dispatch.py and Hooks/Isolation is memory/isolation.py. Replay is
-- replay/recorder.py and replay/diff.py. Prelude holds what these share.
--
-- An object that a method changes is a record, and the method returns the new record with its result;
-- a method that may raise returns the object as the exception leaves it. Python dictionaries are
-- association lists in insertion order. The clock is an argument and counts ticks. Ratios are
-- fractions of two natural numbers, and costs and scores are natural numbers on some scale.
--
-- The loop of `_evict_tokens` runs on fuel, the number of the section's items, which is enough since
-- each round but the last removes one (Memory/Section/Loop). The loop of `compose` runs on the fuel
-- that it is given; each turn after which it goes on settles a pending step (Planning/Compose/Finish),
-- so one more than there are pending steps is enough. The loop of a turn runs on one more than the
-- iterations that the policy allows, which is enough since each round counts one (Turn/Ending).
--
-- An async generator is a function on its state that goes on, returns, or raises; what is awaited
-- replies, fails, or is cancelled, and the replies of the models and of the worker are a record of
-- functions, so that a theorem holds whatever they answer. What a turn emits and whom it calls is the
-- list of its acts. What the planner, the judge and a sub-agent of the agent loop do is a parameter:
-- the events that they emit or put into a queue, and their reply. The wording of notes and answers is
-- left out: they are lists of their parts.
--
-- The graph library is a record of operations with the laws that are relied on. Hashes, regular
-- expressions, pattern matching on names, similarity scores, the tools and the language models are
-- parameters, and so are the ids drawn from uuid4, printed decimals and the JSON of envelopes.
--
-- Times and durations of events, and `prepare_turn`, which asks a model for the intent and attaches a
-- corpus, are left out; the context variables of Python are arguments. What only talks to the models,
-- the tools, the network, storage or the log is not modelled.
pub mod Prelude
pub mod Memory
pub mod Action
pub mod Planning
pub mod Termination
pub mod Session
pub mod Events
pub mod Escalation
pub mod Intent
pub mod Turn
pub mod AgentLoop
pub mod Hooks
pub mod Replay
