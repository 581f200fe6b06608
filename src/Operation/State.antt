-- ===== src/Operation/State.antt =====
-- operation.go: the states of an operation and the transitions that are allowed.
use nervud.Base.{Bool, true, false, ◌||◌}

pub data State : Type 0 where
  unspecified pending running cancel_requested succeeded failed cancelled : State

abbrev pub same_state : State → State → Bool
same_state unspecified unspecified = true
same_state pending pending = true
same_state running running = true
same_state cancel_requested cancel_requested = true
same_state succeeded succeeded = true
same_state failed failed = true
same_state cancelled cancelled = true
same_state _ _ = false

-- `State.Terminal`.
abbrev pub terminal : State → Bool
terminal s = same_state s succeeded || same_state s failed || same_state s cancelled

-- `canTransition`.
unfoldable pub can_transition : State → State → Bool
can_transition pending to =
    same_state to running || same_state to cancel_requested || same_state to failed
can_transition running to =
    same_state to cancel_requested || same_state to succeeded || same_state to failed
can_transition cancel_requested to =
    same_state to succeeded || same_state to failed || same_state to cancelled
can_transition _ to = false
