-- ===== src/Operation/Store.antt =====
-- manager.go: the map of the operations, and what a locked step does to one entry of it.
use nervud.Base.{
  ℕ, ◌≡◌, refl, ap, ◌∙◌, subst, true, false, not, ◌||◌, ◌⊎◌, inl, inr, Option, none, some, List, [],
  ◌∷◌, ◌==◌, arith, Bool-cases, if◌then◌else◌,
}
use nervud.Base.Int.{ℤ}
use nervud.Operation.State.{State, terminal, can_transition}
use nervud.Operation.Types.{
  Bytes, StatusCode, Error, Action, Operation, Manager, find_op, put_op, delete_op,
}
use nervud.Operation.Locked.{
  record_op, emit_locked, transition_locked, terminate_locked, terminated, close_all_subs_locked,
}

pub find_op-id :
    (id : ℕ) (os : List Operation) (op : Operation) → find_op id os ≡ some op → op.id ≡ id
unfolding find_op
find_op-id id [] op h = cc
find_op-id id (o ∷ os) op h = ground (arith, find_op-id id os op)

-- The map after a write, at any key.
pub find_op-put_op :
    (id : ℕ) (op : Operation) (os : List Operation)
    → find_op id (put_op op os) ≡ (if op.id == id then some op else find_op id os)
unfolding find_op put_op
find_op-put_op id op [] = refl
find_op-put_op id op (o ∷ os) = ground (arith, find_op-put_op id op os)

pub find_op-delete_op :
    (id key : ℕ) (os : List Operation)
    → find_op id (delete_op key os) ≡ (if key == id then none else find_op id os)
unfolding find_op delete_op
find_op-delete_op id key [] = ground arith
find_op-delete_op id key (o ∷ os) = ground (arith, find_op-delete_op id key os)

-- The next state of an operation's record: itself, or one allowed transition away. What it was
-- created with stays.
pub data Next (op op' : Operation) : Type 0 where
  stays : op' ≡ op → Next op op'
  moves :
      can_transition op.state op'.state ≡ true
      → op'.id ≡ op.id
      → op'.origin ≡ op.origin
      → op'.caller ≡ op.caller
      → op'.resources ≡ op.resources
      → op'.lease_id ≡ op.lease_id
      → op'.motion_epoch ≡ op.motion_epoch
      → op'.deadline ≡ op.deadline
      → Next op op'

pub terminal_stays : (s t : State) → terminal s ≡ true → can_transition s t ≡ false
unfolding can_transition
terminal_stays s t h = ground arith

-- A record that has ended does not move.
pub Next_terminal : (op op' : Operation) → terminal op.state ≡ true → Next op op' → op' ≡ op
Next_terminal op op' h (stays e) = e
Next_terminal op op' h (moves c _ _ _ _ _ _ _) =
    absurd (ground (arith, terminal_stays op.state op'.state h))

-- At one key: the entry is still there, and has moved at most one step.
abbrev pub Kept : ℕ → Operation → Manager → Type 0
Kept id op m = (op' : Operation) × (find_op id m.ops ≡ some op') × Next op op'

-- A write at its own key or at another one.
put_Kept :
    (id : ℕ) (op cur new : Operation) (m m' : Manager)
    → m'.ops ≡ put_op new m.ops
    → find_op id m.ops ≡ some op
    → find_op cur.id m.ops ≡ some cur
    → new.id ≡ cur.id
    → Next cur new
    → Kept id op m'
put_Kept id op cur new m m' e found at same next = elim (Bool-cases (new.id == id)) [
  | inl h ↦ (
    new,
    ap (find_op id) e ∙ find_op-put_op id new m.ops ∙ ground arith,
    subst (λ (o : Operation). Next o new) (ground (arith, ap (λ k. find_op k m.ops))) next,
  )
  | inr h ↦ (op, ap (find_op id) e ∙ find_op-put_op id new m.ops ∙ ground arith, stays refl)
]

-- `terminateLocked` writes the one record, or nothing.
pub terminate_locked_cases :
    (op : Operation) (to : State) (code : StatusCode) (detail : Bytes) (a : Action)
    (c : Option Error) (now : ℤ) (m : Manager)
    → (terminate_locked op to code detail a c now m ≡ (m, false))
      ⊎ ((terminal op.state ≡ false)
          × (can_transition op.state to ≡ true)
          × ((terminate_locked op to code detail a c now m).0.ops
              ≡ put_op (terminated op to code detail now) m.ops))
unfolding terminate_locked record_op close_all_subs_locked emit_locked
terminate_locked_cases op to code detail a c now m =
    elim (Bool-cases (terminal op.state || not (can_transition op.state to))) [
      | inl h ↦ inl (ground arith)
      | inr h ↦ inr (ground arith, ground arith, ground arith)
    ]

pub transition_locked-Kept :
    (id : ℕ) (o op : Operation) (to : State) (now : ℤ) (m : Manager)
    → can_transition op.state to ≡ true
    → find_op id m.ops ≡ some o
    → find_op op.id m.ops ≡ some op
    → Kept id o (transition_locked op to now m)
unfolding transition_locked emit_locked
transition_locked-Kept id o op to now m allowed found at =
    put_Kept id o op (record op { state = to; updated_at = now }) m (transition_locked op to now m)
      refl found at refl (moves allowed refl refl refl refl refl refl refl)

-- Where the transition is allowed, the record is written.
pub terminate_locked_ops :
    (op : Operation) (to : State) (code : StatusCode) (detail : Bytes) (a : Action)
    (c : Option Error) (now : ℤ) (m : Manager)
    → can_transition op.state to ≡ true
    → (terminate_locked op to code detail a c now m).0.ops
      ≡ put_op (terminated op to code detail now) m.ops
unfolding terminate_locked record_op close_all_subs_locked emit_locked
terminate_locked_ops op to code detail a c now m allowed =
    ground (arith, terminal_stays op.state to)
