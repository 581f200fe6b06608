-- ===== src/Operation/Sweep.antt =====
-- manager.go: what a loop over the operations does to each of them.
use nervud.Base.{
  ℕ, ◌≡◌, refl, sym, ap, ◌∙◌, subst, Bool, true, false, ◌⊎◌, inl, inr, Option, some, List, [], ◌∷◌,
  ◌==◌, arith, Bool-cases, Option-cases, map,
}
use nervud.Base.Int.{ℤ}
use nervud.Operation.State.{State, failed, terminal, can_transition}
use nervud.Operation.Types.{Bytes, StatusCode, Error, Action, Operation, Manager, find_op}
use nervud.Operation.Locked.{terminate_locked, terminated, visit, sweep}
use nervud.Operation.Store.{
  Next, stays, moves, Next_terminal, Kept, find_op-put_op, find_op-id, terminate_locked_cases,
  terminate_locked_ops,
}

-- At one key: the entry is as it was, or has ended, in one allowed transition.
abbrev pub Ended : ℕ → Operation → Manager → Type 0
Ended id op m =
    (op' : Operation) × (find_op id m.ops ≡ some op')
    × Next op op'
    × ((op' ≡ op) ⊎ (terminal op'.state ≡ true))

pub unchanged : (id : ℕ) (op : Operation) (m : Manager) → find_op id m.ops ≡ some op → Ended id op m
unchanged id op m found = (op, found, stays refl, inl refl)

-- One use of `terminateLocked`, seen from any key.
pub terminate_locked-Ended :
    (id : ℕ) (o op : Operation) (to : State) (code : StatusCode) (detail : Bytes) (a : Action)
    (c : Option Error) (now : ℤ) (m : Manager)
    → terminal to ≡ true
    → find_op id m.ops ≡ some o
    → find_op op.id m.ops ≡ some op
    → Ended id o (terminate_locked op to code detail a c now m).0
terminate_locked-Ended id o op to code detail a c now m end found at =
    let m' = (terminate_locked op to code detail a c now m).0 in
    elim (terminate_locked_cases op to code detail a c now m) [
      | inl e ↦ rw e (unchanged id o m found)
      | inr (live, allowed, e) ↦
          let new = terminated op to code detail now in
          elim (Bool-cases (op.id == id)) [
            | inl h ↦
                let same : op ≡ o = ground (arith, ap (λ k. find_op k m.ops)) in
                (
                  new,
                  ap (find_op id) e ∙ find_op-put_op id new m.ops ∙ ground arith,
                  subst (λ (x : Operation). Next x new) same
                      (moves allowed refl refl refl refl refl refl refl),
                  inr end,
                )
            | inr h ↦
                unchanged id o m' (ap (find_op id) e ∙ find_op-put_op id new m.ops ∙ ground arith)
          ]
    ]

visit-Ended :
    (pick : Operation → Bool) (code : StatusCode) (a : Action) (c : Error) (now : ℤ) (k id : ℕ)
    (op : Operation) (m : Manager)
    → find_op id m.ops ≡ some op
    → Ended id op (visit pick code a c now k m)
unfolding visit
visit-Ended pick code a c now k id op m found = elim (Option-cases (find_op k m.ops)) [
  | inl absent ↦ rw (absent, visit) (unchanged id op m found)
  | inr (o, at) ↦ elim (Bool-cases (pick o)) [
    | inl yes' ↦
        rw (at, yes', visit)
          (terminate_locked-Ended id op o failed code [] a (some c) now m refl found
            (ap (λ (n : ℕ). find_op n m.ops) (find_op-id k m.ops o at) ∙ at))
    | inr no' ↦ rw (at, no', visit) (unchanged id op m found)
  ]
]

pub sweep-Ended :
    (pick : Operation → Bool) (code : StatusCode) (a : Action) (c : Error) (now : ℤ) (ks : List ℕ)
    (id : ℕ) (op : Operation) (m : Manager)
    → find_op id m.ops ≡ some op
    → Ended id op (sweep pick code a c now ks m)
unfolding sweep
sweep-Ended pick code a c now [] id op m found = unchanged id op m found
sweep-Ended pick code a c now (k ∷ ks) id op m found =
    let (op1, found1, next1, how1) = visit-Ended pick code a c now k id op m found in
    let (op2, found2, next2, how2) =
      sweep-Ended pick code a c now ks id op1 (visit pick code a c now k m) found1 in
    elim how1 [
      | inl same ↦ (
        op2,
        found2,
        subst (λ (x : Operation). Next x op2) same next2,
        elim how2 [ inl f ↦ inl (f ∙ same) | inr end ↦ inr end ],
      )
      | inr end ↦ (
        op2,
        found2,
        subst (λ (x : Operation). Next op x) (sym (Next_terminal op1 op2 end next2)) next1,
        inr (ap (λ (x : Operation). terminal x.state) (Next_terminal op1 op2 end next2) ∙ end),
      )
    ]

-- The loop's body at its own key.
visit_picked :
    (pick : Operation → Bool) (code : StatusCode) (a : Action) (c : Error) (now : ℤ) (id : ℕ)
    (op : Operation) (m : Manager)
    → find_op id m.ops ≡ some op
    → pick op ≡ true
    → can_transition op.state failed ≡ true
    → find_op id (visit pick code a c now id m).ops ≡ some (terminated op failed code [] now)
unfolding visit
visit_picked pick code a c now id op m found picked allowed =
    rw (found, picked, visit)
      (ap (find_op id) (terminate_locked_ops op failed code [] a (some c) now m allowed)
        ∙ find_op-put_op id (terminated op failed code [] now) m.ops
        ∙ ground (arith, find_op-id id m.ops op found))

visit_other :
    (pick : Operation → Bool) (code : StatusCode) (a : Action) (c : Error) (now : ℤ) (k id : ℕ)
    (m : Manager)
    → (k == id) ≡ false
    → find_op id (visit pick code a c now k m).ops ≡ find_op id m.ops
unfolding visit
visit_other pick code a c now k id m other = elim (Option-cases (find_op k m.ops)) [
  | inl absent ↦ rw (absent, visit) refl
  | inr (o, at) ↦ elim (Bool-cases (pick o)) [
    | inr no' ↦ rw (at, no', visit) refl
    | inl yes' ↦ elim (terminate_locked_cases o failed code [] a (some c) now m) [
      | inl e ↦ rw (at, yes', e, visit) refl
      | inr (live, _, e) ↦
          rw (at, yes', visit)
            (ap (find_op id) e
              ∙ find_op-put_op id (terminated o failed code [] now) m.ops
              ∙ ground (arith, find_op-id k m.ops o at))
    ]
  ]
]

-- A loop over a map that has the key fails the entry that it picks, with the loop's own code.
pub sweep_picked :
    (pick : Operation → Bool) (code : StatusCode) (a : Action) (c : Error) (now : ℤ)
    (os : List Operation) (id : ℕ) (o op : Operation) (m : Manager)
    → find_op id os ≡ some o
    → find_op id m.ops ≡ some op
    → pick op ≡ true
    → can_transition op.state failed ≡ true
    → find_op id (sweep pick code a c now (map (λ x. x.id) os) m).ops
      ≡ some (terminated op failed code [] now)
unfolding sweep find_op
sweep_picked pick code a c now [] id o op m has found picked allowed = cc
sweep_picked pick code a c now (t ∷ os) id o op m has found picked allowed =
    let m' = visit pick code a c now t.id m in
    elim (Bool-cases (t.id == id)) [
      | inr miss ↦
          sweep_picked pick code a c now os id o op m' (ground arith)
            (visit_other pick code a c now t.id id m miss ∙ found) picked allowed
      | inl hit ↦
          let here : t.id ≡ id = ground arith in
          let done =
            ap (λ (n : ℕ). find_op id (visit pick code a c now n m).ops) here
            ∙ visit_picked pick code a c now id op m found picked allowed in
          let (op2, found2, next2, _) =
            sweep-Ended pick code a c now (map (λ x. x.id) os) id (terminated op failed code [] now)
              m' done in
          found2 ∙ ap some (Next_terminal (terminated op failed code [] now) op2 refl next2)
    ]

pub sweep-Kept :
    (pick : Operation → Bool) (code : StatusCode) (a : Action) (c : Error) (now : ℤ) (ks : List ℕ)
    (id : ℕ) (op : Operation) (m : Manager)
    → find_op id m.ops ≡ some op
    → Kept id op (sweep pick code a c now ks m)
sweep-Kept pick code a c now ks id op m found =
    let (op', at, next, _) = sweep-Ended pick code a c now ks id op m found in (op', at, next)

pub terminate_locked-Kept :
    (id : ℕ) (o op : Operation) (to : State) (code : StatusCode) (detail : Bytes) (a : Action)
    (c : Option Error) (now : ℤ) (m : Manager)
    → terminal to ≡ true
    → find_op id m.ops ≡ some o
    → find_op op.id m.ops ≡ some op
    → Kept id o (terminate_locked op to code detail a c now m).0
terminate_locked-Kept id o op to code detail a c now m end found at =
    let (op', at', next, _) =
      terminate_locked-Ended id o op to code detail a c now m end found at in
    (op', at', next)
