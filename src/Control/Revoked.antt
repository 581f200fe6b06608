-- ===== src/Control/Revoked.antt =====
-- slot.go: what a whole `RevokeAll` leaves behind.
use nervud.Base.{
  ℕ, ◌≤◌, ◌≡◌, ◌≢◌, refl, ap, ◌∙◌, inl, inr, none, some, List, [], ◌∷◌, ◌++◌, map, arith,
  Bool-cases, Option-cases, String, str_eq, eq_iff,
}
use nervud.Base.Int.{ℤ}
use nervud.Control.Policy.{ok}
use nervud.Control.Types.{Slot, Module, LeaseProof}
use nervud.Control.Slots.{find_slot, on_slot}
use nervud.Control.Supervised.{
  Act, opens, floors, takes, closes, take_slot, act, run_acts, revoke_acts, revoke_all,
}
use nervud.Control.Lookup.{check_resource}
use nervud.Control.Checked.{check_resource_sound}
use nervud.Control.Tally.{held}

-- Whether the slot of a resource holds a lease.
abbrev held_at : String → List Slot → ℕ
held_at r ss = elim (find_slot r ss) [ none ↦ 0 | some s ↦ held s ]

held_at-take :
    (r k : String) (e : ℕ) (ss : List Slot) → held_at r (on_slot k (take_slot e) ss) ≤ held_at r ss
unfolding find_slot on_slot
held_at-take r k e [] = omega arith
held_at-take r k e (s ∷ ss) = ground (arith, held_at-take r k e ss)

held_at-take_own :
    (r : String) (e : ℕ) (ss : List Slot) → held_at r (on_slot r (take_slot e) ss) ≡ 0
unfolding find_slot on_slot
held_at-take_own r e [] = refl
held_at-take_own r e (s ∷ ss) = ground (arith, held_at-take_own r e ss)

-- The steps after the floor is raised.
abbrev sweep_acts : ℕ → List Slot → List Act
sweep_acts e ts = map (λ s. takes s.resource e) ts ++ closes ∷ []

held_at-sweep :
    (r : String) (e : ℕ) (ts : List Slot) (m : Module)
    → held_at r (run_acts (sweep_acts e ts) m).slots ≤ held_at r m.slots
unfolding run_acts act
held_at-sweep r e [] m = omega arith
held_at-sweep r e (t ∷ ts) m =
    omega (
      arith,
      held_at-sweep r e ts (act (takes t.resource e) m),
      held_at-take r t.resource e m.slots,
    )

held_at-sweep_own :
    (r : String) (e : ℕ) (ts : List Slot) (s : Slot) (m : Module)
    → find_slot r ts ≡ some s
    → held_at r (run_acts (sweep_acts e ts) m).slots ≡ 0
unfolding run_acts act find_slot
held_at-sweep_own r e [] s m h = cc
held_at-sweep_own r e (t ∷ ts) s m h = elim (Bool-cases (str_eq t.resource r)) [
  | inr miss ↦ held_at-sweep_own r e ts s (act (takes t.resource e) m) (ground arith)
  | inl hit ↦
      let same : t.resource ≡ r = ground (arith, eq_iff t.resource r) in
      omega (
        arith,
        held_at-sweep r e ts (act (takes t.resource e) m),
        ap (λ (k : String). held_at r (on_slot k (take_slot e) m.slots)) same
            ∙ held_at-take_own r e m.slots,
      )
]

revoke_all-held_at : (r : String) (e : ℕ) (m : Module) → held_at r (revoke_all e m).slots ≡ 0
unfolding revoke_all revoke_acts run_acts act
revoke_all-held_at r e m =
    let raised = act (floors e) (act opens m) in
    elim (Option-cases (find_slot r m.slots)) [
      | inl absent ↦ omega (arith, held_at-sweep r e m.slots raised, none_held absent)
      | inr (s, found) ↦ held_at-sweep_own r e m.slots s raised found
    ]
  where
    none_held : find_slot r m.slots ≡ none → held_at r m.slots ≡ 0
    none_held absent = ground arith

-- Once a `RevokeAll` has run, whatever its epoch, `CheckResource` lets no call pass: not of any
-- connection, for any resource and generation, at any time.
pub revoke_all_stops :
    (epoch : ℕ) (m : Module) (conn : ℕ) (r : String) (g : ℕ) (now : ℤ) (p : LeaseProof)
    → check_resource conn r g now (revoke_all epoch m) ≢ ok p
revoke_all_stops epoch m conn r g now p h =
    let (s, l, found, cur, _, _, _, _, _) =
      check_resource_sound conn r g now (revoke_all epoch m) h in
    let empty = revoke_all-held_at r epoch m in ground arith
