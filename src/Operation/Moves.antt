-- ===== src/Operation/Moves.antt =====
-- manager.go, reporter.go: the calls of the manager, and what one of them does to an operation.
use nervud.Base.{
  ℕ, suc, ◌+◌, ◌%◌, ◌≤◌, ◌<◌, String, ◌≡◌, refl, ap, ◌∙◌, Bool, true, not, ◌⊎◌, inl, inr, Option,
  none, some, List, [], ◌∷◌, arith, Bool-cases, Option-cases,
}
use nervud.Base.Int.{ℤ}
use nervud.Operation.State.{cancel_requested, same_state, terminal, can_transition}
use nervud.Operation.Types.{Bytes, StatusCode, Operation, OriginBinding, Manager, find_op}
use nervud.Operation.Locked.{record_op, remove_sub_locked}
use nervud.Operation.Surface.{
  word, is_ok, validate_create, fresh_operation, create, get, cancel, subscribe, release_by_conn,
  safety_supersede, scan_deadlines, reap_terminal, on_wake, stop, set_lease_validator,
  set_event_observer, record_rejected,
}
use nervud.Operation.Reports.{accept, progress, succeed, fail, cancelled_by}
use nervud.Operation.Store.{stays, Kept, find_op-put_op, find_op-id, transition_locked-Kept}

-- One call. A tick of the loop is the three of its methods; a wake is `converges`.
pub data Call : Type 0 where
  creates : ℕ → ℕ → String → OriginBinding → List String → ℕ → ℕ → ℤ → ℤ → Call
  asks_cancel : String → ℕ → ℤ → Call
  subscribes : String → ℕ → Call
  unsubscribes : ℕ → Call
  releases : ℕ → ℤ → Call
  supersedes : ℕ → Call
  converges : ℤ → Call
  scans : ℤ → Call
  reaps : ℤ → Call
  accepts_at : ℕ → ℕ → ℤ → Call
  progresses : ℕ → Bytes → Call
  succeeds_at : ℕ → Bytes → ℤ → Call
  fails_at : ℕ → StatusCode → Bytes → ℤ → Call
  cancels_at : ℕ → ℤ → Call
  stops : ℤ → Call
  validates_by : Option (ℕ → ℕ → ℕ → String → Bool) → Call
  observes : Bool → Call

unfoldable pub step : Manager → Call → Manager
step m (creates conn provider caller origin resources lease epoch deadline now) =
    (create conn provider caller origin resources lease epoch deadline now m).0
step m (asks_cancel caller id now) = (cancel caller id now m).0
step m (subscribes caller id) = (subscribe caller id m).0
step m (unsubscribes handle) = remove_sub_locked handle m
step m (releases conn now) = release_by_conn conn now m
step m (supersedes epoch) = safety_supersede epoch m
step m (converges now) = on_wake now m
step m (scans now) = scan_deadlines now m
step m (reaps now) = reap_terminal now m
step m (accepts_at id epoch now) = (accept id epoch now m).0
step m (progresses id payload) = (progress id payload m).0
step m (succeeds_at id result now) = (succeed id result now m).0
step m (fails_at id code detail now) = (fail id code detail now m).0
step m (cancels_at id now) = (cancelled_by id now m).0
step m (stops now) = stop now m
step m (validates_by v) = set_lease_validator v m
step m (observes b) = set_event_observer b m

unfoldable pub run : List Call → Manager → Manager
run [] m = m
run (c ∷ cs) m = run cs (step m c)

-- Gone from the map after it ended, or moved at most one step.
abbrev pub Followed : ℕ → Operation → Manager → Type 0
Followed id op m = ((find_op id m.ops ≡ none) × (terminal op.state ≡ true)) ⊎ Kept id op m

same-Kept :
    (id : ℕ) (op : Operation) (m m' : Manager)
    → m'.ops ≡ m.ops
    → find_op id m.ops ≡ some op
    → Kept id op m'
same-Kept id op m m' e found = (op, ap (find_op id) e ∙ found, stays refl)

pub create-Kept :
    (conn provider : ℕ) (caller : String) (origin : OriginBinding) (resources : List String)
    (lease epoch : ℕ) (deadline now : ℤ) (id : ℕ) (op : Operation) (m : Manager)
    → id ≤ m.next_id
    → suc m.next_id < word
    → find_op id m.ops ≡ some op
    → Kept id op (create conn provider caller origin resources lease epoch deadline now m).0
unfolding create record_rejected record_op
create-Kept conn provider caller origin resources lease epoch deadline now id op m old small found =
    let code = validate_create m conn resources lease epoch deadline now in
    let new =
      fresh_operation ((m.next_id + 1) % word) conn provider caller origin resources lease epoch
        deadline now in
    elim (Bool-cases (not (is_ok code))) [
      | inl bad ↦ rw (bad, create) (op, found, stays refl)
      | inr good ↦ elim (Bool-cases (m.stopping)) [
        | inl gone ↦ rw (good, gone, create) (op, found, stays refl)
        | inr here ↦
            rw (good, here, create) (op, find_op-put_op id new m.ops ∙ ground arith, stays refl)
      ]
    ]

pub get_find :
    (caller : String) (id : ℕ) (m : Manager) (op : Operation)
    → get caller id m ≡ some op
    → find_op id m.ops ≡ some op
unfolding get
get_find caller id m op h = ground arith

-- The entry under its own id.
pub at_own_id :
    (id : ℕ) (op : Operation) (m : Manager)
    → find_op id m.ops ≡ some op
    → find_op op.id m.ops ≡ some op
at_own_id id op m found = ap (λ (n : ℕ). find_op n m.ops) (find_op-id id m.ops op found) ∙ found

pub cancel-Kept :
    (caller : String) (k : ℕ) (now : ℤ) (id : ℕ) (op : Operation) (m : Manager)
    → find_op id m.ops ≡ some op
    → Kept id op (cancel caller k now m).0
unfolding cancel record_op
cancel-Kept caller k now id op m found = elim (Option-cases (get caller k m)) [
  | inl hidden ↦ rw (hidden, cancel) (op, found, stays refl)
  | inr (o, seen) ↦ elim (Bool-cases (terminal o.state)) [
    | inl end ↦ rw (seen, end, cancel) (op, found, stays refl)
    | inr live ↦ elim (Bool-cases (same_state o.state cancel_requested)) [
      | inl asked ↦ rw (seen, live, asked, cancel) (op, found, stays refl)
      | inr other ↦ elim (Bool-cases (can_transition o.state cancel_requested)) [
        | inl allowed ↦
            rw (seen, live, other, allowed, cancel)
              (transition_locked-Kept id op o cancel_requested now m allowed found
                (at_own_id k o m (get_find caller k m o seen)))
        | inr refused ↦ rw (seen, live, other, refused, cancel) (op, found, stays refl)
      ]
    ]
  ]
]
