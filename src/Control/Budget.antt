-- ===== src/Control/Budget.antt =====
-- slot.go and policy.go: what a request gets.
use nervud.Base.{◌<◌, ◌≡◌, ◌≢◌, true, false, arith, ◌⊎◌, ◌&&◌, if◌then◌else◌, eq_iff}
use nervud.Base.Int.{ℤ, pos, pos_part, ltb_ℤ, min_ℤ, ◌≤ℤ◌}
use nervud.Control.Policy.{
  Class, class_valid, ClassPolicy, Policy, IsSound, ok, resolve, is_zero, for_class,
}
use nervud.Control.Types.{Module, Request}
use nervud.Control.Acquire.{requested_budget, resolve_request}

-- The time budget that a class allows.
pub record IsWithin (c : ClassPolicy) (ttl deadman : ℤ) : Type 0 where
  pub ttl_positive : 0 < pos_part ttl
  pub ttl_bounded : ttl ≤ℤ c.ttl
  pub deadman_nonneg : pos 0 ≤ℤ deadman
  pub deadman_fits : deadman ≤ℤ ttl
  pub deadman_bounded : 0 < pos_part c.deadman → deadman ≤ℤ c.deadman
  pub deadman_there : c.require_deadman ≡ true → 0 < pos_part deadman

resolve-IsWithin :
    (c : ClassPolicy) (t d : ℤ) {ttl deadman : ℤ}
    → IsSound c
    → resolve c t d ≡ ok (ttl, deadman)
    → IsWithin c ttl deadman
unfolding resolve
resolve-IsWithin c t d v h = ground arith

requested_budget-IsWithin :
    (c : ClassPolicy) (req : Request) {ttl deadman : ℤ}
    → IsSound c
    → requested_budget c req ≡ ok (ttl, deadman)
    → IsWithin c ttl deadman
unfolding requested_budget
requested_budget-IsWithin c req {ttl} {deadman} v h =
    let t = min_ℤ req.requested_ttl c.ttl in
    let d = if is_zero req.deadman && ltb_ℤ t c.deadman then t else req.deadman in
    ground (arith, resolve-IsWithin c t d {ttl = ttl} {deadman = deadman} v)

for_class-IsSound :
    (p : Policy) (c : Class) → IsSound p.human → IsSound p.ai → IsSound (for_class p c)
unfolding for_class
for_class-IsSound p c h a = ground arith

-- Under a sound policy, a request that passes gets a positive ttl within its class's limit, and a
-- deadman that fits in it, is within the class's limit where there is one, and is there where the
-- class requires one. Whatever it asked for, it gets no looser budget.
pub resolve_request-IsWithin :
    (m : Module) (req : Request) {ttl deadman : ℤ}
    → IsSound m.policy.human
    → IsSound m.policy.ai
    → resolve_request m req ≡ ok (ttl, deadman)
    → IsWithin (for_class m.policy req.class) ttl deadman
unfolding resolve_request
resolve_request-IsWithin m req {ttl} {deadman} h a e =
    let c = for_class m.policy req.class in
    let v = for_class-IsSound m.policy req.class h a in
    ground (
      arith,
      requested_budget-IsWithin c req {ttl = ttl} {deadman = deadman} v,
      resolve-IsWithin c req.ttl req.deadman {ttl = ttl} {deadman = deadman} v,
    )

-- A malformed request is refused: one without a connection, a class, a resource or a generation, or
-- one that gives both a strict and a preferred ttl.
pub resolve_request_malformed :
    (m : Module) (req : Request)
    → (req.conn ≡ 0)
      ⊎ (class_valid req.class ≡ false)
      ⊎ (req.resource ≡ "")
      ⊎ (req.generation ≡ 0)
      ⊎ ((ltb_ℤ (pos 0) req.requested_ttl ≡ true) × (is_zero req.ttl ≡ false))
    → (b : ℤ × ℤ) → resolve_request m req ≢ ok b
unfolding resolve_request requested_budget
resolve_request_malformed m req h b e = ground (arith, eq_iff req.resource "")
