-- ===== src/Control/Policy.antt =====
-- class.go and policy.go: the controller classes, the preemption matrix, and the time budgets that
-- a request is resolved against.
use nervud.Base.{
  ℕ, ◌<◌, ◌≡◌, refl, ◌⊎◌, inl, inr, Bool, true, false, ◌+◌, ◌==◌, ◌&&◌, ◌||◌, Option, none, some,
  arith, if◌then◌else◌, leb,
}
use nervud.Base.Int.{ℤ, pos, pos_part, neg_part, ltb_ℤ, ◌≤ℤ◌}

-- A uint8; `other n` is a value that no constant names.
pub data Class : Type 0 where
  unspecified human ai : Class
  other : ℕ → Class

unfoldable pub class_valid : Class → Bool
class_valid human = true
class_valid ai = true
class_valid _ = false

unfoldable pub is_human : Class → Bool
is_human human = true
is_human _ = false

unfoldable pub same_class : Class → Class → Bool
same_class unspecified unspecified = true
same_class human human = true
same_class ai ai = true
same_class (other m) (other n) = m == n
same_class _ _ = false

unfoldable pub can_preempt : Class → Class → Bool
can_preempt human ai = true
can_preempt _ _ = false

-- errors.go: every reason for a refusal, and the causes that only the audit log names.
pub data Cause : Type 0 where
  control_not_held lease_expired deadman_expired held_by_human held_by_ai : Cause
  safety_latched stale_epoch unknown_resource resource_capacity : Cause
  invalid_request policy_violation shutting_down : Cause
  connection_closed safety_revoked resource_revoked package_revoked : Cause

pub data Result {ℓ} (A : Type ℓ) : Type ℓ where
  ok : A → Result A
  err : Cause → Result A

pub Result-cases {ℓ} :
    {A : Type ℓ} (r : Result A) → ((c : Cause) × (r ≡ err c)) ⊎ ((a : A) × (r ≡ ok a))
Result-cases (ok a) = inr (a, refl)
Result-cases (err c) = inl (c, refl)

pub record ClassPolicy : Type 0 where
  pub ttl : ℤ
  pub deadman : ℤ
  pub require_deadman : Bool

pub record Policy : Type 0 where
  pub human : ClassPolicy
  pub ai : ClassPolicy

abbrev pub default_policy : Policy
default_policy = record {
  human = record { ttl = pos 2000000000; deadman = pos 300000000; require_deadman = true };
  ai = record { ttl = pos 1000000000; deadman = pos 0; require_deadman = false };
}

pub data PolicyError : Type 0 where
  ttl_not_positive deadman_negative deadman_missing deadman_over_ttl : PolicyError

-- `none` is a budget that passes.
unfoldable pub validate_class : ClassPolicy → Option PolicyError
validate_class c =
    if leb (pos_part c.ttl) 0
    then some ttl_not_positive
    else if ltb_ℤ c.deadman (pos 0)
    then some deadman_negative
    else if c.require_deadman && leb (pos_part c.deadman) 0
    then some deadman_missing
    else if ltb_ℤ c.ttl c.deadman
    then some deadman_over_ttl
    else none

unfoldable pub validate : Policy → Option PolicyError
validate p = elim (validate_class p.human) [ some e ↦ some e | none ↦ validate_class p.ai ]

unfoldable pub for_class : Policy → Class → ClassPolicy
for_class p c = if is_human c then p.human else p.ai

abbrev pub is_zero : ℤ → Bool
is_zero d = leb (pos_part d + neg_part d) 0

-- The ttl and the deadman that a request gets, from those that it asks for; 0 asks for the policy's.
unfoldable pub resolve : ClassPolicy → ℤ → ℤ → Result (ℤ × ℤ)
resolve c ttl0 deadman0 =
    let ttl = if is_zero ttl0 then c.ttl else ttl0 in
    let deadman = if is_zero deadman0 then c.deadman else deadman0 in
    if ltb_ℤ ttl0 (pos 0) || ltb_ℤ deadman0 (pos 0)
    then err invalid_request
    else if ltb_ℤ c.ttl ttl
    then err policy_violation
    else if ltb_ℤ (pos 0) c.deadman && ltb_ℤ c.deadman deadman
    then err policy_violation
    else if c.require_deadman && leb (pos_part deadman) 0
    then err policy_violation
    else if ltb_ℤ ttl deadman
    then err policy_violation
    else ok (ttl, deadman)

-- What `Validate` promises of one class: a positive ttl, and a deadman that is not negative, is
-- there where it is required, and does not outlast the ttl.
pub record IsSound (c : ClassPolicy) : Type 0 where
  pub ttl_positive : 0 < pos_part c.ttl
  pub deadman_nonneg : pos 0 ≤ℤ c.deadman
  pub deadman_fits : c.deadman ≤ℤ c.ttl
  pub deadman_there : c.require_deadman ≡ true → 0 < pos_part c.deadman

validate_class-IsSound : (c : ClassPolicy) → validate_class c ≡ none → IsSound c
unfolding validate_class
validate_class-IsSound c h = ground arith

-- A policy that passes `Validate` is sound for both classes.
pub validate-IsSound : (p : Policy) → validate p ≡ none → IsSound p.human × IsSound p.ai
unfolding validate
validate-IsSound p h = ground (arith, validate_class-IsSound p.human, validate_class-IsSound p.ai)
