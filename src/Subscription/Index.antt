-- ===== src/Subscription/Index.antt =====
-- subscription.go: the two maps hold the same subscriptions, each under a handle of its own.
use nervud.Base.{
  ℕ, ◌≤◌, ◌<◌, ◌≡◌, refl, ap, sym, subst, ◌∙◌, Bool, true, false, List, arith, map, All, All-imp,
  All-map, if◌then◌else◌,
}
use nervud.Subscription.Registry.{Subscription, Registry}

-- Two subscriptions with the same identity, or listed under the same handle, are the same one.
abbrev pub IsOne : Subscription → Subscription → Type 0
IsOne s t =
    (s.pointer ≡ t.pointer → s ≡ t)
    × (s.in_conn ≡ true → t.in_conn ≡ true → s.conn ≡ t.conn → s.id ≡ t.id → s ≡ t)

abbrev pub AreApart : List Subscription → Type 0
AreApart subs = All (λ s. All (IsOne s) subs) subs

-- A registry whose handles have not gone beyond `n`.
pub record IsIndexed (n : ℕ) (r : Registry) : Type 0 where
  pub agree : All (λ s. s.in_key ≡ s.in_conn) r.subs
  pub apart : AreApart r.subs
  pub older : All (λ s. s.pointer < r.allocated) r.subs
  pub issued : All (λ s. s.in_conn ≡ true → s.id ≤ r.next_id s.conn) r.subs
  pub few : (conn : ℕ) → r.next_id conn ≤ n

-- A change that keeps the identity, and lists nothing anew.
pub record Keeps (s t : Subscription) : Type 0 where
  pub pointer : t.pointer ≡ s.pointer
  pub id : t.id ≡ s.id
  pub conn : t.conn ≡ s.conn
  pub listed : t.in_conn ≡ true → s.in_conn ≡ true

pub map-AreApart :
    (f : Subscription → Subscription) (subs : List Subscription)
    → ((s : Subscription) → Keeps s (f s))
    → AreApart subs
    → AreApart (map f subs)
map-AreApart f subs k h =
    All-map (λ s. All (IsOne s) (map f subs)) f subs
      (All-imp (λ s. All (IsOne s) subs) (λ s. All (IsOne (f s)) (map f subs)) subs
        (λ s hs.
          All-map (IsOne (f s)) f subs
            (All-imp (IsOne s) (λ t. IsOne (f s) (f t)) subs (λ t one. moved s t one) hs))
        h)
  where
    moved : (s t : Subscription) → IsOne s t → IsOne (f s) (f t)
    moved s t one = (
      λ e. ap f (one.0 (sym (k s).pointer ∙ e ∙ (k t).pointer)),
      λ a b c d. ap f (
          one.1 ((k s).listed a) ((k t).listed b) (sym (k s).conn ∙ c ∙ (k t).conn)
            (sym (k s).id ∙ d ∙ (k t).id)),
    )

-- A call that changes each subscription by itself.
pub map-IsIndexed :
    (n : ℕ) (r : Registry) (f : Subscription → Subscription)
    → ((s : Subscription) → Keeps s (f s))
    → ((s : Subscription) → s.in_key ≡ s.in_conn → (f s).in_key ≡ (f s).in_conn)
    → IsIndexed n r
    → IsIndexed n (record r { subs = map f r.subs })
map-IsIndexed n r f k e h = record {
  agree =
      All-map (λ s. s.in_key ≡ s.in_conn) f r.subs
        (All-imp (λ s. s.in_key ≡ s.in_conn) (λ s. (f s).in_key ≡ (f s).in_conn) r.subs e h.agree);
  apart = map-AreApart f r.subs k h.apart;
  older =
      All-map (λ s. s.pointer < r.allocated) f r.subs
        (All-imp (λ s. s.pointer < r.allocated) (λ s. (f s).pointer < r.allocated) r.subs
          (λ s old. omega (arith, old, (k s).pointer)) h.older);
  issued =
      All-map (λ s. s.in_conn ≡ true → s.id ≤ r.next_id s.conn) f r.subs
        (All-imp (λ s. s.in_conn ≡ true → s.id ≤ r.next_id s.conn)
          (λ s. (f s).in_conn ≡ true → (f s).id ≤ r.next_id (f s).conn) r.subs
          (λ s old c.
            subst (λ q. (f s).id ≤ r.next_id q) (sym (k s).conn)
              (omega (arith, old ((k s).listed c), (k s).id)))
          h.issued);
  few = h.few;
}

-- Out of both maps.
abbrev pub gone : Subscription → Subscription
gone s = record s { in_key = false; in_conn = false }

abbrev pub gone_if : (Subscription → Bool) → Subscription → Subscription
gone_if p s = if p s then gone s else s

pub gone_if-Keeps : (p : Subscription → Bool) (s : Subscription) → Keeps s (gone_if p s)
gone_if-Keeps p s = go (p s)
  where
    go : (b : Bool) → Keeps s (if b then gone s else s)
    go true = record { pointer = refl; id = refl; conn = refl; listed = λ c. cc }
    go false = record { pointer = refl; id = refl; conn = refl; listed = λ c. c }

pub gone_if-IsIndexed :
    (n : ℕ) (r : Registry) (p : Subscription → Bool)
    → IsIndexed n r
    → IsIndexed n (record r { subs = map (gone_if p) r.subs })
gone_if-IsIndexed n r p h =
    map-IsIndexed n r (gone_if p) (gone_if-Keeps p) (λ s e. ground (arith, e)) h
