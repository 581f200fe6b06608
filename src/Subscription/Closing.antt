-- ===== src/Subscription/Closing.antt =====
-- subscription.go: what a call takes out of the two maps, in a registry whose maps agree.
use nervud.Base.{
  map-same, ℕ, ◌≡◌, ap, sym, subst, ◌∙◌, true, none, some, List, [], ◌∷◌, ◌==◌, arith, map, All,
  All-imp, All-both, map-map, map-cong, Bool-cases, Option-cases, inl, inr,
}
use nervud.Subscription.Registry.{
  Subscription, Registry, unsubscribe, find_named, names, unlist, unkey, remove_from_key_locked,
}
use nervud.Subscription.Index.{IsOne, IsIndexed, gone_if}

find_named-All :
    (P : Subscription → Type 0) (conn id : ℕ) (subs : List Subscription) (s : Subscription)
    → All P subs
    → find_named conn id subs ≡ some s
    → P s × (names conn id s ≡ true)
unfolding find_named
find_named-All P conn id [] s h e = cc
find_named-All P conn id (x ∷ subs) s h e = elim (Bool-cases (names conn id x)) [
  | inl en ↦
      let same : x ≡ s = ground (arith, e, en) in
      (subst P same h.0, subst (λ y. names conn id y ≡ true) same en)
  | inr en ↦ find_named-All P conn id subs s h.1 (ground (arith, e, en))
]

unsubscribed :
    (conn id : ℕ) (s t : Subscription)
    → names conn id s ≡ true
    → IsOne s t
    → t.in_key ≡ t.in_conn
    → unkey s.pointer (unlist conn id t) ≡ gone_if (names conn id) t
unsubscribed conn id s t hs one same = elim (Bool-cases (names conn id t)) [
  | inl e ↦
      let eq : s ≡ t =
        one.1 (ground (arith, hs)) (ground (arith, e)) (ground (arith, hs, e))
          (ground (arith, hs, e)) in
      let at : t.pointer ≡ s.pointer = ap (λ x. x.pointer) (sym eq) in ground (arith, e, at)
  | inr e ↦ elim (Bool-cases (t.pointer == s.pointer)) [
    | inl ep ↦
        let eq : s ≡ t = one.0 (ground (arith, ep)) in
        let no : names conn id t ≡ true = subst (λ y. names conn id y ≡ true) eq hs in
        ground (arith, no, e)
    | inr ep ↦ ground (arith, e, ep)
  ]
]

find_named-none :
    (conn id : ℕ) (subs : List Subscription)
    → find_named conn id subs ≡ none
    → All (λ s. gone_if (names conn id) s ≡ s) subs
unfolding find_named
find_named-none conn id [] e = tt
find_named-none conn id (x ∷ subs) e = elim (Bool-cases (names conn id x)) [
  | inl en ↦ ground (arith, e, en)
  | inr en ↦ (ground (arith, en), find_named-none conn id subs (ground (arith, e, en)))
]

-- `Unsubscribe` takes the subscription that the connection names by the handle out of both maps,
-- and no other; without one it changes nothing.
pub unsubscribe_exact :
    (n conn id : ℕ) (r : Registry)
    → IsIndexed n r
    → (unsubscribe conn id r).0 ≡ record r { subs = map (gone_if (names conn id)) r.subs }
unfolding unsubscribe remove_from_key_locked
unsubscribe_exact n conn id r h = elim (Option-cases (find_named conn id r.subs)) [
  | inl e ↦
      rw (e, unsubscribe)
        (ap (λ l. record r { subs = l })
          (sym (map-same (gone_if (names conn id)) r.subs (find_named-none conn id r.subs e))))
  | inr (s, e) ↦
      let (one, named) = find_named-All (λ x. All (IsOne x) r.subs) conn id r.subs s h.apart e in
      rw (e, unsubscribe)
        (ap (λ l. record r { subs = l })
          (map-map (unkey s.pointer) (unlist conn id) r.subs
            ∙ map-cong (λ t. unkey s.pointer (unlist conn id t)) (gone_if (names conn id)) r.subs
                (All-imp (λ t. IsOne s t × (t.in_key ≡ t.in_conn))
                  (λ t. unkey s.pointer (unlist conn id t) ≡ gone_if (names conn id) t) r.subs
                  (λ t ht. unsubscribed conn id s t named ht.0 ht.1)
                  (All-both (IsOne s) (λ t. t.in_key ≡ t.in_conn) r.subs one h.agree))))
]
