-- ===== src/Subscription/Scoped.antt =====
-- subscription.go: `CloseScope` and `CloseProviderEndpoint` in a registry whose maps agree.
use nervud.Base.{
  map-same, ℕ, ◌≡◌, refl, ap, sym, subst, ◌∙◌, Bool, true, false, not, ◌&&◌, ◌||◌, List, [], ◌∷◌,
  ◌==◌, arith, map, All, All-imp, All-both, map-map, map-cong, Bool-cases, inl, inr,
}
use nervud.Subscription.Registry.{
  Key, Subscription, Registry, names, unlist, Closed, unlist_all, drop_key, closed_of, close_keys,
  Reason,
}
use nervud.Subscription.Index.{IsOne, IsIndexed, gone_if}

-- A reported subscription bears the subscription's handle.
abbrev pub reports : List Closed → Subscription → Bool
reports [] s = false
reports (c ∷ cs) s =
    let later = reports cs s in (c.conn == s.conn && c.subscription_id == s.id) || later

unlist_by : List Closed → Subscription → Subscription
unlist_by [] s = s
unlist_by (c ∷ cs) s = unlist_by cs (unlist c.conn c.subscription_id s)

unlist_all-map :
    (cs : List Closed) (subs : List Subscription) → unlist_all cs subs ≡ map (unlist_by cs) subs
unfolding unlist_all unlist_by
unlist_all-map [] subs = sym (map-same (λ s. s) subs (same subs))
  where
    same : (xs : List Subscription) → All (λ s. s ≡ s) xs
    same [] = tt
    same (x ∷ xs) = (refl, same xs)
unlist_all-map (c ∷ cs) subs =
    unlist_all-map cs (map (unlist c.conn c.subscription_id) subs)
    ∙ map-map (unlist_by cs) (unlist c.conn c.subscription_id) subs

abbrev listed_as : Subscription → Bool → Subscription
listed_as s b = record s { in_conn = b }

unlist_by_lem :
    (cs : List Closed) (s : Subscription)
    → unlist_by cs s ≡ listed_as s (s.in_conn && not (reports cs s))
unfolding unlist_by
unlist_by_lem [] s = ground arith
unlist_by_lem (c ∷ cs) s = elim (Bool-cases (names c.conn c.subscription_id s)) [
  | inl e ↦ ground (arith, e, unlist_by_lem cs (listed_as s false))
  | inr e ↦ ground (arith, e, unlist_by_lem cs s)
]

-- What is under a selected key is reported.
reported :
    (aims : Key → Bool) (why : Reason) (subs : List Subscription)
    → All (λ s. (s.in_key && aims s.key) ≡ true → reports (closed_of aims why subs) s ≡ true) subs
unfolding closed_of
reported aims why [] = tt
reported aims why (x ∷ subs) = elim (Bool-cases (x.in_key && aims x.key)) [
  | inl e ↦ (
    λ h. ground (arith, e),
    All-imp (λ s. (s.in_key && aims s.key) ≡ true → reports (closed_of aims why subs) s ≡ true)
        (λ s. (s.in_key && aims s.key) ≡ true → reports (closed_of aims why (x ∷ subs)) s ≡ true)
        subs (λ s hs h. ground (arith, e, hs h)) (reported aims why subs),
  )
  | inr e ↦ (
    λ h. ground (arith, e, h),
    All-imp (λ s. (s.in_key && aims s.key) ≡ true → reports (closed_of aims why subs) s ≡ true)
        (λ s. (s.in_key && aims s.key) ≡ true → reports (closed_of aims why (x ∷ subs)) s ≡ true)
        subs (λ s hs h. ground (arith, e, hs h)) (reported aims why subs),
  )
]

-- Only that is reported.
reports_why :
    (P : Subscription → Type 0) (aims : Key → Bool) (why : Reason) (subs : List Subscription)
    (s : Subscription)
    → All P subs
    → reports (closed_of aims why subs) s ≡ true
    → (t : Subscription) × P t
      × (t.in_key ≡ true)
      × (aims t.key ≡ true)
      × (t.conn ≡ s.conn)
      × (t.id ≡ s.id)
unfolding closed_of
reports_why P aims why [] s h e = ground (arith, e)
reports_why P aims why (x ∷ subs) s h e = elim (Bool-cases (x.in_key && aims x.key)) [
  | inr ex ↦ reports_why P aims why subs s h.1 (ground (arith, e, ex))
  | inl ex ↦ elim (Bool-cases (x.conn == s.conn && x.id == s.id)) [
    | inl es ↦
        (x, h.0, ground (arith, ex), ground (arith, ex), ground (arith, es), ground (arith, es))
    | inr es ↦ reports_why P aims why subs s h.1 (ground (arith, e, ex, es))
  ]
]

dropped_by :
    (aims : Key → Bool) (cs : List Closed) (s : Subscription)
    → s.in_key ≡ s.in_conn
    → ((s.in_key && aims s.key) ≡ true → reports cs s ≡ true)
    → (s.in_conn ≡ true → reports cs s ≡ true → aims s.key ≡ true)
    → drop_key aims (unlist_by cs s) ≡ gone_if (λ t. aims t.key) s
dropped_by aims cs s same hit only = ap (drop_key aims) (unlist_by_lem cs s) ∙ go (aims s.key) refl
  where
    go :
        (b : Bool)
        → aims s.key ≡ b
        → drop_key aims (listed_as s (s.in_conn && not (reports cs s)))
          ≡ gone_if (λ t. aims t.key) s
    go true e =
        let out : (s.in_conn && not (reports cs s)) ≡ false = ground (arith, e, same, hit) in
        ground (arith, e, out)
    go false e =
        let in' : (s.in_conn && not (reports cs s)) ≡ s.in_conn = ground (arith, e, same, only) in
        ground (arith, e, in')

only_aimed :
    (aims : Key → Bool) (why : Reason) (subs : List Subscription) (s : Subscription)
    → All (IsOne s) subs
    → All (λ t. t.in_key ≡ t.in_conn) subs
    → s.in_conn ≡ true
    → reports (closed_of aims why subs) s ≡ true
    → aims s.key ≡ true
only_aimed aims why subs s one same c e =
    let (t, ht, k, a, ec, ei) =
      reports_why (λ t. IsOne s t × (t.in_key ≡ t.in_conn)) aims why subs s
        (All-both (IsOne s) (λ t. t.in_key ≡ t.in_conn) subs one same) e in
    subst (λ x. aims x.key ≡ true) (sym (ht.0.1 c (sym ht.1 ∙ k) (sym ec) (sym ei))) a

-- The loop of `CloseScope` and `CloseProviderEndpoint` takes the subscriptions under the selected
-- keys out of both maps, and changes no other.
pub close_keys_exact :
    (n : ℕ) (aims : Key → Bool) (why : Reason) (r : Registry)
    → IsIndexed n r
    → (close_keys aims why r).0 ≡ record r { subs = map (gone_if (λ s. aims s.key)) r.subs }
unfolding close_keys
close_keys_exact n aims why r h =
    let cs = closed_of aims why r.subs in
    ap (λ l. record r { subs = l })
      (ap (map (drop_key aims)) (unlist_all-map cs r.subs)
        ∙ map-map (drop_key aims) (unlist_by cs) r.subs
        ∙ map-cong (λ s. drop_key aims (unlist_by cs s)) (gone_if (λ s. aims s.key)) r.subs
            (All-imp
              (λ s.
                ((s.in_key ≡ s.in_conn) × All (IsOne s) r.subs)
                × ((s.in_key && aims s.key) ≡ true → reports cs s ≡ true))
              (λ s. drop_key aims (unlist_by cs s) ≡ gone_if (λ t. aims t.key) s) r.subs
              (λ s hs.
                dropped_by aims cs s hs.0.0 hs.1 (only_aimed aims why r.subs s hs.0.1 h.agree))
              (All-both (λ s. (s.in_key ≡ s.in_conn) × All (IsOne s) r.subs)
                (λ s. (s.in_key && aims s.key) ≡ true → reports cs s ≡ true) r.subs
                (All-both (λ s. s.in_key ≡ s.in_conn) (λ s. All (IsOne s) r.subs) r.subs h.agree
                  h.apart)
                (reported aims why r.subs))))
