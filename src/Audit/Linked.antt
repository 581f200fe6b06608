-- ===== src/Audit/Linked.antt =====
-- chain.go: what `VerifyChain` accepts, and what it detects.
use nervud.Base.{
  ◌≢◌, ℕ, zero, suc, ◌+◌, ◌%◌, ◌<◌, String, ◌≡◌, refl, ap, sym, ◌∙◌, subst, ◌++◌, ◌↔◌, Option, none,
  some, List, [], ◌∷◌, eq_iff, eq_refl, arith, length, Option-cases, inl, inr,
}
use nervud.Base.Int.{ℤ, eq_ℤ_iff}
use nervud.Audit.Chain.{
  Event, Record, HashInput, hash_input, chain_version, Fault, sound, broken, word, compute_hash,
  new_record, unsigned_record, fault_of, verify_from, verify_chain,
}

-- The first records of a list, at most the given number.
abbrev pub take {ℓ} : {A : Type ℓ} → ℕ → List A → List A
take zero xs = []
take (suc n) [] = []
take (suc n) (x ∷ xs) = x ∷ take n xs

-- The hash that the record after a chain must name.
abbrev pub last_hash : String → List Record → String
last_hash prev [] = prev
last_hash prev (r ∷ rest) = last_hash r.hash rest

abbrev rebuilt : HashInput → String → Record
rebuilt i h = record {
  v = i.v;
  seq = i.seq;
  prev = i.prev;
  time_unix_nanos = i.time_unix_nanos;
  action = i.action;
  subject = i.subject;
  denied = i.denied;
  err = i.err;
  detail = i.detail;
  hash = h;
}

module _ (sum : HashInput → Option String) where
  -- One record that continues a chain.
  abbrev pub Links : Record → String → ℕ → Type 0
  Links r prev seq =
      (r.v ≡ chain_version) × (r.seq ≡ seq) × (r.prev ≡ prev) × (sum (hash_input r) ≡ some r.hash)

  abbrev pub IsChain : List Record → String → ℕ → Type 0
  IsChain [] prev seq = Unit
  IsChain (r ∷ rest) prev seq = Links r prev seq × IsChain rest r.hash ((seq + 1) % word)

  fault_of_linked :
      (r : Record) (prev : String) (seq : ℕ) → Links r prev seq → fault_of sum r prev seq ≡ none
  unfolding fault_of compute_hash
  fault_of_linked r prev seq (hv, hs, hp, hh) =
      ground
        (arith, (eq_ℤ_iff r.v chain_version).1 hv, (eq_iff r.prev prev).1 hp, hh, eq_refl r.hash)

  fault_of_sound :
      (r : Record) (prev : String) (seq : ℕ) → fault_of sum r prev seq ≡ none → Links r prev seq
  unfolding fault_of compute_hash
  fault_of_sound r prev seq h = elim (Option-cases (sum (hash_input r))) [
    | inl e ↦ ground (arith, e)
    | inr (want, e) ↦
        ground
          (arith, e, (eq_ℤ_iff r.v chain_version).0, (eq_iff r.prev prev).0, (eq_iff want r.hash).0)
  ]

  verify_from_linked :
      (i : ℕ) (rs : List Record) (prev : String) (seq : ℕ)
      → IsChain rs prev seq
      → verify_from sum i rs prev seq ≡ sound
  unfolding verify_from
  verify_from_linked i [] prev seq h = refl
  verify_from_linked i (r ∷ rest) prev seq h = ground (
    arith,
    fault_of_linked r prev seq h.0,
    verify_from_linked (suc i) rest r.hash ((seq + 1) % word) h.1,
  )

  verify_from_sound :
      (i : ℕ) (rs : List Record) (prev : String) (seq : ℕ)
      → verify_from sum i rs prev seq ≡ sound
      → IsChain rs prev seq
  unfolding verify_from
  verify_from_sound i [] prev seq h = tt
  verify_from_sound i (r ∷ rest) prev seq h = elim (Option-cases (fault_of sum r prev seq)) [
    | inl e ↦ (
      fault_of_sound r prev seq e,
      verify_from_sound (suc i) rest r.hash ((seq + 1) % word) (ground (arith, e, h)),
    )
    | inr (f, e) ↦ ground (arith, e, h)
  ]

  -- What a verdict says of the records before the one that it names.
  verify_from_broken :
      (i : ℕ) (rs : List Record) (prev : String) (seq k : ℕ) (f : Fault)
      → verify_from sum i rs prev seq ≡ broken k f
      → (j : ℕ) × (k ≡ i + j)
        × (j < length rs)
        × IsChain (take j rs) prev seq
        × (verify_from sum i (take (suc j) rs) prev seq ≡ broken k f)
  unfolding verify_from
  verify_from_broken i [] prev seq k f h = cc
  verify_from_broken i (r ∷ rest) prev seq k f h = elim (Option-cases (fault_of sum r prev seq)) [
    | inl e ↦
        let (j, at, small, before, there) =
          verify_from_broken (suc i) rest r.hash ((seq + 1) % word) k f (ground (arith, e, h)) in
        (
          suc j,
          omega (arith, at),
          omega (arith, small),
          (fault_of_sound r prev seq e, before),
          rw (e, verify_from) there,
        )
    | inr (g, e) ↦ (0, ground (arith, e, h), omega arith, tt, ground (arith, e, h))
  ]

  -- `VerifyChain` reports no error exactly for the records of a chain: each of the known version,
  -- with the next sequence number, with the hash of the record before it, and with its own hash.
  pub verify_chain_sound :
      (rs : List Record) (prev : String) (seq : ℕ)
      → (verify_chain sum rs prev seq ≡ sound) ↔ IsChain rs prev seq
  unfolding verify_chain
  verify_chain_sound rs prev seq =
      (verify_from_sound 0 rs prev seq, verify_from_linked 0 rs prev seq)

  -- When `VerifyChain` reports an error at an index, the index is one of a record, the records
  -- before it are a chain, and the check of the records up to it and no further reports the same.
  pub verify_chain_broken :
      (rs : List Record) (prev : String) (seq k : ℕ) (f : Fault)
      → verify_chain sum rs prev seq ≡ broken k f
      → (k < length rs)
        × (verify_chain sum (take k rs) prev seq ≡ sound)
        × (verify_chain sum (take (suc k) rs) prev seq ≡ broken k f)
  unfolding verify_chain
  verify_chain_broken rs prev seq k f h =
      let (j, at, small, before, there) = verify_from_broken 0 rs prev seq k f h in
      let same : j ≡ k = omega (arith, at) in
      subst
        (λ q.
          (q < length rs)
          × (verify_from sum 0 (take q rs) prev seq ≡ sound)
          × (verify_from sum 0 (take (suc q) rs) prev seq ≡ broken k f))
        same (small, verify_from_linked 0 (take j rs) prev seq before, there)

  pub Links-new_record :
      (seq : ℕ) (prev : String) (at : ℤ) (ev : Event) (r : Record)
      → new_record sum seq prev at ev ≡ some r
      → Links r prev seq
  unfolding new_record compute_hash
  Links-new_record seq prev at ev r h =
      elim (Option-cases (sum (hash_input (unsigned_record sum seq prev at ev)))) [
        | inl e ↦ ground (arith, e, h)
        | inr (want, e) ↦ ground (arith, e, h)
      ]

  pub IsChain-append :
      (rs : List Record) (r : Record) (prev : String) (seq : ℕ)
      → seq < word
      → IsChain rs prev seq
      → Links r (last_hash prev rs) ((seq + length rs) % word)
      → IsChain (rs ++ r ∷ []) prev seq
  IsChain-append [] r prev seq small h hr = (subst (λ k. Links r prev k) (omega arith) hr, tt)
  IsChain-append (x ∷ rs) r prev seq small h hr = (
    h.0,
    IsChain-append rs r x.hash ((seq + 1) % word) (omega arith) h.1
        (subst (λ k. Links r (last_hash x.hash rs) k) (omega arith) hr),
  )

  same_record : (x y : Record) → hash_input x ≡ hash_input y → x.hash ≡ y.hash → x ≡ y
  same_record x y e eh = ap (λ i. rebuilt i x.hash) e ∙ ap (λ h. rebuilt (hash_input y) h) eh

  -- Two chains of the same length from the same start that end in the same hash are the same
  -- records, when no two inputs have one hash.
  chain_by_last :
      (xs ys : List Record) (prev : String) (seq : ℕ) (prev' : String)
      → ((a b : HashInput) (h : String) → sum a ≡ some h → sum b ≡ some h → a ≡ b)
      → IsChain xs prev seq
      → IsChain ys prev' seq
      → length xs ≡ length ys
      → last_hash prev xs ≡ last_hash prev' ys
      → (xs ≡ ys) × (prev ≡ prev')
  chain_by_last [] [] prev seq prev' inj hx hy n e = (refl, e)
  chain_by_last [] (y ∷ ys) prev seq prev' inj hx hy n e = ground (arith, n)
  chain_by_last (x ∷ xs) [] prev seq prev' inj hx hy n e = ground (arith, n)
  chain_by_last (x ∷ xs) (y ∷ ys) prev seq prev' inj hx hy n e =
      let (rest, same) =
        chain_by_last xs ys x.hash ((seq + 1) % word) y.hash inj hx.1 hy.1 (omega (arith, n)) e in
      let hashed : hash_input x ≡ hash_input y =
        inj (hash_input x) (hash_input y) x.hash hx.0.3 (hy.0.3 ∙ ap some (sym same)) in
      let first : x ≡ y = same_record x y hashed same in
      (cc, sym hx.0.2 ∙ ap (λ i. i.prev) hashed ∙ hy.0.2)

  -- The last of some records was hashed with a number that is as far on as there are records.
  last_hashed :
      (x : Record) (xs : List Record) (prev : String) (seq : ℕ)
      → IsChain (x ∷ xs) prev seq
      → (i : HashInput) × (sum i ≡ some (last_hash prev (x ∷ xs)))
        × (i.seq % word ≡ (seq + length xs) % word)
  last_hashed x [] prev seq h = (hash_input x, h.0.3, ground (arith, h.0))
  last_hashed x (y ∷ ys) prev seq h =
      let (i, made, at) = last_hashed y ys x.hash ((seq + 1) % word) h.1 in
      (i, made, omega (arith, at))

  -- When no two inputs have one hash, two segments, of at least one record and of fewer than 2^64
  -- each, that `VerifyChain` accepts from the same start, and whose last records have the same hash,
  -- are the same records: a record that was changed, removed, inserted or moved changes the last
  -- hash or is reported.
  pub verify_chain_tamper :
      (xs ys : List Record) (prev : String) (seq : ℕ)
      → ((a b : HashInput) (h : String) → sum a ≡ some h → sum b ≡ some h → a ≡ b)
      → xs ≢ []
      → ys ≢ []
      → length xs < word
      → length ys < word
      → verify_chain sum xs prev seq ≡ sound
      → verify_chain sum ys prev seq ≡ sound
      → last_hash prev xs ≡ last_hash prev ys
      → xs ≡ ys
  verify_chain_tamper [] ys prev seq inj nx ny lx ly hx hy e = absurd (nx refl)
  verify_chain_tamper (x ∷ xs) [] prev seq inj nx ny lx ly hx hy e = absurd (ny refl)
  verify_chain_tamper (x ∷ xs) (y ∷ ys) prev seq inj nx ny lx ly hx hy e =
      let cx = (verify_chain_sound (x ∷ xs) prev seq).0 hx in
      let cy = (verify_chain_sound (y ∷ ys) prev seq).0 hy in
      let (i, made, at) = last_hashed x xs prev seq cx in
      let (j, made', at') = last_hashed y ys prev seq cy in
      let same : i.seq ≡ j.seq =
        ap (λ a. a.seq) (inj i j (last_hash prev (x ∷ xs)) made (made' ∙ ap some (sym e))) in
      let level : length xs ≡ length ys = omega (arith, at, at', same, lx, ly) in
      (chain_by_last (x ∷ xs) (y ∷ ys) prev seq prev inj cx cy (omega (arith, level)) e).0
