-- ===== src/Audit/Log.antt =====
-- file.go: what the recorder writes is one chain, over any calls and any answers of the system.
use nervud.Base.{
  ℕ, ◌+◌, ◌%◌, ◌<◌, String, ◌≡◌, refl, ap, sym, subst, ◌∙◌, ◌⊎◌, ◌==◌, ◌&&◌, Bool, if◌then◌else◌,
  not, ◌||◌, ltb, true, false, inl, inr, none, some, List, [], ◌∷◌, ◌++◌, arith, length,
  length-append, Bool-cases, Option-cases,
}
use nervud.Audit.Chain.{Event, Record, word, sound, new_record, verify_chain}
use nervud.Audit.Linked.{
  last_hash, Links, IsChain, Links-new_record, IsChain-append, verify_chain_sound,
}
use nervud.Audit.Recorder.{
  System, Recorder, asks, append, sync, sync_if_due, flush_gap, gap_event, rotated_event,
  closed_event, rotate_if_needed, write_record, record_event, take_next, write_all, stop,
}

last_hash-append :
    (prev : String) (rs : List Record) (r : Record) → last_hash prev (rs ++ r ∷ []) ≡ r.hash
last_hash-append prev [] r = refl
last_hash-append prev (x ∷ rs) r = last_hash-append x.hash rs r

-- The state after a start at a hash and a sequence number.
record IsAfter (sys : System) (prev : String) (seq : ℕ) (r : Recorder) : Type 0 where
  chain : IsChain sys.sum r.log prev ((seq + 1) % word)
  at : r.seq ≡ (seq + length r.log) % word
  last : r.prev ≡ last_hash prev r.log

module _ (sys : System) (prev : String) (seq : ℕ) where
  abbrev After : Recorder → Type 0
  After r = IsAfter sys prev seq r

  -- What does not touch the chain.
  keeps : (r s : Recorder) → s.log ≡ r.log → s.seq ≡ r.seq → s.prev ≡ r.prev → After r → After s
  keeps r s el es ep h = record {
    chain = subst (λ l. IsChain sys.sum l prev ((seq + 1) % word)) (sym el) h.chain;
    at = es ∙ h.at ∙ ap (λ l. (seq + length l) % word) (sym el);
    last = ep ∙ h.last ∙ ap (last_hash prev) (sym el);
  }

  abbrev wrote_whole : Record → Recorder → Bool
  wrote_whole rec r = elim (sys.encode rec) [ none ↦ false | some n ↦ sys.io (r.asked + 1) ]

  either : (b : Bool) (x y : Recorder) → After x → After y → After (if b then x else y)
  either true x y hx hy = hx
  either false x y hx hy = hy

  append-cases :
      (ev : Event) (r : Recorder)
      → ((append sys ev r).log ≡ r.log)
          × ((append sys ev r).seq ≡ r.seq)
          × ((append sys ev r).prev ≡ r.prev)
        ⊎ (rec : Record) × (new_record sys.sum ((r.seq + 1) % word) r.prev (sys.clock r.asked) ev
            ≡ some rec)
          × ((append sys ev r).log ≡ r.log ++ rec ∷ [])
          × ((append sys ev r).seq ≡ rec.seq)
          × ((append sys ev r).prev ≡ rec.hash)
  unfolding append
  append-cases ev r =
      elim (Option-cases (new_record sys.sum ((r.seq + 1) % word) r.prev (sys.clock r.asked) ev)) [
        | inl en ↦ inl (ground (arith, en), ground (arith, en), ground (arith, en))
        | inr (rec, en) ↦ elim (Bool-cases (r.file && wrote_whole rec r)) [
          | inl e ↦
              inr (rec, en, ground (arith, en, e), ground (arith, en, e), ground (arith, en, e))
          | inr e ↦ inl (ground (arith, en, e), ground (arith, en, e), ground (arith, en, e))
        ]
      ]

  extends :
      (rec : Record) (r s : Recorder)
      → Links sys.sum rec r.prev ((r.seq + 1) % word)
      → s.log ≡ r.log ++ rec ∷ []
      → s.seq ≡ rec.seq
      → s.prev ≡ rec.hash
      → After r
      → After s
  extends rec r s links el es ep h = record {
    chain =
        subst (λ l. IsChain sys.sum l prev ((seq + 1) % word)) (sym el)
          (IsChain-append sys.sum r.log rec prev ((seq + 1) % word) (omega arith) h.chain (
            subst (λ p. Links sys.sum rec p (((seq + 1) % word + length r.log) % word)) h.last
              (subst (λ k. Links sys.sum rec r.prev k) (omega (arith, h.at)) links)));
    at = omega (arith, es, h.at, links.1, length-append r.log (rec ∷ []), ap (λ l. length l) el);
    last = ep ∙ sym (last_hash-append prev r.log rec) ∙ ap (last_hash prev) (sym el);
  }

  append-After : (ev : Event) (r : Recorder) → After r → After (append sys ev r)
  append-After ev r h = elim (append-cases ev r) [
    | inl (el, es, ep) ↦ keeps r (append sys ev r) el es ep h
    | inr (rec, en, el, es, ep) ↦
        extends rec r (append sys ev r)
          (Links-new_record sys.sum ((r.seq + 1) % word) r.prev (sys.clock r.asked) ev rec en) el es
          ep h
  ]

  sync-After : (r : Recorder) → After r → After (sync sys r)
  unfolding sync
  sync-After r h = keeps r (sync sys r) (ground arith) (ground arith) (ground arith) h

  sync_if_due-After : (r : Recorder) → After r → After (sync_if_due sys r)
  unfolding sync_if_due sync
  sync_if_due-After r h = keeps r (sync_if_due sys r) (ground arith) (ground arith) (ground arith) h

  flush_gap-After : (r : Recorder) → After r → After (flush_gap sys r)
  unfolding flush_gap
  flush_gap-After r h = elim (Bool-cases (r.dropped == r.pending)) [
    | inl e ↦ rw (e, flush_gap) h
    | inr e ↦
        let s = record r { pending = r.dropped } in
        rw (e, flush_gap) (append-After (gap_event sys r) s (keeps r s refl refl refl h))
  ]

  rotate_if_needed-After : (r : Recorder) → After r → After (rotate_if_needed sys r)
  unfolding rotate_if_needed
  rotate_if_needed-After r h = elim (Bool-cases (not r.file || ltb r.size r.max_bytes)) [
    | inl e ↦ rw (e, rotate_if_needed) h
    | inr e ↦
        let s = sync sys r in
        let t = record (asks (asks s)) { size = 0 } in
        let u = record (asks (asks s)) { file = false } in
        elim (Bool-cases (sys.io (asks s).asked)) [
          | inl ei ↦
              rw (e, ei, rotate_if_needed)
                (append-After (rotated_event sys r) t (keeps s t refl refl refl (sync-After r h)))
          | inr ei ↦ rw (e, ei, rotate_if_needed) (keeps s u refl refl refl (sync-After r h))
        ]
  ]

  write_record-After : (ev : Event) (r : Recorder) → After r → After (write_record sys ev r)
  unfolding write_record
  write_record-After ev r h =
      let s = append sys ev (rotate_if_needed sys (flush_gap sys r)) in
      let hs : After s =
        append-After ev (rotate_if_needed sys (flush_gap sys r))
          (rotate_if_needed-After (flush_gap sys r) (flush_gap-After r h)) in
      either ev.denied (sync_if_due sys s) s (sync_if_due-After s hs) hs

  write_all-After : (evs : List Event) (r : Recorder) → After r → After (write_all sys evs r)
  unfolding write_all
  write_all-After [] r h = h
  write_all-After (ev ∷ rest) r h =
      write_all-After rest (write_record sys ev r) (write_record-After ev r h)

  stop-After : (r : Recorder) → After r → After (stop sys r)
  unfolding stop
  stop-After r h =
      let q = record r { queue = [] } in
      let s = flush_gap sys (write_all sys r.queue q) in
      let hs : After s =
        flush_gap-After (write_all sys r.queue q)
          (write_all-After r.queue q (keeps r q refl refl refl h)) in
      let t = sync sys (append sys (closed_event sys s) s) in
      let ht : After t =
        sync-After (append sys (closed_event sys s) s) (append-After (closed_event sys s) s hs) in
      keeps t (record t { file = false }) refl refl refl ht

-- What happens to the recorder between its start and its stop.
pub data Call : Type 0 where
  records : Event → Call
  takes syncs : Call

unfoldable pub step : System → Recorder → Call → Recorder
unfolding record_event take_next sync
step sys r (records ev) = record_event sys ev r
step sys r takes = take_next sys r
step sys r syncs = sync sys r

unfoldable pub run : System → List Call → Recorder → Recorder
unfolding step
run sys [] r = r
run sys (c ∷ cs) r = run sys cs (step sys r c)

module _ (sys : System) (prev : String) (seq : ℕ) where
  step-After :
      (r : Recorder) (c : Call) → IsAfter sys prev seq r → IsAfter sys prev seq (step sys r c)
  unfolding step record_event take_next
  step-After r (records ev) h =
      keeps sys prev seq r (record_event sys ev r) (ground arith) (ground arith) (ground arith) h
  step-After r takes h = go r.queue h
    where
      go :
          (q : List Event)
          → IsAfter sys prev seq r
          → IsAfter sys prev seq (elim q as (λ _. Recorder) [
            | [] ↦ r
            | ev ∷ rest ↦ write_record sys ev (record r { queue = rest })
          ])
      go [] h = h
      go (ev ∷ rest) h =
          let s = record r { queue = rest } in
          write_record-After sys prev seq ev s (keeps sys prev seq r s refl refl refl h)
  step-After r syncs h = sync-After sys prev seq r h

  run-After :
      (cs : List Call) (r : Recorder) → IsAfter sys prev seq r → IsAfter sys prev seq (run sys cs r)
  unfolding run
  run-After [] r h = h
  run-After (c ∷ cs) r h = run-After cs (step sys r c) (step-After r c h)

-- Whatever events come, in whatever order the calls and the answers of the system, failed writes
-- and rotations included: the records that the recorder has written when it has stopped are, in
-- order, a segment that `VerifyChain` accepts from the hash and the number it started at.
pub stop_verifies :
    (sys : System) (cs : List Call) (r : Recorder)
    → r.log ≡ []
    → r.seq < word
    → verify_chain sys.sum (stop sys (run sys cs r)).log r.prev ((r.seq + 1) % word) ≡ sound
stop_verifies sys cs r fresh small =
    let start : IsAfter sys r.prev r.seq r = record {
      chain = subst (λ l. IsChain sys.sum l r.prev ((r.seq + 1) % word)) (sym fresh) tt;
      at = omega (arith, small, ap (λ l. length l) fresh);
      last = ap (last_hash r.prev) (sym fresh);
    } in
    (verify_chain_sound sys.sum (stop sys (run sys cs r)).log r.prev ((r.seq + 1) % word)).1
      (stop-After sys r.prev r.seq (run sys cs r) (run-After sys r.prev r.seq cs r start)).chain
