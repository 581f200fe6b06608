-- ===== src/Safety/Fifo.antt =====
-- ring.go: under any interleaving the ring is a bounded first-in first-out queue.
use nervud.Base.{
  ==_iff, ℕ, zero, suc, ◌+◌, ◌-◌, ◌%◌, ◌≤◌, ◌<◌, ◌≡◌, refl, ap, sym, ◌∙◌, true, false, none, some,
  List, [], ◌∷◌, ◌++◌, ◌==◌, if◌then◌else◌, arith, Option-cases, Bool-cases, inl, inr,
}
use nervud.Safety.State.{EventRecord}
use nervud.Safety.Ring.{
  word, size, Cell, AuditRing, cell_at, put_cell, publish, take, release, Shared, entry,
}

-- The cell of a position.
abbrev pub cell : Shared → ℕ → Cell
cell s p = cell_at p s.ring

-- The positions below this one have gone back to the producers for their next use.
abbrev pub freed : Shared → ℕ
freed s = if s.holds then s.ring.deq_pos - 1 else s.ring.deq_pos

-- The records of the positions below a number.
abbrev pub upto : (ℕ → EventRecord) → ℕ → List EventRecord
upto f zero = []
upto f (suc n) = upto f n ++ f n ∷ []

pub record IsFifo (s : Shared) : Type 0 where
  pub order : s.ring.deq_pos ≤ s.ring.enq_pos
  pub room : s.ring.enq_pos ≤ freed s + size
  pub held : s.holds ≡ true → 1 ≤ s.ring.deq_pos
  pub out : s.popped ≡ upto s.claimed s.ring.deq_pos
  pub free : (p : ℕ) → s.ring.enq_pos ≤ p → p < freed s + size → (cell s p).seq ≡ p
  pub last : s.holds ≡ true → (cell s (s.ring.deq_pos - 1)).seq ≡ s.ring.deq_pos
  pub ready :
      (p : ℕ)
      → s.ring.deq_pos ≤ p
      → p < s.ring.enq_pos
      → s.pending p ≡ none
      → ((cell s p).seq ≡ p + 1) × ((cell s p).rec ≡ s.claimed p)
  pub waits :
      (p : ℕ) (r : EventRecord)
      → s.pending p ≡ some r
      → (s.ring.deq_pos ≤ p) × (p < s.ring.enq_pos) × ((cell s p).seq ≡ p) × (s.claimed p ≡ r)

entry_same {ℓ} : {A : Type ℓ} (i : ℕ) (a : A) (f : ℕ → A) (j : ℕ) → j ≡ i → entry i a f j ≡ a
entry_same i a f j e = rw ((==_iff j i).1 e) refl

entry_other {ℓ} :
    {A : Type ℓ} (i : ℕ) (a : A) (f : ℕ → A) (j : ℕ) → (j == i) ≡ false → entry i a f j ≡ f j
entry_other i a f j e = rw e refl

upto-entry :
    (f : ℕ → EventRecord) (i : ℕ) (r : EventRecord) (n : ℕ)
    → n ≤ i
    → upto (entry i r f) n ≡ upto f n
upto-entry f i r zero le = refl
upto-entry f i r (suc n) le =
    let here : entry i r f n ≡ f n = entry_other i r f n (ground (arith, le)) in
    let rest = upto-entry f i r n (omega (arith, le)) in cc

-- A push that claims its position.
pub claim-IsFifo :
    (s : Shared) (rec : EventRecord)
    → s.ring.enq_pos + 1 < word
    → s.ring.enq_pos < freed s + size
    → IsFifo s
    → IsFifo (record {
      ring = record (s.ring) { enq_pos = (s.ring.enq_pos + 1) % word };
      pending = entry s.ring.enq_pos (some rec) s.pending;
      holds = s.holds;
      claimed = entry s.ring.enq_pos rec s.claimed;
      popped = s.popped;
    })
claim-IsFifo s rec small space h = record {
  order = omega (arith, h.order, small);
  room = omega (arith, small, space);
  held = h.held;
  out = h.out ∙ sym (upto-entry s.claimed s.ring.enq_pos rec s.ring.deq_pos h.order);
  free = λ p a b. h.free p (omega (arith, a, small)) b;
  last = h.last;
  ready = λ p a b c. elim (Bool-cases (p == s.ring.enq_pos)) [
    | inl e ↦
        let mine : entry s.ring.enq_pos (some rec) s.pending p ≡ some rec =
          entry_same s.ring.enq_pos (some rec) s.pending p ((==_iff p s.ring.enq_pos).0 e) in
        cc
    | inr e ↦
        let old =
          h.ready p a (ground (arith, e, b, small))
            (sym (entry_other s.ring.enq_pos (some rec) s.pending p e) ∙ c) in
        (old.0, old.1 ∙ sym (entry_other s.ring.enq_pos rec s.claimed p e))
  ];
  waits = λ p r c. elim (Bool-cases (p == s.ring.enq_pos)) [
    | inl e ↦
        let at : p ≡ s.ring.enq_pos = (==_iff p s.ring.enq_pos).0 e in
        let mine : entry s.ring.enq_pos (some rec) s.pending p ≡ some rec =
          entry_same s.ring.enq_pos (some rec) s.pending p at in
        (
          omega (arith, at, h.order),
          omega (arith, at, small),
          h.free p (omega (arith, at)) (omega (arith, at, space)),
          entry_same s.ring.enq_pos rec s.claimed p at ∙ cc,
        )
    | inr e ↦
        let (a, b, q, d) =
          h.waits p r (sym (entry_other s.ring.enq_pos (some rec) s.pending p e) ∙ c) in
        (a, omega (arith, b, small), q, entry_other s.ring.enq_pos rec s.claimed p e ∙ d)
  ];
}

-- A store at a position leaves the cells of the near positions alone.
store_other :
    (i : ℕ) (c : Cell) (r : AuditRing) (p : ℕ)
    → (p % size == i % size) ≡ false
    → (cell_at p (record r { buf = put_cell (i % size) c r.buf })) ≡ cell_at p r
store_other i c r p e = rw e refl

store_same :
    (i : ℕ) (c : Cell) (r : AuditRing) (p : ℕ)
    → p % size ≡ i % size
    → (cell_at p (record r { buf = put_cell (i % size) c r.buf })) ≡ c
store_same i c r p e = rw ((==_iff (p % size) (i % size)).1 e) refl

near : (p i : ℕ) → p < i → i < p + size → (p % size == i % size) ≡ false
near p i below close = ground (arith, below, close)

near' : (p i : ℕ) → i < p → p < i + size → (p % size == i % size) ≡ false
near' p i above close = ground (arith, above, close)

apart :
    (p i lo : ℕ)
    → (p == i) ≡ false
    → lo ≤ p
    → lo ≤ i
    → p < lo + size
    → i < lo + size
    → (p % size == i % size) ≡ false
apart p i lo e a b c d = ground (arith, e, a, b, c, d)

pub freed_le : (s : Shared) → IsFifo s → (freed s ≤ s.ring.deq_pos) × (s.ring.deq_pos ≤ freed s + 1)
freed_le s h = ground (arith, h.held)

pub freed_held : (s : Shared) → s.holds ≡ true → freed s ≡ s.ring.deq_pos - 1
freed_held s e = ground (arith, e)

pub freed_idle : (s : Shared) → s.holds ≡ false → freed s ≡ s.ring.deq_pos
freed_idle s e = ground (arith, e)

pub publish-IsFifo :
    (s : Shared) (pos : ℕ) (rec : EventRecord)
    → s.pending pos ≡ some rec
    → s.ring.enq_pos + size < word
    → IsFifo s
    → IsFifo (record s { ring = publish pos rec s.ring; pending = entry pos none s.pending })
unfolding publish
publish-IsFifo s pos rec mine small h =
    let (a, b, q, d) = h.waits pos rec mine in
    let (fl, fu) = freed_le s h in
    let c : Cell = record { seq = (pos + 1) % word; rec = rec } in
    let other : (p : ℕ)
        → freed s ≤ p
        → p < freed s + size
        → (p == pos) ≡ false
        → cell_at p (record (s.ring) { buf = put_cell (pos % size) c s.ring.buf }) ≡ cell s p =
      λ p lo hi e.
        store_other pos c s.ring p
          (apart p pos (freed s) e lo (omega (arith, fl, a)) hi (omega (arith, b, h.room))) in
    record {
      order = h.order;
      room = h.room;
      held = h.held;
      out = h.out;
      free = λ p x y.
          ap (λ k. k.seq) (other p (omega (arith, x, h.order, fl)) y (ground (arith, b, x)))
          ∙ h.free p x y;
      last = λ e.
          ap (λ k. k.seq)
            (other (s.ring.deq_pos - 1) (omega (arith, freed_held s e))
              (omega (arith, freed_held s e)) (ground (arith, a, h.held e)))
          ∙ h.last e;
      ready = λ p x y z. elim (Bool-cases (p == pos)) [
        | inl e ↦
            let at : p ≡ pos = (==_iff p pos).0 e in
            let stored = store_same pos c s.ring p (ap (λ k. k % size) at) in
            (
              ap (λ k. k.seq) stored ∙ omega (arith, at, b, small),
              ap (λ k. k.rec) stored ∙ sym d ∙ ap s.claimed (sym at),
            )
        | inr e ↦
            let old = h.ready p x y (sym (entry_other pos none s.pending p e) ∙ z) in
            let kept = other p (omega (arith, fl, x)) (omega (arith, y, h.room)) e in
            (ap (λ k. k.seq) kept ∙ old.0, ap (λ k. k.rec) kept ∙ old.1)
      ];
      waits = λ p r z. elim (Bool-cases (p == pos)) [
        | inl e ↦
            let out : entry pos none s.pending p ≡ none =
              entry_same pos none s.pending p ((==_iff p pos).0 e) in
            cc
        | inr e ↦
            let (x, y, k, l) = h.waits p r (sym (entry_other pos none s.pending p e) ∙ z) in
            (
              x,
              y,
              ap (λ k. k.seq) (other p (omega (arith, fl, x)) (omega (arith, y, h.room)) e) ∙ k,
              l,
            )
      ];
    }

-- A pop that takes the record at its position.
pub take-IsFifo :
    (s : Shared)
    → s.holds ≡ false
    → (cell s s.ring.deq_pos).seq ≡ s.ring.deq_pos + 1
    → s.ring.enq_pos + size < word
    → IsFifo s
    → IsFifo (record s {
      ring = take s.ring;
      holds = true;
      popped = s.popped ++ (cell s s.ring.deq_pos).rec ∷ [];
    })
unfolding take
take-IsFifo s idle due small h =
    let fi = freed_idle s idle in
    let below : s.ring.deq_pos < s.ring.enq_pos =
      elim (Bool-cases (s.ring.deq_pos == s.ring.enq_pos)) [
        | inl e ↦ omega (arith, h.free s.ring.deq_pos (ground (arith, e)) (omega (arith, fi)), due)
        | inr e ↦ ground (arith, e, h.order)
      ] in
    let next : (s.ring.deq_pos + 1) % word ≡ suc s.ring.deq_pos = omega (arith, below, small) in
    let back : (s.ring.deq_pos + 1) % word - 1 ≡ s.ring.deq_pos = omega (arith, next) in
    let done : s.pending s.ring.deq_pos ≡ none = elim (Option-cases (s.pending s.ring.deq_pos)) [
      | inl e ↦ e
      | inr (r, e) ↦ ground (arith, (h.waits s.ring.deq_pos r e).2, due)
    ] in
    let there = h.ready s.ring.deq_pos (omega arith) below done in
    record {
      order = omega (arith, next, below);
      room = omega (arith, h.room, back, fi);
      held = λ e. omega (arith, next);
      out =
          ap (λ l. l ++ (cell s s.ring.deq_pos).rec ∷ []) h.out
          ∙ ap (λ r. upto s.claimed s.ring.deq_pos ++ r ∷ []) there.1
          ∙ ap (upto s.claimed) (sym next);
      free = λ p x y. h.free p x (omega (arith, y, back, fi));
      last = λ e. ap (λ k. (cell s k).seq) back ∙ due ∙ omega (arith, next);
      ready = λ p x y z. h.ready p (omega (arith, x, next)) y z;
      waits = λ p r z.
          let (a, b, q, d) = h.waits p r z in
          (
            elim (Bool-cases (p == s.ring.deq_pos)) [
              | inl e ↦
                  omega (arith, ap (λ k. (cell s k).seq) ((==_iff p s.ring.deq_pos).0 e), q, due)
              | inr e ↦ ground (arith, e, a, next)
            ],
            b,
            q,
            d,
          );
    }

-- The cell that the consumer holds goes back.
pub release-IsFifo :
    (s : Shared)
    → s.holds ≡ true
    → s.ring.enq_pos + size < word
    → IsFifo s
    → IsFifo
        (record s { ring = release ((s.ring.deq_pos + word - 1) % word) s.ring; holds = false })
unfolding release
release-IsFifo s busy small h =
    let fh = freed_held s busy in
    let pos = (s.ring.deq_pos + word - 1) % word in
    let one = h.held busy in
    let at : pos ≡ s.ring.deq_pos - 1 = omega (arith, one, h.order, small) in
    let c : Cell = record (cell_at pos s.ring) { seq = (pos + (size - 1) + 1) % word } in
    let other : (p : ℕ)
        → s.ring.deq_pos ≤ p
        → p < s.ring.deq_pos - 1 + size
        → cell_at p (record (s.ring) { buf = put_cell (pos % size) c s.ring.buf }) ≡ cell s p =
      λ p lo hi.
        store_other pos c s.ring p
          (near' p pos (omega (arith, lo, at, one)) (omega (arith, hi, at))) in
    record {
      order = h.order;
      room = omega (arith, h.room, fh);
      held = λ e. cc;
      out = h.out;
      free = λ p x y. elim (Bool-cases (p == pos + size)) [
        | inl e ↦
            ap (λ k. k.seq) (store_same pos c s.ring p (ground (arith, e)))
            ∙ ground (arith, e, at, one, h.order, small)
        | inr e ↦
            ap (λ k. k.seq) (other p (omega (arith, x, h.order)) (ground (arith, e, y, at, one)))
            ∙ h.free p x (ground (arith, e, y, at, one, fh))
      ];
      last = λ e. cc;
      ready = λ p x y z.
          let old = h.ready p x y z in
          let kept = other p x (omega (arith, y, h.room, fh)) in
          (ap (λ k. k.seq) kept ∙ old.0, ap (λ k. k.rec) kept ∙ old.1);
      waits = λ p r z.
          let (a, b, q, d) = h.waits p r z in
          (a, b, ap (λ k. k.seq) (other p a (omega (arith, b, h.room, fh))) ∙ q, d);
    }
