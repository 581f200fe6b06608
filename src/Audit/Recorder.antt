-- ===== src/Audit/Recorder.antt =====
-- file.go: the recorder that appends to the audit file. What it asks of the system is the parameter
-- `System`; the lines that it has written whole are the ghost field `log`. The names of the files
-- on disk, which rotation moves, and what a failed write leaves behind are not in the state.
use nervud.Base.{
  ℕ, ◌+◌, ◌-◌, ◌%◌, String, Bool, true, false, not, ◌||◌, Option, none, some, List, [], ◌∷◌, ◌++◌,
  ◌==◌, str_eq, if◌then◌else◌, ltb, length,
}
use nervud.Base.Int.{ℤ, pos, ◌-ℤ◌, ltb_ℤ}
use Prim.Native.String.{◌++◌ as ◌+++◌}
use nervud.Audit.Chain.{Event, Record, HashInput, word, new_record}

abbrev pub chain_started : String
chain_started = "audit.ChainStarted"

abbrev pub chain_gap : String
chain_gap = "audit.ChainGap"

abbrev pub rotated : String
rotated = "audit.Rotated"

abbrev pub closed : String
closed = "audit.Closed"

abbrev pub unclean_shutdown : String
unclean_shutdown = "audit.UncleanShutdown"

abbrev pub kernel : String
kernel = "kernel"

abbrev pub min_sync_interval : ℤ
min_sync_interval = pos 1000000000

-- The hash, the length of a record's line without its newline (`none` is an encoding error), the
-- decimal numeral of a number, and what the k-th request to the system answers: the clock, and
-- whether a call on a file succeeds.
pub record System : Type 0 where
  pub sum : HashInput → Option String
  pub encode : Record → Option ℕ
  pub decimal : ℕ → String
  pub clock : ℕ → ℤ
  pub io : ℕ → Bool

-- `last_sync` is `none` for the zero `Time`. `asked` counts the requests to the system.
pub record Recorder : Type 0 where
  pub max_bytes : ℕ
  pub queue_depth : ℕ
  pub queue : List Event
  pub dropped : ℕ
  pub written : ℕ
  pub synced : ℕ
  pub file : Bool
  pub size : ℕ
  pub seq : ℕ
  pub prev : String
  pub pending : ℕ
  pub dirty : Bool
  pub last_sync : Option ℤ
  pub asked : ℕ
  pub log : List Record

abbrev pub kernel_event : String → Bool → String → Event
kernel_event action denied detail = record {
  action = action;
  subject = kernel;
  denied = denied;
  err = none;
  detail = detail;
}

abbrev pub asks : Recorder → Recorder
asks r = record r { asked = r.asked + 1 }

abbrev pub wrote : Record → ℕ → Recorder → Recorder
wrote rec n r = record (asks r) {
  size = r.size + (n + 1);
  seq = rec.seq;
  prev = rec.hash;
  dirty = true;
  written = (r.written + 1) % word;
  log = r.log ++ rec ∷ [];
}

abbrev pub missed : Recorder → Recorder
missed r = record (asks r) { dropped = (r.dropped + 1) % word }

module _ (sys : System) where
  abbrev pub gap_event : Recorder → Event
  gap_event r =
      kernel_event chain_gap true
        ("lost=" +++ sys.decimal ((r.dropped + word - r.pending) % word) +++ " reason=queue_full")

  abbrev pub rotated_event : Recorder → Event
  rotated_event r =
      kernel_event rotated false
        ("carried_seq=" +++ sys.decimal r.seq +++ " carried_hash=" +++ r.prev)

  abbrev pub closed_event : Recorder → Event
  closed_event r = kernel_event closed false ("final_seq=" +++ sys.decimal r.seq)

  unfoldable pub append : Event → Recorder → Recorder
  append ev r =
      if not r.file
      then r
      else elim (new_record sys.sum ((r.seq + 1) % word) r.prev (sys.clock r.asked) ev) [
        | none ↦ asks r
        | some rec ↦ elim (sys.encode rec) [
          | none ↦ asks r
          | some n ↦ if sys.io (r.asked + 1) then wrote rec n (asks r) else missed (asks r)
        ]
      ]

  unfoldable pub sync : Recorder → Recorder
  sync r =
      if not r.file || not r.dirty
      then r
      else if sys.io r.asked
      then record (asks (asks r)) {
        dirty = false;
        last_sync = some (sys.clock (r.asked + 1));
        synced = (r.synced + 1) % word;
      }
      else asks r

  -- The difference to the zero `Time` is above the interval.
  unfoldable pub is_due : ℤ → Option ℤ → Bool
  is_due now none = true
  is_due now (some at) = not (ltb_ℤ (now -ℤ at) min_sync_interval)

  unfoldable pub sync_if_due : Recorder → Recorder
  unfolding sync is_due
  sync_if_due r =
      if not r.dirty
      then r
      else if is_due (sys.clock r.asked) r.last_sync
      then sync (asks r)
      else asks r

  unfoldable pub flush_gap : Recorder → Recorder
  unfolding append
  flush_gap r =
      if r.dropped == r.pending then r else append (gap_event r) (record r { pending = r.dropped })

  -- One request closes the file, and one opens the next; the removal and the renames between them
  -- change nothing in the state.
  unfoldable pub rotate_if_needed : Recorder → Recorder
  unfolding append sync
  rotate_if_needed r =
      if not r.file || ltb r.size r.max_bytes
      then r
      else let s = asks (sync r) in
        if sys.io s.asked
        then append (rotated_event r) (record (asks s) { size = 0 })
        else record (asks s) { file = false }

  unfoldable pub write_record : Event → Recorder → Recorder
  unfolding append rotate_if_needed flush_gap sync_if_due
  write_record ev r =
      let s = append ev (rotate_if_needed (flush_gap r)) in if ev.denied then sync_if_due s else s

  -- `Record`: a full queue drops the event and counts it.
  unfoldable pub record_event : Event → Recorder → Recorder
  record_event ev r =
      if ltb (length r.queue) r.queue_depth
      then record r { queue = r.queue ++ ev ∷ [] }
      else record r { dropped = (r.dropped + 1) % word }

  -- `run` takes the next event from the queue.
  unfoldable pub take_next : Recorder → Recorder
  unfolding write_record
  take_next r = elim r.queue [ [] ↦ r | ev ∷ rest ↦ write_record ev (record r { queue = rest }) ]

  unfoldable pub write_all : List Event → Recorder → Recorder
  unfolding write_record
  write_all [] r = r
  write_all (ev ∷ rest) r = write_all rest (write_record ev r)

  -- `run` after `Close`: the queue, what was dropped, the closing record, and the last sync.
  unfoldable pub stop : Recorder → Recorder
  unfolding append write_all flush_gap sync
  stop r =
      let s = flush_gap (write_all r.queue (record r { queue = [] })) in
      let t = sync (append (closed_event s) s) in record t { file = false }

  -- `open`, on a file whose last record is `last`, or with the reason why it has none.
  unfoldable pub open_file : Record → Option String → Recorder → Recorder
  unfolding write_record
  open_file last reason r = elim reason [
    | some why ↦
        write_record (kernel_event chain_started false why) (record r { seq = 0; prev = "" })
    | none ↦
        let s = record r { seq = last.seq; prev = last.hash } in
        if str_eq last.action closed
        then s
        else write_record
            (kernel_event unclean_shutdown true (
              "last_seq="
              +++ sys.decimal last.seq
              +++ " last_action="
              +++ last.action
              +++ " window<=1s"))
            s
  ]
