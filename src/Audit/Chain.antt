-- ===== src/Audit/Chain.antt =====
-- audit.go, chain.go: records, their hashes, and the check of a segment of a chain. The bytes of a
-- `hashInput` and their SHA-256 in hexadecimal are the parameter `sum`; `none` is an encoding error.
use nervud.Base.{
  ℕ, suc, ◌+◌, ◌%◌, ◌^◌, String, Bool, not, Option, none, some, List, [], ◌∷◌, ◌==◌, str_eq,
  if◌then◌else◌,
}
use nervud.Base.Int.{ℤ, pos, eq_ℤ}

pub record Event : Type 0 where
  pub action : String
  pub subject : String
  pub denied : Bool
  pub err : Option String
  pub detail : String

abbrev pub chain_version : ℤ
chain_version = pos 1

-- A time is in nanoseconds.
pub record Record : Type 0 where
  pub v : ℤ
  pub seq : ℕ
  pub prev : String
  pub time_unix_nanos : ℤ
  pub action : String
  pub subject : String
  pub denied : Bool
  pub err : String
  pub detail : String
  pub hash : String

pub record HashInput : Type 0 where
  pub v : ℤ
  pub seq : ℕ
  pub prev : String
  pub time_unix_nanos : ℤ
  pub action : String
  pub subject : String
  pub denied : Bool
  pub err : String
  pub detail : String

abbrev pub hash_input : Record → HashInput
hash_input r = record {
  v = r.v;
  seq = r.seq;
  prev = r.prev;
  time_unix_nanos = r.time_unix_nanos;
  action = r.action;
  subject = r.subject;
  denied = r.denied;
  err = r.err;
  detail = r.detail;
}

-- The reasons of `VerifyChain`.
pub data Fault : Type 0 where
  bad_version bad_seq bad_prev not_encoded bad_hash : Fault

-- `(-1, nil)` is `sound`.
pub data Verdict : Type 0 where
  sound : Verdict
  broken : ℕ → Fault → Verdict

abbrev pub word : ℕ
word = 2 ^ 64

module _ (sum : HashInput → Option String) where
  unfoldable pub compute_hash : Record → Option String
  compute_hash r = sum (hash_input r)

  abbrev pub unsigned_record : ℕ → String → ℤ → Event → Record
  unsigned_record seq prev at ev = record {
    v = chain_version;
    seq = seq;
    prev = prev;
    time_unix_nanos = at;
    action = ev.action;
    subject = ev.subject;
    denied = ev.denied;
    err = elim ev.err [ none ↦ "" | some e ↦ e ];
    detail = ev.detail;
    hash = "";
  }

  unfoldable pub new_record : ℕ → String → ℤ → Event → Option Record
  unfolding compute_hash
  new_record seq prev at ev =
      let rec = unsigned_record seq prev at ev in
      elim (compute_hash rec) [ none ↦ none | some h ↦ some (record rec { hash = h }) ]

  -- What the loop body finds wrong with one record.
  unfoldable pub fault_of : Record → String → ℕ → Option Fault
  unfolding compute_hash
  fault_of rec prev seq =
      if not (eq_ℤ rec.v chain_version)
      then some bad_version
      else if not (rec.seq == seq)
      then some bad_seq
      else if not (str_eq rec.prev prev)
      then some bad_prev
      else elim (compute_hash rec) [
        | none ↦ some not_encoded
        | some want ↦ if str_eq want rec.hash then none else some bad_hash
      ]

  -- The loop of `VerifyChain` from the index `i`.
  unfoldable pub verify_from : ℕ → List Record → String → ℕ → Verdict
  unfolding fault_of
  verify_from i [] prev seq = sound
  verify_from i (rec ∷ rest) prev seq =
      let later = verify_from (suc i) rest rec.hash ((seq + 1) % word) in
      elim (fault_of rec prev seq) [ none ↦ later | some f ↦ broken i f ]

  unfoldable pub verify_chain : List Record → String → ℕ → Verdict
  unfolding verify_from
  verify_chain records expected_prev expected_seq = verify_from 0 records expected_prev expected_seq
