-- ===== src/Audit/Tests.antt =====
-- chain.go, file.go: the theorems at concrete records, with hashes for two inputs only.
use nervud.Base.{
  ℕ, zero, String, ◌≡◌, refl, ap, sym, ◌∙◌, ◌↔◌, ◌⊎◌, Bool, true, false, not, ◌&&◌, Option, none,
  some, List, [], ◌∷◌, ◌==◌, str_eq, eq_iff, eq_refl, arith, length, if◌then◌else◌, Bool-cases, inl,
  inr, ◌<◌, suc,
}
use nervud.Base.Int.{ℤ, pos, eq_ℤ, eq_ℤ_iff}
use Prim.Native.String.{◌++◌ as ◌+++◌}
use nervud.Audit.Chain.{
  Event, Record, HashInput, hash_input, chain_version, Fault, bad_seq, bad_hash, Verdict, sound,
  broken, word, verify_chain,
}
use nervud.Audit.Linked.{
  take, IsChain, verify_chain_sound, verify_chain_broken, verify_chain_tamper,
}
use nervud.Audit.Recorder.{System, Recorder, stop, kernel_event}
use nervud.Audit.Log.{Call, records, takes, syncs, run, stop_verifies}

abbrev same_bool : Bool → Bool → Bool
same_bool true b = b
same_bool false b = not b

abbrev same_input : HashInput → HashInput → Bool
same_input a b =
    eq_ℤ a.v b.v
    && (a.seq == b.seq
        && (str_eq a.prev b.prev
            && (eq_ℤ a.time_unix_nanos b.time_unix_nanos
                && (str_eq a.action b.action
                    && (str_eq a.subject b.subject
                        && (same_bool a.denied b.denied
                            && (str_eq a.err b.err && str_eq a.detail b.detail)))))))

same_input_eq : (a b : HashInput) → same_input a b ≡ true → a ≡ b
same_input_eq a b h =
    let ev : a.v ≡ b.v = ground (arith, h, (eq_ℤ_iff a.v b.v).0) in
    let es : a.seq ≡ b.seq = ground (arith, h) in
    let ep : a.prev ≡ b.prev = ground (arith, h, (eq_iff a.prev b.prev).0) in
    let et : a.time_unix_nanos ≡ b.time_unix_nanos =
      ground (arith, h, (eq_ℤ_iff a.time_unix_nanos b.time_unix_nanos).0) in
    let ea : a.action ≡ b.action = ground (arith, h, (eq_iff a.action b.action).0) in
    let eb : a.subject ≡ b.subject = ground (arith, h, (eq_iff a.subject b.subject).0) in
    let ed : a.denied ≡ b.denied = ground (arith, h) in
    let ee : a.err ≡ b.err = ground (arith, h, (eq_iff a.err b.err).0) in
    let ef : a.detail ≡ b.detail = ground (arith, h, (eq_iff a.detail b.detail).0) in cc

abbrev input : ℕ → String → String → HashInput
input seq prev action = record {
  v = chain_version;
  seq = seq;
  prev = prev;
  time_unix_nanos = pos 7;
  action = action;
  subject = "arm";
  denied = true;
  err = "refused";
  detail = "";
}

abbrev first : HashInput
first = input 1 "" "lease.Revoke"

abbrev second : HashInput
second = input 2 "aa" "lease.Acquire"

abbrev chosen : Bool → Bool → Option String
chosen p q = if p then some "aa" else if q then some "bb" else none

-- Two inputs have a hash.
abbrev toy : HashInput → Option String
toy i = chosen (same_input i first) (same_input i second)

abbrev is_aa : Option String → Bool
is_aa none = false
is_aa (some t) = str_eq t "aa"

chosen_lem :
    (p q p' q' : Bool) (h : String)
    → chosen p q ≡ some h
    → chosen p' q' ≡ some h
    → (p ≡ true) × (p' ≡ true) ⊎ (q ≡ true) × (q' ≡ true)
chosen_lem true q true q' h e e' = inl (refl, refl)
chosen_lem true q false true h e e' = ground (arith, ap is_aa (e ∙ sym e'))
chosen_lem true q false false h e e' = cc
chosen_lem false true true q' h e e' = ground (arith, ap is_aa (e ∙ sym e'))
chosen_lem false true false true h e e' = inr (refl, refl)
chosen_lem false true false false h e e' = cc
chosen_lem false false p' q' h e e' = cc

toy_injective : (a b : HashInput) (h : String) → toy a ≡ some h → toy b ≡ some h → a ≡ b
toy_injective a b h ha hb =
    elim (chosen_lem (same_input a first) (same_input a second) (same_input b first)
      (same_input b second) h ha hb) [
        | inl (x, y) ↦ same_input_eq a first x ∙ sym (same_input_eq b first y)
        | inr (x, y) ↦ same_input_eq a second x ∙ sym (same_input_eq b second y)
      ]

abbrev record_of : HashInput → String → Record
record_of i h = record {
  v = i.v;
  seq = i.seq;
  prev = i.prev;
  time_unix_nanos = i.time_unix_nanos;
  action = i.action;
  subject = i.subject;
  denied = i.denied;
  err = i.err;
  detail = i.detail;
  hash = h;
}

abbrev two : List Record
two = record_of first "aa" ∷ record_of second "bb" ∷ []

-- The second record was changed, and its hash was not computed again.
abbrev changed : List Record
changed = record_of first "aa" ∷ record_of (input 2 "aa" "lease.Renew") "bb" ∷ []

-- The first record was removed.
abbrev removed : List Record
removed = record_of second "bb" ∷ []

abbrev genesis : String
genesis = ""

two_sound : verify_chain toy two genesis 1 ≡ sound
unfolding verify_chain nervud.Audit.Chain.verify_from
two_sound = refl

removed_broken : verify_chain toy removed genesis 1 ≡ broken 0 bad_seq
unfolding verify_chain nervud.Audit.Chain.verify_from
removed_broken = refl

verify_chain_sound_example : (verify_chain toy two genesis 1 ≡ sound) ↔ IsChain toy two genesis 1
verify_chain_sound_example = verify_chain_sound toy two genesis 1

verify_chain_broken_example :
    (0 < length removed)
    × (verify_chain toy (take 0 removed) genesis 1 ≡ sound)
    × (verify_chain toy (take (suc 0) removed) genesis 1 ≡ broken 0 bad_seq)
verify_chain_broken_example = verify_chain_broken toy removed genesis 1 0 bad_seq removed_broken

verify_chain_tamper_example : two ≡ two
verify_chain_tamper_example =
    verify_chain_tamper toy two two genesis 1 toy_injective (λ e. cc) (λ e. cc) (omega arith)
      (omega arith) two_sound two_sound refl

abbrev event : Event
event = kernel_event "lease.Revoke" true "x"

-- The fifth request to the system fails, here a write.
abbrev system : System
system = record {
  sum = λ i. some (i.prev +++ i.action);
  encode = λ r. some 100;
  decimal = λ n. if n == 0 then "0" else "n";
  clock = λ k. pos k;
  io = λ k. not (k == 5);
}

abbrev idle : Recorder
idle = record {
  max_bytes = 150;
  queue_depth = 2;
  queue = [];
  dropped = 0;
  written = 0;
  synced = 0;
  file = true;
  size = 0;
  seq = 0;
  prev = "";
  pending = 0;
  dirty = false;
  last_sync = none;
  asked = 0;
  log = [];
}

-- The third event finds a full queue.
abbrev calls : List Call
calls = records event ∷ records event ∷ records event ∷ takes ∷ syncs ∷ takes ∷ []

calls_log : length (stop system (run system calls idle)).log ≡ 5
unfolding run stop nervud.Audit.Chain.new_record nervud.Base.Int.◌-ℤ◌
calls_log = refl

stop_verifies_example :
    verify_chain system.sum (stop system (run system calls idle)).log genesis 1 ≡ sound
stop_verifies_example = stop_verifies system calls idle refl (omega arith)
