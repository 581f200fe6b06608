-- ===== src/Lib.antt =====
-- The core of nervud: the safety gate, the Safety module, the control leases, the operations, the
-- event subscriptions, the transfers, the audit chain, and the start and shutdown of the modules.
--
-- The parts, and the files that model them:
--
-- Gate (internal/motiongate): one 64-bit word shared by Safety and control. Gate.Defs has the word
-- and, for each method of `Gate`, the transition that it commits; Gate.Cas has the
-- compare-and-swap loops that the methods are written as, over any sequence of interfering
-- writes. A word is a number, the `|` of `pack` is a sum of disjoint bits, and the wrap-around of
-- the epoch is written out.
--
-- Safety (internal/safety): a trip latches the gate and wakes two lanes. Safety.Supervisor is the
-- supervisor lane (`reconcile`, `beginHalt`, `onReport`, `onTick`), Safety.Requests what other
-- goroutines call (`Trip`, `RequestRecovery`, `RequireRearm`, `Rearm`) and one round of the Stop
-- Lane (`deliverHalt`). `Rearm` is not atomic: it loads the gate's epoch, then the phase, and ends with
-- the gate's own re-arm; Safety.InFlight has these steps for any number of goroutines. Safety.Phase the published phase word, Safety.Tracker the progress of one
-- stop, Safety.Contract the time budgets. Safety.History runs any interleaving of these steps,
-- the end of a re-arm there having loaded any epoch and phase.
-- The answer of `SendHalt` is an argument; the audit ring and the calls of `RevokeAll` are the
-- sequences of what was pushed and called. Safety.Ring has the ring itself (ring.go): a push is two
-- steps, the claim of a position and the publication, a pop is two as well, and
-- Safety.Interleaved runs them in any order. Its size is the 256 of module.go.
--
-- Control (internal/control): one slot for each resource, which holds at most one lease.
-- Control.Policy and Control.Types have the data; Control.Slots and Control.Boundary the slots, the
-- exchange of a slot's pointer and the draining of revoked leases; Control.Acquire, Control.Revoke,
-- Control.Lane and Control.Lookup the methods; Control.Supervised the steps of `RevokeAll`, which
-- does not take the module's lock. A lease pointer is compared by `addr`, the address of its
-- allocation, which each publication and each renewal takes anew. `Schedule` says which steps of
-- the gate and of `RevokeAll` fall between the atomic steps of one issue; `quiet` is none. The
-- exchange of one slot by `RevokeAll`, with its move to the pending position and its count, is one
-- step; so is one call of `drainRevoked`. The identifier that `newID` draws is an argument.
-- Control.Moves runs any sequence of calls with single steps of `RevokeAll` between them.
--
-- Operation (internal/operation): the records of long tasks. Operation.State is the state machine,
-- Operation.Types the records, Operation.Locked what runs under the lock (`terminateLocked`,
-- `emitLocked`), Operation.Surface what the dispatcher, Safety and the loop call, and
-- Operation.Reports what providers report. The map of the operations is a list with one entry for
-- each id, visited in its order where Go's order is arbitrary; the two validators, which other
-- packages implement, are functions in the manager's state. A status code of the protocol that the
-- package does not name is `unlisted`. Operation.Moves runs any sequence of calls.
--
-- Subscription (internal/subscription): who receives which events. Subscription.Registry has the
-- registry and its operations. The two maps of pointers are one list of the subscriptions ever
-- made, each with its identity and two flags that say which map holds it; the order of a map's
-- iteration is that of creation. What the sinks answer during a publication is an argument.
-- Subscription.History runs any sequence of calls.
--
-- Audit (internal/audit): Audit.Chain has the records, their hashes and `VerifyChain`, over any
-- hash; Audit.Recorder the goroutine that appends records, rotates and syncs the file, over any
-- answers of the system to its k-th request. The ghost field `log` collects the records whose write
-- succeeded, over all files. Audit.Log runs any sequence of its steps.
--
-- Transfer (internal/transfer): data transfers next to a route. Transfer.Types has the records,
-- Transfer.Budget the reservations and `closeLocked`, Transfer.Manager `Begin` from its lock on,
-- `Commit`, `Abort`, the revocations, `Stop` and the relay workers, Transfer.Routes `FinishRoute`,
-- `attach` and `reap`. The map of the records is a list, visited in its order; `byRoute` is what
-- the records say of their route. `max_streams`, the state of the route's token, the digests of
-- tickets and the comparison of credentials are arguments. Transfer.Calls runs any sequence of
-- calls, and says what a statement must stand for all of them to keep it. A tombstone may be reaped
-- while a relay worker of it still runs; its buffers are then not given back. The subtractions from
-- the reserved rate and buffers wrap as those of uint64 do; the counts of transfers and tombstones,
-- int in the code, stop at 0.
--
-- Kernel (internal/kernel): Kernel.Run has `Run`, `stopAll` and `stopModule`, over any behaviour of
-- the modules: what each select receives, and how each start and stop ends. A last select that
-- receives nothing is a kernel that runs on; the model begins where a signal comes.
--
-- Where nothing else is said, one call of a method is one step, and one reading of the clock, an
-- argument, serves the whole call.
--
-- Base has the Boolean tests on numbers, lists measured by native numbers, and the signed integers
-- that stand for durations and times, which do not overflow here.
--
-- Not modelled: starting and stopping goroutines and waiting for them, the sharing of byte slices,
-- the text of logs and errors, files on disk and the readers of their lines, and
-- the other packages of the repository. No definition needs fuel: loops are recursion on lists.
pub mod Audit
pub mod Base
pub mod Gate
pub mod Kernel
pub mod Safety
pub mod Subscription
pub mod Transfer
pub mod Control
pub mod Operation
