-- ===== src/Lib.antt =====
-- Verification library of the HotStuff consensus for Substrate (hotstuff/consensus, and the pallet
-- hotstuff/pallets/hotstuff), with the node that runs it.
--
-- The program. Each replica runs a `ConsensusWorker` (consensus.rs), which takes the messages of its
-- channel and the ticks of its timer one at a time. Its `ConsensusState` holds the view, the last
-- voted view, the highest quorum certificate (QC) and an `Aggregator` (aggregator.rs), which turns
-- votes into QCs and timeouts into timeout certificates (TCs). Messages and certificates check
-- themselves against the authority list (message.rs). Proposals are kept in the client's auxiliary
-- store (synchronizer.rs, store.rs). The gossip validator (network.rs) drops messages of old views;
-- the worker tells it its view. A network task feeds the channel and keeps the queue of blocks that wait
-- to be finalized (import.rs), from which the worker takes payloads. On chain, the pallet keeps the
-- authorities and the slot.
--
-- Files.
--   Prelude, Prelude/*: tests on the native numbers, lists, counting, maps.
--   Primitives, Exec, Crypto, Environment: numbers for hashes and keys, the errors of primitives.rs,
--     results, state passing for `&mut self`, and the parameters from outside the repository.
--   Message/*: message.rs, one module for each type with its `digest` and `verify`;
--     Message/Quorum, TcQuorum, VoteBag, Certificate and Authenticity: what these checks accept.
--   Aggregator, Aggregator/*: aggregator.rs; `append_qc` is `QCMaker::append`, `append_tc` is
--     `TCMaker::append`.
--   Consensus/State: `ConsensusState` of consensus.rs, method by method; Consensus/Leader, Voting.
--   Network, Network/Window: `GossipValidator`; Synchronizer, Synchronizer/Ancestors: the store.
--   Worker/Defs, Payloads, Proposals, Handlers: `ConsensusWorker`, its state, `get_proposal_payload` and
--     its handlers. A handler is cut where a lemma needs a name: `cast_vote` is the end of
--     `handle_proposal`, `on_qc` the part of `handle_vote` after a QC, `on_tc` that of
--     `handle_timeout` after a TC.
--   Worker/Steps: what a worker may do, as a step relation; Worker/Refines: the handlers do no more;
--   Worker/Safety: votes, views, certificates and signatures of a run, and the blocks that it finalizes;
--     Worker/Termination: the handlers return; Worker/Progress, Responding and Finalizing: how
--     a leader and a replica go on, and when a block is finalized.
--   Queue, Queue/* and BlockImport: import.rs; NetworkTask: `ConsensusNetwork` of consensus.rs;
--   Authorities: authorities.rs, aux_schema.rs and the readers of the genesis authorities;
--   Pallet: hotstuff/pallets/hotstuff/src/lib.rs; Pallet/Slots and Pallet/Sessions: its blocks and
--     its sessions; Pallet/Digests: digests.rs and inherents.rs of hotstuff/primitives; Pallet/Authored: a
--     block that follows them.
--   Tasks: `start_hotstuff` and the two tasks that it makes, with what they share; `act` is one turn of
--     the worker's loop or one poll of the network task. Tasks/Composed: what happens to the worker
--     among the tasks; Tasks/Replay: its inputs; Tasks/Channel: the messages between them; Tasks/Started: both from the start.
--   Agreement, Agreement/Finality and Round: several replicas, each a sequence of steps of a worker; the
--     blocks that they finalize; a proposal that they answer.
--   Service and Command: node-template/node/src/service.rs, and command.rs with cli.rs: from the command
--     line to the tasks that are spawned. Network/Bridge: hotstuff/consensus/src/config.rs, and
--     `HotstuffNetworkBridge` of network.rs.
--   Benchmarking: node-template/node/src/benchmarking.rs, its extrinsics.
--   ChainSpec: node-template/node/src/chain_spec.rs, `load_spec` of command.rs, and the constants and
--     the API of node-template/runtime/src/lib.rs that concern the pallet.
--   Examples/*: networks of four and of seven authorities, in which the theorems are applied.
--
-- Conventions. Hashes, keys and signatures are byte strings of a fixed width, read as numbers. A view
-- is a u64 and `view + 1` wraps, as a release build has it. A panic is a result of its own.
-- What a stream or a timer has ready is a list of events. The worker shares the queue of pending
-- blocks with the network task; `run` is of a worker alone, with the queue as it is at the start, and
-- `act_all` of Tasks is of both tasks in any order.
-- A method of `&mut self` returns its result and the new state, also when it fails.
--
-- Fuel. `handle_proposal` and `handle_vote` call each other, and a leader alone could propose and
-- vote many times in one call. The recursion is on fuel: a handler gives `exhausted` when it runs
-- out, and leaves the state as the steps so far made it. One unit is spent on each proposal. A nested
-- proposal comes after a vote, and a vote raises the last voted view, a u64: 2^64 units are enough.
--
-- Not modelled: the gossip engine, the peers, the scheduling of async tasks, logging, the RPC modules, the
-- rest of the runtime and the pallet's weights. What Substrate builds for a node (client, pool, import
-- queue, block author) is a parameter of Service. Hashing, signatures, the keystore, the SCALE codec
-- and the client are parameters. Where a theorem relies on them, a record names the laws: `IsBinding`,
-- `IsSigning`, `IsDigesting` and `IsUnforged` (keys and digests), `IsHashing` (proposals' digests),
-- `StoreLaws` and `AuxLaws` (the store and the codec), `SlotLaws` and `InherentLaws`
-- (slots and inherent data), and `IsWorking` (what Substrate builds answers).
pub mod Prelude
pub mod Primitives
pub mod Crypto
pub mod Message
pub mod Aggregator
pub mod Consensus
pub mod Exec
pub mod Network
pub mod Environment
pub mod Synchronizer
pub mod Worker
pub mod Agreement
pub mod Round
pub mod Queue
pub mod NetworkTask
pub mod Authorities
pub mod BlockImport
pub mod Tasks
pub mod Service
pub mod Command
pub mod Benchmarking
pub mod Pallet
pub mod ChainSpec
pub mod Examples
