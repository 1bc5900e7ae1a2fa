-- ===== src/Lib.antt =====
-- A model of the consensus core and of the executor of the JX nodes, with the theorems that make
-- them correct. Paths are those of the repository.
--
-- Roster (consensus-node/protocol/crypto/src/membership.rs and roster.rs): the membership registry and
--   `RosterHistory`, the registries by activation round. A map is a list of keys and values, and a
--   `BTreeMap` one in ascending order. Membership has `MembershipOp` of roster.rs with its codec,
--   and Membership/Registry the key lookups and the encoding of a registry.
-- Hashgraph (consensus-node/protocol/consensus/src/hashgraph.rs and error.rs): the event records, the
--   graph with its indices, and the accessors and setters. Hashgraph/Monad has the result of a query,
--   with the crate's errors and its panics, and the methods on `&mut self`, which keep what was
--   written before an error.
-- Ancestry (consensus-node/protocol/consensus/src/ancestry.rs): `is_ancestor`, `see` and
--   `strongly_see_at`, with the breadth-first walks that run where a fork is known.
-- Order (order.rs and the ordering half of hashgraph.rs beside it): `assign_order` with the first-seen
--   search and the median, `order_decided_rounds` and `decide_fame`. Order/Consensus has
--   `consensus_order`, with its sorting keys (Order/Consensus/Ascending and Agreement).
-- Fame (fame.rs): `vote_of`, `try_eager_decide` and `vote_as_witness`.
-- Round (round.rs): `base_round` and `finalize_round`.
-- Insert (hashgraph.rs): `insert`, which calls all of these as the code does, and `insert_accepted`
--   (Insert/Accepted), the entry of transferred records.
-- Final: the relation between a state of the graph and the states after it, its rules for ordering
--   (Final/Pending, Final/Ordering), voting (Final/Voting) and insertion (Final/Insertion), runs of
--   insertions (Final/Runs), and transfers (Final/Transfer).
-- MerkleLog (consensus-node/executor/state/src/merkle_log.rs): the tree of RFC 6962, its inclusion and
--   consistency proofs, their verification and their wire forms. `sha256` is a parameter.
-- Op (consensus-node/executor/state/src/op.rs): the operations on the state, their codec, and the
--   dispatch of a payload. Wire has the numbers and slices that the codecs share.
-- Merkle (consensus-node/executor/state/src/merkle.rs): the sparse Merkle tree over the key-value
--   state, its proofs and their codec. Merkle/Subtree has the whole tree that the branches stand for,
--   Merkle/Canonical and Merkle/Update what the operations keep, Merkle/Proof and Merkle/Sound the
--   proofs. A path is the list of the 256 bits of a digest.
-- State (consensus-node/executor/state/src/state.rs): the state over a keyspace of the crate fjall,
--   which is a record of operations with laws; State/Sheet is a keyspace in memory that obeys them.
-- Did and Actor (consensus-node/executor/state/src/did.rs, root_actor.rs and sub_actor.rs): the
--   identifiers, documents, records and operations of actors, with their codecs.
-- Executor (consensus-node/executor/state/src/executor.rs): the operations on identifiers and actors,
--   the execution of events (Executor/Event, Executor/Ends), the checks of a mint (Executor/Mint),
--   the buckets of finalized events (Executor/Once, Executor/Diffs), and the list of finalized events (Executor/Finalized).
--
-- Numbers are natural numbers; a hash is a 32-byte string read as a number in Hashgraph, and its bytes
-- in MerkleLog. An addition or product that would leave 64 bits is not modelled as wrapping: rounds,
-- sequence numbers and leaf counts stay far below; where the code checks a sum, as for the sequence
-- number of a transferred record, the check is modelled. A map that the code iterates in no fixed order is
-- iterated in the order of its list. The digest of an event and its verified signature come from
-- outside: `insert` takes the digest as a function.
--
-- Loops run on fuel: a walk over the ancestry has fuel for every stored event and its parents, an
-- election recursion for each round below the voter's, the ordering loop for each decided round, and
-- the recursions of the log for each leaf. Where fuel ends, the result is a fault, apart from any
-- error of the code. Each walk queues the parents of a stored event once; each recursion of the log is
-- on fewer leaves; each vote recursion goes one round down; the ordering loop passes a decided round once.
--
-- The loops of the Merkle tree run over its 256 depths, and the loops that load a snapshot have fuel for
-- each of its bytes, of which a turn takes eight at least.
--
-- Not modelled: the diagnostic counters and timings, checkpoints and pruning of the graph, the
-- textual form of an identifier, gossip, storage, streams and the programs around them.
pub mod Base
pub mod Roster
pub mod Hashgraph
pub mod Ancestry
pub mod Order
pub mod Executor
pub mod Fame
pub mod Round
pub mod Insert
pub mod Final
pub mod State
pub mod Wire
pub mod Did
pub mod Actor
pub mod Membership
pub mod Merkle
pub mod MerkleLog
pub mod Op
