-- ===== src/Executor/Tests.antt =====
-- A creation, a mint and a batch, at which the theorems apply. The digest here is a checksum of 32
-- bytes, and every signature is good.
use jx.Base.{
  ℕ, ◌==◌, Bool-cases, ◌+◌, ◌%◌, ◌≤◌, ◌≡◌, ◌⊎◌, inl, refl, true, false, Option, none, some, List,
  [], ◌∷◌, inr, arith, replicate, length-replicate, All, list_eq, nat_eq,
}
use jx.Roster.{Bytes}
use jx.Hashgraph
use jx.Hashgraph.{set_contains, set_insert}
use jx.MerkleLog
use jx.MerkleLog.{Hash}
use jx.Op
use jx.Op.{Decoded, accepted}
use jx.Wire.{to_be_bytes, from_be_bytes}
use jx.Merkle
use jx.Did.{
  DidId, DidDocument, DidOp, VerificationMethod, signing, agreement, encode_document,
  decode_document, encode_id,
}
use jx.Did
use jx.Did.Codec.{Reads, decode_document-Reads}
use jx.Actor.{
  ActorId, SubActorOp, RebindOp, game, sub, subactor_leaf_hash, encode_rebind, decode_rebind,
}
use jx.Actor
use jx.Actor.Codec.{decode_rebind-encode_rebind}
use jx.State
use jx.State.{State}
use jx.State.Sheet.{Pairs, sheet, sheet-KeyspaceLaws}
use jx.Base.Map
use jx.Executor
use jx.Executor.{
  Externals, ActorError, SubActorAfterImage, Ran, panicked, storage_error, done, apply_did_op,
  apply_sub_actor_op, reads,
}
use jx.Executor.Event.{
  Bucket, ExecuteResult, no_result, run_op, bucket_finalized, bucket_finalized_with_diffs,
}
use jx.Executor.Event
use jx.Executor.Once.{
  end_of, value_of, Executed, bucket_finalized-again, bucket_finalized-watermark,
}
use jx.Executor.Diffs.{map_run, bucket_finalized_with_diffs-plain}
use jx.Order.Consensus.Agreement.{SamePlaced}
use jx.Executor.Finalized.{finalized_events, finalized_events-agrees}
use jx.Base.Map.{get}
use jx.Executor.Ends.{run_op-Outcome, execute_event-reports}
use jx.Executor.Mint.{Minted, apply_sub_actor_op-Minted}

abbrev sum : Bytes → ℕ
sum [] = 0
sum (x ∷ xs) = x + sum xs

abbrev checksum : Bytes → Hash
checksum bytes = replicate 32 (sum bytes % 256)

abbrev lax : Externals ℕ Pairs
lax = record {
  sha256 = checksum;
  hash = λ event. some (sum event.signature);
  is_utf8 = λ bytes. true;
  is_point = λ bytes. true;
  verifies = λ key message signature. true;
  decode_membership = λ body. none;
  keyspace = sheet;
}

abbrev blank : State Pairs
blank = record { kv = []; tree = Merkle.new_tree checksum }

abbrev alice : DidId
alice = record { network = 109 ∷ []; alias = 97 ∷ []; uuid = replicate 16 1 }

abbrev alice_document : DidDocument
alice_document = record {
  control_key = replicate 32 7;
  methods = agreement (replicate 32 9) ∷ signing (replicate 32 8) ∷ [];
  deactivated = false;
}

-- a batch of one event with one write
abbrev event : Hashgraph.Event
event = record {
  creator = 1;
  self_parent = none;
  other_parent = none;
  timestamp = 5;
  payload = (0 ∷ 0 ∷ 0 ∷ 0 ∷ 1 ∷ 1 ∷ 0 ∷ 0 ∷ 0 ∷ 1 ∷ 2 ∷ []) ∷ (9 ∷ []) ∷ [];
  signature = 42 ∷ [];
}

abbrev batch : List (Hashgraph.Event × ℕ)
batch = (event, 3) ∷ []

abbrev bucket : Bucket ℕ Pairs
bucket = record { state = blank; executed = 7 ∷ []; pending = []; processed_through_round = 0 }

abbrev bucket_after : Bucket ℕ Pairs
bucket_after = end_of (bucket_finalized lax batch bucket) bucket

bucket_finalized-again_example :
    All (Executed lax bucket_after) batch
    × (bucket_finalized lax batch bucket_after ≡ done bucket_after tt)
unfolding bucket_finalized Event.bucket_loop Event.execute_event Event.execute_txs Event.decode_tx
    set_contains run_op Op.decode_payload Op.decode_put Op.take_bytes from_be_bytes
    Op.reject_reserved_prefix Op.reject_trailing Executor.apply_op State.apply sheet Merkle.insert
    Merkle.leaf_hash Op.write_bytes Event.raise_watermark Event.new_max set_insert
bucket_finalized-again_example =
    bucket_finalized-again lax batch batch bucket bucket_after refl ((42, refl, refl), tt)

bucket_finalized_with_diffs-plain_example :
    map_run (λ _. tt) (bucket_finalized_with_diffs lax batch bucket)
    ≡ bucket_finalized lax batch bucket
bucket_finalized_with_diffs-plain_example = bucket_finalized_with_diffs-plain lax batch bucket

decode_document-Reads_example :
    Reads (decode_document lax.is_point) (encode_document alice_document) alice_document
decode_document-Reads_example = decode_document-Reads lax.is_point alice_document (record {
  control_32 = length-replicate {A = ℕ} 32 7;
  control_point = refl;
  each_method = (length-replicate {A = ℕ} 32 9, ((length-replicate {A = ℕ} 32 8, refl), tt));
  some_method = omega arith;
  few_methods = omega arith;
  some_signing = refl;
})

abbrev rebind_op : RebindOp
rebind_op = record {
  actor_id = sub alice game 5;
  new_operating_key = replicate 32 3;
  proof_of_possession = replicate 64 1;
  authorizing_signature = replicate 64 2;
}

decode_rebind-encode_rebind_example :
    (bytes : Bytes) × (encode_rebind rebind_op ≡ some bytes)
    × (decode_rebind lax.is_utf8 lax.is_point bytes ≡ accepted rebind_op)
decode_rebind-encode_rebind_example =
    decode_rebind-encode_rebind lax.is_utf8 lax.is_point rebind_op
      (
        record {
          short_network = omega arith;
          short_alias = omega arith;
          sixteen = length-replicate {A = ℕ} 16 1;
          network_utf8 = refl;
          alias_utf8 = refl;
          network_colon = refl;
          alias_colon = refl;
        },
        omega arith,
      )
      (length-replicate {A = ℕ} 32 3, refl) (length-replicate {A = ℕ} 64 1)
      (length-replicate {A = ℕ} 64 2)

bucket_finalized-watermark_example :
    (bucket.processed_through_round ≤ bucket_after.processed_through_round)
    × (set_contains 7 bucket_after.executed ≡ true)
unfolding bucket_finalized Event.bucket_loop Event.execute_event Event.execute_txs Event.decode_tx
    set_contains run_op Op.decode_payload Op.decode_put Op.take_bytes from_be_bytes
    Op.reject_reserved_prefix Op.reject_trailing Executor.apply_op State.apply sheet Merkle.insert
    Merkle.leaf_hash Op.write_bytes Event.raise_watermark Event.new_max set_insert
bucket_finalized-watermark_example =
    bucket_finalized-watermark lax batch bucket bucket_after 7 refl refl

abbrev written : State Pairs
written =
    end_of (run_op lax (accepted (Op.kv (Op.put (1 ∷ []) (2 ∷ [])))) (no_result lax) blank) blank

run_op-Outcome_example :
    (State.apply checksum sheet (Op.put (1 ∷ []) (2 ∷ [])) blank ≡ some (written, true))
    × (no_result lax ≡ no_result lax)
unfolding run_op Executor.apply_op State.apply sheet Merkle.insert Merkle.leaf_hash Op.write_bytes
run_op-Outcome_example =
    run_op-Outcome lax (accepted (Op.kv (Op.put (1 ∷ []) (2 ∷ [])))) (no_result lax) (no_result lax)
      blank written refl

-- an event of two payloads that no decoder takes
abbrev unknown : Hashgraph.Event
unknown = record event { payload = (200 ∷ []) ∷ [] ∷ [] }

abbrev reported : ExecuteResult ℕ
reported = value_of (Event.execute_event lax unknown blank) (no_result lax)

execute_event-reports_example : end_of (Event.execute_event lax unknown blank) blank ≡ blank
unfolding Event.execute_event Event.execute_txs Event.decode_tx run_op Op.decode_payload
execute_event-reports_example =
    execute_event-reports lax unknown reported blank
      (end_of (Event.execute_event lax unknown blank) blank) refl refl

abbrev no_images : SubActorAfterImage
no_images = record { sub_actor = ([], []); root = ([], []) }

-- the state after the creation of an identifier
abbrev creation : DidOp
creation = record {
  id = alice;
  document = alice_document;
  signature = replicate 64 0;
  signed_by = 0;
  is_creation = true;
}

abbrev created : State Pairs
created = end_of (apply_did_op lax creation blank) blank

abbrev leaf_of : Option Hash → Hash
leaf_of none = []
leaf_of (some leaf) = leaf

abbrev images_of : ActorError ⊎ SubActorAfterImage → SubActorAfterImage
images_of (inl e) = no_images
images_of (inr w) = w

-- the mint of the first identity: the new root is that of the log that holds it alone
abbrev mint : SubActorOp
mint = record {
  root_did = alice;
  tag = game;
  index = 5;
  control_key = replicate 32 4;
  operating_key = replicate 32 6;
  new_root = leaf_of (subactor_leaf_hash checksum (sub alice game 5) (replicate 32 4));
  consistency_proof = record { old_leaf_count = 0; new_leaf_count = 1; nodes = [] };
  inclusion_proof = record { leaf_index = 0; leaf_count = 1; nodes = [] };
  signature = replicate 64 0;
  signed_by = 0;
}

abbrev minted : State Pairs
minted = end_of (apply_sub_actor_op lax mint created) created

abbrev images : SubActorAfterImage
images = images_of (value_of (apply_sub_actor_op lax mint created) (inr no_images))

apply_sub_actor_op-Minted_example :
    (m : Minted lax mint (reads lax created) images) × (reads lax minted m.under.root_key
      ≡ some m.under.signed.root_value)
unfolding apply_sub_actor_op Executor.check_mint Executor.mint_under Executor.mint_signed
    Actor.actor_state_key Actor.encode_actor_id encode_id Op.write_bytes State.get_value sheet
    Map.get apply_did_op Executor.check_did Did.did_state_key Did.did_signed_payload
    Executor.verify_did Did.signing_key Did.nth_signing Executor.did_writes Actor.encode_root
    Executor.write_did Actor.code Actor.decode_root Actor.encode_sub Actor.id_field Actor.new_sub
    Actor.sub_actor_payload Actor.subactor_leaf_data subactor_leaf_hash Map.contains_key Map.put
    Map.remove decode_document Did.decode_id Did.decode_methods encode_document Did.encode_methods
    Did.take_byte Did.take_exact Did.take_key Executor.apply_op Executor.proves_mint
    Executor.write_mint jx.Merkle.Bits.bit jx.Merkle.Bits.bits_of jx.Merkle.Bits.flip Merkle.climb
    Merkle.combine Merkle.delete Merkle.empty Merkle.insert Merkle.internal Merkle.leaf_hash
    Merkle.mask Merkle.parent_hash Merkle.path_of Merkle.set_branch Merkle.singleton
    Merkle.subtree_hash Merkle.update_branch MerkleLog.consistency_rec MerkleLog.ilog2
    MerkleLog.inclusion_rec MerkleLog.largest_pow2_below MerkleLog.leaf_hash MerkleLog.node_hash
    MerkleLog.verify_consistency MerkleLog.verify_inclusion Op.take_bytes State.apply from_be_bytes
    to_be_bytes
apply_sub_actor_op-Minted_example =
    apply_sub_actor_op-Minted lax sheet-KeyspaceLaws mint created minted images refl

-- a stored record of the event, with its order
abbrev received_at : ℕ → ℕ → Hashgraph.EventRecord
received_at round timestamp = record {
  event = event;
  seq = 1;
  ancestor_seqs = 1 ∷ [];
  round = 1;
  is_witness = true;
  votes = [];
  fame_status = Hashgraph.famous;
  round_received = some round;
  consensus_timestamp = some timestamp;
}

-- two graphs with the same events and orders, listed in two orders: one has voted, and one has taken
-- the records over without votes
abbrev with_vote : Hashgraph.EventRecord → Hashgraph.EventRecord
with_vote r = record r { votes = (11, true) ∷ [] }

abbrev without_fame : Hashgraph.EventRecord → Hashgraph.EventRecord
without_fame r = record r { fame_status = Hashgraph.undecided; votes = [] }

abbrev upwards : Hashgraph.Hashgraph
upwards = record (Hashgraph.new_hashgraph (record { keys = [] })) {
  events = (11, received_at 2 9) ∷ (12, with_vote (received_at 2 8)) ∷ (13, received_at 1 7) ∷ [];
}

abbrev downwards : Hashgraph.Hashgraph
downwards = record (Hashgraph.new_hashgraph (record { keys = [] })) {
  events =
      (13, without_fame (received_at 1 7))
      ∷ (12, without_fame (received_at 2 8))
      ∷ (11, without_fame (received_at 2 9))
      ∷ [];
}

same_events : SamePlaced upwards downwards
unfolding get
same_events h = elim (Bool-cases (11 == h)) [
  | inl t ↦ ground (arith, t)
  | inr n ↦ elim (Bool-cases (12 == h)) [
    | inl t ↦ ground (arith, n, t)
    | inr m ↦ elim (Bool-cases (13 == h)) [
      | inl t ↦ ground (arith, n, m, t)
      | inr o ↦ ground (arith, n, m, o)
    ]
  ]
]

finalized_events-agrees_example : finalized_events upwards ≡ finalized_events downwards
unfolding get
finalized_events-agrees_example =
    finalized_events-agrees upwards downwards (refl, (refl, (refl, tt))) (refl, (refl, (refl, tt)))
      same_events
