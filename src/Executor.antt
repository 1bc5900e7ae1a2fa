-- ===== src/Executor.antt =====
-- consensus-node/executor/state/src/executor.rs: what an operation on identifiers and actors is
-- checked for, and what it writes. What comes from other crates is the record `Externals`.
pub mod Event
pub mod Finalized
pub mod Ends
pub mod Mint
pub mod Once
pub mod Diffs
mod Tests
use jx.Base.{
  ℕ, ◌+◌, Bool, true, false, not, ◌||◌, Option, none, some, List, [], ◌∷◌, ◌⊎◌, inl, inr, ◌==◌,
  if◌then◌else◌,
}
use jx.Roster.{Bytes}
use jx.Hashgraph
use jx.MerkleLog.{
  Hash, ConsistencyProof, InclusionProof, empty_root, verify_inclusion, verify_consistency,
}
use jx.Op
use jx.Op.{Op, Decoded, accepted, refused}
use jx.Did.{
  DidId, DidOp, DidDocument, did_state_key, did_signed_payload, signing_key, encode_document,
  decode_document,
}
use jx.Actor.{
  ActorId, RootActor, SubActor, SubActorOp, RebindOp, root, sub, minted_id, actor_state_key,
  encode_root, decode_root, encode_sub, decode_sub, new_sub, subactor_leaf_hash, sub_actor_payload,
  rebind_payload,
}
use jx.State
use jx.State.{Keyspace, State}

-- the digests, the checks of bytes, the signatures, the decoder of the membership operations, and
-- the keyspace
pub record Externals (M K : Type 0) : Type 0 where
  pub sha256 : Bytes → Hash
  -- `event.hash()`, which may fail
  pub hash : Hashgraph.Event → Option ℕ
  pub is_utf8 : Bytes → Bool
  pub is_point : Bytes → Bool
  -- whether the key verifies the signature of the message
  pub verifies : Bytes → Bytes → Bytes → Bool
  pub decode_membership : Bytes → Option M
  pub keyspace : Keyspace K

pub data DidError : Type 0 where
  unknown_signer invalid_signature identifier_already_exists unknown_identifier : DidError
  already_deactivated creation_deactivated : DidError

pub data ActorError : Type 0 where
  unknown_root_did root_deactivated unknown_root_actor sub_actor_already_exists : ActorError
  unknown_sub_actor unknown_signer invalid_signature consistency_proof_invalid : ActorError
  inclusion_proof_invalid expected_sub_actor_id invalid_proof_of_possession : ActorError
  invalid_authorization : ActorError

-- a run on a state: it panics, it ends in a storage error, or it gives a value
pub data Ran (S X : Type 0) : Type 0 where
  panicked : Ran S X
  storage_error : S → Ran S X
  done : S → X → Ran S X

abbrev pub and_run : {S X Y : Type 0} → Ran S X → (S → X → Ran S Y) → Ran S Y
and_run panicked f = panicked
and_run (storage_error st) f = storage_error st
and_run (done st x) f = f st x

-- a value with no bytes after it
abbrev pub whole : {A : Type 0} → Decoded (A × Bytes) → Option A
whole (accepted (a, [])) = some a
whole (accepted (a, b ∷ rest)) = none
whole (refused e) = none

-- `is_some`
abbrev pub is_there : {A : Type 0} → Option A → Bool
is_there none = false
is_there (some a) = true

-- a step that may panic
abbrev pub or_panic : {A B : Type 0} → Option A → (A → Option B) → Option B
or_panic none f = none
or_panic (some a) f = f a

-- a check that ends in an error where there is no value
abbrev pub or_error : {A E B : Type 0} → E → Option A → (A → Option (E ⊎ B)) → Option (E ⊎ B)
or_error e none f = some (inl e)
or_error e (some a) f = f a

abbrev pub unless : {E B : Type 0} → Bool → E → Option (E ⊎ B) → Option (E ⊎ B)
unless true e rest = some (inl e)
unless false e rest = rest

pub record DidWrites : Type 0 where
  pub did_write : Bytes × Bytes
  pub root_write : Option (Bytes × Bytes)

pub record SubActorAfterImage : Type 0 where
  pub sub_actor : Bytes × Bytes
  pub root : Bytes × Bytes

module _ {M K : Type 0} (x : Externals M K) where
  abbrev read_document : Bytes → Option DidDocument
  read_document bytes = whole (decode_document x.is_point bytes)

  abbrev read_root : Bytes → Option RootActor
  read_root bytes = whole (decode_root x.is_utf8 x.is_point bytes)

  abbrev read_sub : Bytes → Option SubActor
  read_sub bytes = whole (decode_sub x.is_utf8 x.is_point bytes)

  -- the signature of an operation by the signing method that it names
  abbrev signed_with : DidDocument → DidOp → Bytes → Option (DidError ⊎ Unit {0})
  signed_with document op payload =
      or_error unknown_signer (signing_key document op.signed_by)
        λ key. unless (not (x.verifies key payload op.signature)) invalid_signature (some (inr tt))

  -- the `verification` of `apply_did_op`
  unfoldable pub verify_did : DidOp → Bytes → Bool → Option Bytes → Option (DidError ⊎ Unit {0})
  verify_did op payload true (some bytes) = some (inl identifier_already_exists)
  verify_did op payload false none = some (inl unknown_identifier)
  verify_did op payload true none =
      unless op.document.deactivated creation_deactivated (signed_with op.document op payload)
  verify_did op payload false (some bytes) =
      or_error invalid_signature (read_document bytes)
        λ prior. unless prior.deactivated already_deactivated (signed_with prior op payload)

  -- the root record after an operation that is neither a creation nor a deactivation
  abbrev updated_root : DidOp → Option RootActor → RootActor
  updated_root op none = record {
    did_id = op.id;
    merkle_root = empty_root;
    leaf_count = 0;
    control_key = op.document.control_key;
  }
  updated_root op (some stored) = record stored {
    did_id = op.id;
    control_key = op.document.control_key;
  }

  abbrev stored_root : Option Bytes → Option RootActor
  stored_root none = none
  stored_root (some bytes) = read_root bytes

  abbrev with_root_write : DidOp → Bytes → Bytes → Option RootActor → Option (DidError ⊎ DidWrites)
  with_root_write op key root_key stored = or_panic (encode_root (updated_root op stored)) λ value.
      some (
        inr (record {
          did_write = (key, encode_document op.document);
          root_write = some (root_key, value);
        }))

  -- what an operation on an identifier that was verified writes
  unfoldable pub did_writes : DidOp → Bytes → (Bytes → Option Bytes) → Option (DidError ⊎ DidWrites)
  did_writes op key read =
      if op.document.deactivated
      then some (inr (record { did_write = (key, encode_document op.document); root_write = none }))
      else or_panic (actor_state_key (root op.id)) λ root_key.
        with_root_write op key root_key
          (if op.is_creation then none else stored_root (read root_key))

  -- the checks of `apply_did_op`, and what it writes
  unfoldable pub check_did : DidOp → (Bytes → Option Bytes) → Option (DidError ⊎ DidWrites)
  check_did op read = or_panic (did_state_key op.id) λ key.
      or_panic (did_signed_payload op) λ payload.
        or_panic (verify_did op payload op.is_creation (read key))
          λ verified. elim verified [ inl e ↦ some (inl e) | inr _ ↦ did_writes op key read ]

  -- the two proofs of a mint, against the root record
  unfoldable pub proves_mint : SubActorOp → RootActor → Hash → Option (ActorError ⊎ Unit {0})
  proves_mint op stored leaf =
      unless
        (not (op.inclusion_proof.leaf_index == stored.leaf_count)
          || not (op.inclusion_proof.leaf_count == stored.leaf_count + 1)
          || not (verify_inclusion x.sha256 leaf op.inclusion_proof op.new_root))
        inclusion_proof_invalid
        (unless
          (not (op.consistency_proof.old_leaf_count == stored.leaf_count)
            || not (op.consistency_proof.new_leaf_count == stored.leaf_count + 1)
            || not
                (verify_consistency x.sha256 stored.merkle_root op.consistency_proof op.new_root))
          consistency_proof_invalid (some (inr tt)))

  abbrev pub mint_images :
      SubActorOp → Bytes → Bytes → RootActor → Option (ActorError ⊎ SubActorAfterImage)
  mint_images op sub_key root_key stored =
      elim (new_sub (minted_id op) op.control_key op.operating_key) [
        | refused e ↦ some (inl expected_sub_actor_id)
        | accepted actor ↦ or_panic (encode_sub actor) λ sub_value.
            or_panic
              (encode_root (record {
                did_id = op.root_did;
                merkle_root = op.new_root;
                leaf_count = stored.leaf_count + 1;
                control_key = stored.control_key;
              }))
              λ root_value.
                some
                  (inr (record { sub_actor = (sub_key, sub_value); root = (root_key, root_value) }))
      ]

  -- the signature of a mint, its leaf and its proofs
  unfoldable pub mint_signed :
      SubActorOp
      → Bytes
      → Bytes
      → DidDocument
      → RootActor
      → Option (ActorError ⊎ SubActorAfterImage)
  mint_signed op sub_key root_key doc stored = or_panic (sub_actor_payload op) λ payload.
      or_error unknown_signer (signing_key doc op.signed_by) λ key.
        unless (not (x.verifies key payload op.signature)) invalid_signature (
          or_panic (subactor_leaf_hash x.sha256 (minted_id op) op.control_key) λ leaf.
            or_panic (proves_mint op stored leaf) λ proved. elim proved [
              | inl e ↦ some (inl e)
              | inr _ ↦ mint_images op sub_key root_key stored
            ])

  -- the document and the root record of a mint
  unfoldable pub mint_under :
      SubActorOp
      → Bytes
      → DidDocument
      → (Bytes → Option Bytes)
      → Option (ActorError ⊎ SubActorAfterImage)
  mint_under op sub_key doc read = unless doc.deactivated root_deactivated (
      or_panic (actor_state_key (root op.root_did)) λ root_key.
        or_error unknown_root_actor (read root_key) λ encoded_root.
          or_error unknown_root_actor (read_root encoded_root)
            λ stored. mint_signed op sub_key root_key doc stored)

  -- the checks of `apply_sub_actor_op`, and what it writes
  unfoldable pub check_mint :
      SubActorOp → (Bytes → Option Bytes) → Option (ActorError ⊎ SubActorAfterImage)
  check_mint op read = or_panic (actor_state_key (minted_id op)) λ sub_key.
      unless (is_there (read sub_key)) sub_actor_already_exists (
        or_panic (did_state_key op.root_did) λ did_key.
          or_error unknown_root_did (read did_key) λ encoded_doc.
            or_error unknown_root_did (read_document encoded_doc)
              λ doc. mint_under op sub_key doc read)

  abbrev rebound : RebindOp → Bytes → SubActor → Option (ActorError ⊎ (Bytes × Bytes))
  rebound op sub_key stored = elim (new_sub op.actor_id stored.control_key op.new_operating_key) [
    | refused e ↦ some (inl expected_sub_actor_id)
    | accepted actor ↦ or_panic (encode_sub actor) λ value. some (inr (sub_key, value))
  ]

  -- the checks of `apply_rebind_op` once the root's identifier is known, and what it writes
  abbrev check_rebind_of :
      DidId → RebindOp → (Bytes → Option Bytes) → Option (ActorError ⊎ (Bytes × Bytes))
  check_rebind_of root_did op read = or_panic (actor_state_key op.actor_id) λ sub_key.
      or_error unknown_sub_actor (read sub_key) λ encoded_sub.
        or_error unknown_sub_actor (read_sub encoded_sub) λ stored.
          or_panic (did_state_key root_did) λ did_key.
            or_error unknown_root_did (read did_key) λ encoded_doc.
              or_error unknown_root_did (read_document encoded_doc) λ doc.
                unless doc.deactivated root_deactivated (
                  or_panic (actor_state_key (root root_did)) λ root_key.
                    or_error unknown_root_actor (read root_key) λ encoded_root.
                      or_error unknown_root_actor (read_root encoded_root) λ root_record.
                        or_panic (rebind_payload op stored.operating_key) λ payload.
                          unless
                            (not (x.verifies op.new_operating_key payload op.proof_of_possession))
                            invalid_proof_of_possession
                            (unless
                              (not (
                                x.verifies root_record.control_key payload
                                  op.authorizing_signature))
                              invalid_authorization (rebound op sub_key stored)))

  unfoldable pub check_rebind :
      RebindOp → (Bytes → Option Bytes) → Option (ActorError ⊎ (Bytes × Bytes))
  check_rebind op read = elim op.actor_id [
    | root did ↦ some (inl expected_sub_actor_id)
    | sub root_did tag index ↦ check_rebind_of root_did op read
  ]

  -- `State::apply` with its error handed on
  unfoldable pub apply_op : Op → State K → Ran (State K) (Unit {0})
  apply_op op st = elim (State.apply x.sha256 x.keyspace op st) [
    | none ↦ panicked
    | some (after, false) ↦ storage_error after
    | some (after, true) ↦ done after tt
  ]

  abbrev pub write : Bytes × Bytes → State K → Ran (State K) (Unit {0})
  write entry st = apply_op (Op.put entry.0 entry.1) st

  -- an error that leaves the state as it is, or the writes
  abbrev pub decide :
      {E A : Type 0}
      → Option (E ⊎ A)
      → (A → State K → Ran (State K) (Unit {0}))
      → State K
      → Ran (State K) (E ⊎ A)
  decide none writes st = panicked
  decide (some (inl e)) writes st = done st (inl e)
  decide (some (inr a)) writes st = and_run (writes a st) λ after _. done after (inr a)

  abbrev pub reads : State K → Bytes → Option Bytes
  reads st key = State.get_value x.sha256 x.keyspace key st

  unfoldable pub write_did : DidWrites → State K → Ran (State K) (Unit {0})
  write_did w st =
      and_run (write w.did_write st)
        λ after _. elim w.root_write [ none ↦ done after tt | some entry ↦ write entry after ]

  unfoldable pub write_mint : SubActorAfterImage → State K → Ran (State K) (Unit {0})
  write_mint w st = and_run (write w.sub_actor st) λ after _. write w.root after

  unfoldable pub apply_did_op : DidOp → State K → Ran (State K) (DidError ⊎ DidWrites)
  apply_did_op op st = decide (check_did op (reads st)) write_did st

  unfoldable pub apply_sub_actor_op :
      SubActorOp → State K → Ran (State K) (ActorError ⊎ SubActorAfterImage)
  apply_sub_actor_op op st = decide (check_mint op (reads st)) write_mint st

  unfoldable pub apply_rebind_op : RebindOp → State K → Ran (State K) (ActorError ⊎ (Bytes × Bytes))
  apply_rebind_op op st = decide (check_rebind op (reads st)) write st
