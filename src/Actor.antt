-- ===== src/Actor.antt =====
-- consensus-node/executor/state/src/root_actor.rs and sub_actor.rs: the identities and records of
-- actors and the operations that mint and rebind them.
pub mod Codec
use jx.Base.{
  ℕ, ◌^◌, Bool, true, false, not, Option, none, some, List, [], ◌∷◌, ◌++◌, length, ltb, leb, ◌==◌,
  if◌then◌else◌,
}
use jx.Roster.{Bytes}
use jx.Wire.{to_be_bytes, from_be_bytes}
use jx.Op.{
  ExecutorError, truncated, unknown_actor_id_variant, unknown_actor_tag, actor_index_out_of_range,
  expected_sub_actor, Decoded, accepted, refused, and_then, append_field, write_bytes,
  reject_trailing,
}
use jx.MerkleLog
use jx.MerkleLog.{Hash, ConsistencyProof, InclusionProof}
use jx.MerkleLog.Codec.{encode_consistency, encode_inclusion, read_proof}
use jx.Did.{DidId, encode_id, decode_id, take_exact, take_byte, take_key}

pub data Tag : Type 0 where
  defi messenger game generic : Tag

unfoldable pub code : Tag → ℕ
code defi = 0
code messenger = 1
code game = 2
code generic = 3

unfoldable pub from_code : ℕ → Option Tag
from_code c =
    if c == 0
    then some defi
    else if c == 1
    then some messenger
    else if c == 2
    then some game
    else if c == 3
    then some generic
    else none

pub data ActorId : Type 0 where
  root : DidId → ActorId
  sub : DidId → Tag → ℕ → ActorId

-- `ActorId::encode`
unfoldable pub encode_actor_id : ActorId → Option Bytes
encode_actor_id (root did) = append_field (some (0 ∷ [])) (encode_id did)
encode_actor_id (sub root_did tag index) =
    append_field (some (1 ∷ []))
      (append_field (encode_id root_did) (some (code tag ∷ to_be_bytes 4 index)))

-- `actor_state_key`
unfoldable pub actor_state_key : ActorId → Option Bytes
actor_state_key id = append_field (some (0xA1 ∷ [])) (encode_actor_id id)

pub record RootActor : Type 0 where
  pub did_id : DidId
  pub merkle_root : Hash
  pub leaf_count : ℕ
  pub control_key : Bytes

pub record SubActor : Type 0 where
  pub actor_id : ActorId
  pub control_key : Bytes
  pub operating_key : Bytes

-- `RootActor::encode`
unfoldable pub encode_root : RootActor → Option Bytes
encode_root r =
    append_field (encode_id r.did_id)
      (some (r.merkle_root ++ (to_be_bytes 8 r.leaf_count ++ r.control_key)))

abbrev pub is_root : ActorId → Bool
is_root (root did) = true
is_root (sub did tag index) = false

-- `SubActor::new`
unfoldable pub new_sub : ActorId → Bytes → Bytes → Decoded SubActor
new_sub actor_id control_key operating_key =
    if is_root actor_id
    then refused expected_sub_actor
    else accepted
        (record { actor_id = actor_id; control_key = control_key; operating_key = operating_key })

-- `SubActor::encode`
unfoldable pub encode_sub : SubActor → Option Bytes
encode_sub s = append_field (encode_actor_id s.actor_id) (some (s.control_key ++ s.operating_key))

abbrev pub subactor_leaf_domain : Bytes
subactor_leaf_domain =
    106 ∷ 107 ∷ 97 ∷ 105 ∷ 110 ∷ 58 ∷ 115 ∷ 117 ∷ 98 ∷ 97 ∷ 99 ∷ 116 ∷ 111 ∷ 114 ∷ 45 ∷ 108 ∷ 101
    ∷ 97 ∷ 102 ∷ 58 ∷ 118 ∷ 49 ∷ []

-- an identity behind its length; `none` is the panic of `expect`
unfoldable pub id_field : ActorId → Option Bytes
id_field id = elim (encode_actor_id id) [ none ↦ none | some bytes ↦ write_bytes bytes ]

-- `subactor_leaf_data`
unfoldable pub subactor_leaf_data : ActorId → Bytes → Option Bytes
subactor_leaf_data actor_id control_key =
    append_field (some subactor_leaf_domain) (append_field (id_field actor_id) (some control_key))

pub record SubActorOp : Type 0 where
  pub root_did : DidId
  pub tag : Tag
  pub index : ℕ
  pub control_key : Bytes
  pub operating_key : Bytes
  pub new_root : Hash
  pub consistency_proof : ConsistencyProof
  pub inclusion_proof : InclusionProof
  pub signature : Bytes
  pub signed_by : ℕ

pub record RebindOp : Type 0 where
  pub actor_id : ActorId
  pub new_operating_key : Bytes
  pub proof_of_possession : Bytes
  pub authorizing_signature : Bytes

-- `SubActorOp::actor_id`
abbrev pub minted_id : SubActorOp → ActorId
minted_id op = sub op.root_did op.tag op.index

abbrev pub subactor_signed_domain : Bytes
subactor_signed_domain =
    106 ∷ 107 ∷ 97 ∷ 105 ∷ 110 ∷ 58 ∷ 115 ∷ 117 ∷ 98 ∷ 97 ∷ 99 ∷ 116 ∷ 111 ∷ 114 ∷ 58 ∷ 118 ∷ 49
    ∷ []

abbrev pub rebind_signed_domain : Bytes
rebind_signed_domain =
    106 ∷ 107 ∷ 97 ∷ 105 ∷ 110 ∷ 58 ∷ 114 ∷ 101 ∷ 98 ∷ 105 ∷ 110 ∷ 100 ∷ 58 ∷ 118 ∷ 49 ∷ []

-- `SubActorOp::signed_payload`
unfoldable pub sub_actor_payload : SubActorOp → Option Bytes
sub_actor_payload op =
    append_field (some subactor_signed_domain)
      (append_field (id_field (minted_id op)) (some (op.control_key ++ op.operating_key)))

-- `RebindOp::signed_payload`
unfoldable pub rebind_payload : RebindOp → Bytes → Option Bytes
rebind_payload op old_operating_key =
    append_field (some rebind_signed_domain)
      (append_field (id_field op.actor_id) (some (old_operating_key ++ op.new_operating_key)))

-- `RebindOp::encode`
unfoldable pub encode_rebind : RebindOp → Option Bytes
encode_rebind op =
    append_field (encode_actor_id op.actor_id)
      (some (op.new_operating_key ++ (op.proof_of_possession ++ op.authorizing_signature)))

-- `SubActorOp::encode`
unfoldable pub encode_sub_actor_op : SubActorOp → Option Bytes
encode_sub_actor_op op = append_field (encode_id op.root_did) (
    append_field
      (some (
        code op.tag
        ∷ (to_be_bytes 4 op.index ++ (op.control_key ++ (op.operating_key ++ op.new_root)))))
      (append_field (encode_consistency op.consistency_proof) (
        append_field (encode_inclusion op.inclusion_proof)
          (some (op.signature ++ op.signed_by ∷ [])))))

-- the tag and the index of an identity, and the check of their ranges
unfoldable pub decode_tag : Bytes → Decoded (Tag × Bytes)
decode_tag cursor = and_then (take_byte cursor) λ (c : ℕ × Bytes). elim (from_code c.0) [
  | none ↦ refused (unknown_actor_tag c.0)
  | some tag ↦ accepted (tag, c.1)
]

unfoldable pub decode_index : Bytes → Decoded (ℕ × Bytes)
decode_index cursor = and_then (take_exact 4 cursor) λ (bytes : Bytes × Bytes).
    if leb 0x80000000 (from_be_bytes bytes.0)
    then refused (actor_index_out_of_range (from_be_bytes bytes.0))
    else accepted (from_be_bytes bytes.0, bytes.1)

abbrev or_truncated {ℓ} : {A : Type ℓ} → Option A → Decoded A
or_truncated none = refused truncated
or_truncated (some a) = accepted a

module _ (is_utf8 : Bytes → Bool) where
  -- `ActorId::decode`
  unfoldable pub decode_actor_id : Bytes → Decoded (ActorId × Bytes)
  decode_actor_id cursor = and_then (take_byte cursor) λ (variant : ℕ × Bytes).
      if variant.0 == 0
      then and_then (decode_id is_utf8 variant.1)
          (λ (did : DidId × Bytes). accepted (root did.0, did.1))
      else if variant.0 == 1
      then and_then (decode_id is_utf8 variant.1) (λ (did : DidId × Bytes).
        and_then (decode_tag did.1) λ (tag : Tag × Bytes).
          and_then (decode_index tag.1)
            λ (index : ℕ × Bytes). accepted (sub did.0 tag.0 index.0, index.1))
      else refused (unknown_actor_id_variant variant.0)

  module _ (is_point : Bytes → Bool) where
    -- `RootActor::decode`
    unfoldable pub decode_root : Bytes → Decoded (RootActor × Bytes)
    decode_root cursor = and_then (decode_id is_utf8 cursor) λ (did : DidId × Bytes).
        and_then (take_exact 32 did.1) λ (merkle_root : Bytes × Bytes).
          and_then (take_exact 8 merkle_root.1) λ (count : Bytes × Bytes).
            and_then (take_key is_point count.1) λ (control : Bytes × Bytes). accepted (
              record {
                did_id = did.0;
                merkle_root = merkle_root.0;
                leaf_count = from_be_bytes count.0;
                control_key = control.0;
              },
              control.1,
            )

    -- `SubActor::decode`
    unfoldable pub decode_sub : Bytes → Decoded (SubActor × Bytes)
    decode_sub cursor = and_then (decode_actor_id cursor) λ (id : ActorId × Bytes).
        if is_root id.0
        then refused expected_sub_actor
        else and_then (take_key is_point id.1) λ (control : Bytes × Bytes).
          and_then (take_key is_point control.1) λ (operating : Bytes × Bytes). accepted (
            record { actor_id = id.0; control_key = control.0; operating_key = operating.0 },
            operating.1,
          )

    -- `RebindOp::decode`
    unfoldable pub decode_rebind : Bytes → Decoded RebindOp
    decode_rebind payload = and_then (decode_actor_id payload) λ (id : ActorId × Bytes).
        and_then (take_key is_point id.1) λ (key : Bytes × Bytes).
          and_then (take_exact 64 key.1) λ (pop : Bytes × Bytes).
            and_then (take_exact 64 pop.1) λ (auth : Bytes × Bytes).
              reject_trailing
                (record {
                  actor_id = id.0;
                  new_operating_key = key.0;
                  proof_of_possession = pop.0;
                  authorizing_signature = auth.0;
                })
                auth.1

    abbrev read_consistency : Bytes → Decoded (ConsistencyProof × Bytes)
    read_consistency cursor =
        and_then (or_truncated (read_proof cursor)) λ (p : (ℕ × ℕ × List Hash) × Bytes).
          accepted (record { old_leaf_count = p.0.0; new_leaf_count = p.0.1; nodes = p.0.2 }, p.1)

    abbrev read_inclusion : Bytes → Decoded (InclusionProof × Bytes)
    read_inclusion cursor =
        and_then (or_truncated (read_proof cursor)) λ (p : (ℕ × ℕ × List Hash) × Bytes).
          accepted (record { leaf_index = p.0.0; leaf_count = p.0.1; nodes = p.0.2 }, p.1)

    -- `SubActorOp::decode`
    unfoldable pub decode_sub_actor_op : Bytes → Decoded SubActorOp
    decode_sub_actor_op payload = and_then (decode_id is_utf8 payload) λ (did : DidId × Bytes).
        and_then (decode_tag did.1) λ (tag : Tag × Bytes).
          and_then (decode_index tag.1) λ (index : ℕ × Bytes).
            and_then (take_key is_point index.1) λ (control : Bytes × Bytes).
              and_then (take_key is_point control.1) λ (operating : Bytes × Bytes).
                and_then (take_exact 32 operating.1) λ (new_root : Bytes × Bytes).
                  and_then (read_consistency new_root.1) λ (consistency : ConsistencyProof × Bytes).
                    and_then (read_inclusion consistency.1) λ (inclusion : InclusionProof × Bytes).
                      and_then (take_exact 64 inclusion.1) λ (signature : Bytes × Bytes).
                        and_then (take_byte signature.1) λ (signed_by : ℕ × Bytes).
                          reject_trailing
                            (record {
                              root_did = did.0;
                              tag = tag.0;
                              index = index.0;
                              control_key = control.0;
                              operating_key = operating.0;
                              new_root = new_root.0;
                              consistency_proof = consistency.0;
                              inclusion_proof = inclusion.0;
                              signature = signature.0;
                              signed_by = signed_by.0;
                            })
                            signed_by.1

module _ (sha256 : Bytes → Hash) where
  -- `subactor_leaf_hash`
  unfoldable pub subactor_leaf_hash : ActorId → Bytes → Option Hash
  subactor_leaf_hash actor_id control_key = elim (subactor_leaf_data actor_id control_key) [
    | none ↦ none
    | some data_bytes ↦ some (MerkleLog.leaf_hash sha256 data_bytes)
  ]
