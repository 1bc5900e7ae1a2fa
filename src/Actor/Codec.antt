-- ===== src/Actor/Codec.antt =====
-- The encodings of identities, records and rebinds of
-- consensus-node/executor/state/src/root_actor.rs and sub_actor.rs, read back.
use jx.Base.{
  ℕ, ◌^◌, ◌<◌, ◌≡◌, refl, sym, ◌∙◌, ap, Bool, true, false, some, [], ◌∷◌, ◌++◌, length, leb, arith,
}
use mathlib.Core.List.{append_assoc, append-nil}
use jx.Roster.{Bytes}
use jx.Wire.{to_be_bytes, length-to_be_bytes, from_be_bytes-to_be_bytes}
use jx.Op.{accepted, reject_trailing}
use jx.Did.{take_exact}
use jx.Did.Codec.{Reads, IsId, take_exact-Reads, take_byte-Reads, take_key-Reads, decode_id-Reads}
use jx.Actor.{
  Tag, defi, messenger, game, generic, code, from_code, ActorId, root, sub, encode_actor_id,
  decode_tag, decode_index, decode_actor_id, RootActor, SubActor, RebindOp, is_root, encode_root,
  decode_root, encode_sub, decode_sub, encode_rebind, decode_rebind,
}

decode_tag-Reads : (tag : Tag) → Reads decode_tag (code tag ∷ []) tag
unfolding decode_tag code from_code
decode_tag-Reads defi rest = rw (take_byte-Reads 0 rest) refl
decode_tag-Reads messenger rest = rw (take_byte-Reads 1 rest) refl
decode_tag-Reads game rest = rw (take_byte-Reads 2 rest) refl
decode_tag-Reads generic rest = rw (take_byte-Reads 3 rest) refl

decode_index-Reads :
    (index : ℕ) → index < 0x80000000 → Reads decode_index (to_be_bytes 4 index) index
unfolding decode_index
decode_index-Reads index h rest =
    let in_range : leb 0x80000000 index ≡ false = ground arith in
    rw
      (
        take_exact-Reads 4 (to_be_bytes 4 index) (length-to_be_bytes 4 index) rest,
        from_be_bytes-to_be_bytes 4 index (omega arith),
        in_range,
      )
      refl

module _ (is_utf8 : Bytes → Bool) where
  -- an identity that the decoder takes: its index has 31 bits
  abbrev pub IsActorId : ActorId → Type 0
  IsActorId (root did) = IsId is_utf8 did
  IsActorId (sub did tag index) = IsId is_utf8 did × (index < 0x80000000)

  -- An identity is encoded, and read back from its encoding.
  pub decode_actor_id-Reads :
      (id : ActorId)
      → IsActorId id
      → (bytes : Bytes) × (encode_actor_id id ≡ some bytes)
        × Reads (decode_actor_id is_utf8) bytes id
  unfolding encode_actor_id decode_actor_id
  decode_actor_id-Reads (root did) h =
      let (b, e, d) = decode_id-Reads is_utf8 did h in
      (0 ∷ b, rw e refl, λ rest. rw (take_byte-Reads 0 (b ++ rest), d rest) refl)
  decode_actor_id-Reads (sub did tag index) h =
      let (b, e, d) = decode_id-Reads is_utf8 did h.0 in
      let tail = to_be_bytes 4 index in
      (
        1 ∷ (b ++ code tag ∷ tail),
        rw e refl,
        λ rest.
            rw
              (
                take_byte-Reads 1 ((b ++ code tag ∷ tail) ++ rest),
                append_assoc b (code tag ∷ tail) rest,
                d ((code tag ∷ tail) ++ rest),
                decode_tag-Reads tag (tail ++ rest),
                decode_index-Reads index h.1 rest,
              )
              refl,
      )

  module _ (is_point : Bytes → Bool) where
    abbrev pub IsKey : Bytes → Type 0
    IsKey key = (length key ≡ 32) × (is_point key ≡ true)

    -- A root record is encoded, and read back from its encoding.
    pub decode_root-Reads :
        (r : RootActor)
        → IsId is_utf8 r.did_id
        → length r.merkle_root ≡ 32
        → r.leaf_count < 2 ^ 64
        → IsKey r.control_key
        → (bytes : Bytes) × (encode_root r ≡ some bytes)
          × Reads (decode_root is_utf8 is_point) bytes r
    unfolding encode_root decode_root
    decode_root-Reads r h m c k =
        let (b, e, d) = decode_id-Reads is_utf8 r.did_id h in
        let count = to_be_bytes 8 r.leaf_count in
        (
          b ++ (r.merkle_root ++ (count ++ r.control_key)),
          rw e refl,
          λ rest.
              rw
                (
                  append_assoc b (r.merkle_root ++ (count ++ r.control_key)) rest,
                  d ((r.merkle_root ++ (count ++ r.control_key)) ++ rest),
                  append_assoc r.merkle_root (count ++ r.control_key) rest,
                  take_exact-Reads 32 r.merkle_root m ((count ++ r.control_key) ++ rest),
                  append_assoc count r.control_key rest,
                  take_exact-Reads 8 count (length-to_be_bytes 8 r.leaf_count)
                      (r.control_key ++ rest),
                  take_key-Reads is_point r.control_key k.0 k.1 rest,
                  from_be_bytes-to_be_bytes 8 r.leaf_count (omega (arith, c)),
                )
                refl,
        )

    -- A sub-actor's record is encoded, and read back from its encoding.
    pub decode_sub-Reads :
        (s : SubActor)
        → IsActorId s.actor_id
        → is_root s.actor_id ≡ false
        → IsKey s.control_key
        → IsKey s.operating_key
        → (bytes : Bytes) × (encode_sub s ≡ some bytes)
          × Reads (decode_sub is_utf8 is_point) bytes s
    unfolding encode_sub decode_sub
    decode_sub-Reads s h n c o =
        let (b, e, d) = decode_actor_id-Reads s.actor_id h in
        (
          b ++ (s.control_key ++ s.operating_key),
          rw e refl,
          λ rest.
              rw
                (
                  append_assoc b (s.control_key ++ s.operating_key) rest,
                  d ((s.control_key ++ s.operating_key) ++ rest),
                  n,
                  append_assoc s.control_key s.operating_key rest,
                  take_key-Reads is_point s.control_key c.0 c.1 (s.operating_key ++ rest),
                  take_key-Reads is_point s.operating_key o.0 o.1 rest,
                )
                refl,
        )

    -- A rebind is encoded, and decoded from its encoding.
    pub decode_rebind-encode_rebind :
        (op : RebindOp)
        → IsActorId op.actor_id
        → IsKey op.new_operating_key
        → length op.proof_of_possession ≡ 64
        → length op.authorizing_signature ≡ 64
        → (bytes : Bytes) × (encode_rebind op ≡ some bytes)
          × (decode_rebind is_utf8 is_point bytes ≡ accepted op)
    unfolding encode_rebind decode_rebind reject_trailing
    decode_rebind-encode_rebind op h k p a =
        let (b, e, d) = decode_actor_id-Reads op.actor_id h in
        let tail = op.proof_of_possession ++ op.authorizing_signature in
        let last : take_exact 64 op.authorizing_signature
            ≡ accepted (op.authorizing_signature, []) =
          ap (take_exact 64) (sym (append-nil op.authorizing_signature))
          ∙ take_exact-Reads 64 op.authorizing_signature a [] in
        (
          b ++ (op.new_operating_key ++ tail),
          rw e refl,
          rw
              (
                d (op.new_operating_key ++ tail),
                take_key-Reads is_point op.new_operating_key k.0 k.1 tail,
                take_exact-Reads 64 op.proof_of_possession p op.authorizing_signature,
                last,
              )
              refl,
        )
