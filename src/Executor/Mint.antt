-- ===== src/Executor/Mint.antt =====
-- The operations on actors of consensus-node/executor/state/src/executor.rs: what a mint that is
-- accepted was checked for.
use jx.Base.{
  ◌+◌, ◌≡◌, ◌⊎◌, inl, inr, refl, sym, ◌∙◌, ap, Bool, true, false, not, Option, none, some,
  list_beq_iff, nat_eq, list_eq, arith,
}
use jx.Roster.{Bytes}
use jx.Op.{Op}
use jx.MerkleLog.{Hash, verify_inclusion, verify_consistency}
use jx.Did.{DidDocument, did_state_key, signing_key, decode_document}
use jx.Actor.{
  RootActor, SubActorOp, root, minted_id, actor_state_key, encode_root, decode_root,
  subactor_leaf_hash, sub_actor_payload, new_sub, encode_sub,
}
use jx.State
use jx.Merkle
use jx.State.{State, Keyspace, KeyspaceLaws}
use jx.State.Apply.{put_in_tree_ok}
use jx.Executor.{
  Externals, is_there, ActorError, unknown_root_did, root_deactivated, unknown_root_actor,
  sub_actor_already_exists, unknown_signer, invalid_signature, SubActorAfterImage, Ran, done,
  or_panic, or_error, unless, whole, decide, reads, write, write_mint, apply_op, apply_sub_actor_op,
  check_mint, proves_mint, mint_images, mint_signed, mint_under,
}
use jx.Executor.Ends.{applied}
use jx.Executor.Once.{and_run-done, end_of, value_of}

or_panic-some :
    {A B : Type 0} (o : Option A) (f : A → Option B) (y : B)
    → or_panic o f ≡ some y
    → (a : A) × (o ≡ some a) × (f a ≡ some y)
or_panic-some none f y e = ground arith
or_panic-some (some a) f y e = (a, refl, e)

or_error-inr :
    {A E B : Type 0} (x : E) (o : Option A) (f : A → Option (E ⊎ B)) (y : B)
    → or_error x o f ≡ some (inr y)
    → (a : A) × (o ≡ some a) × (f a ≡ some (inr y))
or_error-inr x none f y e = ground arith
or_error-inr x (some a) f y e = (a, refl, e)

unless-inr :
    {E B : Type 0} (b : Bool) (x : E) (rest : Option (E ⊎ B)) (y : B)
    → unless b x rest ≡ some (inr y)
    → (b ≡ false) × (rest ≡ some (inr y))
unless-inr true x rest y e = ground arith
unless-inr false x rest y e = (refl, e)

abbrev right_of : {E A : Type 0} → A → E ⊎ A → A
right_of d (inl y) = d
right_of d (inr a) = a

not_there : (o : Option Bytes) → is_there o ≡ false → o ≡ none
not_there none e = refl
not_there (some b) e = ground arith

abbrev root_of : {E : Type 0} → SubActorAfterImage → Option (E ⊎ SubActorAfterImage) → Bytes × Bytes
root_of d (some (inr w)) = w.root
root_of d _ = d.root

not-false : (b : Bool) → not b ≡ false → b ≡ true
not-false b e = ground arith

module _ {M K : Type 0} (x : Externals M K) where
  -- Both proofs are about the log before the mint, and the log with one leaf more at its end.
  pub record Counts (op : SubActorOp) (stored : RootActor) : Type 0 where
    pub at_end : op.inclusion_proof.leaf_index ≡ stored.leaf_count
    pub in_longer : op.inclusion_proof.leaf_count ≡ stored.leaf_count + 1
    pub from_stored : op.consistency_proof.old_leaf_count ≡ stored.leaf_count
    pub to_longer : op.consistency_proof.new_leaf_count ≡ stored.leaf_count + 1

  -- what the signature, the leaf and the proofs of an accepted mint are, and what it writes
  pub record Signed (op : SubActorOp) (root_key : Bytes) (doc : DidDocument) (stored : RootActor)
      (w : SubActorAfterImage) : Type 0 where
    pub payload : Bytes
    pub is_payload : sub_actor_payload op ≡ some payload
    pub key : Bytes
    pub is_key : signing_key doc op.signed_by ≡ some key
    pub is_signed : x.verifies key payload op.signature ≡ true
    pub leaf : Hash
    pub is_leaf : subactor_leaf_hash x.sha256 (minted_id op) op.control_key ≡ some leaf
    pub counts : Counts op stored
    pub included : verify_inclusion x.sha256 leaf op.inclusion_proof op.new_root ≡ true
    pub consistent :
        verify_consistency x.sha256 stored.merkle_root op.consistency_proof op.new_root ≡ true
    pub root_value : Bytes
    pub is_root_value :
        encode_root (record {
          did_id = op.root_did;
          merkle_root = op.new_root;
          leaf_count = stored.leaf_count + 1;
          control_key = stored.control_key;
        })
        ≡ some root_value
    pub writes_root : w.root ≡ (root_key, root_value)

  -- the root record that it is under
  pub record Under (op : SubActorOp) (doc : DidDocument) (read : Bytes → Option Bytes)
      (w : SubActorAfterImage) : Type 0 where
    pub is_live : doc.deactivated ≡ false
    pub root_key : Bytes
    pub is_root_key : actor_state_key (root op.root_did) ≡ some root_key
    pub root_bytes : Bytes
    pub has_root : read root_key ≡ some root_bytes
    pub stored : RootActor
    pub is_stored : whole (decode_root x.is_utf8 x.is_point root_bytes) ≡ some stored
    pub signed : Signed op root_key doc stored w

  -- what a mint that is accepted was checked for
  pub record Minted (op : SubActorOp) (read : Bytes → Option Bytes) (w : SubActorAfterImage)
      : Type 0 where
    pub sub_key : Bytes
    pub is_sub_key : actor_state_key (minted_id op) ≡ some sub_key
    pub is_new : read sub_key ≡ none
    pub did_key : Bytes
    pub is_did_key : did_state_key op.root_did ≡ some did_key
    pub doc_bytes : Bytes
    pub has_doc : read did_key ≡ some doc_bytes
    pub doc : DidDocument
    pub is_doc : whole (decode_document x.is_point doc_bytes) ≡ some doc
    pub under : Under op doc read w

  proves_mint-inr :
      (op : SubActorOp) (stored : RootActor) (leaf : Hash) (u : Unit {0})
      → proves_mint x op stored leaf ≡ some (inr u)
      → Counts op stored
        × (verify_inclusion x.sha256 leaf op.inclusion_proof op.new_root ≡ true)
        × (verify_consistency x.sha256 stored.merkle_root op.consistency_proof op.new_root ≡ true)
  unfolding proves_mint
  proves_mint-inr op stored leaf u e = (
    record {
      at_end = ground arith;
      in_longer = ground arith;
      from_stored = ground arith;
      to_longer = ground arith;
    },
    ground arith,
    ground arith,
  )

  proved-inr :
      (proved : ActorError ⊎ Unit {0}) (images : Option (ActorError ⊎ SubActorAfterImage))
      (w : SubActorAfterImage)
      → (elim proved [ inl e ↦ some (inl e) | inr _ ↦ images ]) ≡ some (inr w)
      → (u : Unit {0}) × (proved ≡ inr u) × (images ≡ some (inr w))
  proved-inr (inl e) images w h = ground arith
  proved-inr (inr u) images w h = (u, refl, h)

  mint_images-inr :
      (op : SubActorOp) (sub_key root_key : Bytes) (stored : RootActor) (w : SubActorAfterImage)
      → mint_images x op sub_key root_key stored ≡ some (inr w)
      → (root_value : Bytes) × (encode_root (record {
        did_id = op.root_did;
        merkle_root = op.new_root;
        leaf_count = stored.leaf_count + 1;
        control_key = stored.control_key;
      })
          ≡ some root_value)
        × (w.root ≡ (root_key, root_value))
  unfolding new_sub
  mint_images-inr op sub_key root_key stored w e =
      let (sub_value, k, e1) = or_panic-some (encode_sub _) _ (inr w) e in
      let (root_value, l, e2) = or_panic-some (encode_root _) _ (inr w) e1 in
      (root_value, l, ap (root_of w) (sym e2))

  mint_signed-Signed :
      (op : SubActorOp) (sub_key root_key : Bytes) (doc : DidDocument) (stored : RootActor)
      (w : SubActorAfterImage)
      → mint_signed x op sub_key root_key doc stored ≡ some (inr w)
      → Signed op root_key doc stored w
  unfolding mint_signed
  mint_signed-Signed op sub_key root_key doc stored w e =
      let (payload, k8, f1) = or_panic-some (sub_actor_payload op) _ (inr w) e in
      let (key, k9, f2) = or_error-inr unknown_signer (signing_key doc op.signed_by) _ w f1 in
      let (verified, f3) =
        unless-inr (not (x.verifies key payload op.signature)) invalid_signature _ w f2 in
      let (leaf, l1, f4) =
        or_panic-some (subactor_leaf_hash x.sha256 (minted_id op) op.control_key) _ (inr w) f3 in
      let (proved, l2, f5) = or_panic-some (proves_mint x op stored leaf) _ (inr w) f4 in
      let (u, l3, f6) = proved-inr proved (mint_images x op sub_key root_key stored) w f5 in
      let checks = proves_mint-inr op stored leaf u (l2 ∙ ap some l3) in
      let (root_value, l4, l5) = mint_images-inr op sub_key root_key stored w f6 in
      record {
        payload = payload;
        is_payload = k8;
        key = key;
        is_key = k9;
        is_signed = not-false (x.verifies key payload op.signature) verified;
        leaf = leaf;
        is_leaf = l1;
        counts = checks.0;
        included = checks.1;
        consistent = checks.2;
        root_value = root_value;
        is_root_value = l4;
        writes_root = l5;
      }

  mint_under-Under :
      (op : SubActorOp) (sub_key : Bytes) (doc : DidDocument) (read : Bytes → Option Bytes)
      (w : SubActorAfterImage)
      → mint_under x op sub_key doc read ≡ some (inr w)
      → Under op doc read w
  unfolding mint_under
  mint_under-Under op sub_key doc read w e =
      let (live, e6) = unless-inr doc.deactivated root_deactivated _ w e in
      let (root_key, k5, e7) = or_panic-some (actor_state_key (root op.root_did)) _ (inr w) e6 in
      let (root_bytes, k6, e8) = or_error-inr unknown_root_actor (read root_key) _ w e7 in
      let (stored, k7, e9) =
        or_error-inr unknown_root_actor (whole (decode_root x.is_utf8 x.is_point root_bytes)) _ w
          e8 in
      record {
        is_live = live;
        root_key = root_key;
        is_root_key = k5;
        root_bytes = root_bytes;
        has_root = k6;
        stored = stored;
        is_stored = k7;
        signed = mint_signed-Signed op sub_key root_key doc stored w e9;
      }

  check_mint-Minted :
      (op : SubActorOp) (read : Bytes → Option Bytes) (w : SubActorAfterImage)
      → check_mint x op read ≡ some (inr w)
      → Minted op read w
  unfolding check_mint
  check_mint-Minted op read w e =
      let (sub_key, k1, e1) = or_panic-some (actor_state_key (minted_id op)) _ (inr w) e in
      let (n, e2) = unless-inr (is_there (read sub_key)) sub_actor_already_exists _ w e1 in
      let (did_key, k2, e3) = or_panic-some (did_state_key op.root_did) _ (inr w) e2 in
      let (doc_bytes, k3, e4) = or_error-inr unknown_root_did (read did_key) _ w e3 in
      let (doc, k4, e5) =
        or_error-inr unknown_root_did (whole (decode_document x.is_point doc_bytes)) _ w e4 in
      record {
        sub_key = sub_key;
        is_sub_key = k1;
        is_new = not_there (read sub_key) n;
        did_key = did_key;
        is_did_key = k2;
        doc_bytes = doc_bytes;
        has_doc = k3;
        doc = doc;
        is_doc = k4;
        under = mint_under-Under op sub_key doc read w e5;
      }

  -- the state after a write that went well
  write_reads :
      KeyspaceLaws x.keyspace
      → (key value : Bytes) (st after : State K) (u : Unit {0})
      → write x (key, value) st ≡ done after u
      → reads x after key ≡ some value
  unfolding apply_op State.apply State.get_value
  write_reads laws key value st after u e =
      let went_well = applied x (Op.put key value) st after u e in
      laws.read-write key value st.kv after.kv
        (put_in_tree_ok x.sha256 x.keyspace (x.keyspace.write key value st.kv)
          (Merkle.insert x.sha256 key value st.tree) st.tree after went_well).0
        key
      ∙ rw ((list_beq_iff key key).1 refl) refl

  decide-inr :
      {E A : Type 0} (c : Option (E ⊎ A)) (writes : A → State K → Ran (State K) (Unit {0})) (a : A)
      (st after : State K)
      → decide x c writes st ≡ done after (inr a)
      → (c ≡ some (inr a)) × (writes a st ≡ done after tt)
  decide-inr none writes a st after e = ground arith
  decide-inr (some (inl y)) writes a st after e = ground arith
  decide-inr (some (inr b)) writes a st after e =
      let (mid, u, first, second) = and_run-done (writes b st) _ after (inr a) e in
      let same : b ≡ a = ap (λ run. right_of a (value_of run (inr a))) second in
      (
        ap (λ run. some (value_of run (inr a))) second,
        ap (λ z. writes z st) (sym same) ∙ first ∙ ap (λ run. done (end_of run after) tt) second,
      )

  -- A mint that goes through was checked as `Minted` says against the state before it, and leaves
  -- the root record stored with the new root, one more leaf and the same control key.
  pub apply_sub_actor_op-Minted :
      KeyspaceLaws x.keyspace
      → (op : SubActorOp) (st after : State K) (w : SubActorAfterImage)
      → apply_sub_actor_op x op st ≡ done after (inr w)
      → (m : Minted op (reads x st) w) × (reads x after m.under.root_key
          ≡ some m.under.signed.root_value)
  unfolding apply_sub_actor_op write_mint
  apply_sub_actor_op-Minted laws op st after w e =
      let (checked, wrote) =
        decide-inr (check_mint x op (reads x st)) (write_mint x) w st after e in
      let (mid, u, first, second) = and_run-done (write x w.sub_actor st) _ after tt wrote in
      let m = check_mint-Minted op (reads x st) w checked in
      (
        m,
        ap (λ z. reads x after z.0) (sym m.under.signed.writes_root)
            ∙ write_reads laws w.root.0 w.root.1 mid after tt second
            ∙ ap (λ z. some z.1) m.under.signed.writes_root,
      )
