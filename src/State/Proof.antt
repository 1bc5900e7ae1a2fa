-- ===== src/State/Proof.antt =====
-- The proofs that consensus-node/executor/state/src/state.rs gives, against the entries of the state.
use jx.Base.{◌≡◌, ◌⊎◌, refl, sym, ◌∙◌, ap, true, some, inl, inr, list_eq, All}
use jx.Base.Map.{get}
use jx.Roster.{Bytes}
use jx.MerkleLog.{Hash}
use jx.MerkleLog.Sound.{Is32, Collision}
use jx.Merkle.{MerkleProof, verify}
use jx.Merkle.Bits.{BitPath, bool_eq}
use jx.Merkle.Update.{Digest32}
use jx.Merkle.Proof.{verify-proof_siblings}
use jx.Merkle.Sound.{verify-stored, leaf_hash-LeafOf, LeafOf-injective, LeafOf-Is32}
use jx.State.{Keyspace, State, get_value, proof}
use jx.State.Apply.{reads, IsSynced}

module _ (sha256 : Bytes → Hash) {K : Type 0} (s : Keyspace K) where
  -- The state proves each entry it has: the proof carries the key and the value, and it is accepted
  -- against the root.
  pub verify-proof :
      Digest32 sha256
      → (key value : Bytes) (st : State K) → IsSynced sha256 s st
      → get_value sha256 s key st ≡ some value
      → (p : MerkleProof) × (proof sha256 s key st ≡ some p)
        × (p.key ≡ key)
        × (p.value ≡ value)
        × (verify sha256 p st.tree.root ≡ some true)
  unfolding get_value proof
  verify-proof d key value st h e =
      let l = h.stored key value e in
      let v = verify-proof_siblings sha256 d key value l.0 st.tree h.canonical l.1 l.2 in
      (record { key = key; value = value; siblings = v.0 }, rw (e, v.1) refl, refl, refl, v.2)

  -- A proof that is accepted against the root of the state proves an entry that the state has, or
  -- there is a collision of the digest.
  pub verify-get_value :
      Digest32 sha256
      → (p : MerkleProof) (st : State K) → IsSynced sha256 s st
      → All Is32 p.siblings
      → verify sha256 p st.tree.root ≡ some true
      → (get_value sha256 s p.key st ≡ some p.value) ⊎ Collision sha256
  unfolding get_value
  verify-get_value d p st h all e =
      elim (verify-stored sha256 d p st.tree h.canonical leaf32 all e) [
        | inr c ↦ inr c
        | inl (q, leaf, l, g) ↦
            let o = h.source q leaf g in
            elim (LeafOf-injective sha256 p.key p.value o.0 o.1 leaf
              (leaf_hash-LeafOf sha256 p.key p.value leaf l)
              (leaf_hash-LeafOf sha256 o.0 o.1 leaf o.4)) [
                | inr c ↦ inr c
                | inl same ↦ inl (ap (reads sha256 s st) same.0 ∙ o.2 ∙ ap some (sym same.1))
              ]
      ]
    where
      leaf32 : (q : BitPath) (leaf : Hash) → get q st.tree.leaves ≡ some leaf → Is32 leaf
      leaf32 q leaf g =
          let o = h.source q leaf g in
          LeafOf-Is32 sha256 d o.0 o.1 leaf (leaf_hash-LeafOf sha256 o.0 o.1 leaf o.4)
