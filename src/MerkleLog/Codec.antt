-- ===== src/MerkleLog/Codec.antt =====
-- The wire form of the proofs of merkle_log.rs: two sizes of eight bytes, a count of four, and the
-- hashes one after the other.
use jx.Base.{
  ℕ, zero, suc, ◌*◌, ◌^◌, ◌≤◌, ◌<◌, ◌≡◌, refl, sym, ◌∙◌, ap, true, false, Option, none, some, List,
  [], ◌∷◌, ◌++◌, take, drop, length, length-append, take-append, drop-append, ltb, lt→ltb, All,
  if◌then◌else◌, arith,
}
use mathlib.Core.List.{append_assoc, append-nil}
use jx.Roster.{Bytes}
use jx.Wire.{to_be_bytes, read_exact, read_exact-append, read_number, read_number-to_be_bytes}
use jx.MerkleLog.{Hash, ConsistencyProof, InclusionProof}
use jx.MerkleLog.Sound.{Is32}

abbrev pub then_read : {A B : Type 0} → Option A → (A → Option B) → Option B
then_read none f = none
then_read (some a) f = f a

abbrev pub concat : List Hash → Bytes
concat [] = []
concat (h ∷ hs) = h ++ concat hs

-- `none` is the panic of `expect` on 2^32 nodes or more
unfoldable pub write_proof : ℕ → ℕ → List Hash → Option Bytes
write_proof first second nodes =
    if ltb (length nodes) (2 ^ 32)
    then some (
        to_be_bytes 8 first
        ++ (to_be_bytes 8 second ++ (to_be_bytes 4 (length nodes) ++ concat nodes)))
    else none

unfoldable pub encode_consistency : ConsistencyProof → Option Bytes
encode_consistency proof = write_proof proof.old_leaf_count proof.new_leaf_count proof.nodes

unfoldable pub encode_inclusion : InclusionProof → Option Bytes
encode_inclusion proof = write_proof proof.leaf_index proof.leaf_count proof.nodes

-- `as_chunks::<32>`: the whole chunks, and the remainder
unfoldable pub as_chunks : ℕ → Bytes → List Hash × Bytes
as_chunks zero bytes = ([], bytes)
as_chunks (suc fuel) bytes =
    let (chunks, remainder) = as_chunks fuel (drop 32 bytes) in
    if ltb (length bytes) 32 then ([], bytes) else (take 32 bytes ∷ chunks, remainder)

-- `usize::checked_mul` on 64 bits
abbrev pub checked_mul : ℕ → ℕ → Option ℕ
checked_mul a b = if ltb (a * b) (2 ^ 64) then some (a * b) else none

abbrev pub whole_chunks : List Hash × Bytes → Option (List Hash)
whole_chunks (chunks, []) = some chunks
whole_chunks (chunks, b ∷ remainder) = none

unfoldable pub read_hashes_from : Bytes → Option (List Hash × Bytes)
read_hashes_from bytes = then_read (read_number 4 bytes) λ (count : ℕ × Bytes).
    then_read (checked_mul count.0 32) λ want.
      then_read (read_exact want count.1) λ (head : Bytes × Bytes).
        then_read (whole_chunks (as_chunks (length head.0) head.0)) λ chunks. some (chunks, head.1)

unfoldable pub read_proof : Bytes → Option ((ℕ × ℕ × List Hash) × Bytes)
read_proof cursor = then_read (read_number 8 cursor) λ (first : ℕ × Bytes).
    then_read (read_number 8 first.1) λ (second : ℕ × Bytes).
      then_read (read_hashes_from second.1)
        λ (nodes : List Hash × Bytes). some ((first.0, second.0, nodes.0), nodes.1)

-- `cursor.is_empty().then_some(proof)`
abbrev pub at_end : {A B : Type 0} → (A → B) → Option (A × Bytes) → Option B
at_end f none = none
at_end f (some (a, [])) = some (f a)
at_end f (some (a, b ∷ rest)) = none

unfoldable pub decode_consistency : Bytes → Option ConsistencyProof
decode_consistency bytes =
    at_end
      (λ (p : ℕ × ℕ × List Hash). record {
        old_leaf_count = p.0;
        new_leaf_count = p.1;
        nodes = p.2;
      })
      (read_proof bytes)

unfoldable pub decode_inclusion : Bytes → Option InclusionProof
decode_inclusion bytes =
    at_end (λ (p : ℕ × ℕ × List Hash). record { leaf_index = p.0; leaf_count = p.1; nodes = p.2 })
      (read_proof bytes)

length-concat : (nodes : List Hash) → All Is32 nodes → length (concat nodes) ≡ length nodes * 32
length-concat [] h = refl
length-concat (x ∷ xs) h = length-append x (concat xs) ∙ omega (arith, h.0, length-concat xs h.1)

-- The hashes written one after the other are the chunks read.
as_chunks-concat :
    (fuel : ℕ) (nodes : List Hash)
    → length nodes ≤ fuel
    → All Is32 nodes
    → as_chunks fuel (concat nodes) ≡ (nodes, [])
unfolding as_chunks
as_chunks-concat zero [] p h = refl
as_chunks-concat zero (x ∷ xs) p h = absurd (omega arith)
as_chunks-concat (suc fuel) [] p h = refl
as_chunks-concat (suc fuel) (x ∷ xs) p h =
    let size : ltb (length (x ++ concat xs)) 32 ≡ false =
      ground (arith, length-append x (concat xs), h.0) in
    let front : take 32 (x ++ concat xs) ≡ x =
      ap (λ n. take n (x ++ concat xs)) (sym h.0) ∙ take-append x (concat xs) in
    let back : drop 32 (x ++ concat xs) ≡ concat xs =
      ap (λ n. drop n (x ++ concat xs)) (sym h.0) ∙ drop-append x (concat xs) in
    rw (size, front, back, as_chunks-concat fuel xs (omega arith) h.1)

read_hashes_from-concat :
    (nodes : List Hash) (rest : Bytes)
    → length nodes < 2 ^ 32
    → All Is32 nodes
    → read_hashes_from ((to_be_bytes 4 (length nodes) ++ concat nodes) ++ rest) ≡ some (nodes, rest)
unfolding read_hashes_from
read_hashes_from-concat nodes rest h is =
    let n = length nodes in
    let body = concat nodes in
    let split = append_assoc (to_be_bytes 4 n) body rest in
    let count : read_number 4 ((to_be_bytes 4 n ++ body) ++ rest) ≡ some (n, body ++ rest) =
      ap (read_number 4) split ∙ read_number-to_be_bytes 4 n (body ++ rest) h in
    let fits : ltb (n * 32) (2 ^ 64) ≡ true = lt→ltb (n * 32) (2 ^ 64) (omega arith) in
    let size = length-concat nodes is in
    let head = read_exact-append (n * 32) body rest size in
    let chunks = as_chunks-concat (length body) nodes (omega (arith, size)) is in
    rw (count, fits, head, chunks)

-- What `write_proof` writes, `read_proof` reads, up to its end.
read_proof-write_proof :
    (first second : ℕ) (nodes : List Hash)
    → first < 2 ^ 64
    → second < 2 ^ 64
    → length nodes < 2 ^ 32
    → All Is32 nodes
    → (bytes : Bytes) × (write_proof first second nodes ≡ some bytes)
      × (read_proof bytes ≡ some ((first, second, nodes), []))
unfolding write_proof read_proof
read_proof-write_proof first second nodes f s h is =
    let a = to_be_bytes 8 first in
    let b = to_be_bytes 8 second in
    let c = to_be_bytes 4 (length nodes) ++ concat nodes in
    let one : read_number 8 (a ++ (b ++ c)) ≡ some (first, b ++ c) =
      read_number-to_be_bytes 8 first (b ++ c) f in
    let two : read_number 8 (b ++ c) ≡ some (second, c) = read_number-to_be_bytes 8 second c s in
    let three : read_hashes_from c ≡ some (nodes, []) =
      ap read_hashes_from (sym (append-nil c)) ∙ read_hashes_from-concat nodes [] h is in
    (a ++ (b ++ c), rw (lt→ltb (length nodes) (2 ^ 32) h), rw (one, two, three))

-- A consistency proof is decoded from its encoding, when its sizes have 64 bits, its nodes 32 bytes,
-- and their number 32 bits.
pub decode_consistency-encode_consistency :
    (proof : ConsistencyProof)
    → proof.old_leaf_count < 2 ^ 64
    → proof.new_leaf_count < 2 ^ 64
    → length proof.nodes < 2 ^ 32
    → All Is32 proof.nodes
    → (bytes : Bytes) × (encode_consistency proof ≡ some bytes)
      × (decode_consistency bytes ≡ some proof)
unfolding encode_consistency decode_consistency
decode_consistency-encode_consistency proof f s h is =
    let (bytes, written, read) =
      read_proof-write_proof proof.old_leaf_count proof.new_leaf_count proof.nodes f s h is in
    (bytes, written, rw read)

-- An inclusion proof is decoded from its encoding, when its index and its size have 64 bits, its nodes
-- 32 bytes, and their number 32 bits.
pub decode_inclusion-encode_inclusion :
    (proof : InclusionProof)
    → proof.leaf_index < 2 ^ 64
    → proof.leaf_count < 2 ^ 64
    → length proof.nodes < 2 ^ 32
    → All Is32 proof.nodes
    → (bytes : Bytes) × (encode_inclusion proof ≡ some bytes)
      × (decode_inclusion bytes ≡ some proof)
unfolding encode_inclusion decode_inclusion
decode_inclusion-encode_inclusion proof f s h is =
    let (bytes, written, read) =
      read_proof-write_proof proof.leaf_index proof.leaf_count proof.nodes f s h is in
    (bytes, written, rw read)
