-- ===== src/Insert/Accepted/Row.antt =====
-- The checks of `insert_accepted` against those of `insert` in hashgraph.rs.
use jx.Base.{
  ℕ, ◌≡◌, refl, sym, ◌∙◌, ap, ◌⊎◌, inl, inr, ◌≤◌, Bool, true, false, Option, none, some, List,
  arith, nat_eq, ltb, list_beq, list_beq_iff, ◌&&◌,
}
use jx.Base.Map
use jx.Roster.{Bytes}
use jx.Hashgraph.{EventHash, Event, EventRecord, Hashgraph, get_event, member_index_of, ok, ◌>>=◌}
use jx.Round.{base_round}
use jx.Insert.{
  Admission, admit, parent_record, next_seq, start_row, merge_row, write_slot, round_of,
}
use jx.Insert.Admit.{admit-Admitted}
use jx.Insert.Accepted.{
  RetainedEvent, Acceptance, accept, check_seq, check_row, check_order, stored_parent, is_none,
  is_pruned, require, resize,
}

-- what the checks have established
pub record Accepted (hash_of : Event → Bytes ⊎ EventHash) (r : RetainedEvent) (decided_round : ℕ)
    (hg : Hashgraph) (a : Acceptance) : Type 0 where
  pub digest : hash_of r.event ≡ inr a.hash
  pub fresh : get_event hg a.hash ≡ none
  pub index : member_index_of hg r.event.creator ≡ some a.creator_idx
  pub row : a.ancestor_seqs ≡ resize r.ancestor_seqs hg.member_count
  pub seq : check_seq r.event.self_parent (stored_parent hg r.event.self_parent) r.seq ≡ ok tt
  pub derived :
      check_row hg r.event a.creator_idx
        (stored_parent hg r.event.self_parent)
        (stored_parent hg r.event.other_parent)
        r.seq
        a.ancestor_seqs
      ≡ ok tt
  pub order : check_order r.round decided_round r.round_received r.consensus_timestamp ≡ ok tt
  pub round :
      ltb r.round (
        base_round
          (round_of (stored_parent hg r.event.self_parent))
          (round_of (stored_parent hg r.event.other_parent)))
      ≡ false

pub accept-Accepted :
    (hash_of : Event → Bytes ⊎ EventHash) (r : RetainedEvent) (decided_round : ℕ) (hg : Hashgraph)
    (a : Acceptance)
    → accept hash_of r decided_round hg ≡ ok a
    → Accepted hash_of r decided_round hg a
unfolding accept Map.contains_key
accept-Accepted hash_of r decided_round hg a h = ground arith

-- parents that `insert` has found are stored
parent_record-stored_parent :
    (hg : Hashgraph) (declared : Option EventHash) (r : Option EventRecord)
    → parent_record hg declared ≡ ok r
    → (stored_parent hg declared ≡ r) × (is_pruned declared r ≡ false)
parent_record-stored_parent hg none r e = ground arith
parent_record-stored_parent hg (some h) r e = ground arith

check_seq-next_seq :
    (declared : Option EventHash) (r : Option EventRecord) (seq : ℕ)
    → is_pruned declared r ≡ false
    → check_seq declared r seq ≡ ok tt
    → seq ≡ next_seq r
unfolding check_seq
check_seq-next_seq declared (some r) seq p e = ground arith
check_seq-next_seq none none seq p e = ground arith
check_seq-next_seq (some h) none seq p e = ground arith

require-true : (b : Bool) → require b ≡ ok tt → b ≡ true
require-true true e = refl
require-true false e = ground arith

-- the row, where every declared parent is stored and there is one
check_row-exact :
    (hg : Hashgraph) (event : Event) (idx seq : ℕ) (self_parent other_parent : Option EventRecord)
    (row expected : List ℕ)
    → is_pruned event.self_parent self_parent ≡ false
    → is_pruned event.other_parent other_parent ≡ false
    → (is_none self_parent && is_none other_parent) ≡ false
    → (start_row hg.member_count self_parent >>= λ first.
        write_slot (merge_row other_parent first) idx seq)
      ≡ ok expected
    → check_row hg event idx self_parent other_parent seq row ≡ ok tt
    → row ≡ expected
unfolding check_row
check_row-exact hg event idx seq self_parent other_parent row expected p q n e h =
    let exact : require (list_beq row expected) ≡ ok tt = ground arith in
    (list_beq_iff row expected).0 (require-true (list_beq row expected) exact)

-- A transferred record whose declared parents are all stored, one of them at least, is accepted only
-- with the hash, the sequence number and the ancestry row that `insert` gives to its event where it
-- admits it.
pub accept-admit :
    (hash_of : Event → Bytes ⊎ EventHash) (r : RetainedEvent) (decided_round : ℕ) (hg : Hashgraph)
    (a : Acceptance) (b : Admission)
    → accept hash_of r decided_round hg ≡ ok a
    → admit hash_of r.event hg ≡ ok b
    → (is_none b.self_parent_record && is_none b.other_parent_record) ≡ false
    → (a.hash ≡ b.hash) × (r.seq ≡ b.seq) × (a.ancestor_seqs ≡ b.ancestor_seqs)
accept-admit hash_of r decided_round hg a b accepted admitted some_parent =
    let x = accept-Accepted hash_of r decided_round hg a accepted in
    let y = admit-Admitted hash_of r.event hg b admitted in
    let (sp, spp) =
      parent_record-stored_parent hg r.event.self_parent b.self_parent_record y.self_parent in
    let (op, opp) =
      parent_record-stored_parent hg r.event.other_parent b.other_parent_record y.other_parent in
    let same_hash : a.hash ≡ b.hash = ground (arith, x.digest, y.digest) in
    let same_idx : a.creator_idx ≡ b.creator_idx = ground (arith, x.index, y.index) in
    let same_seq : r.seq ≡ next_seq b.self_parent_record =
      check_seq-next_seq r.event.self_parent b.self_parent_record r.seq spp
        (ap (λ z. check_seq r.event.self_parent z r.seq) (sym sp) ∙ x.seq) in
    let seq_same : r.seq ≡ b.seq = same_seq ∙ sym y.seq in
    (
      same_hash,
      seq_same,
      check_row-exact hg r.event b.creator_idx b.seq b.self_parent_record b.other_parent_record
          a.ancestor_seqs b.ancestor_seqs spp opp some_parent y.row
          ((λ i.
              check_row hg r.event (sym same_idx i) (sym sp i) (sym op i) (sym seq_same i)
                a.ancestor_seqs)
            ∙ x.derived),
    )

-- A record is accepted only with an order that is none, or a round received between its own round and
-- the decided round, and with a round that is not below those of its stored parents.
pub accept-order :
    (hash_of : Event → Bytes ⊎ EventHash) (r : RetainedEvent) (decided_round : ℕ) (hg : Hashgraph)
    (a : Acceptance)
    → accept hash_of r decided_round hg ≡ ok a
    → (base_round
          (round_of (stored_parent hg r.event.self_parent))
          (round_of (stored_parent hg r.event.other_parent))
        ≤ r.round)
      × (((r.round_received ≡ none) × (r.consensus_timestamp ≡ none))
          ⊎ ((n : ℕ) × (r.round_received ≡ some n) × (r.round ≤ n) × (n ≤ decided_round)))
unfolding check_order
accept-order hash_of r decided_round hg a accepted =
    let x = accept-Accepted hash_of r decided_round hg a accepted in
    (ground (arith, x.round), order r.round_received r.consensus_timestamp refl refl x.order)
  where
    order :
        (o t : Option ℕ)
        → r.round_received ≡ o
        → r.consensus_timestamp ≡ t
        → check_order r.round decided_round o t ≡ ok tt
        → ((r.round_received ≡ none) × (r.consensus_timestamp ≡ none))
          ⊎ ((n : ℕ) × (r.round_received ≡ some n) × (r.round ≤ n) × (n ≤ decided_round))
    order none none p q e = inl (p, q)
    order none (some t) p q e = ground arith
    order (some n) t p q e = inr (n, p, ground arith, ground arith)
