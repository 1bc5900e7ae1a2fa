-- ===== src/Insert.antt =====
-- consensus-node/protocol/consensus/src/hashgraph.rs: `insert`, the entry of every gossiped event. The
-- digest of an event comes from outside; the left case is an encoding error.
pub mod Admit
pub mod Accepted
use jx.Base.{
  ℕ, zero, suc, ◌+◌, max, Bool, true, false, not, Option, none, some, List, [], ◌∷◌, ◌++◌, ◌⊎◌, inl,
  inr, length, replicate, set, ltb, if◌then◌else◌, ◌==◌, nat_eq, option_eq, pair_eq, ◌||◌,
}
use jx.Base.Map
use jx.Roster.{NodeId, Bytes}
use jx.Hashgraph.{
  EventHash, Event, EventRecord, Hashgraph, FameStatus, undecided, parents, get_event, slot,
  member_index_of, already_present, missing_parent, unknown_creator, invalid_self_parent,
  encoding_failed, Result, ok, err, fault, panic, ok_or, ◌>>=◌, Exec, bind, pure, ask, update,
}
use jx.Order.{note_round_decided_if_complete}
use jx.Fame.{vote_as_witness}
use jx.Round.{base_round, finalize_round}
use mathlib.Core.Option

-- What `insert` has established of an event before it writes.
pub record Admission : Type 0 where
  pub hash : EventHash
  pub creator_idx : ℕ
  pub self_parent_record : Option EventRecord
  pub other_parent_record : Option EventRecord
  pub seq : ℕ
  pub ancestor_seqs : List ℕ

-- a declared parent must be stored
abbrev pub parent_record : Hashgraph → Option EventHash → Result (Option EventRecord)
parent_record hg none = ok none
parent_record hg (some h) = elim (get_event hg h) [
  | none ↦ err (missing_parent h)
  | some r ↦ ok (some r)
]

abbrev pub same_creator : NodeId → Option EventRecord → Bool
same_creator creator none = true
same_creator creator (some r) = r.event.creator == creator

abbrev pub next_seq : Option EventRecord → ℕ
next_seq none = 1
next_seq (some r) = r.seq + 1

-- `for (slot, &v) in row.iter_mut().zip(other) { *slot = (*slot).max(v) }`
unfoldable pub max_into : List ℕ → List ℕ → List ℕ
max_into [] ys = []
max_into (x ∷ xs) [] = x ∷ xs
max_into (x ∷ xs) (y ∷ ys) = max x y ∷ max_into xs ys

-- `copy_from_slice` panics on a row of another width
abbrev pub start_row : ℕ → Option EventRecord → Result (List ℕ)
start_row width none = ok (replicate width 0)
start_row width (some r) =
    if length r.ancestor_seqs == width then ok r.ancestor_seqs else fault panic

abbrev pub merge_row : Option EventRecord → List ℕ → List ℕ
merge_row none row = row
merge_row (some r) row = max_into row r.ancestor_seqs

-- `row[i] = v`
abbrev pub write_slot : List ℕ → ℕ → ℕ → Result (List ℕ)
write_slot row i v = if ltb i (length row) then ok (set row i v) else fault panic

abbrev pub hashed : Bytes ⊎ EventHash → Result EventHash
hashed (inl reason) = err (encoding_failed reason)
hashed (inr h) = ok h

-- the checks of `insert`, in their order, and the row of the new record
unfoldable pub admit : (Event → Bytes ⊎ EventHash) → Event → Hashgraph → Result Admission
admit hash_of event hg = hashed (hash_of event) >>= λ h.
    if Map.contains_key h hg.events
    then err (already_present h)
    else ok_or (member_index_of hg event.creator) unknown_creator >>= λ creator_idx.
        parent_record hg event.self_parent >>= λ self_parent_record.
        parent_record hg event.other_parent >>= λ other_parent_record.
        if not (same_creator event.creator self_parent_record)
        then err invalid_self_parent
        else start_row hg.member_count self_parent_record >>= λ row.
            let seq = next_seq self_parent_record in
            write_slot (merge_row other_parent_record row) creator_idx seq >>= λ ancestor_seqs.
            ok (record {
              hash = h;
              creator_idx = creator_idx;
              self_parent_record = self_parent_record;
              other_parent_record = other_parent_record;
              seq = seq;
              ancestor_seqs = ancestor_seqs;
            })

-- Branch detection: a second child of the same self-parent by the same creator is a fork.
abbrev pub is_fork : Event → EventHash → Hashgraph → Bool
is_fork event h hg = elim (Map.get (event.creator, event.self_parent) hg.first_child) [
  | none ↦ false
  | some existing ↦ not (existing == h)
]

abbrev pub flag_forker : ℕ → Hashgraph → Hashgraph
flag_forker idx hg = record hg { known_forkers = set hg.known_forkers idx true }

abbrev pub first_branch : Event → EventHash → Hashgraph → Hashgraph
first_branch event h hg = record hg {
  first_child = Map.or_insert (event.creator, event.self_parent) h hg.first_child;
}

-- indexing `known_forkers` out of range panics
unfoldable pub record_branch : Event → EventHash → ℕ → Bool → Exec Hashgraph (Unit {0})
unfolding bind ask update
record_branch event h creator_idx fork =
    if fork
    then bind (ask (λ hg. slot hg.known_forkers creator_idx))
        (λ _. update (flag_forker creator_idx))
    else update (first_branch event h)

unfoldable pub note_branch : Event → EventHash → ℕ → Exec Hashgraph (Unit {0})
unfolding bind ask
note_branch event h creator_idx =
    bind (ask (λ hg. ok (is_fork event h hg))) (record_branch event h creator_idx)

-- the frontier moves only to a higher sequence number
abbrev pub is_newer : Hashgraph → NodeId → ℕ → Bool
is_newer hg creator seq = elim (Map.get creator hg.latest_by_creator) [
  | none ↦ true
  | some latest ↦ elim (get_event hg latest) [ none ↦ ltb 0 seq | some r ↦ ltb r.seq seq ]
]

abbrev pub index_event : Event → EventHash → ℕ → Hashgraph → Hashgraph
index_event event h seq hg = record hg {
  by_creator_seq = Map.or_insert (event.creator, seq) h hg.by_creator_seq;
  latest_by_creator =
      if is_newer hg event.creator seq
      then Map.put event.creator h hg.latest_by_creator
      else hg.latest_by_creator;
}

-- `children.entry(parent).or_default().push(hash)` for each parent
unfoldable pub add_children : EventHash → List EventHash → Hashgraph → Hashgraph
add_children h [] hg = hg
add_children h (p ∷ ps) hg = add_children h ps (record hg {
  children = Map.put p (Option.get_or (Map.get p hg.children) [] ++ h ∷ []) hg.children;
})

abbrev pub store_event : EventHash → EventRecord → Hashgraph → Hashgraph
store_event h r hg = record hg { events = Map.put h r hg.events }

-- a record before its votes and its order
abbrev pub fresh_record : Event → ℕ → List ℕ → ℕ → EventRecord
fresh_record event seq ancestor_seqs round = record {
  event = event;
  seq = seq;
  ancestor_seqs = ancestor_seqs;
  round = round;
  is_witness = false;
  votes = [];
  fame_status = undecided;
  round_received = none;
  consensus_timestamp = none;
}

abbrev pub round_of : Option EventRecord → Option ℕ
round_of r = Option.map (λ (x : EventRecord). x.round) r

abbrev pub base_of : Admission → ℕ
base_of a = base_round (round_of a.self_parent_record) (round_of a.other_parent_record)

abbrev pub witness_flag : EventHash → Hashgraph → Result Bool
witness_flag h hg = ok (elim (get_event hg h) [ none ↦ false | some r ↦ r.is_witness ])

-- the steps of `insert` once the event is stored
unfoldable pub retry_order : EventHash → ℕ → Exec Hashgraph EventHash
unfolding bind pure
retry_order h next = bind (note_round_decided_if_complete next) λ _. pure h

unfoldable pub vote_if_witness : EventHash → Bool → Exec Hashgraph EventHash
unfolding bind pure ask
vote_if_witness h is_witness =
    bind (if is_witness then vote_as_witness h else pure tt)
      λ _. bind (ask (λ hg. ok hg.next_round_to_order)) (retry_order h)

unfoldable pub settle : EventHash → ℕ → Option ℕ → Exec Hashgraph EventHash
unfolding bind ask
settle h base self_parent_round =
    bind (finalize_round h base self_parent_round)
      λ _. bind (ask (witness_flag h)) (vote_if_witness h)

-- everything `insert` writes before the rounds, in one step
abbrev pub store_admitted : Event → Admission → Hashgraph → Hashgraph
store_admitted event a hg =
    store_event a.hash (fresh_record event a.seq a.ancestor_seqs (base_of a))
      (add_children a.hash (parents event) (index_event event a.hash a.seq hg))

unfoldable pub insert_admitted : Event → Admission → Exec Hashgraph EventHash
unfolding bind update
insert_admitted event a = bind (note_branch event a.hash a.creator_idx) λ _.
    bind (update (store_admitted event a))
      λ _. settle a.hash (base_of a) (round_of a.self_parent_record)

unfoldable pub insert : (Event → Bytes ⊎ EventHash) → Event → Exec Hashgraph EventHash
unfolding bind ask
insert hash_of event = bind (ask (admit hash_of event)) (insert_admitted event)
