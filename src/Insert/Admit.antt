-- ===== src/Insert/Admit.antt =====
-- What the checks of `insert` establish of an event that they let through.
use jx.Base.{◌≡◌, ◌⊎◌, inr, true, none, some, arith, nat_eq}
use jx.Base.Map
use jx.Roster.{Bytes}
use jx.Hashgraph.{EventHash, Event, Hashgraph, get_event, member_index_of, ok, ◌>>=◌}
use jx.Insert.{
  Admission, admit, parent_record, same_creator, next_seq, start_row, merge_row, write_slot,
}

pub record Admitted (hash_of : Event → Bytes ⊎ EventHash) (event : Event) (hg : Hashgraph)
    (a : Admission) : Type 0 where
  pub digest : hash_of event ≡ inr a.hash
  pub fresh : get_event hg a.hash ≡ none
  pub index : member_index_of hg event.creator ≡ some a.creator_idx
  pub self_parent : parent_record hg event.self_parent ≡ ok a.self_parent_record
  pub other_parent : parent_record hg event.other_parent ≡ ok a.other_parent_record
  pub creator : same_creator event.creator a.self_parent_record ≡ true
  pub seq : a.seq ≡ next_seq a.self_parent_record
  pub row :
      (start_row hg.member_count a.self_parent_record >>= λ row.
      write_slot (merge_row a.other_parent_record row) a.creator_idx a.seq)
      ≡ ok a.ancestor_seqs

pub admit-Admitted :
    (hash_of : Event → Bytes ⊎ EventHash) (event : Event) (hg : Hashgraph) (a : Admission)
    → admit hash_of event hg ≡ ok a
    → Admitted hash_of event hg a
unfolding admit Map.contains_key
admit-Admitted hash_of event hg a h = ground arith
