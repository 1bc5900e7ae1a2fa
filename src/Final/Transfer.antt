-- ===== src/Final/Transfer.antt =====
-- `insert_accepted` of hashgraph.rs against the relation of Final.
use jx.Base.{ℕ, ◌≡◌, refl, ◌∙◌, ◌⊎◌, false, some, arith, nat_eq}
use jx.Base.Map
use jx.Roster.{Bytes}
use jx.Hashgraph.{
  EventHash, Event, EventRecord, Hashgraph, get_event, parents, is_pending, pure, update, after_ask,
}
use jx.Insert.{note_branch, index_event, add_children}
use jx.Insert.Accepted.{
  RetainedEvent, Acceptance, accept, insert_accepted, write_accepted, store_accepted, stored_only,
}
use jx.Insert.Accepted.Row.{accept-Accepted}
use jx.Final.{Later, Later-refl, Extends, Extends-trans, Keeps, bind-Keeps, pure-Keeps}
use jx.Final.Ordering.{update-Keeps}
use jx.Final.Insertion.{note_branch-Keeps, add_children-Extends, store_event-Extends, index-Extends}

store_accepted-Extends :
    (r : RetainedEvent) (a : Acceptance) (hg : Hashgraph)
    → Extends a.hash hg (store_accepted r a hg)
store_accepted-Extends r a hg =
    let indexed = index_event r.event a.hash r.seq hg in
    let ps = stored_only hg (parents r.event) in
    let linked = add_children a.hash ps indexed in
    Extends-trans a.hash hg indexed _ (index-Extends a.hash hg indexed refl refl refl refl refl) (
      Extends-trans a.hash indexed linked _ (add_children-Extends a.hash a.hash ps indexed)
        (store_event-Extends a.hash _ linked))

write_accepted-Keeps : (r : RetainedEvent) (a : Acceptance) → Keeps a.hash (write_accepted r a)
unfolding write_accepted
write_accepted-Keeps r a =
    bind-Keeps a.hash (note_branch r.event a.hash a.creator_idx) _
      (note_branch-Keeps a.hash r.event a.hash a.creator_idx)
      (λ _.
        bind-Keeps a.hash (update (store_accepted r a)) (λ _. pure a.hash)
          (update-Keeps a.hash _ (store_accepted-Extends r a)) (λ _. pure-Keeps a.hash a.hash))

insert_accepted-Later :
    (hash_of : Event → Bytes ⊎ EventHash) (r : RetainedEvent) (decided_round : ℕ) (hg : Hashgraph)
    (h : EventHash) (x : EventRecord)
    → Map.DistinctKeys hg.events
    → get_event hg h ≡ some x
    → (x' : EventRecord) × (get_event (insert_accepted hash_of r decided_round hg).1 h ≡ some x')
      × Later x x'
unfolding insert_accepted
insert_accepted-Later hash_of r decided_round hg h x d e =
    after_ask P (accept hash_of r decided_round) (write_accepted r) hg (x, e, Later-refl x)
      λ a accepted.
        (write_accepted-Keeps r a hg d).kept h x
          (λ same.
            let new = (accept-Accepted hash_of r decided_round hg a accepted).fresh in ground arith)
          e
  where
    P : Hashgraph → Type 0
    P s = (x' : EventRecord) × (get_event s h ≡ some x') × Later x x'

-- Taking in a transferred record, or refusing it, leaves every stored event that a round has received
-- with its round received and its consensus timestamp, for an event map with distinct keys.
pub order-insert_accepted :
    (hash_of : Event → Bytes ⊎ EventHash) (r : RetainedEvent) (decided_round : ℕ) (hg : Hashgraph)
    (h : EventHash) (x : EventRecord) (n : ℕ)
    → Map.DistinctKeys hg.events
    → get_event hg h ≡ some x
    → x.round_received ≡ some n
    → (x' : EventRecord) × (get_event (insert_accepted hash_of r decided_round hg).1 h ≡ some x')
      × (x'.round_received ≡ some n)
      × (x'.consensus_timestamp ≡ x.consensus_timestamp)
order-insert_accepted hash_of r decided_round hg h x n d e q =
    let (x', found, later) = insert_accepted-Later hash_of r decided_round hg h x d e in
    let ordered : is_pending x ≡ false = rw q in
    (x', found, later.received ordered ∙ q, later.timestamp ordered)
