-- ===== src/Final/Insertion.antt =====
-- The loops of `vote_as_witness`, `finalize_round` and `insert` against the relation of Final.
use jx.Base.{
  ℕ, zero, suc, ◌+◌, ◌-◌, ◌≡◌, refl, sym, ◌∙◌, ◌⊎◌, Bool, Option, some, List, [], ◌∷◌, arith,
  if◌then◌else◌, nat_eq, ltb, ◌*◌,
}
use jx.Base.Map
use jx.Roster.{Bytes}
use jx.Hashgraph.{
  EventHash, Event, EventRecord, Hashgraph, get_event, is_decided, is_round_decided, fame_of,
  witnesses_of_round, member_count_at_round, set_event_round, record_witness, ok, Exec, bind, pure,
  ask, update, parents, slot, after_ask,
}
use jx.Order.{for_each, note_round_decided_if_complete}
use jx.Fame.{
  try_eager_decide, vote_of, vote_on_candidate, backfill_vote, is_open, try_when, try_if_open,
  backfill, open_below, backfill_all, vote_from, backfill_round, backfill_rounds, vote_on_all,
  own_round, vote_as_witness,
}
use jx.Round.{finalize_round, count_strongly_seen, starts_round, finish_round, round_from_count}
use jx.Insert.{
  Admission, admit, insert, settle, note_branch, index_event, add_children, store_event, base_of,
  round_of, witness_flag, flag_forker, first_branch, is_fork, record_branch, retry_order,
  vote_if_witness, store_admitted, insert_admitted,
}
use jx.Insert.Admit.{admit-Admitted}
use jx.Final.{
  Later, Later-refl, Extends, Extends-refl, Extends-trans, Keeps, bind-Keeps, pure-Keeps,
  query-Keeps, modify_event-Extends,
}
use jx.Final.Ordering.{update-Keeps, if-Keeps, note_round-Keeps}
use jx.Final.Voting.{vote_of-Keeps, try_eager_decide-Keeps}

for_each-Keeps :
    (skip : EventHash) (body : EventHash → Exec Hashgraph (Unit {0})) (es : List EventHash)
    → ((e : EventHash) → Keeps skip (body e))
    → Keeps skip (for_each body es)
unfolding for_each
for_each-Keeps skip body [] k = pure-Keeps skip tt
for_each-Keeps skip body (e ∷ es) k =
    bind-Keeps skip (body e) (λ _. for_each body es) (k e) (λ _. for_each-Keeps skip body es k)

vote_on_candidate-Keeps : (skip y c : EventHash) → Keeps skip (vote_on_candidate y c)
unfolding vote_on_candidate
vote_on_candidate-Keeps skip y c =
    bind-Keeps skip (vote_of y c) (λ _. bind (try_eager_decide c) λ _. pure tt)
      (vote_of-Keeps skip y c)
      (λ _.
        bind-Keeps skip (try_eager_decide c) (λ _. pure tt) (try_eager_decide-Keeps skip c)
          (λ _. pure-Keeps skip tt))

backfill_vote-Keeps : (skip y v : EventHash) → Keeps skip (backfill_vote y v)
unfolding backfill_vote
backfill_vote-Keeps skip y v =
    bind-Keeps skip (vote_of v y) (λ _. pure tt) (vote_of-Keeps skip v y) (λ _. pure-Keeps skip tt)

try_if_open-Keeps : (skip y : EventHash) → Keeps skip (try_if_open y)
unfolding try_if_open
try_if_open-Keeps skip y =
    query-Keeps skip (λ hg. ok (is_open (fame_of hg y))) (try_when y)
      (λ waits.
        if-Keeps skip waits (bind (try_eager_decide y) (λ _. pure tt)) (pure tt)
          (bind-Keeps skip (try_eager_decide y) (λ _. pure tt) (try_eager_decide-Keeps skip y)
            (λ _. pure-Keeps skip tt))
          (pure-Keeps skip tt))

backfill_round-Keeps :
    (skip y : EventHash) (voters : List EventHash) → Keeps skip (backfill_round y voters)
unfolding backfill_round
backfill_round-Keeps skip y voters =
    bind-Keeps skip (for_each (backfill_vote y) voters) (λ _. try_if_open y)
      (for_each-Keeps skip (backfill_vote y) voters (backfill_vote-Keeps skip y))
      (λ _. try_if_open-Keeps skip y)

backfill-Keeps : (skip y : EventHash) (count round : ℕ) → Keeps skip (backfill y count round)
unfolding backfill
backfill-Keeps skip y zero round = pure-Keeps skip tt
backfill-Keeps skip y (suc count) round =
    let rest = backfill-Keeps skip y count (round + 1) in
    let voters = λ (hg : Hashgraph). ok (witnesses_of_round hg round) in
    let one_round : Exec Hashgraph (Unit {0}) = bind (ask voters) (backfill_round y) in
    let next : Exec Hashgraph (Unit {0}) = bind one_round (λ _. backfill y count (round + 1)) in
    query-Keeps skip (λ hg. ok (is_decided (fame_of hg y)))
      (λ settled. if settled then pure tt else next)
      λ settled. if-Keeps skip settled (pure tt) next (pure-Keeps skip tt) (
        bind-Keeps skip one_round (λ _. backfill y count (round + 1))
          (query-Keeps skip voters (backfill_round y) (backfill_round-Keeps skip y)) (λ _. rest))

backfill_rounds-Keeps :
    (skip y : EventHash) (y_round count : ℕ) → Keeps skip (backfill_rounds y y_round count)
unfolding backfill_rounds
backfill_rounds-Keeps skip y y_round count =
    bind-Keeps skip (backfill y count (y_round + 1)) (λ _. try_if_open y)
      (backfill-Keeps skip y count (y_round + 1)) (λ _. try_if_open-Keeps skip y)

vote_on_all-Keeps :
    (skip y : EventHash) (y_round : ℕ) (cs : List EventHash) → Keeps skip (vote_on_all y y_round cs)
unfolding vote_on_all backfill_all
vote_on_all-Keeps skip y y_round cs =
    bind-Keeps skip (for_each (vote_on_candidate y) cs) (λ _. backfill_all y y_round)
      (for_each-Keeps skip (vote_on_candidate y) cs (vote_on_candidate-Keeps skip y))
      (λ _.
        query-Keeps skip (λ hg. ok (hg.highest_witness_round - y_round)) (backfill_rounds y y_round)
          (backfill_rounds-Keeps skip y y_round))

-- The election step of a new witness takes nothing back.
pub vote_as_witness-Keeps : (skip y : EventHash) → Keeps skip (vote_as_witness y)
unfolding vote_as_witness vote_from
vote_as_witness-Keeps skip y = query-Keeps skip (own_round y) (vote_from y) λ y_round.
    query-Keeps skip (λ hg. ok (open_below hg y_round)) (vote_on_all y y_round)
      (vote_on_all-Keeps skip y y_round)

-- the new event's own record is the one that its round is written to
set_event_round-Extends :
    (h : EventHash) (round : ℕ) (w : Bool) (hg : Hashgraph)
    → Extends h hg (set_event_round h round w hg)
unfolding set_event_round
set_event_round-Extends h round w hg = modify_event-Extends h h _ hg (λ r n e. absurd (n refl))

-- a change of the indices alone
pub index-Extends :
    (skip : EventHash) (hg hg' : Hashgraph)
    → hg'.events ≡ hg.events
    → hg'.fully_decided_rounds ≡ hg.fully_decided_rounds
    → hg'.next_round_to_order ≡ hg.next_round_to_order
    → hg'.roster_history ≡ hg.roster_history
    → hg'.member_index ≡ hg.member_index
    → Extends skip hg hg'
unfolding is_round_decided
index-Extends skip hg hg' e d n r m = record {
  kept = λ h x _ p. (x, rw e p, Later-refl x);
  distinct = λ q. rw e q;
  decided = λ k q. rw d q;
  watermark = omega arith;
  roster = r;
  members = m;
}

record_witness-Extends :
    (skip : EventHash) (round : ℕ) (h : EventHash) (hg : Hashgraph)
    → Extends skip hg (record_witness round h hg)
unfolding record_witness
record_witness-Extends skip round h hg = index-Extends skip hg _ refl refl refl refl refl

finalize_round-Keeps :
    (h : EventHash) (base : ℕ) (spr : Option ℕ) → Keeps h (finalize_round h base spr)
unfolding finalize_round round_from_count finish_round
finalize_round-Keeps h base spr =
    query-Keeps h (λ hg. count_strongly_seen hg h base (witnesses_of_round hg base))
      (round_from_count h base spr)
      λ count.
        query-Keeps h (λ hg. member_count_at_round hg base) (finish_round h base spr count)
          λ total.
            let final_round = if ltb (total * 2) (count * 3) then base + 1 else base in
            let w = starts_round spr final_round in
            bind-Keeps h (update (set_event_round h final_round w))
              (λ _. if w then update (record_witness final_round h) else pure tt)
              (update-Keeps h _ (set_event_round-Extends h final_round w))
              (λ _.
                if-Keeps h w (update (record_witness final_round h)) (pure tt)
                  (update-Keeps h _ (record_witness-Extends h final_round h)) (pure-Keeps h tt))

settle-Keeps : (h : EventHash) (base : ℕ) (spr : Option ℕ) → Keeps h (settle h base spr)
unfolding settle vote_if_witness retry_order
settle-Keeps h base spr =
    bind-Keeps h (finalize_round h base spr) (λ _. bind (ask (witness_flag h)) (vote_if_witness h))
      (finalize_round-Keeps h base spr)
      λ _. query-Keeps h (witness_flag h) (vote_if_witness h) λ w.
        bind-Keeps h (if w then vote_as_witness h else pure tt)
          (λ _. bind (ask (λ hg. ok hg.next_round_to_order)) (retry_order h))
          (if-Keeps h w (vote_as_witness h) (pure tt) (vote_as_witness-Keeps h h) (pure-Keeps h tt))
          λ _.
            query-Keeps h (λ hg. ok hg.next_round_to_order) (retry_order h)
              λ next.
                bind-Keeps h (note_round_decided_if_complete next) (λ _. pure h)
                  (note_round-Keeps h next) (λ _. pure-Keeps h h)

pub note_branch-Keeps :
    (skip : EventHash) (event : Event) (h : EventHash) (idx : ℕ)
    → Keeps skip (note_branch event h idx)
unfolding note_branch record_branch
note_branch-Keeps skip event h idx =
    query-Keeps skip (λ hg. ok (is_fork event h hg)) (record_branch event h idx)
      λ fork.
        if-Keeps skip fork _ (update (first_branch event h))
          (query-Keeps skip (λ hg. slot hg.known_forkers idx) (λ _. update (flag_forker idx))
            (λ _.
              update-Keeps skip (flag_forker idx)
                (λ hg. index-Extends skip hg _ refl refl refl refl refl)))
          (update-Keeps skip (first_branch event h)
            (λ hg. index-Extends skip hg _ refl refl refl refl refl))

pub add_children-Extends :
    (skip h : EventHash) (ps : List EventHash) (hg : Hashgraph)
    → Extends skip hg (add_children h ps hg)
unfolding add_children
add_children-Extends skip h [] hg = Extends-refl skip hg
add_children-Extends skip h (p ∷ ps) hg =
    Extends-trans skip hg _ _ (index-Extends skip hg _ refl refl refl refl refl)
      (add_children-Extends skip h ps _)

pub store_event-Extends :
    (h : EventHash) (r : EventRecord) (hg : Hashgraph) → Extends h hg (store_event h r hg)
unfolding is_round_decided
store_event-Extends h r hg = record {
  kept = λ x y n e. (y, Map.get-put_ne h x r hg.events (λ p. n (sym p)) ∙ e, Later-refl y);
  distinct = Map.put-DistinctKeys h r hg.events;
  decided = λ k e. e;
  watermark = omega arith;
  roster = refl;
  members = refl;
}

store_admitted-Extends :
    (event : Event) (a : Admission) (hg : Hashgraph) → Extends a.hash hg (store_admitted event a hg)
store_admitted-Extends event a hg =
    let indexed = index_event event a.hash a.seq hg in
    let linked = add_children a.hash (parents event) indexed in
    Extends-trans a.hash hg indexed _ (index-Extends a.hash hg indexed refl refl refl refl refl) (
      Extends-trans a.hash indexed linked _
        (add_children-Extends a.hash a.hash (parents event) indexed)
        (store_event-Extends a.hash _ linked))

pub insert_admitted-Keeps : (event : Event) (a : Admission) → Keeps a.hash (insert_admitted event a)
unfolding insert_admitted
insert_admitted-Keeps event a =
    let settled = settle a.hash (base_of a) (round_of a.self_parent_record) in
    bind-Keeps a.hash (note_branch event a.hash a.creator_idx)
      (λ _. bind (update (store_admitted event a)) λ _. settled)
      (note_branch-Keeps a.hash event a.hash a.creator_idx)
      (λ _.
        bind-Keeps a.hash (update (store_admitted event a)) (λ _. settled)
          (update-Keeps a.hash _ (store_admitted-Extends event a))
          (λ _. settle-Keeps a.hash (base_of a) (round_of a.self_parent_record)))

-- Inserting an event takes nothing back of what is stored: every stored record is still there, with
-- its event, its ancestry row, its round and its witness flag, a fame decision and an order that it
-- had, and every decided round is still decided.
pub insert-Extends :
    (hash_of : Event → Bytes ⊎ EventHash) (event : Event) (hg : Hashgraph) (h : EventHash)
    (r : EventRecord)
    → Map.DistinctKeys hg.events
    → get_event hg h ≡ some r
    → (r' : EventRecord) × (get_event (insert hash_of event hg).1 h ≡ some r') × Later r r'
unfolding insert
insert-Extends hash_of event hg h r d e =
    after_ask P (admit hash_of event) (insert_admitted event) hg (r, e, Later-refl r)
      λ a admitted.
        (insert_admitted-Keeps event a hg d).kept h r
          (λ same. let new = (admit-Admitted hash_of event hg a admitted).fresh in ground arith) e
  where
    P : Hashgraph → Type 0
    P s = (r' : EventRecord) × (get_event s h ≡ some r') × Later r r'
