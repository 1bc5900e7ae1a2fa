-- ===== src/Final/Ordering.antt =====
-- The finality part of hashgraph.rs against the relation of Final.
use jx.Base.{
  ℕ, zero, suc, ◌+◌, ◌≡◌, refl, inl, inr, Bool, true, false, not, List, [], ◌∷◌, arith,
  if◌then◌else◌, ◌==◌, nat_eq, Bool-cases, ◌||◌,
}
use jx.Base.Map
use jx.Hashgraph.{
  EventHash, Hashgraph, FameStatus, is_decided, is_round_decided, set_contains, set_insert, fame_of,
  ok, Exec, pure, update,
}
use jx.Order.{
  order_seen_by, note_if_complete, note_unless_waiting, note_round_of, assign_order, order_rounds,
  order_decided_rounds, note_round_decided_if_complete, has_undecided, round_view_complete,
  mark_decided, close_election, round_or_zero, decide_fame, famous_witnesses_of_round,
}
use jx.Final.{
  Later-refl, Extends, Extends-refl, Extends-trans, Keeps, bind-Extends, bind-Keeps, pure-Keeps,
  query-Keeps, modify_event-Extends,
}
use jx.Final.Pending.{order_seen_by-Keeps}

-- Finalizing a round takes nothing back.
pub assign_order-Keeps : (skip : EventHash) (round : ℕ) → Keeps skip (assign_order round)
unfolding assign_order
assign_order-Keeps skip round =
    query-Keeps skip (λ s. ok (famous_witnesses_of_round s round)) (order_seen_by round)
      (order_seen_by-Keeps skip round)

pub set_contains-set_insert :
    (n r : ℕ) (m : List ℕ) → set_contains n (set_insert r m) ≡ (r == n || set_contains n m)
unfolding set_contains set_insert
set_contains-set_insert n r [] = refl
set_contains-set_insert n r (k ∷ m) = ground (arith, set_contains-set_insert n r m)

mark_decided-Extends :
    (skip : EventHash) (round : ℕ) (hg : Hashgraph) → Extends skip hg (mark_decided round hg)
unfolding is_round_decided
mark_decided-Extends skip round hg = record {
  kept = λ h r n e. (r, e, Later-refl r);
  distinct = λ d. d;
  decided = λ n e. ground (arith, set_contains-set_insert n round hg.fully_decided_rounds);
  watermark = omega arith;
  roster = refl;
  members = refl;
}

advance-Extends :
    (skip : EventHash) (hg : Hashgraph)
    → Extends skip hg (record hg { next_round_to_order = hg.next_round_to_order + 1 })
unfolding is_round_decided
advance-Extends skip hg = record {
  kept = λ h r n e. (r, e, Later-refl r);
  distinct = λ d. d;
  decided = λ n e. e;
  watermark = omega arith;
  roster = refl;
  members = refl;
}

pub order_rounds-Keeps : (skip : EventHash) (fuel : ℕ) → Keeps skip (order_rounds fuel)
unfolding order_rounds
order_rounds-Keeps skip zero hg d = Extends-refl skip hg
order_rounds-Keeps skip (suc fuel) hg d =
    elim (Bool-cases (set_contains hg.next_round_to_order hg.fully_decided_rounds)) [
      | inl more ↦
          let next = record hg { next_round_to_order = hg.next_round_to_order + 1 } in
          rw (more, order_rounds)
            (Extends-trans skip hg next _ (advance-Extends skip hg) (
              bind-Keeps skip (assign_order hg.next_round_to_order) (λ _. order_rounds fuel)
                (assign_order-Keeps skip hg.next_round_to_order) (λ _. order_rounds-Keeps skip fuel)
                next d))
      | inr done ↦ rw (done, order_rounds) (Extends-refl skip hg)
    ]

pub update-Keeps :
    (skip : EventHash) (f : Hashgraph → Hashgraph)
    → ((hg : Hashgraph) → Extends skip hg (f hg))
    → Keeps skip (update f)
unfolding update
update-Keeps skip f h hg d = h hg

-- a method that does nothing or runs another
pub if-Keeps :
    (skip : EventHash) {A : Type 0} (b : Bool) (m n : Exec Hashgraph A)
    → Keeps skip m
    → Keeps skip n
    → Keeps skip (if b then m else n)
if-Keeps skip true m n p q = p
if-Keeps skip false m n p q = q

note_if_complete-Keeps :
    (skip : EventHash) (round : ℕ) (complete : Bool) → Keeps skip (note_if_complete round complete)
unfolding note_if_complete order_decided_rounds
note_if_complete-Keeps skip round complete =
    if-Keeps skip (not complete) (pure tt) _ (pure-Keeps skip tt) (
      bind-Keeps skip (update (mark_decided round)) (λ _. order_decided_rounds)
        (update-Keeps skip (mark_decided round) (mark_decided-Extends skip round))
        (λ _ s. order_rounds-Keeps skip _ s))

note_unless_waiting-Keeps :
    (skip : EventHash) (round : ℕ) (waiting : Bool) → Keeps skip (note_unless_waiting round waiting)
unfolding note_unless_waiting
note_unless_waiting-Keeps skip round waiting =
    if-Keeps skip waiting (pure tt) _ (pure-Keeps skip tt) (
      query-Keeps skip (λ s. round_view_complete s round) (note_if_complete round)
        (note_if_complete-Keeps skip round))

pub note_round-Keeps :
    (skip : EventHash) (round : ℕ) → Keeps skip (note_round_decided_if_complete round)
unfolding note_round_decided_if_complete
note_round-Keeps skip round = if-Keeps skip (round == 0) (pure tt) _ (pure-Keeps skip tt) (
    query-Keeps skip (λ s. ok (has_undecided s round)) (note_unless_waiting round)
      (note_unless_waiting-Keeps skip round))

close_election-Extends :
    (skip candidate : EventHash) (status : FameStatus) (hg : Hashgraph)
    → is_decided (fame_of hg candidate) ≡ false
    → Extends skip hg (close_election candidate status hg)
unfolding fame_of is_round_decided
close_election-Extends skip candidate status hg open_ =
    let e =
      modify_event-Extends skip candidate (λ r. record r { fame_status = status }) hg
        (λ r n e. ground arith) in
    record {
      kept = e.kept;
      distinct = e.distinct;
      decided = e.decided;
      watermark = e.watermark;
      roster = e.roster;
      members = e.members;
    }

note_round_of-Keeps : (skip candidate : EventHash) → Keeps skip (note_round_of candidate)
unfolding note_round_of
note_round_of-Keeps skip candidate =
    query-Keeps skip (λ s. ok (round_or_zero s candidate)) note_round_decided_if_complete
      (note_round-Keeps skip)

-- Deciding the fame of a witness that has no decision takes nothing back.
pub decide_fame-Extends :
    (skip candidate : EventHash) (status : FameStatus) (hg : Hashgraph)
    → Map.DistinctKeys hg.events
    → is_decided (fame_of hg candidate) ≡ false
    → Extends skip hg (decide_fame candidate status hg).1
unfolding decide_fame update
decide_fame-Extends skip candidate status hg d open_ =
    let e = close_election-Extends skip candidate status hg open_ in
    bind-Extends skip (update (close_election candidate status)) (λ _. note_round_of candidate) hg e
      (λ _ _.
        note_round_of-Keeps skip candidate (close_election candidate status hg) (e.distinct d))
