-- ===== src/Ancestry.antt =====
-- consensus-node/protocol/consensus/src/ancestry.rs: ancestor, see and strongly see.
pub mod Walk
use jx.Base.{
  ℕ, zero, suc, ◌+◌, ◌*◌, Bool, true, false, not, Option, none, some, List, [], ◌∷◌, ◌++◌, any,
  length, ltb, if◌then◌else◌, ◌==◌, ◌&&◌, nat_eq,
}
use jx.Base.Map
use jx.Base.Map.{Map}
use jx.Roster.{NodeId}
use jx.Hashgraph.{
  EventHash, EventRecord, Hashgraph, parents, get_event, known, slot, member_index_of,
  creator_has_known_fork, event_for_creator_seq, member_count_at_round, Result, ok, fault,
  out_of_fuel, unknown_event, ok_or, ◌>>=◌,
}
use mathlib.Core.Option

-- What one visit decides: an answer that ends the walk, or the visitor's next state.
pub data Visit (B S : Type 0) : Type 0 where
  stop : B → Visit B S
  go_on : S → Visit B S

-- The loop that the three traversals share: pop the queue, look at the popped hash, skip what was
-- visited and what was pruned, inspect the record, push the parents.
module _ {B S : Type 0} where
  unfoldable pub traverse :
      (look : EventHash → Option B) (inspect : EventHash → EventRecord → S → Visit B S)
      (hg : Hashgraph) (fuel : ℕ) (visited queue : List EventHash)
      → S
      → Result (Option B)
  traverse look inspect hg zero visited queue s = fault out_of_fuel
  traverse look inspect hg (suc fuel) visited [] s = ok none
  traverse look inspect hg (suc fuel) visited (current ∷ queue) s = elim (look current) [
    | some b ↦ ok (some b)
    | none ↦ elim (any (λ h. h == current) visited) [
      | true ↦ traverse look inspect hg fuel visited queue s
      | false ↦ elim (get_event hg current) [
        | none ↦ traverse look inspect hg fuel (current ∷ visited) queue s
        | some rec ↦ elim (inspect current rec s) [
          | stop b ↦ ok (some b)
          | go_on s' ↦
              traverse look inspect hg fuel (current ∷ visited) (queue ++ parents rec.event) s'
        ]
      ]
    ]
  ]

-- Each stored event pushes its parents once: a step for each entry of the queue, and one for its end.
abbrev pub walk_fuel : Hashgraph → ℕ
walk_fuel hg = 2 * length hg.events + 2

abbrev pub nothing {ℓ} : {B : Type ℓ} → EventHash → Option B
nothing h = none

-- `rec.event().creator() == creator && rec.seq() == seq`
abbrev pub match_creator_seq :
    NodeId → ℕ → EventHash → EventRecord → Unit {0} → Visit EventHash (Unit {0})
match_creator_seq creator seq current rec u =
    if rec.event.creator == creator && rec.seq == seq then stop current else go_on u

unfoldable pub ancestor_event_for_creator :
    Hashgraph → EventHash → NodeId → ℕ → Result (Option EventHash)
ancestor_event_for_creator hg x creator seq =
    traverse nothing (match_creator_seq creator seq) hg (walk_fuel hg) [] (x ∷ []) tt

abbrev pub match_target : EventHash → EventHash → Option (Unit {0})
match_target target current = if current == target then some tt else none

abbrev pub inspect_nothing : EventHash → EventRecord → Unit {0} → Visit (Unit {0}) (Unit {0})
inspect_nothing current rec u = go_on u

unfoldable pub ancestry_contains_event : Hashgraph → EventHash → EventHash → Result Bool
ancestry_contains_event hg x target = do
  found ← traverse (match_target target) inspect_nothing hg (walk_fuel hg) [] (x ∷ []) tt
  ok (elim found [ none ↦ false | some _ ↦ true ])

-- Two events of one creator under one sequence number are a fork.
abbrev pub note_seq :
    NodeId → EventHash → EventRecord → Map ℕ EventHash → Visit (Unit {0}) (Map ℕ EventHash)
note_seq creator current rec seen_seqs =
    if rec.event.creator == creator
    then elim (Map.get rec.seq seen_seqs) [
      | none ↦ go_on (Map.put rec.seq current seen_seqs)
      | some existing ↦
          (if existing == current then go_on (Map.put rec.seq current seen_seqs) else stop tt)
    ]
    else go_on seen_seqs

unfoldable pub ancestry_contains_fork_of : Hashgraph → EventHash → NodeId → Result Bool
ancestry_contains_fork_of hg x creator = do
  found ← traverse nothing (note_seq creator) hg (walk_fuel hg) [] (x ∷ []) []
  ok (elim found [ none ↦ false | some _ ↦ true ])

unfoldable pub is_ancestor : Hashgraph → EventHash → EventHash → Result Bool
is_ancestor hg x y = if x == y then ok true else do
  x_rec ← known hg x
  y_rec ← known hg y
  creator_idx ← ok_or (member_index_of hg y_rec.event.creator) (unknown_event y)
  reached ← slot x_rec.ancestor_seqs creator_idx
  if ltb reached y_rec.seq then ok false else do
    forked ← creator_has_known_fork hg creator_idx
    if forked then ancestry_contains_event hg x y else ok true

unfoldable pub see : Hashgraph → EventHash → EventHash → Result Bool
see hg x y = do
  ancestor ← is_ancestor hg x y
  if ancestor
      then (do
        y_rec ← known hg y
        creator_idx ← ok_or (member_index_of hg y_rec.event.creator) (unknown_event y)
        forked ← creator_has_known_fork hg creator_idx
        if forked
            then (do fork ← ancestry_contains_fork_of hg x y_rec.event.creator; ok (not fork))
            else ok true)
      else ok false

-- The `while` loop of `member_chain_reaches`, down the self-parents.
unfoldable pub chain_reaches : Hashgraph → ℕ → EventHash → EventHash → Result Bool
chain_reaches hg zero current y = fault out_of_fuel
chain_reaches hg (suc fuel) current y = do
  seen ← see hg current y
  elim seen [
    | true ↦ ok true
    | false ↦ elim (get_event hg current) [
      | none ↦ ok false
      | some rec ↦ elim rec.event.self_parent [
        | none ↦ ok false
        | some parent ↦ elim (get_event hg parent) [
          | none ↦ ok false
          | some _ ↦ chain_reaches hg fuel parent y
        ]
      ]
    ]
  ]

-- Sequence numbers fall along a self-parent chain, so `up_to_seq` rounds reach its end.
unfoldable pub member_chain_reaches :
    Hashgraph → EventHash → NodeId → ℕ → ℕ → EventHash → Result Bool
member_chain_reaches hg x creator member_idx up_to_seq y = do
  forked ← creator_has_known_fork hg member_idx
  start ←
      (if forked
        then ancestor_event_for_creator hg x creator up_to_seq
        else ok (event_for_creator_seq hg creator up_to_seq))
  elim start [ none ↦ ok false | some h ↦ chain_reaches hg (suc up_to_seq) h y ]

-- the `for` loop of `strongly_see_at` over the members
unfoldable pub count_reaching :
    Hashgraph → EventHash → EventRecord → EventHash → List (NodeId × ℕ) → Result ℕ
count_reaching hg x x_rec y [] = ok 0
count_reaching hg x x_rec y ((node_id, idx) ∷ members) = do
  latest_seq ← slot x_rec.ancestor_seqs idx
  reaches ←
      (if latest_seq == 0 then ok false else member_chain_reaches hg x node_id idx latest_seq y)
  n ← count_reaching hg x x_rec y members
  ok (if reaches then suc n else n)

unfoldable pub strongly_see_at : Hashgraph → EventHash → EventHash → ℕ → Result Bool
strongly_see_at hg x y roster_round = do
  seen ← see hg x y
  if seen
      then (do
        x_rec ← known hg x
        supermajority_count ← count_reaching hg x x_rec y hg.member_index
        total ← member_count_at_round hg roster_round
        ok (ltb (total * 2) (supermajority_count * 3)))
      else ok false

unfoldable pub strongly_see : Hashgraph → EventHash → EventHash → Result Bool
strongly_see hg x y =
    strongly_see_at hg x y
      (Option.get_or (Option.map (λ (r : EventRecord). r.round) (get_event hg y)) 1)
