-- ===== src/Roster.antt =====
-- consensus-node/protocol/crypto/src/membership.rs and roster.rs: who is a member, and since which
-- round. An Ed25519 key is its 32 bytes.
pub mod Laws
mod Tests
use jx.Base.{
  ℕ, ◌<◌, Bool, true, false, ◌||◌, Option, none, some, List, [], ◌∷◌, map, length, keep, last?,
  sort_by, ltb, leb, if◌then◌else◌, compare, Ordering, option_beq, ◌==◌, nat_eq, All,
}
use jx.Base.Map
use jx.Base.Map.{Map}
use mathlib.Core.Option

abbrev pub NodeId : Type 0
NodeId = ℕ

abbrev pub Bytes : Type 0
Bytes = List ℕ

pub record MemberKeys : Type 0 where
  pub key : Bytes
  pub bls_key : Bytes

-- `MembershipRegistry`
pub record MembershipRegistry : Type 0 where
  pub keys : Map NodeId MemberKeys

unfoldable pub empty_registry : MembershipRegistry
empty_registry = record { keys = [] }

unfoldable pub register : MembershipRegistry → NodeId → Bytes → Bytes → MembershipRegistry
register r node key bls_key = record {
  keys = Map.put node (record { key = key; bls_key = bls_key }) r.keys;
}

-- `MembershipRegistry::contains`
unfoldable pub contains : MembershipRegistry → NodeId → Bool
contains r node = Map.contains_key node r.keys

-- The ids in ascending order.
unfoldable pub member_ids : MembershipRegistry → List NodeId
member_ids r = sort_by leb (map (λ (e : NodeId × MemberKeys). e.0) r.keys)

-- `MembershipRegistry::len`
unfoldable pub member_total : MembershipRegistry → ℕ
member_total r = length r.keys

-- A `BTreeMap<u64, MembershipRegistry>` lists its entries in ascending order.
abbrev pub Snapshots : Type 0
Snapshots = List (ℕ × MembershipRegistry)

pub record RosterHistory : Type 0 where
  pub snapshots : Snapshots

-- `BTreeMap::insert`
unfoldable pub put_ordered : ℕ → MembershipRegistry → Snapshots → Snapshots
put_ordered r reg [] = (r, reg) ∷ []
put_ordered r reg ((k, v) ∷ m) = elim (compare r k) [
  | Ordering.lt ↦ (r, reg) ∷ (k, v) ∷ m
  | Ordering.eq ↦ (r, reg) ∷ m
  | Ordering.gt ↦ (k, v) ∷ put_ordered r reg m
]

-- `RosterHistory::new`
unfoldable pub new_history : MembershipRegistry → RosterHistory
new_history genesis = record { snapshots = (1, genesis) ∷ [] }

-- `none` is the panic of `expect`: no snapshot at or before the round.
unfoldable pub roster_for_round : RosterHistory → ℕ → Option MembershipRegistry
roster_for_round h round =
    Option.map (λ (e : ℕ × MembershipRegistry). e.1)
      (last? (keep (λ (e : ℕ × MembershipRegistry). leb e.0 round) h.snapshots))

unfoldable pub schedule : RosterHistory → ℕ → MembershipRegistry → RosterHistory
unfolding put_ordered
schedule h activation_round reg = record {
  snapshots = put_ordered activation_round reg h.snapshots;
}

unfoldable pub from_list : List (ℕ × MembershipRegistry) → Snapshots → Snapshots
unfolding put_ordered
from_list [] m = m
from_list ((r, reg) ∷ rest) m = from_list rest (put_ordered r reg m)

-- A `BTreeMap` collected from the list: a later entry of the same round replaces an earlier one.
unfoldable pub from_snapshots : List (ℕ × MembershipRegistry) → Option RosterHistory
unfolding from_list
from_snapshots snaps = elim (from_list snaps []) [
  | [] ↦ none
  | e ∷ m ↦ some (record { snapshots = e ∷ m })
]

-- `range(..keep_from_round).next_back()`, its round
unfoldable pub predecessor : ℕ → Snapshots → Option ℕ
predecessor keep_from m =
    Option.map (λ (e : ℕ × MembershipRegistry). e.0)
      (last? (keep (λ (e : ℕ × MembershipRegistry). ltb e.0 keep_from) m))

-- the test of `retain`
unfoldable pub retained : ℕ → Option ℕ → ℕ × MembershipRegistry → Bool
retained keep_from p e = leb keep_from e.0 || option_beq (some e.0) p

-- `RosterHistory::prune_before`
unfoldable pub prune_before : RosterHistory → ℕ → RosterHistory
unfolding predecessor retained
prune_before h keep_from = record {
  snapshots = keep (retained keep_from (predecessor keep_from h.snapshots)) h.snapshots;
}

-- The rounds of the snapshots rise.
abbrev pub IsAscending : Snapshots → Type 0
IsAscending [] = Unit
IsAscending ((k, _) ∷ m) = All (λ (e : ℕ × MembershipRegistry). k < e.0) m × IsAscending m
