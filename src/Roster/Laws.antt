-- ===== src/Roster/Laws.antt =====
-- Lookup by round against scheduling and pruning.

use jx.Base.{
  ℕ, ◌<◌, ◌≤◌, ◌≡◌, refl, ap, ◌∙◌, ◌⊎◌, inl, inr, Option, none, some, [], ◌∷◌, keep, last?, All,
  leb, ltb, arith, Option-cases,
}
use jx.Roster.{
  MembershipRegistry, RosterHistory, Snapshots, put_ordered, roster_for_round, schedule,
  predecessor, retained, prune_before, IsAscending,
}

abbrev Entry : Type 0
Entry = ℕ × MembershipRegistry

abbrev upto : ℕ → Snapshots → Snapshots
upto r m = keep (λ (e : Entry). leb e.0 r) m

upto-put_ordered :
    (a r : ℕ) (reg : MembershipRegistry) (m : Snapshots)
    → r < a
    → upto r (put_ordered a reg m) ≡ upto r m
unfolding put_ordered
upto-put_ordered a r reg [] h = ground arith
upto-put_ordered a r reg ((k, v) ∷ m) h = ground (arith, upto-put_ordered a r reg m)

-- Scheduling a roster for a round leaves the roster of every earlier round as it was, so no quorum
-- of a round before the activation changes.
pub roster_for_round-schedule_before :
    (h : RosterHistory) (a r : ℕ) (reg : MembershipRegistry)
    → r < a
    → roster_for_round (schedule h a reg) r ≡ roster_for_round h r
unfolding roster_for_round schedule
roster_for_round-schedule_before h a r reg lt = rw (upto-put_ordered a r reg h.snapshots lt)

above : (r : ℕ) (m : Snapshots) → All (λ (e : Entry). r < e.0) m → upto r m ≡ []
above r [] h = refl
above r ((k, v) ∷ m) h = ground (arith, above r m h.1)

-- between a and r no snapshot becomes active
abbrev pub Quiet : ℕ → ℕ → Snapshots → Type 0
Quiet a r m = All (λ (e : Entry). (e.0 ≤ a) ⊎ (r < e.0)) m

Quiet-rest :
    (a r k : ℕ) (m : Snapshots)
    → a ≤ k
    → Quiet a r m
    → All (λ (e : Entry). k < e.0) m
    → upto r m ≡ []
Quiet-rest a r k [] le q h = refl
Quiet-rest a r k ((j, v) ∷ m) le q h = ground (arith, Quiet-rest a r k m le q.1 h.1)

last-cons : (x : Entry) (m : Snapshots) {y : Entry} → last? m ≡ some y → last? (x ∷ m) ≡ some y
last-cons x [] h = ground arith
last-cons x (z ∷ m) h = h

last-put_ordered :
    (a r : ℕ) (reg : MembershipRegistry) (m : Snapshots)
    → IsAscending m
    → a ≤ r
    → Quiet a r m
    → last? (upto r (put_ordered a reg m)) ≡ some (a, reg)
unfolding put_ordered
last-put_ordered a r reg [] s le q = ground arith
last-put_ordered a r reg ((k, v) ∷ m) s le q = ground (
  arith,
  Quiet-rest a r k m,
  last-put_ordered a r reg m s.1 le q.1,
  last-cons (k, v) (upto r (put_ordered a reg m)),
)

-- From its activation on, until a later snapshot takes over, the scheduled roster is the active one.
pub roster_for_round-schedule :
    (h : RosterHistory) (a r : ℕ) (reg : MembershipRegistry)
    → IsAscending h.snapshots
    → a ≤ r
    → Quiet a r h.snapshots
    → roster_for_round (schedule h a reg) r ≡ some reg
unfolding roster_for_round schedule
roster_for_round-schedule h a r reg s le q = rw (last-put_ordered a r reg h.snapshots s le q)

All-put_ordered :
    (a b : ℕ) (reg : MembershipRegistry) (m : Snapshots)
    → b < a
    → All (λ (e : Entry). b < e.0) m
    → All (λ (e : Entry). b < e.0) (put_ordered a reg m)
unfolding put_ordered
All-put_ordered a b reg [] lt h = (lt, tt)
All-put_ordered a b reg ((k, v) ∷ m) lt h = ground (arith, All-put_ordered a b reg m lt h.1)

All-below :
    (a k : ℕ) (m : Snapshots)
    → a ≤ k
    → All (λ (e : Entry). k < e.0) m
    → All (λ (e : Entry). a < e.0) m
All-below a k [] le h = tt
All-below a k ((j, v) ∷ m) le h = (omega arith, All-below a k m le h.1)

put_ordered-IsAscending :
    (a : ℕ) (reg : MembershipRegistry) (m : Snapshots)
    → IsAscending m
    → IsAscending (put_ordered a reg m)
unfolding put_ordered
put_ordered-IsAscending a reg [] s = (tt, tt)
put_ordered-IsAscending a reg ((k, v) ∷ m) s =
    ground (arith, All-below a k m, put_ordered-IsAscending a reg m s.1, All-put_ordered a k reg m)

-- Scheduling keeps the snapshots in order.
pub schedule-IsAscending :
    (h : RosterHistory) (a : ℕ) (reg : MembershipRegistry)
    → IsAscending h.snapshots
    → IsAscending (schedule h a reg).snapshots
unfolding schedule
schedule-IsAscending h a reg s = put_ordered-IsAscending a reg h.snapshots s

-- pruning

keep_everything :
    (k : ℕ) (p : Option ℕ) (m : Snapshots)
    → All (λ (e : Entry). k ≤ e.0) m
    → keep (retained k p) m ≡ m
unfolding retained
keep_everything k p [] h = refl
keep_everything k p ((j, v) ∷ m) h = ground (arith, keep_everything k p m h.1)

abbrev below : ℕ → Snapshots → Snapshots
below k m = keep (λ (e : Entry). ltb e.0 k) m

last-none : (m : Snapshots) → last? m ≡ none → m ≡ []
last-none [] h = refl
last-none (x ∷ []) h = ground arith
last-none (x ∷ y ∷ m) h = let rest = last-none (y ∷ m) h in ground arith

last-below :
    (k b : ℕ) (m : Snapshots) (e : Entry)
    → All (λ (x : Entry). b < x.0) m
    → last? (below k m) ≡ some e
    → (b < e.0) × (e.0 < k)
last-below k b [] e h eq = ground arith
last-below k b ((j, v) ∷ m) e h eq = elim (Option-cases (last? (below k m))) [
  | inl empty ↦ ground (arith, last-none (below k m) empty)
  | inr (e', found) ↦
      ground (arith, last-cons (j, v) (below k m) found, last-below k b m e' h.1 found)
]

-- what an empty range below the bound says
none-below : (k : ℕ) (m : Snapshots) → last? (below k m) ≡ none → All (λ (e : Entry). k ≤ e.0) m
none-below k [] h = tt
none-below k ((j, v) ∷ m) h = elim (Option-cases (last? (below k m))) [
  | inl empty ↦ ground (arith, last-none (below k m) empty, none-below k m empty)
  | inr (e', found) ↦ ground (arith, last-cons (j, v) (below k m) found)
]

upto-empty : (k r : ℕ) (m : Snapshots) → k ≤ r → upto r m ≡ [] → below k m ≡ []
upto-empty k r [] le h = refl
upto-empty k r ((j, v) ∷ m) le h = ground (arith, upto-empty k r m le)

upto-below :
    (k r : ℕ) (m : Snapshots) (e : Entry)
    → k ≤ r
    → last? (below k m) ≡ some e
    → (e' : Entry) × (last? (upto r m) ≡ some e')
upto-below k r m e le h = elim (Option-cases (last? (upto r m))) [
  | inl empty ↦ let z = upto-empty k r m le (last-none (upto r m) empty) in cc (ap last? z)
  | inr found ↦ found
]

abbrev pruned : ℕ → Snapshots → Snapshots
pruned k m = keep (retained k (predecessor k m)) m

pruned_whole :
    (k j : ℕ) (v : MembershipRegistry) (m : Snapshots)
    → last? (below k m) ≡ none
    → pruned k ((j, v) ∷ m) ≡ (j, v) ∷ m
unfolding predecessor retained
pruned_whole k j v m h = ground (
  arith,
  last-none (below k m) h,
  keep_everything k none m (none-below k m h),
  keep_everything k (some j) m (none-below k m h),
)

pruned_head :
    (k j : ℕ) (v : MembershipRegistry) (m : Snapshots) (e : Entry)
    → last? (below k m) ≡ some e
    → j < e.0
    → e.0 < k
    → pruned k ((j, v) ∷ m) ≡ pruned k m
unfolding predecessor retained
pruned_head k j v m e h lt bound = ground (arith, last-cons (j, v) (below k m) h)

prune_last :
    (k r : ℕ) (m : Snapshots)
    → IsAscending m
    → k ≤ r
    → last? (upto r (pruned k m)) ≡ last? (upto r m)
prune_last k r [] s le = refl
prune_last k r ((j, v) ∷ m) s le = elim (Option-cases (last? (below k m))) [
  | inl empty ↦ rw (pruned_whole k j v m empty)
  | inr (e, found) ↦
      let (low, high) = last-below k j m e s.0 found in
      let (e', top) = upto-below k r m e le found in
      rw (pruned_head k j v m e found low high)
        (prune_last k r m s.1 le ∙ ground (arith, last-cons (j, v) (upto r m) top))
]

-- Pruning the snapshots below a round leaves the roster of every round from there on as it was.
pub roster_for_round-prune_before :
    (h : RosterHistory) (k r : ℕ)
    → IsAscending h.snapshots
    → k ≤ r
    → roster_for_round (prune_before h k) r ≡ roster_for_round h r
unfolding roster_for_round prune_before
roster_for_round-prune_before h k r s le = rw (prune_last k r h.snapshots s le)
