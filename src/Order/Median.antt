-- ===== src/Order/Median.antt =====
-- The median timestamp of order.rs, against the ranks of its list: a number has a rank when enough
-- of the list is at most it, and enough at least it.
use jx.Base.{
  ℕ, zero, suc, ◌+◌, ◌-◌, ◌/◌, ◌%◌, ◌≤◌, ◌<◌, ◌≡◌, refl, ap, Bool, false, List, [], ◌∷◌, All, keep,
  length, length-sort_by, leb, insert_by, sort_by, ◌==◌, ==_iff, Bool-cases, inl, inr, subst, arith,
}
use jx.Hashgraph.{slot, ok}
use jx.Order.{median_timestamp}

-- how much of a list passes a test
abbrev pub count : (ℕ → Bool) → List ℕ → ℕ
count p xs = length (keep p xs)

abbrev pub at_most : ℕ → ℕ → Bool
at_most v t = leb t v

abbrev pub at_least : ℕ → ℕ → Bool
at_least v t = leb v t

-- The number would stand at the place `k`, from 0, were the list in ascending order.
pub record HasRank (first_seen : List ℕ) (k v : ℕ) : Type 0 where
  pub from_below : k < count (at_most v) first_seen
  pub from_above : length first_seen ≤ k + count (at_least v) first_seen

Ascends : List ℕ → Type 0
Ascends [] = Unit
Ascends (x ∷ xs) = All (λ y. x ≤ y) xs × Ascends xs

All-insert_by :
    (b a : ℕ) (xs : List ℕ) → b ≤ a → All (λ y. b ≤ y) xs → All (λ y. b ≤ y) (insert_by leb a xs)
unfolding insert_by
All-insert_by b a [] p h = (p, tt)
All-insert_by b a (x ∷ xs) p h = ground (arith, All-insert_by b a xs p h.1)

All-below : (a x : ℕ) (xs : List ℕ) → a ≤ x → All (λ y. x ≤ y) xs → All (λ y. a ≤ y) xs
All-below a x [] p h = tt
All-below a x (y ∷ ys) p h = (omega (arith, h.0), All-below a x ys p h.1)

insert_by-Ascends : (a : ℕ) (xs : List ℕ) → Ascends xs → Ascends (insert_by leb a xs)
unfolding Ascends insert_by
insert_by-Ascends a [] h = (tt, tt)
insert_by-Ascends a (x ∷ xs) h =
    ground (arith, All-below a x xs, All-insert_by x a xs, insert_by-Ascends a xs h.1)

sort_by-Ascends : (xs : List ℕ) → Ascends (sort_by leb xs)
unfolding Ascends sort_by
sort_by-Ascends [] = tt
sort_by-Ascends (x ∷ xs) = insert_by-Ascends x (sort_by leb xs) (sort_by-Ascends xs)

count-insert_by :
    (p : ℕ → Bool) (a : ℕ) (xs : List ℕ) → count p (insert_by leb a xs) ≡ count p (a ∷ xs)
unfolding insert_by
count-insert_by p a [] = refl
count-insert_by p a (x ∷ xs) = ground (arith, count-insert_by p a xs)

count-sort_by : (p : ℕ → Bool) (xs : List ℕ) → count p (sort_by leb xs) ≡ count p xs
unfolding sort_by
count-sort_by p [] = refl
count-sort_by p (x ∷ xs) = ground (arith, count-insert_by p x (sort_by leb xs), count-sort_by p xs)

count-All : (v : ℕ) (xs : List ℕ) → All (λ y. v ≤ y) xs → count (at_least v) xs ≡ length xs
count-All v [] h = refl
count-All v (x ∷ xs) h = ground (arith, count-All v xs h.1, h.0)

bounds_some : (b v : ℕ) (xs : List ℕ) → All (λ y. b ≤ y) xs → 0 < count (at_most v) xs → b ≤ v
bounds_some b v [] h some_one = absurd (omega (arith, some_one))
bounds_some b v (x ∷ xs) h some_one = ground (arith, bounds_some b v xs h.1, h.0)

-- What stands at a place of an ascending list has its rank.
slot-HasRank :
    (xs : List ℕ) (k : ℕ)
    → Ascends xs
    → k < length xs
    → (v : ℕ) × (slot xs k ≡ ok v) × HasRank xs k v
unfolding Ascends
slot-HasRank [] k h l = absurd (omega (arith, l))
slot-HasRank (x ∷ xs) zero h l =
    (x, refl, record { from_below = ground arith; from_above = ground (arith, count-All x xs h.0) })
slot-HasRank (x ∷ xs) (suc k) h l =
    let (v, e, r) = slot-HasRank xs k h.1 (omega (arith, l)) in
    let first : x ≤ v = bounds_some x v xs h.0 (omega (arith, r.from_below)) in
    (
      v,
      e,
      record {
        from_below = ground (arith, r.from_below, first);
        from_above = ground (arith, r.from_above);
      },
    )

HasRank-sort_by : (xs : List ℕ) (k v : ℕ) → HasRank (sort_by leb xs) k v → HasRank xs k v
HasRank-sort_by xs k v h = record {
  from_below = omega (arith, h.from_below, count-sort_by (at_most v) xs);
  from_above = omega (arith, h.from_above, count-sort_by (at_least v) xs, length-sort_by leb xs);
}

-- Half the sum of the two middle values, which are one value in a list of odd length, is the median
-- of a list that is not empty.
pub median_timestamp-middle :
    (first_seen : List ℕ)
    → 1 ≤ length first_seen
    → (low : ℕ) × (high : ℕ) × (median_timestamp first_seen ≡ ok ((low + high) / 2))
      × HasRank first_seen ((length first_seen - 1) / 2) low
      × HasRank first_seen (length first_seen / 2) high
unfolding median_timestamp
median_timestamp-middle first_seen h =
    let sorted = sort_by leb first_seen in
    let len = length sorted in
    let size : len ≡ length first_seen = length-sort_by leb first_seen in
    let order = sort_by-Ascends first_seen in
    let some_one : (len == 0) ≡ false = ground (arith, size) in
    let (b, eb, rb) = slot-HasRank sorted (len / 2) order (omega (arith, size)) in
    let high : HasRank first_seen (length first_seen / 2) b =
      subst (λ n. HasRank first_seen (n / 2) b) size (HasRank-sort_by first_seen (len / 2) b rb) in
    elim (Bool-cases (len % 2 == 1)) [
      | inl odd ↦
          let one : (len % 2) ≡ 1 = (==_iff _ _).0 odd in
          let same : len / 2 ≡ (length first_seen - 1) / 2 = omega (arith, size, one) in
          (
            b,
            b,
            rw (some_one, odd, eb) (ap ok (omega arith)),
            subst (λ n. HasRank first_seen n b) same (HasRank-sort_by first_seen (len / 2) b rb),
            high,
          )
      | inr even ↦
          let zero_left : (len % 2) ≡ 0 = ground (arith, even) in
          let (a, ea, ra) = slot-HasRank sorted (len / 2 - 1) order (omega (arith, size)) in
          let same : len / 2 - 1 ≡ (length first_seen - 1) / 2 = omega (arith, size, zero_left) in
          (
            a,
            b,
            rw (some_one, even, ea, eb) refl,
            subst (λ n. HasRank first_seen n a) same
                (HasRank-sort_by first_seen (len / 2 - 1) a ra),
            high,
          )
    ]
