-- ===== src/Executor/Once.antt =====
-- `bucket_finalized` of consensus-node/executor/state/src/executor.rs: which events it executes, and
-- its watermark.
use jx.Base.{
  ℕ, ◌≤◌, ◌≡◌, inl, inr, refl, sym, ◌∙◌, ap, Bool, true, false, List, [], ◌∷◌, Bool-cases,
  Option-cases, Option, none, some, All, subst, arith,
}
use jx.Hashgraph
use jx.Hashgraph.{set_contains, set_insert}
use jx.State.{State}
use jx.Executor.{Externals, Ran, panicked, storage_error, done, and_run}
use jx.Executor.Event.{
  Bucket, hashed, new_max, execute_event, in_bucket, note_executed, bucket_loop, raise_watermark,
  bucket_finalized,
}

set_insert_self : (h : ℕ) (m : List ℕ) → set_contains h (set_insert h m) ≡ true
unfolding set_contains set_insert
set_insert_self h [] = ground arith
set_insert_self h (k ∷ m) = ground (arith, set_insert_self h m)

set_insert_keeps :
    (h g : ℕ) (m : List ℕ) → set_contains g m ≡ true → set_contains g (set_insert h m) ≡ true
unfolding set_contains set_insert
set_insert_keeps h g [] e = ground arith
set_insert_keeps h g (k ∷ m) e = ground (arith, set_insert_keeps h g m)

-- the value that a run ends with
abbrev pub Ends : {S X : Type 0} → Ran S X → S → X → Type 0
Ends run st y = run ≡ done st y

-- the state at the end of a run, and its value
abbrev pub end_of : {S X : Type 0} → Ran S X → S → S
end_of (done st y) d = st
end_of _ d = d

abbrev pub value_of : {S X : Type 0} → Ran S X → X → X
value_of (done st y) d = y
value_of _ d = d

-- a run in two parts that ends has a first part that ends
pub and_run-done :
    {S X Y : Type 0} (run : Ran S X) (f : S → X → Ran S Y) (st : S) (y : Y)
    → Ends (and_run run f) st y
    → (mid : S) × (a : X) × (run ≡ done mid a) × Ends (f mid a) st y
and_run-done panicked f st y e = ground arith
and_run-done (storage_error s) f st y e = ground arith
and_run-done (done mid a) f st y e = (mid, a, refl, e)

module _ {M K : Type 0} (x : Externals M K) where
  abbrev pub Executed : Bucket M K → Hashgraph.Event × ℕ → Type 0
  Executed b e = (h : ℕ) × (x.hash e.0 ≡ some h) × (set_contains h b.executed ≡ true)

  -- running the state inside the bucket keeps the rest of it
  in_bucket-Executed :
      {X : Type 0} (b after : Bucket M K) (run : Ran (State K) X) (r : X)
      → in_bucket x b run ≡ done after r
      → (after.executed ≡ b.executed) × (after.processed_through_round ≡ b.processed_through_round)
  in_bucket-Executed b after panicked r e = ground arith
  in_bucket-Executed b after (storage_error s) r e = ground arith
  in_bucket-Executed b after (done s y) r e = (
    ap (λ run. (end_of run b).executed) (sym e),
    ap (λ run. (end_of run b).processed_through_round) (sym e),
  )

  pub hashed-some :
      {S X : Type 0} (o : Option ℕ) (h : ℕ) (f : ℕ → Ran S X) → o ≡ some h → hashed x o f ≡ f h
  hashed-some o h f e = ap (λ z. hashed x z f) e

  loop_skips :
      (event : Hashgraph.Event) (round : ℕ) (finalized : List (Hashgraph.Event × ℕ))
      (any_new : Bool) (b : Bucket M K) (h : ℕ)
      → x.hash event ≡ some h
      → set_contains h b.executed ≡ true
      → bucket_loop x ((event, round) ∷ finalized) any_new b ≡ bucket_loop x finalized any_new b
  unfolding bucket_loop
  loop_skips event round finalized any_new b h g t = hashed-some (x.hash event) h _ g ∙ rw t refl

  loop_runs :
      (event : Hashgraph.Event) (round : ℕ) (finalized : List (Hashgraph.Event × ℕ))
      (any_new : Bool) (b : Bucket M K) (h : ℕ)
      → x.hash event ≡ some h
      → set_contains h b.executed ≡ false
      → bucket_loop x ((event, round) ∷ finalized) any_new b
        ≡ and_run
            (in_bucket x b (execute_event x event b.state))
            λ after r. bucket_loop x finalized true (note_executed x round h r after)
  unfolding bucket_loop
  loop_runs event round finalized any_new b h g n = hashed-some (x.hash event) h _ g ∙ rw n refl

  loop_panics :
      (event : Hashgraph.Event) (round : ℕ) (finalized : List (Hashgraph.Event × ℕ))
      (any_new : Bool) (b : Bucket M K)
      → x.hash event ≡ none
      → bucket_loop x ((event, round) ∷ finalized) any_new b ≡ panicked
  unfolding bucket_loop
  loop_panics event round finalized any_new b g = rw (bucket_loop, g) refl

  -- what a loop over a batch leaves
  record LoopEnd (finalized : List (Hashgraph.Event × ℕ)) (b after : Bucket M K) : Type 0 where
    executed : All (Executed after) finalized
    kept : (g : ℕ) → set_contains g b.executed ≡ true → set_contains g after.executed ≡ true
    same_watermark : after.processed_through_round ≡ b.processed_through_round

  bucket_loop-LoopEnd :
      (finalized : List (Hashgraph.Event × ℕ)) (any_new out : Bool) (b after : Bucket M K)
      → bucket_loop x finalized any_new b ≡ done after out
      → LoopEnd finalized b after
  unfolding bucket_loop
  bucket_loop-LoopEnd [] any_new out b after e =
      let same : b ≡ after = ap (λ run. end_of run b) e in
      record {
        executed = tt;
        kept = λ g h. ap (λ z. set_contains g z.executed) (sym same) ∙ h;
        same_watermark = ap (λ z. z.processed_through_round) (sym same);
      }
  bucket_loop-LoopEnd ((event, round) ∷ finalized) any_new out b after e =
      elim (Option-cases (x.hash event)) [
        | inl none_given ↦ ground (arith, e, loop_panics event round finalized any_new b none_given)
        | inr (h, g) ↦ elim (Bool-cases (set_contains h b.executed)) [
          | inl t ↦
              let rest =
                bucket_loop-LoopEnd finalized any_new out b after
                  (sym (loop_skips event round finalized any_new b h g t) ∙ e) in
              record {
                executed = ((h, g, rest.kept h t), rest.executed);
                kept = rest.kept;
                same_watermark = rest.same_watermark;
              }
          | inr n ↦
              let (mid, r, first, second) =
                and_run-done (in_bucket x b (execute_event x event b.state)) _ after out
                  (sym (loop_runs event round finalized any_new b h g n) ∙ e) in
              let same = in_bucket-Executed b mid (execute_event x event b.state) r first in
              let noted = note_executed x round h r mid in
              let rest = bucket_loop-LoopEnd finalized true out noted after second in
              record {
                executed = ((h, g, rest.kept h (set_insert_self h mid.executed)), rest.executed);
                kept = λ i k.
                    rest.kept i
                      (set_insert_keeps h i mid.executed (ap (set_contains i) same.0 ∙ k));
                same_watermark = rest.same_watermark ∙ same.1;
              }
        ]
      ]

  -- A batch of executed events changes nothing.
  bucket_loop-Executed :
      (finalized : List (Hashgraph.Event × ℕ)) (any_new : Bool) (b : Bucket M K)
      → All (Executed b) finalized
      → bucket_loop x finalized any_new b ≡ done b any_new
  unfolding bucket_loop
  bucket_loop-Executed [] any_new b h = refl
  bucket_loop-Executed ((event, round) ∷ finalized) any_new b h =
      loop_skips event round finalized any_new b h.0.0 h.0.1 h.0.2
      ∙ bucket_loop-Executed finalized any_new b h.1

  raise_watermark-Executed :
      (round : ℕ) (any_new : Bool) (b : Bucket M K)
      → ((raise_watermark x round any_new b).executed ≡ b.executed)
        × (b.processed_through_round ≤ (raise_watermark x round any_new b).processed_through_round)
  unfolding raise_watermark
  raise_watermark-Executed round any_new b = ground arith

  -- A batch ends as its loop does, with the watermark raised.
  bucket_finalized-LoopEnd :
      (finalized : List (Hashgraph.Event × ℕ)) (b after : Bucket M K)
      → bucket_finalized x finalized b ≡ done after tt
      → LoopEnd finalized b (record after { processed_through_round = b.processed_through_round })
        × (b.processed_through_round ≤ after.processed_through_round)
  unfolding bucket_finalized
  bucket_finalized-LoopEnd [] b after e =
      let same : b ≡ after = ap (λ run. end_of run b) e in
      (
        record {
          executed = tt;
          kept = λ g h. ap (λ z. set_contains g z.executed) (sym same) ∙ h;
          same_watermark = refl;
        },
        omega (arith, ap (λ z. z.processed_through_round) same),
      )
  bucket_finalized-LoopEnd (f ∷ finalized) b after e =
      let (mid, any_new, first, second) =
        and_run-done (bucket_loop x (f ∷ finalized) false b) _ after tt e in
      let loop = bucket_loop-LoopEnd (f ∷ finalized) false any_new b mid first in
      let raised : raise_watermark x (new_max (f ∷ finalized)) any_new mid ≡ after =
        ap (λ run. end_of run b) second in
      let raise = raise_watermark-Executed (new_max (f ∷ finalized)) any_new mid in
      let same : mid.executed ≡ after.executed = sym raise.0 ∙ ap (λ z. z.executed) raised in
      (
        record {
          executed =
              subst
                (λ ex.
                  All
                    (λ (e : Hashgraph.Event × ℕ).
                      (h : ℕ) × (x.hash e.0 ≡ some h) × (set_contains h ex ≡ true))
                    (f ∷ finalized))
                same loop.executed;
          kept = λ g h. ap (set_contains g) (sym same) ∙ loop.kept g h;
          same_watermark = refl;
        },
        omega (arith, raise.1, loop.same_watermark, ap (λ z. z.processed_through_round) raised),
      )

  raise_nothing : (round : ℕ) (b : Bucket M K) → raise_watermark x round false b ≡ b
  unfolding raise_watermark
  raise_nothing round b = refl

  -- After a batch has gone through, every event of it counts as executed, and a batch made of
  -- executed events, as the same one again is, leaves the state, the pending operations and the
  -- watermark as they are.
  pub bucket_finalized-again :
      (finalized again : List (Hashgraph.Event × ℕ)) (b after : Bucket M K)
      → bucket_finalized x finalized b ≡ done after tt
      → All (Executed after) again
      → All (Executed after) finalized × (bucket_finalized x again after ≡ done after tt)
  unfolding bucket_finalized
  bucket_finalized-again finalized [] b after e h =
      ((bucket_finalized-LoopEnd finalized b after e).0.executed, refl)
  bucket_finalized-again finalized (f ∷ again) b after e h = (
    (bucket_finalized-LoopEnd finalized b after e).0.executed,
    ap (λ run. and_run run λ z any_new. done (raise_watermark x (new_max (f ∷ again)) any_new z) tt)
          (bucket_loop-Executed (f ∷ again) false after h)
        ∙ ap (λ z. done z tt) (raise_nothing (new_max (f ∷ again)) after),
  )

  -- A batch that goes through never lowers the watermark, and forgets no executed event.
  pub bucket_finalized-watermark :
      (finalized : List (Hashgraph.Event × ℕ)) (b after : Bucket M K) (g : ℕ)
      → bucket_finalized x finalized b ≡ done after tt
      → set_contains g b.executed ≡ true
      → (b.processed_through_round ≤ after.processed_through_round)
        × (set_contains g after.executed ≡ true)
  bucket_finalized-watermark finalized b after g e h =
      let end_ = bucket_finalized-LoopEnd finalized b after e in (end_.1, end_.0.kept g h)
