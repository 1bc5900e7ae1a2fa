-- ===== src/Hashgraph/Monad.antt =====
-- consensus-node/protocol/consensus/src/error.rs, and the shape of the crate's methods: a query
-- returns a result, and a method on `&mut self` also the state, which keeps what was written before
-- an error. A fault is a panic, or the end of the fuel of a loop.
use jx.Base.{ℕ, ◌≡◌, refl, Option, none, some}
use jx.Roster.{Bytes}

pub data ConsensusError : Type 0 where
  already_present missing_parent unknown_event : ℕ → ConsensusError
  unknown_creator invalid_self_parent : ConsensusError
  invalid_retained_ancestors invalid_retained_order : ConsensusError
  ancestor_seqs_mismatch invalid_retained_seq : ℕ → ℕ → ConsensusError
  invalid_retained_round decided_round_beyond_retained : ℕ → ℕ → ConsensusError
  encoding_failed : Bytes → ConsensusError

pub data Fault : Type 0 where
  panic out_of_fuel : Fault

pub data Result {ℓ} (A : Type ℓ) : Type ℓ where
  ok : A → Result A
  err : ConsensusError → Result A
  fault : Fault → Result A

infixl 5 ◌>>=◌
abbrev pub ◌>>=◌ {ℓ κ} : {A : Type ℓ} {B : Type κ} → Result A → (A → Result B) → Result B
ok a >>= f = f a
err e >>= f = err e
fault z >>= f = fault z

abbrev pub ok_or {ℓ} : {A : Type ℓ} → Option A → ConsensusError → Result A
ok_or none e = err e
ok_or (some a) e = ok a

-- `.unwrap_or(a)` on a `Result`; a panic stays one
abbrev pub unwrap_or {ℓ} : {A : Type ℓ} → Result A → A → Result A
unwrap_or (ok a) d = ok a
unwrap_or (err e) d = ok d
unwrap_or (fault z) d = fault z

-- A method on `&mut self`, over the state `S`.
abbrev pub Exec {ℓ} : Type ℓ → Type ℓ → Type ℓ
Exec S A = S → Result A × S

abbrev pub continue {ℓ} : {S A B : Type ℓ} → Result A → (A → Exec S B) → Exec S B
continue (ok a) f s = f a s
continue (err e) f s = (err e, s)
continue (fault z) f s = (fault z, s)

unfoldable pub bind {ℓ} : {S A B : Type ℓ} → Exec S A → (A → Exec S B) → Exec S B
bind m f s = let (r, s') = m s in continue r f s'

unfoldable pub pure {ℓ} : {S A : Type ℓ} → A → Exec S A
pure a s = (ok a, s)

-- a query on `&self` inside a method
unfoldable pub ask {ℓ} : {S A : Type ℓ} → (S → Result A) → Exec S A
ask q s = (q s, s)

-- a plain update
unfoldable pub update {ℓ} : {S : Type ℓ} → (S → S) → Exec S (Unit {ℓ})
update f s = (ok tt, f s)

-- What holds of the state before a query, and after what follows it, holds after both.
pub after_ask {κ} :
    {S A B : Type 0} (P : S → Type κ) (q : S → Result A) (f : A → Exec S B) (s : S)
    → P s
    → ((a : A) → q s ≡ ok a → P (f a s).1)
    → P (bind (ask q) f s).1
unfolding bind ask
after_ask P q f s p h = go (q s) h
  where
    go : (z : Result _) → ((a : _) → z ≡ ok a → P (f a s).1) → P (continue z f s).1
    go (ok a) k = k a refl
    go (err e) k = p
    go (fault z) k = p
