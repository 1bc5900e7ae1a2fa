-- ===== src/State/Sheet.antt =====
-- A keyspace in memory that takes every write, and that gives its entries while they stand in the
-- order of their keys.
use jx.Base.{
  ◌≡◌, ◌&&◌, sym, ◌∙◌, ap, Bool, true, none, some, List, [], ◌∷◌, list_eq, nat_eq, if◌then◌else◌,
  arith, Bool-cases, inl, inr, subst,
}
use jx.Base.Map.{get, put, remove, get-put, get-remove}
use jx.Roster.{Bytes}
use jx.State.{Keyspace, KeyspaceLaws, bytes_ltb, Ascending, Sorted}

abbrev pub Pairs : Type 0
Pairs = List (Bytes × Bytes)

abbrev is_ascending : Bytes → Pairs → Bool
is_ascending k [] = true
is_ascending k ((j, v) ∷ es) = bytes_ltb k j && is_ascending j es

abbrev is_sorted : Pairs → Bool
is_sorted [] = true
is_sorted ((k, v) ∷ es) = is_ascending k es

is_ascending-Ascending : (k : Bytes) (es : Pairs) → is_ascending k es ≡ true → Ascending k es
is_ascending-Ascending k [] h = tt
is_ascending-Ascending k ((j, v) ∷ es) h =
    (ground arith, is_ascending-Ascending j es (ground arith))

is_sorted-Sorted : (es : Pairs) → is_sorted es ≡ true → Sorted es
is_sorted-Sorted [] h = tt
is_sorted-Sorted ((k, v) ∷ es) h = is_ascending-Ascending k es h

unfoldable pub sheet : Keyspace Pairs
sheet = record {
  read = λ key kv. get key kv;
  write = λ key value kv. (put key value kv, true);
  erase = λ key kv. (remove key kv, true);
  entries = λ kv. if is_sorted kv then some kv else none;
}

given : (kv es : Pairs) → sheet.entries kv ≡ some es → (Sorted kv) × (kv ≡ es)
unfolding sheet
given kv es e = elim (Bool-cases (is_sorted kv)) [
  | inl t ↦ (is_sorted-Sorted kv t, ground (arith, t))
  | inr n ↦ ground (arith, n)
]

pub sheet-KeyspaceLaws : KeyspaceLaws sheet
unfolding sheet
sheet-KeyspaceLaws = record {
  read-write = λ key value kv after e k. ap (λ p. get k p.0) (sym e) ∙ get-put key k value kv;
  read-erase = λ key kv after e k. ap (λ p. get k p.0) (sym e) ∙ get-remove key k kv;
  entries-Sorted = λ kv es e. subst Sorted (given kv es e).1 (given kv es e).0;
  get-entries = λ kv es e k. ap (get k) (sym (given kv es e).1);
}
