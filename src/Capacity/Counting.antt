-- ===== src/Capacity/Counting.antt =====
-- Counting the entries of a dict that have a flag, and how updates change the count.
use deepx_python_sdk.Prelude.{
  ℕ, ◌+◌, ◌≤◌, ◌≡◌, refl, Bool, true, false, none, some, [], ◌∷◌, ==_iff, Dict, get, put, pop,
  nat_eq, get-put, get-pop, arith,
}

abbrev pub flag : Bool → ℕ
flag true = 1
flag false = 0

module _ {V : Type 0} where
  unfoldable pub count : (V → Bool) → Dict ℕ V → ℕ
  count f [] = 0
  count f ((k, v) ∷ d) = flag (f v) + count f d

  -- no key stands twice
  unfoldable pub IsUnique : Dict ℕ V → Type 0
  IsUnique [] = Unit
  IsUnique ((k, v) ∷ d) = (get k d ≡ none) × IsUnique d

  pub count-put :
      (f : V → Bool) (k : ℕ) (v w : V) (d : Dict ℕ V)
      → get k d ≡ some w
      → count f (put k v d) + flag (f w) ≡ count f d + flag (f v)
  unfolding count get put
  count-put f k v w [] h = cc
  count-put f k v w ((j, u) ∷ d) h = ground (arith, ==_iff j k, count-put f k v w d)

  pub count-put_new :
      (f : V → Bool) (k : ℕ) (v : V) (d : Dict ℕ V)
      → get k d ≡ none
      → count f (put k v d) ≡ count f d + flag (f v)
  unfolding count get put
  count-put_new f k v [] h = omega arith
  count-put_new f k v ((j, u) ∷ d) h = ground (arith, ==_iff j k, count-put_new f k v d)

  pub count-get :
      (f : V → Bool) (k : ℕ) (w : V) (d : Dict ℕ V) → get k d ≡ some w → flag (f w) ≤ count f d
  unfolding count get
  count-get f k w [] h = cc
  count-get f k w ((j, u) ∷ d) h = ground (arith, ==_iff j k, count-get f k w d)

  pub pop_missing : (k : ℕ) (d : Dict ℕ V) → get k d ≡ none → pop k d ≡ d
  unfolding get pop
  pop_missing k [] h = refl
  pop_missing k ((j, u) ∷ d) h = ground (arith, pop_missing k d)

  pub count-pop :
      (f : V → Bool) (k : ℕ) (w : V) (d : Dict ℕ V)
      → IsUnique d
      → get k d ≡ some w
      → count f (pop k d) + flag (f w) ≡ count f d
  unfolding count get pop IsUnique
  count-pop f k w [] u h = cc
  count-pop f k w ((j, v) ∷ d) u h = ground (arith, ==_iff j k, count-pop f k w d, pop_missing k d)

  pub IsUnique-put : (k : ℕ) (v : V) (d : Dict ℕ V) → IsUnique d → IsUnique (put k v d)
  unfolding IsUnique get put
  IsUnique-put k v [] u = (refl, tt)
  IsUnique-put k v ((j, w) ∷ d) u =
      ground (arith, ==_iff j k, ==_iff k j, get-put k j v d, IsUnique-put k v d u.1)

  pub IsUnique-pop : (k : ℕ) (d : Dict ℕ V) → IsUnique d → IsUnique (pop k d)
  unfolding IsUnique pop
  IsUnique-pop k [] u = tt
  IsUnique-pop k ((j, w) ∷ d) u = ground (arith, ==_iff j k, get-pop k j d, IsUnique-pop k d u.1)
