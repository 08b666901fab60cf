-- ===== src/Recovery/Coverage.antt =====
-- src/deepx_sdk/_async_recovery.py: which block numbers a walk has read when it ends.
use deepx_python_sdk.Prelude.{
  ℕ, zero, suc, ◌+◌, ◌-◌, ◌<◌, ◌≡◌, refl, ◌∙◌, String, none, some, List, returned, raised, ltb,
  arith, if_both,
}
use deepx_python_sdk.Recovery.{Visit}
use deepx_python_sdk.Recovery.Walk.{
  Last, End, complete, stopped, min, ended, visit_batch, go_on, walk,
}
use deepx_python_sdk.Recovery.Batches.{Steps, here, Steps-trans, Course, batch-Closed}

-- the number up to which everything was read, before which it was `previous`
abbrev pub position : ℕ → Last → ℕ
position previous none = previous
position previous (some (number, hash)) = number

module _ {S M : Type 0} (visit : Visit S M) where
  -- Between two states the visit of each of `n` numbers from `start` on ran and returned the hash of
  -- its block; `last` is the last of them with its hash, or what was the last before if there are
  -- none.
  abbrev pub Reads : ℕ → ℕ → Last → S → Last → S → Type 0
  Reads zero start before s last u = before ≡ last
  Reads (suc n) start before s last u =
      (hash : String) × Course visit start s (ended (returned hash)) u
      × Reads n (start + 1) (some (start, hash)) s last u

  -- what was read of `n` numbers: all of them, or those before the number whose visit raised
  abbrev pub Covers : ℕ → ℕ → Last → S → End × Last × S → Type 0
  Covers n start before s (complete, last, u) = Reads n start before s last u
  Covers n start before s (stopped number cause, last, u) =
      (m : ℕ) × (m < n)
      × (number ≡ start + m)
      × Reads m start before s last u
      × Course visit number s (ended (raised cause)) u

  -- and by parts of visits only
  abbrev pub Walked : ℕ → ℕ → Last → S → End × Last × S → Type 0
  Walked n start before s w = Covers n start before s w × Steps visit s w.2

  go_on-Steps :
      (more : Last → S → End × Last × S) (r : End × Last) (s t : S)
      → Steps visit s t
      → ((last : Last) → Steps visit t (more last t).2)
      → Steps visit s (go_on more r t).2
  unfolding go_on
  go_on-Steps more (complete, last) s t h f = Steps-trans visit h (f last)
  go_on-Steps more (stopped number cause, last) s t h f = h

  -- a walk of any number of rounds consists of parts of visits
  pub walk-Steps :
      (orders : ℕ → List ℕ) (rounds c start stop : ℕ) (before : Last) (s : S)
      → Steps visit s (walk visit orders rounds c start stop before s).2
  unfolding walk
  walk-Steps orders zero c start stop before s = here
  walk-Steps orders (suc rounds) c start stop before s =
      let n = min (stop + 1 - start) c in
      let t = (visit_batch visit (orders start) n start s).1 in
      if_both {A = End × Last × S} (λ w. Steps visit s w.2) (ltb stop start) _ _ here
        (go_on-Steps (walk visit orders rounds c (start + c) stop) _ s t
          (batch-Closed visit (orders start) n start s).1
          (λ last. walk-Steps orders rounds c (start + c) stop last t))

  -- The position moves by the count of numbers read.
  pub Reads-position :
      (n start previous : ℕ) (before last : Last) (s u : S)
      → position previous before + 1 ≡ start
      → Reads n start before s last u
      → position previous last ≡ position previous before + n
  Reads-position zero start previous before last s u e r = rw (← r) (omega arith)
  Reads-position (suc n) start previous before last s u e (hash, c, r) =
      Reads-position n (start + 1) previous (some (start, hash)) last s u refl r ∙ omega (arith, e)
