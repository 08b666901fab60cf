-- ===== src/Recovery/Batches.antt =====
-- src/deepx_sdk/_async_recovery.py: what runs in a batch of concurrent visits, and that each visit
-- of it ends.
use deepx_python_sdk.Prelude.{
  ℕ, zero, suc, ◌+◌, ◌≡◌, refl, String, List, [], ◌∷◌, Outcome, returned, raised, if_both, ◌==◌,
}
use deepx_python_sdk.Recovery.{Visit}
use deepx_python_sdk.Recovery.Walk.{
  Task, unasked, asked, fetched, ended, advance, after_ask, after_fetch, start_tasks, arrive,
  arrive_all, finish_fetched, finish_asked, finish, collect, visit_batch,
}

-- a list for `n` numbers from one on, in their order, that has a property of each
abbrev pub Numbered : {A : Type 0} → (ℕ → A → Type 0) → ℕ → ℕ → List (ℕ × A) → Type 0
Numbered P zero from [] = Unit
Numbered P zero from (x ∷ rest) = ⊥
Numbered P (suc n) from [] = ⊥
Numbered P (suc n) from ((number, a) ∷ rest) =
    (number ≡ from) × P number a × Numbered P n (from + 1) rest

module _ {S M : Type 0} (visit : Visit S M) where
  -- parts of visits, of any numbers and in any order, lead from one state to another
  pub data Steps (s : S) : S → Type 0 where
    here : Steps s s
    then_part :
        {u : S} → Steps s u → (number : ℕ) (task : Task M) → Steps s (advance visit number task u).1

  -- Between two states the visit of a number, from its start on, has come to a task: its own parts
  -- ran in their order, each after the one before, with parts of other visits in between.
  pub data Course (number : ℕ) (s : S) : Task M → S → Type 0 where
    begins : {t : S} → Steps s t → Course number s unasked t
    goes_on :
        {task : Task M} {u t : S}
        → Course number s task u
        → Steps (advance visit number task u).1 t
        → Course number s (advance visit number task u).0 t

  pub Steps-trans : {s t u : S} → Steps s t → Steps t u → Steps s u
  Steps-trans h here = h
  Steps-trans h (then_part k number task) = then_part (Steps-trans h k) number task

  pub Course-later :
      {number : ℕ} {s t u : S} {task : Task M}
      → Course number s task t
      → Steps t u
      → Course number s task u
  Course-later (begins h) k = begins (Steps-trans h k)
  Course-later (goes_on c h) k = goes_on c (Steps-trans h k)

  pub Course-earlier :
      {number : ℕ} {r s t : S} {task : Task M}
      → Steps r s
      → Course number s task t
      → Course number r task t
  Course-earlier k (begins h) = begins (Steps-trans k h)
  Course-earlier k (goes_on c h) = goes_on (Course-earlier k c) h

  -- what a call from a state comes to, with the steps that lead there
  abbrev Runs : {A : Type 0} → (A → S → Type 0) → S → A × S → Type 0
  Runs P s (a, t) = P a t × Steps s t

  settled :
      (number : ℕ) (hash : String) (m : M) (s t : S)
      → Course number s (fetched hash m) t
      → Runs (λ o u. Course number s (ended o) u) t (visit.settle hash m t)
  settled number hash m s t c =
      unfold advance in (goes_on c here, then_part here number (fetched hash m))

  fetched_ends :
      (number : ℕ) (hash : String) (s : S) (r : Outcome String M × S)
      → Course number s (after_fetch visit hash r.0) r.1
      → Runs (λ o u. Course number s (ended o) u) r.1 (finish_fetched visit hash r)
  unfolding finish_fetched
  fetched_ends number hash s (returned m, t) c = settled number hash m s t c
  fetched_ends number hash s (raised e, t) c = (c, here)

  asked_ends :
      (number : ℕ) (hash : String) (s t : S)
      → Course number s (asked hash) t
      → Runs (λ o u. Course number s (ended o) u) t (finish_fetched visit hash (visit.fetch hash t))
  unfolding advance
  asked_ends number hash s t c =
      let (d, k) = fetched_ends number hash s (visit.fetch hash t) (goes_on c here) in
      (d, Steps-trans (then_part here number (asked hash)) k)

  hashed_ends :
      (number : ℕ) (s : S) (r : Outcome String String × S)
      → Course number s (after_ask visit r.0) r.1
      → Runs (λ o u. Course number s (ended o) u) r.1 (finish_asked visit r)
  unfolding finish_asked
  hashed_ends number s (returned hash, t) c = asked_ends number hash s t c
  hashed_ends number s (raised e, t) c = (c, here)

  finish_ends :
      (number : ℕ) (task : Task M) (s t : S)
      → Course number s task t
      → Runs (λ o u. Course number s (ended o) u) t (finish visit number task t)
  unfolding finish advance
  finish_ends number unasked s t c =
      let (d, k) = hashed_ends number s (visit.ask number t) (goes_on c here) in
      (d, Steps-trans (then_part here number unasked) k)
  finish_ends number (asked hash) s t c = asked_ends number hash s t c
  finish_ends number (fetched hash m) s t c = settled number hash m s t c
  finish_ends number (ended o) s t c = (c, here)

  Courses-later :
      (n from : ℕ) (s t u : S) (tasks : List (ℕ × Task M))
      → Numbered (λ number task. Course number s task t) n from tasks
      → Steps t u
      → Numbered (λ number task. Course number s task u) n from tasks
  Courses-later zero from s t u [] h k = tt
  Courses-later (suc n) from s t u ((number, task) ∷ rest) (e, c, h) k =
      (e, Course-later c k, Courses-later n (from + 1) s t u rest h k)
  Courses-later zero from s t u (x ∷ rest) h k = absurd h
  Courses-later (suc n) from s t u [] h k = absurd h

  start-Courses :
      (n from : ℕ) (s : S)
      → Numbered (λ number task. Course number s task s) n from (start_tasks visit n from)
  unfolding start_tasks
  start-Courses zero from s = tt
  start-Courses (suc n) from s = (refl, begins here, start-Courses n (from + 1) s)

  -- the tasks of a batch that began in a state, with the steps from a later one
  abbrev Open : ℕ → ℕ → S → S → List (ℕ × Task M) × S → Type 0
  Open n from s t (tasks, u) =
      Numbered (λ number task. Course number s task u) n from tasks × Steps t u

  arrive-Open :
      (picked n from : ℕ) (s t : S) (tasks : List (ℕ × Task M))
      → Numbered (λ number task. Course number s task t) n from tasks
      → Open n from s t (arrive visit picked tasks t)
  unfolding arrive
  arrive-Open picked zero from s t [] h = (tt, here)
  arrive-Open picked (suc n) from s t ((number, task) ∷ rest) (e, c, h) =
      let (later, k) = arrive-Open picked n (from + 1) s t rest h in
      let part = then_part here number task in
      if_both {A = List (ℕ × Task M) × S} (Open (suc n) from s t) (number == picked) _ _
        ((e, goes_on c here, Courses-later n (from + 1) s t _ rest h part), part)
        ((e, Course-later c k, later), k)
  arrive-Open picked zero from s t (x ∷ rest) h = absurd h
  arrive-Open picked (suc n) from s t [] h = absurd h

  arrive_all-Open :
      (order : List ℕ) (n from : ℕ) (s t : S) (tasks : List (ℕ × Task M))
      → Numbered (λ number task. Course number s task t) n from tasks
      → Open n from s t (arrive_all visit order tasks t)
  unfolding arrive_all
  arrive_all-Open [] n from s t tasks h = (h, here)
  arrive_all-Open (picked ∷ order) n from s t tasks h =
      let (next, k) = arrive-Open picked n from s t tasks h in
      let (all, l) = arrive_all-Open order n from s _ _ next in (all, Steps-trans k l)

  -- the results of a batch that began in a state, with the steps from a later one
  abbrev pub Closed : ℕ → ℕ → S → S → List (ℕ × Outcome String String) × S → Type 0
  Closed n from s t (results, u) =
      Numbered (λ number o. Course number s (ended o) u) n from results × Steps t u

  collect-Closed :
      (n from : ℕ) (s t : S) (tasks : List (ℕ × Task M))
      → Numbered (λ number task. Course number s task t) n from tasks
      → Closed n from s t (collect visit tasks t)
  unfolding collect
  collect-Closed zero from s t [] h = (tt, here)
  collect-Closed (suc n) from s t ((number, task) ∷ rest) (e, c, h) =
      let (d, k) = finish_ends number task s t c in
      let (all, l) =
        collect-Closed n (from + 1) s _ rest (Courses-later n (from + 1) s t _ rest h k) in
      ((e, Course-later d l, all), Steps-trans k l)
  collect-Closed zero from s t (x ∷ rest) h = absurd h
  collect-Closed (suc n) from s t [] h = absurd h

  -- A batch has the result of every number, in the order of the numbers, and each is what the visit
  -- of that number ended with between the start and the end of the batch.
  pub batch-Closed :
      (order : List ℕ) (n from : ℕ) (s : S) → Closed n from s s (visit_batch visit order n from s)
  unfolding visit_batch
  batch-Closed order n from s =
      let (all, k) = arrive_all-Open order n from s s _ (start-Courses n from s) in
      let (results, l) = collect-Closed n from s _ _ all in (results, Steps-trans k l)
