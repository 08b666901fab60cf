-- ===== src/Recovery/Walk.antt =====
-- src/deepx_sdk/_async_recovery.py: the loop over batches of block numbers in _scan_best_chain and
-- _scan_finalized_chain. The visits of a batch run concurrently, as asyncio.gather runs them: a visit
-- has three parts, each of which runs without interruption once a reply has arrived, and the parts
-- of different visits follow each other in the order in which the replies arrive, which is open.
-- All visits of a batch run to their end, also when one raises; their results are read in the order
-- of the numbers.
use deepx_python_sdk.Prelude.{
  ℕ, zero, suc, ◌+◌, ◌-◌, String, Option, some, List, [], ◌∷◌, Outcome, returned, raised, ltb, ◌==◌,
  if◌then◌else◌,
}
use deepx_python_sdk.Recovery.{Visit}

-- the last number that was read, with its hash
abbrev pub Last : Type 0
Last = Option (ℕ × String)

-- how a walk ends: at its end, or at the first number whose visit raised
pub data End : Type 0 where
  complete : End
  stopped : ℕ → String → End

abbrev pub min : ℕ → ℕ → ℕ
min a b = if ltb b a then b else a

-- how far the visit of a number has come: what it waits for, or how it ended
pub data Task (M : Type 0) : Type 0 where
  unasked : Task M
  asked : String → Task M
  fetched : String → M → Task M
  ended : Outcome String String → Task M

-- the loop over the results of a batch
unfoldable pub read_results : List (ℕ × Outcome String String) → Last → End × Last
read_results [] last = (complete, last)
read_results ((number, returned hash) ∷ rest) last = read_results rest (some (number, hash))
read_results ((number, raised cause) ∷ rest) last = (stopped number cause, last)

-- what follows a batch
unfoldable pub go_on : {S : Type 0} → (Last → S → End × Last × S) → End × Last → S → End × Last × S
go_on more (complete, last) s = more last s
go_on more (stopped number cause, last) s = (stopped number cause, last, s)

module _ {S M : Type 0} (visit : Visit S M) where
  abbrev pub after_ask : Outcome String String → Task M
  after_ask (returned hash) = asked hash
  after_ask (raised e) = ended (raised e)

  abbrev pub after_fetch : String → Outcome String M → Task M
  after_fetch hash (returned m) = fetched hash m
  after_fetch hash (raised e) = ended (raised e)

  -- the part of a visit that runs when the reply it waits for arrives
  unfoldable pub advance : ℕ → Task M → S → Task M × S
  advance number unasked s = let (o, t) = visit.ask number s in (after_ask o, t)
  advance number (asked hash) s = let (o, t) = visit.fetch hash s in (after_fetch hash o, t)
  advance number (fetched hash m) s = let (o, t) = visit.settle hash m s in (ended o, t)
  advance number (ended o) s = (ended o, s)

  -- the coroutines of a batch of `count` numbers from `number`
  unfoldable pub start_tasks : ℕ → ℕ → List (ℕ × Task M)
  start_tasks zero number = []
  start_tasks (suc count) number = (number, unasked) ∷ start_tasks count (number + 1)

  -- the reply that the visit of a number waits for arrives
  unfoldable pub arrive : ℕ → List (ℕ × Task M) → S → List (ℕ × Task M) × S
  unfolding advance
  arrive picked [] s = ([], s)
  arrive picked ((number, task) ∷ rest) s =
      let (later, u) = arrive picked rest s in
      let (next, t) = advance number task s in
      if number == picked then ((number, next) ∷ rest, t) else ((number, task) ∷ later, u)

  -- the replies arrive in an order
  unfoldable pub arrive_all : List ℕ → List (ℕ × Task M) → S → List (ℕ × Task M) × S
  unfolding arrive
  arrive_all [] tasks s = (tasks, s)
  arrive_all (picked ∷ order) tasks s =
      let (next, t) = arrive picked tasks s in arrive_all order next t

  -- the rest of a visit
  unfoldable pub finish_fetched : String → Outcome String M × S → Outcome String String × S
  finish_fetched hash (returned m, t) = visit.settle hash m t
  finish_fetched hash (raised e, t) = (raised e, t)

  unfoldable pub finish_asked : Outcome String String × S → Outcome String String × S
  unfolding finish_fetched
  finish_asked (returned hash, t) = finish_fetched hash (visit.fetch hash t)
  finish_asked (raised e, t) = (raised e, t)

  unfoldable pub finish : ℕ → Task M → S → Outcome String String × S
  unfolding finish_asked finish_fetched
  finish number unasked s = finish_asked (visit.ask number s)
  finish number (asked hash) s = finish_fetched hash (visit.fetch hash s)
  finish number (fetched hash m) s = visit.settle hash m s
  finish number (ended o) s = (o, s)

  -- what the visits of a batch ended with; those that are still open end one after another
  unfoldable pub collect : List (ℕ × Task M) → S → List (ℕ × Outcome String String) × S
  unfolding finish
  collect [] s = ([], s)
  collect ((number, task) ∷ rest) s =
      let (o, t) = finish number task s in let (os, u) = collect rest t in ((number, o) ∷ os, u)

  -- gather over `count` numbers from `number`, to which the replies arrive in an order
  unfoldable pub visit_batch : List ℕ → ℕ → ℕ → S → List (ℕ × Outcome String String) × S
  unfolding start_tasks arrive_all collect
  visit_batch order count number s =
      let (tasks, t) = arrive_all order (start_tasks count number) s in collect tasks t

  -- for batch_start in range(start, end + 1, concurrency), with rounds to spare; `orders` has the
  -- order in which the replies of a batch arrive, by its first number
  unfoldable pub walk :
      (ℕ → List ℕ) → (rounds concurrency start stop : ℕ) → Last → S → End × Last × S
  unfolding visit_batch read_results go_on
  walk orders zero concurrency start stop last s = (complete, last, s)
  walk orders (suc rounds) concurrency start stop last s =
      if ltb stop start
      then (complete, last, s)
      else (let (os, t) = visit_batch (orders start) (min (stop + 1 - start) concurrency) start s in
          go_on (walk orders rounds concurrency (start + concurrency) stop) (read_results os last)
            t)
