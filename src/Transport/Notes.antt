-- ===== src/Transport/Notes.antt =====
-- src/deepx_sdk/_async_transport.py: what the future of a request tells of the requests sent.
use deepx_python_sdk.Prelude.{
  ℕ, ◌≡◌, refl, Bool, true, false, ◌&&◌, Option, none, some, List, [], ◌∷◌, if◌then◌else◌, Dict,
  get, put, get-put, member, nat_eq, arith,
}
use mathlib.Core.Path.{subst}
use deepx_python_sdk.Transport.{RequestFuture, waiting, cancelled, result, refused, failed}
use deepx_python_sdk.Transport.Requests.{is_waiting, fail_futures}

module _ {V E : Type 0} where
  -- what a future says of the requests sent: one that failed as not sent was not given to the
  -- socket, one that waits and may be failed has its note, one that is not there was never sent
  abbrev pub Tells : (noted outgoing requested : Bool) → Option (RequestFuture V E) → Type 0
  Tells noted outgoing requested none = (outgoing ≡ false) × (noted ≡ false)
  Tells noted outgoing requested (some waiting) = requested ≡ true → outgoing ≡ true → noted ≡ true
  Tells noted outgoing requested (some (failed sent)) = sent ≡ false → outgoing ≡ false
  Tells noted outgoing requested (some _) = Unit

  -- _fail_requests fails exactly the futures that wait for an answer, each with its note
  pub get-fail_futures :
      (sent ids : List ℕ) (futures : Dict ℕ (RequestFuture V E)) (id : ℕ)
      → get id (fail_futures sent ids futures) ≡ (
          if member id ids && is_waiting (get id futures)
          then some (failed (member id sent))
          else get id futures)
  unfolding fail_futures member
  get-fail_futures sent [] futures id = refl
  get-fail_futures sent (i ∷ ids) futures id = ground (
    arith,
    get-fail_futures sent ids futures id,
    get-fail_futures sent ids (put i (failed (member i sent)) futures) id,
    get-put i id (failed (member i sent)) futures,
    nat_eq.beq_iff i id,
  )

  pub failed-Tells :
      (noted outgoing requested : Bool) (o : Option (RequestFuture V E))
      → Tells noted outgoing requested o
      → Tells false outgoing false (if requested && is_waiting o then some (failed noted) else o)
  failed-Tells noted outgoing true none (a, b) = (a, refl)
  failed-Tells noted outgoing false none (a, b) = (a, refl)
  failed-Tells true outgoing true (some waiting) h = λ e. absurd (cc e)
  failed-Tells false false true (some waiting) h = λ e. refl
  failed-Tells false true true (some waiting) h = absurd (cc (h refl refl))
  failed-Tells noted outgoing false (some waiting) h = λ e. absurd (cc e)
  failed-Tells noted outgoing true (some cancelled) h = tt
  failed-Tells noted outgoing false (some cancelled) h = tt
  failed-Tells noted outgoing true (some (result v)) h = tt
  failed-Tells noted outgoing false (some (result v)) h = tt
  failed-Tells noted outgoing true (some (refused e)) h = tt
  failed-Tells noted outgoing false (some (refused e)) h = tt
  failed-Tells noted outgoing true (some (failed b)) h = h
  failed-Tells noted outgoing false (some (failed b)) h = h

  dropped-Tells :
      (noted outgoing requested : Bool) (o : Option (RequestFuture V E))
      → Tells noted outgoing requested o
      → Tells false outgoing false o
  dropped-Tells noted outgoing requested none (a, b) = (a, refl)
  dropped-Tells noted outgoing requested (some waiting) h = λ e. absurd (cc e)
  dropped-Tells noted outgoing requested (some cancelled) h = tt
  dropped-Tells noted outgoing requested (some (result v)) h = tt
  dropped-Tells noted outgoing requested (some (refused e)) h = tt
  dropped-Tells noted outgoing requested (some (failed b)) h = h

  sent-Tells :
      (outgoing requested : Bool) (o : Option (RequestFuture V E))
      → is_waiting o ≡ true
      → Tells true outgoing requested o
  sent-Tells outgoing requested none h = absurd (cc h)
  sent-Tells outgoing requested (some waiting) h = λ a b. refl
  sent-Tells outgoing requested (some cancelled) h = tt
  sent-Tells outgoing requested (some (result v)) h = tt
  sent-Tells outgoing requested (some (refused e)) h = tt
  sent-Tells outgoing requested (some (failed b)) h = absurd (cc h)

  -- the changes at one request, `c` if it is the one that the call is about
  pub send-Tells :
      (c noted outgoing requested : Bool) (o : Option (RequestFuture V E))
      → (c ≡ true → is_waiting o ≡ true)
      → Tells noted outgoing requested o
      → Tells (if c then true else noted) (if c then true else outgoing) requested o
  send-Tells true noted outgoing requested o w h = sent-Tells true requested o (w refl)
  send-Tells false noted outgoing requested o w h = h

  pub drop-Tells :
      (c noted outgoing requested : Bool) (o : Option (RequestFuture V E))
      → Tells noted outgoing requested o
      → Tells (if c then false else noted) outgoing (if c then false else requested) o
  drop-Tells true noted outgoing requested o h = dropped-Tells noted outgoing requested o h
  drop-Tells false noted outgoing requested o h = h

  pub at_id :
      (id j : ℕ) (futures : Dict ℕ (RequestFuture V E))
      → is_waiting (get id futures) ≡ true
      → nat_eq.beq id j ≡ true
      → is_waiting (get j futures) ≡ true
  at_id id j futures w e =
      subst (λ k. is_waiting (get k futures) ≡ true) ((nat_eq.beq_iff id j).0 e) w

  -- a request that waits is not above the ids given out
  pub stays_none :
      (c : Bool) (o : Option (RequestFuture V E)) (f : RequestFuture V E)
      → (c ≡ true → is_waiting o ≡ true)
      → o ≡ none
      → (if c then some f else o) ≡ none
  stays_none true o f w e = absurd (cc (rw e at (w refl)))
  stays_none false o f w e = e

  -- a future that is settled for good tells nothing
  pub settle-Tells :
      (c noted outgoing requested : Bool) (o : Option (RequestFuture V E)) (f : RequestFuture V E)
      → ((n u r : Bool) → Tells n u r (some f))
      → Tells noted outgoing requested o
      → Tells noted outgoing requested (if c then some f else o)
  settle-Tells true noted outgoing requested o f s h = s noted outgoing requested
  settle-Tells false noted outgoing requested o f s h = h

  pub settled-Tells :
      (c noted outgoing requested : Bool) (o : Option (RequestFuture V E)) (f : RequestFuture V E)
      → ((n u r : Bool) → Tells n u r (some f))
      → Tells noted outgoing requested o
      → Tells noted outgoing (if c then false else requested) (if c then some f else o)
  settled-Tells true noted outgoing requested o f s h = s noted outgoing false
  settled-Tells false noted outgoing requested o f s h = h

  pub open-Tells :
      (c noted outgoing requested : Bool) (o : Option (RequestFuture V E))
      → (c ≡ true → o ≡ none)
      → Tells noted outgoing requested o
      → Tells noted outgoing (if c then true else requested) (if c then some waiting else o)
  open-Tells true noted outgoing requested o n h =
      let nothing = rw (n refl) at h in λ e f. absurd (cc (nothing.0, f))
  open-Tells false noted outgoing requested o n h = h
