-- ===== src/Transport/Sent.antt =====
-- src/deepx_sdk/_async_transport.py: which requests were given to the socket.
use deepx_python_sdk.Prelude.{
  ℕ, ◌≤◌, ◌≡◌, Bool, true, ◌&&◌, Option, none, some, get, get-put, member, member-include,
  member-discard, nat_eq, arith, Bool-cases, inl, inr,
}
use deepx_python_sdk.Transport.Notes.{
  Tells, get-fail_futures, failed-Tells, send-Tells, drop-Tells, at_id, stays_none, settle-Tells,
  settled-Tells, open-Tells,
}
use deepx_python_sdk.Transport.{RequestFuture, waiting, cancelled, Intent, Transport, is_live}
use deepx_python_sdk.Transport.Requests.{
  is_waiting, open_request, send_request, cancel_future, time_out, finish_request, fail_requests,
}
use deepx_python_sdk.Transport.Responses.{settle}

module _ {V E H : Type 0} where
  unfoldable pub IsHonest : Transport V E H → Type 0
  IsHonest t =
      (id : ℕ)
      → Tells (member id t.request_may_have_been_sent) (member id t.outgoing) (member id t.requests)
          (get id t.futures)
        × (t.next_request_id ≤ id → get id t.futures ≡ none)

  pub send-IsHonest : (id : ℕ) (t : Transport V E H) → IsHonest t → IsHonest (send_request id t)
  unfolding send_request IsHonest
  send-IsHonest id t h = elim (Bool-cases (is_waiting (get id t.futures))) [
    | inl e ↦ elim (Bool-cases (is_live t.state)) [
      | inl l ↦
          rw (e, l)
            (λ j.
              rw (member-include id j t.request_may_have_been_sent, member-include id j t.outgoing)
                (
                  send-Tells (nat_eq.beq id j) _ _ _ (get j t.futures) (at_id id j t.futures e)
                      (h j).0,
                  (h j).1,
                ))
      | inr l ↦ rw (e, l) h
    ]
    | inr e ↦ rw e h
  ]

  pub open-IsHonest :
      (intent : Option (Intent H)) (t : Transport V E H)
      → IsHonest t
      → IsHonest (open_request intent t).1
  unfolding open_request IsHonest member
  open-IsHonest intent t h = elim (Bool-cases (is_live t.state && t.has_socket)) [
    | inl e ↦ rw e (λ j. rw (get-put t.next_request_id j waiting t.futures) (
      open-Tells (nat_eq.beq t.next_request_id j) _ _ (member j t.requests) (get j t.futures)
          (λ q. (h j).1 (ground (arith, q, nat_eq.beq_iff t.next_request_id j))) (h j).0,
      λ le.
          rw ((h j).1 (omega (arith, le))) (ground (arith, le, nat_eq.beq_iff t.next_request_id j)),
    ))
    | inr e ↦ rw e h
  ]

  pub fail-IsHonest : (t : Transport V E H) → IsHonest t → IsHonest (fail_requests t)
  unfolding fail_requests IsHonest member
  fail-IsHonest t h j =
      rw (get-fail_futures t.request_may_have_been_sent t.requests t.futures j)
        (failed-Tells _ _ _ (get j t.futures) (h j).0, λ le. rw ((h j).1 le) (ground arith))

  pub finish-IsHonest : (id : ℕ) (t : Transport V E H) → IsHonest t → IsHonest (finish_request id t)
  unfolding finish_request IsHonest
  finish-IsHonest id t h j =
      rw (member-discard id j t.request_may_have_been_sent, member-discard id j t.requests)
        (drop-Tells (nat_eq.beq id j) _ _ _ (get j t.futures) (h j).0, (h j).1)

  pub time_out-IsHonest : (id : ℕ) (t : Transport V E H) → IsHonest t → IsHonest (time_out id t).1
  unfolding time_out cancel_future IsHonest
  time_out-IsHonest id t h = elim (Bool-cases (is_waiting (get id t.futures))) [
    | inl e ↦ rw e (λ j. rw (get-put id j cancelled t.futures) (
      settle-Tells (nat_eq.beq id j) _ _ _ (get j t.futures) cancelled (λ n u r. tt) (h j).0,
      λ le.
          stays_none (nat_eq.beq id j) (get j t.futures) cancelled (at_id id j t.futures e)
            ((h j).1 le),
    ))
    | inr e ↦ rw e h
  ]

  pub settle-IsHonest :
      (id : ℕ) (f : RequestFuture V E) (t : Transport V E H)
      → is_waiting (get id t.futures) ≡ true
      → ((n u r : Bool) → Tells n u r (some f))
      → IsHonest t
      → IsHonest (settle id f t)
  unfolding settle IsHonest
  settle-IsHonest id f t e s h j =
      rw (get-put id j f t.futures, member-discard id j t.requests)
        (
          settled-Tells (nat_eq.beq id j) _ _ _ (get j t.futures) f s (h j).0,
          λ le.
              stays_none (nat_eq.beq id j) (get j t.futures) f (at_id id j t.futures e)
                ((h j).1 le),
        )
