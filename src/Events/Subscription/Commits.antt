-- ===== src/Events/Subscription/Commits.antt =====
-- What a connection resumes from, over the whole trace of a subscription.
use teslatlas_sdk_typescript.Prelude.{
  ℕ, zero, suc, ◌+◌, ◌≡◌, refl, Bool, true, false, inl, inr, Option, none, some, List, [], ◌∷◌,
  ◌++◌, if◌then◌else◌, Bool-cases, append-nil,
}
use teslatlas_sdk_typescript.Js.Text.{Text}
use teslatlas_sdk_typescript.Core.Errors.{Result, ok, err, Result-cases}
use teslatlas_sdk_typescript.Http.HeaderValue.{header_value}
use teslatlas_sdk_typescript.Events.SseParser.{event, retry, checkpoint}
use teslatlas_sdk_typescript.Events.SseStream.{Items, finished, failed, item}
use teslatlas_sdk_typescript.Events.Subscription.{
  Moment, Connection, Action, requested, yielded, committed, slept, Ending, drained, threw,
  returned, Progress, Options, stop, resume_header, over, again, Settled, Reason,
}
use teslatlas_sdk_typescript.Events.Subscription.Stream.{
  consume, commit, commit_then, deliver, handle_mapped,
}
use teslatlas_sdk_typescript.Events.Subscription.Rounds.{
  run_stream, connect, rounds, after_round, after_settled, reconnect_with, sleep_then, prepare,
  start, subscribe_to_sse, admit,
}

-- The header of a request that resumes from a checkpoint: none for an absent or empty one, else the
-- checkpoint as `Headers` keeps it.
pub Carries : Option Text → Option Text → Type 0
Carries none header = header ≡ none
Carries (some []) header = header ≡ none
Carries (some (c ∷ s)) header = header ≡ some (header_value (c ∷ s))

resume_header-Carries : (last_id : Option Text) → Carries last_id (resume_header last_id)
unfolding Carries
resume_header-Carries none = refl
resume_header-Carries (some []) = refl
resume_header-Carries (some (c ∷ s)) = refl

module _ {E : Type 0} where
  -- Each request carries the last checkpoint that was committed before it.
  pub IsResumed : Option Text → List (Action E) → Type 0
  IsResumed last_id [] = Unit
  IsResumed last_id (requested header ∷ actions) =
      Carries last_id header × IsResumed last_id actions
  IsResumed last_id (yielded value ∷ actions) = IsResumed last_id actions
  IsResumed last_id (committed value ∷ actions) = IsResumed value actions
  IsResumed last_id (slept delay ∷ actions) = IsResumed last_id actions

  -- The actions of a stream lead from the first checkpoint to the last.
  Leads : Option Text → Progress E → Type 0
  Leads last_id p =
      (tail : List (Action E)) → IsResumed p.last_id tail → IsResumed last_id (p.actions ++ tail)

  module _ (options : Options E) where
    commit_then-Leads :
        (last_id : Option Text) (server_retry : Option ℕ) (r : Result (Option Text))
        (next : Option Text → Progress E)
        → ((value : Option Text) → Leads value (next value))
        → Leads last_id (commit_then options last_id server_retry r next)
    unfolding commit_then Leads IsResumed
    commit_then-Leads last_id server_retry (err e) next h = λ tail k. k
    commit_then-Leads last_id server_retry (ok value) next h = λ tail k. h value tail k

    stop-Leads :
        (last_id : Option Text) (server_retry : Option ℕ) (ending : Ending)
        → Leads last_id (stop last_id server_retry ending)
    unfolding Leads
    stop-Leads last_id server_retry ending = λ tail k. k

    unless-Leads :
        (b : Bool) (last_id : Option Text) (server_retry : Option ℕ) (ending : Ending)
        (p : Progress E)
        → Leads last_id p
        → Leads last_id (if b then stop last_id server_retry ending else p)
    unfolding Leads
    unless-Leads true last_id server_retry ending p h = λ tail k. k
    unless-Leads false last_id server_retry ending p h = h

    deliver-Leads :
        (moment : Moment) (last_id : Option Text) (server_retry : Option ℕ) (mapped : Option E)
        (next : Unit {0} → Progress E)
        → Leads last_id (next tt)
        → Leads last_id (deliver options moment last_id server_retry mapped next)
    unfolding deliver Leads IsResumed
    deliver-Leads moment last_id server_retry none next h = h
    deliver-Leads moment last_id server_retry (some value) next h = λ tail.
        elim (Bool-cases moment.leaves) [
          | inl e ↦ rw e (λ k. k)
          | inr e ↦ rw e (elim (Bool-cases moment.aborted_resumed) [
            | inl d ↦ rw d (λ k. k)
            | inr d ↦ rw d (h tail)
          ])
        ]

    handle_mapped-Leads :
        (moment : Moment) (last_id : Option Text) (server_retry : Option ℕ) (r : Result (Option E))
        (next : Unit {0} → Progress E)
        → Leads last_id (next tt)
        → Leads last_id (handle_mapped options moment last_id server_retry r next)
    unfolding handle_mapped
    handle_mapped-Leads moment last_id server_retry (err e) next h =
        stop-Leads last_id server_retry (threw e)
    handle_mapped-Leads moment last_id server_retry (ok mapped) next h =
        unless-Leads moment.aborted_mapped last_id server_retry _ _
          (deliver-Leads moment last_id server_retry mapped next h)

    consume-Leads :
        (items : Items) (moment : ℕ → Moment) (n : ℕ) (last_id : Option Text)
        (server_retry : Option ℕ)
        → Leads last_id (consume options items moment n last_id server_retry)
    unfolding consume
    consume-Leads finished moment n last_id server_retry = stop-Leads last_id server_retry drained
    consume-Leads (failed e) moment n last_id server_retry =
        stop-Leads last_id server_retry (threw e)
    consume-Leads (item (retry ms) rest) moment n last_id server_retry =
        unless-Leads (moment n).aborted_before last_id server_retry _ _
          (consume-Leads rest moment (n + 1) last_id (some ms))
    consume-Leads (item (checkpoint id) rest) moment n last_id server_retry =
        unless-Leads (moment n).aborted_before last_id server_retry _ _ (
          commit_then-Leads last_id server_retry (commit options (moment n) id) _
            (λ value. consume-Leads rest moment (n + 1) value server_retry))
    consume-Leads (item (event e) rest) moment n last_id server_retry =
        unless-Leads (moment n).aborted_before last_id server_retry _ _ (
          handle_mapped-Leads (moment n) last_id server_retry (options.event_mapper e) _ (
            commit_then-Leads last_id server_retry (commit options (moment n) e.last_event_id) _
              (λ value. consume-Leads rest moment (n + 1) value server_retry)))

    run_stream-Leads :
        (connection : Connection) (last_id : Option Text) (r : Result Bool)
        → Leads last_id (run_stream options connection last_id r)
    unfolding run_stream
    run_stream-Leads connection last_id (err e) = stop-Leads last_id none (threw e)
    run_stream-Leads connection last_id (ok false) = stop-Leads last_id none returned
    run_stream-Leads connection last_id (ok true) = consume-Leads _ connection.moment 0 last_id none

    connect-Leads :
        (connection : Connection) (last_id : Option Text)
        → Leads last_id (connect options connection last_id)
    unfolding connect Leads IsResumed
    connect-Leads connection last_id = λ tail k. (
      resume_header-Carries last_id,
      run_stream-Leads connection last_id (admit options connection) tail k,
    )

    sleep_then-IsResumed :
        (connection : Connection) (delay : ℕ) (next : List (Action E) × Ending)
        (last_id : Option Text)
        → IsResumed last_id next.0
        → IsResumed last_id (sleep_then options connection delay next).0
    unfolding sleep_then IsResumed
    sleep_then-IsResumed connection delay next last_id h = elim (Result-cases connection.sleep) [
      | inr (e, k) ↦ rw k tt
      | inl (x, k) ↦
          rw k (elim (Bool-cases connection.aborted_slept) [ inl d ↦ rw d tt | inr d ↦ rw d h ])
    ]

    if-IsResumed :
        (b : Bool) (last_id : Option Text) (x y : List (Action E) × Ending)
        → IsResumed last_id x.0
        → IsResumed last_id y.0
        → IsResumed last_id (if b then x else y).0
    if-IsResumed true last_id x y h k = h
    if-IsResumed false last_id x y h k = k

    reconnect_with-IsResumed :
        (connection : Connection) (bounds : ℕ × ℕ) (reason : Reason) (server_retry : Option ℕ)
        (r : Result (Option ℕ)) (next : List (Action E) × Ending) (last_id : Option Text)
        → IsResumed last_id next.0
        → IsResumed last_id (reconnect_with options connection bounds reason server_retry r next).0
    unfolding reconnect_with IsResumed
    reconnect_with-IsResumed connection bounds reason server_retry (err e) next last_id h = tt
    reconnect_with-IsResumed connection bounds reason server_retry (ok none) next last_id h =
        if-IsResumed connection.aborted_policy last_id _ _ tt tt
    reconnect_with-IsResumed connection bounds reason server_retry (ok (some delay)) next last_id
          h =
        if-IsResumed connection.aborted_policy last_id _ _ tt
          (sleep_then-IsResumed connection _ next last_id h)

    after_settled-IsResumed :
        (connection : Connection) (bounds : ℕ × ℕ) (attempt : ℕ) (p : Progress E)
        (next : List (Action E) × Ending) (settled : Settled) (last_id : Option Text)
        → Leads last_id p
        → IsResumed p.last_id next.0
        → IsResumed last_id (after_settled options connection bounds attempt p next settled).0
    unfolding after_settled Leads IsResumed
    after_settled-IsResumed connection bounds attempt p next (over ending) last_id h k =
        rw (append-nil p.actions) at (h [] tt)
    after_settled-IsResumed connection bounds attempt p next (again reason) last_id h k =
        h _ (reconnect_with-IsResumed connection bounds reason p.server_retry _ next p.last_id k)

    rounds-IsResumed :
        (observed : ℕ) (connections : ℕ → Connection) (bounds : ℕ × ℕ) (attempt : ℕ)
        (last_id : Option Text)
        → IsResumed last_id (rounds options observed connections bounds attempt last_id).0
    unfolding rounds after_round IsResumed
    rounds-IsResumed zero connections bounds attempt last_id = tt
    rounds-IsResumed (suc observed) connections bounds attempt last_id =
        if-IsResumed (connections attempt).aborted_before last_id _ _ tt (
          after_settled-IsResumed (connections attempt) bounds attempt _ _ _ last_id
            (connect-Leads (connections attempt) last_id)
            (rounds-IsResumed observed connections bounds (attempt + 1) _))

    -- Whatever the environment does, each request of a subscription carries as `Last-Event-ID` the last
    -- checkpoint that was committed before it, or else the one that was loaded, without the white space
    -- at its ends; it carries none where that checkpoint is absent or empty.
    pub subscribe_to_sse-IsResumed :
        (aborted_first : Bool) (loaded : Result (Option Text)) (aborted_loaded : Bool)
        (observed : ℕ) (connections : ℕ → Connection) (last_id : Option Text) (bounds : ℕ × ℕ)
        → prepare options aborted_first loaded aborted_loaded ≡ ok (bounds, last_id)
        → IsResumed last_id
            (subscribe_to_sse options aborted_first loaded aborted_loaded observed connections).0
    unfolding subscribe_to_sse start
    subscribe_to_sse-IsResumed aborted_first loaded aborted_loaded observed connections last_id
          bounds h =
        rw h (rounds-IsResumed observed connections bounds 1 last_id)
