-- ===== src/Adapter/Dispatcher/Replay.antt =====
-- What a dispatcher of src/ucf/adapter_protocol/dispatcher.py remembers along a session: the ids that were
-- used, and that it was closed.
use ucf.Prelude.Dict.{get}
use ucf.Prelude.{
  ℕ, suc, String, ◌≡◌, ◌≢◌, refl, ==_refl, true, not, ◌&&◌, ◌||◌, none, some, List, [], ◌∷◌, ◌==◌,
  nat_eq, string_eq, length, leb, contains, ok, if◌then◌else◌, arith,
}
use ucf.Ir.{Producer}
use ucf.Adapter.Models.{
  AdapterCapability, initialize, operate, shutdown, Request, failure, protocol_failure,
  ProtocolCode, duplicate_request_id, session_request_limit, invalid_lifecycle,
}
use ucf.Adapter.Dispatcher.{
  closed, is_shutdown, Dispatcher, create, negotiate, initialize_session, perform, begin,
  HandlerOutcome, finish, cancel,
}
use ucf.Adapter.Dispatcher.Session.{
  Step, requested, finished, cancel_sent, Session, start, next, IsWell, Session-IsWell,
  Session-IsWell_from,
}

-- Why a closed dispatcher refuses a request.
abbrev pub refusal : Dispatcher → Request → ProtocolCode
refusal d request =
    let seen = length d.seen_request_ids in
    if contains d.seen_request_ids request.id
    then duplicate_request_id
    else if leb d.max_requests seen
        || (suc seen == d.max_requests && not (is_shutdown request.params))
    then session_request_limit
    else invalid_lifecycle

get-empty : {V : Type 0} (k : String) (d : List (String × V)) → length d ≡ 0 → get d k ≡ none
get-empty k [] e = refl
get-empty k (x ∷ d) e = absurd (ground arith)

module _ (P : Type 0) where
  pub seen-Step :
      (id : String) (d d' : Dispatcher)
      → Step P d d'
      → contains d.seen_request_ids id ≡ true
      → contains d'.seen_request_ids id ≡ true
  unfolding begin perform initialize_session finish cancel
  seen-Step id d _ (requested request) m = elim (request.params) [
    | initialize version capabilities ↦ ground arith
    | operate operation ↦ ground arith
    | shutdown ↦ ground arith
  ]
  seen-Step id d _ (finished other outcome) m = ground arith
  seen-Step id d _ (cancel_sent other) m = ground arith

  closed-Step : (d d' : Dispatcher) → Step P d d' → d.state ≡ closed → d'.state ≡ closed
  unfolding begin perform initialize_session negotiate finish cancel
  closed-Step d _ (requested request) m = elim (request.params) [
    | initialize version capabilities ↦ ground arith
    | operate operation ↦ ground arith
    | shutdown ↦ ground arith
  ]
  closed-Step d _ (finished other outcome) m = ground arith
  closed-Step d _ (cancel_sent other) m = ground arith

  seen-Session :
      (id : String) (first d : Dispatcher)
      → Session P first d
      → contains first.seen_request_ids id ≡ true
      → contains d.seen_request_ids id ≡ true
  seen-Session id first _ start m = m
  seen-Session id first _ (next {d = d} {d' = d'} session step) m =
      seen-Step id d d' step (seen-Session id first d session m)

  closed-Session :
      (first d : Dispatcher) → Session P first d → first.state ≡ closed → d.state ≡ closed
  closed-Session first _ start m = m
  closed-Session first _ (next {d = d} {d' = d'} session step) m =
      closed-Step d d' step (closed-Session first d session m)

  refused-or_seen :
      (d : Dispatcher) (request : Request)
      → (begin {P = P} d request).1
        ≢ some (failure request.id protocol_failure session_request_limit)
      → contains (begin {P = P} d request).0.seen_request_ids request.id ≡ true
  unfolding begin perform initialize_session
  refused-or_seen d request n = elim (request.params) [
    | initialize version capabilities ↦ ground (arith, ==_refl request.id)
    | operate operation ↦ ground (arith, ==_refl request.id)
    | shutdown ↦ ground (arith, ==_refl request.id)
  ]

  -- The error of a closed dispatcher.
  closed-refuses :
      (d : Dispatcher) (request : Request)
      → d.state ≡ closed
      → (begin {P = P} d request).1 ≡ some (failure request.id protocol_failure (refusal d request))
  unfolding begin perform initialize_session negotiate
  closed-refuses d request is_closed = elim (request.params) [
    | initialize version capabilities ↦ ground (arith, is_closed)
    | operate operation ↦ ground (arith, is_closed)
    | shutdown ↦ ground (arith, is_closed)
  ]

  closed-finishes :
      (d : Dispatcher) (id : String) (outcome : HandlerOutcome P)
      → IsWell d
      → d.state ≡ closed
      → finish d id outcome ≡ (d, none)
  unfolding finish
  closed-finishes d id outcome w is_closed =
      let absent = get-empty id d.active (w.idle (rw is_closed refl)) in ground (arith, absent)

  closed-cancels : (d : Dispatcher) (id : String) → IsWell d → d.state ≡ closed → cancel d id ≡ d
  unfolding cancel
  closed-cancels d id w is_closed =
      let absent = get-empty id d.active (w.idle (rw is_closed refl)) in ground (arith, absent)

-- A request whose id was used before is answered as a duplicate and changes nothing, whatever came in
-- between; an id counts as used unless its request was refused for the limit of the session.
pub request-once :
    (P : Type 0) (d later : Dispatcher) (request again : Request)
    → (begin {P = P} d request).1 ≢ some (failure request.id protocol_failure session_request_limit)
    → Session P (begin {P = P} d request).0 later
    → again.id ≡ request.id
    → begin {P = P} later again
      ≡ (later, some (failure request.id protocol_failure duplicate_request_id))
unfolding begin
request-once P d later request again admitted session same = ground (
  arith,
  same,
  seen-Session P request.id (begin {P = P} d request).0 later session
      (refused-or_seen P d request admitted),
)

-- Once a dispatcher that was created is closed, it stays closed, whatever comes: each request is
-- answered at once with an error, so that no handler is called, the return of a handler sends nothing and
-- changes nothing, and so does a cancellation. The error is a duplicate for an id that was used, the limit
-- of the session where it is reached, and an invalid lifecycle otherwise.
pub closed-forever :
    (P : Type 0) (adapter : Producer) (offered : List AdapterCapability)
    (max_pending max_requests : ℕ) (first shut d : Dispatcher) (request : Request) (id : String)
    (outcome : HandlerOutcome P)
    → create adapter offered max_pending max_requests ≡ ok first
    → Session P first shut
    → shut.state ≡ closed
    → Session P shut d
    → (d.state ≡ closed)
      × ((begin {P = P} d request).1
          ≡ some (failure request.id protocol_failure (refusal d request)))
      × (finish d id outcome ≡ (d, none))
      × (cancel d id ≡ d)
closed-forever P adapter offered max_pending max_requests first shut d request id outcome created
      before is_closed after =
    let still = closed-Session P shut d after is_closed in
    let at_shut =
      Session-IsWell P adapter offered max_pending max_requests first shut created before in
    let w = Session-IsWell_from P shut d after at_shut in
    (
      still,
      closed-refuses P d request still,
      closed-finishes P d id outcome w still,
      closed-cancels P d id w still,
    )
