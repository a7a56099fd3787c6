-- ===== src/Adapter/Dispatcher/Cancellation.antt =====
-- One operation of src/ucf/adapter_protocol/dispatcher.py from the call of its handler to its answer, with
-- whatever comes in between.
use ucf.Prelude.Dict.{get, get-put, get-pop}
use ucf.Prelude.{
  String, ◌≡◌, ap, Bool, true, false, ◌||◌, Option, none, some, ◌∷◌, ◌==◌, nat_eq, string_eq,
  ==_refl, contains, if◌then◌else◌, Option-cases, Bool-cases, inl, inr, arith,
}
use ucf.Adapter.Models.{
  Operation, RequestParams, initialize, operate, shutdown, Request, ServerMessage, success, failure,
  operation_result, adapter_failure, cancelled, operation_failed, request_cancelled,
}
use ucf.Adapter.Dispatcher.{
  Dispatcher, ActiveRequest, HandlerOutcome, returned, returned_invalid, raised_cancelled, raised,
  initialize_session, start_operation, perform, begin, answer, finish, cancel,
}
use ucf.Adapter.Dispatcher.Session.{Step, requested, finished, cancel_sent, Session, start, next}
use ucf.Adapter.Dispatcher.Replay.{seen-Step}

module _ {P : Type 0} where
  -- A cancellation of that id is among the events.
  abbrev asks : {d d' : Dispatcher} → Step P d d' → String → Bool
  asks (requested request) id = false
  asks (finished other outcome) id = false
  asks (cancel_sent other) id = other == id

  abbrev pub was_asked : {d d' : Dispatcher} → Session P d d' → String → Bool
  was_asked start id = false
  was_asked (next session step) id = was_asked session id || asks step id

  -- A return of the handler of that id is among the events.
  abbrev ends : {d d' : Dispatcher} → Step P d d' → String → Bool
  ends (requested request) id = false
  ends (finished other outcome) id = other == id
  ends (cancel_sent other) id = false

  abbrev pub was_answered : {d d' : Dispatcher} → Session P d d' → String → Bool
  was_answered start id = false
  was_answered (next session step) id = was_answered session id || ends step id

  -- What the client is told, where `asked` says that it has sent a cancellation.
  abbrev pub reply : String → Operation → Bool → HandlerOutcome P → ServerMessage P
  reply id operation asked (returned payload) = success id (operation_result operation payload)
  reply id operation true raised_cancelled = failure id cancelled request_cancelled
  reply id operation false raised_cancelled = failure id adapter_failure operation_failed
  reply id operation asked returned_invalid = failure id adapter_failure operation_failed
  reply id operation asked raised = failure id adapter_failure operation_failed

-- The active request of an operation, until it is answered.
abbrev pending : Operation → Bool → Bool → Option ActiveRequest
pending operation asked true = none
pending operation asked false = some (record { operation = operation; is_cancelled = asked })

-- The request is recorded, and is pending until it is answered.
record Follows (id : String) (operation : Operation) (asked answered : Bool) (d : Dispatcher)
    : Type 0 where
  recorded : contains d.seen_request_ids id ≡ true
  held : get d.active id ≡ pending operation asked answered

module _ (P : Type 0) (id : String) where
  start_operation-held :
      (d : Dispatcher) (other : String) (operation : Operation)
      → (other == id) ≡ false
      → get (start_operation {P = P} d other operation).0.active id ≡ get d.active id
  unfolding start_operation
  start_operation-held d other operation miss =
      let added : ActiveRequest = record { operation = operation; is_cancelled = false } in
      ground (arith, miss, get-put other id added d.active)

  perform-held :
      (d : Dispatcher) (other : String) (params : RequestParams)
      → (other == id) ≡ false
      → get (perform {P = P} d other params).0.active id ≡ get d.active id
  unfolding perform initialize_session
  perform-held d other (initialize version capabilities) miss = ground arith
  perform-held d other (operate operation) miss = start_operation-held d other operation miss
  perform-held d other shutdown miss = ground arith

  begin-held :
      (d : Dispatcher) (request : Request)
      → contains d.seen_request_ids id ≡ true
      → get (begin {P = P} d request).0.active id ≡ get d.active id
  unfolding begin
  begin-held d request seen = elim (Bool-cases (request.id == id)) [
    | inl hit ↦
        let same : request.id ≡ id = (string_eq.beq_iff request.id id).0 hit in
        let again : contains d.seen_request_ids request.id ≡ true = rw same seen in
        ground (arith, again)
    | inr miss ↦ ground (
      arith,
      perform-held (record d { seen_request_ids = request.id ∷ d.seen_request_ids }) request.id
          request.params miss,
    )
  ]

  finish-held :
      (d : Dispatcher) (other : String) (outcome : HandlerOutcome P)
      → get (finish d other outcome).0.active id ≡ (if other == id then none else get d.active id)
  unfolding finish
  finish-held d other outcome = elim (Bool-cases (other == id)) [
    | inl hit ↦
        let same : get d.active other ≡ get d.active id =
          ap (get d.active) ((string_eq.beq_iff other id).0 hit) in
        ground (arith, hit, same, get-pop other id d.active)
    | inr miss ↦ ground (arith, miss, get-pop other id d.active)
  ]

  cancel-held :
      (d : Dispatcher) (other : String) (operation : Operation) (asked answered : Bool)
      → get d.active id ≡ pending operation asked answered
      → get (cancel d other).active id ≡ pending operation (asked || other == id) answered
  unfolding cancel
  cancel-held d other operation asked answered h = elim (Bool-cases (other == id)) [
    | inl hit ↦
        let same : get d.active other ≡ get d.active id =
          ap (get d.active) ((string_eq.beq_iff other id).0 hit) in
        let added : ActiveRequest = record { operation = operation; is_cancelled = true } in
        ground (arith, hit, same, h, get-put other id added d.active)
    | inr miss ↦ elim (Option-cases (get d.active other)) [
      | inl absent ↦ ground (arith, miss, absent)
      | inr (active, found) ↦
          ground
            (arith, miss, found, get-put other id (record active { is_cancelled = true }) d.active)
    ]
  ]

  Step-Follows :
      (d d' : Dispatcher) (step : Step P d d') (operation : Operation) (asked answered : Bool)
      → Follows id operation asked answered d
      → Follows id operation (asked || asks step id) (answered || ends step id) d'
  Step-Follows d _ (requested request) operation asked answered f = record {
    recorded = seen-Step P id d (begin {P = P} d request).0 (requested request) f.recorded;
    held = ground (arith, begin-held d request f.recorded, f.held);
  }
  Step-Follows d _ (finished other outcome) operation asked answered f = record {
    recorded = seen-Step P id d (finish d other outcome).0 (finished other outcome) f.recorded;
    held = ground (arith, finish-held d other outcome, f.held);
  }
  Step-Follows d _ (cancel_sent other) operation asked answered f = record {
    recorded = seen-Step P id d (cancel d other) (cancel_sent other) f.recorded;
    held = ground (arith, cancel-held d other operation asked answered f.held);
  }

  Session-Follows :
      (first d : Dispatcher) (session : Session P first d) (operation : Operation)
      → Follows id operation false false first
      → Follows id operation (was_asked session id) (was_answered session id) d
  Session-Follows first _ start operation f = f
  Session-Follows first _ (next {d = d} {d' = d'} session step) operation f =
      Step-Follows d d' step operation (was_asked session id) (was_answered session id)
        (Session-Follows first d session operation f)

begin-Follows :
    (P : Type 0) (d : Dispatcher) (id : String) (operation : Operation)
    → (begin {P = P} d (record { id = id; params = operate operation })).1 ≡ none
    → Follows id operation false false
        (begin {P = P} d (record { id = id; params = operate operation })).0
unfolding begin
begin-Follows P d id operation called =
    let added : ActiveRequest = record { operation = operation; is_cancelled = false } in
    record {
      recorded = ground (arith, called, ==_refl id);
      held = ground (arith, called, get-put id id added d.active, ==_refl id);
    }

-- The handler of an operation that is called is answered once: whatever requests, returns and
-- cancellations come in between, its first return is told to the client under the id of its request, with
-- the payload and the operation of the request, as a cancellation exactly where the handler raised it and
-- a cancellation of that id was sent since the call, and as a failed operation otherwise; any further
-- return sends no message.
pub finish-reply :
    (P : Type 0) (d later : Dispatcher) (id : String) (operation : Operation)
    (session : Session P (begin {P = P} d (record { id = id; params = operate operation })).0 later)
    (outcome : HandlerOutcome P)
    → (begin {P = P} d (record { id = id; params = operate operation })).1 ≡ none
    → (finish later id outcome).1 ≡ (
        if was_answered session id
        then none
        else some (reply id operation (was_asked session id) outcome))
unfolding finish answer
finish-reply P d later id operation session outcome called =
    let first = (begin {P = P} d (record { id = id; params = operate operation })).0 in
    let f =
      Session-Follows P id first later session operation (begin-Follows P d id operation called) in
    ground (arith, f.held)
