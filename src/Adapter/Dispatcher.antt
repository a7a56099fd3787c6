-- ===== src/Adapter/Dispatcher.antt =====
-- src/ucf/adapter_protocol/dispatcher.py: class AdapterDispatcher. No body of an `async with self._lock`
-- awaits, so a coroutine runs without interruption up to the call of the handler and from its return:
-- `begin` is the first part of `dispatch`, `finish` the second, and `cancel` the notification. What the
-- handler does in between is an event from outside.
pub mod Session
pub mod Replay
pub mod Lifecycle
pub mod Negotiation
pub mod Cancellation
use ucf.Prelude.Dict.{get, has, put, pop, dict_of}
use ucf.Prelude.{
  ℕ, suc, ◌-◌, String, Bool, true, false, not, ◌&&◌, ◌||◌, Option, none, some, List, [], ◌∷◌, ◌++◌,
  map, ◌==◌, nat_eq, string_eq, text_order, length, contains, to_set, sorted_by, leb, Result, ok,
  err, ◌>>=◌, ◌>>◌, raise_if, if◌then◌else◌,
}
use ucf.Ir.{Producer}
use ucf.Adapter.Models.{
  adapter_protocol_version, max_pending_requests, max_requests_per_session, Operation, inventory,
  discover, map_operation, generate, verify, CapabilityRequest, AdapterCapability, RequestParams,
  initialize, operate, shutdown, Request, ErrorCategory, ProtocolCode, incompatible_version,
  invalid_lifecycle, duplicate_request_id, too_many_pending, session_request_limit,
  duplicate_capability, unsupported_capability, capability_not_negotiated, request_cancelled,
  operation_failed, initialize_result, operation_result, shutdown_result, ServerMessage, success,
  failure, protocol_failure, adapter_failure, cancelled,
}
use ucf.Adapter.Versioning.{version_at_least}

-- class SessionState(StrEnum)
pub data SessionState : Type 0 where
  new ready closed : SessionState

abbrev pub is_new : SessionState → Bool
is_new new = true
is_new _ = false

abbrev pub is_ready : SessionState → Bool
is_ready ready = true
is_ready _ = false

abbrev pub is_shutdown : RequestParams → Bool
is_shutdown shutdown = true
is_shutdown _ = false

-- _METHOD_CAPABILITY
abbrev pub method_capability : Operation → String
method_capability inventory = "org.ucf.adapter.inventory"
method_capability discover = "org.ucf.adapter.discovery"
method_capability map_operation = "org.ucf.adapter.mapping"
method_capability generate = "org.ucf.adapter.generation"
method_capability verify = "org.ucf.adapter.verification"

-- _ActiveRequest: the operation of its coroutine, and whether its event is set
pub record ActiveRequest : Type 0 where
  pub operation : Operation
  pub is_cancelled : Bool

pub record Dispatcher : Type 0 where
  pub adapter : Producer
  pub offered : List (String × String)
  pub max_pending : ℕ
  pub max_requests : ℕ
  pub state : SessionState
  pub negotiated : List (String × String)
  pub active : List (String × ActiveRequest)
  pub seen_request_ids : List String

-- What the handler does: it returns, returns what is no payload, raises AdapterRequestCancelled, or
-- raises another exception; `OperationResult` refusing the payload is one of those.
pub data HandlerOutcome (P : Type 0) : Type 0 where
  returned : P → HandlerOutcome P
  returned_invalid raised_cancelled raised : HandlerOutcome P

-- The ValueErrors of __init__.
pub data DispatcherError : Type 0 where
  bad_max_pending bad_max_requests duplicate_offer : DispatcherError

abbrev pub capability_name : AdapterCapability → String
capability_name item = item.name

-- __init__
unfoldable pub create :
    Producer → List AdapterCapability → ℕ → ℕ → Result DispatcherError Dispatcher
create adapter offered_capabilities max_pending max_requests = do
  raise_if (not (leb 1 max_pending && leb max_pending max_pending_requests)) bad_max_pending
  raise_if (not (leb 2 max_requests && leb max_requests max_requests_per_session)) bad_max_requests
  let offered =
      dict_of capability_name (λ (item : AdapterCapability). item.version) offered_capabilities
  raise_if (not (length offered == length offered_capabilities)) duplicate_offer
  ok (record {
    adapter = adapter;
    offered = offered;
    max_pending = max_pending;
    max_requests = max_requests;
    state = new;
    negotiated = [];
    active = [];
    seen_request_ids = [];
  })

-- The version that is offered for a request, where it is new enough.
unfoldable pub supported_version : List (String × String) → CapabilityRequest → Option String
supported_version offered requirement = elim (get offered requirement.name) [
  | none ↦ none
  | some version ↦
      if version_at_least version requirement.minimum_version then some version else none
]

-- The loop over the requested capabilities.
unfoldable pub select :
    List (String × String) → List CapabilityRequest → Result ProtocolCode (List AdapterCapability)
select offered [] = ok []
select offered (requirement ∷ requirements) =
    let rest = select offered requirements in
    elim (supported_version offered requirement) [
      | none ↦ if requirement.required then err unsupported_capability else rest
      | some version ↦
          rest >>= λ selected. ok (record { name = requirement.name; version = version } ∷ selected)
    ]

-- What is decided under the lock of _initialize: the negotiated capabilities, or the error.
unfoldable pub negotiate :
    Dispatcher → String → List CapabilityRequest → Result ProtocolCode (List AdapterCapability)
negotiate d protocol_version capabilities = do
  raise_if (not (is_new d.state)) invalid_lifecycle
  raise_if (not (protocol_version == adapter_protocol_version)) incompatible_version
  let names = map (λ (item : CapabilityRequest). item.name) capabilities
  raise_if (not (length names == length (to_set names))) duplicate_capability
  selected ← select d.offered capabilities
  ok (sorted_by capability_name selected)

module _ {P : Type 0} where
  abbrev pub error_response : String → ErrorCategory → ProtocolCode → ServerMessage P
  error_response request_id category code = failure request_id category code

  unfoldable pub initialize_session :
      Dispatcher → String → String → List CapabilityRequest → Dispatcher × Option (ServerMessage P)
  initialize_session d request_id protocol_version capabilities =
      elim (negotiate d protocol_version capabilities) [
        | err code ↦ (d, some (error_response request_id protocol_failure code))
        | ok selected ↦ (
          record d {
            negotiated =
                dict_of capability_name (λ (item : AdapterCapability). item.version) selected;
            state = ready;
          },
          some (success request_id (initialize_result d.adapter selected)),
        )
      ]

  -- _operate up to the call of the handler
  unfoldable pub start_operation :
      Dispatcher → String → Operation → Dispatcher × Option (ServerMessage P)
  start_operation d request_id operation =
      if not (is_ready d.state)
      then (d, some (error_response request_id protocol_failure invalid_lifecycle))
      else if not (has d.negotiated (method_capability operation))
      then (d, some (error_response request_id protocol_failure capability_not_negotiated))
      else if leb d.max_pending (length d.active)
      then (d, some (error_response request_id protocol_failure too_many_pending))
      else (
        record d {
          active = put request_id (record { operation = operation; is_cancelled = false }) d.active;
        },
        none,
      )

  unfoldable pub shutdown_session : Dispatcher → String → Dispatcher × Option (ServerMessage P)
  shutdown_session d request_id =
      if not (is_ready d.state) || not (leb (length d.active) 0)
      then (d, some (error_response request_id protocol_failure invalid_lifecycle))
      else (record d { state = closed }, some (success request_id shutdown_result))

  -- `dispatch` of an admitted request
  unfoldable pub perform :
      Dispatcher → String → RequestParams → Dispatcher × Option (ServerMessage P)
  unfolding initialize_session start_operation shutdown_session
  perform d request_id (initialize protocol_version capabilities) =
      initialize_session d request_id protocol_version capabilities
  perform d request_id (operate operation) = start_operation d request_id operation
  perform d request_id shutdown = shutdown_session d request_id

  -- `dispatch` of a request, up to the call of the handler; without a message the handler runs
  unfoldable pub begin : Dispatcher → Request → Dispatcher × Option (ServerMessage P)
  unfolding perform
  begin d request =
      let seen = length d.seen_request_ids in
      if contains d.seen_request_ids request.id
      then (d, some (error_response request.id protocol_failure duplicate_request_id))
      else if leb d.max_requests seen
          || (suc seen == d.max_requests && not (is_shutdown request.params))
      then (d, some (error_response request.id protocol_failure session_request_limit))
      else perform (record d { seen_request_ids = request.id ∷ d.seen_request_ids }) request.id
          request.params

  -- the answer to what the handler did
  unfoldable pub answer : String → ActiveRequest → HandlerOutcome P → ServerMessage P
  answer request_id active (returned payload) =
      success request_id (operation_result active.operation payload)
  answer request_id active returned_invalid =
      error_response request_id adapter_failure operation_failed
  answer request_id active raised_cancelled =
      if not active.is_cancelled
      then error_response request_id adapter_failure operation_failed
      else error_response request_id cancelled request_cancelled
  answer request_id active raised = error_response request_id adapter_failure operation_failed

  -- _operate from the return of the handler; without a coroutine under that id nothing happens
  unfoldable pub finish :
      Dispatcher → String → HandlerOutcome P → Dispatcher × Option (ServerMessage P)
  unfolding answer
  finish d request_id outcome = elim (get d.active request_id) [
    | none ↦ (d, none)
    | some active ↦
        (record d { active = pop request_id d.active }, some (answer request_id active outcome))
  ]

-- _cancel
unfoldable pub cancel : Dispatcher → String → Dispatcher
cancel d request_id = elim (get d.active request_id) [
  | none ↦ d
  | some active ↦ record d {
    active = put request_id (record active { is_cancelled = true }) d.active;
  }
]
