-- ===== src/Adapter/Dispatcher/Lifecycle.antt =====
-- One call of the dispatcher of src/ucf/adapter_protocol/dispatcher.py.
use ucf.Prelude.Dict.{has}
use ucf.Prelude.{
  suc, ◌<◌, String, ◌≡◌, ◌≢◌, ◌↔◌, refl, true, false, none, some, List, [], ◌∷◌, nat_eq, string_eq,
  length, contains, err, arith,
}
use ucf.Adapter.Models.{
  Operation, CapabilityRequest, RequestParams, initialize, operate, shutdown, Request, success,
  failure, shutdown_result, ErrorCategory, ProtocolCode, error_category_for_code, protocol_failure,
  unsupported_capability,
}
use ucf.Adapter.Dispatcher.{
  ready, closed, Dispatcher, method_capability, select, negotiate, initialize_session, perform,
  begin,
}

-- When the handler is called for a request: it asks for an operation, its id is fresh and leaves the
-- last request of the session free, the session is ready, the capability of the operation was
-- negotiated, and there is room among the pending requests.
pub record Admitted (d : Dispatcher) (request : Request) : Type 0 where
  pub operation : Operation
  pub asks : request.params ≡ operate operation
  pub fresh : contains d.seen_request_ids request.id ≡ false
  pub within : suc (length d.seen_request_ids) < d.max_requests
  pub is_open : d.state ≡ ready
  pub negotiated : has d.negotiated (method_capability operation) ≡ true
  pub room : length d.active < d.max_pending

module _ {P : Type 0} where
  initialize-answers :
      (d : Dispatcher) (id version : String) (capabilities : List CapabilityRequest)
      → (initialize_session {P = P} d id version capabilities).1 ≢ none
  unfolding initialize_session
  initialize-answers d id version capabilities e = ground arith

  begin-calls :
      (d : Dispatcher) (id : String) (params : RequestParams)
      → (begin {P = P} d (record { id = id; params = params })).1 ≡ none
      → Admitted d (record { id = id; params = params })
  unfolding begin
  begin-calls d id (initialize version capabilities) e = absurd (
      ground (
        arith,
        initialize-answers (record d { seen_request_ids = id ∷ d.seen_request_ids }) id version
            capabilities,
      ))
  begin-calls d id (operate operation) e = record {
    operation = operation;
    asks = refl;
    fresh = ground arith;
    within = ground arith;
    is_open = ground arith;
    negotiated = ground arith;
    room = ground arith;
  }
  begin-calls d id shutdown e = absurd (ground arith)

  -- The handler is called, that is, no message is sent yet, exactly where the request is admitted.
  pub begin-calls_iff :
      (d : Dispatcher) (request : Request)
      → ((begin {P = P} d request).1 ≡ none) ↔ Admitted d request
  unfolding begin
  begin-calls_iff d request = (
    begin-calls d request.id request.params,
    λ a. rw (a.asks) (ground (arith, a.fresh, a.within, a.is_open, a.negotiated, a.room)),
  )

select-error :
    (offered : List (String × String)) (capabilities : List CapabilityRequest) (code : ProtocolCode)
    → select offered capabilities ≡ err code
    → code ≡ unsupported_capability
unfolding select
select-error offered [] code e = absurd (ground arith)
select-error offered (c ∷ cs) code e = ground (arith, select-error offered cs code)

-- Each error of the negotiation is a protocol failure.
negotiate-category :
    (d : Dispatcher) (version : String) (capabilities : List CapabilityRequest)
    (code : ProtocolCode)
    → negotiate d version capabilities ≡ err code
    → error_category_for_code code ≡ protocol_failure
unfolding negotiate error_category_for_code
negotiate-category d version capabilities code e =
    ground (arith, select-error d.offered capabilities code)

module _ {P : Type 0} where
  perform-failure :
      (d : Dispatcher) (id : String) (params : RequestParams) (id' : String)
      (category : ErrorCategory) (code : ProtocolCode)
      → (perform {P = P} d id params).1 ≡ some (failure id' category code)
      → (id' ≡ id) × (category ≡ error_category_for_code code)
  unfolding perform error_category_for_code
  perform-failure d id (initialize version capabilities) id' category code e =
      ground (arith, negotiate-category d version capabilities code)
  perform-failure d id (operate operation) id' category code e = ground arith
  perform-failure d id shutdown id' category code e = ground arith

  pub begin-failure :
      (d : Dispatcher) (request : Request) (id : String) (category : ErrorCategory)
      (code : ProtocolCode)
      → (begin {P = P} d request).1 ≡ some (failure id category code)
      → (id ≡ request.id) × (category ≡ error_category_for_code code)
  unfolding begin error_category_for_code
  begin-failure d request id category code e = ground (
    arith,
    perform-failure (record d { seen_request_ids = request.id ∷ d.seen_request_ids }) request.id
        request.params id category code,
  )

-- When a shutdown closes the session: its id is fresh, any request of the session is left, the last one
-- being kept for it, the session is ready, and no request is pending.
pub record Closing (d : Dispatcher) (request : Request) : Type 0 where
  pub asks : request.params ≡ shutdown
  pub fresh : contains d.seen_request_ids request.id ≡ false
  pub within : length d.seen_request_ids < d.max_requests
  pub is_open : d.state ≡ ready
  pub idle : length d.active ≡ 0

module _ (P : Type 0) where
  initialize-opens :
      (d : Dispatcher) (id version : String) (capabilities : List CapabilityRequest)
      → (initialize_session {P = P} d id version capabilities).0.state ≡ closed
      → d.state ≡ closed
  unfolding initialize_session
  initialize-opens d id version capabilities e = ground arith

  begin-Closing_lem :
      (d : Dispatcher) (id : String) (params : RequestParams)
      → (begin {P = P} d (record { id = id; params = params })).0.state ≡ closed
      → d.state ≢ closed
      → Closing d (record { id = id; params = params })
  unfolding begin
  begin-Closing_lem d id (initialize version capabilities) e n = absurd (
      ground (
        arith,
        n,
        initialize-opens (record d { seen_request_ids = id ∷ d.seen_request_ids }) id version
            capabilities,
      ))
  begin-Closing_lem d id (operate operation) e n = absurd (ground arith)
  begin-Closing_lem d id shutdown e n = record {
    asks = refl;
    fresh = ground arith;
    within = ground arith;
    is_open = ground arith;
    idle = ground arith;
  }

  -- A request closes an open session exactly where it is a shutdown of a ready session without pending
  -- requests, with a fresh id and within the limit of the session, the last request of which is left to it;
  -- it is then answered as a success.
  pub begin-closes_iff :
      (d : Dispatcher) (request : Request)
      → (((d.state ≢ closed) × ((begin {P = P} d request).0.state ≡ closed)) ↔ Closing d request)
        × (Closing d request
            → (begin {P = P} d request).1 ≡ some (success request.id shutdown_result))
  unfolding begin
  begin-closes_iff d request = (
    (
      λ h. begin-Closing_lem d request.id request.params h.1 h.0,
      λ c. (
        λ e. absurd (ground (arith, c.is_open)),
        rw (c.asks) (ground (arith, c.fresh, c.within, c.is_open, c.idle)),
      ),
    ),
    λ c. rw (c.asks) (ground (arith, c.fresh, c.within, c.is_open, c.idle)),
  )
