-- ===== src/Adapter/Tests.antt =====
-- The theorems on src/ucf/adapter_protocol at a concrete session.
use ucf.Prelude.{
  String, ◌≡◌, ◌≢◌, ◌↔◌, refl, true, ◌&&◌, none, some, map, ◌==◌, string_eq, text_order, contains,
  any, All, IsIncreasing, ok, arith,
}
use ucf.Prelude.Dict.{get}
use ucf.Adapter.Models.{
  AdapterCapability, CapabilityRequest, success, failure, shutdown_result, initialize_result,
  adapter_protocol_version, inventory, error_category_for_code, protocol_failure, cancelled,
  duplicate_request_id, session_request_limit, request_cancelled,
}
use ucf.Adapter.Versioning.{version_at_least}
use ucf.Adapter.Dispatcher.{
  Dispatcher, new, closed, create, capability_name, supported_version, select, negotiate, begin,
  finish, cancel, returned, raised_cancelled,
}
use ucf.Adapter.Dispatcher.Lifecycle.{
  Admitted, begin-calls_iff, begin-failure, Closing, begin-closes_iff,
}
use ucf.Adapter.Dispatcher.Negotiation.{is_supported, request_name, negotiate-supported}
use ucf.Adapter.Dispatcher.Session.{
  Session, start, next, requested, cancel_sent, IsWell, Session-IsWell,
}
use ucf.Adapter.Dispatcher.Cancellation.{finish-reply}
use ucf.Adapter.Dispatcher.Replay.{request-once, closed-forever}
use ucf.Adapter.Sample.{
  adapter, offer, requirements, initializing, listing, closing, created, initialized, shut,
}

creates : create adapter offer 1 3 ≡ ok created
unfolding create
creates = refl

negotiates : negotiate created adapter_protocol_version requirements ≡ ok offer
unfolding negotiate select supported_version version_at_least
negotiates = refl

-- The session runs as expected: it is initialized, refuses an id that was used, and is shut.
runs :
    (begin {P = String} created initializing
      ≡ (initialized, some (success "r1" (initialize_result adapter offer))))
    × ((begin {P = String} initialized initializing).1
        ≡ some (failure "r1" protocol_failure duplicate_request_id))
    × (begin {P = String} initialized closing ≡ (shut, some (success "r3" shutdown_result)))
unfolding begin negotiate select supported_version version_at_least
runs = (refl, refl, refl)

begin-calls_iff_example :
    ((begin {P = String} initialized listing).1 ≡ none) ↔ Admitted initialized listing
begin-calls_iff_example = begin-calls_iff initialized listing

begin-failure_example :
    (initializing.id ≡ initializing.id)
    × (protocol_failure ≡ error_category_for_code duplicate_request_id)
begin-failure_example =
    begin-failure initialized initializing initializing.id protocol_failure duplicate_request_id
      runs.1

begin-closes_iff_example :
    (((initialized.state ≢ closed) × ((begin {P = String} initialized closing).0.state ≡ closed))
      ↔ Closing initialized closing)
    × (Closing initialized closing
        → (begin {P = String} initialized closing).1 ≡ some (success "r3" shutdown_result))
begin-closes_iff_example = begin-closes_iff String initialized closing

-- The dispatcher while the handler runs.
abbrev running : Dispatcher
running = (begin {P = String} initialized listing).0

calls : (begin {P = String} initialized listing).1 ≡ none
unfolding begin
calls = refl

-- The client cancels the request, and the handler raises.
finish-reply_example :
    (finish {P = String} (cancel running "r2") "r2" raised_cancelled).1
    ≡ some (failure "r2" cancelled request_cancelled)
finish-reply_example =
    finish-reply String initialized (cancel running "r2") "r2" inventory
      (next start (cancel_sent "r2")) raised_cancelled calls

negotiate-supported_example :
    (created.state ≡ new)
    × (adapter_protocol_version ≡ adapter_protocol_version)
    × IsIncreasing (map capability_name offer)
    × ((name : String)
        → contains (map capability_name offer) name
          ≡ any (λ r. is_supported created.offered r && name == request_name r) requirements)
    × All (λ (c : AdapterCapability). get created.offered c.name ≡ some c.version) offer
    × All
        (λ (r : CapabilityRequest). r.required ≡ true → is_supported created.offered r ≡ true)
        requirements
negotiate-supported_example =
    negotiate-supported created adapter_protocol_version requirements offer negotiates

-- The session that initializes, and goes on to the call of the handler.
initialized-Session :
    Session String created
      (begin {P = String} (begin {P = String} created initializing).0 listing).0
initialized-Session = next (next start (requested initializing)) (requested listing)

Session-IsWell_example :
    IsWell (begin {P = String} (begin {P = String} created initializing).0 listing).0
Session-IsWell_example =
    Session-IsWell String adapter offer 1 3 created
      (begin {P = String} (begin {P = String} created initializing).0 listing).0 creates
      initialized-Session

within_limit :
    (begin {P = String} initialized listing).1
    ≢ some (failure listing.id protocol_failure session_request_limit)
unfolding begin
within_limit e = absurd (ground arith)

request-once_example : begin {P = String} (begin {P = String} initialized listing).0 listing ≡ (
  (begin {P = String} initialized listing).0,
  some (failure listing.id protocol_failure duplicate_request_id),
)
request-once_example =
    request-once String initialized (begin {P = String} initialized listing).0 listing listing
      within_limit start refl

-- The session that initializes and is shut.
shut-Session : Session String created shut
unfolding begin negotiate select supported_version version_at_least
shut-Session = next (next start (requested initializing)) (requested closing)

closed-forever_example :
    (shut.state ≡ closed)
    × ((begin {P = String} shut listing).1
        ≡ some (failure "r2" protocol_failure session_request_limit))
    × (finish {P = String} shut "r2" (returned "done") ≡ (shut, none))
    × (cancel shut "r2" ≡ shut)
closed-forever_example =
    closed-forever String adapter offer 1 3 created shut shut listing "r2" (returned "done") creates
      shut-Session refl start
