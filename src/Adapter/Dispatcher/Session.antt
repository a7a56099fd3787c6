-- ===== src/Adapter/Dispatcher/Session.antt =====
-- What stays true of the dispatcher of src/ucf/adapter_protocol/dispatcher.py, whatever requests, handler
-- returns and cancellations come, and in whatever order.
use ucf.Prelude.Dict.{get, has, put, pop}
use ucf.Prelude.{
  ℕ, suc, ◌≤◌, ◌<◌, String, ◌≡◌, refl, true, false, not, ◌&&◌, ◌||◌, some, List, [], ◌∷◌, Eq, ◌==◌,
  nat_eq, string_eq, length, leb, contains, IsUnique, ok, arith, Bool-cases, Option-cases, inl, inr,
  subst,
}
use ucf.Ir.{Producer}
use ucf.Adapter.Models.{
  CapabilityRequest, AdapterCapability, RequestParams, initialize, operate, shutdown, Request,
}
use ucf.Adapter.Dispatcher.{
  is_ready, is_shutdown, Dispatcher, create, initialize_session, start_operation, shutdown_session,
  perform, begin, HandlerOutcome, finish, cancel,
}

-- The next state after one event.
pub data Step (P : Type 0) : Dispatcher → Dispatcher → Type 0 where
  requested : {d : Dispatcher} (request : Request) → Step P d (begin {P = P} d request).0
  finished :
      {d : Dispatcher} (id : String) (outcome : HandlerOutcome P) → Step P d (finish d id outcome).0
  cancel_sent : {d : Dispatcher} (id : String) → Step P d (cancel d id)

-- The states that a dispatcher reaches from a given one.
pub data Session (P : Type 0) (first : Dispatcher) : Dispatcher → Type 0 where
  start : Session P first first
  next : {d d' : Dispatcher} → Session P first d → Step P d d' → Session P first d'

module _ {ℓ κ} {K : Type ℓ} {V : Type κ} ⦃e : Eq K⦄ where
  length-put-le : (k : K) (v : V) (d : List (K × V)) → length (put k v d) ≤ suc (length d)
  length-put-le k v [] = omega arith
  length-put-le k v ((j, w) ∷ d) = ground (arith, length-put-le k v d)

  -- A key that is there keeps its place.
  length-put_old :
      (k : K) (v : V) (d : List (K × V)) → has d k ≡ true → length (put k v d) ≡ length d
  length-put_old k v [] h = absurd (ground arith)
  length-put_old k v ((j, w) ∷ d) h = ground (arith, length-put_old k v d)

  length-pop-le : (k : K) (d : List (K × V)) → length (pop k d) ≤ length d
  length-pop-le k [] = omega arith
  length-pop-le k ((j, w) ∷ d) = ground (arith, length-pop-le k d)

  get-has : (k : K) (d : List (K × V)) (v : V) → get d k ≡ some v → has d k ≡ true
  get-has k [] v h = absurd (ground arith)
  get-has k ((j, w) ∷ d) v h = ground (arith, get-has k d v)

-- Request ids are used once and within the limit of the session; no more requests are pending than
-- may be; and only a ready session has pending requests.
pub record IsWell (d : Dispatcher) : Type 0 where
  pub unique_ids : IsUnique d.seen_request_ids
  pub within : length d.seen_request_ids ≤ d.max_requests
  pub room : length d.active ≤ d.max_pending
  pub idle : is_ready d.state ≡ false → length d.active ≡ 0

create-IsWell :
    (adapter : Producer) (offered : List AdapterCapability) (max_pending max_requests : ℕ)
    (d : Dispatcher)
    → create adapter offered max_pending max_requests ≡ ok d
    → IsWell d
unfolding create
create-IsWell adapter offered max_pending max_requests d e = record {
  unique_ids = rw (same d e) tt;
  within = ground arith;
  room = ground arith;
  idle = λ _. ground arith;
}
  where
    same :
        (d : Dispatcher)
        → create adapter offered max_pending max_requests ≡ ok d
        → d.seen_request_ids ≡ []
    same d e = ground arith

-- A step that records no request.
carry :
    (d d' : Dispatcher)
    → IsWell d
    → d.seen_request_ids ≡ d'.seen_request_ids
    → length d'.seen_request_ids ≤ d'.max_requests
    → length d'.active ≤ d'.max_pending
    → (is_ready d'.state ≡ false → length d'.active ≡ 0)
    → IsWell d'
carry d d' w same within room idle = record {
  unique_ids = subst IsUnique same w.unique_ids;
  within = within;
  room = room;
  idle = idle;
}

-- Recording a fresh request within the limit.
admit-IsWell :
    (d : Dispatcher) (id : String)
    → contains d.seen_request_ids id ≡ false
    → length d.seen_request_ids < d.max_requests
    → IsWell d
    → IsWell (record d { seen_request_ids = id ∷ d.seen_request_ids })
admit-IsWell d id fresh below w = record {
  unique_ids = (fresh, w.unique_ids);
  within = below;
  room = w.room;
  idle = w.idle;
}

module _ (P : Type 0) where
  initialize-IsWell :
      (d : Dispatcher) (id version : String) (capabilities : List CapabilityRequest)
      → IsWell d
      → IsWell (initialize_session {P = P} d id version capabilities).0
  unfolding initialize_session
  initialize-IsWell d id version capabilities w =
      carry d (initialize_session {P = P} d id version capabilities).0 w (ground arith)
        (ground (arith, w.within)) (ground (arith, w.room)) (λ n. ground (arith, w.idle))

  perform-IsWell :
      (d : Dispatcher) (id : String) (params : RequestParams)
      → IsWell d
      → IsWell (perform {P = P} d id params).0
  unfolding perform
  perform-IsWell d id (initialize version capabilities) w =
      initialize-IsWell d id version capabilities w
  perform-IsWell d id (operate operation) w =
      carry d (start_operation {P = P} d id operation).0 w (ground arith) (ground (arith, w.within))
        (ground (
          arith,
          w.room,
          length-put-le id (record { operation = operation; is_cancelled = false }) d.active,
        ))
        (λ n. ground (arith, w.idle))
  perform-IsWell d id shutdown w =
      carry d (shutdown_session {P = P} d id).0 w (ground arith) (ground (arith, w.within))
        (ground (arith, w.room)) (λ n. ground (arith, w.idle))

  begin-IsWell :
      (d : Dispatcher) (request : Request) → IsWell d → IsWell (begin {P = P} d request).0
  unfolding begin
  begin-IsWell d request w = elim (Bool-cases (contains d.seen_request_ids request.id)) [
    | inl seen ↦ rw seen w
    | inr fresh ↦
        elim (Bool-cases (
          leb d.max_requests (length d.seen_request_ids)
          || (suc (length d.seen_request_ids) == d.max_requests
              && not (is_shutdown request.params)))) [
                | inl full ↦ rw (fresh, full) w
                | inr below ↦
                    rw (fresh, below)
                      (perform-IsWell
                        (record d { seen_request_ids = request.id ∷ d.seen_request_ids }) request.id
                        request.params (admit-IsWell d request.id fresh (ground arith) w))
              ]
  ]

  finish-IsWell :
      (d : Dispatcher) (id : String) (outcome : HandlerOutcome P)
      → IsWell d
      → IsWell (finish d id outcome).0
  unfolding finish
  finish-IsWell d id outcome w =
      carry d (finish d id outcome).0 w (ground arith) (ground (arith, w.within))
        (ground (arith, w.room, length-pop-le id d.active))
        (λ n. ground (arith, w.idle, length-pop-le id d.active))

length-cancel : (d : Dispatcher) (id : String) → length (cancel d id).active ≡ length d.active
unfolding cancel
length-cancel d id = elim (Option-cases (get d.active id)) [
  | inl missing ↦ rw (cancel, missing) refl
  | inr (active, found) ↦
      rw (cancel, found)
        (length-put_old id (record active { is_cancelled = true }) d.active
          (get-has id d.active active found))
]

cancel-IsWell : (d : Dispatcher) (id : String) → IsWell d → IsWell (cancel d id)
unfolding cancel
cancel-IsWell d id w =
    carry d (cancel d id) w (ground arith) (ground (arith, w.within))
      (ground (arith, w.room, length-cancel d id)) (λ n. ground (arith, w.idle, length-cancel d id))

Step-IsWell : (P : Type 0) (d d' : Dispatcher) → Step P d d' → IsWell d → IsWell d'
Step-IsWell P d _ (requested request) w = begin-IsWell P d request w
Step-IsWell P d _ (finished id outcome) w = finish-IsWell P d id outcome w
Step-IsWell P d _ (cancel_sent id) w = cancel-IsWell d id w

pub Session-IsWell_from :
    (P : Type 0) (first d : Dispatcher) → Session P first d → IsWell first → IsWell d
Session-IsWell_from P first _ start w = w
Session-IsWell_from P first _ (next {d = d} {d' = d'} session step) w =
    Step-IsWell P d d' step (Session-IsWell_from P first d session w)

-- In each state that a newly created dispatcher reaches, no request id was recorded twice, no more
-- requests were recorded than the session allows, no more are pending than may be, and requests are
-- pending only while the session is ready.
pub Session-IsWell :
    (P : Type 0) (adapter : Producer) (offered : List AdapterCapability)
    (max_pending max_requests : ℕ) (first d : Dispatcher)
    → create adapter offered max_pending max_requests ≡ ok first
    → Session P first d
    → IsWell d
Session-IsWell P adapter offered max_pending max_requests first d created session =
    Session-IsWell_from P first d session
      (create-IsWell adapter offered max_pending max_requests first created)
