-- ===== src/Adapter/Sample.antt =====
-- A dispatcher that offers one capability, and its session from the first request to the last.
use ucf.Prelude.{true, false, List, [], ◌∷◌}
use ucf.Ir.{Producer}
use ucf.Adapter.Models.{
  AdapterCapability, CapabilityRequest, Request, initialize, operate, shutdown, inventory,
}
use ucf.Adapter.Dispatcher.{Dispatcher, new, ready, closed}

abbrev pub adapter : Producer
adapter = record { name = "adapter"; version = "1.0.0" }

abbrev pub offer : List AdapterCapability
offer = record { name = "org.ucf.adapter.inventory"; version = "1.10.0" } ∷ []

abbrev pub requirements : List CapabilityRequest
requirements =
    record { name = "org.ucf.adapter.inventory"; minimum_version = "1.9.0"; required = true }
    ∷ record { name = "org.ucf.adapter.mapping"; minimum_version = "1.0.0"; required = false }
    ∷ []

abbrev pub initializing : Request
initializing = record { id = "r1"; params = initialize "1.0.0" requirements }

abbrev pub listing : Request
listing = record { id = "r2"; params = operate inventory }

abbrev pub closing : Request
closing = record { id = "r3"; params = shutdown }

abbrev pub created : Dispatcher
created = record {
  adapter = adapter;
  offered = ("org.ucf.adapter.inventory", "1.10.0") ∷ [];
  max_pending = 1;
  max_requests = 3;
  state = new;
  negotiated = [];
  active = [];
  seen_request_ids = [];
}

abbrev pub initialized : Dispatcher
initialized = record created {
  state = ready;
  negotiated = ("org.ucf.adapter.inventory", "1.10.0") ∷ [];
  seen_request_ids = "r1" ∷ [];
}

abbrev pub shut : Dispatcher
shut = record initialized { state = closed; seen_request_ids = "r3" ∷ "r1" ∷ [] }
