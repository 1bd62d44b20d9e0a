-- ===== src/Tests/Events.antt =====
-- The events of backend/core/events/: the dispatcher and the delivery worker.
use community_overview.Base.{
  ℕ, ◌≡◌, refl, String, true, false, Option, none, some, List, [], ◌∷◌, All,
}
use community_overview.Json.{ℤ, Json, text}
use community_overview.Event.Models.{Event, node_create, node}
use community_overview.Event.Url.{Address, Net}
use community_overview.Event.Redirect.{Web, answered, get, follow}
use community_overview.Event.Redirect.Safety.{follow-get}
use community_overview.Event.Delivery.{DeliveryItem, DeliveryWorker, deliver}
use community_overview.Event.Delivery.Attempt.{AllChecked, deliver-AllChecked}
use community_overview.Event.Subscriptions.{Subscription, Node}
use community_overview.Event.Dispatcher.{
  Callbacks, declined, EventDispatcher, cached, load_subscriptions, dispatch,
}
use community_overview.Event.Dispatcher.Calls.{IsDue, dispatch-IsDue}

abbrev public_address : Address
public_address = record {
  version = 4;
  in_cgnat = false;
  is_private = false;
  is_loopback = false;
  is_link_local = false;
  is_multicast = false;
  is_reserved = false;
}

abbrev net : Net
net = record {
  urlparse = λ s. some (record { scheme = "https"; hostname = some "example.org" });
  ip_address = λ s. some public_address;
  getaddrinfo = λ s. some ("203.0.113.9" ∷ []);
}

-- Each request is redirected once more.
abbrev web : Web
web = record {
  send = λ i r. answered (record { status_code = 302; is_redirect = true; location = "/next" });
  net = λ i. net;
  urljoin = λ url location. some "https://example.org/next";
}

-- The server is out of order.
abbrev broken_web : Web
broken_web = record {
  send = λ i r. answered (record { status_code = 503; is_redirect = false; location = "" });
  net = λ i. net;
  urljoin = λ url location. some "https://example.org/next";
}

abbrev event : Event
event = record {
  event_id = "e1";
  schema_version = "1.0";
  event_type = node_create;
  occurred_at = "t";
  origin = record {
    event_origin = some "web-ui";
    event_session_id = none;
    event_correlation_id = none;
  };
  entity = record {
    kind = node;
    id = "n1";
    type = "Actor";
    before = none;
    after = some (("name", text "Town") ∷ []);
    patch = none;
  };
  subscription = none;
}

abbrev hook : String
hook = "https://example.org/hook"

abbrev worker : DeliveryWorker
worker = record {
  queue = [];
  max_attempts = 3;
  backoff_times = 5 ∷ 20 ∷ 50 ∷ [];
  has_callback = true;
  running = true;
}

abbrev item : DeliveryItem
item = record { event = event; webhook_url = hook; attempt = 1 }

deliver-AllChecked_example : AllChecked net web (deliver net web item worker).0.requests
deliver-AllChecked_example = deliver-AllChecked net web item worker

follow-get_example : All (λ r. r.method ≡ get) (follow web 10 1 get hook).0
follow-get_example = follow-get web 10 1 get hook refl

abbrev nets : ℕ → Net
nets j = net

abbrev webs : ℕ → Web
webs j = broken_web

abbrev lower : String → String
lower s = s

abbrev int_of_text : String → Option ℤ
int_of_text s = none

abbrev int_field : Json → Option (Option ℤ)
int_field v = some none

abbrev subscription : Subscription
subscription = record {
  id = "sub";
  name = "Hook";
  filters = record {
    target = record { entity_kind = node; node_types = []; relationship_types = [] };
    operations = "create" ∷ [];
    keywords = "Town" ∷ [];
    federation = record { scope = "local_only"; include_graph_ids = []; max_distance = none };
  };
  delivery = record { webhook_url = hook; ignore_origins = "mcp" ∷ []; ignore_session_ids = [] };
}

abbrev dispatcher : EventDispatcher
dispatcher = record {
  subscriptions_cache = some (subscription ∷ []);
  cache_time = some 100;
  cache_ttl = 30000000;
}

abbrev callbacks : Callbacks
callbacks = record { on_deliver = some (λ e url. true); on_agent_deliver = some (λ e id. declined) }

abbrev nodes : List Node
nodes = []

loaded :
    (load_subscriptions lower int_of_text int_field 200 nodes dispatcher).0
    ≡ some (subscription ∷ [])
unfolding load_subscriptions cached
loaded = refl

dispatch-IsDue_example :
    All
      (IsDue lower int_of_text event (subscription ∷ []))
      (dispatch lower int_of_text int_field 200 nodes callbacks event dispatcher).0
dispatch-IsDue_example =
    dispatch-IsDue lower int_of_text int_field 200 nodes callbacks event dispatcher
      (subscription ∷ []) loaded
