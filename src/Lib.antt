-- ===== src/Lib.antt =====
-- CommunityOverview: the server's graph, its collaboration core and its event delivery.
--
-- The program keeps a graph of a community, lets groups of users look at it in shared sessions, and
-- tells subscribers of what changes in it. Modelled here are
--   the session store, backend/core/session_store.py: sessions, the ops that change them, the ring
--     of recent ops, and how sessions are saved and loaded;
--   the hub, backend/core/session_hub.py: the event bus, the roster of who is present, and the
--     claims on elements;
--   the session registry, backend/core/session_registry.py: the queues by which tools push commands to
--     a browser;
--   the session manager, backend/core/session_manager.py: rate limits, batches of ops with their
--     rollback, connections and catching up, all of which use the store and the hub;
--   the graph's storage, backend/core/storage.py: nodes and edges, kept in two dicts and a multigraph,
--     the methods that change them, the search and traversal of backend/core/storage_search.py, and
--     the history of backend/core/history_store.py;
--   the events, backend/core/events/: their models, the dispatcher that matches an event against the
--     subscriptions of the graph, and the worker that posts it to a webhook.
--
-- Files.
--   Base, Base/*: names, equality tests, lists and association lists (a Python dict is a list of
--     pairs in insertion order; a missing key is `none`).
--   Json: the values that requests and session files hold.
--   Session/Ids: `SESSION_ID_RE`. Session/State: `Session`. Session/Ops: the decoding and validation
--     of an op. Session/Perform: the branches of `SessionStore.apply_state_op`; Session/Apply: the
--     whole of it; Session/Apply/Content: which ops rewrite an annotation in place. Session/Ring:
--     `ops_since`; Session/Ring/Newest: what a bounded ring keeps. Session/Saved: `to_dict`, `from_dict`, `meta`.
--     Session/Store: `SessionStore` over a `Backend`; Session/Store/Memory: the in-memory backend.
--   Session/Bus, Session/Presence, Session/Claims: `InProcessEventBus`, `PresenceRegistry`, `ClaimMap`.
--   Session/Bucket: `_TokenBucket`. Session/Batch: the loop of `SessionManager.apply_ops` and its
--     rollback. Session/Manager: the manager's other methods. Session/Submit: `apply_ops` and
--     `rename_session`.
--   Session/Registry: `SessionRegistry` of backend/core/session_registry.py.
--   Event/Models: the pydantic models. Event/Url: `is_safe_url`. Event/Redirect and Event/Delivery:
--     `DeliveryWorker`. Event/Subscriptions, Event/Matching, Event/Dispatcher: `EventDispatcher`.
--   Text: prefixes, infixes and joins of texts.
--   Graph/Models: `Node`, `Edge`. Graph/Multigraph: what is used of `networkx.MultiDiGraph`, with the
--     laws that its documentation gives; Graph/Multigraph/Listed: an instance that has the laws.
--     Graph/Storage: the state of `GraphStorage`, its reads, `save`, emissions. Graph/Insertion:
--     `add_nodes`, `add_edge`. Graph/Change: `update_node`, `update_edge`. Graph/Deletion:
--     `delete_nodes`, `delete_edge`, `delete_edges`. Graph/Score: `build_searchable_text`,
--     `score_node_match`. Graph/Search: `search_nodes`. Graph/Related: `get_related_nodes`.
--     Graph/Integrity: what the methods keep of the storage and do to it. Graph/History:
--     `GraphHistoryStore`.
--   Tests: each theorem at a concrete input.
--
-- How state is modelled. An object's fields are a record, and a method takes the record and returns
-- it with the method's result. Annotations, which a session's state and its ring share and which ops
-- change in place, are entries of a heap in the session: an entry of the ring names its annotation,
-- and a rollback gives the ring its entries but not the named annotations what they held. A
-- subscription, which the bus and a consumer share, is an entry of a heap in the bus. An `Edge`,
-- which the storage's dict and the multigraph share, is an entry of a heap in the storage. Clock
-- readings, random ids, the state of event loops, what the disk holds, and the answers of the web and
-- of the name resolver are arguments. A synchronous method, and the stretch of code under a lock, is
-- one step.
--
-- Bounds. The loop over redirects has the source's ten rounds. Rounds of the delivery worker's loop
-- are counted: a round makes one attempt, so as many rounds as attempts empty the queue of an event.
--
-- Numbers. The native natural numbers stand for Python's ints where these are never negative. The
-- token bucket counts in shares of a token and ticks of the clock, where the source has floats, so
-- it does not round. A JSON number is a multiple of 2^-1074, as every finite double is.
--
-- Not modelled: the interleaving of coroutines between two steps and the locks themselves, the text
-- of error messages and logs, the order of `list_meta`, the files of `FileSessionPersistenceBackend`,
-- the time stamps of a delivery result, the reload of the graph from its file, embeddings and
-- similarity, how a mutation becomes an event and a history record, and the rest of the program: the
-- REST and MCP services, federation, agents, language models, access control, the frontend.
-- `networkx` is a parameter with the laws of its documentation. `str.lower`, `int` of a text, the
-- digits of `\d`, `urllib.parse`, `ipaddress`, `httpx` and pydantic's conversion to int are arguments.
pub mod Base
pub mod Event
pub mod Graph
pub mod Json
pub mod Session
pub mod Tests
pub mod Text
