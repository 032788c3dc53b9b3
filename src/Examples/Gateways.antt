-- ===== src/Examples/Gateways.antt =====
-- A ring of two servers, the tickets of a user, and a connection to a room.
use go_chat_msa.Common.{
  ℕ, ◌≡◌, ◌≢◌, ◌≤◌, ◌+◌, ◌⊎◌, refl, String, true, false, not, Option, none, some, List, [], ◌∷◌,
  keep, str_eq, str_eq_refl, find, put, remove, arith, if◌then◌else◌,
}
use go_chat_msa.Common.Sets.{contains, sort, insert, fresh, trim_prefix, strip}
use go_chat_msa.User.Db.{Db, RoomRow}
use go_chat_msa.User.Rooms.{Env}
use go_chat_msa.User.Rooms.Joining
use go_chat_msa.User.Tx.{ok}
use go_chat_msa.Shared.Middleware.{UserClaims, Libraries, Request, verify_jwt}
use go_chat_msa.Shared.Membership.{
  Registry, Scan, Event, Watcher, key, collect, scan_members, dedupe_member_keys,
  membership_changed, apply_members, reconcile, run_reconcile, new_watcher, run, step,
}
use go_chat_msa.Shared.Membership.Watching.{never_emptied}
use go_chat_msa.Shared.Membership.Joining.{registered_joins_ring}
use go_chat_msa.WsGateway.Ring
use go_chat_msa.WsGateway.Ring.{Consistent, Documented, normalize_members}
use go_chat_msa.WsGateway.Ring.Members.{contains-keep, members-set}
use go_chat_msa.WsGateway.Handlers.{Config, Input, Gateway, Upstream, Route, post_ticket, get_ws}
use go_chat_msa.WsGateway.Tickets.Held.{held}
use go_chat_msa.WsGateway.Admitted.{sent, asked, serve_all, connections_paid}
use go_chat_msa.Websocket.Lease.{Store, delivered, acquire, acquire_lua}
use go_chat_msa.Websocket.SequenceFloor
use go_chat_msa.Websocket.Hub.{new_hub}
use go_chat_msa.Websocket.Hub.Start.{initialize_sequence}
use go_chat_msa.Websocket.Manager.{Front, Outside, get_or_create, create_hub}
use go_chat_msa.Websocket.Manager.Registration.{
  overtaken, commits, cancels, Effects, call_all, call, cancel, commit,
}
use go_chat_msa.Websocket.Front.{
  Upgrade, answered, serve_web_socket, serve_member, prepare_register, after_prepare,
  upgrade_registered, registration_calls,
}
use go_chat_msa.Websocket.Front.Served.{
  MemberOf, OneOrOvertaken, registration_settled, connected_member,
}
use go_chat_msa.Examples.Hubs.{Cache, lru}

abbrev first : List String → Option String
first [] = none
first (m ∷ ms) = some m

-- A ring on which the first member has every key.
abbrev pub ring : Consistent
ring = record {
  Carrier = List String;
  empty = [];
  add = λ a c. a ∷ c;
  remove = λ a c. keep (λ y. not (str_eq a y)) c;
  members = λ c. c;
  locate_key = λ k c. first c;
}

first_member : (x : String) (c : List String) → first c ≡ some x → contains x c ≡ true
first_member x [] e = absurd (ground (arith, e))
first_member x (y ∷ ys) e = ground (arith, e, str_eq_refl x)

no_member : (c : List String) → first c ≡ none → c ≡ []
no_member [] e = refl
no_member (y ∷ ys) e = absurd (ground (arith, e))

ring-Documented : Documented ring
ring-Documented = record {
  members-empty = refl;
  members-add = λ x a c. refl;
  members-remove = λ x a c. contains-keep (λ y. not (str_eq a y)) x c;
  located = λ k x c. first_member x c;
  unlocated = λ k c. no_member c;
}

members-set_example : contains "b" (Ring.set ring ("b" ∷ "a" ∷ "b" ∷ []) ("c" ∷ "a" ∷ [])) ≡ true
members-set_example = members-set ring ring-Documented "b" ("b" ∷ "a" ∷ "b" ∷ []) ("c" ∷ "a" ∷ [])

-- A server is found, and the next scan finds none.
abbrev found : List (Event ring)
found = Event.starts (Scan.page [] (Scan.last ("ws:a" ∷ []))) ∷ []

abbrev lost : List (Event ring)
lost = Event.woken (Scan.last []) ∷ Event.force ∷ Event.forced Scan.scan_error ∷ []

abbrev before : Watcher ring
before = run ring found (new_watcher ring "ws:" (Ring.new ring []))

before_ring : before.ring ≡ "a" ∷ []
unfolding run step reconcile scan_members collect dedupe_member_keys sort insert fresh trim_prefix
    strip apply_members membership_changed new_watcher Ring.new Ring.add_all Ring.normalize_members
    Ring.set Ring.add_missing Ring.remove_all
before_ring = refl

before_found : before.ring ≢ []
before_found e = ground (arith, before_ring, e)

never_emptied_example : (run ring lost before).ring ≢ []
never_emptied_example = never_emptied ring ring-Documented "ws:" found lost before_found

abbrev server : Registry
server = record { key_prefix = "ws:"; addr = "a:1"; token = "t"; ttl = 30 }

registered_joins_ring_example :
    let after = run_reconcile ring (Scan.last (key server ∷ [])) (new_watcher ring "ws:" []) in
    (contains "a:1" after.ring ≡ true) × (after.events ≡ true)
unfolding collect new_watcher
registered_joins_ring_example =
    registered_joins_ring ring ring-Documented server (Scan.last (key server ∷ []))
      (key server ∷ []) (new_watcher ring "ws:" []) refl refl refl

abbrev pub claims : UserClaims
claims = record { subject = "u1"; username = "ann" }

abbrev pub libs : Libraries
libs = record {
  parse_with_claims = λ token secret methods. some (claims, true);
  allow = λ key. some 1;
  split_host_port = λ addr. some addr;
  trim_space = λ s. s;
}

abbrev config : Config
config = record { jwt_secret = "k"; internal_secret = "s"; ticket_ttl = 30; parses = λ addr. true }

abbrev input : Input
input = record {
  now = 5;
  net = delivered;
  uuid = "x";
  ticket = "x";
  room_id = "r";
  is_delete = false;
  upstream = Upstream.answered 101;
}

abbrev request : Request Input
request = record {
  authorization = "Bearer t";
  internal_secret = "";
  forwarded_for = "";
  remote_addr = "10.0.0.9";
  claims = none;
  input = input;
}

-- One ticket, and two connections with it.
abbrev requests : List (Route × Request Input)
requests = (post_ticket, request) ∷ (get_ws, request) ∷ (get_ws, request) ∷ []

abbrev gateway : Gateway ring
gateway = record { keys = []; watcher = before; proxies = []; passed = [] }

connections_paid_example :
    let after = serve_all ring libs config "u1" requests gateway in
    sent "u1" after.passed + held "u1" after.keys ≤ asked ring libs config "u1" requests
unfolding sent held asked verify_jwt
connections_paid_example = connections_paid ring libs config "u1" requests gateway

abbrev store : Store
store = record { key_prefix = "lease:"; owner_addr = "a"; ttl = 15000 }

abbrev front : Front Cache
front = record {
  hubs = [];
  manager = record { leases = []; release_calls = []; floor_calls = [] };
  waiters = [];
  next = 0;
  redis = [];
}

abbrev outside : Outside
outside = record {
  now = 0;
  token = "t1";
  net = delivered;
  release_net = delivered;
  stored = SequenceFloor.ok 41;
}

-- A connection whose request is over after the hub took the user.
abbrev upgrade : Upgrade
upgrade = record {
  user_id = "u1";
  room_id = "r";
  sending = answered;
  outside = outside;
  upgrade_error = none;
  registering = overtaken;
}

abbrev effects : Effects
effects = call_all (commits overtaken ∷ cancels ∷ []) (record {
  registration = record { room_id = "r"; hub = 0; created = true; done = false };
  registered = 0;
  cancelled = 0;
})

registration_settled_example : OneOrOvertaken overtaken effects
unfolding serve_web_socket serve_member prepare_register get_or_create create_hub
    initialize_sequence new_hub acquire acquire_lua find put remove Ring.locate after_prepare
    upgrade_registered registration_calls call_all call cancel commit
registration_settled_example =
    registration_settled lru store 2000 true ring (λ room_id user_id. ok tt) "a" ("a" ∷ []) upgrade
      front effects refl refl

abbrev parse : String → Option ℕ
parse s = if str_eq s "r" then some 7 else if str_eq s "u1" then some 1 else none

abbrev pub env : Env
env = record {
  parse = parse;
  new_id = none;
  now = 200;
  fault = λ n. false;
  begins = true;
  commits = true;
  max_name_length = 50;
  max_capacity = 100;
}

abbrev room : RoomRow
room = record { id = 7; name = "room"; manager_id = some 1; capacity = 5; created_at = 0 }

abbrev pub db : Db
db = record {
  users = [];
  rooms = room ∷ [];
  members = record { user_id = 1; room_id = 7; joined_at = 3 } ∷ [];
}

connected_member_example :
    let served =
      serve_web_socket lru store 2000 true ring
        (λ room_id user_id. Joining.verify_room_member env room_id user_id db)
        "a"
        ("a" ∷ [])
        upgrade
        front in
    ((served.0 ≡ front) × (served.1.effects ≡ none))
    ⊎ (MemberOf env "r" "u1" db × (Ring.locate ring "r" ("a" ∷ []) ≡ "a"))
connected_member_example =
    connected_member lru store 2000 true ring env db "a" ("a" ∷ []) upgrade front
