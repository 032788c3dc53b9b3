-- ===== src/Shared/Membership.antt =====
-- internal/shared/membership: the servers in Redis (registry.go), and the watcher that puts them on
-- the ring (watcher.go). What Redis answers to the calls of SCAN in one round is a parameter.
pub mod Watching
pub mod Joining
pub mod Registering
use Prim.Native.String.{◌++◌ as text_append}
use go_chat_msa.Common.{
  ℕ, ◌+◌, ◌&&◌, not, String, Bool, true, false, Option, none, some, List, [], ◌∷◌, ◌++◌, ltb, ◌==◌,
  str_eq, if◌then◌else◌, find, put, remove, length, map, int_32, slt_32,
}
use go_chat_msa.Common.Sets.{contains, sort, fresh, trim_prefix}
use go_chat_msa.Shared.Keyspace.{Keys, get, set_ex}
use go_chat_msa.WsGateway.Ring
use go_chat_msa.WsGateway.Ring.{Consistent}

pub record Registry : Type 0 where
  pub key_prefix : String
  pub addr : String
  pub token : String
  pub ttl : ℕ

abbrev pub key : Registry → String
key r = text_append r.key_prefix r.addr

-- SET with a time to live.
unfoldable pub refresh : Registry → ℕ → Keys → Keys
refresh r now db = set_ex now (key r) r.token r.ttl db

-- compareAndDeleteScript.
unfoldable pub compare_and_delete_script : ℕ → String → String → Keys → Keys
compare_and_delete_script now k token db = elim (get now k db) [
  | none ↦ db
  | some value ↦ if str_eq value token then remove k db else db
]

unfoldable pub deregister : Registry → ℕ → Keys → Keys
deregister r now db = compare_and_delete_script now (key r) r.token db

-- The answers to SCAN, from cursor 0 on: an error, the last page (with cursor 0), or a page with
-- more to come.
pub data Scan : Type 0 where
  scan_error : Scan
  last : List String → Scan
  page : List String → Scan → Scan

unfoldable pub dedupe_member_keys : List String → String → List String
dedupe_member_keys keys prefix = sort (fresh [] (map (λ k. trim_prefix k prefix) keys))

unfoldable pub collect : List String → Scan → Option (List String)
collect collected scan_error = none
collect collected (last keys) = some (collected ++ keys)
collect collected (page keys more) = collect (collected ++ keys) more

unfoldable pub scan_members : String → Scan → Option (List String)
scan_members prefix answers = elim (collect [] answers) [
  | none ↦ none
  | some keys ↦ some (dedupe_member_keys keys prefix)
]

-- toSet: the keys of the map.
abbrev pub to_set : List String → List String
to_set addrs = fresh [] addrs

abbrev pub all_in : List String → List String → Bool
all_in known [] = true
all_in known (a ∷ rest) = contains a known && all_in known rest

-- membershipChanged, for lastAddrs and the new addresses: whether lastAddrs is set to them.
unfoldable pub membership_changed : List String → List String → Bool
membership_changed last_addrs addrs =
    not (length addrs == length last_addrs && all_in last_addrs addrs)

pub data Outcome : Type 0 where
  ok empty_skipped failed : Outcome

module _ (lib : Consistent) where
  -- The channels forceCh and events hold one element at most. `ring` is the RingUpdater.
  pub record Watcher : Type 0 where
    pub key_prefix : String
    pub ring : lib.Carrier
    pub force_ch : Bool
    pub events : Bool
    pub last_addrs : List String
    pub last_member_count : ℕ

  unfoldable pub new_watcher : String → lib.Carrier → Watcher
  new_watcher prefix ring = record {
    key_prefix = prefix;
    ring = ring;
    force_ch = false;
    events = false;
    last_addrs = [];
    last_member_count = 0;
  }

  unfoldable pub has_observed_members : Watcher → Bool
  has_observed_members w = slt_32 0 w.last_member_count

  unfoldable pub force_reconcile : Watcher → Watcher
  force_reconcile w = record w { force_ch = true }

  unfoldable pub notify : Watcher → Watcher
  notify w = record w { events = true }

  -- The end of reconcile, with the members that were found.
  unfoldable pub apply_members : List String → Watcher → Watcher × Outcome
  apply_members addrs w =
      let counted = record w { last_member_count = int_32 (length addrs) } in
      if length addrs == 0 && not (length w.last_addrs == 0) then (counted, empty_skipped) else (
        record counted {
          ring = Ring.set lib addrs w.ring;
          last_addrs = if membership_changed w.last_addrs addrs then to_set addrs else w.last_addrs;
        },
        ok,
      )

  unfoldable pub reconcile : Scan → Watcher → Watcher × Outcome
  reconcile answers w = elim (scan_members w.key_prefix answers) [
    | none ↦ (w, failed)
    | some addrs ↦ apply_members addrs w
  ]

  abbrev pub announce : Outcome → Watcher → Watcher
  announce ok w = notify w
  announce empty_skipped w = w
  announce failed w = w

  unfoldable pub run_reconcile : Scan → Watcher → Watcher
  run_reconcile answers w = let (w', outcome) = reconcile answers w in announce outcome w'

  -- What happens to a watcher: Run's first reconcile; a keyspace message or a tick; a request of
  -- ForceReconcile that it takes from forceCh; a caller of ForceReconcile; a reader of Events.
  pub data Event : Type 0 where
    starts woken forced : Scan → Event
    force : Event
    reads : Event

  unfoldable pub step : Event → Watcher → Watcher
  step (starts answers) w = (reconcile answers w).0
  step (woken answers) w = run_reconcile answers w
  step (forced answers) w =
      if w.force_ch then run_reconcile answers (record w { force_ch = false }) else w
  step force w = force_reconcile w
  step reads w = record w { events = false }

  unfoldable pub run : List Event → Watcher → Watcher
  run [] w = w
  run (e ∷ es) w = run es (step e w)
