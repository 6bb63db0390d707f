-- ===== src/Store/Keeping/Reads.antt =====
-- The calls that only read.
use liveurl.Prelude.{Option, Text, none, some, ℕ}
use liveurl.Store.{EventState}
use liveurl.Store.Users.{Crypto, user_by_token, verify_password}
use liveurl.Store.Events.{event_by_id, list_events}
use liveurl.Store.Snapshots.{get_snapshot, snapshot_stats}
use liveurl.Store.Tunnels.{list_tunnels, tunnel_by_id, tunnel_by_subdomain}
use liveurl.Store.Keeping.Evolution.{DbKeeps, reads-Evolves}

pub get_snapshot-Keeps : (t : ℕ) (path query : Text) → DbKeeps (get_snapshot t path query)
unfolding get_snapshot
get_snapshot-Keeps t path query = reads-Evolves _

pub snapshot_stats-Keeps : (t : ℕ) → DbKeeps (snapshot_stats t)
unfolding snapshot_stats
snapshot_stats-Keeps t = reads-Evolves _

pub tunnel_by_subdomain-Keeps : (s : Text) → DbKeeps (tunnel_by_subdomain s)
unfolding tunnel_by_subdomain
tunnel_by_subdomain-Keeps s = reads-Evolves _

pub tunnel_by_id-Keeps : (i : ℕ) → DbKeeps (tunnel_by_id i)
unfolding tunnel_by_id
tunnel_by_id-Keeps i = reads-Evolves _

pub list_tunnels-Keeps : (u : ℕ) → DbKeeps (list_tunnels u)
unfolding list_tunnels
list_tunnels-Keeps u = reads-Evolves _

pub list_events-Keeps : (t : ℕ) (o : Option EventState) → DbKeeps (list_events t o)
unfolding list_events
list_events-Keeps t none = reads-Evolves _
list_events-Keeps t (some s) = reads-Evolves _

pub event_by_id-Keeps : (i : ℕ) → DbKeeps (event_by_id i)
unfolding event_by_id
event_by_id-Keeps i = reads-Evolves _

pub verify_password-Keeps :
    (crypto : Crypto) (email password : Text) → DbKeeps (verify_password crypto email password)
unfolding verify_password
verify_password-Keeps crypto email password = reads-Evolves _

pub user_by_token-Keeps : (crypto : Crypto) (token : Text) → DbKeeps (user_by_token crypto token)
unfolding user_by_token
user_by_token-Keeps crypto token = reads-Evolves _
