-- ===== src/Store/Tunnels.antt =====
-- internal/store/tunnels.go: which account owns which subdomain.
pub mod Owner
use liveurl.Prelude.{
  Bool, List, Option, Text, [], any, false, find_where, if◌then◌else◌, keep, leb, none, not,
  order_by, some, text_eq, true, update_where, ℕ, ◌++◌, ◌+◌, ◌==◌, ◌∷◌,
}
use liveurl.Store.{
  Db, Done, Exec, Result, Tunnel, database, err, not_found, ok, pure, raise, statement,
  subdomain_taken, ◌>>=◌, ◌>>◌,
}

abbrev pub has_subdomain : Text → Tunnel → Bool
has_subdomain s t = text_eq t.subdomain s

abbrev pub has_tunnel_id : ℕ → Tunnel → Bool
has_tunnel_id i t = t.id == i

-- FOREIGN KEY … REFERENCES tunnels(id)
abbrev pub has_tunnel : ℕ → Db → Bool
has_tunnel i db = any (has_tunnel_id i) db.tunnels

abbrev pub of_user : ℕ → Tunnel → Bool
of_user u t = t.user_id == u

-- INSERT INTO tunnels: the subdomain is unique.
abbrev pub insert_tunnel : ℕ → Text → List Text → Bool → Db → Result Tunnel × Db
insert_tunnel user_id subdomain rules true db =
    (err database, record db { next_tunnel = db.next_tunnel + 1 })
insert_tunnel user_id subdomain rules false db =
    let t : Tunnel = record {
      id = db.next_tunnel;
      user_id = user_id;
      subdomain = subdomain;
      buffer_rules = rules;
    } in
    (ok t, record db { tunnels = db.tunnels ++ t ∷ []; next_tunnel = db.next_tunnel + 1 })

abbrev pub set_rules : List Text → Tunnel → Tunnel
set_rules rules t = record t { buffer_rules = rules }

abbrev pub update_rules : List Text → ℕ → Db → Result Done × Db
update_rules rules i db =
    (ok tt, record db { tunnels = update_where (has_tunnel_id i) (set_rules rules) db.tunnels })

-- The branches of ClaimTunnel, by what the SELECT found. The rules that are returned for a tunnel
-- that was there are those that the SELECT read.
unfoldable pub claim_found : ℕ → Text → List Text → Option Tunnel → Exec Tunnel
unfolding statement ◌>>=◌
claim_found user_id subdomain rules none =
    statement
      λ db. insert_tunnel user_id subdomain rules (any (has_subdomain subdomain) db.tunnels) db
claim_found user_id subdomain rules (some t) =
    if not (t.user_id == user_id)
    then raise subdomain_taken
    else statement (update_rules rules t.id) >> pure t

unfoldable pub select_subdomain : Text → Exec (Option Tunnel)
unfolding statement
select_subdomain subdomain =
    statement λ db. (ok (find_where (has_subdomain subdomain) db.tunnels), db)

unfoldable pub claim_tunnel : ℕ → Text → List Text → Exec Tunnel
unfolding select_subdomain claim_found ◌>>=◌
claim_tunnel user_id subdomain rules = do
  found ← select_subdomain subdomain
  claim_found user_id subdomain rules found

abbrev pub or_missing : Option Tunnel → Result Tunnel
or_missing none = err not_found
or_missing (some t) = ok t

unfoldable pub tunnel_by_id : ℕ → Exec Tunnel
unfolding statement
tunnel_by_id i = statement λ db. (or_missing (find_where (has_tunnel_id i) db.tunnels), db)

unfoldable pub tunnel_by_subdomain : Text → Exec Tunnel
unfolding statement
tunnel_by_subdomain s = statement λ db. (or_missing (find_where (has_subdomain s) db.tunnels), db)

abbrev pub id_before : Tunnel → Tunnel → Bool
id_before a b = leb a.id b.id

-- SELECT … WHERE user_id=$1 ORDER BY id
unfoldable pub list_tunnels : ℕ → Exec (List Tunnel)
unfolding statement
list_tunnels user_id =
    statement λ db. (ok (order_by id_before (keep (of_user user_id) db.tunnels)), db)
