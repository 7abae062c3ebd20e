-- ===== src/Client/Index/Soundness.antt =====
-- The index of internal/client/index.go as a whole: each of its maps leads from an identifier to the
-- client that lists it, and no identifier has two clients.
use gdns_server.Base.{
  ℕ, ◌≡◌, refl, true, List, [], ◌∷◌, none, some, if◌then◌else◌, ite, ℕ_discrete, arith,
}
use gdns_server.Base.Dict.{Text, text_dec, get, get-put, get-delete}
use gdns_server.Net.{Addr, addr_dec, Prefix}
use gdns_server.SortedMap.{SortedMap, set, del}
use gdns_server.SortedMap.Order.{has}
use gdns_server.SortedMap.Ranges.{IsOrdered, set-IsOrdered, del-IsOrdered, get-set, get-del}
use gdns_server.Client.Persistent.{Persistent, prefix_dec, subnet_compare}
use gdns_server.Client.Persistent.Order.{subnet_compare-IsTotalOrder}
use gdns_server.Client.Index.Ownership.{Owns, Owns-enter, Owns-remove, get-put_all, get-delete_all}
use gdns_server.Client.Index.{
  Index, client_of, enter, leave, put_all, delete_all, set_all, del_all, new_index,
}

pub record IsSound (ci : Index) : Type 0 where
  pub names : Owns text_dec (λ c. c.name ∷ []) (λ k. get text_dec k ci.name_to_uid) (client_of ci)
  pub client_ids :
      Owns text_dec (λ c. c.client_ids) (λ k. get text_dec k ci.client_id_to_uid) (client_of ci)
  pub ips : Owns addr_dec (λ c. c.ips) (λ k. get addr_dec k ci.ip_to_uid) (client_of ci)
  pub macs : Owns text_dec (λ c. c.macs) (λ k. get text_dec k ci.mac_to_uid) (client_of ci)
  pub subnets :
      Owns prefix_dec (λ c. c.subnets) (λ k. get prefix_dec k ci.subnet_to_uid.vals) (client_of ci)
  pub ordered : IsOrdered prefix_dec subnet_compare ci.subnet_to_uid
  pub uids : (u : ℕ) (c : Persistent) → client_of ci u ≡ some c → c.uid ≡ u

-- No identifier of the client belongs to another client.
pub record IsFree (ci : Index) (c : Persistent) : Type 0 where
  pub names :
      (k : Text) (u : ℕ)
      → has text_dec k (c.name ∷ []) ≡ true
      → get text_dec k ci.name_to_uid ≡ some u
      → u ≡ c.uid
  pub client_ids :
      (k : Text) (u : ℕ)
      → has text_dec k c.client_ids ≡ true
      → get text_dec k ci.client_id_to_uid ≡ some u
      → u ≡ c.uid
  pub ips :
      (k : Addr) (u : ℕ)
      → has addr_dec k c.ips ≡ true
      → get addr_dec k ci.ip_to_uid ≡ some u
      → u ≡ c.uid
  pub macs :
      (k : Text) (u : ℕ)
      → has text_dec k c.macs ≡ true
      → get text_dec k ci.mac_to_uid ≡ some u
      → u ≡ c.uid
  pub subnets :
      (k : Prefix) (u : ℕ)
      → has prefix_dec k c.subnets ≡ true
      → get prefix_dec k ci.subnet_to_uid.vals ≡ some u
      → u ≡ c.uid

get-set_all :
    (ps : List Prefix) (u : ℕ) (m : SortedMap Prefix ℕ) (j : Prefix)
    → get prefix_dec j (set_all ps u m).vals
      ≡ (if has prefix_dec j ps then some u else get prefix_dec j m.vals)
unfolding set_all has
get-set_all [] u m j = refl
get-set_all (p ∷ ps) u m j = ground (
  arith,
  get-set_all ps u (set prefix_dec subnet_compare p u m) j,
  get-set prefix_dec subnet_compare subnet_compare-IsTotalOrder p j u m,
)

get-del_all :
    (ps : List Prefix) (m : SortedMap Prefix ℕ) (j : Prefix)
    → get prefix_dec j (del_all ps m).vals
      ≡ (if has prefix_dec j ps then none else get prefix_dec j m.vals)
unfolding del_all has
get-del_all [] m j = refl
get-del_all (p ∷ ps) m j = ground (
  arith,
  get-del_all ps (del prefix_dec subnet_compare p m) j,
  get-del prefix_dec subnet_compare subnet_compare-IsTotalOrder p j m,
)

set_all-IsOrdered :
    (ps : List Prefix) (u : ℕ) (m : SortedMap Prefix ℕ)
    → IsOrdered prefix_dec subnet_compare m
    → IsOrdered prefix_dec subnet_compare (set_all ps u m)
unfolding set_all
set_all-IsOrdered [] u m h = h
set_all-IsOrdered (p ∷ ps) u m h =
    set_all-IsOrdered ps u _
      (set-IsOrdered prefix_dec subnet_compare subnet_compare-IsTotalOrder p u m h)

del_all-IsOrdered :
    (ps : List Prefix) (m : SortedMap Prefix ℕ)
    → IsOrdered prefix_dec subnet_compare m
    → IsOrdered prefix_dec subnet_compare (del_all ps m)
unfolding del_all
del_all-IsOrdered [] m h = h
del_all-IsOrdered (p ∷ ps) m h =
    del_all-IsOrdered ps _
      (del-IsOrdered prefix_dec subnet_compare subnet_compare-IsTotalOrder p m h)

pub clients-enter :
    (c : Persistent) (ci : Index) (u : ℕ)
    → client_of (enter c ci) u ≡ ite (ℕ_discrete c.uid u) (some c) (client_of ci u)
unfolding enter
clients-enter c ci u = get-put ℕ_discrete c.uid u c ci.uid_to_client

pub clients-leave :
    (c : Persistent) (ci : Index) (u : ℕ)
    → client_of (leave c ci) u ≡ ite (ℕ_discrete c.uid u) none (client_of ci u)
unfolding leave
clients-leave c ci u = get-delete ℕ_discrete c.uid u ci.uid_to_client

-- Entering a client with a new UID and no identifier of another client keeps the index sound.
pub enter-IsSound :
    (c : Persistent) (ci : Index)
    → IsSound ci
    → client_of ci c.uid ≡ none
    → IsFree ci c
    → IsSound (enter c ci)
unfolding enter put_all
enter-IsSound c ci s new f = record {
  names =
      Owns-enter text_dec _ _ _ _ _ c s.names new f.names
        (get-put_all text_dec (c.name ∷ []) c.uid ci.name_to_uid) (clients-enter c ci);
  client_ids =
      Owns-enter text_dec _ _ _ _ _ c s.client_ids new f.client_ids
        (get-put_all text_dec c.client_ids c.uid ci.client_id_to_uid) (clients-enter c ci);
  ips =
      Owns-enter addr_dec _ _ _ _ _ c s.ips new f.ips
        (get-put_all addr_dec c.ips c.uid ci.ip_to_uid) (clients-enter c ci);
  macs =
      Owns-enter text_dec _ _ _ _ _ c s.macs new f.macs
        (get-put_all text_dec c.macs c.uid ci.mac_to_uid) (clients-enter c ci);
  subnets =
      Owns-enter prefix_dec _ _ _ _ _ c s.subnets new f.subnets
        (get-set_all c.subnets c.uid ci.subnet_to_uid) (clients-enter c ci);
  ordered = set_all-IsOrdered c.subnets c.uid ci.subnet_to_uid s.ordered;
  uids = λ u d e. ground (arith, clients-enter c ci u, s.uids u d);
}

-- Removing a stored client keeps the index sound.
pub leave-IsSound :
    (c : Persistent) (ci : Index) → IsSound ci → client_of ci c.uid ≡ some c → IsSound (leave c ci)
unfolding leave delete_all
leave-IsSound c ci s stored = record {
  names =
      Owns-remove text_dec _ _ _ _ _ c s.names stored
        (get-delete_all text_dec (c.name ∷ []) ci.name_to_uid) (clients-leave c ci);
  client_ids =
      Owns-remove text_dec _ _ _ _ _ c s.client_ids stored
        (get-delete_all text_dec c.client_ids ci.client_id_to_uid) (clients-leave c ci);
  ips =
      Owns-remove addr_dec _ _ _ _ _ c s.ips stored (get-delete_all addr_dec c.ips ci.ip_to_uid)
        (clients-leave c ci);
  macs =
      Owns-remove text_dec _ _ _ _ _ c s.macs stored (get-delete_all text_dec c.macs ci.mac_to_uid)
        (clients-leave c ci);
  subnets =
      Owns-remove prefix_dec _ _ _ _ _ c s.subnets stored (get-del_all c.subnets ci.subnet_to_uid)
        (clients-leave c ci);
  ordered = del_all-IsOrdered c.subnets ci.subnet_to_uid s.ordered;
  uids = λ u d e. ground (arith, clients-leave c ci u, s.uids u d);
}

-- A client that is free in an index is free when another client is removed.
pub IsFree-leave : (d c : Persistent) (ci : Index) → IsFree ci c → IsFree (leave d ci) c
unfolding leave delete_all
IsFree-leave d c ci f = record {
  names = λ k u h e.
      f.names k u h (ground (arith, get-delete_all text_dec (d.name ∷ []) ci.name_to_uid k));
  client_ids = λ k u h e.
      f.client_ids k u h
        (ground (arith, get-delete_all text_dec d.client_ids ci.client_id_to_uid k));
  ips = λ k u h e. f.ips k u h (ground (arith, get-delete_all addr_dec d.ips ci.ip_to_uid k));
  macs = λ k u h e. f.macs k u h (ground (arith, get-delete_all text_dec d.macs ci.mac_to_uid k));
  subnets = λ k u h e. f.subnets k u h (ground (arith, get-del_all d.subnets ci.subnet_to_uid k));
}

-- The index that is new has nothing.
pub new_index-IsSound : IsSound new_index
unfolding new_index get has
new_index-IsSound = record {
  names = record { sound = λ k u e. cc; complete = λ k u c e. cc };
  client_ids = record { sound = λ k u e. cc; complete = λ k u c e. cc };
  ips = record { sound = λ k u e. cc; complete = λ k u c e. cc };
  macs = record { sound = λ k u e. cc; complete = λ k u c e. cc };
  subnets = record { sound = λ k u e. cc; complete = λ k u c e. cc };
  ordered = record { sorted = tt; same_keys = λ k. refl };
  uids = λ u c e. cc;
}
