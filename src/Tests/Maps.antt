-- ===== src/Tests/Maps.antt =====
-- Runs of internal/aghalg/sortedmap.go: subnets in the order of the index of clients.
use gdns_server.Base.{
  ℕ, ◌<◌, ◌≤◌, ◌-◌, ◌+◌, ◌≡◌, ◌≢◌, ◌↔◌, refl, ap, Bool, true, false, not, List, [], ◌∷◌, Option,
  none, some, if◌then◌else◌, ◌==◌, ltb, ℕ_discrete, arith,
}
use gdns_server.Net.{v4, Prefix}
use gdns_server.SortedMap.{SortedMap, set}
use gdns_server.SortedMap.Order.{has}
use gdns_server.SortedMap.Ranges.{IsOrdered, set-IsOrdered}
use gdns_server.Client.Persistent.{prefix_dec, subnet_compare}
use gdns_server.Client.Persistent.Order.{subnet_compare-IsTotalOrder}

abbrev wide : Prefix
wide = record { addr = v4 167772160; bits = 8 }

abbrev narrow : Prefix
narrow = record { addr = v4 167772160; bits = 24 }

abbrev no_subnets : SortedMap Prefix ℕ
no_subnets = record { vals = []; keys = [] }

no_subnets-IsOrdered : IsOrdered prefix_dec subnet_compare no_subnets
unfolding gdns_server.Base.Dict.get has
no_subnets-IsOrdered = record { sorted = tt; same_keys = λ k. refl }

abbrev one_subnet : SortedMap Prefix ℕ
one_subnet = set prefix_dec subnet_compare wide 1 no_subnets

one_subnet-IsOrdered : IsOrdered prefix_dec subnet_compare one_subnet
one_subnet-IsOrdered =
    set-IsOrdered prefix_dec subnet_compare subnet_compare-IsTotalOrder wide 1 no_subnets
      no_subnets-IsOrdered

set-IsOrdered_example :
    IsOrdered prefix_dec subnet_compare (set prefix_dec subnet_compare narrow 2 one_subnet)
set-IsOrdered_example =
    set-IsOrdered prefix_dec subnet_compare subnet_compare-IsTotalOrder narrow 2 one_subnet
      one_subnet-IsOrdered
