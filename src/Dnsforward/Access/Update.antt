-- ===== src/Dnsforward/Access/Update.antt =====
-- internal/dnsforward/access.go: the new settings that a request brings, `handleAccessSet`.
pub mod Uniq
pub mod Proper
use gdns_server.Base.{
  ℕ, ◌≡◌, ◌≢◌, refl, sym, ap, subst, ◌∙◌, ◌⊎◌, inl, inr, ◌↔◌, Bool, true, false, not, Option, none,
  some, List, [], ◌∷◌, ◌++◌, if◌then◌else◌, All, All-map, All-map₂, Distinct, Bool-cases,
  Option-cases, arith,
}
use gdns_server.Base.Dict.{Text, text_dec}
use gdns_server.Base.Sets.{Mem, has, has-Mem, has-add, add, is_empty_list, append-not_empty}
use gdns_server.Dnsforward.{Parsers, Engine}
use gdns_server.Dnsforward.Access.{
  AccessManager, AccessError, NewAccess, made, refused, new_access_ctx,
}

pub record AccessList : Type 0 where
  pub allowed_clients : List Text
  pub disallowed_clients : List Text
  pub blocked_hosts : List Text

-- The loop of `validateStrUniq`: the set and the duplicates.
uniq_loop : List Text → List Text → List Text → List Text × List Text
uniq_loop [] m dup = (m, dup)
uniq_loop (client ∷ clients) m dup =
    uniq_loop clients (add text_dec client m)
      (if has text_dec client m then dup ++ client ∷ [] else dup)

-- `none` is the error.
pub validate_str_uniq : List Text → Option (List Text)
unfolding uniq_loop
validate_str_uniq clients =
    let (m, dup) = uniq_loop clients [] [] in if is_empty_list dup then some m else none

intersection : List Text → List Text → List Text
intersection [] ys = []
intersection (x ∷ xs) ys =
    let rest = intersection xs ys in if has text_dec x ys then x ∷ rest else rest

pub data SetError : Type 0 where
  bad_request duplicated_allowed duplicated_disallowed duplicated_hosts intersecting : SetError
  bad_access : AccessError → SetError

-- `none` where there is no error.
pub validate_access_set : AccessList → Option SetError
unfolding intersection
validate_access_set list = elim (validate_str_uniq list.allowed_clients) [
  | none ↦ some duplicated_allowed
  | some allowed ↦ elim (validate_str_uniq list.disallowed_clients) [
    | none ↦ some duplicated_disallowed
    | some disallowed ↦ elim (validate_str_uniq list.blocked_hosts) [
      | none ↦ some duplicated_hosts
      | some hosts ↦
          if is_empty_list (intersection allowed disallowed) then none else some intersecting
    ]
  ]
]

-- The part of the server that the request changes.
pub record Server (H : Type 0) : Type 0 where
  pub conf : AccessList
  pub access : AccessManager H

module _ {H : Type 0} (u : Parsers) (engine : Engine H) where
  -- A body that does not decode is `none`. The server, and the error, if any.
  pub handle_access_set : Server H → Option AccessList → Server H × Option SetError
  handle_access_set s none = (s, some bad_request)
  handle_access_set s (some list) = elim (validate_access_set list) [
    | some e ↦ (s, some e)
    | none ↦
        elim (new_access_ctx u engine list.allowed_clients list.disallowed_clients
          list.blocked_hosts) [
            | refused e ↦ (s, some (bad_access e))
            | made a ↦ (record { conf = list; access = a }, none)
          ]
  ]
