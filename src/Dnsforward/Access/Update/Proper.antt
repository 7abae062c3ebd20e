-- ===== src/Dnsforward/Access/Update/Proper.antt =====
-- internal/dnsforward/access.go, `handleAccessSet`: the settings that are accepted.
use gdns_server.Base.{
  ◌≡◌, refl, sym, subst, ◌⊎◌, inl, inr, true, false, Option, none, some, List, [], ◌∷◌, Distinct,
  Option-cases, arith,
}
use gdns_server.Base.Dict.{Text, text_dec}
use gdns_server.Base.Sets.{Mem, has, has-Mem, is_empty_list}
use gdns_server.Dnsforward.{Parsers, Engine}
use gdns_server.Dnsforward.Access.{
  AccessManager, AccessError, NewAccess, made, refused, new_access_ctx,
}
use gdns_server.Dnsforward.Access.Update.{
  AccessList, SetError, bad_request, bad_access, Server, intersection, validate_access_set,
  handle_access_set,
}
use gdns_server.Dnsforward.Access.Update.Uniq.{validate_str_uniq-cases}

intersection-empty :
    (xs ys : List Text)
    → is_empty_list (intersection xs ys) ≡ true
    → (x : Text) → Mem x xs
    → has text_dec x ys ≡ false
unfolding intersection
intersection-empty [] ys h x m = elim m [ ]
intersection-empty (y ∷ xs) ys h x (inl e) =
    subst (λ z. has text_dec z ys ≡ false) (sym e) (grind arith)
intersection-empty (y ∷ xs) ys h x (inr m) = intersection-empty xs ys (grind arith) x m

made-cases :
    {H : Type 0} (r : NewAccess H)
    → ((e : AccessError) × (r ≡ refused e)) ⊎ ((a : AccessManager H) × (r ≡ made a))
made-cases (refused e) = inl (e, refl)
made-cases (made a) = inr (a, refl)

-- Lists of settings in which no string occurs twice, nor both in the allowed and the disallowed
-- clients.
abbrev pub IsProper : AccessList → Type 0
IsProper list =
    Distinct list.allowed_clients
    × Distinct list.disallowed_clients
    × Distinct list.blocked_hosts
    × ((x : Text) → Mem x list.allowed_clients → ¬ Mem x list.disallowed_clients)

validate_access_set-IsProper : (list : AccessList) → validate_access_set list ≡ none → IsProper list
unfolding validate_access_set
validate_access_set-IsProper list h = elim (validate_str_uniq-cases list.allowed_clients) [
  | inr (e, n) ↦ absurd (grind arith)
  | inl (a, e, da, ma) ↦ elim (validate_str_uniq-cases list.disallowed_clients) [
    | inr (f, n) ↦ absurd (grind arith)
    | inl (d, f, dd, md) ↦ elim (validate_str_uniq-cases list.blocked_hosts) [
      | inr (k, n) ↦ absurd (grind arith)
      | inl (b, k, db, mb) ↦
          let i : is_empty_list (intersection a d) ≡ true = grind arith in
          (
            da,
            dd,
            db,
            λ x m l. absurd (
                grind (
                  arith,
                  (md x).1 l,
                  intersection-empty a d i x ((has-Mem text_dec x a).0 ((ma x).1 m)),
                )),
          )
    ]
  ]
]

module _ {H : Type 0} (u : Parsers) (engine : Engine H) where
  -- A request for new settings fails and leaves the server as it was, or brings lists in which no
  -- string occurs twice, nor both as allowed and as disallowed, and then the server has these lists
  -- and the access manager that is made of them.
  pub handle_access_set-IsProper :
      (s : Server H) (request : Option AccessList)
      → ((e : SetError) × (handle_access_set u engine s request ≡ (s, some e)))
        ⊎ ((list : AccessList) × (a : AccessManager H) × (request ≡ some list)
            × IsProper list
            × (new_access_ctx u engine list.allowed_clients list.disallowed_clients
                  list.blocked_hosts
                ≡ made a)
            × (handle_access_set u engine s request ≡ (record { conf = list; access = a }, none)))
  unfolding handle_access_set
  handle_access_set-IsProper s none = inl (bad_request, refl)
  handle_access_set-IsProper s (some list) = elim (Option-cases (validate_access_set list)) [
    | inr (e, h) ↦ inl (e, rw (handle_access_set, h) refl)
    | inl h ↦
        elim (made-cases (
          new_access_ctx u engine list.allowed_clients list.disallowed_clients
            list.blocked_hosts)) [
              | inl (e, k) ↦ inl (bad_access e, rw (handle_access_set, h, k) refl)
              | inr (a, k) ↦ inr (
                list,
                a,
                refl,
                validate_access_set-IsProper list h,
                k,
                rw (handle_access_set, h, k) refl,
              )
            ]
  ]
