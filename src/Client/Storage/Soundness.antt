-- ===== src/Client/Storage/Soundness.antt =====
-- Operations of internal/client/storage.go on configured clients: the index stays sound and the
-- upstream configurations in step with it, and where the operations can panic.
use gdns_server.Base.{
  ℕ, ◌≡◌, ◌≢◌, refl, sym, ap, subst, ◌∙◌, Bool, true, false, List, Option, none, some, arith,
  Option-cases, inl, inr, ◌⊎◌, Bool-cases, ℕ_discrete,
}
use gdns_server.Base.Dict.{Text, text_dec, get-delete_self}
use gdns_server.SortedMap.Ranges.{is_some}
use gdns_server.Client.Persistent.{
  Persistent, Parsers, ClientError, validate, with_sorted_tags, not_found,
}
use gdns_server.Client.Index.{
  Index, Lookup, client_of, enter, find_by_name, clashes, clashes_uid, resolve, has_keys,
}
use gdns_server.Client.Index
use gdns_server.Client.Index.Soundness.{
  IsSound, IsFree, enter-IsSound, leave-IsSound, IsFree-leave, clients-enter, clients-leave,
}
use gdns_server.Client.Index.Checks.{clashes-IsFree, clashes-no_panic, find_by_name-stored}
use gdns_server.Client.Upstreams.Cache.{is_known, update_custom-is_known, remove-is_known}
use gdns_server.Client.Storage.{
  Storage, add, update, remove_by_name, stored, enter_unless, add_valid, update_found, without,
}

pub add-some :
    (p : Persistent) (ci : Index)
    → p.uid ≢ 0
    → has_keys p.macs ≡ true
    → Index.add p ci ≡ some (enter p ci)
unfolding Index.add
add-some p ci nz k = ground arith

pub validate-uid :
    (u : Parsers) (tags : List Text) (p : Persistent) → validate u tags p ≡ none → p.uid ≢ 0
unfolding validate
validate-uid u tags p h e = ground arith

clashes_uid-none :
    (ci : Index) (p : Persistent) → clashes_uid ci p ≡ none → client_of ci p.uid ≡ none
unfolding clashes_uid
clashes_uid-none ci p h = ground arith

clashes_uid-no_panic : (ci : Index) (p : Persistent) → clashes_uid ci p ≢ some ClientError.panicked
unfolding clashes_uid
clashes_uid-no_panic ci p h = ground arith

validate-no_panic :
    (u : Parsers) (tags : List Text) (p : Persistent)
    → validate u tags p ≢ some ClientError.panicked
unfolding validate
validate-no_panic u tags p h = ground arith

left-name : (old : Persistent) (ci : Index) → find_by_name (Index.leave old ci) old.name ≡ none
unfolding find_by_name Index.leave resolve
left-name old ci =
    ap (resolve (Index.leave old ci)) (get-delete_self text_dec old.name ci.name_to_uid)

module _ {P C : Type 0} where
  -- The index is sound, no client has the UID 0, each MAC address of a stored client has a key, and
  -- the UIDs with an upstream configuration are those of the stored clients.
  pub record IsValid (s : Storage P C) : Type 0 where
    pub index : IsSound s.index
    pub no_zero : client_of s.index 0 ≡ none
    pub keys : (u : ℕ) (c : Persistent) → client_of s.index u ≡ some c → has_keys c.macs ≡ true
    pub in_step : (u : ℕ) → is_known s.upstream_manager u ≡ is_some (client_of s.index u)

  -- A valid storage, and an error that is no panic, unless a MAC address of the given ones has a
  -- length other than 6, 8 and 20 bytes.
  abbrev pub Kept : List Text → Storage P C × Option ClientError → Type 0
  Kept macs r = IsValid r.0 × ((r.1 ≢ some ClientError.panicked) ⊎ (has_keys macs ≡ false))

  IsValid-enter :
      (p : Persistent) (s : Storage P C)
      → IsSound s.index
      → client_of s.index 0 ≡ none
      → ((u : ℕ) → p.uid ≢ u → is_known s.upstream_manager u ≡ is_some (client_of s.index u))
      → client_of s.index p.uid ≡ none
      → IsFree s.index p
      → p.uid ≢ 0
      → has_keys p.macs ≡ true
      → ((u : ℕ) (c : Persistent) → client_of s.index u ≡ some c → has_keys c.macs ≡ true)
      → IsValid (stored p (some (enter p s.index)) s).0
  unfolding stored
  IsValid-enter p s v z t new f nz k ks = record {
    index = enter-IsSound p s.index v new f;
    no_zero = ground (arith, clients-enter p s.index 0);
    keys = λ u c e. elim (ℕ_discrete p.uid u) [
      | yes q ↦ ground (arith, e, clients-enter p s.index u)
      | no n ↦ ks u c (ground (arith, e, clients-enter p s.index u))
    ];
    in_step = λ u. ground (
      arith,
      ap is_some (clients-enter p s.index u),
      update_custom-is_known p s.upstream_manager u,
      t u,
    );
  }

  enter_unless-Kept :
      (o : Option ClientError) (p : Persistent) (ci : Index) (s : Storage P C)
      → IsValid s
      → clashes s.index p ≡ o
      → (o ≡ none
          → (has_keys p.macs ≡ true)
            × IsValid (stored p (some (enter p ci)) (record s { index = ci })).0)
      → p.uid ≢ 0
      → Kept p.macs (enter_unless o p (some ci) s)
  unfolding enter_unless stored
  enter_unless-Kept (some e) p ci s v c h nz = (
    v,
    elim (Bool-cases (has_keys p.macs)) [
      | inl k ↦
          inl (subst (λ o. o ≢ some ClientError.panicked) c (clashes-no_panic s.index p v.index k))
      | inr k ↦ inr k
    ],
  )
  enter_unless-Kept none p ci s v c h nz =
      let (k, w) = h refl in
      rw (add-some p ci nz k) (w, inl (λ (e : none ≡ some ClientError.panicked). cc))

  add_valid-Kept :
      (p : Persistent) (s : Storage P C) → IsValid s → p.uid ≢ 0 → Kept p.macs (add_valid p s)
  unfolding add_valid
  add_valid-Kept p s v nz = elim (Option-cases (clashes_uid s.index p)) [
    | inl e ↦
        rw (e, add_valid)
          (enter_unless-Kept (clashes s.index p) p s.index s v refl
            (λ h.
              let (f, k) = clashes-IsFree s.index p v.index h in
              (
                k,
                IsValid-enter p s v.index v.no_zero (λ u _. v.in_step u)
                    (clashes_uid-none s.index p e) f nz k v.keys,
              ))
            nz)
    | inr (x, e) ↦
        rw (e, add_valid)
          (v, inl (subst (λ o. o ≢ some ClientError.panicked) e (clashes_uid-no_panic s.index p)))
  ]

  -- Adding a client keeps the storage valid, whether the client is accepted or not, and panics only
  -- if a MAC address of the client has a length other than 6, 8 and 20 bytes.
  pub add-IsValid :
      (u : Parsers) (p : Persistent) (s : Storage P C) → IsValid s → Kept p.macs (add u p s)
  unfolding add with_sorted_tags
  add-IsValid u p s v = elim (Option-cases (validate u s.allowed_tags p)) [
    | inl e ↦
        rw (e, add) (add_valid-Kept (with_sorted_tags p) s v (validate-uid u s.allowed_tags p e))
    | inr (x, e) ↦
        rw (e, add)
          (
            v,
            inl (
                subst (λ o. o ≢ some ClientError.panicked) e
                  (validate-no_panic u s.allowed_tags p)),
          )
  ]

  -- A stored client does not have the UID 0.
  pub stored-uid :
      (s : Storage P C) (p : Persistent) → IsValid s → client_of s.index p.uid ≡ some p → p.uid ≢ 0
  stored-uid s p v e z =
      absurd (
        subst (λ x. client_of s.index x ≡ some p → ⊥) (sym z) (λ q. ground (arith, q, v.no_zero)) e)

  leave-keys :
      (old : Persistent) (s : Storage P C)
      → IsValid s
      → (u : ℕ) (c : Persistent) → client_of (Index.leave old s.index) u ≡ some c
      → has_keys c.macs ≡ true
  leave-keys old s v u c e = elim (ℕ_discrete old.uid u) [
    | yes q ↦ absurd (ground (arith, e, clients-leave old s.index u))
    | no n ↦ v.keys u c (ground (arith, e, clients-leave old s.index u))
  ]

  -- A stored client is removed with no panic.
  pub remove-some :
      (old : Persistent) (s : Storage P C)
      → IsValid s
      → client_of s.index old.uid ≡ some old
      → Index.remove old s.index ≡ some (Index.leave old s.index)
  unfolding Index.remove
  remove-some old s v e = ground (arith, v.keys old.uid old e)

  update_to :
      (old q : Persistent) (s : Storage P C)
      → IsValid s
      → client_of s.index old.uid ≡ some old
      → q.uid ≡ old.uid
      → Kept q.macs (enter_unless (clashes s.index q) q (Index.remove old s.index) s)
  update_to old q s v e same =
      let ci = Index.leave old s.index in
      let gone : (u : ℕ) → old.uid ≢ u → client_of ci u ≡ client_of s.index u =
        λ u ne. ground (arith, clients-leave old s.index u) in
      rw (remove-some old s v e) (
        enter_unless-Kept (clashes s.index q) q ci s v refl
          (λ h.
            let (f, k) = clashes-IsFree s.index q v.index h in
            (
              k,
              IsValid-enter q (record s { index = ci }) (leave-IsSound old s.index v.index e)
                  (ground (arith, clients-leave old s.index 0, v.no_zero))
                  (λ u ne. v.in_step u ∙ ap is_some (sym (gone u (λ z. ne (same ∙ z)))))
                  (ground (arith, clients-leave old s.index q.uid, same))
                  (IsFree-leave old q s.index f) (λ z. stored-uid s old v e (sym same ∙ z)) k
                  (leave-keys old s v),
            ))
          (λ z. stored-uid s old v e (sym same ∙ z)))

  update_found-Kept :
      (n : Text) (p : Persistent) (s : Storage P C)
      → IsValid s
      → Kept p.macs (update_found (find_by_name s.index n) p s)
  unfolding update_found
  update_found-Kept n p s v = elim (find_by_name-stored s.index n v.index) [
    | inl e ↦ rw (e, update_found) (v, inl (λ (h : some not_found ≡ some ClientError.panicked). cc))
    | inr (old, e, c, _) ↦
        rw (e, update_found) (update_to old (record p { uid = old.uid }) s v c refl)
  ]

  -- Updating a client keeps the storage valid, whether the update is accepted or not, and panics only
  -- if a MAC address of the new client has a length other than 6, 8 and 20 bytes.
  pub update-IsValid :
      (u : Parsers) (n : Text) (p : Persistent) (s : Storage P C)
      → IsValid s
      → Kept p.macs (update u n p s)
  unfolding update with_sorted_tags
  update-IsValid u n p s v = elim (Option-cases (validate u s.allowed_tags p)) [
    | inl e ↦ rw (e, update) (update_found-Kept n (with_sorted_tags p) s v)
    | inr (x, e) ↦
        rw (e, update)
          (
            v,
            inl (
                subst (λ o. o ≢ some ClientError.panicked) e
                  (validate-no_panic u s.allowed_tags p)),
          )
  ]

  without-IsValid :
      (old : Persistent) (s : Storage P C)
      → IsValid s
      → client_of s.index old.uid ≡ some old
      → IsValid (without old (Index.leave old s.index) s)
  unfolding without
  without-IsValid old s v c = record {
    index = leave-IsSound old s.index v.index c;
    no_zero = ground (arith, clients-leave old s.index 0, v.no_zero);
    keys = leave-keys old s v;
    in_step = λ u. ground (
      arith,
      ap is_some (clients-leave old s.index u),
      remove-is_known old.uid s.upstream_manager u,
      v.in_step u,
    );
  }

  -- Removing a client by its name returns, and keeps the storage valid. Afterwards no client has the
  -- name.
  pub remove_by_name-IsValid :
      (n : Text) (s : Storage P C)
      → IsValid s
      → (s' : Storage P C) × (b : Bool) × (remove_by_name n s ≡ some (s', b))
        × IsValid s'
        × (find_by_name s'.index n ≡ none)
  unfolding remove_by_name without
  remove_by_name-IsValid n s v = elim (find_by_name-stored s.index n v.index) [
    | inl e ↦ (s, false, rw (e, remove_by_name) refl, v, e)
    | inr (old, e, c, same) ↦ (
      without old (Index.leave old s.index) s,
      true,
      rw (e, remove_by_name, remove-some old s v c) refl,
      without-IsValid old s v c,
      subst (λ x. find_by_name (Index.leave old s.index) x ≡ none) same (left-name old s.index),
    )
  ]
