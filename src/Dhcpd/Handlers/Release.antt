-- ===== src/Dhcpd/Handlers/Release.antt =====
-- internal/dhcpd/v4_unix.go, `handleRelease`: the leases that a client gives back.
use gdns_server.Base.{
  ℕ, zero, suc, ◌+◌, refl, not, ◌&&◌, List, Option, none, some, if◌then◌else◌, length, get_elem?,
  Option-cases, Bool-cases, inl, inr, All-map, arith,
}
use gdns_server.Base.Dict.{Text}
use gdns_server.Net.{Addr, addr_from_slice}
use gdns_server.Dhcpd.Server.{
  Ptr, V4Server, Error, index_out_of_range, lease_changed_db_store, notify, text_eq, addr_eq,
}
use gdns_server.Dhcpd.Server.Invariant.{IsConsistent, Entered-keep}
use gdns_server.Dhcpd.Static.{rm_dynamic_lease, array_left}
use gdns_server.Dhcpd.Static.Removal.{rm_dynamic_lease-IsConsistent}
use gdns_server.Dhcpd.Handlers.{Request, Response, ack, requested_or_client}

-- The loop of `handleRelease` goes through the array as it was at the start, which the removals
-- change in place: `array` is all of it, and the first argument is how many indices are left.
release_from : ℕ → ℕ → List Ptr → Text → Addr → V4Server → V4Server × Option Error
release_from zero i array mac ip s = (s, none)
release_from (suc rounds) i array mac ip s = elim (get_elem? array i) [
  | none ↦ (s, some index_out_of_range)
  | some p ↦
      let skip = release_from rounds (i + 1) array mac ip s in
      let array' = array_left (length s.leases) 0 array p s in
      let (t, e) = rm_dynamic_lease p s in
      let rest = release_from rounds (i + 1) array' mac ip t in
      if not (text_eq (s.heap p).hw_addr mac && addr_eq (s.heap p).ip ip)
      then skip
      else elim e [ some x ↦ (t, some x) | none ↦ rest ]
]

pub acked : Response → Option Error → Response
acked resp none = record resp { reply_type = ack }
acked resp (some e) = resp

pub handle_release : Request → V4Server → Response → V4Server × Response × Option Error
handle_release req s resp = elim (addr_from_slice (requested_or_client req)) [
  | none ↦ (notify lease_changed_db_store s, resp, none)
  | some ip ↦
      let (t, e) = release_from (length s.leases) 0 s.leases req.client_hw_addr ip s in
      (notify lease_changed_db_store t, acked resp e, e)
]

release_from-IsConsistent :
    (rounds i : ℕ) (array : List Ptr) (mac : Text) (ip : Addr) (s : V4Server)
    → IsConsistent s
    → IsConsistent (release_from rounds i array mac ip s).0
unfolding release_from
release_from-IsConsistent zero i array mac ip s c = c
release_from-IsConsistent (suc rounds) i array mac ip s c =
    elim (Option-cases (get_elem? array i)) [
      | inl e ↦ rw (release_from, e) c
      | inr (p, e) ↦
          elim (Bool-cases (not (text_eq (s.heap p).hw_addr mac && addr_eq (s.heap p).ip ip))) [
            | inl h ↦
                rw (release_from, e, h) (release_from-IsConsistent rounds (i + 1) array mac ip s c)
            | inr h ↦
                let d = rm_dynamic_lease-IsConsistent p s c in
                let array' = array_left (length s.leases) 0 array p s in
                elim (Option-cases (rm_dynamic_lease p s).1) [
                  | inr (x, k) ↦ rw (release_from, e, h, k) d
                  | inl k ↦
                      rw (release_from, e, h, k)
                        (release_from-IsConsistent rounds (i + 1) array' mac ip
                          (rm_dynamic_lease p s).0 d)
                ]
          ]
    ]

notify-IsConsistent :
    (s : V4Server) → IsConsistent s → IsConsistent (notify lease_changed_db_store s)
unfolding notify
notify-IsConsistent s c = record {
  bits = c.bits;
  has_bits = c.has_bits;
  distinct = c.distinct;
  entered = All-map _ _ s.leases c.entered (λ p e.
      Entered-keep s (notify lease_changed_db_store s) p e (omega arith) refl refl e.indexed
        e.counted);
}

-- Releasing leases keeps a consistent table consistent, also where it fails.
pub handle_release-IsConsistent :
    (req : Request) (s : V4Server) (resp : Response)
    → IsConsistent s
    → IsConsistent (handle_release req s resp).0
unfolding handle_release
handle_release-IsConsistent req s resp c =
    elim (Option-cases (addr_from_slice (requested_or_client req))) [
      | inl e ↦ rw (handle_release, e) (notify-IsConsistent s c)
      | inr (ip, e) ↦
          rw (handle_release, e)
            (notify-IsConsistent _
              (release_from-IsConsistent (length s.leases) 0 s.leases req.client_hw_addr ip s c))
    ]
