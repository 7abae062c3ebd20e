-- ===== src/Dhcpd/Handlers/Dispatch.antt =====
-- internal/dhcpd/v4_unix.go, `messageHandlers` and `handle`: the handler of a message, and the code
-- of the reply. The options of the reply are left out.
use mathlib.Core.Option.{some-injective}
use gdns_server.Base.{ℕ, ◌≡◌, ◌≢◌, refl, ap, ◌∙◌, sym, true, false, Option, none, some, arith}
use gdns_server.Base.Int.{ℤ, pos, negsuc}
use gdns_server.Net.{as_slice}
use gdns_server.Dhcpd.Hostname.{Netutil}
use gdns_server.Dhcpd.Server.{Ptr, V4Server, Error}
use gdns_server.Dhcpd.Alloc.{Env}
use gdns_server.Dhcpd.Handlers.{
  MessageType, discover, request, decline, release, other, Request, Response, Verdict,
  handle_by_request_type, handle_request, answer, ack_static, ack_dynamic, handle_discover,
  handle_decline, request_code,
}
use gdns_server.Dhcpd.Handlers.Release.{handle_release}

-- What a `messageHandler` returns, after the state and the response.
pub record Reply : Type 0 where
  pub code : ℤ
  pub lease : Option Ptr
  pub error : Option Error

abbrev Answered : Type 0
Answered = V4Server × Response × Reply

discover_reply : V4Server × Response × Option Error × Option Ptr → Answered
discover_reply (s, resp, some e, l) =
    (s, resp, record { code = pos 0; lease = none; error = some e })
discover_reply (s, resp, none, none) =
    (s, resp, record { code = pos 0; lease = none; error = none })
discover_reply (s, resp, none, some p) =
    (s, resp, record { code = pos 1; lease = some p; error = none })

request_reply : V4Server × Response × Verdict → Answered
request_reply (s, resp, (l, reply)) =
    (s, resp, record { code = request_code (l, reply); lease = l; error = none })

plain_reply : V4Server × Response × Option Error → Answered
plain_reply (s, resp, some e) = (s, resp, record { code = pos 0; lease = none; error = some e })
plain_reply (s, resp, none) = (s, resp, record { code = pos 1; lease = none; error = none })

-- The end of `handle`: an error gives 0, and a lease gives its address.
unfoldable pub finish : Answered → V4Server × Response × ℤ
finish (s, resp, reply) = elim reply.error [
  | some e ↦ (s, resp, pos 0)
  | none ↦ elim reply.lease [
    | some p ↦ (s, record resp { your_ip = as_slice (s.heap p).ip }, reply.code)
    | none ↦ (s, resp, reply.code)
  ]
]

map_some : {A B : Type 0} → (A → B) → Option A → Option B
map_some f none = none
map_some f (some a) = some (f a)

-- `handle` for a message of the type; `none` is the end of the fuel of an allocation, or a panic.
handle_type :
    MessageType
    → ℕ
    → Env
    → Netutil
    → ℕ
    → Request
    → V4Server
    → Response
    → Option (V4Server × Response × ℤ)
handle_type discover fuel env u now req s resp =
    map_some (λ r. finish (discover_reply r)) (handle_discover fuel env req s resp)
handle_type request fuel env u now req s resp =
    map_some (λ r. finish (request_reply r)) (handle_request u req now s resp)
handle_type decline fuel env u now req s resp =
    map_some (λ r. finish (plain_reply r)) (handle_decline fuel env now req s resp)
handle_type release fuel env u now req s resp =
    some (finish (plain_reply (handle_release req s resp)))
handle_type other fuel env u now req s resp = some (s, resp, pos 1)

handle : ℕ → Env → Netutil → ℕ → Request → V4Server → Response → Option (V4Server × Response × ℤ)
handle fuel env u now req s resp = handle_type req.message_type fuel env u now req s resp

-- `handleRequest` returns the verdict that it acted on.
request-verdict :
    (u : Netutil) (req : Request) (now : ℕ) (s t : V4Server) (resp r : Response) (v : Verdict)
    → handle_request u req now s resp ≡ some (t, r, v)
    → v ≡ handle_by_request_type s req
unfolding handle_request answer ack_static ack_dynamic
request-verdict u req now s t resp r v h = grind arith

discover_replies :
    (x : V4Server × Response × Option Error × Option Ptr) → (finish (discover_reply x)).2 ≢ negsuc 0
unfolding finish discover_reply
discover_replies (s, resp, some e, l) h = cc
discover_replies (s, resp, none, none) h = cc
discover_replies (s, resp, none, some p) h = cc

plain_replies : (x : V4Server × Response × Option Error) → (finish (plain_reply x)).2 ≢ negsuc 0
unfolding finish plain_reply
plain_replies (s, resp, some e) h = cc
plain_replies (s, resp, none) h = cc

request_silent :
    (x : V4Server × Response × Verdict)
    → (finish (request_reply x)).2 ≡ negsuc 0
    → (x.2 ≡ (none, false)) × (finish (request_reply x) ≡ (x.0, x.1, negsuc 0))
unfolding finish request_reply request_code
request_silent (s, resp, (some p, reply)) h = cc
request_silent (s, resp, (none, true)) h = cc
request_silent (s, resp, (none, false)) h = (refl, refl)

unanswered :
    (u : Netutil) (req : Request) (now : ℕ) (s : V4Server) (resp : Response)
    → handle_by_request_type s req ≡ (none, false)
    → handle_request u req now s resp ≡ some (s, resp, (none, false))
unfolding handle_request answer
unanswered u req now s resp k = rw (handle_request, k) refl

map_some-some :
    {A B : Type 0} (f : A → B) (o : Option A) (b : B)
    → map_some f o ≡ some b
    → (a : A) × (o ≡ some a) × (f a ≡ b)
unfolding map_some
map_some-some f none b h = cc
map_some-some f (some a) b h = (a, refl, some-injective _ _ h)

silent_type :
    (m : MessageType) (fuel : ℕ) (env : Env) (u : Netutil) (now : ℕ) (req : Request)
    (s t : V4Server) (resp r : Response)
    → handle_type m fuel env u now req s resp ≡ some (t, r, negsuc 0)
    → (m ≡ request) × (handle_by_request_type s req ≡ (none, false)) × (t ≡ s) × (r ≡ resp)
unfolding handle_type
silent_type discover fuel env u now req s t resp r h =
    let (x, e, q) = map_some-some _ (handle_discover fuel env req s resp) _ h in
    absurd (discover_replies x (ap (λ y. y.2) q))
silent_type decline fuel env u now req s t resp r h =
    let (x, e, q) = map_some-some _ (handle_decline fuel env now req s resp) _ h in
    absurd (plain_replies x (ap (λ y. y.2) q))
silent_type release fuel env u now req s t resp r h =
    absurd (plain_replies (handle_release req s resp) (ap (λ y. y.2) (some-injective _ _ h)))
silent_type other fuel env u now req s t resp r h = cc
silent_type request fuel env u now req s t resp r h =
    let (x, e, q) = map_some-some _ (handle_request u req now s resp) _ h in
    let (v, w) = request_silent x (ap (λ y. y.2) q) in
    let k : handle_by_request_type s req ≡ (none, false) =
      sym (request-verdict u req now s x.0 resp x.1 x.2 e) ∙ v in
    let z : x ≡ (s, resp, (none, false)) =
      some-injective _ _ (sym e ∙ unanswered u req now s resp k) in
    (
      refl,
      k,
      ap (λ y. y.0) (sym q ∙ w) ∙ ap (λ y. y.0) z,
      ap (λ y. y.1) (sym q ∙ w) ∙ ap (λ y. y.1) z,
    )

-- A message is left without a reply only if it is a request that names no lease that the server could
-- refuse or grant, and then nothing changes.
handle-silent :
    (fuel : ℕ) (env : Env) (u : Netutil) (now : ℕ) (req : Request) (s t : V4Server)
    (resp r : Response)
    → handle fuel env u now req s resp ≡ some (t, r, negsuc 0)
    → (req.message_type ≡ request)
      × (handle_by_request_type s req ≡ (none, false))
      × (t ≡ s)
      × (r ≡ resp)
unfolding handle
handle-silent fuel env u now req s t resp r h =
    silent_type req.message_type fuel env u now req s t resp r h
