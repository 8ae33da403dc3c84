-- ===== src/Admin/Ended.antt =====
-- internal/adminrpc/adminrpc.go, serve: how it ends, and what it leaves behind.
use rpc_plugin_system.Prelude.{
  ℕ, zero, suc, ◌+◌, ◌≡◌, refl, ap, ◌∙◌, Bool, true, false, not, ◌&&◌, List, [], ◌∷◌, ◌++◌, arith,
  inl, inr, Bool-cases, if◌then◌else◌,
}
use rpc_plugin_system.Admin.Serving.{
  Accept, connected, stopped, ServeResult, finished, listen_failed, register_failed, accept_failed,
  SocketSystem, Listening, shut_down, listen_unix, accept_loop, after_listen, serve,
}

-- So many connections, one after the other.
abbrev pub connections : ℕ → List Accept
connections zero = []
connections (suc n) = connected ∷ connections n

-- By whether a listener was made, the service was registered on it, and the context was done.
abbrev pub verdict : Bool → Bool → Bool → ServeResult
verdict true true true = finished
verdict true true false = accept_failed
verdict true false d = register_failed
verdict false registers d = listen_failed

abbrev pub served_of : Bool → ℕ → ℕ
served_of true n = n
served_of false n = 0

-- A socket that was bound stays if it cannot be removed, and otherwise what stood at the path.
abbrev pub left_at : SocketSystem → Listening → Bool
left_at sys l = if sys.binds then not sys.removed else l.socket_present && not sys.cleared

pub record Ends (sys : SocketSystem) (registers d : Bool) (n : ℕ) (l : Listening)
    (x : ServeResult × Listening) : Type 0 where
  pub result : x.0 ≡ verdict (sys.binds && sys.chmods) registers d
  pub served : x.1.served ≡ l.served + served_of (sys.binds && (sys.chmods && registers)) n
  pub closed : x.1.is_open ≡ false
  pub path : x.1.socket_present ≡ left_at sys l

accept_loop-stopped :
    (sys : SocketSystem) (n : ℕ) (d : Bool) (rest : List Accept) (l : Listening)
    → accept_loop sys (connections n ++ stopped d ∷ rest) l
      ≡ (verdict true true d, shut_down sys (record l { served = l.served + n }))
unfolding accept_loop
accept_loop-stopped sys zero true rest l = ground arith
accept_loop-stopped sys zero false rest l = ground arith
accept_loop-stopped sys (suc n) d rest l =
    accept_loop-stopped sys n d rest (record l { served = l.served + 1 }) ∙ ground arith

after_listen-Ends :
    (sys : SocketSystem) (registers : Bool) (n : ℕ) (d : Bool) (rest : List Accept) (l : Listening)
    → l.is_open ≡ false
    → Ends sys registers d n l
        (after_listen sys registers (connections n ++ stopped d ∷ rest) (listen_unix sys l))
unfolding after_listen listen_unix
after_listen-Ends sys registers n d rest l shut = elim (Bool-cases sys.binds) [
  | inr unbound ↦
      rw unbound (record { result = refl; served = omega arith; closed = shut; path = refl })
  | inl bound ↦ elim (Bool-cases sys.chmods) [
    | inr refused ↦
        rw (bound, refused)
          (record { result = refl; served = omega arith; closed = refl; path = refl })
    | inl set ↦ elim (Bool-cases registers) [
      | inr unregistered ↦
          rw (bound, set, unregistered)
            (record { result = refl; served = omega arith; closed = refl; path = refl })
      | inl registered ↦
          let e =
            accept_loop-stopped sys n d rest
              (record { is_open = true; socket_present = true; served = l.served }) in
          rw (bound, set, registered)
            (record {
              result = ap (λ x. x.0) e;
              served = ap (λ x. x.1.served) e;
              closed = ap (λ x. x.1.is_open) e;
              path = ap (λ x. x.1.socket_present) e;
            })
    ]
  ]
]

-- Whatever ListenUnix, the registration and Accept answer: serve returns with the listener closed. It
-- fails without a listener or a registered service and serves nobody; otherwise it serves exactly the
-- connections before the first error of Accept, and that error ends it, as finished if the context was
-- done and as a failure if not. The socket that it bound is gone if it can be removed, and when
-- nothing was bound, what stood at the path before is gone if that can be removed.
pub serve-Ends :
    (sys : SocketSystem) (registers d : Bool) (n : ℕ) (rest : List Accept) (l : Listening)
    → l.is_open ≡ false
    → Ends sys registers d n l (serve sys registers (connections n ++ stopped d ∷ rest) l)
unfolding serve
serve-Ends sys registers d n rest l shut = after_listen-Ends sys registers n d rest l shut
