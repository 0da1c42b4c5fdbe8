-- ===== src/Server/Life.antt =====
-- The start and the end of a server in crates/hocuspocus/src/server.rs: `prepare` and `listen`, with
-- the hooks of startup and shutdown.
use hocuspocus_rs.Prelude.{
  ℕ, zero, suc, ◌+◌, ◌/◌, ◌%◌, ◌≡◌, refl, sym, ap, ◌∙◌, Option, none, some, List, [], ◌∷◌, ◌++◌,
  Bytes, map, ltb, Result, ok, err, if◌then◌else◌, Result-cases, inl, inr,
}
use hocuspocus_rs.Config.{Configuration}
use hocuspocus_rs.Platform.{Platform}
use hocuspocus_rs.Extension.{Extension, run_each}
use hocuspocus_rs.Server.Builder.{ServerShared}

-- The last `n` digits of a number, without leading zeros.
unfoldable pub digits : ℕ → ℕ → Bytes
digits zero k = []
digits (suc n) k =
    let rest = digits n (k / 10) in
    if ltb k 10 then (k + b'0') ∷ [] else rest ++ (k % 10 + b'0') ∷ []

-- A `u16` has five digits at most.
abbrev pub show_port : ℕ → Bytes
show_port = digits 5

-- What `listen` calls of the standard library, tokio and axum. `serve` answers `none` if it never ends.
pub record Net (p : Platform) : Type 1 where
  pub SocketAddr : Type 0
  pub Listener : Type 0
  pub parse : Bytes → Result Bytes SocketAddr
  pub bind : SocketAddr → p.World → Result Bytes Listener × p.World
  -- the port of `local_addr`
  pub local_port : Listener → p.World → Result Bytes ℕ × p.World
  pub serve : Listener → p.World → Option (Result Bytes (Unit {0})) × p.World

module _ {p : Platform} where
  unfoldable pub ready : List (Extension p) → p.World → p.World
  ready [] w = w
  ready (ext ∷ exts) w = ready exts (ext.on_server_ready w)

  unfoldable pub prepare : List (Extension p) → p.World → p.World
  prepare exts w = ready exts (run_each p (λ ext. ext.on_configure) exts w)

  -- `listen` once the listener is bound to `port`.
  unfoldable pub run_server :
      (net : Net p)
      → List (Extension p)
      → net.Listener
      → ℕ
      → p.World
      → Option (Result Bytes (Unit {0})) × p.World
  run_server net exts listener port w =
      let (served, w') = net.serve listener (run_each p (λ ext. ext.on_listen port) exts w) in
      elim served [
        | none ↦ (none, w')
        | some r ↦ elim r [
          | err e ↦ (some (err e), w')
          | ok _ ↦ (some (ok tt), run_each p (λ ext. ext.on_destroy) exts w')
        ]
      ]

  -- `listen` once the server is prepared.
  unfoldable pub bind_server :
      Net p
      → Configuration
      → List (Extension p)
      → p.World
      → Option (Result Bytes (Unit {0})) × p.World
  unfolding run_server
  bind_server net config exts w =
      elim (net.parse (config.address ++ b':' ∷ show_port config.port)) [
        | err e ↦ (some (err e), w)
        | ok addr ↦
            let (bound, w1) = net.bind addr w in
            elim bound [
              | err e ↦ (some (err e), w1)
              | ok listener ↦
                  let (port, w2) = net.local_port listener w1 in
                  elim port [
                    | err e ↦ (some (err e), w2)
                    | ok n ↦ run_server net exts listener n w2
                  ]
            ]
      ]

  -- `Hocuspocus::listen`, less its log line.
  unfoldable pub listen :
      Net p → ServerShared p → p.World → Option (Result Bytes (Unit {0})) × p.World
  unfolding bind_server
  listen net shared w =
      bind_server net shared.config shared.extensions (prepare shared.extensions w)

  -- An extension that is not told of the shutdown.
  abbrev pub untold : Extension p → Extension p
  untold ext = record ext { on_destroy = λ w. (ok tt, w) }

  configure-untold :
      (exts : List (Extension p)) (w : p.World)
      → run_each p (λ ext. ext.on_configure) (map untold exts) w
        ≡ run_each p (λ ext. ext.on_configure) exts w
  unfolding run_each
  configure-untold [] w = refl
  configure-untold (ext ∷ exts) w = configure-untold exts (ext.on_configure w).1

  listen-untold :
      (port : ℕ) (exts : List (Extension p)) (w : p.World)
      → run_each p (λ ext. ext.on_listen port) (map untold exts) w
        ≡ run_each p (λ ext. ext.on_listen port) exts w
  unfolding run_each
  listen-untold port [] w = refl
  listen-untold port (ext ∷ exts) w = listen-untold port exts (ext.on_listen port w).1

  ready-untold :
      (exts : List (Extension p)) (w : p.World) → ready (map untold exts) w ≡ ready exts w
  unfolding ready
  ready-untold [] w = refl
  ready-untold (ext ∷ exts) w = ready-untold exts (ext.on_server_ready w)

  prepare-untold :
      (exts : List (Extension p)) (w : p.World) → prepare (map untold exts) w ≡ prepare exts w
  unfolding prepare
  prepare-untold exts w =
      rw (configure-untold exts w) (ready-untold exts (run_each p (λ ext. ext.on_configure) exts w))

  module _ (net : Net p)
      (forever : (l : net.Listener) (w : p.World) → (net.serve l w).0 ≡ none) where
    run_server_forever :
        (exts : List (Extension p)) (l : net.Listener) (port : ℕ) (w : p.World)
        → run_server net exts l port w
          ≡ (none, (net.serve l (run_each p (λ ext. ext.on_listen port) exts w)).1)
    unfolding run_server
    run_server_forever exts l port w =
        rw (run_server, forever l (run_each p (λ ext. ext.on_listen port) exts w)) refl

    run_server-untold :
        (exts : List (Extension p)) (l : net.Listener) (port : ℕ) (w : p.World)
        → run_server net (map untold exts) l port w ≡ run_server net exts l port w
    run_server-untold exts l port w =
        run_server_forever (map untold exts) l port w
        ∙ ap (λ v. (none, (net.serve l v).1)) (listen-untold port exts w)
        ∙ sym (run_server_forever exts l port w)

    bind_server-untold :
        (config : Configuration) (exts : List (Extension p)) (w : p.World)
        → bind_server net config (map untold exts) w ≡ bind_server net config exts w
    unfolding bind_server
    bind_server-untold config exts w =
        let text = config.address ++ b':' ∷ show_port config.port in
        elim (Result-cases (net.parse text)) [
          | inr (_, e) ↦ rw (e, bind_server) refl
          | inl (addr, e) ↦ elim (Result-cases (net.bind addr w).0) [
            | inr (_, e') ↦ rw (e, bind_server, e') refl
            | inl (l, e') ↦ elim (Result-cases (net.local_port l (net.bind addr w).1).0) [
              | inr (_, e'') ↦ rw (e, bind_server, e', e'') refl
              | inl (n, e'') ↦ rw (e, bind_server, e', e'') (run_server-untold exts l n _)
            ]
          ]
        ]

    -- No extension is told of the shutdown of a server: where `serve` never ends, as axum documents it
    -- of a server without a graceful shutdown, `listen` does what it does with extensions whose
    -- `on_destroy` is empty.
    pub listen_never_destroys :
        (shared : ServerShared p) (w : p.World)
        → listen net (record shared { extensions = map untold shared.extensions }) w
          ≡ listen net shared w
    unfolding listen
    listen_never_destroys shared w =
        ap (bind_server net shared.config (map untold shared.extensions))
          (prepare-untold shared.extensions w)
        ∙ bind_server-untold shared.config shared.extensions (prepare shared.extensions w)
