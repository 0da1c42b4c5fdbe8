-- ===== src/Server/Cleanup.antt =====
-- The end of a socket in crates/hocuspocus/src/server.rs, and the connections that documents hold for it.
use hocuspocus_rs.Prelude.{
  ℕ, arith, ◌≡◌, ap, Bool, true, false, some, List, [], ◌∷◌, Bytes, Map, inl, inr, lookup, ◌==◌,
  Bytes-Eq, Bool-cases,
}
use hocuspocus_rs.Config.{Configuration}
use hocuspocus_rs.Context.{RequestMeta}
use hocuspocus_rs.Platform.{Platform}
use hocuspocus_rs.Extension.{Extension}
use hocuspocus_rs.Document.State.{remove_connection}
use hocuspocus_rs.Server.Hub.{Hub}
use hocuspocus_rs.Server.Client.{
  Established, ClientConnection, new_client, terminate, remove_each, cleanup,
}
use hocuspocus_rs.Server.Socket.{
  SocketEvent, binary, other, closed, timeout, handle_frame, finish, run_socket, handle_socket,
}
use hocuspocus_rs.Server.Held.{Booked, Calm, AllCalm, Tracks, refl_Calm, trans_Calm}
use hocuspocus_rs.Server.Accounted.{Accounted, in_world, handle_frame-Accounted}

-- Whether a run of events ends the loop of the socket.
unfoldable pub ends : List SocketEvent → Bool
ends [] = false
ends (binary _ ∷ events) = ends events
ends (other ∷ events) = ends events
ends (closed ∷ _) = true
ends (timeout ∷ _) = true

module _ {p : Platform} {held : p.World → ℕ → ℕ → Bool} {hub : Hub p} (t : Tracks held hub) where
  remove_each-Calm :
      (est : Map Bytes Established) (w : p.World) → Calm held w (remove_each hub est w)
  unfolding remove_each
  remove_each-Calm [] w = refl_Calm
  remove_each-Calm ((key, e) ∷ est) w =
      trans_Calm (t.removes e.doc e.conn_id w).0 (remove_each-Calm est _)

  -- No document holds a listed connection once all have been removed.
  remove_each-held :
      (h i : ℕ) (key : Bytes) (est : Map Bytes Established) (w : p.World)
      → lookup key est ≡ some (record { doc = h; conn_id = i })
      → held (remove_each hub est w) h i ≡ false
  unfolding remove_each lookup
  remove_each-held h i key [] w found = cc
  remove_each-held h i key ((k, e) ∷ est) w found = elim (Bool-cases (k == key)) [
    | inr miss ↦ remove_each-held h i key est _ (ground (arith, found, miss))
    | inl hit ↦
        let w' = (hub.send_command e.doc (remove_connection e.conn_id) w).1 in
        let same : e ≡ record { doc = h; conn_id = i } = ground (arith, found, hit) in
        let off : held w' h i ≡ false =
          (let removed = (t.removes e.doc e.conn_id w).1 in
            let d = ap (λ (e : Established). e.doc) same in
            let n = ap (λ (e : Established). e.conn_id) same in cc) in
        elim (Bool-cases (held (remove_each hub est w') h i)) [
          | inr gone ↦ gone
          | inl on ↦ (let on' = (remove_each-Calm est w').fewer h i on in cc)
        ]
  ]

  cleanup-held :
      (c : ClientConnection p)
      → Accounted held c
      → (h i : ℕ) → held (cleanup hub c).world h i ≡ false
  unfolding cleanup Booked
  cleanup-held c a h i = elim (Bool-cases (held (cleanup hub c).world h i)) [
    | inr off ↦ off
    | inl on ↦
        let (key, listed) = a.booked h i ((remove_each-Calm c.established c.world).fewer h i on) in
        remove_each-held h i key c.established c.world listed
  ]

  finish-held :
      (c : ClientConnection p)
      → Accounted held c
      → (h i : ℕ) → held (finish hub c).world h i ≡ false
  unfolding finish cleanup
  finish-held c a h i = elim (Bool-cases (held (finish hub c).world h i)) [
    | inr off ↦ off
    | inl on ↦
        let on' = (t.abort_writer c.out_tx (cleanup hub c).world).fewer h i on in
        let off = cleanup-held c a h i in cc
  ]

  run_socket-held :
      (events : List SocketEvent) (c : ClientConnection p)
      → ends events ≡ true
      → Accounted held c
      → (h i : ℕ) → held (run_socket hub events c).world h i ≡ false
  unfolding run_socket ends terminate
  run_socket-held [] c e a = cc
  run_socket-held (binary bytes ∷ events) c e a =
      run_socket-held events (handle_frame hub bytes c) e (handle_frame-Accounted t bytes c a)
  run_socket-held (other ∷ events) c e a = run_socket-held events c e a
  run_socket-held (closed ∷ events) c e a = finish-held c a
  run_socket-held (timeout ∷ events) c e a = finish-held _ (in_world c _ (t.try_send _ _ _) a)

  -- When a socket has ended, no document that runs holds a connection of it, whatever frames came and
  -- however its registrations went, if none held one when it began. The hooks that run for the socket
  -- hand no connection over themselves, and an actor that drops an acknowledgement does not run.
  pub handle_socket-held :
      (config : Configuration) (exts : List (Extension p)) (request : RequestMeta) (id out_tx : ℕ)
      (events : List SocketEvent) (w : p.World)
      → AllCalm held exts
      → ((h i : ℕ) → held w h i ≡ false)
      → ends events ≡ true
      → (h i : ℕ)
      → held (handle_socket hub config exts request id out_tx events w).world h i ≡ false
  unfolding handle_socket new_client Booked
  handle_socket-held config exts request id out_tx events w q none_yet e =
      run_socket-held events _ e (record {
        calm = q;
        booked = λ h i on. let on' = (t.now w).fewer h i on in let off = none_yet h i in cc;
      })
