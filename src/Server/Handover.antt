-- ===== src/Server/Handover.antt =====
-- What the hooks, the look-up of a document and `register_connection` of
-- crates/hocuspocus/src/server.rs do to the connections that documents hold for a socket.
use hocuspocus_rs.Prelude.{
  ℕ, zero, suc, Bool, List, [], ◌∷◌, Bytes, inl, inr, Bool-cases, Option-cases, Result-cases,
}
use hocuspocus_rs.Config.{Configuration}
use hocuspocus_rs.Context.{Context}
use hocuspocus_rs.Platform.{Platform}
use hocuspocus_rs.Extension.{Extension, Admission, Loaded, ConnectionConfig, DocumentPayload}
use hocuspocus_rs.Document.State.{ConnHandle}
use hocuspocus_rs.Document.Actor.{load_each, spawn}
use hocuspocus_rs.Server.Hub.{Hub, document}
use hocuspocus_rs.Server.Client.{ClientConnection}
use hocuspocus_rs.Server.Auth.{admit_each, register_connection}
use hocuspocus_rs.Server.Registration.{round, sent, answer, round_gone, round_lost, round_done}
use hocuspocus_rs.Server.Held.{
  Calm, IsCalm, AllCalm, Tracks, Registers, refl_Calm, trans_Calm, Registers-after, lost_Calm,
}

module _ {p : Platform} {held : p.World → ℕ → ℕ → Bool} where
  pub admit_each-Calm :
      (hook : Extension p → Context p → ConnectionConfig → p.World → Admission p)
      → ((ext : Extension p) (context : Context p) (config : ConnectionConfig) (w : p.World)
          → IsCalm held ext
          → Calm held w (hook ext context config w).world)
      → (exts : List (Extension p)) (context : Context p) (config : ConnectionConfig) (w : p.World)
      → AllCalm held exts
      → Calm held w (admit_each hook exts context config w).world
  unfolding admit_each AllCalm
  admit_each-Calm hook good [] context config w q = refl_Calm
  admit_each-Calm hook good (ext ∷ exts) context config w q =
      let a = hook ext context config w in
      let first = good ext context config w q.0 in
      elim (Result-cases a.result) [
        | inr (_, e) ↦ rw (admit_each, e) first
        | inl (_, e) ↦
            rw (admit_each, e)
              (trans_Calm first
                (admit_each-Calm hook good exts a.context a.connection_config a.world q.1))
      ]

  load_each-Calm :
      (hook : Extension p → p.Doc → p.World → Loaded p)
      → ((ext : Extension p) (doc : p.Doc) (w : p.World)
          → IsCalm held ext
          → Calm held w (hook ext doc w).world)
      → (exts : List (Extension p)) (doc : p.Doc) (w : p.World) → AllCalm held exts
      → Calm held w (load_each p hook exts doc w).1
  unfolding load_each AllCalm
  load_each-Calm hook good [] doc w q = refl_Calm
  load_each-Calm hook good (ext ∷ exts) doc w q =
      let r = hook ext doc w in
      trans_Calm (good ext doc w q.0) (load_each-Calm hook good exts r.doc r.world q.1)

  spawn-Calm :
      (name : Bytes) (config : Configuration) (exts : List (Extension p)) (doc : p.Doc)
      (w : p.World)
      → AllCalm held exts
      → Calm held w (spawn p name config exts doc w).world
  unfolding spawn
  spawn-Calm name config exts doc w q =
      let payload : DocumentPayload = record { document_name = name; clients_count = 0 } in
      trans_Calm
        (load_each-Calm (λ ext doc. ext.on_load_document doc payload)
          (λ ext doc w q. q.loads doc payload w) exts doc w q)
        (load_each-Calm (λ ext doc. ext.after_load_document doc payload)
          (λ ext doc w q. q.loaded doc payload w) exts _ _ q)

  module _ {hub : Hub p} (t : Tracks held hub) where
    document-Calm :
        (config : Configuration) (exts : List (Extension p)) (name : Bytes) (w : p.World)
        → AllCalm held exts
        → Calm held w (document hub config exts name w).1
    unfolding document
    document-Calm config exts name w q =
        let (lock, w2) = hub.creating_entry name (hub.documents_get name w).1 in
        let second = hub.documents_get name (hub.acquire lock w2) in
        let locked : Calm held w second.1 = trans_Calm (t.documents_get name w) (
          trans_Calm (t.creating_entry name _)
            (trans_Calm (t.acquire lock w2) (t.documents_get name _))) in
        elim (Option-cases (hub.documents_get name w).0) [
          | inr (h, e) ↦ rw (document, e) (t.documents_get name w)
          | inl e ↦ elim (Option-cases second.0) [
            | inr (h, e') ↦ rw (document, e, e') (trans_Calm locked (t.release lock _))
            | inl e' ↦
                rw (document, e, e')
                  (trans_Calm locked (
                    trans_Calm (spawn-Calm name config exts _ _ q) (
                      trans_Calm (t.start_actor _ _) (
                        trans_Calm (t.documents_insert name _ _)
                          (trans_Calm (t.creating_remove name _) (t.release lock _))))))
          ]
        ]

  module _ {hub : Hub p} (t : Tracks held hub) where
    -- Two rounds or any number: a registration hands its connection to the document that it names, or
    -- to none that runs.
    pub register_connection-Registers :
        (n : ℕ) (doc_name : Bytes) (conn : ConnHandle p) (c : ClientConnection p) (w : p.World)
        → AllCalm held c.extensions
        → Registers held w conn.conn_id (register_connection hub n doc_name conn c w)
    unfolding Registers round sent answer register_connection
    register_connection-Registers zero doc_name conn c w q = refl_Calm
    register_connection-Registers (suc n) doc_name conn c w q =
        let (h, ack, w2) = round hub doc_name c w in
        let handed = sent hub doc_name conn c w in
        let answered = answer hub doc_name conn c w in
        let before : Calm held w w2 =
          trans_Calm (document-Calm t c.config c.extensions doc_name w q) (t.ack_channel _) in
        let again = λ (v : p.World) (calm : Calm held w2 v).
          Registers-after conn.conn_id
            (register_connection hub n doc_name conn c (p.documents_remove doc_name v))
            (trans_Calm before (trans_Calm calm (t.documents_remove doc_name v)))
            (register_connection-Registers n doc_name conn c (p.documents_remove doc_name v) q) in
        elim (Bool-cases handed.0) [
          | inr e ↦ rw (round_gone hub n doc_name conn c w e) (
              again handed.1 (
                lost_Calm h conn.conn_id (t.adds h ack conn w2) refl_Calm
                  (t.refused h ack conn w2 e)))
          | inl e ↦ elim (Bool-cases answered.0) [
            | inr e' ↦ rw (round_lost hub n doc_name conn c w e e') (
                again answered.1 (
                  lost_Calm h conn.conn_id (t.adds h ack conn w2) (t.ack_received ack handed.1)
                    (t.dropped h ack conn w2 e')))
            | inl e' ↦ rw (round_done hub n doc_name conn c w e e') (λ h' i on.
                elim (t.adds h ack conn w2 h' i ((t.ack_received ack handed.1).fewer h' i on)) [
                  | inl old ↦ inl (before.fewer h' i old)
                  | inr new ↦ inr new
                ])
          ]
        ]
