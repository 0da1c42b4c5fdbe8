-- ===== src/Tests/Documents.antt =====
-- Runs of the document actor, and its theorems at concrete inputs.
use hocuspocus_rs.Prelude.{
  ℕ, ◌+◌, ◌≡◌, refl, ◌⊎◌, true, false, not, ◌||◌, some, List, [], ◌∷◌, ◌++◌, Bytes, ascii, arith,
  drop, min, lookup, length, if◌then◌else◌, ℕ-Eq,
}
use hocuspocus_rs.Errors.{reset_connection}
use hocuspocus_rs.Config.{default_configuration}
use hocuspocus_rs.Origin.{Origin}
use hocuspocus_rs.Protocol.{parse, from_u64}
use hocuspocus_rs.Tests.Codec.{read_varint, read_chunk}
use hocuspocus_rs.Document.State.{DocCommand, Document, store_deadline, mark_dirty, send_frame}
use hocuspocus_rs.Document.Connections.{close_connection}
use hocuspocus_rs.Document.Updates.{
  before_handle_message, apply_and_broadcast, send_sync_status, handle_sync,
}
use hocuspocus_rs.Extension.{run_each, run_until_error}
use hocuspocus_rs.Document.Commands.{dispatch, handle_client_frame, handle_command}
use hocuspocus_rs.Document.Store.{maybe_unload, unload, run_store_hooks}
use hocuspocus_rs.Document.Actor.{
  Reach, start, next, batch, spawn, load_each, run_commands, on_batch,
}
use hocuspocus_rs.Document.Core.{core}
use hocuspocus_rs.Document.Access.{handle_client_frame-read_only}
use hocuspocus_rs.Document.Exit.{maybe_unload_leaves, unload_loses_changes}
use hocuspocus_rs.Document.FanOut.{deliver}
use hocuspocus_rs.Document.Removal.{closed_ignores}
use hocuspocus_rs.Document.Coalesce.{on_batch_covers, share}
use hocuspocus_rs.Document.Invariant.{Inv, flushed}
use hocuspocus_rs.Document.Reachable.{one_store}
use hocuspocus_rs.Document.Debounce.{Edit, edit_each, burst-store_deadline}
use hocuspocus_rs.Yrs.Unnoticed.{Unnoticed}
use hocuspocus_rs.Tests.Platform.{edits, small}
use hocuspocus_rs.Tests.Samples.{
  client, rejects_updates, world, fresh, two_clients, unsaved, keeps_warm,
}

-- `Sync` with an `Update` that holds the edit 9.
abbrev edit_frame : Bytes
edit_frame = 3 ∷ ascii "doc" ++ (0 ∷ 2 ∷ 9 ∷ [])

-- The writer's edit reaches the document, the reader's does not.
edit_of_writer : (handle_client_frame 2 edit_frame two_clients).doc ≡ 7 ∷ 9 ∷ []
unfolding spawn load_each handle_client_frame dispatch handle_sync parse from_u64 read_varint
    read_chunk before_handle_message apply_and_broadcast mark_dirty run_until_error run_each
    send_sync_status lookup send_frame
edit_of_writer = refl

handle_client_frame-read_only_example :
    core (handle_client_frame 1 edit_frame two_clients) ≡ core two_clients
unfolding lookup spawn
handle_client_frame-read_only_example =
    handle_client_frame-read_only 1 edit_frame two_clients (client 1 true) refl refl

-- A hook that rejects every update.
abbrev guarded : Document small
unfolding spawn
guarded = record two_clients { extensions = rejects_updates ∷ [] }

closed_ignores_example :
    handle_client_frame 2 edit_frame (close_connection 2 reset_connection two_clients)
    ≡ close_connection 2 reset_connection two_clients
closed_ignores_example = closed_ignores 2 reset_connection edit_frame two_clients

-- With room for one message only, the second client is evicted.
abbrev crowded : Document small
unfolding spawn
crowded = record two_clients { world = world 1 }

evicts_second : (deliver (λ addr. addr) crowded.connections crowded.world).0 ≡ 2 ∷ []
unfolding crowded deliver send_frame
evicts_second = refl

maybe_unload_leaves_example :
    ((fresh default_configuration []).connections ≡ [])
    × ((fresh default_configuration []).storing ≡ false)
    × ((maybe_unload (fresh default_configuration [])).1.connections ≡ [])
    × ((default_configuration.unload_immediately || not (fresh default_configuration []).dirty)
        ≡ true)
unfolding maybe_unload unload run_until_error spawn
maybe_unload_leaves_example = maybe_unload_leaves (fresh default_configuration []) refl

unload_loses_changes_example :
    ((maybe_unload (unsaved default_configuration)).0 ≡ true)
    × ((maybe_unload (unsaved default_configuration)).1.dirty ≡ true)
    × ((maybe_unload (unsaved default_configuration)).1.doc ≡ (unsaved default_configuration).doc)
unfolding spawn run_store_hooks run_until_error
unload_loses_changes_example =
    unload_loses_changes (unsaved default_configuration) refl refl refl refl refl refl

abbrev two_edits : List (DocCommand small)
two_edits = DocCommand.direct_apply (8 ∷ []) 0 ∷ DocCommand.direct_apply (9 ∷ []) 1 ∷ []

two_clients-Inv : Inv (core two_clients)
unfolding spawn
two_clients-Inv = record {
  first_stamped = refl;
  last_stamped = refl;
  based = refl;
  one_store = refl;
}

on_batch_covers_example :
    let d' = (run_commands two_edits two_clients).1 in
    (Unnoticed edits two_clients.doc d'.doc × ((on_batch two_edits two_clients).1 ≡ d'))
    ⊎ ((before : Bytes) × Unnoticed edits two_clients.doc before
        × ((on_batch two_edits two_clients).1 ≡ share (drop (length before) d'.doc) (flushed d')))
unfolding spawn
on_batch_covers_example = on_batch_covers two_edits two_clients two_clients-Inv refl

-- The actor after the two edits, not yet stored.
abbrev edited : Document small
edited = (on_batch two_edits (fresh keeps_warm [])).1

edited_reached : Reach (spawn small (ascii "doc") keeps_warm [] (7 ∷ []) (world 9)) edited
unfolding on_batch run_commands handle_command
edited_reached = next start (batch two_edits refl (omega arith)) refl

-- Two edits, of which the second is so late that the bound on debouncing comes first.
abbrev edit_at : ℕ → ℕ → Edit small
edit_at t b = record {
  world = record { time = t; outbox = []; room = 9 };
  bytes = b ∷ [];
  origin = Origin.local;
}

burst-store_deadline_example :
    store_deadline (edit_each (edit_at 3 8 ∷ edit_at 9999 9 ∷ []) (fresh keeps_warm []))
    ≡ some (min (9999 + keeps_warm.debounce) (3 + keeps_warm.max_debounce))
unfolding spawn load_each apply_and_broadcast mark_dirty run_each
burst-store_deadline_example =
    burst-store_deadline (ascii "doc") keeps_warm [] (7 ∷ []) (world 9) start (edit_at 3 8)
      (edit_at 9999 9 ∷ []) refl refl ((8 ∷ [], refl, refl, refl), ((9 ∷ [], refl, refl, refl), tt))

one_store_example :
    length edited.jobs + length edited.store_results ≡ (if edited.storing then 1 else 0)
one_store_example = one_store (ascii "doc") keeps_warm [] (7 ∷ []) (world 9) edited_reached
