-- ===== src/Logger/Silent.antt =====
-- The logger of crates/hocuspocus/src/extensions/logger.rs beside other extensions.
use hocuspocus_rs.Prelude.{◌≡◌, ◌∙◌, Option, ◌∷◌, List, Bytes, ascii}
use hocuspocus_rs.Platform.{Platform}
use hocuspocus_rs.Extension.{Extension, run_each, run_until_error}
use hocuspocus_rs.Document.Store.{run_store_hooks}
use hocuspocus_rs.Document.View.{IsQuiet}
use hocuspocus_rs.Document.Durable.{IsStore}
use hocuspocus_rs.Logger.{Logger, line, logger_extension, log_change, log_store, log_disconnect}

module _ {p : Platform} {view : p.World → Option Bytes} (info : Bytes → p.World → p.World)
    (l : Logger) (silent : (line : Bytes) (w : p.World) → view (info line w) ≡ view w)
    (name : Bytes) {exts : List (Extension p)} where
  logger-IsQuiet : IsQuiet view exts → IsQuiet view (logger_extension p info l ∷ exts)
  unfolding run_each run_until_error log_change log_disconnect
  logger-IsQuiet q = record {
    before_message = λ payload w. q.before_message payload w;
    changed = λ payload w. q.changed payload (log_change p info l payload w).1 ∙ silent _ w;
    aware = λ payload w. q.aware payload w;
    stateless = λ payload w. q.stateless payload w;
    disconnected =
        λ payload w. q.disconnected payload (log_disconnect p info l payload w).1 ∙ silent _ w;
    before_unload = λ payload w. q.before_unload payload w;
    after_unload = λ name w. q.after_unload name w;
  }

  -- With the logger in front, extensions that store a document still do: what they promise of the
  -- storage holds as before, where a log line does not reach the storage.
  pub logger-IsStore :
      IsStore p view name exts → IsStore p view name (logger_extension p info l ∷ exts)
  unfolding run_store_hooks run_until_error run_each log_store
  logger-IsStore s = record {
    keeps = s.keeps;
    quiet = logger-IsQuiet s.quiet;
    puts = λ state payload w n h.
        s.puts state payload (info (line l (ascii "Store") payload.document_name (ascii ".")) w) n
          h;
  }
