-- ===== src/Tests/Life.antt =====
-- A server that serves and never ends, and the writer of one socket, at concrete inputs.
use hocuspocus_rs.Prelude.{
  ◌≡◌, refl, Bool, true, false, none, List, [], ◌∷◌, ◌++◌, Bytes, ascii, map, ok,
}
use hocuspocus_rs.Errors.{connection_timeout}
use hocuspocus_rs.Platform.{frame, close}
use hocuspocus_rs.Extension.{Extension, default_extension}
use hocuspocus_rs.Server.Builder.{ServerShared, new_builder, extension, build}
use hocuspocus_rs.Server.Life.{Net, untold, show_port, digits, listen, listen_never_destroys}
use hocuspocus_rs.Server.Writer.{Message, Writes, writer-until_close}
use hocuspocus_rs.Tests.Platform.{small}
use hocuspocus_rs.Tests.Samples.{world}

port_text : show_port 8080 ≡ ascii "8080"
unfolding digits
port_text = refl

abbrev endless : Net small
endless = record {
  SocketAddr = Bytes;
  Listener = Bytes;
  parse = λ text. ok text;
  bind = λ addr w. (ok addr, w);
  local_port = λ l w. (ok 80, w);
  serve = λ l w. (none, record w { time = 6 });
}

-- It would note its end in the world.
abbrev farewell : Extension small
farewell = record (default_extension small) {
  on_listen = λ port w. (ok tt, record w { room = port });
  on_destroy = λ w. (ok tt, record w { time = 99 });
}

abbrev shared : ServerShared small
shared = build (extension farewell (new_builder small))

listen_never_destroys_example :
    listen endless (record shared { extensions = map untold shared.extensions }) (world 9)
    ≡ listen endless shared (world 9)
listen_never_destroys_example = listen_never_destroys endless (λ l w. refl) shared (world 9)

-- A sink that breaks behind its first message.
abbrev append_first : Message → List Message → Bool × List Message
append_first m [] = (true, m ∷ [])
append_first m (x ∷ sent) = (false, x ∷ sent)

append_first_adds :
    (m : Message) (sent : List Message)
    → (append_first m sent).0 ≡ true
    → (append_first m sent).1 ≡ sent ++ m ∷ []
append_first_adds m [] e = refl
append_first_adds m (x ∷ sent) e = cc

append_first_fails :
    (m : Message) (sent : List Message)
    → (append_first m sent).0 ≡ false
    → (append_first m sent).1 ≡ sent
append_first_fails m [] e = cc
append_first_fails m (x ∷ sent) e = refl

writer-until_close_example :
    Writes append_first
      (λ sent. sent)
      5
      (frame (7 ∷ []) ∷ close connection_timeout ∷ frame (8 ∷ []) ∷ [])
      []
writer-until_close_example =
    writer-until_close append_first (λ sent. sent) append_first_adds append_first_fails 5
      (frame (7 ∷ []) ∷ close connection_timeout ∷ frame (8 ∷ []) ∷ []) []
