-- ===== src/Throttle/Hook.antt =====
-- The hook of crates/hocuspocus/src/extensions/throttle.rs.
use hocuspocus_rs.Prelude.{[], ascii, ok, err, if◌then◌else◌}
use hocuspocus_rs.Errors.{forbidden}
use hocuspocus_rs.Context.{client_ip}
use hocuspocus_rs.Platform.{Platform}
use hocuspocus_rs.Extension.{Extension, ConnectionPayload, Admission, default_extension}
use hocuspocus_rs.Document.State.{is_empty, unwrap_or}
use hocuspocus_rs.Throttle.{Throttle, Inner, should_block}

-- `read` and `write` reach the extension's `inner`, which stands in the world.
module _ {p : Platform} (read : p.World → Inner) (write : Inner → p.World → p.World) where
  unfoldable pub on_connect : Throttle → ConnectionPayload p → p.World → Admission p
  on_connect t payload w =
      let ip = unwrap_or (client_ip payload.request) [] in
      let (now, w1) = p.now w in
      let (blocked, inner) = should_block t now ip (read w1) in
      record {
        result = if is_empty ip then ok tt else if blocked then err forbidden else ok tt;
        context = payload.context;
        connection_config = payload.connection_config;
        world = if is_empty ip then w else write inner w1;
      }

  abbrev pub throttle_extension : Throttle → Extension p
  throttle_extension t = record (default_extension p) {
    name = ascii "throttle";
    on_connect = on_connect t;
  }
