-- ===== src/Server/Builder.antt =====
-- `ServerBuilder` of crates/hocuspocus/src/server.rs, and the order in which extensions run.
use hocuspocus_rs.Prelude.{ℕ, List, [], ◌∷◌, ◌++◌, Bytes, leb_ℤ, if◌then◌else◌}
use hocuspocus_rs.Config.{Configuration, default_configuration}
use hocuspocus_rs.Platform.{Platform}
use hocuspocus_rs.Extension.{Extension}

pub record ServerBuilder (p : Platform) : Type 0 where
  pub config : Configuration
  pub extensions : List (Extension p)

-- `ServerShared`, less the maps of documents and locks, which are the hub's.
pub record ServerShared (p : Platform) : Type 0 where
  pub config : Configuration
  pub extensions : List (Extension p)
  pub next_conn_id : ℕ
  pub next_socket_id : ℕ
  pub active_connections : ℕ

-- `ServerBuilder::default`, which `new` and `Hocuspocus::builder` call.
abbrev pub new_builder : (p : Platform) → ServerBuilder p
new_builder p = record { config = default_configuration; extensions = [] }

module _ {p : Platform} where
  abbrev pub configuration : Configuration → ServerBuilder p → ServerBuilder p
  configuration config b = record b { config = config }

  abbrev pub port : ℕ → ServerBuilder p → ServerBuilder p
  port n b = record b { config = record b.config { port = n } }

  abbrev pub address : Bytes → ServerBuilder p → ServerBuilder p
  address text b = record b { config = record b.config { address = text } }

  unfoldable pub extension : Extension p → ServerBuilder p → ServerBuilder p
  extension ext b = record b { extensions = b.extensions ++ ext ∷ [] }

  -- The stable sort of the standard library, for the comparison `b.priority().cmp(&a.priority())`.
  unfoldable pub place : Extension p → List (Extension p) → List (Extension p)
  place ext [] = ext ∷ []
  place ext (e ∷ es) =
      let rest = place ext es in if leb_ℤ e.priority ext.priority then ext ∷ e ∷ es else e ∷ rest

  unfoldable pub sort_by_priority : List (Extension p) → List (Extension p)
  unfolding place
  sort_by_priority [] = []
  sort_by_priority (ext ∷ exts) = place ext (sort_by_priority exts)

  unfoldable pub build : ServerBuilder p → ServerShared p
  build b = record {
    config = b.config;
    extensions = sort_by_priority b.extensions;
    next_conn_id = 1;
    next_socket_id = 1;
    active_connections = 0;
  }
