-- ===== src/Sqlite.antt =====
-- crates/hocuspocus/src/extensions/sqlite.rs: a storage in one SQL table. A blocking task is a call.
pub mod Table
pub mod Unreadable
use hocuspocus_rs.Prelude.{Bool, Option, none, some, Bytes, ascii, Result, ok, err}
use hocuspocus_rs.Platform.{Platform}
use hocuspocus_rs.Extension.{Extension}
use hocuspocus_rs.Database.{Storage, database}

unfoldable pub schema : Bytes
schema =
    ascii
      "CREATE TABLE IF NOT EXISTS \"documents\" (\"name\" varchar(255) NOT NULL,\"data\" blob NOT NULL,UNIQUE(name))"

unfoldable pub select : Bytes
select = ascii "SELECT data FROM \"documents\" WHERE name = ?1 ORDER BY rowid DESC LIMIT 1"

unfoldable pub upsert : Bytes
upsert =
    ascii
      "INSERT INTO \"documents\" (\"name\", \"data\") VALUES (?1, ?2) ON CONFLICT(name) DO UPDATE SET data = ?2"

-- The calls of `rusqlite` (a dependency) on one connection. A query without a row is an error of its
-- own, QueryReturnedNoRows, which `is_no_rows` tells from the others.
pub record Connection (p : Platform) : Type 1 where
  pub Error : Type 0
  pub is_no_rows : Error → Bool
  pub to_string : Error → Bytes
  pub open_path : Bytes → p.World → Result Error (Unit {0}) × p.World
  pub execute_batch : Bytes → p.World → Result Error (Unit {0}) × p.World
  pub prepare_cached : Bytes → p.World → Result Error (Unit {0}) × p.World
  pub query_row : Bytes → Bytes → p.World → Result Error Bytes × p.World
  pub execute : Bytes → Bytes → Bytes → p.World → Result Error (Unit {0}) × p.World

-- `Result::ok`
abbrev pub to_option {ℓ} : {E A : Type ℓ} → Result E A → Option A
to_option (ok a) = some a
to_option (err _) = none

module _ {p : Platform} (c : Connection p) where
  unfoldable pub sqlite_open : Bytes → p.World → Result c.Error (Unit {0}) × p.World
  sqlite_open path w =
      let (opened, w') = c.open_path path w in
      elim opened [ err e ↦ (err e, w') | ok _ ↦ c.execute_batch schema w' ]

  unfoldable pub fetch : Bytes → p.World → Result Bytes (Option Bytes) × p.World
  fetch name w =
      let (prepared, w') = c.prepare_cached select w in
      elim prepared [
        | err e ↦ (err (c.to_string e), w')
        | ok _ ↦ let (row, w'') = c.query_row select name w' in (ok (to_option row), w'')
      ]

  unfoldable pub store : Bytes → Bytes → p.World → Result Bytes (Unit {0}) × p.World
  store name state w =
      let (done, w') = c.execute upsert name state w in
      (elim done [ ok _ ↦ ok tt | err e ↦ err (c.to_string e) ], w')

  abbrev pub sqlite_storage : Storage p
  sqlite_storage = record { fetch = fetch; store = store }

  -- `SqliteStorage::extension`
  abbrev pub sqlite_extension : Extension p
  sqlite_extension = database sqlite_storage
