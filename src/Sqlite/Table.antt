-- ===== src/Sqlite/Table.antt =====
-- The storage of crates/hocuspocus/src/extensions/sqlite.rs over a connection to one table.
use hocuspocus_rs.Prelude.{
  ◌≡◌, ◌∙◌, ◌⊎◌, true, false, Option, none, some, Bytes, ascii, ok, err, arith, ◌==◌, if◌then◌else◌,
  inl, inr, Result-cases, Bool-cases, Bytes-Eq,
}
use hocuspocus_rs.Platform.{Platform}
use hocuspocus_rs.Database.Contract.{IsKeyed}
use hocuspocus_rs.Sqlite.{Connection, select, upsert, fetch, store, sqlite_storage}

-- The texts of a query for the newest row of a name, and of a statement that sets the row of a name.
abbrev newest_row : Bytes
newest_row = ascii "SELECT data FROM \"documents\" WHERE name = ?1 ORDER BY rowid DESC LIMIT 1"

abbrev set_row : Bytes
set_row =
    ascii
      "INSERT INTO \"documents\" (\"name\", \"data\") VALUES (?1, ?2) ON CONFLICT(name) DO UPDATE SET data = ?2"

-- What SQLite and `rusqlite` document of such texts on a table with one row for a name: a query that
-- succeeds gives the row, one that ends in QueryReturnedNoRows has found none, and neither it nor its
-- preparation writes; the statement sets one row, or fails and leaves the table as it was. Of a query
-- that fails in another way nothing is said.
pub record Serves {p : Platform} (c : Connection p) (rows : p.World → Bytes → Option Bytes)
    (query statement : Bytes) : Type 0 where
  pub prepared : (name : Bytes) (w : p.World) → rows (c.prepare_cached query w).1 name ≡ rows w name
  pub found :
      (name : Bytes) (w : p.World) (row : Bytes)
      → (c.query_row query name w).0 ≡ ok row
      → rows w name ≡ some row
  pub missing :
      (name : Bytes) (w : p.World) (e : c.Error)
      → (c.query_row query name w).0 ≡ err e
      → c.is_no_rows e ≡ true
      → rows w name ≡ none
  pub query_keeps :
      (name key : Bytes) (w : p.World) → rows (c.query_row query name w).1 key ≡ rows w key
  pub upserted :
      (name key state : Bytes) (w : p.World)
      → (c.execute statement name state w).0 ≡ ok tt
      → rows (c.execute statement name state w).1 key
        ≡ (if name == key then some state else rows w key)
  pub refused :
      (name key state : Bytes) (w : p.World) {e : c.Error}
      → (c.execute statement name state w).0 ≡ err e
      → rows (c.execute statement name state w).1 key ≡ rows w key

abbrev pub IsTable : {p : Platform} (c : Connection p) → (p.World → Bytes → Option Bytes) → Type 0
IsTable c rows = Serves c rows newest_row set_row

module _ {p : Platform} (c : Connection p) {rows : p.World → Bytes → Option Bytes}
    (served : IsTable c rows) where
  -- The two texts are those of the storage.
  t : Serves c rows select upsert
  unfolding select upsert
  t = served

  store-ok :
      (name key state : Bytes) (w : p.World)
      → (store c name state w).0 ≡ ok tt
      → rows (store c name state w).1 key ≡ (if name == key then some state else rows w key)
  unfolding store
  store-ok name key state w e = elim (Result-cases (c.execute upsert name state w).0) [
    | inl (_, e') ↦ t.upserted name key state w e'
    | inr (_, e') ↦ ground arith
  ]

  store-err :
      (name key state : Bytes) (w : p.World) {why : Bytes}
      → (store c name state w).0 ≡ err why
      → rows (store c name state w).1 key ≡ rows w key
  unfolding store
  store-err name key state w e = elim (Result-cases (c.execute upsert name state w).0) [
    | inl (_, e') ↦ ground arith
    | inr (_, e') ↦ t.refused name key state w e'
  ]

  fetch-keeps : (name key : Bytes) (w : p.World) → rows (fetch c name w).1 key ≡ rows w key
  unfolding fetch
  fetch-keeps name key w = elim (Result-cases (c.prepare_cached select w).0) [
    | inl (_, e) ↦
        rw (e, fetch) (t.query_keeps name key (c.prepare_cached select w).1 ∙ t.prepared key w)
    | inr (_, e) ↦ rw (e, fetch) (t.prepared key w)
  ]

  -- The query failed, in another way than for want of a row.
  abbrev pub FailsOtherwise : Bytes → p.World → Type 0
  FailsOtherwise name w =
      (e : c.Error) × ((c.query_row select name (c.prepare_cached select w).1).0 ≡ err e)
      × (c.is_no_rows e ≡ false)

  fetch-rows :
      (name : Bytes) (w : p.World) (found : Option Bytes)
      → (fetch c name w).0 ≡ ok found
      → (found ≡ rows w name) ⊎ ((found ≡ none) × FailsOtherwise name w)
  unfolding fetch
  fetch-rows name w found e =
      let w' = (c.prepare_cached select w).1 in
      elim (Result-cases (c.prepare_cached select w).0) [
        | inr (_, e') ↦ absurd (ground arith)
        | inl (_, e') ↦ elim (Result-cases (c.query_row select name w').0) [
          | inl (row, q) ↦ inl (ground (arith, t.prepared name w, t.found name w' row q))
          | inr (why, q) ↦ elim (Bool-cases (c.is_no_rows why)) [
            | inl h ↦ inl (ground (arith, t.prepared name w, t.missing name w' why q h))
            | inr h ↦ inr (ground arith, (why, q, h))
          ]
        ]
      ]

  -- After a store that has succeeded, a fetch that succeeds gives the stored state under its name and
  -- the earlier row under every other name; or its query has failed in another way than for want of a
  -- row, and the fetch says that there is no row.
  pub store-fetch :
      (name other state : Bytes) (w : p.World) (found : Option Bytes)
      → (store c name state w).0 ≡ ok tt
      → let w' = (store c name state w).1 in
        (fetch c other w').0 ≡ ok found
        → (found ≡ (if name == other then some state else rows w other))
          ⊎ ((found ≡ none) × FailsOtherwise other w')
  store-fetch name other state w found stored fetched =
      elim (fetch-rows other (store c name state w).1 found fetched) [
        | inl e ↦ inl (e ∙ store-ok name other state w stored)
        | inr failed ↦ inr failed
      ]

  -- Where no query fails in another way than for want of a row, the storage is the map that the
  -- table is.
  pub sqlite_storage-IsKeyed :
      ((name : Bytes) (w : p.World) (e : c.Error)
        → (c.query_row select name w).0 ≡ err e
        → c.is_no_rows e ≡ true)
      → IsKeyed (sqlite_storage c) rows
  sqlite_storage-IsKeyed reads = record {
    fetched = λ name w {found} e. elim (fetch-rows name w found e) [
      | inl q ↦ q
      | inr (_, (why, failed, otherwise)) ↦
          absurd (ground (arith, reads name (c.prepare_cached select w).1 why failed))
    ];
    fetch_keeps = fetch-keeps;
    stored = store-ok;
    failed = store-err;
  }
