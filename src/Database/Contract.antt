-- ===== src/Database/Contract.antt =====
-- What a storage of crates/hocuspocus/src/extensions/database.rs promises: a map from names to states.
use hocuspocus_rs.Prelude.{
  ◌≡◌, refl, Option, some, Bytes, Map, lookup, insert, lookup-insert, ok, err, ◌==◌, if◌then◌else◌,
  Bytes-Eq,
}
use hocuspocus_rs.Platform.{Platform}
use hocuspocus_rs.Database.{Storage, memory_storage}

-- The map that a storage stands for. A `fetch` that succeeds answers from it. A `store` that
-- succeeds sets one key, and one that fails changes no key.
pub record IsKeyed {p : Platform} (s : Storage p) (contents : p.World → Bytes → Option Bytes)
    : Type 0 where
  pub fetched :
      (name : Bytes) (w : p.World) {found : Option Bytes}
      → (s.fetch name w).0 ≡ ok found
      → found ≡ contents w name
  pub fetch_keeps :
      (name key : Bytes) (w : p.World) → contents (s.fetch name w).1 key ≡ contents w key
  pub stored :
      (name key state : Bytes) (w : p.World)
      → (s.store name state w).0 ≡ ok tt
      → contents (s.store name state w).1 key ≡ (if name == key then some state else contents w key)
  pub failed :
      (name key state : Bytes) (w : p.World) {e : Bytes}
      → (s.store name state w).0 ≡ err e
      → contents (s.store name state w).1 key ≡ contents w key

-- `read` gives what `write` has put.
module _ (p : Platform) (read : p.World → Map Bytes Bytes)
    (write : Map Bytes Bytes → p.World → p.World)
    (read-write : (m : Map Bytes Bytes) (w : p.World) → read (write m w) ≡ m) where
  -- The in-memory storage is such a storage: its map is what `read` finds.
  pub memory_storage-IsKeyed : IsKeyed (memory_storage p read write) (λ w key. lookup key (read w))
  memory_storage-IsKeyed = record {
    fetched = λ name w e. cc;
    fetch_keeps = λ name key w. refl;
    stored = λ name key state w e.
        rw (read-write (insert name state (read w)) w) (lookup-insert name key state (read w));
    failed = λ name key state w e. cc;
  }
