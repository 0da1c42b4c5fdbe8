-- ===== src/Tests/Node.antt =====
-- A node of a cluster: its world holds the rows of a table, the keys and the messages of a Redis
-- server, and the locks that the node has noted.
use hocuspocus_rs.Prelude.{
  ℕ, zero, suc, ◌≡◌, refl, ap, Bool, true, false, Option, none, some, List, [], ◌∷◌, ◌++◌, Bytes,
  ascii, Map, arith, lookup, insert, remove, lookup-insert, lookup-remove, Result, ok, err, ◌==◌,
  if◌then◌else◌, Bytes-Eq, bytes_eq,
}
use hocuspocus_rs.Yrs.{Yrs, SyncMessage, sync_step1, sync_step2, update}
use hocuspocus_rs.Platform.{Platform, sent}
use hocuspocus_rs.Server.Hub.{Hub}
use hocuspocus_rs.Database.Reload.{IsReplayable}
use hocuspocus_rs.Sqlite.{Connection, select}
use hocuspocus_rs.Sqlite.Table.{IsTable}
use hocuspocus_rs.Redis.{RedisServer}
use hocuspocus_rs.Redis.Lock.{IsLock}
use hocuspocus_rs.Tests.Codec.{lib0}
use hocuspocus_rs.Tests.Platform.{edits, encode_message}

abbrev pub decode_message : Bytes → Result Bytes (SyncMessage ℕ)
decode_message [] = err []
decode_message (zero ∷ []) = err []
decode_message (zero ∷ b ∷ _) = ok (sync_step1 b)
decode_message (suc zero ∷ bs) = ok (sync_step2 bs)
decode_message (suc (suc _) ∷ bs) = ok (update bs)

pub decode_message-law : (m : SyncMessage ℕ) → decode_message (encode_message m) ≡ ok m
decode_message-law (sync_step1 sv) = refl
decode_message-law (sync_step2 bytes) = refl
decode_message-law (update bytes) = refl

abbrev plain_edits : Yrs
plain_edits = record edits { decode_update = λ bytes. ok bytes; decode_sync = decode_message }

pub record NodeWorld : Type 0 where
  pub rows : Map Bytes Bytes
  pub keys : Map Bytes Bytes
  pub locks : Map Bytes Bytes
  pub published : List (Bytes × Bytes)
  -- whether the table refuses to be written
  pub read_only : Bool

abbrev pub empty_world : NodeWorld
empty_world = record { rows = []; keys = []; locks = []; published = []; read_only = false }

abbrev pub node : Platform
node = record {
  codec = lib0;
  yrs = plain_edits;
  World = NodeWorld;
  Value = Bytes;
  now = λ w. (5, w);
  try_send = λ to m w. (sent, w);
  send_reply = λ to bytes w. w;
  send_ack = λ to w. w;
  documents_remove = λ name w. w;
}

pub edits-IsReplayable : IsReplayable node []
edits-IsReplayable = record {
  replay = λ doc. doc;
  decoded = λ doc. refl;
  applied = λ doc. refl;
  same = λ doc. refl;
}

abbrev found : Option Bytes → Result Bytes Bytes
found none = err (ascii "no rows")
found (some row) = ok row

-- One SQL table that works, and one whose query fails.
abbrev pub table : Connection node
table = record {
  Error = Bytes;
  is_no_rows = λ e. bytes_eq e (ascii "no rows");
  to_string = λ e. e;
  open_path = λ path w. (ok tt, w);
  execute_batch = λ sql w. (ok tt, w);
  prepare_cached = λ sql w. (ok tt, w);
  query_row = λ sql name w. (found (lookup name w.rows), w);
  execute = λ sql name row w.
      if w.read_only
      then (err (ascii "read-only"), w)
      else (ok tt, record w { rows = insert name row w.rows });
}

abbrev pub locked_table : Connection node
locked_table = record table { query_row = λ sql name w. (err (ascii "database is locked"), w) }

found-some : (row : Option Bytes) (other : Bytes) → found row ≡ ok other → row ≡ some other
found-some none other e = absurd cc
found-some (some row) other e = cc

found-none : (row : Option Bytes) (e : Bytes) → found row ≡ err e → row ≡ none
found-none none e q = refl
found-none (some row) e q = absurd cc

found-is_no_rows :
    (row : Option Bytes) (e : Bytes) → found row ≡ err e → bytes_eq e (ascii "no rows") ≡ true
unfolding bytes_eq
found-is_no_rows none e q = let same : e ≡ ascii "no rows" = cc in rw (same) refl
found-is_no_rows (some row) e q = absurd cc

pub table-IsTable : IsTable table (λ w name. lookup name w.rows)
table-IsTable = record {
  prepared = λ name w. refl;
  found = λ name w row e. found-some (lookup name w.rows) row e;
  missing = λ name w e q _. found-none (lookup name w.rows) e q;
  query_keeps = λ name key w. refl;
  upserted = λ name key row w e. ground (arith, lookup-insert name key row w.rows);
  refused = λ name key row w e. ground arith;
}

pub table-reads :
    (name : Bytes) (w : NodeWorld) (e : Bytes)
    → (table.query_row select name w).0 ≡ err e
    → table.is_no_rows e ≡ true
table-reads name w e q = found-is_no_rows (lookup name w.rows) e q

abbrev set_key : Option Bytes → Bytes → Bytes → NodeWorld → Bool × NodeWorld
set_key none key token w = (true, record w { keys = insert key token w.keys })
set_key (some _) key token w = (false, w)

abbrev pub redis_server : RedisServer node
redis_server = record {
  publish = λ channel message w. record w { published = w.published ++ (channel, message) ∷ [] };
  set_nx_px = λ key token ttl w. set_key (lookup key w.keys) key token w;
  get = λ key w. lookup key w.keys;
  del = λ key w. record w { keys = remove key w.keys };
  reached = λ w. (true, w);
  new_uuid = λ w. (ascii "token", w);
  locks = λ w. w.locks;
  set_locks = λ locks w. record w { locks = locks };
}

set_key-sets :
    (before : Option Bytes) (key token other : Bytes) (w : NodeWorld)
    → (set_key before key token w).0 ≡ true
    → lookup other (set_key before key token w).1.keys
      ≡ (if key == other then some token else lookup other w.keys)
set_key-sets none key token other w e = lookup-insert key other token w.keys
set_key-sets (some _) key token other w e = cc

set_key-refuses :
    (before : Option Bytes) (key token : Bytes) (w : NodeWorld)
    → (set_key before key token w).0 ≡ false
    → (set_key before key token w).1 ≡ w
set_key-refuses none key token w e = cc
set_key-refuses (some _) key token w e = refl

pub set_key-keeps :
    (before : Option Bytes) (key token : Bytes) (w : NodeWorld)
    → (set_key before key token w).1.rows ≡ w.rows
set_key-keeps none key token w = refl
set_key-keeps (some _) key token w = refl

pub server-IsLock : IsLock redis_server (λ w key. lookup key w.keys)
server-IsLock = record {
  acquired = λ key token other ttl w e. set_key-sets (lookup key w.keys) key token other w e;
  taken = λ key token holder ttl w e. rw e refl;
  refused = λ key token other ttl w e.
      ap (λ (v : NodeWorld). lookup other v.keys)
        (set_key-refuses (lookup key w.keys) key token w e);
  got = λ key w. refl;
  deleted = λ key other w. lookup-remove key other w.keys;
  uuid_keeps = λ key w. refl;
  reached_keeps = λ key w. refl;
  locks_keep = λ m key w. refl;
}

-- Each document is resident, with the handle 7.
abbrev pub resident : Hub node
resident = record {
  documents_get = λ name w. (some 7, w);
  documents_insert = λ name h w. w;
  creating_entry = λ name w. (0, w);
  acquire = λ lock w. w;
  release = λ lock w. w;
  creating_remove = λ name w. w;
  new_doc = λ skip_gc. [];
  start_actor = λ d w. (7, w);
  send_command = λ h c w. (true, w);
  ack_channel = λ w. (0, w);
  ack_received = λ ack w. (true, w);
  next_conn_id = λ w. (3, w);
  abort_writer = λ to w. w;
  after_failed_read = λ bytes. [];
}
