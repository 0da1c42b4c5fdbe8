-- ===== src/Server/Fits.antt =====
-- The counters of the queue before authentication in crates/hocuspocus/src/server.rs, and its limits.
use mathlib.Core.Path.{subst}
use hocuspocus_rs.Config.{Configuration}
use hocuspocus_rs.Prelude.{
  contains_key, insert, ◌⊎◌, ℕ, ◌+◌, ◌-◌, ◌≤◌, ◌≡◌, refl, true, Option, none, some, List, [], ◌∷◌,
  ◌++◌, Bytes, Map, arith, lookup, remove, length, length-append, Bytes-Eq,
}
use hocuspocus_rs.Server.Client.{queued}
use hocuspocus_rs.Server.Totals.{
  Distinct, total, weight, total-remove, remove-Distinct, insert-Distinct, length-remove,
  length-remove_found,
}

unfoldable pub size : List Bytes → ℕ
size [] = 0
size (b ∷ bs) = length b + size bs

size-append : (s t : List Bytes) → size (s ++ t) ≡ size s + size t
unfolding size
size-append [] t = ground arith
size-append (b ∷ bs) t = ground (arith, size-append bs t)

-- The counters are the number and the size of the queued frames, and all three limits hold.
unfoldable pub Fits : Configuration → Map Bytes (List Bytes) → ℕ → ℕ → Type 0
Fits config queue bytes messages =
    Distinct queue
    × (messages ≡ total length queue)
    × (bytes ≡ total size queue)
    × (messages ≤ config.max_unauthenticated_queue_messages)
    × (bytes ≤ config.max_unauthenticated_queue_size)
    × (length queue ≤ config.max_pending_documents)

queued_append :
    (f : List Bytes → ℕ) (bytes : Bytes) (o : Option (List Bytes))
    → f [] ≡ 0
    → ((msgs : List Bytes) → f (msgs ++ (bytes ∷ [])) ≡ f msgs + f (bytes ∷ []))
    → f ((elim o [ none ↦ [] | some msgs ↦ msgs ]) ++ (bytes ∷ [])) ≡ weight f o + f (bytes ∷ [])
unfolding weight
queued_append f bytes none z h = ground arith
queued_append f bytes (some msgs) z h = h msgs

total-insert-queued :
    (f : List Bytes → ℕ) (raw_key bytes : Bytes) (queue : Map Bytes (List Bytes))
    → Distinct queue
    → f [] ≡ 0
    → ((msgs : List Bytes) → f (msgs ++ (bytes ∷ [])) ≡ f msgs + f (bytes ∷ []))
    → total f (insert raw_key (queued raw_key queue ++ (bytes ∷ [])) queue)
      ≡ total f queue + f (bytes ∷ [])
unfolding total insert weight
total-insert-queued f raw_key bytes queue d z h =
    ground (arith, total-remove f raw_key queue d, queued_append f bytes (lookup raw_key queue) z h)

pub Fits-eq :
    (config : Configuration) (queue : Map Bytes (List Bytes)) {b b' m m' : ℕ}
    → b ≡ b'
    → m ≡ m'
    → Fits config queue b m
    → Fits config queue b' m'
Fits-eq config queue {b} {b'} {m} {m'} eb em h =
    subst (λ n. Fits config queue n m') eb (subst (λ n. Fits config queue b n) em h)

pub drop_queued :
    (config : Configuration) (queue : Map Bytes (List Bytes)) (raw_key : Bytes)
    (pending : List Bytes) (bytes messages : ℕ)
    → lookup raw_key queue ≡ some pending
    → Fits config queue bytes messages
    → Fits config (remove raw_key queue) (bytes - size pending) (messages - length pending)
unfolding Fits weight
drop_queued config queue raw_key pending bytes messages e h = (
  remove-Distinct raw_key queue h.0,
  ground (arith, total-remove length raw_key queue h.0, e),
  ground (arith, total-remove size raw_key queue h.0, e),
  ground arith,
  ground arith,
  ground (arith, length-remove raw_key queue),
)

pub add_queued :
    (config : Configuration) (queue : Map Bytes (List Bytes)) (raw_key msg : Bytes)
    (bytes messages : ℕ)
    → Fits config queue bytes messages
    → (contains_key raw_key queue ≡ true) ⊎ (length queue + 1 ≤ config.max_pending_documents)
    → messages + 1 ≤ config.max_unauthenticated_queue_messages
    → bytes + length msg ≤ config.max_unauthenticated_queue_size
    → Fits config
        (insert raw_key (queued raw_key queue ++ (msg ∷ [])) queue)
        (bytes + length msg)
        (messages + 1)
unfolding Fits insert size
add_queued config queue raw_key msg bytes messages h room m b = (
  insert-Distinct raw_key (queued raw_key queue ++ (msg ∷ [])) queue h.0,
  ground (arith, total-insert-queued length raw_key msg queue h.0 refl (λ ms. length-append ms _)),
  ground (arith, total-insert-queued size raw_key msg queue h.0 refl (λ ms. size-append ms _)),
  m,
  b,
  ground (arith, length-remove raw_key queue, length-remove_found raw_key queue),
)
