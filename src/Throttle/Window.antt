-- ===== src/Throttle/Window.antt =====
-- How many attempts crates/hocuspocus/src/extensions/throttle.rs lets through in a window.
use mathlib.Core.List.{append_assoc, append-nil}
use mathlib.Core.Path.{subst}
use hocuspocus_rs.Prelude.{
  ℕ, ◌+◌, ◌-◌, ◌≤◌, ◌≡◌, refl, ap, sym, Option-cases, All, Bool, true, false, not, ◌&&◌, List, [],
  ◌∷◌, ◌++◌, Bytes, arith, ◌==◌, lookup, lookup-insert, length, length-append, keep, keep-append,
  length-keep-le, ltb, if◌then◌else◌, bytes_eq_iff, Bytes-Eq, inl, inr, Bool-cases,
}
use hocuspocus_rs.Throttle.{Inner, Throttle, new_inner, within, entry, attempt, should_block}

-- Attempts, each a time and an IP, and the times at which those of `ip` were let through.
unfoldable pub admitted : Throttle → Bytes → List (ℕ × Bytes) → Inner → List ℕ
admitted t ip [] inner = []
admitted t ip ((now, from_ip) ∷ later) inner =
    let (blocked, inner') = should_block t now from_ip inner in
    let rest = admitted t ip later inner' in
    if from_ip == ip && not blocked then now ∷ rest else rest

-- The times do not fall, and are at least `start`; `end` is the last.
abbrev pub IsOrdered : ℕ → List (ℕ × Bytes) → Type 0
IsOrdered start [] = Unit {0}
IsOrdered start ((now, ip) ∷ later) = (start ≤ now) × IsOrdered now later

-- How many of the times lie in the window that ends at `now`.
abbrev pub in_window : Throttle → ℕ → List ℕ → ℕ
in_window t now ts = length (keep (within now t.considered) ts)

in_window-append :
    (t : Throttle) (now : ℕ) (xs ys : List ℕ)
    → in_window t now (xs ++ ys) ≡ in_window t now xs + in_window t now ys
in_window-append t now xs ys =
    rw (keep-append (within now t.considered) xs ys)
      (length-append (keep (within now t.considered) xs) _)

-- A later window sees nothing that an earlier one has dropped.
in_window-keep :
    (t : Throttle) (s now : ℕ) (xs : List ℕ)
    → s ≤ now
    → in_window t now (keep (within s t.considered) xs) ≡ in_window t now xs
in_window-keep t s now [] h = refl
in_window-keep t s now (x ∷ xs) h = ground (arith, in_window-keep t s now xs)

-- After the attempts `past` of `ip` that were let through: at any time from `last` on, at most
-- `throttle` of them lie in the window, and the entry counts each of these.
record Inv (t : Throttle) (ip : Bytes) (past : List ℕ) (last : ℕ) (inner : Inner) : Type 0 where
  few : (now : ℕ) → last ≤ now → in_window t now past ≤ t.throttle
  counted : (now : ℕ) → last ≤ now → in_window t now past ≤ in_window t now (entry ip inner)

after_past : Bool → List ℕ → ℕ → List ℕ
after_past true past now = past
after_past false past now = past ++ (now ∷ [])

eq_self : (s : Bytes) → (s == s) ≡ true
eq_self s = (bytes_eq_iff s s).1 refl

abbrev kept : Throttle → ℕ → List ℕ → List ℕ
kept t s ts = keep (within s t.considered) (ts ++ (s ∷ []))

entry-attempt :
    (t : Throttle) (s : ℕ) (ip : Bytes) (inner : Inner)
    → entry ip (attempt t s ip inner).1 ≡ kept t s (entry ip inner)
unfolding attempt
entry-attempt t s ip inner =
    ground (arith, lookup-insert ip ip (kept t s (entry ip inner)) inner.connections, eq_self ip)

entry-attempt_ne :
    (t : Throttle) (s : ℕ) (ip other : Bytes) (inner : Inner)
    → (other == ip) ≡ false
    → entry ip (attempt t s other inner).1 ≡ entry ip inner
unfolding attempt
entry-attempt_ne t s ip other inner h =
    ground (arith, lookup-insert other ip (kept t s (entry other inner)) inner.connections)

attempt-blocks :
    (t : Throttle) (s : ℕ) (ip : Bytes) (inner : Inner)
    → (attempt t s ip inner).0 ≡ ltb t.throttle (length (kept t s (entry ip inner)))
unfolding attempt
attempt-blocks t s ip inner = ground arith

-- What a window at `now` sees of the entry after an attempt at `s`.
seen :
    (t : Throttle) (s now : ℕ) (ip : Bytes) (inner : Inner)
    → s ≤ now
    → in_window t now (entry ip (attempt t s ip inner).1)
      ≡ in_window t now (entry ip inner) + in_window t now (s ∷ [])
seen t s now ip inner h =
    rw (entry-attempt t s ip inner, in_window-keep t s now (entry ip inner ++ (s ∷ [])) h)
      (in_window-append t now (entry ip inner) (s ∷ []))

attempt_same :
    (t : Throttle) (ip : Bytes) (past : List ℕ) (last s : ℕ) (inner : Inner)
    → last ≤ s
    → Inv t ip past last inner
    → Inv t ip (after_past (attempt t s ip inner).0 past s) s (attempt t s ip inner).1
unfolding after_past
attempt_same t ip past last s inner h v = elim (Bool-cases (attempt t s ip inner).0) [
  | inl blocked ↦ rw blocked (record {
    few = λ now g. v.few now (omega arith);
    counted = λ now g. omega (arith, v.counted now (omega arith), seen t s now ip inner g);
  })
  | inr passed ↦ rw passed (record {
    few = λ now g. omega (
      arith,
      passed_few passed,
      v.counted now (omega arith),
      seen t s now ip inner g,
      in_window-append t now past (s ∷ []),
      length-keep-le (within now t.considered) (entry ip (attempt t s ip inner).1),
      ap length (entry-attempt t s ip inner),
    );
    counted = λ now g. omega (
      arith,
      v.counted now (omega arith),
      seen t s now ip inner g,
      in_window-append t now past (s ∷ []),
    );
  })
]
  where
    passed_few : (attempt t s ip inner).0 ≡ false → length (kept t s (entry ip inner)) ≤ t.throttle
    passed_few e = ground (arith, attempt-blocks t s ip inner)

attempt_other :
    (t : Throttle) (ip other : Bytes) (past : List ℕ) (last s : ℕ) (inner : Inner)
    → last ≤ s
    → (other == ip) ≡ false
    → Inv t ip past last inner
    → Inv t ip past s (attempt t s other inner).1
attempt_other t ip other past last s inner h ne v = record {
  few = λ now g. v.few now (omega arith);
  counted = λ now g. rw (entry-attempt_ne t s ip other inner ne) (v.counted now (omega arith));
}

-- One attempt, of `ip` or of another.
next_past : Bytes → Bytes → Bool → List ℕ → ℕ → List ℕ
next_past ip from_ip blocked past now =
    if from_ip == ip && not blocked then past ++ (now ∷ []) else past

next_past_same :
    (ip : Bytes) (blocked : Bool) (past : List ℕ) (now : ℕ)
    → next_past ip ip blocked past now ≡ after_past blocked past now
unfolding next_past after_past
next_past_same ip true past now = rw (eq_self ip)
next_past_same ip false past now = rw (eq_self ip)

next_past_other :
    (ip other : Bytes) (blocked : Bool) (past : List ℕ) (now : ℕ)
    → (other == ip) ≡ false
    → next_past ip other blocked past now ≡ past
unfolding next_past
next_past_other ip other blocked past now h = rw h

next_past_blocked :
    (ip other : Bytes) (past : List ℕ) (now : ℕ) → next_past ip other true past now ≡ past
unfolding next_past
next_past_blocked ip other past now = ground arith

attempt-Inv :
    (t : Throttle) (ip other : Bytes) (past : List ℕ) (last s : ℕ) (inner : Inner)
    → last ≤ s
    → Inv t ip past last inner
    → Inv t ip (next_past ip other (attempt t s other inner).0 past s) s (attempt t s other inner).1
attempt-Inv t ip other past last s inner h v = elim (Bool-cases (other == ip)) [
  | inl hit ↦
      subst
        (λ o. Inv t ip (next_past ip o (attempt t s o inner).0 past s) s (attempt t s o inner).1)
        (sym ((bytes_eq_iff other ip).0 hit))
        (rw (next_past_same ip (attempt t s ip inner).0 past s)
          (attempt_same t ip past last s inner h v))
  | inr miss ↦
      rw (next_past_other ip other (attempt t s other inner).0 past s miss)
        (attempt_other t ip other past last s inner h miss v)
]

should_block-Inv :
    (t : Throttle) (ip other : Bytes) (past : List ℕ) (last s : ℕ) (inner : Inner)
    → last ≤ s
    → Inv t ip past last inner
    → Inv t ip
        (next_past ip other (should_block t s other inner).0 past s)
        s
        (should_block t s other inner).1
unfolding should_block
should_block-Inv t ip other past last s inner h v =
    elim (Option-cases (lookup other inner.banned)) [
      | inl free ↦ rw (free, should_block) (attempt-Inv t ip other past last s inner h v)
      | inr (b, e) ↦ elim (Bool-cases (ltb (s - b) t.ban_time)) [
        | inl banned ↦
            rw (e, should_block, banned, next_past_blocked ip other past s)
              (record {
                few = λ now g. v.few now (omega arith);
                counted = λ now g. v.counted now (omega arith);
              })
        | inr over ↦
            rw (e, should_block, over)
              (attempt-Inv t ip other past last s _ h (record { few = v.few; counted = v.counted }))
      ]
    ]

admitted-next :
    (t : Throttle) (ip other : Bytes) (past : List ℕ) (now : ℕ) (later : List (ℕ × Bytes))
    (inner : Inner)
    → past ++ admitted t ip ((now, other) ∷ later) inner
      ≡ next_past ip other (should_block t now other inner).0 past now
        ++ admitted t ip later (should_block t now other inner).1
unfolding admitted next_past
admitted-next t ip other past now later inner =
    ground
      (arith, append_assoc past (now ∷ []) (admitted t ip later (should_block t now other inner).1))

run_few :
    (t : Throttle) (ip : Bytes) (attempts : List (ℕ × Bytes)) (past : List ℕ) (last : ℕ)
    (inner : Inner) (now : ℕ)
    → IsOrdered last attempts
    → All (λ a. a.0 ≤ now) attempts
    → last ≤ now
    → Inv t ip past last inner
    → in_window t now (past ++ admitted t ip attempts inner) ≤ t.throttle
run_few t ip [] past last inner now o b h v = unfold admitted in rw append-nil (v.few now h)
run_few t ip ((s, other) ∷ later) past last inner now o b h v =
    rw (admitted-next t ip other past s later inner) (
      run_few t ip later (next_past ip other (should_block t s other inner).0 past s) s
        (should_block t s other inner).1 now o.1 b.1 b.0
        (should_block-Inv t ip other past last s inner o.0 v))

-- Of any run of attempts in the order of their times, by any IPs, at most `throttle` attempts of one
-- IP that were let through lie in the window that ends at `now`, for a `now` that no attempt is after.
pub admitted_few :
    (t : Throttle) (ip : Bytes) (attempts : List (ℕ × Bytes)) (now : ℕ)
    → IsOrdered 0 attempts
    → All (λ a. a.0 ≤ now) attempts
    → in_window t now (admitted t ip attempts new_inner) ≤ t.throttle
admitted_few t ip attempts now o b =
    run_few t ip attempts [] 0 new_inner now o b (omega arith)
      (record { few = λ _ _. omega arith; counted = λ _ _. omega arith })
