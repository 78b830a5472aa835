-- ===== src/Scheduling/Service/AtMostOnce.antt =====
-- src/scheduling/scheduling-service.ts, src/scheduling/send-outbox.ts: a single-fire key is never
-- sent twice, unless the first send provably did not happen.
use qiyan_bot.Core.{Result}
use qiyan_bot.Prelude.{
  ℕ, suc, ◌+◌, ◌≤◌, ◌≡◌, refl, ◌≢◌, inl, inr, String, str_eq, Bool, not, ◌&&◌, Option, none, some,
  List, [], ◌∷◌, ◌++◌, arith, if◌then◌else◌, is_some, or_else, ap, ◌∙◌, get, get-delete_ne, eq_iff,
  Bool-cases, Option-cases,
}
use qiyan_bot.Scheduling.Outbox.{
  ScheduledSend, sent, key_of, is_sending, claim, claimed, in_flight, delivered, ClaimOutcome,
  mark_sent, release,
}
use qiyan_bot.Scheduling.Outbox.Claims.{
  fresh_row, get-mark_sent, claim_free, claim-sent, get-fresh, get-release-fresh, get-claim_ne,
}
use qiyan_bot.Scheduling.Schedules.{ScheduleRow}
use qiyan_bot.Scheduling.Service.{
  Sent, Ledger, fire, fire_claimed, settle_send, is_proven_not_dispatched, is_busy,
  recovery_mapping_id, target_nickname, is_missing,
}

-- the sends of this key that may have reached the worker
abbrev pub dispatched_for : String → List Sent → ℕ
dispatched_for key [] = 0
dispatched_for key (s ∷ ss) =
    let rest = dispatched_for key ss in
    if str_eq s.single_fire_key key && not (is_proven_not_dispatched s.outcome)
    then suc rest
    else rest

dispatched_for-append :
    (key : String) (xs ys : List Sent)
    → dispatched_for key (xs ++ ys) ≡ dispatched_for key xs + dispatched_for key ys
dispatched_for-append key [] ys = omega arith
dispatched_for-append key (x ∷ xs) ys = ground (arith, dispatched_for-append key xs ys)

abbrev used : Option ScheduledSend → ℕ
used none = 0
used (some r) = 1

-- Between two fires the key has no row, or one that says it was sent.
record IsSettled (key : String) (n : ℕ) (l : Ledger) : Type 0 where
  spent : dispatched_for key l.sends ≤ n + used (get key_of key l.outbox)
  final : (r : ScheduledSend) → get key_of key l.outbox ≡ some r → r.state ≡ sent

-- the row that a claim inserted, once the send has ended
settle_fresh :
    (key nickname message : String) (now : ℕ) (is_recovery : Bool) (outcome : Result (Unit {0}))
    (rows : List ScheduledSend) (sends : List Sent) (n : ℕ)
    → get key_of key rows ≡ none
    → dispatched_for key sends ≤ n + (if is_proven_not_dispatched outcome then 0 else 1)
    → IsSettled key n
        (settle_send key is_recovery outcome
          (record { outbox = rows ++ fresh_row key nickname message now ∷ []; sends = sends })).1
unfolding settle_send fresh_row
settle_fresh key nickname message now is_recovery outcome rows sends n h c =
    elim (Bool-cases (is_recovery && is_busy outcome)) [
      | inl busy ↦ rw busy (marked (ground arith))
      | inr other ↦ rw other (elim (Bool-cases (is_proven_not_dispatched outcome)) [
        | inl proven ↦ rw proven (record {
          spent = ground (arith, get-release-fresh key nickname message now rows h);
          final = λ r e. ground (arith, get-release-fresh key nickname message now rows h);
        })
        | inr open_ ↦ rw open_ (marked (ground arith))
      ])
    ]
  where
    marked :
        dispatched_for key sends ≤ n + 1
        → IsSettled key n (record {
          outbox = mark_sent key (rows ++ fresh_row key nickname message now ∷ []);
          sends = sends;
        })
    marked k = record {
      spent = ground (
        arith,
        eq_iff key key,
        get-mark_sent key key (rows ++ fresh_row key nickname message now ∷ []),
        get-fresh key key nickname message now rows h,
      );
      final = λ r e. ground (
        arith,
        eq_iff key key,
        get-mark_sent key key (rows ++ fresh_row key nickname message now ∷ []),
        get-fresh key key nickname message now rows h,
      );
    }

-- a call of `fire`, at its time and with the way its send would end
pub record Attempt : Type 0 where
  pub row : ScheduleRow
  pub key : String
  pub now : ℕ
  pub outcome : Result (Unit {0})

module _ (stale : ℕ) (resolve : ScheduleRow → String → Option String) where
  fire_same :
      (row : ScheduleRow) (key : String) (now : ℕ) (outcome : Result (Unit {0})) (n : ℕ)
      (l : Ledger)
      → IsSettled key n l
      → IsSettled key n (fire stale resolve row key now outcome l).1
  unfolding fire fire_claimed
  fire_same row key now outcome n l v =
      elim (Bool-cases (is_missing (target_nickname resolve row (recovery_mapping_id row)))) [
        | inl dropped ↦ rw dropped v
        | inr wanted ↦ rw wanted (elim (Option-cases (get key_of key l.outbox)) [
          | inl free ↦ rw (claim_free stale key row.nickname row.message now l.outbox free) (
              settle_fresh key row.nickname row.message now (is_some (recovery_mapping_id row))
                outcome l.outbox _ n free
                (ground (
                  arith,
                  eq_iff key key,
                  v.spent,
                  dispatched_for-append key l.sends (
                      record {
                        nickname =
                            or_else (target_nickname resolve row (recovery_mapping_id row)) "";
                        message = row.message;
                        single_fire_key = key;
                        is_recovery = is_some (recovery_mapping_id row);
                        outcome = outcome;
                      }
                      ∷ []),
                )))
          | inr (r, held) ↦
              rw
                (claim-sent stale key row.nickname row.message now l.outbox r held (v.final r held))
                v
        ])
      ]

  -- what a fire of another key may do to the row and the sends of this key: nothing
  settle_other :
      (j key : String) (is_recovery : Bool) (outcome : Result (Unit {0})) (l : Ledger)
      → key ≢ j
      → (get key_of j (settle_send key is_recovery outcome l).1.outbox ≡ get key_of j l.outbox)
        × ((settle_send key is_recovery outcome l).1.sends ≡ l.sends)
  unfolding settle_send release
  settle_other j key is_recovery outcome l d = (
    ground (
      arith,
      eq_iff key j,
      get-mark_sent j key l.outbox,
      get-delete_ne key_of j key (λ r. is_sending r.state) l.outbox d,
    ),
    ground arith,
  )

  fire_claimed_other :
      (j : String) (answer : ClaimOutcome) (nickname message key : String) (is_recovery : Bool)
      (outcome : Result (Unit {0})) (l : Ledger)
      → key ≢ j
      → (get key_of j (fire_claimed answer nickname message key is_recovery outcome l).1.outbox
          ≡ get key_of j l.outbox)
        × (dispatched_for j (fire_claimed answer nickname message key is_recovery outcome l).1.sends
            ≡ dispatched_for j l.sends)
  unfolding fire_claimed
  fire_claimed_other j claimed nickname message key is_recovery outcome l d =
      let s = record l {
        sends =
            l.sends
            ++ record {
              nickname = nickname;
              message = message;
              single_fire_key = key;
              is_recovery = is_recovery;
              outcome = outcome;
            }
              ∷ [];
      } in
      let (kept, same) = settle_other j key is_recovery outcome s d in
      (kept, ap (dispatched_for j) same ∙ other_sent)
    where
      other_sent :
          dispatched_for j (
            l.sends
            ++ record {
              nickname = nickname;
              message = message;
              single_fire_key = key;
              is_recovery = is_recovery;
              outcome = outcome;
            }
              ∷ [])
          ≡ dispatched_for j l.sends
      other_sent = ground (
        arith,
        eq_iff key j,
        dispatched_for-append j l.sends (
            record {
              nickname = nickname;
              message = message;
              single_fire_key = key;
              is_recovery = is_recovery;
              outcome = outcome;
            }
            ∷ []),
      )
  fire_claimed_other j in_flight nickname message key is_recovery outcome l d = (refl, refl)
  fire_claimed_other j delivered nickname message key is_recovery outcome l d = (refl, refl)

  fire_other :
      (j : String) (row : ScheduleRow) (key : String) (now : ℕ) (outcome : Result (Unit {0}))
      (l : Ledger)
      → key ≢ j
      → (get key_of j (fire stale resolve row key now outcome l).1.outbox ≡ get key_of j l.outbox)
        × (dispatched_for j (fire stale resolve row key now outcome l).1.sends
            ≡ dispatched_for j l.sends)
  unfolding fire
  fire_other j row key now outcome l d =
      elim (Bool-cases (is_missing (target_nickname resolve row (recovery_mapping_id row)))) [
        | inl dropped ↦ rw dropped (refl, refl)
        | inr wanted ↦ rw wanted (
            ground (
              arith,
              get-claim_ne stale j key row.nickname row.message now l.outbox d,
              fire_claimed_other j (claim stale key row.nickname row.message now l.outbox).0
                  (or_else (target_nickname resolve row (recovery_mapping_id row)) "") row.message
                  key (is_some (recovery_mapping_id row)) outcome
                  (record l { outbox = (claim stale key row.nickname row.message now l.outbox).1 })
                  d,
            ))
      ]

  unfoldable pub fire_all : List Attempt → Ledger → Ledger
  fire_all [] l = l
  fire_all (a ∷ as_) l = fire_all as_ (fire stale resolve a.row a.key a.now a.outcome l).1

  fire-IsSettled :
      (key : String) (n : ℕ) (a : Attempt) (l : Ledger)
      → IsSettled key n l
      → IsSettled key n (fire stale resolve a.row a.key a.now a.outcome l).1
  fire-IsSettled key n a l v = elim (Bool-cases (str_eq a.key key)) [
    | inl same ↦
        let e = (eq_iff a.key key).0 same in rw e (fire_same a.row key a.now a.outcome n l v)
    | inr other ↦
        let (kept, count) =
          fire_other key a.row a.key a.now a.outcome l (λ e. ground (arith, eq_iff a.key key)) in
        record { spent = rw (kept, count) v.spent; final = λ r e. v.final r (rw kept at e) }
  ]

  fire_all-IsSettled :
      (key : String) (n : ℕ) (attempts : List Attempt) (l : Ledger)
      → IsSettled key n l
      → IsSettled key n (fire_all attempts l)
  unfolding fire_all
  fire_all-IsSettled key n [] l v = v
  fire_all-IsSettled key n (a ∷ rest) l v =
      fire_all-IsSettled key n rest _ (fire-IsSettled key n a l v)

  used-le-one : (o : Option ScheduledSend) → used o ≤ 1
  used-le-one none = omega arith
  used-le-one (some r) = omega arith

  -- However often a key is fired, for whatever rows, at whatever times and however the sends end:
  -- at most one send under that key may have reached the worker. The fires are complete: each has
  -- ended when the next begins.
  pub fire_all_once :
      (key : String) (attempts : List Attempt) (l : Ledger)
      → get key_of key l.outbox ≡ none
      → dispatched_for key (fire_all attempts l).sends ≤ dispatched_for key l.sends + 1
  fire_all_once key attempts l h = omega (
    arith,
    (fire_all-IsSettled key (dispatched_for key l.sends) attempts l start).spent,
    used-le-one (get key_of key (fire_all attempts l).outbox),
  )
    where
      start : IsSettled key (dispatched_for key l.sends) l
      start = record { spent = omega arith; final = λ r e. cc }
