-- ===== src/Assistant/LifecycleBuffer/Order.antt =====
-- src/assistant/lifecycle-buffer.ts: no accepted notification is lost or overtaken.
use qiyan_bot.Core.{Result, ok, app_error, error}
use qiyan_bot.Prelude.{
  ℕ, ◌-◌, ◌≤◌, ◌≡◌, refl, ap, sym, ◌∙◌, Bool, true, false, List, [], ◌∷◌, ◌++◌, arith, length,
  length-append, inl, inr, Bool-cases, ltb, leb, if◌then◌else◌,
}
use qiyan_bot.Assistant.LifecycleBuffer.{
  Notification, Buffer, Call, accepts, activates, handler_done, clears, new, accept, drain,
  activate, resume, clear, step, run,
}

append_assoc : (xs ys zs : List Notification) → (xs ++ ys) ++ zs ≡ xs ++ (ys ++ zs)
append_assoc [] ys zs = refl
append_assoc (x ∷ xs) ys zs = ap (λ t. x ∷ t) (append_assoc xs ys zs)

append_nil : (xs : List Notification) → xs ++ [] ≡ xs
append_nil [] = refl
append_nil (x ∷ xs) = ap (λ t. x ∷ t) (append_nil xs)

-- whether the call that accepts a notification resolved
abbrev pub taken : Result (Unit {0}) → Bool
taken (ok u) = true
taken (app_error code) = false
taken error = false

-- the notifications that were accepted, in the order of the calls; `clear` forgets those that the
-- handler has not got
abbrev pub noted : ℕ → Call → Buffer → List Notification → List Notification
noted limit (accepts n) b seen = if taken (accept limit n b).0 then seen ++ n ∷ [] else seen
noted limit activates b seen = seen
noted limit handler_done b seen = seen
noted limit clears b seen = b.handled

unfoldable pub accepted : ℕ → List Call → Buffer → List Notification → List Notification
accepted limit [] b seen = seen
accepted limit (call ∷ calls) b seen =
    accepted limit calls (step limit call b) (noted limit call b seen)

-- What the handler got, and then what waits, is what was accepted; once the buffer hands over at
-- once, nothing waits, and no more ever waits than the buffer holds.
pub record InOrder (limit : ℕ) (seen : List Notification) (b : Buffer) : Type 0 where
  pub order : b.handled ++ b.pending ≡ seen
  pub through : b.ready ≡ true → b.pending ≡ []
  pub bounded : length b.pending ≤ limit

accept-InOrder :
    (limit : ℕ) (n : Notification) (b : Buffer) (seen : List Notification)
    → InOrder limit seen b
    → InOrder limit (noted limit (accepts n) b seen) (accept limit n b).1
unfolding accept
accept-InOrder limit n b seen h = elim (Bool-cases b.ready) [
  | inl going ↦
      let none_ : b.pending ≡ [] = h.through going in
      rw going (record {
        order =
            ap (λ ps. (b.handled ++ n ∷ []) ++ ps) none_
            ∙ append_nil (b.handled ++ n ∷ [])
            ∙ ap (λ hs. hs ++ n ∷ [])
                (sym (append_nil b.handled) ∙ ap (λ ps. b.handled ++ ps) (sym none_) ∙ h.order);
        through = λ r. none_;
        bounded = h.bounded;
      })
  | inr waits ↦ elim (Bool-cases (leb limit (length b.pending))) [
    | inl full ↦
        rw (waits, full)
          (record {
            order = h.order;
            through = λ r. absurd (ground (arith, r, waits));
            bounded = h.bounded;
          })
    | inr room ↦
        rw (waits, room)
          (record {
            order =
                sym (append_assoc b.handled b.pending (n ∷ [])) ∙ ap (λ ns. ns ++ n ∷ []) h.order;
            through = λ r. absurd (ground (arith, r, waits));
            bounded = ground (arith, room, length-append b.pending (n ∷ []));
          })
  ]
]

drain-InOrder :
    (limit : ℕ) (ns : List Notification) (b : Buffer) (seen : List Notification)
    → ns ≡ b.pending
    → InOrder limit seen b
    → InOrder limit seen (drain ns b)
unfolding drain
drain-InOrder limit [] b seen e h = record {
  order = h.order;
  through = λ r. sym e;
  bounded = h.bounded;
}
drain-InOrder limit (n ∷ ns) b seen e h = record {
  order = append_assoc b.handled (n ∷ []) ns ∙ ap (λ ps. b.handled ++ ps) e ∙ h.order;
  through = λ r. absurd (ground (arith, e, h.through r));
  bounded = ground (arith, ap length e, h.bounded);
}

step-InOrder :
    (limit : ℕ) (call : Call) (b : Buffer) (seen : List Notification)
    → InOrder limit seen b
    → InOrder limit (noted limit call b seen) (step limit call b)
unfolding step activate resume clear
step-InOrder limit (accepts n) b seen h = accept-InOrder limit n b seen h
step-InOrder limit activates b seen h = drain-InOrder limit b.pending b seen refl h
step-InOrder limit handler_done b seen h = elim (Bool-cases (ltb 0 b.awaited)) [
  | inl some_ ↦ rw some_ (
      drain-InOrder limit b.pending (record b { awaited = b.awaited - 1 }) seen refl
        (record { order = h.order; through = h.through; bounded = h.bounded }))
  | inr none_ ↦ rw none_ h
]
step-InOrder limit clears b seen h = record {
  order = append_nil b.handled;
  through = λ r. refl;
  bounded = omega arith;
}

run-InOrder :
    (limit : ℕ) (calls : List Call) (b : Buffer) (seen : List Notification)
    → InOrder limit seen b
    → InOrder limit (accepted limit calls b seen) (run limit calls b)
unfolding run accepted
run-InOrder limit [] b seen h = h
run-InOrder limit (call ∷ calls) b seen h =
    run-InOrder limit calls (step limit call b) (noted limit call b seen)
      (step-InOrder limit call b seen h)

-- After any calls in any order, those that come while `activate` awaits the handler included: the
-- handler got the accepted notifications in the order of the calls that were accepted, except the
-- last of them, which wait in that order; once the buffer is ready none waits; and no more wait than
-- the limit. `clear` forgets those that wait.
pub run-new-InOrder :
    (limit : ℕ) (calls : List Call)
    → InOrder limit (accepted limit calls new []) (run limit calls new)
run-new-InOrder limit calls =
    run-InOrder limit calls new []
      (record { order = refl; through = λ r. refl; bounded = omega arith })
