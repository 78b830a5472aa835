-- ===== src/Scheduling/Schedules/Due.antt =====
-- src/scheduling/schedule-store.ts: which rows are due, and what the writes make of them.
use qiyan_bot.Prelude.{
  ℕ, suc, ◌≡◌, ◌∙◌, refl, String, str_eq, Bool, true, false, ◌&&◌, Option, none, some, List, [],
  ◌∷◌, arith, if◌then◌else◌, leb, keep, any, get, get-modify, passes, written, any-sort_by, eq_iff,
  or_else,
}
use qiyan_bot.Scheduling.Schedules.{
  ScheduleRow, cancelled, id_of, is_armed, is_due, due, advance, advanced, cancel, owned_by,
}

-- the row of this identifier is armed, and its time has come
abbrev pub due_now : ℕ → String → List ScheduleRow → Bool
due_now now id rows = passes (is_due now) (get id_of id rows)

any-keep-get :
    (now : ℕ) (id : String) (rows : List ScheduleRow)
    → due_now now id rows ≡ true
    → any (λ r. str_eq r.id id) (keep (is_due now) rows) ≡ true
unfolding get
any-keep-get now id [] h = absurd (ground arith)
any-keep-get now id (r ∷ rows) h = ground (arith, any-keep-get now id rows)

-- `due` lists every row that is due.
pub any-due :
    (now : ℕ) (id : String) (rows : List ScheduleRow)
    → due_now now id rows ≡ true
    → any (λ r. str_eq r.id id) (due now rows) ≡ true
unfolding due
any-due now id rows h =
    any-sort_by (λ r. or_else r.next_fire_at 0) (λ r. str_eq r.id id) (keep (is_due now) rows)
    ∙ any-keep-get now id rows h

id-advanced : (next : Option ℕ) (r : ScheduleRow) → (advanced next r).id ≡ r.id
id-advanced none r = refl
id-advanced (some t) r = refl

pub get-advance :
    (j id : String) (next : Option ℕ) (rows : List ScheduleRow)
    → get id_of j (advance id next rows) ≡ (
        if str_eq id j
        then written (λ r. is_armed r.state) (advanced next) (get id_of id rows)
        else get id_of j rows)
unfolding advance
get-advance j id next rows =
    get-modify id_of j id (λ r. is_armed r.state) (advanced next) rows (id-advanced next)

-- A row that was advanced to a later time, or for good, is not due.
pub due_now-advance :
    (now : ℕ) (j id : String) (next : Option ℕ) (rows : List ScheduleRow)
    → (leb (or_else next (suc now)) now ≡ false)
    → due_now now j (advance id next rows) ≡ (if str_eq id j then false else due_now now j rows)
due_now-advance now j id none rows h = ground (arith, get-advance j id none rows, eq_iff id j)
due_now-advance now j id (some t) rows h =
    ground (arith, get-advance j id (some t) rows, eq_iff id j)

-- Only the session that owns an armed schedule can cancel it: a call that reports success names an
-- armed schedule of that session, and afterwards that row is cancelled; a call that reports failure
-- changes no row; and no call changes another row.
cancel_lem :
    (endpoint_id thread_id id j : String) (rows : List ScheduleRow)
    → ((cancel endpoint_id thread_id id rows).0
        ≡ passes (owned_by endpoint_id thread_id) (get id_of id rows))
      × (get id_of j (cancel endpoint_id thread_id id rows).1 ≡ (
          if str_eq id j && (cancel endpoint_id thread_id id rows).0
          then written (λ _. true) (λ r. record r { state = cancelled }) (get id_of id rows)
          else get id_of j rows))
unfolding cancel
cancel_lem endpoint_id thread_id id j rows = (
  refl,
  ground (
    arith,
    eq_iff id j,
    get-modify id_of j id (owned_by endpoint_id thread_id) (λ r. record r { state = cancelled })
        rows (λ r. refl),
  ),
)
