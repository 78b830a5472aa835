-- ===== src/Assistant/AttemptScope/Selections.antt =====
-- src/assistant/attempt-scope.ts: which source is selected.
use qiyan_bot.Core.{Result, ok, app_error, error}
use qiyan_bot.Prelude.{
  ℕ, String, Bool, true, false, ◌||◌, ◌≡◌, refl, ap, ◌⊎◌, inl, inr, some, List, [], ◌∷◌, All, keep,
  arith, Bool-cases, Option-cases,
}
use qiyan_bot.Directives.Parser.{ParsedDirective, nothing, passes, sends_to, collects, malformed}
use qiyan_bot.Assistant.AttemptScope.Sources.{
  Scope, Source, AttemptSource, GuardedTool, send_to_session, collect_messages, Selection,
  directive, ordinary, malformed_directive, mismatch, exhausted, find_source, parse, is_consumed,
  is_expected, is_none, choose, admitted_sources, is_admitted,
}
use qiyan_bot.Assistant.AttemptScope.{select_at, select_loop, select_members, select}

-- a predicate of the value, if the call returns one
abbrev pub OnOk {ℓ κ} : {A : Type ℓ} → (A → Type κ) → Result A → Type κ
OnOk P (ok a) = P a
OnOk P (app_error code) = Unit
OnOk P error = Unit

-- the directive is in error, or it names its target itself
abbrev pub is_bad : ParsedDirective → Bool
is_bad (malformed reason) = true
is_bad (sends_to prefix target payload) = true
is_bad _ = false

-- the directive is for the other guarded tool
abbrev pub is_other : GuardedTool → ParsedDirective → Bool
is_other send_to_session (collects prefix count) = true
is_other collect_messages (passes prefix payload) = true
is_other tool p = false

module _ (m : ℕ) (tool : GuardedTool) (s : Scope) where
  -- the source's directive is this one, of the kind that the tool needs, and nothing has consumed it
  pub record IsOpen (context_id : String) (parsed : ParsedDirective) : Type 0 where
    pub source : Source
    pub found : find_source context_id s ≡ some source
    pub reads : parse m source ≡ parsed
    pub free : is_consumed context_id s ≡ false
    pub expected : is_expected tool parsed ≡ true

  -- the source has no directive, or one that is consumed
  pub record IsPassed (member : AttemptSource) : Type 0 where
    pub source : Source
    pub found : find_source member.context_id s ≡ some source
    pub over : (is_none (parse m source) || is_consumed member.context_id s) ≡ true

  -- it has none of the kind that the tool needs either, even a consumed one
  pub record IsPlain (member : AttemptSource) : Type 0 where
    pub source : Source
    pub found : find_source member.context_id s ≡ some source
    pub plain : is_expected tool (parse m source) ≡ false

  -- the first source that is not passed over is this one
  abbrev pub FirstOpen : String → ParsedDirective → List AttemptSource → Type 0
  FirstOpen context_id parsed [] = ⊥
  FirstOpen context_id parsed (x ∷ xs) =
      ((x.context_id ≡ context_id) × IsOpen context_id parsed)
      ⊎ (IsPassed x × FirstOpen context_id parsed xs)

  -- nothing has consumed the source's directive, which passes the test
  pub record Stands (test : ParsedDirective → Bool) (member : AttemptSource) : Type 0 where
    pub source : Source
    pub found : find_source member.context_id s ≡ some source
    pub free : is_consumed member.context_id s ≡ false
    pub meets : test (parse m source) ≡ true

  -- the first source that is not passed over is of that sort
  abbrev pub FirstStands : (ParsedDirective → Bool) → List AttemptSource → Type 0
  FirstStands test [] = ⊥
  FirstStands test (x ∷ xs) = Stands test x ⊎ (IsPassed x × FirstStands test xs)

  -- the source has a directive of the kind that the tool needs, if a consumed one
  pub record HadOne (member : AttemptSource) : Type 0 where
    pub source : Source
    pub found : find_source member.context_id s ≡ some source
    pub had : is_expected tool (parse m source) ≡ true

  abbrev pub AnyHadOne : List AttemptSource → Type 0
  AnyHadOne [] = ⊥
  AnyHadOne (x ∷ xs) = HadOne x ⊎ AnyHadOne xs

  -- what a selection says of the sources, where `saw` tells of the sources before them
  abbrev pub Says : List AttemptSource → Bool → Selection → Type 0
  Says members saw (directive context_id parsed) = FirstOpen context_id parsed members
  Says members saw (ordinary context_id) =
      (saw ≡ false) × All IsPassed members × All IsPlain members
  Says members saw malformed_directive = FirstStands is_bad members
  Says members saw mismatch = FirstStands (is_other tool) members
  Says members saw exhausted = All IsPassed members × ((saw ≡ true) ⊎ AnyHadOne members)

  later-AnyHadOne :
      (x : AttemptSource) (xs : List AttemptSource) (source : Source) (saw : Bool)
      → find_source x.context_id s ≡ some source
      → ((saw || is_expected tool (parse m source)) ≡ true) ⊎ AnyHadOne xs
      → (saw ≡ true) ⊎ AnyHadOne (x ∷ xs)
  later-AnyHadOne x xs source true found h = inl refl
  later-AnyHadOne x xs source false found (inl h) =
      inr (inl (record { source = source; found = found; had = h }))
  later-AnyHadOne x xs source false found (inr h) = inr (inr h)

  later-Says :
      (x : AttemptSource) (xs : List AttemptSource) (source : Source) (saw : Bool)
      (selection : Selection)
      → find_source x.context_id s ≡ some source
      → (is_none (parse m source) || is_consumed x.context_id s) ≡ true
      → Says xs (saw || is_expected tool (parse m source)) selection
      → Says (x ∷ xs) saw selection
  later-Says x xs source saw (directive c p) found over h =
      inr (record { source = source; found = found; over = over }, h)
  later-Says x xs source saw (ordinary c) found over h = (
    ground (arith, h.0),
    (record { source = source; found = found; over = over }, h.1),
    (record { source = source; found = found; plain = ground (arith, h.0) }, h.2),
  )
  later-Says x xs source saw malformed_directive found over h =
      inr (record { source = source; found = found; over = over }, h)
  later-Says x xs source saw mismatch found over h =
      inr (record { source = source; found = found; over = over }, h)
  later-Says x xs source saw exhausted found over h = (
    (record { source = source; found = found; over = over }, h.0),
    later-AnyHadOne x xs source saw found h.1,
  )

choose-Says :
    (m : ℕ) (tool : GuardedTool) (s : Scope) (x : AttemptSource) (xs : List AttemptSource)
    (source : Source) (saw : Bool) (p : ParsedDirective)
    → find_source x.context_id s ≡ some source
    → parse m source ≡ p
    → is_consumed x.context_id s ≡ false
    → is_none p ≡ false
    → Says m tool s (x ∷ xs) saw (choose tool x.context_id p)
unfolding choose
choose-Says m tool s x xs source saw nothing found reads free some_ = absurd (ground (arith, some_))
choose-Says m tool s x xs source saw (malformed reason) found reads free some_ =
    inl (record { source = source; found = found; free = free; meets = ap is_bad reads })
choose-Says m tool s x xs source saw (sends_to prefix target payload) found reads free some_ =
    inl (record { source = source; found = found; free = free; meets = ap is_bad reads })
choose-Says m send_to_session s x xs source saw (passes prefix payload) found reads free some_ =
    inl
      (refl, record { source = source; found = found; reads = reads; free = free; expected = refl })
choose-Says m send_to_session s x xs source saw (collects prefix count) found reads free some_ =
    inl (record {
      source = source;
      found = found;
      free = free;
      meets = ap (is_other send_to_session) reads;
    })
choose-Says m collect_messages s x xs source saw (passes prefix payload) found reads free some_ =
    inl (record {
      source = source;
      found = found;
      free = free;
      meets = ap (is_other collect_messages) reads;
    })
choose-Says m collect_messages s x xs source saw (collects prefix count) found reads free some_ =
    inl
      (refl, record { source = source; found = found; reads = reads; free = free; expected = refl })

OnOk-later :
    (m : ℕ) (tool : GuardedTool) (s : Scope) (x : AttemptSource) (xs : List AttemptSource)
    (source : Source) (saw : Bool) (r : Result Selection)
    → find_source x.context_id s ≡ some source
    → (is_none (parse m source) || is_consumed x.context_id s) ≡ true
    → OnOk (Says m tool s xs (saw || is_expected tool (parse m source))) r
    → OnOk (Says m tool s (x ∷ xs) saw) r
OnOk-later m tool s x xs source saw (ok selection) found over h =
    later-Says m tool s x xs source saw selection found over h
OnOk-later m tool s x xs source saw (app_error code) found over h = tt
OnOk-later m tool s x xs source saw error found over h = tt

select_loop-Says :
    (m : ℕ) (tool : GuardedTool) (s : Scope) (primary : String) (xs : List AttemptSource)
    (saw : Bool)
    → OnOk (Says m tool s xs saw) (select_loop m tool s primary xs saw)
unfolding select_loop select_at
select_loop-Says m tool s primary [] true = (tt, inl refl)
select_loop-Says m tool s primary [] false = (refl, tt, tt)
select_loop-Says m tool s primary (x ∷ xs) saw = elim (Option-cases (find_source x.context_id s)) [
  | inl gone ↦ rw (gone, select_at) tt
  | inr (source, found) ↦
      elim (Bool-cases (is_none (parse m source) || is_consumed x.context_id s)) [
        | inl over ↦
            rw (found, select_at, over)
              (OnOk-later m tool s x xs source saw
                (select_loop m tool s primary xs (saw || is_expected tool (parse m source))) found
                over
                (select_loop-Says m tool s primary xs (saw || is_expected tool (parse m source))))
        | inr stands ↦
            rw (found, select_at, stands)
              (choose-Says m tool s x xs source saw (parse m source) found refl
                (ground (arith, stands)) (ground (arith, stands)))
      ]
]

select_members-Says :
    (m : ℕ) (tool : GuardedTool) (s : Scope) (xs : List AttemptSource)
    → OnOk (Says m tool s xs false) (select_members m tool s xs)
unfolding select_members
select_members-Says m tool s [] = tt
select_members-Says m tool s (x ∷ xs) = select_loop-Says m tool s x.context_id (x ∷ xs) false

-- If `select` returns, its result is decided by the first source, of those that were admitted to the
-- attempt in their order, that has a directive which nothing consumed: it is that directive where it
-- is of the kind that the tool needs, a mismatch where it is for the other tool, and malformed where
-- it is in error or names its own target. Where no source has such a directive, the result is
-- exhausted only if one of them had, consumed, a directive of that kind, and it is an ordinary call
-- only if none had.
pub select-Says :
    (m : ℕ) (attempt_id : String) (tool : GuardedTool) (s : Scope)
    → OnOk
        (Says m tool s (keep (λ x. is_admitted x.state) (admitted_sources attempt_id s)) false)
        (select m attempt_id tool s)
unfolding select
select-Says m attempt_id tool s =
    select_members-Says m tool s (keep (λ x. is_admitted x.state) (admitted_sources attempt_id s))

pub FirstOpen-IsOpen :
    (m : ℕ) (tool : GuardedTool) (s : Scope) (c : String) (p : ParsedDirective)
    (xs : List AttemptSource)
    → FirstOpen m tool s c p xs
    → IsOpen m tool s c p
FirstOpen-IsOpen m tool s c p [] h = absurd h
FirstOpen-IsOpen m tool s c p (x ∷ xs) (inl h) = h.1
FirstOpen-IsOpen m tool s c p (x ∷ xs) (inr h) = FirstOpen-IsOpen m tool s c p xs h.1
