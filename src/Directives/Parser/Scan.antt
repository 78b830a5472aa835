-- ===== src/Directives/Parser/Scan.antt =====
-- src/directives/parser.ts: the search for a marker, as a split of the text.
use qiyan_bot.Prelude.{
  ℕ, ◌≡◌, refl, ap, Bool, true, not, ◌&&◌, Option, none, some, [], ◌∷◌, ◌++◌, ◌==◌, arith, OnSome,
  OnSome-if, inl, inr, Bool-cases,
}
use qiyan_bot.Directives.Parser.{
  Text, CandidateKind, pass, to, collect, marker, after, opens, closes, Candidate, closed, marked,
  or_other, candidate_at, further, scan,
}

cons_after :
    (c d : ℕ) (m raw : Text) (o : Option Text)
    → c ≡ d
    → OnSome (λ s. raw ≡ m ++ s) o
    → OnSome (λ s. d ∷ raw ≡ c ∷ (m ++ s)) o
cons_after c d m raw none e h = tt
cons_after c d m raw (some s) e h = rw (e, h) refl

append_after : (m raw : Text) → OnSome (λ s. raw ≡ m ++ s) (after m raw)
unfolding after
append_after [] raw = refl
append_after (c ∷ m) [] = tt
append_after (c ∷ m) (d ∷ raw) = elim (Bool-cases (c == d)) [
  | inl same ↦
      rw same (cons_after c d m raw (after m raw) (ground (arith, same)) (append_after m raw))
  | inr other ↦ rw other tt
]

-- a candidate is a split of the text around its marker
unfoldable pub IsSplit : Text → Candidate → Type 0
IsSplit raw k = raw ≡ k.before ++ (marker k.kind ++ k.suffix)

or_other-OnSome :
    (P : Candidate → Type 0) (x y : Option Candidate)
    → OnSome P x
    → OnSome P y
    → OnSome P (or_other x y)
or_other-OnSome P none y h k = k
or_other-OnSome P (some x) y h k = h

closed-IsSplit :
    (kind : CandidateKind) (raw : Text) (o : Option Text)
    → OnSome (λ s. raw ≡ marker kind ++ s) o
    → OnSome (IsSplit raw) (closed kind o)
unfolding IsSplit closed
closed-IsSplit kind raw none h = tt
closed-IsSplit kind raw (some s) h = OnSome-if (IsSplit raw) (closes s) (some _) none h tt

marked-IsSplit : (kind : CandidateKind) (raw : Text) → OnSome (IsSplit raw) (marked kind raw)
unfolding marked
marked-IsSplit kind raw =
    closed-IsSplit kind raw (after (marker kind) raw) (append_after (marker kind) raw)

candidate_at-IsSplit :
    (previous : Option ℕ) (raw : Text) → OnSome (IsSplit raw) (candidate_at previous raw)
unfolding candidate_at
candidate_at-IsSplit previous raw =
    OnSome-if (IsSplit raw) (opens previous) _ none
      (or_other-OnSome (IsSplit raw) (marked pass raw) _ (marked-IsSplit pass raw) (
        or_other-OnSome (IsSplit raw) (marked collect raw) _ (marked-IsSplit collect raw)
          (marked-IsSplit to raw)))
      tt

further-IsSplit :
    (c : ℕ) (cs : Text) (k : Option Candidate)
    → OnSome (IsSplit cs) k
    → OnSome (IsSplit (c ∷ cs)) (further c k)
unfolding IsSplit
further-IsSplit c cs none h = tt
further-IsSplit c cs (some k) h = ap (λ raw. c ∷ raw) h

pub scan-IsSplit : (previous : Option ℕ) (raw : Text) → OnSome (IsSplit raw) (scan previous raw)
unfolding scan
scan-IsSplit previous [] = tt
scan-IsSplit previous (c ∷ cs) =
    or_other-OnSome (IsSplit (c ∷ cs)) (candidate_at previous (c ∷ cs)) _
      (candidate_at-IsSplit previous (c ∷ cs))
      (further-IsSplit c cs (scan (some c) cs) (scan-IsSplit (some c) cs))

-- no slash, which is what every marker starts with
abbrev pub no_slash : Text → Bool
no_slash [] = true
no_slash (c ∷ cs) = not (c == 47) && no_slash cs

-- the unit before what follows the text
abbrev pub last : Option ℕ → Text → Option ℕ
last previous [] = previous
last previous (c ∷ cs) = last (some c) cs

no_candidate :
    (previous : Option ℕ) (c : ℕ) (cs : Text)
    → not (c == 47) ≡ true
    → candidate_at previous (c ∷ cs) ≡ none
unfolding candidate_at marked closed after
no_candidate previous c cs h = ground (arith, h)

-- a text without a slash before the first candidate
pub scan-no_slash :
    (previous : Option ℕ) (p raw : Text) (k : Candidate)
    → no_slash p ≡ true
    → scan (last previous p) raw ≡ some k
    → scan previous (p ++ raw) ≡ some (record k { before = p ++ k.before })
unfolding scan
scan-no_slash previous [] raw k h e = e
scan-no_slash previous (c ∷ p) raw k h e =
    let rest : scan (some c) (p ++ raw) ≡ some (record k { before = p ++ k.before }) =
      scan-no_slash (some c) p raw k (ground (arith, h)) e in
    rw (no_candidate previous c (p ++ raw) (ground (arith, h)), rest) refl

pub marker_first :
    (previous : Option ℕ) (kind : CandidateKind) (suffix : Text)
    → opens previous ≡ true
    → closes suffix ≡ true
    → scan previous (marker kind ++ suffix)
      ≡ some (record { kind = kind; before = []; suffix = suffix })
unfolding scan candidate_at marked closed after
marker_first previous pass suffix h k = rw (h, k) refl
marker_first previous to suffix h k = rw (h, k) refl
marker_first previous collect suffix h k = rw (h, k) refl
