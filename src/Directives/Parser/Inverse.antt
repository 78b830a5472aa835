-- ===== src/Directives/Parser/Inverse.antt =====
-- src/directives/parser.ts: what a directive that was parsed says of the text.
use qiyan_bot.Prelude.{
  ℕ, ◌+◌, ◌-◌, ◌*◌, ◌≤◌, ◌≡◌, refl, ap, ◌∙◌, Bool, true, false, ◌&&◌, ◌||◌, Option, none, some, [],
  ◌∷◌, ◌++◌, if◌then◌else◌, ltb, leb, ◌==◌, arith, OnSome, OnSome-if, inl, inr, ◌⊎◌, Bool-cases,
}
use qiyan_bot.Directives.Parser.{
  Text, CandidateKind, pass, to, collect, marker, Candidate, ParsedDirective, nothing, passes,
  sends_to, collects, malformed, is_space, is_digit, is_empty, is_nickname, is_blank, all_units,
  scan, first_candidate, split_space, parse_to, parse_to_split, parse_pass, parse_collect,
  parse_kind, parse_candidate, parse_directive, read_count, match_count, counted, max_safe_integer,
  extended,
}
use qiyan_bot.Directives.Parser.Scan.{IsSplit, scan-IsSplit}

-- The text of a directive is the text that was parsed, unit by unit; a target is a nickname; a count
-- that was written is one from 1 to the maximum.
unfoldable pub Verbatim : ℕ → Text → ParsedDirective → Type 0
Verbatim m raw nothing = Unit
Verbatim m raw (passes prefix payload) = raw ≡ prefix ++ (marker pass ++ 32 ∷ payload)
Verbatim m raw (sends_to prefix target payload) =
    (raw ≡ prefix ++ (marker to ++ 32 ∷ (target ++ 32 ∷ payload)))
    × (is_nickname target ≡ true)
    × (is_empty payload ≡ false)
Verbatim m raw (collects prefix count) =
    ((suffix : Text) × (raw ≡ prefix ++ (marker collect ++ suffix)))
    × (1 ≤ count)
    × ((count ≡ 1) ⊎ ((count ≤ m) × (count ≤ max_safe_integer)))
Verbatim m raw (malformed reason) = Unit

Verbatim-if :
    (m : ℕ) (raw : Text) (b : Bool) (x y : ParsedDirective)
    → Verbatim m raw x
    → Verbatim m raw y
    → Verbatim m raw (if b then x else y)
Verbatim-if m raw true x y h k = h
Verbatim-if m raw false x y h k = k

parse_pass-Verbatim :
    (m a : ℕ) (prefix suffix raw : Text)
    → raw ≡ prefix ++ (marker pass ++ suffix)
    → Verbatim m raw (parse_pass a prefix suffix)
unfolding parse_pass Verbatim
parse_pass-Verbatim m a prefix [] raw h = tt
parse_pass-Verbatim m a prefix (c ∷ payload) raw h = elim (Bool-cases (is_space c)) [
  | inl space ↦
      let is_32 : c ≡ 32 = ground (arith, space) in
      rw space (
        Verbatim-if m raw (is_empty payload && a == 0) (malformed _) (passes prefix payload) tt
          (h ∙ ap (λ d. prefix ++ (marker pass ++ d ∷ payload)) is_32))
  | inr other ↦ rw other tt
]

-- the split at the first space
cons_split :
    (c : ℕ) (cs : Text) (o : Option (Text × Text))
    → OnSome (λ p. cs ≡ p.0 ++ 32 ∷ p.1) o
    → OnSome (λ p. c ∷ cs ≡ p.0 ++ 32 ∷ p.1) (extended c o)
unfolding extended
cons_split c cs none h = tt
cons_split c cs (some p) h = ap (λ ds. c ∷ ds) h

split_space_lem : (cs : Text) → OnSome (λ p. cs ≡ p.0 ++ 32 ∷ p.1) (split_space cs)
unfolding split_space
split_space_lem [] = tt
split_space_lem (c ∷ cs) = elim (Bool-cases (is_space c)) [
  | inl space ↦ let is_32 : c ≡ 32 = ground (arith, space) in rw space (ap (λ d. d ∷ cs) is_32)
  | inr other ↦ rw other (cons_split c cs (split_space cs) (split_space_lem cs))
]

parse_to_split-Verbatim :
    (m : ℕ) (prefix rest raw : Text) (o : Option (Text × Text))
    → raw ≡ prefix ++ (marker to ++ 32 ∷ rest)
    → OnSome (λ p. rest ≡ p.0 ++ 32 ∷ p.1) o
    → Verbatim m raw (parse_to_split prefix o)
unfolding parse_to_split Verbatim
parse_to_split-Verbatim m prefix rest raw none h k = tt
parse_to_split-Verbatim m prefix rest raw (some p) h k = elim (Bool-cases (is_nickname p.0)) [
  | inr bad ↦ rw bad tt
  | inl good ↦ elim (Bool-cases (is_empty p.1)) [
    | inl none_ ↦ rw (good, none_) tt
    | inr given ↦ rw (good, given) (h ∙ ap (λ cs. prefix ++ (marker to ++ 32 ∷ cs)) k, good, given)
  ]
]

parse_to-Verbatim :
    (m : ℕ) (prefix suffix raw : Text)
    → raw ≡ prefix ++ (marker to ++ suffix)
    → Verbatim m raw (parse_to prefix suffix)
unfolding parse_to Verbatim
parse_to-Verbatim m prefix [] raw h = tt
parse_to-Verbatim m prefix (c ∷ rest) raw h = elim (Bool-cases (is_space c)) [
  | inl space ↦
      let is_32 : c ≡ 32 = ground (arith, space) in
      rw space (
        parse_to_split-Verbatim m prefix rest raw (split_space rest)
          (h ∙ ap (λ d. prefix ++ (marker to ++ d ∷ rest)) is_32) (split_space_lem rest))
  | inr other ↦ rw other tt
]

read_count_positive :
    (value : ℕ) (cs : Text) → 1 ≤ value → OnSome (λ n. 1 ≤ n) (read_count value cs)
unfolding read_count
read_count_positive value [] h = h
read_count_positive value (c ∷ cs) h =
    OnSome-if (λ n. 1 ≤ n) (is_digit c) (read_count (10 * value + (c - 48)) cs) _
      (read_count_positive (10 * value + (c - 48)) cs (omega (arith, h)))
      (OnSome-if (λ n. 1 ≤ n) (all_units is_blank (c ∷ cs)) (some value) none h tt)

match_count_positive : (cs : Text) → OnSome (λ n. 1 ≤ n) (match_count cs)
unfolding match_count
match_count_positive [] = tt
match_count_positive (c ∷ []) = tt
match_count_positive (c ∷ d ∷ cs) = elim (Bool-cases (is_space c && leb 49 d && leb d 57)) [
  | inl yes_ ↦ rw yes_ (read_count_positive (d - 48) cs (ground (arith, yes_)))
  | inr no_ ↦ rw no_ tt
]

counted-Verbatim :
    (m : ℕ) (prefix suffix raw : Text) (o : Option ℕ)
    → raw ≡ prefix ++ (marker collect ++ suffix)
    → OnSome (λ n. 1 ≤ n) o
    → Verbatim m raw (counted m prefix o)
unfolding counted Verbatim
counted-Verbatim m prefix suffix raw none h k = tt
counted-Verbatim m prefix suffix raw (some n) h k =
    elim (Bool-cases (ltb max_safe_integer n || ltb m n)) [
      | inl large ↦ rw large tt
      | inr fits ↦ rw fits ((suffix, h), k, inr (ground (arith, fits), ground (arith, fits)))
    ]

parse_collect-Verbatim :
    (m : ℕ) (prefix suffix raw : Text)
    → raw ≡ prefix ++ (marker collect ++ suffix)
    → Verbatim m raw (parse_collect m prefix suffix)
unfolding parse_collect Verbatim
parse_collect-Verbatim m prefix suffix raw h =
    Verbatim-if m raw (all_units is_blank suffix) (collects prefix 1) _
      ((suffix, h), omega arith, inl refl)
      (counted-Verbatim m prefix suffix raw (match_count suffix) h (match_count_positive suffix))

parse_kind-Verbatim :
    (kind : CandidateKind) (prefix suffix raw : Text) (a m : ℕ)
    → raw ≡ prefix ++ (marker kind ++ suffix)
    → Verbatim m raw (parse_kind kind prefix suffix a m)
unfolding parse_kind
parse_kind-Verbatim to prefix suffix raw a m h = parse_to-Verbatim m prefix suffix raw h
parse_kind-Verbatim pass prefix suffix raw a m h = parse_pass-Verbatim m a prefix suffix raw h
parse_kind-Verbatim collect prefix suffix raw a m h = parse_collect-Verbatim m prefix suffix raw h

parse_candidate-Verbatim :
    (raw : Text) (k : Option Candidate) (a m : ℕ)
    → OnSome (IsSplit raw) k
    → Verbatim m raw (parse_candidate k a m)
unfolding parse_candidate IsSplit Verbatim
parse_candidate-Verbatim raw none a m h = tt
parse_candidate-Verbatim raw (some k) a m h = parse_kind-Verbatim k.kind k.before k.suffix raw a m h

-- Whatever text is parsed: printed again, a directive that passes a payload on, or sends one to a
-- target, is that text unit by unit; the target is a nickname and its payload is not empty; a count
-- is 1, or stands between 1 and the maximum.
pub parse_directive-Verbatim : (raw : Text) (a m : ℕ) → Verbatim m raw (parse_directive raw a m)
unfolding parse_directive first_candidate
parse_directive-Verbatim raw a m =
    parse_candidate-Verbatim raw (scan none raw) a m (scan-IsSplit none raw)
