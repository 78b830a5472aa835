-- ===== src/Directives/Parser.antt =====
-- src/directives/parser.ts: the directive that a message begins with or holds. A text is the list of
-- its UTF-16 code units, as JavaScript indexes it; of the attachments only their number matters.
pub mod Scan
pub mod Inverse
pub mod Print
mod Tests
use qiyan_bot.Prelude.{
  ℕ, zero, suc, ◌+◌, ◌*◌, ◌-◌, Bool, true, false, not, ◌&&◌, ◌||◌, Option, none, some, List, [],
  ◌∷◌, ◌++◌, if◌then◌else◌, ltb, leb, ◌==◌, length,
}

abbrev pub Text : Type 0
Text = List ℕ

pub data CandidateKind : Type 0 where
  pass to collect : CandidateKind

pub data Reason : Type 0 where
  to_requires_ascii_space to_requires_nickname_and_space to_invalid_nickname to_is_empty : Reason
  pass_requires_ascii_space pass_is_empty : Reason
  invalid_collect_suffix collect_count_out_of_range : Reason

pub data ParsedDirective : Type 0 where
  nothing : ParsedDirective
  passes : Text → Text → ParsedDirective
  sends_to : Text → Text → Text → ParsedDirective
  collects : Text → ℕ → ParsedDirective
  malformed : Reason → ParsedDirective

-- "/pass", "/to" and "/collect"
abbrev pub marker : CandidateKind → Text
marker pass = 47 ∷ 112 ∷ 97 ∷ 115 ∷ 115 ∷ []
marker to = 47 ∷ 116 ∷ 111 ∷ []
marker collect = 47 ∷ 99 ∷ 111 ∷ 108 ∷ 108 ∷ 101 ∷ 99 ∷ 116 ∷ []

abbrev pub is_space : ℕ → Bool
is_space c = c == 32

-- tab, line feed, vertical tab, form feed, carriage return and space
abbrev pub is_blank : ℕ → Bool
is_blank c = (leb 9 c && leb c 13) || c == 32

-- what is left of a text that starts with the other
unfoldable pub after : Text → Text → Option Text
after [] raw = some raw
after (m ∷ ms) [] = none
after (m ∷ ms) (c ∷ cs) = let rest = after ms cs in if m == c then rest else none

-- the start of the text, or a blank before; the end of the text, or a blank after
abbrev pub opens : Option ℕ → Bool
opens none = true
opens (some c) = is_blank c

abbrev pub closes : Text → Bool
closes [] = true
closes (c ∷ cs) = is_blank c

pub record Candidate : Type 0 where
  pub kind : CandidateKind
  pub before : Text
  pub suffix : Text

closed : CandidateKind → Option Text → Option Candidate
closed kind none = none
closed kind (some suffix) =
    if closes suffix then some (record { kind = kind; before = []; suffix = suffix }) else none

-- the marker at the start of the text, if one stands there
unfoldable pub marked : CandidateKind → Text → Option Candidate
unfolding closed
marked kind raw = closed kind (after (marker kind) raw)

abbrev pub or_other {ℓ} : {A : Type ℓ} → Option A → Option A → Option A
or_other none other = other
or_other (some a) other = some a

unfoldable pub candidate_at : Option ℕ → Text → Option Candidate
candidate_at previous raw =
    if opens previous
    then or_other (marked pass raw) (or_other (marked collect raw) (marked to raw))
    else none

abbrev pub further : ℕ → Option Candidate → Option Candidate
further c none = none
further c (some k) = some (record k { before = c ∷ k.before })

unfoldable pub scan : Option ℕ → Text → Option Candidate
scan previous [] = none
scan previous (c ∷ cs) =
    let rest = further c (scan (some c) cs) in or_other (candidate_at previous (c ∷ cs)) rest

unfoldable pub first_candidate : Text → Option Candidate
first_candidate raw = scan none raw

extended : ℕ → Option (Text × Text) → Option (Text × Text)
extended c none = none
extended c (some p) = some (c ∷ p.0, p.1)

-- `indexOf(" ")` and the two slices around it
unfoldable pub split_space : Text → Option (Text × Text)
unfolding extended
split_space [] = none
split_space (c ∷ cs) =
    let rest = extended c (split_space cs) in if is_space c then some ([], cs) else rest

abbrev pub is_alphanumeric : ℕ → Bool
is_alphanumeric c = (leb 97 c && leb c 122) || (leb 48 c && leb c 57)

-- a letter, a digit, an underscore or a dash
abbrev pub is_name_unit : ℕ → Bool
is_name_unit c = is_alphanumeric c || c == 95 || c == 45

unfoldable pub all_units : (ℕ → Bool) → Text → Bool
all_units p [] = true
all_units p (c ∷ cs) = p c && all_units p cs

unfoldable pub is_nickname : Text → Bool
is_nickname [] = false
is_nickname (c ∷ cs) = is_alphanumeric c && all_units is_name_unit cs && leb (length cs) 63

abbrev pub is_empty : Text → Bool
is_empty [] = true
is_empty (c ∷ cs) = false

parse_to_split : Text → Option (Text × Text) → ParsedDirective
parse_to_split prefix none = malformed to_requires_nickname_and_space
parse_to_split prefix (some p) =
    if not (is_nickname p.0)
    then malformed to_invalid_nickname
    else if is_empty p.1
    then malformed to_is_empty
    else sends_to prefix p.0 p.1

unfoldable pub parse_to : Text → Text → ParsedDirective
unfolding parse_to_split
parse_to prefix [] = malformed to_requires_ascii_space
parse_to prefix (c ∷ rest) =
    if is_space c
    then parse_to_split prefix (split_space rest)
    else malformed to_requires_ascii_space

unfoldable pub parse_pass : ℕ → Text → Text → ParsedDirective
parse_pass attachments prefix [] = malformed pass_requires_ascii_space
parse_pass attachments prefix (c ∷ payload) =
    if not (is_space c)
    then malformed pass_requires_ascii_space
    else if is_empty payload && attachments == 0
    then malformed pass_is_empty
    else passes prefix payload

abbrev pub is_digit : ℕ → Bool
is_digit c = leb 48 c && leb c 57

-- the digits at the start, read after `value`, and then blanks only; the value, or no match
unfoldable pub read_count : ℕ → Text → Option ℕ
read_count value [] = some value
read_count value (c ∷ cs) =
    let rest = read_count (10 * value + (c - 48)) cs in
    if is_digit c then rest else if all_units is_blank (c ∷ cs) then some value else none

-- the regular expression of a count: a space, a digit that is not 0, digits, blanks
unfoldable pub match_count : Text → Option ℕ
match_count [] = none
match_count (c ∷ []) = none
match_count (c ∷ d ∷ cs) =
    if is_space c && leb 49 d && leb d 57 then read_count (d - 48) cs else none

abbrev pub max_safe_integer : ℕ
max_safe_integer = 9007199254740991

counted : ℕ → Text → Option ℕ → ParsedDirective
counted max_collect_count prefix none = malformed invalid_collect_suffix
counted max_collect_count prefix (some count) =
    if ltb max_safe_integer count || ltb max_collect_count count
    then malformed collect_count_out_of_range
    else collects prefix count

unfoldable pub parse_collect : ℕ → Text → Text → ParsedDirective
unfolding counted
parse_collect max_collect_count prefix suffix =
    if all_units is_blank suffix
    then collects prefix 1
    else counted max_collect_count prefix (match_count suffix)

parse_kind : CandidateKind → Text → Text → ℕ → ℕ → ParsedDirective
parse_kind to prefix suffix attachments max_collect_count = parse_to prefix suffix
parse_kind pass prefix suffix attachments max_collect_count = parse_pass attachments prefix suffix
parse_kind collect prefix suffix attachments max_collect_count =
    parse_collect max_collect_count prefix suffix

parse_candidate : Option Candidate → ℕ → ℕ → ParsedDirective
unfolding parse_kind
parse_candidate none attachments max_collect_count = nothing
parse_candidate (some k) attachments max_collect_count =
    parse_kind k.kind k.before k.suffix attachments max_collect_count

unfoldable pub parse_directive : Text → ℕ → ℕ → ParsedDirective
unfolding parse_candidate
parse_directive raw attachments max_collect_count =
    parse_candidate (first_candidate raw) attachments max_collect_count
