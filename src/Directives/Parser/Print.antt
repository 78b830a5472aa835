-- ===== src/Directives/Parser/Print.antt =====
-- src/directives/parser.ts: a directive that is written down is parsed back.
use qiyan_bot.Prelude.{
  ℕ, ◌≡◌, refl, ap, sym, ◌∙◌, Bool, true, false, ◌&&◌, none, some, [], ◌∷◌, ◌++◌, ◌==◌, arith,
}
use mathlib.Core.List.{append-nil}
use qiyan_bot.Directives.Parser.{
  Text, CandidateKind, pass, to, collect, marker, ParsedDirective, nothing, passes, sends_to,
  collects, malformed, is_space, is_name_unit, is_empty, is_nickname, all_units, opens, closes,
  scan, first_candidate, split_space, extended, parse_to, parse_to_split, parse_pass, parse_collect,
  parse_kind, parse_candidate, parse_directive,
}
use qiyan_bot.Directives.Parser.Scan.{no_slash, last, scan-no_slash, marker_first}

unfoldable pub print : ParsedDirective → Text
print nothing = []
print (passes prefix payload) = prefix ++ (marker pass ++ 32 ∷ payload)
print (sends_to prefix target payload) = prefix ++ (marker to ++ 32 ∷ (target ++ 32 ∷ payload))
print (collects prefix count) = prefix ++ marker collect
print (malformed reason) = []

-- no slash, and a blank at the end
abbrev pub is_quiet : Text → Bool
is_quiet prefix = no_slash prefix && opens (last none prefix)

unfoldable pub IsPrintable : ℕ → ParsedDirective → Type 0
IsPrintable a nothing = Unit
IsPrintable a (passes prefix payload) =
    (is_quiet prefix ≡ true) × ((is_empty payload && a == 0) ≡ false)
IsPrintable a (sends_to prefix target payload) =
    (is_quiet prefix ≡ true) × (is_nickname target ≡ true) × (is_empty payload ≡ false)
IsPrintable a (collects prefix count) = (is_quiet prefix ≡ true) × (count ≡ 1)
IsPrintable a (malformed reason) = ⊥

found :
    (kind : CandidateKind) (prefix suffix : Text)
    → is_quiet prefix ≡ true
    → closes suffix ≡ true
    → scan none (prefix ++ (marker kind ++ suffix))
      ≡ some (record { kind = kind; before = prefix; suffix = suffix })
found kind prefix suffix quiet ends =
    scan-no_slash none prefix (marker kind ++ suffix) _ (ground (arith, quiet))
      (marker_first (last none prefix) kind suffix (ground (arith, quiet)) ends)
    ∙ ap (λ p. some (record { kind = kind; before = p; suffix = suffix })) (append-nil prefix)

split_space_append :
    (target payload : Text)
    → all_units is_name_unit target ≡ true
    → split_space (target ++ 32 ∷ payload) ≡ some (target, payload)
unfolding split_space extended all_units
split_space_append [] payload h = refl
split_space_append (c ∷ cs) payload h =
    let rest : split_space (cs ++ 32 ∷ payload) ≡ some (cs, payload) =
      split_space_append cs payload (ground (arith, h)) in
    let name : is_space c ≡ false = ground (arith, h) in rw (name, rest) refl

nickname_units : (t : Text) → is_nickname t ≡ true → all_units is_name_unit t ≡ true
unfolding is_nickname all_units
nickname_units [] h = absurd (ground (arith, h))
nickname_units (c ∷ cs) h = ground (arith, h)

-- A directive that is written down is parsed back, whatever maximum is set: with text before it that
-- has no slash and ends in a blank, if there is any; with a nickname for its target; with a payload,
-- unless there are attachments to pass; and, for a count, with the count 1, which is not written.
pub parse_directive-print :
    (d : ParsedDirective) (a m : ℕ) → IsPrintable a d → parse_directive (print d) a m ≡ d
unfolding parse_directive parse_candidate first_candidate parse_kind IsPrintable print parse_pass
    parse_to parse_to_split parse_collect scan all_units
parse_directive-print nothing a m h = refl
parse_directive-print (passes prefix payload) a m (quiet, given) =
    rw (found pass prefix (32 ∷ payload) quiet refl, given) refl
parse_directive-print (sends_to prefix target payload) a m (quiet, nickname, given) =
    rw
      (
        found to prefix (32 ∷ (target ++ 32 ∷ payload)) quiet refl,
        split_space_append target payload (nickname_units target nickname),
        nickname,
        given,
      )
      refl
parse_directive-print (collects prefix count) a m (quiet, one) =
    rw (sym (append-nil (marker collect)), found collect prefix [] quiet refl)
      (ap (collects prefix) (sym one))
parse_directive-print (malformed reason) a m h = absurd h
