-- ===== src/Directives/Parser/Tests.antt =====
-- The parser of directives on concrete texts, and its theorems at concrete inputs.
use qiyan_bot.Prelude.{◌≡◌, refl, [], ◌∷◌, ◌++◌}
use qiyan_bot.Directives.Parser.{
  Text, nothing, sends_to, collects, malformed, collect_count_out_of_range, parse_directive,
  first_candidate, scan, candidate_at, marked, after, parse_pass, parse_to, parse_collect,
  is_nickname, all_units, match_count, read_count,
}
use qiyan_bot.Directives.Parser.Inverse.{Verbatim, parse_directive-Verbatim}
use qiyan_bot.Directives.Parser.Print.{print, IsPrintable, parse_directive-print}

-- "hi ", "bob" and " 1"
abbrev hi : Text
hi = 104 ∷ 105 ∷ 32 ∷ []

abbrev bob : Text
bob = 98 ∷ 111 ∷ 98 ∷ []

abbrev one : Text
one = 32 ∷ 49 ∷ []

-- "hi /collect 1"
abbrev collect_one : Text
collect_one = hi ++ 47 ∷ 99 ∷ 111 ∷ 108 ∷ 108 ∷ 101 ∷ 99 ∷ 116 ∷ one

collect_one_parsed :
    (parse_directive collect_one 0 5 ≡ collects hi 1)
    × (parse_directive collect_one 0 0 ≡ malformed collect_count_out_of_range)
    × (parse_directive bob 0 5 ≡ nothing)
unfolding parse_directive first_candidate scan candidate_at marked after parse_pass parse_to
    parse_collect all_units match_count read_count
collect_one_parsed = (refl, refl, refl)

parse_directive-Verbatim_example : Verbatim 5 collect_one (parse_directive collect_one 0 5)
parse_directive-Verbatim_example = parse_directive-Verbatim collect_one 0 5

parse_directive-print_example :
    parse_directive (print (sends_to hi bob one)) 0 5 ≡ sends_to hi bob one
unfolding is_nickname all_units IsPrintable
parse_directive-print_example = parse_directive-print (sends_to hi bob one) 0 5 (refl, refl, refl)
