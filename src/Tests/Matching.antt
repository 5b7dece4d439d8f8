-- ===== src/Tests/Matching.antt =====
-- Message triggers, and the named messages of a run.
use tg_conductor.Base.{◌≡◌, ◌↔◌, refl, true, str_eq}
use tg_conductor.Tests.Data.{on_hello, hello}
use tg_conductor.Triggers.MessageMatch.{matches, IsMatch, matches_iff}

matches_iff_example :
    (matches (λ p t. str_eq p t) on_hello hello ≡ true) ↔ IsMatch (λ p t. str_eq p t) on_hello hello
matches_iff_example = matches_iff (λ p t. str_eq p t) on_hello hello

hello-matches : matches (λ p t. str_eq p t) on_hello hello ≡ true
unfolding matches
hello-matches = refl
