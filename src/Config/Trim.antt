-- ===== src/Config/Trim.antt =====
-- `TrimString` of common/Config.cpp on a blank line.
use websocket_test.Base.{ℕ, ◌+◌, ◌≡◌, refl, ap, arith, not, none, List, [], ◌∷◌, All, ◌==◌}
use websocket_test.Config.{space, find_first, trim_found, trim_string, find_last}

find_first-blank :
    (i : ℕ) (s : List ℕ) → All (λ c. c ≡ space) s → find_first (λ x. not (x == space)) i s ≡ none
unfolding find_first
find_first-blank i [] h = refl
find_first-blank i (c ∷ s) h = ground (arith, find_first-blank (i + 1) s h.1)

-- A line of one blank or more and nothing else has no trimmed form: TrimString throws.
trim_string-blank : (c : ℕ) (s : List ℕ) → All (λ c. c ≡ space) (c ∷ s) → trim_string (c ∷ s) ≡ none
unfolding trim_string trim_found
trim_string-blank c s h =
    ap (λ o. trim_found (c ∷ s) o (find_last (λ x. not (x == space)) 0 (c ∷ s)))
      (find_first-blank 0 (c ∷ s) h)
