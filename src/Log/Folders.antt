-- ===== src/Log/Folders.antt =====
-- The paths of the statistics and the day files of common/writeRunInfo.cpp, which no call rotates.
use websocket_test.Base.{
  ℕ, zero, suc, ◌≤◌, ◌≡◌, refl, arith, Bool, true, false, ◌&&◌, ◌||◌, List, [], ◌∷◌, ◌++◌, ◌==◌,
  length, take,
}
use websocket_test.Log.{stat_folder, day_folder, generation, two_digits}

unfoldable pub begins : List ℕ → List ℕ → Bool
begins [] xs = true
begins (p ∷ ps) [] = false
begins (p ∷ ps) (x ∷ xs) = p == x && begins ps xs

unfoldable pub in_folder : List ℕ → Bool
in_folder path = begins stat_folder path || begins day_folder path

begins-take :
    (n : ℕ) (ps xs ys : List ℕ)
    → length ps ≤ n
    → begins ps xs ≡ true
    → begins ps (take n (xs ++ ys)) ≡ true
unfolding begins
begins-take n [] xs ys h b = refl
begins-take zero (p ∷ ps) xs ys h b = ground arith
begins-take (suc n) (p ∷ ps) [] ys h b = ground arith
begins-take (suc n) (p ∷ ps) (x ∷ xs) ys h b = ground (arith, begins-take n ps xs ys)

-- The generations of a file of the folders are files of the folders.
pub generation-in_folder :
    (path : List ℕ) (k : ℕ) → in_folder (generation path k) ≡ false → in_folder path ≡ false
unfolding in_folder generation
generation-in_folder path k e =
    let suffix = 95 ∷ two_digits k in
    ground (
      arith,
      begins-take 1023 stat_folder path suffix (omega arith),
      begins-take 1023 day_folder path suffix (omega arith),
      e,
    )
