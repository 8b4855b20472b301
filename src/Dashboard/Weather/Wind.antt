-- ===== src/Dashboard/Weather/Wind.antt =====
-- The name of a wind.
use microservices_practice.Common.{
  ℕ, zero, suc, ◌+◌, ◌*◌, ◌/◌, ◌%◌, ◌≤◌, ◌<◌, String, ◌≡◌, refl, some, List, [], ◌∷◌, length, arith,
}
use microservices_practice.Dashboard.Weather.{get_elem?, dirs, sector, wind_dir}

get_elem?-length :
    (xs : List String) (i : ℕ) → i < length xs → (x : String) × (get_elem? xs i ≡ some x)
get_elem?-length [] i h = absurd (omega arith)
get_elem?-length (x ∷ xs) zero h = (x, refl)
get_elem?-length (x ∷ xs) (suc i) h = get_elem?-length xs i (omega (arith, h))

-- Every wind has a name: that of one of the sixteen directions, `i` of them from north, and some
-- whole turns, from which the wind is not more than half a sector (11.25°, in quarters of a degree) off.
wind_dir_lem :
    (deg : ℕ)
    → (i : ℕ) × (turns : ℕ) × (name : String) × (wind_dir (some deg) ≡ some name)
      × (get_elem? dirs i ≡ some name)
      × (4 * deg ≤ 90 * (i + 16 * turns) + 45)
      × (90 * (i + 16 * turns) ≤ 4 * deg + 45)
unfolding wind_dir sector
wind_dir_lem deg =
    let i = sector deg % 16 in
    let (name, found) = get_elem?-length dirs i (omega arith) in
    (i, sector deg / 16, name, found, found, omega arith, omega arith)
