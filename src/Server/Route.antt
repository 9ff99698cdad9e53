-- ===== src/Server/Route.antt =====
-- About `match_route` of src/Server.cpp.
use web_server.Prelude.{
  ℕ, suc, ◌≤◌, ◌<◌, ◌≡◌, refl, sym, ap, ◌∙◌, true, false, ◌&&◌, Option, none, some, List, [], ◌∷◌,
  ◌++◌, append-nil, append_assoc, arith, length, Bool-cases, inl, inr, ltb,
}
use web_server.Bytes.{Bytes}
use web_server.Config.{RouteConfig}
use mathlib.Core.Path.{subst}
use web_server.Server.{Best, is_match, match_step, match_from, match_route}
use web_server.Server.Covers.{Covers, is_match-Covers, Covers-is_match}

-- Every route of the list whose path covers the target has a path shorter than `n`.
abbrev pub AreBelow : ℕ → Bytes → List RouteConfig → Type 0
AreBelow n uri [] = Unit
AreBelow n uri (r ∷ l) = (Covers r.path uri → length r.path < n) × AreBelow n uri l

AreBelow-append :
    (n : ℕ) (uri : Bytes) (l m : List RouteConfig)
    → AreBelow n uri l
    → AreBelow n uri m
    → AreBelow n uri (l ++ m)
AreBelow-append n uri [] m h k = k
AreBelow-append n uri (r ∷ l) m h k = (h.0, AreBelow-append n uri l m h.1 k)

AreBelow-mono :
    (j n : ℕ) (uri : Bytes) (l : List RouteConfig) → j ≤ n → AreBelow j uri l → AreBelow n uri l
AreBelow-mono j n uri [] e h = tt
AreBelow-mono j n uri (r ∷ l) e h =
    ((λ m. let b = h.0 m in omega arith), AreBelow-mono j n uri l e h.1)

-- A route of the list whose path covers the target, is longer than those in front of it that cover
-- it, and at least as long as those behind it.
pub record IsFirstLongest (uri : Bytes) (routes : List RouteConfig) (r : RouteConfig) : Type 0 where
  pub front : List RouteConfig
  pub behind : List RouteConfig
  pub place : routes ≡ front ++ r ∷ behind
  pub matches : Covers r.path uri
  pub nonempty : 0 < length r.path
  pub front_below : AreBelow (length r.path) uri front
  pub behind_below : AreBelow (suc (length r.path)) uri behind

-- With no such route, no path that is not empty covers the target.
abbrev pub IsLongest : Bytes → List RouteConfig → Option RouteConfig → Type 0
IsLongest uri routes none = AreBelow 1 uri routes
IsLongest uri routes (some r) = IsFirstLongest uri routes r

-- The length that the loop keeps.
abbrev best_length_of : Option RouteConfig → ℕ
best_length_of none = 0
best_length_of (some r) = length r.path

-- All that came before is shorter than a new longest path.
all_below :
    (uri : Bytes) (routes : List RouteConfig) (best : Option RouteConfig) (n : ℕ)
    → IsLongest uri routes best
    → best_length_of best < n
    → AreBelow n uri routes
all_below uri routes none n h k = AreBelow-mono 1 n uri routes k h
all_below uri routes (some r) n h k = rw h.place (
    AreBelow-append n uri h.front (r ∷ h.behind)
      (AreBelow-mono (length r.path) n uri h.front (omega arith) h.front_below)
      ((λ m. k), AreBelow-mono (suc (length r.path)) n uri h.behind k h.behind_below))

-- A route that does not replace the best one.
kept :
    (uri : Bytes) (routes : List RouteConfig) (best : Option RouteConfig) (x : RouteConfig)
    → IsLongest uri routes best
    → (Covers x.path uri → length x.path ≤ best_length_of best)
    → IsLongest uri (routes ++ x ∷ []) best
kept uri routes none x h k =
    AreBelow-append 1 uri routes (x ∷ []) h ((λ m. let b = k m in omega arith), tt)
kept uri routes (some r) x h k = record {
  front = h.front;
  behind = h.behind ++ x ∷ [];
  place = ap (λ l. l ++ x ∷ []) h.place ∙ append_assoc h.front (r ∷ h.behind) (x ∷ []);
  matches = h.matches;
  nonempty = h.nonempty;
  front_below = h.front_below;
  behind_below =
      AreBelow-append (suc (length r.path)) uri h.behind (x ∷ []) h.behind_below
        ((λ m. let b = k m in omega arith), tt);
}

taken :
    (uri : Bytes) (routes : List RouteConfig) (best : Option RouteConfig) (x : RouteConfig)
    → IsLongest uri routes best
    → Covers x.path uri
    → best_length_of best < length x.path
    → IsLongest uri (routes ++ x ∷ []) (some x)
taken uri routes best x h m k = record {
  front = routes;
  behind = [];
  place = refl;
  matches = m;
  nonempty = omega arith;
  front_below = all_below uri routes best (length x.path) h k;
  behind_below = tt;
}

not_longer :
    (uri : Bytes) (best : Option RouteConfig) (x : RouteConfig)
    → (is_match uri x && ltb (best_length_of best) (length x.path)) ≡ false
    → Covers x.path uri
    → length x.path ≤ best_length_of best
not_longer uri best x old m = let e = Covers-is_match uri x m in ground arith

step_taken :
    (uri : Bytes) (best : Option RouteConfig) (x : RouteConfig)
    → (is_match uri x && ltb (best_length_of best) (length x.path)) ≡ true
    → match_step uri x (best, best_length_of best) ≡ (some x, length x.path)
unfolding match_step
step_taken uri best x new = rw new

step_kept :
    (uri : Bytes) (best : Option RouteConfig) (x : RouteConfig)
    → (is_match uri x && ltb (best_length_of best) (length x.path)) ≡ false
    → match_step uri x (best, best_length_of best) ≡ (best, best_length_of best)
unfolding match_step
step_kept uri best x old = rw old

IsLongest-from :
    (uri : Bytes) (rest routes : List RouteConfig) (best : Option RouteConfig)
    → IsLongest uri routes best
    → IsLongest uri (routes ++ rest) (match_from uri rest (best, best_length_of best)).0
unfolding match_from
IsLongest-from uri [] routes best h = rw (append-nil routes) h
IsLongest-from uri (x ∷ rest) routes best h =
    let Goal : Best → Type 0 = λ b. IsLongest uri (routes ++ x ∷ rest) (match_from uri rest b).0 in
    elim (Bool-cases (is_match uri x && ltb (best_length_of best) (length x.path))) [
      | inl new ↦
          let m : is_match uri x ≡ true = ground arith in
          let n : best_length_of best < length x.path = ground arith in
          subst Goal (sym (step_taken uri best x new)) (
            rw (← append_assoc routes (x ∷ []) rest) (
              IsLongest-from uri rest (routes ++ x ∷ []) (some x)
                (taken uri routes best x h (is_match-Covers uri x m) n)))
      | inr old ↦ subst Goal (sym (step_kept uri best x old)) (
          rw (← append_assoc routes (x ∷ []) rest) (
            IsLongest-from uri rest (routes ++ x ∷ []) best
              (kept uri routes best x h (not_longer uri best x old))))
    ]

-- The route that is found is one of the list, its path covers the target, every route in front of it
-- whose path covers the target is shorter, and no such route behind it is longer; if none is found,
-- no path that is not empty covers the target. A path covers a target that starts with it, if the
-- target ends there, or goes on with a slash, or the path ends with a slash.
pub match_route-IsLongest :
    (uri : Bytes) (routes : List RouteConfig) → IsLongest uri routes (match_route uri routes)
unfolding match_route
match_route-IsLongest uri routes = IsLongest-from uri routes [] none tt
