-- ===== src/Config/Validate/Sound.antt =====
-- About `validate` of src/Config.cpp and the configurations that it accepts.
use web_server.Prelude.{
  ℕ, ◌≤◌, ◌≡◌, ◌≢◌, ◌↔◌, refl, true, false, not, ◌&&◌, ◌⊎◌, inl, inr, Option, none, some, List, [],
  ◌∷◌, arith, Bool-cases, ◌==◌, ==-refl,
}
use web_server.Bytes.{Bytes, same}
use web_server.Bytes.Search.{same_iff}
use web_server.Config.{RouteConfig, ServerConfig}
use web_server.Config.Validate.{
  is_rootless, check_routes, is_port_bad, or_check, check_servers, check_listen, check_duplicates,
  validate,
}

-- The path of a route is absolute, and it redirects with 301 or 302 or not at all.
pub record IsRoute (route : RouteConfig) : Type 0 where
  pub absolute : (path : Bytes) × (route.path ≡ b'/' ∷ path)
  pub redirect :
      (route.redirect_code ≡ 0) ⊎ ((route.redirect_code ≡ 301) ⊎ (route.redirect_code ≡ 302))

abbrev pub AreRoutes : List RouteConfig → Type 0
AreRoutes [] = Unit
AreRoutes (route ∷ routes) = IsRoute route × AreRoutes routes

-- Each port is in range, and each route is well formed.
abbrev pub AreServers : List ServerConfig → Type 0
AreServers [] = Unit
AreServers (srv ∷ servers) =
    ((1 ≤ srv.port) × (srv.port ≤ 65535)) × AreRoutes srv.routes × AreServers servers

-- No server of the list listens where `srv` does.
abbrev pub IsApart : ServerConfig → List ServerConfig → Type 0
IsApart srv [] = Unit
IsApart srv (other ∷ servers) =
    ((srv.host ≡ other.host) → srv.port ≢ other.port) × IsApart srv servers

abbrev pub AreApart : List ServerConfig → Type 0
AreApart [] = Unit
AreApart (srv ∷ servers) = IsApart srv servers × AreApart servers

or_check_iff : (a b : Option Bytes) → (or_check a b ≡ none) ↔ ((a ≡ none) × (b ≡ none))
unfolding or_check
or_check_iff none b = ground arith
or_check_iff (some e) b = ground arith

rootless-absolute :
    (path : Bytes) → is_rootless path ≡ false → (rest : Bytes) × (path ≡ b'/' ∷ rest)
unfolding is_rootless
rootless-absolute [] h = absurd (cc)
rootless-absolute (c ∷ path) h = (path, ground arith)

redirect_sound :
    (code : ℕ)
    → (not (code == 0) && (not (code == 301) && not (code == 302))) ≡ false
    → (code ≡ 0) ⊎ ((code ≡ 301) ⊎ (code ≡ 302))
redirect_sound code h = ground arith

redirect_complete :
    (code : ℕ)
    → (code ≡ 0) ⊎ ((code ≡ 301) ⊎ (code ≡ 302))
    → (not (code == 0) && (not (code == 301) && not (code == 302))) ≡ false
redirect_complete code h = ground arith

routes_sound : (l : List RouteConfig) → check_routes l ≡ none → AreRoutes l
unfolding check_routes
routes_sound [] h = tt
routes_sound (route ∷ l) h = elim (Bool-cases (is_rootless route.path)) [
  | inl bad ↦ let e = rw bad at h in cc
  | inr good ↦
      elim (Bool-cases (
        not (route.redirect_code == 0)
        && (not (route.redirect_code == 301) && not (route.redirect_code == 302)))) [
          | inl bad ↦ let e = rw (good, bad) at h in cc
          | inr fine ↦ (
            record {
              absolute = rootless-absolute route.path good;
              redirect = redirect_sound route.redirect_code fine;
            },
            routes_sound l (rw (good, fine) at h),
          )
        ]
]

absolute_complete : (path rest : Bytes) → path ≡ b'/' ∷ rest → is_rootless path ≡ false
unfolding is_rootless
absolute_complete path rest e = rw e

routes_complete : (l : List RouteConfig) → AreRoutes l → check_routes l ≡ none
unfolding check_routes
routes_complete [] h = refl
routes_complete (route ∷ l) h =
    rw
      (
        absolute_complete route.path h.0.absolute.0 h.0.absolute.1,
        redirect_complete route.redirect_code h.0.redirect,
      )
      (routes_complete l h.1)

port_sound : (port : ℕ) → is_port_bad port ≡ false → (1 ≤ port) × (port ≤ 65535)
unfolding is_port_bad
port_sound port h = ground arith

port_complete : (port : ℕ) → (1 ≤ port) × (port ≤ 65535) → is_port_bad port ≡ false
unfolding is_port_bad
port_complete port h = ground arith

servers_sound : (l : List ServerConfig) → check_servers l ≡ none → AreServers l
unfolding check_servers
servers_sound [] h = tt
servers_sound (srv ∷ l) h = elim (Bool-cases (is_port_bad srv.port)) [
  | inl bad ↦ let e = rw bad at h in cc
  | inr good ↦
      let both = (or_check_iff (check_routes srv.routes) (check_servers l)).0 (rw good at h) in
      (port_sound srv.port good, routes_sound srv.routes both.0, servers_sound l both.1)
]

servers_complete : (l : List ServerConfig) → AreServers l → check_servers l ≡ none
unfolding check_servers
servers_complete [] h = refl
servers_complete (srv ∷ l) h = rw (port_complete srv.port h.0) (
    (or_check_iff (check_routes srv.routes) (check_servers l)).1
      (routes_complete srv.routes h.1, servers_complete l h.2))

listen_sound :
    (srv : ServerConfig) (l : List ServerConfig) → check_listen srv l ≡ none → IsApart srv l
unfolding check_listen
listen_sound srv [] h = tt
listen_sound srv (other ∷ l) h =
    elim (Bool-cases (same srv.host other.host && srv.port == other.port)) [
      | inl twice ↦ let e = rw twice at h in cc
      | inr once ↦ (
        (λ a b.
            let s = (same_iff srv.host other.host).1 a in
            let bad : (same srv.host other.host && srv.port == other.port) ≡ true =
              rw s (rw b (==-refl other.port)) in
            cc),
        listen_sound srv l (rw once at h),
      )
    ]

apart-test :
    (srv other : ServerConfig)
    → ((srv.host ≡ other.host) → srv.port ≢ other.port)
    → (same srv.host other.host && srv.port == other.port) ≡ false
apart-test srv other h = elim (Bool-cases (same srv.host other.host)) [
  | inr e ↦ rw e
  | inl e ↦ let d = h ((same_iff srv.host other.host).0 e) in rw e (ground arith)
]

listen_complete :
    (srv : ServerConfig) (l : List ServerConfig) → IsApart srv l → check_listen srv l ≡ none
unfolding check_listen
listen_complete srv [] h = refl
listen_complete srv (other ∷ l) h = rw (apart-test srv other h.0) (listen_complete srv l h.1)

duplicates_sound : (l : List ServerConfig) → check_duplicates l ≡ none → AreApart l
unfolding check_duplicates
duplicates_sound [] h = tt
duplicates_sound (srv ∷ l) h =
    let both = (or_check_iff (check_listen srv l) (check_duplicates l)).0 h in
    (listen_sound srv l both.0, duplicates_sound l both.1)

duplicates_complete : (l : List ServerConfig) → AreApart l → check_duplicates l ≡ none
unfolding check_duplicates
duplicates_complete [] h = refl
duplicates_complete (srv ∷ l) h =
    (or_check_iff (check_listen srv l) (check_duplicates l)).1
      (listen_complete srv l h.0, duplicates_complete l h.1)

-- `validate` has no complaint exactly about the configurations where each port is between 1 and
-- 65535, each route has a path that starts with a slash and redirects with 301 or 302 or not at
-- all, and no two servers listen on the same host and port.
pub validate_iff :
    (servers : List ServerConfig)
    → (validate servers ≡ none) ↔ (AreServers servers × AreApart servers)
unfolding validate
validate_iff servers = (
  (λ h.
      let both = (or_check_iff (check_servers servers) (check_duplicates servers)).0 h in
      (servers_sound servers both.0, duplicates_sound servers both.1)),
  (λ h.
      (or_check_iff (check_servers servers) (check_duplicates servers)).1
        (servers_complete servers h.0, duplicates_complete servers h.1)),
)
