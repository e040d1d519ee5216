-- ===== src/Web/Router/Guard.antt =====
-- Who may change the state through the web API.
use rust_dns.Web.Router.{
  get, head, post, other_method, unauthorized, Method, HttpRequest, Extractors, HttpResponse, route,
  app, reads, blocklist_route, config_route,
}
use rust_dns.Base.{is_empty, ℕ, ◌≡◌, ◌⊎◌, inl, inr, refl, true, false, Option, Bool-cases}
use rust_dns.Web.{Outside, auth}
use rust_dns.Text.Unicode.{Unicode}
use rust_dns.Text.{text, Text, starts_with, equal, equal_iff}
use rust_dns.State.{Moka, AppState}
use rust_dns.Bytes.{Bytes}
use rust_dns.Web.Gate.{Presents, auth-Presents}

-- The two requests that change the state.
pub record IsUpdate (req : HttpRequest) : Type 0 where
  pub posted : req.method ≡ post
  pub path :
      (req.head_part.path ≡ text "/api/blocklist") ⊎ (req.head_part.path ≡ text "/api/config")

module _ ⦃u : Unicode⦄ (m : Moka) (io : Outside) (x : Extractors) (index : Text)
    (run_query : Text → ℕ → Option Text) (elapsed : ℕ) where
  abbrev Leaves : AppState m → (AppState m × HttpResponse) → Type 0
  Leaves st r = r.0 ≡ st

  reads-Leaves :
      (method : Method) (r : HttpResponse) (st : AppState m)
      → Leaves st (reads m io x index run_query elapsed method r st)
  reads-Leaves get r st = refl
  reads-Leaves head r st = refl
  reads-Leaves post r st = refl
  reads-Leaves other_method r st = refl

  blocklist_route-Leaves :
      (method : Method) (body : Bytes) (st : AppState m)
      → Leaves st (blocklist_route m io x index run_query elapsed method body st) ⊎ (method ≡ post)
  blocklist_route-Leaves post body st = inr refl
  blocklist_route-Leaves get body st = inl refl
  blocklist_route-Leaves head body st = inl refl
  blocklist_route-Leaves other_method body st = inl refl

  config_route-Leaves :
      (method : Method) (body : Bytes) (st : AppState m)
      → Leaves st (config_route m io x index run_query elapsed method body st) ⊎ (method ≡ post)
  config_route-Leaves post body st = inr refl
  config_route-Leaves get body st = inl refl
  config_route-Leaves head body st = inl refl
  config_route-Leaves other_method body st = inl refl

  route-Leaves :
      (req : HttpRequest) (st : AppState m)
      → Leaves st (route m io x index run_query elapsed req st) ⊎ IsUpdate req
  unfolding route
  route-Leaves req st = elim (Bool-cases (equal req.head_part.path (text "/"))) [
    | inl root ↦ rw (root, route) (inl (reads-Leaves req.method _ st))
    | inr n0 ↦ elim (Bool-cases (equal req.head_part.path (text "/api/blocklist"))) [
      | inl blocklist ↦
          let at = (equal_iff req.head_part.path (text "/api/blocklist")).0 blocklist in
          rw (n0, route)
            (rw blocklist (elim (blocklist_route-Leaves req.method req.body st) [
              | inl same ↦ inl same
              | inr posted ↦ inr (record { posted = posted; path = inl at })
            ]))
      | inr n1 ↦ elim (Bool-cases (equal req.head_part.path (text "/api/config"))) [
        | inl config ↦
            let at = (equal_iff req.head_part.path (text "/api/config")).0 config in
            rw (n0, route)
              (rw n1 (
                rw config (elim (config_route-Leaves req.method req.body st) [
                  | inl same ↦ inl same
                  | inr posted ↦ inr (record { posted = posted; path = inr at })
                ])))
        | inr n2 ↦ elim (Bool-cases (equal req.head_part.path (text "/api/stats"))) [
          | inl stats ↦
              rw (n0, route) (rw n1 (rw n2 (rw stats (inl (reads-Leaves req.method _ st)))))
          | inr n3 ↦ elim (Bool-cases (equal req.head_part.path (text "/api/logs"))) [
            | inl logs ↦
                rw (n0, route)
                  (rw n1 (rw n2 (rw n3 (rw logs (inl (reads-Leaves req.method _ st))))))
            | inr n4 ↦ rw (n0, route) (rw n1 (rw n2 (rw n3 (rw n4 (inl refl)))))
          ]
        ]
      ]
    ]
  ]

  update_in_api :
      (req : HttpRequest) → IsUpdate req → starts_with (text "/api") req.head_part.path ≡ true
  unfolding starts_with
  update_in_api req up = elim up.path [ inl at ↦ rw at refl | inr at ↦ rw at refl ]

  -- The request is denied, with the state as it was.
  abbrev pub Denied : HttpRequest → AppState m → Type 0
  Denied req st = app m io x index run_query elapsed req st ≡ (st, unauthorized)

  -- With an admin token that is not empty, a request leaves the state as it was, or it is a `post` to
  -- the blocklist or the configuration that has the token in one of its two headers; and a request for
  -- a path of the API has the token in one of its headers, or it is answered by 401 and leaves the
  -- state as it was.
  pub app-Guarded :
      (req : HttpRequest) (st : AppState m)
      → is_empty st.config.web.admin_token ≡ false
      → (((app m io x index run_query elapsed req st).0 ≡ st)
          ⊎ (IsUpdate req × Presents st.config.web.admin_token req.head_part))
        × ((starts_with (text "/api") req.head_part.path ≡ false)
            ⊎ (Presents st.config.web.admin_token req.head_part ⊎ Denied req st))
  unfolding app
  app-Guarded req st secret =
      let token = st.config.web.admin_token in
      elim (Bool-cases (auth token req.head_part)) [
        | inr denied ↦ rw (denied, app) (inl refl, inr (inr refl))
        | inl passes ↦ (
          rw (passes, app)
              (elim (route-Leaves req st) [
                | inl same ↦ inl same
                | inr up ↦
                    inr (up, auth-Presents token req.head_part (update_in_api req up) secret passes)
              ]),
          elim (Bool-cases (starts_with (text "/api") req.head_part.path)) [
            | inl api ↦ inr (inl (auth-Presents token req.head_part api secret passes))
            | inr elsewhere ↦ inl elsewhere
          ],
        )
      ]
