-- ===== src/Web/Router/Cases.antt =====
-- What a request can do to the state.
use rust_dns.Web.Router.{
  get, head, post, other_method, Extractors, Method, post_blocklist, post_config, route, app,
  HttpResponse, HttpRequest, reads, blocklist_route, config_route,
}
use rust_dns.Base.{ℕ, inl, inr, Option, none, some, Bool-cases}
use rust_dns.Text.Unicode.{Unicode}
use rust_dns.State.{Moka, AppState}
use rust_dns.Web.{Outside, set_blocklist, ConfigUpdate, set_config, auth}
use rust_dns.Text.{Text, equal, text}
use rust_dns.Bytes.{Bytes}

module _ ⦃u : Unicode⦄ (m : Moka) (io : Outside) (x : Extractors) (index : Text)
    (run_query : Text → ℕ → Option Text) (elapsed : ℕ) where
  module _ {κ} (P : AppState m → Type κ) (st : AppState m) (same : P st)
      (blocklist : (body : Text) → P (set_blocklist m io body st).0)
      (config : (body : ConfigUpdate) → P (set_config m io body st).0) where
    reads-cases :
        (method : Method) (r : HttpResponse)
        → P (reads m io x index run_query elapsed method r st).0
    reads-cases get r = same
    reads-cases head r = same
    reads-cases post r = same
    reads-cases other_method r = same

    post_blocklist-cases :
        (body : Option Text) → P (post_blocklist m io x index run_query elapsed body st).0
    post_blocklist-cases none = same
    post_blocklist-cases (some body) = blocklist body

    post_config-cases :
        (body : Option ConfigUpdate) → P (post_config m io x index run_query elapsed body st).0
    post_config-cases none = same
    post_config-cases (some body) = config body

    blocklist_route-cases :
        (method : Method) (body : Bytes)
        → P (blocklist_route m io x index run_query elapsed method body st).0
    blocklist_route-cases post body = post_blocklist-cases (x.blocklist_update body)
    blocklist_route-cases get body = same
    blocklist_route-cases head body = same
    blocklist_route-cases other_method body = same

    config_route-cases :
        (method : Method) (body : Bytes)
        → P (config_route m io x index run_query elapsed method body st).0
    config_route-cases post body = post_config-cases (x.config_update body)
    config_route-cases get body = same
    config_route-cases head body = same
    config_route-cases other_method body = same

    route-cases : (req : HttpRequest) → P (route m io x index run_query elapsed req st).0
    unfolding route
    route-cases req = elim (Bool-cases (equal req.head_part.path (text "/"))) [
      | inl root ↦ rw (root, route) (reads-cases req.method _)
      | inr n0 ↦ elim (Bool-cases (equal req.head_part.path (text "/api/blocklist"))) [
        | inl at ↦ rw (n0, route) (rw at (blocklist_route-cases req.method req.body))
        | inr n1 ↦ elim (Bool-cases (equal req.head_part.path (text "/api/config"))) [
          | inl at ↦ rw (n0, route) (rw n1 (rw at (config_route-cases req.method req.body)))
          | inr n2 ↦ elim (Bool-cases (equal req.head_part.path (text "/api/stats"))) [
            | inl at ↦ rw (n0, route) (rw n1 (rw n2 (rw at (reads-cases req.method _))))
            | inr n3 ↦ elim (Bool-cases (equal req.head_part.path (text "/api/logs"))) [
              | inl at ↦ rw (n0, route) (rw n1 (rw n2 (rw n3 (rw at (reads-cases req.method _)))))
              | inr n4 ↦ rw (n0, route) (rw n1 (rw n2 (rw n3 (rw n4 same))))
            ]
          ]
        ]
      ]
    ]

    -- What holds of the state as it was, after `set_blocklist` and after `set_config` holds after any
    -- request.
    pub app-cases : (req : HttpRequest) → P (app m io x index run_query elapsed req st).0
    unfolding app
    app-cases req = elim (Bool-cases (auth st.config.web.admin_token req.head_part)) [
      | inl passes ↦ rw (passes, app) (route-cases req)
      | inr denied ↦ rw (denied, app) same
    ]
