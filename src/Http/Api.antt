-- ===== src/Http/Api.antt =====
-- newAPIServer of cmd/storefront/main.go: the handler of the public HTTP server.
use storefront.Auth.{Parser}
use storefront.Http.Middleware.{MiddlewareCfg, Outside, new_middleware}
use storefront.Http.Router.{Around, Decoders, auth, new_mux}
use storefront.Http.Wire.{HttpHandler}
use storefront.Service.{Services}

-- what the server is given
pub record Deployment : Type 0 where
  pub services : Services
  pub parser : Parser
  pub decoders : Decoders
  pub outside : Outside
  pub settings : MiddlewareCfg

abbrev pub require_token : Deployment → Around
require_token d = auth d.services.cache.texts d.parser

abbrev pub api_mux : Deployment → HttpHandler
api_mux d = new_mux d.services d.decoders (require_token d)

unfoldable pub api : Deployment → HttpHandler
api d = new_middleware d.settings d.outside (api_mux d)
