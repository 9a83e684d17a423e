-- ===== src/Production/Chain.antt =====
-- The chain of middleware that Serve (hwhkit/production/server.go) puts before the routes.
pub mod Panics
use hwhkit_go.Prelude.{ℕ, String, Option, List, [], ◌∷◌}
use hwhkit_go.Prelude.Int.{ℤ, Duration}
use hwhkit_go.Prelude.Text.{Bytes}
use hwhkit_go.Http.{Handler, Middleware, Request, Run}
use hwhkit_go.Config.AppConfig.{ServerConfig}
use hwhkit_go.Core.ApiError.{ApiError}
use hwhkit_go.Middleware.RequestId.{request_id_middleware}
use hwhkit_go.Middleware.Recover.{recover}
use hwhkit_go.Middleware.AccessLog.{access_log, http_metrics}
use hwhkit_go.Middleware.Cors.{cors}
use hwhkit_go.Middleware.Limits
use hwhkit_go.Middleware.Cors
use hwhkit_go.Production.Serve.{Layer, layers}

-- What the middleware uses of other packages: uuid, http.StatusText, encoding/json, chi's Compress,
-- http.MaxBytesReader and http.TimeoutHandler, and the pattern of the route of a request.
pub record Parts (C : Type 0) : Type 0 where
  pub new_v7 : Option String
  pub new_string : String
  pub status_text : ℕ → String
  pub encode : ApiError → Bytes
  pub itoa : ℤ → String
  pub compressor : ℤ → List String → Middleware C
  pub max_bytes : ℤ → Request C → Request C
  pub timeout_handler : Handler C → Duration → Handler C
  pub route_pattern : String

module _ {C : Type 0} (parts : Parts C) where
  -- The middleware of a layer; what AccessLog and HTTPMetrics note down is left out.
  unfoldable pub middleware_of : Layer → Middleware C
  middleware_of Layer.request_id next r = request_id_middleware parts.new_v7 parts.new_string next r
  middleware_of Layer.recover next r = recover parts.status_text parts.encode next r
  middleware_of Layer.access_log next r = (access_log next r).0
  middleware_of Layer.default_cors next r = cors parts.itoa Cors.default_cors next r
  middleware_of Layer.http_metrics next r = (http_metrics parts.route_pattern next r).0
  middleware_of (Layer.compress level) next r = Limits.compress parts.compressor level next r
  middleware_of (Layer.body_limit n) next r = Limits.body_limit parts.max_bytes n next r
  middleware_of (Layer.timeout d) next r = Limits.timeout parts.timeout_handler d next r

  -- Use, in order: the first layer is the outermost.
  unfoldable pub chain : List Layer → Handler C → Handler C
  unfolding middleware_of
  chain [] routes r = routes r
  chain (l ∷ ls) routes r = middleware_of l (chain ls routes) r

  -- The handler of the http.Server, where `routes` are the endpoints and the mounted router.
  unfoldable pub root_handler : ServerConfig → Handler C → Handler C
  unfolding chain layers
  root_handler cfg routes = chain (layers cfg) routes
