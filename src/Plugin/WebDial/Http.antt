-- ===== src/Plugin/WebDial/Http.antt =====
-- `buildHttpRequest` of bctl/agent/plugin/web/actions/webdial/webdial.go and `BuildEndpoint` of
-- bzerolib/bzhttp/bzhttp.go.
use bzero.Shared.{
  ℕ, ◌≡◌, Bool, not, ◌&&◌, Option, none, some, String, str_append, List, [], ◌∷◌, if◌then◌else◌,
  arith, Outcome, ok, err, panic,
}
use bzero.Mrtap.Types.{Bytes}
use bzero.Plugin.WebDial.{Headers, set_header}

-- What a read of the response's body returns: bytes, alone, with io.EOF or with another error; `dying`
-- is the tomb dying before a read.
pub data BodyRead : Type 0 where
  got eof failed : Bytes → BodyRead
  dying : BodyRead

-- The request as it is handed to the http client; the endpoint and the method are those that
-- `http.NewRequest` was given.
pub record HttpRequest : Type 0 where
  pub endpoint : String
  pub http_method : String
  pub headers : Headers
  pub body : Bytes

-- What comes of a request: no response, or one, of which the reads of its body are listed.
pub data HttpAnswer : Type 0 where
  no_response : HttpAnswer
  responds : ℕ → Headers → List BodyRead → HttpAnswer

-- net/url, strings, fmt and net/http, with the type of a parsed URL: `join` is `path.Join` of its path and
-- another, `can_request` whether `http.NewRequest` succeeds with a method and an endpoint, and `perform`
-- the client.
pub record Http (U : Type 0) : Type 0 where
  pub parse : String → Option U
  pub join : U → String → U
  pub print_url : U → String
  pub host : U → String
  pub query_unescape : String → Option String
  pub ends_with_slash : String → Bool
  pub print : ℕ → String
  pub canonical : String → String
  pub can_request : String → String → Bool
  pub perform : HttpRequest → HttpAnswer

pub data BuildError : Type 0 where
  bad_endpoint bad_host : BuildError

module _ {U : Type 0} (http : Http U) where
  -- `path.Join` takes a slash at the end away.
  unfoldable pub build_endpoint : String → String → Option String
  build_endpoint base to_add = elim (http.parse base) [
    | none ↦ none
    | some u ↦ elim (http.query_unescape (http.print_url (http.join u to_add))) [
      | none ↦ none
      | some decoded ↦
          if http.ends_with_slash to_add && not (http.ends_with_slash decoded)
          then some (str_append decoded "/")
          else some decoded
    ]
  ]

  -- Each value of a name takes the place of the one before.
  unfoldable pub set_values : String → List String → Headers → Headers
  set_values name [] hs = hs
  set_values name (v ∷ vs) hs = set_values name vs (set_header (http.canonical name) (v ∷ []) hs)

  unfoldable pub set_headers : Headers → Headers → Headers
  set_headers [] hs = hs
  set_headers ((name, values) ∷ rest) hs = set_headers rest (set_values name values hs)

  -- The error of `http.NewRequest` is dropped, and its request, then nil, is read.
  unfoldable pub build_http_request :
      String → ℕ → String → Bytes → String → Headers → Outcome BuildError HttpRequest
  build_http_request remote_host remote_port endpoint body http_method headers =
      let remote_url = str_append remote_host (str_append ":" (http.print remote_port)) in
      elim (build_endpoint remote_url endpoint) [
        | none ↦ err bad_endpoint
        | some built ↦ elim (http.parse remote_host) [
          | none ↦ err bad_host
          | some u ↦
              if http.can_request http_method built
              then ok (record {
                endpoint = built;
                http_method = http_method;
                headers = set_header "Host" (http.host u ∷ []) (set_headers headers []);
                body = body;
              })
              else panic
        ]
      ]

  -- A request that is built has the method and the body that it was built of.
  pub build_http_request-kept :
      (remote_host : String) (remote_port : ℕ) (endpoint : String) (body : Bytes)
      (http_method : String) (headers : Headers) (r : HttpRequest)
      → build_http_request remote_host remote_port endpoint body http_method headers ≡ ok r
      → (r.http_method ≡ http_method) × (r.body ≡ body)
  unfolding build_http_request
  build_http_request-kept remote_host remote_port endpoint body http_method headers r e =
      (ground (arith, e), ground (arith, e))
