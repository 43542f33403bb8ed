-- ===== src/Lib.antt =====
-- A verification library of stellarmesh-sdk: the Go API gateway of sdk/go/gateway with the
-- sessions of sessionauth and the authenticator of jwtauth, the object storage of
-- sdk/go/objectstorage, the settings of sdk/go/envconfig, and the storage service of
-- services/storage.
--
-- The gateway serves a request by a fixed pipeline. `Gateway.ServeHTTP`
-- (sdk/go/gateway/gateway.go) is `serve_http` of Gateway/Pipeline.antt: `admit` is everything up
-- to the call of the upstream, `forward` that call, `settle` the deferred recovery from a panic,
-- and `finish_request` the deferred report. A stage maps an exchange (the request, the response
-- recorder and the log state) to a flow: go on with a value, end with the response as written, or
-- panic (Gateway/Flow.antt). The stages, each over the file of the same matter under
-- sdk/go/gateway:
--   Gateway/RequestId.antt     request_id.go: `resolve_request_id`, `normalize_request_id_config`
--   Gateway/Cors.antt          cors.go: `new_cors_policy`; Cors/Handle.antt: `handle_cors`
--   Gateway/Health.antt        health.go: `new_health_policy`, `handle_health`
--   Gateway/Route.antt         route.go: `new_static_route_resolver`, `resolve_route`
--   Gateway/ClientIp.antt      client_ip.go: `with_trusted_proxies`, `resolve_client_ip`
--   Gateway/RateLimit.antt     rate_limit.go: `apply_rate_limit`
--   Gateway/Credential.antt    credential.go: `bearer_credential`, `cookie_credential`
--   Gateway/Authenticate.antt  authentication.go: `authenticate`, `strip_and_inject_identity`
--   Gateway/Policy.antt        policy.go: `apply_authorizer`, `apply_before_proxy`
-- Around them stand Gateway/Recorder.antt (response_recorder.go over the writer of net/http),
-- Gateway/Respond.antt (response.go), Gateway/AccessLog.antt and Gateway/Finish.antt
-- (access_log.go, observer.go), Gateway/Token.antt (http_token.go), Gateway/Header.antt
-- (`http.Header`) and Gateway/Types.antt (the shared types). Gateway/Options.antt (options.go and
-- the options of every file) and Gateway/Assembly.antt (`New` of gateway.go as `new_gateway`, the
-- fixed upstreams of proxy.go) make a gateway at start-up; Gateway/Proxy.antt is the hooks of
-- `newReverseProxy`. Session/Key.antt is sessionauth/key.go; Session/Call.antt (`NewStore`, a call of
-- the script and its reply) and Session/Store.antt (the operations) are store.go: an operation
-- takes and returns a world, on which the script that Redis runs is a function.
-- Session/Script.antt is that function, `sessionScript` of store.go as `session_script`, over the
-- commands of Redis in Session/Redis.antt, with its `escape` and `load` in Session/Load.antt, and
-- Session/Store/Scripted.antt and Isolated.antt beside it put both together. The IDs are in
-- Session/Base64.antt, and Session/Authenticator.antt authenticator.go; JwtAuth.antt is
-- jwtauth/authenticator.go (`New` as `new_authenticator`, `Authenticate` as `authenticate`), an
-- authenticator of the gateway as well. RedisLimit.antt is redislimit/limiter.go (`New` as
-- `new_limiter`, `Allow` as `allow`), a limiter of the gateway. Redis answers each call of its
-- script; of a rate the model knows whether it is usable and the time that a refill takes, and of
-- a floating-point number in an answer the floor. Base and Text hold what they share: tests on
-- numbers, lists, results, Go strings as lists of bytes, UTF-8, and `strconv.ParseInt`
-- (Text/ParseInt.antt).
--
-- A client of object storage is bound to a namespace, a bucket and a prefix. ObjectStorage.antt
-- and its Requests.antt are sdk/go/objectstorage/objectstorage.go; under S3Store are the files of
-- sdk/go/objectstorage/s3store: S3Store.antt (errors.go), Validation.antt and Parts.antt
-- (validation.go), Provider.antt (client.go: what is handed to the AWS SDK), Objects.antt and
-- Operations.antt (operations.go) and Config.antt (config.go). An operation is a `Run`: the calls of the SDK that
-- it makes and its result; `observe` is deferred, and Operations/Observations.antt adds it to each
-- operation. The storage service, under Storage, gives such clients to principals:
-- AccessPolicy.antt and Validation.antt (services/storage/internal/storagev1: `compile_policy`,
-- `authorize`), Health.antt (internal/application/registry.go) and Config.antt
-- (internal/config/config.go), which reads its settings by the strict loader of EnvConfig.
-- EnvConfig.antt, EnvConfig/Size.antt and EnvConfig/Loader.antt are sdk/go/envconfig/env.go over
-- an environment that is a function.
--
-- What a project configures (resolvers, authenticator, limiters, policies, responders, upstreams,
-- logger) is a function that returns a value, fails, or panics. The pipeline calls each such
-- component at most once for a request, so a component with a state of its own answers each
-- request as some function does. Components are taken not to change the request that they are
-- given. `url.Parse`, net/netip, `net.SplitHostPort`, `http.ParseCookie`, `time.ParseDuration`,
-- SHA-256, the decoder of Base64, Redis with cjson and SHA-1, the AWS SDK, the JWT library and the
-- random generator are parameters. Every loop of the code runs over a list and is structural
-- recursion, or over the three attempts of the session store's `Create`; only `decimal` of
-- Text.antt has fuel, one unit for each of the at most 20 digits of a number of 64 bits.
--
-- Limits of the model: case mapping is that of ASCII letters, and a header name is compared in its
-- canonical form; durations, sizes and lengths are integers that the code compares and divides, so
-- they cannot overflow, but for the products of EnvConfig and RedisLimit, which the code checks as
-- written out there; the arriving request carries no values of the gateway's context and no body
-- bound; time stands still while a script runs; `http.MaxBytesReader` is the field `body_limit`;
-- the writer of net/http keeps a body that HTTP would drop, and its panic on an invalid status is
-- left out. A Go map is the list of its entries in the order of an iteration, of which the code
-- says nothing. The texts of messages are left out.
--
-- Not modelled, and why: the forwarding of httputil, which the repository only configures (the
-- handler that `newReverseProxy` makes is a parameter); the Lua script of redislimit, which
-- computes in floating point (a parameter); sdk/go/http and slog_access_log.go, thin layers over
-- encoding/json, net/http and log/slog; sdk/go/logging, whose sanitizer walks values by
-- reflection; sdk/go/mq, which hands its arguments to the Kafka client; the HTTP handlers of
-- services/storage and the decoding of its access file, which are glue to net/http and
-- encoding/json; and the TypeScript and Python parts.
pub mod Base
pub mod Text
pub mod Gateway
pub mod Session
pub mod JwtAuth
pub mod RedisLimit
pub mod EnvConfig
pub mod ObjectStorage
pub mod S3Store
pub mod Storage
