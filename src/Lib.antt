-- ===== src/Lib.antt =====
-- A model of connexion, the library that serves an API from its OpenAPI specification, and the
-- theorems that make its parts correct. A request passes a stack of ASGI middlewares: exceptions
-- become problem responses, the router names the operation, the security middleware verifies the
-- request, the request validation checks parameters and body, and the response validation holds a
-- response back until its body is validated.
--
-- The files and what they model:
--
-- - Prelude: lists over the native numbers, Python's dict as an association list in insertion order
--   (Prelude/Dict), decimal digits (Prelude/Decimal), the methods of str (Prelude/Text, with their laws in Prelude/Text/Laws and
--   Prelude/Text/Split).
-- - Value: plain Python values (None, bool, int, float, str, list, dict, opaque objects); Value/Access
--   reads dicts held in values.
-- - Errors: connexion/exceptions.py and connexion/problem.py, and the results that may be an
--   exception. Every function that can raise returns such a result.
-- - Asgi: the messages of ASGI and the stream that `receive` gives.
-- - Utils: connexion/utils.py. Cast and Coerce are boolean, make_type and coerce_type; Merge is
--   deep_merge and deep_get; Media is the media types, extract_content_type, is_nullable and
--   is_null; Import is deep_getattr and get_function_from_name.
-- - Datastructures: connexion/datastructures.py, the MediaTypeDict: Match is its patterns, Order the
--   order in which it tries its keys.
-- - Security: connexion/security.py. Lookup finds the functions of a scheme, Inspect is
--   inspect_function_arguments of connexion/decorators/parameter.py, Checks the check functions
--   and validate_scope, Schemes the verify functions of the schemes, Verify the search over
--   alternatives and the choice of an error. A request is a record of its headers, its cookies and
--   the context that verification leaves; a verify function returns its answer with the request it
--   leaves.
-- - Middleware/Security: the SecurityOperation of connexion/middleware/security.py, on Security. Tried
--   says how its requirements are tried, and FailClosed what follows for a request.
-- - Middleware/Exceptions: the handlers of connexion/middleware/exceptions.py.
-- - Middleware/Stack: _apply_middlewares of connexion/middleware/main.py, the order of the stack.
-- - Middleware/Routed: RoutedAPI and RoutedMiddleware of connexion/middleware/abstract.py: operations
--   are registered by id, and found by the id that the router leaves in the scope.
-- - Operations: what the middlewares use of an operation (connexion/operations/abstract.py), and
--   Operations/OpenApi, which fills that interface from connexion/operations/openapi.py.
--   Operations/Swagger2 fills it from connexion/operations/swagger2.py, with Operations/Forms for the
--   parameters of forms. Operations/Examples and Operations/PathTypes are example_response,
--   get_mimetype and get_path_parameter_types of both.
-- - Specification: connexion/spec.py, a specification with its raw form as its state. BasePath says
--   what a copy with another base path is.
-- - JsonSchema: connexion/json_schema.py, the keywords of the request and of the response validator.
--   JsonSchema/References is resolve_refs, with the objects that it changes in place as its state.
-- - Apis: connexion/apis/abstract.py. Routing adds the paths of a specification to a router, Responses
--   makes a response of what a handler returns.
-- - UriParsing: connexion/uri_parsing.py. The root has resolve_params for any parser class; OpenApi and
--   Swagger2 are the classes, Styles their delimiters, DeepObjects the deep objects of queries. Becomes
--   says what a parameter becomes.
-- - Resolvers: connexion/resolver.py. The root has Resolver and RelativeResolver, Rest the RestyResolver,
--   and Views the MethodResolver and MethodViewResolver with the list of their views, which a
--   resolution takes and returns. Resolvers/Mock is connexion/mock.py, with the counter as its state,
--   and the handler of connexion/handlers.py. Resolvers/Caught says what they raise.
-- - Arguments: connexion/decorators/parameter.py, from a request to the keyword arguments of the view
--   function. Names makes the names of arguments, Values casts values and finds defaults, Query and
--   Body are the parts of a request, and Wrapper puts them together. Keys and Accepted say which
--   arguments are passed.
-- - Validators/Json: connexion/validators/json.py. Request is the reading and the replay of the body,
--   Response the buffering of a response; Conforms says which bodies pass.
-- - Validators/Form: connexion/validators/form_data.py, with the form as the list of its items.
-- - Validators/Parameter: connexion/validators/parameter.py, for whatever parser resolves the query.
--   Accepted is about one parameter, Found and Located about those of a location, and Declared about a
--   whole request.
-- - Middleware/Routing: connexion/middleware/routing.py, the path templates and RoutingOperation.
-- - Middleware/RequestValidation: the RequestValidationOperation of
--   connexion/middleware/request_validation.py, for whatever validators are registered.
-- - Middleware/ResponseValidation: the ResponseValidationOperation of
--   connexion/middleware/response_validation.py, with the function it sends by as its state.
--
-- The theorems of a part stand in its child modules, and concrete runs in modules named Tests.
--
-- Parameters. Code outside the repository is a parameter: json.loads, the check of jsonschema and the
-- decoding of bytes (Validators.Json.Tools), Python's casts (Utils.Coerce.Builtins), the import of
-- modules and getattr (Utils.Import), the environment, base64, the HTTP client and the functions of
-- the user (Security.Platform, Security.Function). A coroutine that a user's function returns is a
-- value that is awaited once. User functions do not change the context that they are given.
--
-- Loops. All loops are structural, but for the import loop of get_function_from_name: its fuel is
-- one more than the dots of the name, and each turn takes one dot away; and for resolve_refs, whose
-- fuel is the depth of its calls, more than that of a specification without references. A caller
-- that waits for a message that never comes is `none`.
--
-- Limits. Lower and upper case and white space are those of ASCII. An int is a sign and a magnitude, and
-- a float is its literal. Values that Python holds equal across types (True, 1 and 1.0) are told
-- apart. The underscores that int() allows in a literal are refused. fnmatch has `*` and `?`, and
-- minds the case. Headers are decoded already.
--
-- Not modelled: the applications, the Flask and starlette glue, the console and its options, the command
-- line and the JSON encoder, which are input and output or configuration.
pub mod Prelude
pub mod Value
pub mod Errors
pub mod Apis
pub mod Arguments
pub mod Asgi
pub mod Datastructures
pub mod JsonSchema
pub mod Middleware
pub mod Operations
pub mod Resolvers
pub mod Security
pub mod Specification
pub mod UriParsing
pub mod Utils
pub mod Validators
