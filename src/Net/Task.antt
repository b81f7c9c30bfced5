-- ===== src/Net/Task.antt =====
-- source/net/request_task_impl.h, request_task_impl.cpp and response_impl.cpp: `RequestTaskImpl`
-- and the response that it fills. A completion callback is a number that names it. The metrics, which
-- decide nothing here, are in Net.Metrics.
pub mod HeaderLines
pub mod Resent
pub mod HandleInfo
mod Tests
use Prim.Native.Nat.{min}
use ffnetwork.Common.{
  ℕ, zero, suc, ◌+◌, ◌*◌, ◌%◌, ◌^◌, Bool, true, false, ◌==◌, ltb, if◌then◌else◌, List, [], ◌∷◌,
  ◌++◌, Option, none, some, length, take, drop, map,
}
use ffnetwork.Common.Maps.{bytes_key, lookup, insert, same_bytes}
use ffnetwork.Net.Request.{
  Bytes, Headers, Request, get_method, post_method, put_method, head_method, body,
}

pub data ResponseCode : Type 0 where
  invalid success invalid_handle invalid_parameter runtime_error timeout user_cancel
        connect_to_server_failed invalid_url unknown_error :
      ResponseCode

-- The codes of a response that is not constructed yet are not initialized: `none`. The HTTP status
-- is a number, 0 for `StatusCodeInvalid`.
pub record Response : Type 0 where
  pub request : Option Request
  pub status_code : Option ℕ
  pub response_code : Option ResponseCode
  pub cancelled : Bool
  pub headers : Headers

abbrev pub new_response : Response
new_response = record {
  request = none;
  status_code = none;
  response_code = none;
  cancelled = false;
  headers = [];
}

-- The constructor from all values.
abbrev pub response_of : Request → ℕ → ResponseCode → Bool → Response
response_of request status code cancelled = record {
  request = some request;
  status_code = some status;
  response_code = some code;
  cancelled = cancelled;
  headers = [];
}

-- `Construct`
abbrev pub construct : Request → ℕ → ResponseCode → Response → Response
construct request status code r = record r {
  request = some request;
  status_code = some status;
  response_code = some code;
}

-- `operator[] const`, the exception of `at` as `none`.
abbrev pub header_at : Bytes → Response → Option Bytes
header_at name r = lookup name r.headers

pub record Task : Type 0 where
  pub request : Request
  pub identifier : Bytes
  pub cancelled : Bool
  pub response : Response
  pub completion_callback : Option ℕ

-- `identifier` is the request's hash.
abbrev pub new_task : Request → Bytes → Task
new_task request identifier = record {
  request = request;
  identifier = identifier;
  cancelled = false;
  response = new_response;
  completion_callback = none;
}

-- The call of the completion callback, if there is one.
abbrev pub Call : Type 0
Call = ℕ × Response

abbrev pub notify : Option ℕ → Response → List Call
notify none r = []
notify (some callback) r = (callback, r) ∷ []

unfoldable pub did_finished : ℕ → ResponseCode → Task → Task × List Call
did_finished http_code code t =
    let response = construct t.request http_code code t.response in
    (record t { response = response }, notify t.completion_callback response)

unfoldable pub did_cancelled : Task → Task × List Call
did_cancelled t = (
  record t { cancelled = true },
  notify t.completion_callback (response_of t.request 0 user_cancel true),
)

-- `find(':')`
unfoldable pub find_colon : Bytes → Option ℕ
find_colon [] = none
find_colon (c ∷ cs) =
    if c == 58 then some 0 else elim (find_colon cs) [ none ↦ none | some i ↦ some (suc i) ]

-- `OnReceiveHeader` with a line as libcurl delivers it.
unfoldable pub on_receive_header : Bytes → Task → Task
unfolding find_colon
on_receive_header line t = elim (find_colon line) [
  | none ↦ t
  | some pos ↦
      if ltb 0 (length (take pos line))
      then record t {
        response = record t.response {
          headers =
              insert (take pos line) (drop (min (pos + 2) (length line)) line) t.response.headers;
        };
      }
      else t
]

-- `OnReceiveData` only logs.
abbrev pub on_receive_data : Bytes → Task → Task
on_receive_data bytes t = t

-- `write_callback` with a task or null, and its result.
abbrev pub write_callback : Bytes → ℕ → ℕ → Option Task → Option Task × ℕ
write_callback bytes size nitems none = (none, 0)
write_callback bytes size nitems (some t) =
    (some (on_receive_data (take (size * nitems % 2 ^ 64) bytes) t), size * nitems % 2 ^ 64)

-- `setCompletionCallback`
abbrev pub set_completion_callback : Option ℕ → Task → Task
set_completion_callback callback t = record t { completion_callback = callback }

-- What a C function reads of a string's `c_str`: the bytes before the first 0.
unfoldable pub c_str : Bytes → Bytes
c_str [] = []
c_str (c ∷ cs) = if c == 0 then [] else c ∷ c_str cs

-- The options of a `curl_easy_setopt` that depend on the request.
pub data CurlOption : Type 0 where
  opt_url opt_private opt_customrequest opt_postfields opt_range : Bytes → CurlOption
  opt_followlocation opt_timeout opt_postfieldsize : ℕ → CurlOption
  opt_httpget opt_put opt_post opt_nobody : CurlOption
  opt_httpheader : List Bytes → CurlOption

unfoldable pub method_options : Bytes → List CurlOption
unfolding c_str
method_options m =
    if same_bytes m get_method
    then opt_httpget ∷ []
    else if same_bytes m put_method
    then opt_put ∷ []
    else if same_bytes m post_method
    then opt_post ∷ []
    else if same_bytes m head_method
    then opt_httpget ∷ opt_nobody ∷ []
    else opt_customrequest (c_str m) ∷ []

-- "Range"
abbrev pub range : Bytes
range = 82 ∷ 97 ∷ 110 ∷ 103 ∷ 101 ∷ []

-- `ConstructHeaders`: the options that it sets, and the lines.
unfoldable pub construct_headers : Headers → List CurlOption × List Bytes
unfolding c_str
construct_headers [] = ([], [])
construct_headers ((key, value) ∷ hs) =
    let (options, lines) = construct_headers hs in
    if same_bytes key range
    then (opt_range (c_str value) ∷ options, lines)
    else (options, c_str (key ++ 58 ∷ 32 ∷ value) ∷ lines)

-- `ConstructCurlHandle`, in the order of the calls.
unfoldable pub construct_curl_handle : Bytes → Request → List CurlOption
unfolding construct_headers body method_options
construct_curl_handle hash r =
    let (options, lines) = construct_headers r.headers in
    opt_url (c_str r.url)
    ∷ opt_followlocation 1
    ∷ opt_timeout 30
    ∷ opt_private hash
    ∷ (method_options r.method
        ++ ((if ltb 0 r.data_length
              then opt_postfieldsize r.data_length ∷ opt_postfields (body r) ∷ []
              else [])
            ++ (options ++ opt_httpheader lines ∷ [])))
