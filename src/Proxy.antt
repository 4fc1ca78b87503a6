-- ===== src/Proxy.antt =====
-- simulator_app/api/proxy.py: the view that forwards requests to the databus. What httpx comes to
-- is an argument. The names of headers are in ASCII.
mod Tests
use mathlib.Core.Option
use databus_sim.Prelude.{
  ℕ, String, Bool, true, false, not, ◌&&◌, ◌||◌, Option, none, some, List, [], ◌∷◌, ◌==◌, contains,
  if◌then◌else◌,
}
use databus_sim.Dict.{Dict, put}
use databus_sim.Text.{append, rstrip_slash, codes, lower, is_empty}

-- What the view reads of a request.
pub record ProxyRequest : Type 0 where
  pub method : String
  pub query_string : String
  pub headers : List (String × String)
  pub body : String

-- The request to the databus.
pub record Forwarded : Type 0 where
  pub method : String
  pub url : String
  pub headers : Dict String
  pub content : String

-- What the call of httpx comes to: a response with its content type, or an exception, with its
-- text.
pub data Relayed : Type 0 where
  replied : (status_code : ℕ) (content : String) (content_type : Option String) → Relayed
  connect_error timeout : Relayed
  failed : (text : String) → Relayed

-- `content_type` is `none` for the default of Django.
pub record HttpResponse : Type 0 where
  pub status : ℕ
  pub content : String
  pub content_type : Option String

-- _ALLOWED_METHODS
abbrev pub allowed_methods : List String
allowed_methods = "GET" ∷ "POST" ∷ "PUT" ∷ "PATCH" ∷ "DELETE" ∷ []

-- _HOP_BY_HOP
abbrev pub hop_by_hop : List String
hop_by_hop =
    "host" ∷ "connection" ∷ "keep-alive" ∷ "transfer-encoding" ∷ "te" ∷ "trailer" ∷ "upgrade"
    ∷ "proxy-authorization" ∷ "proxy-authenticate" ∷ "content-length" ∷ []

-- Equality of texts by their code points.
abbrev pub same_codes : List ℕ → List ℕ → Bool
same_codes [] [] = true
same_codes [] (n ∷ ns) = false
same_codes (m ∷ ms) [] = false
same_codes (m ∷ ms) (n ∷ ns) = m == n && same_codes ms ns

abbrev pub any_of : List ℕ → List String → Bool
any_of s [] = false
any_of s (t ∷ ts) = same_codes s (codes t) || any_of s ts

-- k.lower() in _HOP_BY_HOP
unfoldable pub is_hop_by_hop : String → Bool
is_hop_by_hop k = any_of (lower k) hop_by_hop

-- The loop of the dictionary comprehension, on what it has put so far.
unfoldable pub forward_from : Dict String → List (String × String) → Dict String
forward_from safe [] = safe
forward_from safe ((k, v) ∷ headers) =
    forward_from (if is_hop_by_hop k then safe else put safe k v) headers

abbrev pub forward_headers : List (String × String) → Dict String
forward_headers headers = forward_from [] headers

unfoldable pub target_url : (base_url path query_string : String) → String
target_url base_url path query_string =
    let url = append (rstrip_slash base_url) (append "/" path) in
    if is_empty query_string then url else append url (append "?" query_string)

unfoldable pub answer : Relayed → HttpResponse
answer (replied status_code content content_type) = record {
  status = status_code;
  content = content;
  content_type = some (Option.get_or content_type "application/json");
}
answer connect_error = record {
  status = 502;
  content = "databus unavailable";
  content_type = some "text/plain";
}
answer timeout = record {
  status = 504;
  content = "databus timeout";
  content_type = some "text/plain";
}
answer (failed text) = record { status = 502; content = text; content_type = some "text/plain" }

abbrev pub forwarded : (base_url path : String) → ProxyRequest → Forwarded
forwarded base_url path q = record {
  method = q.method;
  url = target_url base_url path q.query_string;
  headers = forward_headers q.headers;
  content = q.body;
}

-- The request that goes out, if there is one, and the response.
unfoldable pub databus_proxy_view :
    (base_url : String)
    → (databus : Forwarded → Relayed) → ProxyRequest
    → (path : String) → Option Forwarded × HttpResponse
databus_proxy_view base_url databus q path =
    let out = forwarded base_url path q in
    if contains q.method allowed_methods
    then (some out, answer (databus out))
    else (none, record { status = 405; content = ""; content_type = none })
