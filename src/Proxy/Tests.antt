-- ===== src/Proxy/Tests.antt =====
-- The databus proxy at concrete requests: its URL, its headers and what it refuses.
use databus_sim.Prelude.{◌≡◌, refl, [], ◌∷◌}
use databus_sim.Proxy.{ProxyRequest, target_url, is_hop_by_hop, forward_headers, forward_from}
use databus_sim.Dict.{put}
use databus_sim.Text.{rstrip_slash, rstrip_if, lower}

abbrev request : ProxyRequest
request = record {
  method = "PATCH";
  query_string = "a=1";
  headers = ("Host", "sim") ∷ ("Accept", "text/html") ∷ ("KEEP-alive", "1") ∷ [];
  body = "";
}

url : target_url "http://databus:8000/" "api/runs/" "a=1" ≡ "http://databus:8000/api/runs/?a=1"
unfolding target_url rstrip_slash rstrip_if
url = refl

safe_headers : forward_headers request.headers ≡ ("Accept", "text/html") ∷ []
unfolding forward_from put is_hop_by_hop lower
safe_headers = refl
