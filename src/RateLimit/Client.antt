-- ===== src/RateLimit/Client.antt =====
-- backend/infra/rate_limit.py: the address that a caller behind proxies is counted under.
use chart_solar.Prelude.{
  ◌-◌, String, ◌≡◌, refl, some, List, [], ◌∷◌, ◌++◌, length, length-append, get_elem?, false, ltb,
  arith,
}
use chart_solar.RateLimit.{Request, client_ip}

get_elem?-append :
    {A : Type 0} (xs ys : List A) (y : A) → get_elem? (xs ++ y ∷ ys) (length xs) ≡ some y
get_elem?-append [] ys y = refl
get_elem?-append (x ∷ xs) ys y = get_elem?-append xs ys y

hops_back :
    (sent proxies : List String) (first : String)
    → length (sent ++ first ∷ proxies) - length (first ∷ proxies) ≡ length sent
hops_back sent proxies first = omega (arith, length-append sent (first ∷ proxies))

enough :
    (sent proxies : List String) (first : String)
    → ltb (length (sent ++ first ∷ proxies)) (length (first ∷ proxies)) ≡ false
enough sent proxies first = ground (arith, length-append sent (first ∷ proxies))

-- Behind as many trusted proxies as declared, each of which appended one entry to the header, the
-- address is the first of the proxies' entries, whatever entries the client sent before them, and
-- whatever the peer.
pub client_ip-append :
    (entries : String → List String) (request : Request) (header first : String)
    (sent proxies : List String)
    → request.forwarded_for ≡ some header
    → entries header ≡ sent ++ first ∷ proxies
    → client_ip (length (first ∷ proxies)) entries request ≡ first
unfolding client_ip
client_ip-append entries request header first sent proxies h e =
    rw (h, e, enough sent proxies first, hops_back sent proxies first)
      (ground (arith, get_elem?-append sent proxies first))
