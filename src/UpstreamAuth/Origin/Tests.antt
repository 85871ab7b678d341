-- ===== src/UpstreamAuth/Origin/Tests.antt =====
-- The headers at concrete requests.
use rusty_gateway.Common.{◌≡◌, refl, false, some, List, [], ◌∷◌, ◌⊎◌, lookup, insert}
use rusty_gateway.Common.Text.{Text, codes, text_eq}
use rusty_gateway.UpstreamAuth.Origin.{Origin, HttpRequest, round_trip, login_path}
use rusty_gateway.UpstreamAuth.Origin.Kept.{or_else, value_for, round_trip-origin}

abbrev same : Text → Text
same k = k

abbrev own : Origin
own = record { scheme = codes "https"; host = codes "mcp.example" }

abbrev gate : List (Text × Text)
gate = (codes "X-Gate", codes "v") ∷ []

abbrev request : HttpRequest
request = record {
  origin = record { scheme = codes "https"; host = codes "as.example" };
  rest = codes "POST /token";
  headers = [];
}

round_trip-origin_example :
    ((round_trip same own gate request ≡ request)
      × ((text_eq request.origin.scheme own.scheme ≡ false)
          ⊎ (text_eq request.origin.host own.host ≡ false)))
    ⊎ ((request.origin.scheme ≡ own.scheme)
        × (request.origin.host ≡ own.host)
        × ((round_trip same own gate request).origin ≡ request.origin)
        × ((round_trip same own gate request).rest ≡ request.rest)
        × ((name : Text)
            → lookup name (round_trip same own gate request).headers
              ≡ or_else (value_for same name gate) (lookup name request.headers)))
round_trip-origin_example = round_trip-origin same own gate request

own-header :
    lookup (codes "X-Gate") (round_trip same own gate (record request { origin = own })).headers
    ≡ some (codes "v")
unfolding round_trip lookup insert text_eq
own-header = refl

path-me : login_path (codes "me/x") ≡ codes "/oauth/upstream/me/x/login"
unfolding login_path
path-me = refl
