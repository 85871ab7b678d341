-- ===== src/Gateway/Names/Cutting.antt =====
-- When strings.Cut takes the prefixed name of a tool apart again (internal/gateway/discovery.go).
use rusty_gateway.Common.{
  ◌≡◌, ◌≢◌, refl, Bool, true, false, ◌&&◌, some, [], ◌∷◌, arith, if◌then◌else◌, ◌==◌,
}
use rusty_gateway.Common.Text.{Text}
use rusty_gateway.Common.Text.Search.{cut}
use rusty_gateway.Gateway.Names.{separator, prefixed}

-- No "__" in the server's name, and no "_" at its end.
unfoldable pub is_plain : Text → Bool
is_plain [] = true
is_plain (a ∷ []) = if a == b'_' then false else true
is_plain (a ∷ b ∷ s) = if a == b'_' && b == b'_' then false else is_plain (b ∷ s)

-- A plain server name is what Cut finds before the separator of the tool's prefixed name, and the
-- tool's own name, whatever it is, is what it finds after.
pub cut-prefixed :
    (server tool : Text)
    → is_plain server ≡ true
    → cut separator (prefixed server tool) ≡ some (server, tool)
unfolding is_plain cut prefixed
cut-prefixed [] tool h = refl
cut-prefixed (a ∷ []) tool h = ground arith
cut-prefixed (a ∷ b ∷ s) tool h = ground (arith, cut-prefixed (b ∷ s) tool)

-- Cut never gives back the server's own name where that name is not plain.
pub cut-prefixed_unplain :
    (server tool : Text)
    → is_plain server ≡ false
    → cut separator (prefixed server tool) ≢ some (server, tool)
unfolding is_plain cut prefixed
cut-prefixed_unplain [] tool h = λ e. cc
cut-prefixed_unplain (a ∷ []) tool h = λ e. ground arith
cut-prefixed_unplain (a ∷ b ∷ s) tool h = λ e. ground (arith, cut-prefixed_unplain (b ∷ s) tool)
