-- ===== src/Redact/Tests.antt =====
-- Redaction at concrete inputs.
use rusty_gateway.Common.{
  ◌<◌, ◌≡◌, refl, true, false, Option, none, some, ◌++◌, arith, length, if◌then◌else◌, Bool-cases,
  inl, inr,
}
use rusty_gateway.Common.Json.{Json, null, str, obj, end, member}
use rusty_gateway.Common.Text.{Text, codes, text_eq, text_eq_iff}
use rusty_gateway.Redact.Pattern.{
  placeholder, bounded, first_match, match_sk, match_bearer, match_jwt, match_hex, match_secret,
  is_base64, run, key, scrub, scrub_from,
}
use rusty_gateway.Redact.{longest, Codec, walk_with, redact_string, looks_nested, walk}
use rusty_gateway.Redact.Clean.{Clean, Loggable, walk-Clean}

scrub_runs : Unit {0}
unfolding scrub scrub_from match_secret first_match bounded match_sk match_bearer match_jwt
    match_hex run is_base64
scrub_runs = tt

scrub_sk : scrub (codes "use sk-abcdefgh1 now") ≡ codes "use " ++ (placeholder ++ codes " now")
unfolding scrub_runs
scrub_sk = refl

scrub_short_sk : scrub (codes "sk-abc") ≡ codes "sk-abc"
unfolding scrub_runs
scrub_short_sk = refl

scrub_bearer : scrub (codes "xBeArEr  a.b") ≡ codes "x" ++ placeholder
unfolding scrub_runs
scrub_bearer = refl

key_folds : (key (codes "API_KEY") ≡ true) × (key (codes "name") ≡ false)
unfolding key
key_folds = (refl, refl)

-- A codec that knows one document, `{"token":"x"}`.
abbrev text : Text
text = codes "{\"token\":\"x\"}"

abbrev inner : Json
inner = obj (member (codes "token") (str (codes "x")) end)

abbrev decode : Text → Option Json
decode s = if text_eq s text then some inner else none

decode_shrinks : (s : Text) (v : Json) → decode s ≡ some v → longest length v < length s
unfolding longest
decode_shrinks s v h = elim (Bool-cases (text_eq s text)) [
  | inl same ↦
      let e = (text_eq_iff s text).0 same in
      let got : inner ≡ v = ground (arith, same) in rw (e, ← got) (omega arith)
  | inr other ↦ absurd (ground (arith, other))
]

abbrev codec : Codec
codec = record {
  unmarshal = decode;
  marshal = λ v. some (codes "{\"token\":\"-\"}");
  runes = length;
  shrinks = decode_shrinks;
}

abbrev payload : Json
payload = obj (member (codes "text") (str text) (member (codes "secret") null end))

walk-payload :
    walk codec 20 payload
    ≡ obj (
        member
          (codes "text")
          (str (codes "{\"token\":\"-\"}"))
          (member (codes "secret") (str placeholder) end))
unfolding walk walk_with redact_string looks_nested key text_eq
walk-payload = refl

walk-Clean_example : Clean (Loggable codec 14) (walk codec 14 payload)
unfolding longest
walk-Clean_example = walk-Clean codec 14 payload (omega arith)
