-- ===== src/UpstreamAuth/Callback.antt =====
-- The redirect of the authorization server (internal/upstreamauth/manager.go, `CallbackHandler`).
-- The map of the entries is searched in the order of a list.
use rusty_gateway.Common.{
  ◌≡◌, refl, sym, ap, ◌∙◌, Bool, true, false, Option, none, some, List, [], ◌∷◌, ◌++◌, ◌&&◌, not,
  if◌then◌else◌, arith, Bool-cases, inl, inr, ◌⊎◌,
}
use rusty_gateway.Common.Text.{Text, text_eq, text_eq_sound, is_empty}
use rusty_gateway.UpstreamAuth.{CodeResult, Entry, is_some}
use rusty_gateway.UpstreamAuth.Login.{send_code}

pub record Query : Type 0 where
  pub state : Text
  pub code : Text
  pub iss : Text
  pub error : Text

pub data Reply : Type 0 where
  no_login refused : Reply
  received : Text → Reply

-- e.code != nil && state != "" && e.loginState == state
unfoldable pub awaits : Text → Entry → Bool
awaits state e = is_some e.code && not (is_empty state) && text_eq e.login_state state

-- the first entry that awaits this state, and the entries with the result sent to it
unfoldable pub send_to : Text → CodeResult → List (Text × Entry) → Option Text × List (Text × Entry)
unfolding awaits
send_to state r [] = (none, [])
send_to state r ((id, e) ∷ es) =
    let (found, rest) = send_to state r es in
    if awaits state e then (some id, (id, send_code r e) ∷ es) else (found, (id, e) ∷ rest)

abbrev pub result_of : Query → CodeResult
result_of q = record { code = q.code; state = q.state; iss = q.iss }

answer :
    Query → List (Text × Entry) → Option Text × List (Text × Entry) → Reply × List (Text × Entry)
answer q es (none, sent) = (no_login, es)
answer q es (some id, sent) = if is_empty q.error then (received id, sent) else (refused, es)

-- the handler of the callback
unfoldable pub callback : Query → List (Text × Entry) → Reply × List (Text × Entry)
unfolding answer
callback q es = answer q es (send_to q.state (result_of q) es)

-- Only the entry of this ID is sent the result: one with a login in progress, whose state is the
-- text that came in, and this is not empty.
pub record Sent (q : Query) (id : Text) (es out : List (Text × Entry)) : Type 0 where
  pub before : List (Text × Entry)
  pub entry : Entry
  pub after : List (Text × Entry)
  pub was : es ≡ before ++ (id, entry) ∷ after
  pub is : out ≡ before ++ (id, send_code (result_of q) entry) ∷ after
  pub in_progress : is_some entry.code ≡ true
  pub same_state : entry.login_state ≡ q.state
  pub some_state : is_empty q.state ≡ false

some-same : {a b : Text} → ◌≡◌ {A = Option Text} (some a) (some b) → a ≡ b
some-same e = cc

awaits-facts :
    (state : Text) (e : Entry)
    → awaits state e ≡ true
    → (is_some e.code ≡ true) × (is_empty state ≡ false) × (text_eq e.login_state state ≡ true)
unfolding awaits
awaits-facts state e h = ground arith

send_to-head :
    (state : Text) (r : CodeResult) (j : Text) (e : Entry) (es : List (Text × Entry))
    → awaits state e ≡ true
    → send_to state r ((j, e) ∷ es) ≡ (some j, (j, send_code r e) ∷ es)
unfolding send_to
send_to-head state r j e es h = rw h refl

send_to-tail :
    (state : Text) (r : CodeResult) (j : Text) (e : Entry) (es : List (Text × Entry))
    → awaits state e ≡ false
    → send_to state r ((j, e) ∷ es) ≡ ((send_to state r es).0, (j, e) ∷ (send_to state r es).1)
unfolding send_to
send_to-tail state r j e es h = rw h refl

head-Sent :
    (q : Query) (id j : Text) (e : Entry) (es : List (Text × Entry))
    → awaits q.state e ≡ true
    → j ≡ id
    → Sent q id ((j, e) ∷ es) ((j, send_code (result_of q) e) ∷ es)
head-Sent q id j e es found same =
    let (open_code, some_text, same_text) = awaits-facts q.state e found in
    record {
      before = [];
      entry = e;
      after = es;
      was = rw same refl;
      is = rw same refl;
      in_progress = open_code;
      same_state = text_eq_sound e.login_state q.state same_text;
      some_state = some_text;
    }

tail-Sent :
    (q : Query) (id : Text) (x : Text × Entry) (es out : List (Text × Entry))
    → Sent q id es out
    → Sent q id (x ∷ es) (x ∷ out)
tail-Sent q id x es out s = record {
  before = x ∷ s.before;
  entry = s.entry;
  after = s.after;
  was = ap (λ l. x ∷ l) s.was;
  is = ap (λ l. x ∷ l) s.is;
  in_progress = s.in_progress;
  same_state = s.same_state;
  some_state = s.some_state;
}

send_to-Sent :
    (q : Query) (es : List (Text × Entry)) (id : Text)
    → (send_to q.state (result_of q) es).0 ≡ some id
    → Sent q id es (send_to q.state (result_of q) es).1
send_to-Sent q [] id h = absurd (unfold send_to in cc)
send_to-Sent q ((j, e) ∷ es) id h = elim (Bool-cases (awaits q.state e)) [
  | inl found ↦ rw (send_to-head q.state (result_of q) j e es found) (
      head-Sent q id j e es found
        (some-same (sym (ap (λ p. p.0) (send_to-head q.state (result_of q) j e es found)) ∙ h)))
  | inr other ↦ rw (send_to-tail q.state (result_of q) j e es other) (
      tail-Sent q id (j, e) es (send_to q.state (result_of q) es).1
        (send_to-Sent q es id
          (sym (ap (λ p. p.0) (send_to-tail q.state (result_of q) j e es other)) ∙ h)))
]

answer-Sent :
    (q : Query) (es : List (Text × Entry)) (o : Option Text) (sent : List (Text × Entry))
    → ((id : Text) → o ≡ some id → Sent q id es sent)
    → ((id : Text) × ((answer q es (o, sent)).0 ≡ received id)
        × Sent q id es (answer q es (o, sent)).1)
      ⊎ (((answer q es (o, sent)).0 ≡ no_login) × ((answer q es (o, sent)).1 ≡ es))
      ⊎ (((answer q es (o, sent)).0 ≡ refused) × ((answer q es (o, sent)).1 ≡ es))
unfolding answer
answer-Sent q es none sent s = inr (inl (refl, refl))
answer-Sent q es (some id) sent s = elim (Bool-cases (is_empty q.error)) [
  | inl fine ↦ rw fine (inl (id, refl, s id refl))
  | inr wrong ↦ rw wrong (inr (inr (refl, refl)))
]

-- The callback sends the result to an entry, and answers so, only if a login is in progress there
-- with exactly the state of the request, which is not empty; no other entry changes. In all other
-- cases it refuses, and no entry changes.
pub callback-Sent :
    (q : Query) (es : List (Text × Entry))
    → ((id : Text) × ((callback q es).0 ≡ received id) × Sent q id es (callback q es).1)
      ⊎ (((callback q es).0 ≡ no_login) × ((callback q es).1 ≡ es))
      ⊎ (((callback q es).0 ≡ refused) × ((callback q es).1 ≡ es))
unfolding callback
callback-Sent q es =
    answer-Sent q es (send_to q.state (result_of q) es).0 (send_to q.state (result_of q) es).1
      (send_to-Sent q es)
