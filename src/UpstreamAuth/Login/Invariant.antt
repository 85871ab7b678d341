-- ===== src/UpstreamAuth/Login/Invariant.antt =====
-- What holds of a login in every reachable state (internal/upstreamauth/manager.go).
use rusty_gateway.Common.{
  ℕ, ◌≡◌, ◌↔◌, refl, Bool, true, false, Option, none, some, arith, false-true, Option-cases, inl,
  inr, ap, sym, ◌∙◌,
}
use rusty_gateway.Common.Text.{Text}
use rusty_gateway.UpstreamAuth.{
  Token, Credentials, CodeResult, Entry, is_some, new_entry, invalidate, clear_login, SourceReply,
  got_token, source_error, next_token,
}
use rusty_gateway.UpstreamAuth.Login.{
  Stage, probing, authorizing, waiting, exchanging, saved, leaving, Login, start_login, abort_login,
  ask_user, receive_code, save_login, finish_login, send_code, is_running, Step, Reach, start,
  abort, probed, ask, receive, save, fail, finish, clear, deliver, reject, refresh, here, next,
}

-- The channel is closed exactly while there is a handler.
abbrev pub EntryInv : Entry → Type 0
EntryInv e = e.ready_closed ≡ is_some e.handler

-- Besides, a login is in progress exactly while one runs.
abbrev pub LoginInv : Login → Type 0
LoginInv l = EntryInv l.entry × (is_some l.entry.code ≡ is_some l.stage)

new_entry-EntryInv : (h : ℕ) (stored : Option Credentials) → EntryInv (new_entry h stored)
unfolding new_entry
new_entry-EntryInv h stored = ground arith

invalidate-EntryInv : (deleted : Bool) (e : Entry) → EntryInv e → EntryInv (invalidate deleted e)
unfolding invalidate
invalidate-EntryInv deleted e v = ground arith

invalidate-code : (deleted : Bool) (e : Entry) → (invalidate deleted e).code ≡ e.code
unfolding invalidate
invalidate-code deleted e = ground arith

next_token-EntryInv :
    (kept : Bool) (client : Text) (last : Option Token) (r : SourceReply) (e : Entry)
    → EntryInv e
    → EntryInv (next_token kept client last r e).2
unfolding next_token
next_token-EntryInv kept client last (got_token tok) e v = ground arith
next_token-EntryInv kept client last (source_error err) e v =
    ground (arith, invalidate-EntryInv kept e v)

next_token-code :
    (kept : Bool) (client : Text) (last : Option Token) (r : SourceReply) (e : Entry)
    → (next_token kept client last r e).2.code ≡ e.code
unfolding next_token
next_token-code kept client last (got_token tok) e = ground arith
next_token-code kept client last (source_error err) e = ground (arith, invalidate-code kept e)

send_code-EntryInv : (r : CodeResult) (e : Entry) → EntryInv e → EntryInv (send_code r e)
unfolding send_code
send_code-EntryInv r e v = ground arith

send_code-open : (r : CodeResult) (e : Entry) → is_some (send_code r e).code ≡ is_some e.code
unfolding send_code
send_code-open r e = ground arith

Step-LoginInv : {l m : Login} → LoginInv l → Step l m → LoginInv m
unfolding start_login abort_login ask_user receive_code save_login finish_login clear_login
Step-LoginInv v start = ground arith
Step-LoginInv v (abort at) = ground arith
Step-LoginInv v (probed at) = ground arith
Step-LoginInv v (ask state url at) = ground arith
Step-LoginInv v (receive r at full) = ground arith
Step-LoginInv v (save r creds at) = ground arith
Step-LoginInv v (fail s at going) = ground arith
Step-LoginInv v (finish h at) = ground arith
Step-LoginInv v (clear at) = ground arith
Step-LoginInv {l} v (deliver r) = (send_code-EntryInv r l.entry v.0, send_code-open r l.entry ∙ v.1)
Step-LoginInv {l} v (reject deleted) =
    (invalidate-EntryInv deleted l.entry v.0, ap is_some (invalidate-code deleted l.entry) ∙ v.1)
Step-LoginInv {l} v (refresh kept client last r) = (
  next_token-EntryInv kept client last r l.entry v.0,
  ap is_some (next_token-code kept client last r l.entry) ∙ v.1,
)

abbrev pub at_rest : ℕ → Option Credentials → Login
at_rest h stored = record { entry = new_entry h stored; stage = none }

pub Reach-LoginInv :
    (h : ℕ) (stored : Option Credentials) (l : Login) → Reach (at_rest h stored) l → LoginInv l
unfolding new_entry
Reach-LoginInv h stored l here = (new_entry-EntryInv h stored, refl)
Reach-LoginInv h stored l (next r s) = Step-LoginInv (Reach-LoginInv h stored _ r) s

none-some : (h : ℕ) → ◌≡◌ {A = Option ℕ} none (some h) → ⊥
none-some h e = cc

started :
    (l : Login)
    → is_some l.entry.code ≡ is_some l.stage
    → ((start_login l).1 ≡ true) ↔ (l.stage ≡ none)
unfolding start_login
started l v = ground arith

channel_handler :
    (e : Entry) → EntryInv e → (e.ready_closed ≡ true) ↔ ((h : ℕ) × (e.handler ≡ some h))
channel_handler e v = elim (Option-cases e.handler) [
  | inl missing ↦ (
    (λ closed. absurd (false-true (sym (v ∙ ap is_some missing) ∙ closed))),
    λ (h, found). absurd (none-some h (sym missing ∙ found)),
  )
  | inr (h, found) ↦ ((λ closed. (h, found)), λ other. v ∙ ap is_some found)
]

-- In every state that an entry reaches from New on, Wait passes exactly while Handler has a
-- handler to give; and at the end of a login that found none, the channel that it closes is open.
pub Reach-ready_iff :
    (h : ℕ) (stored : Option Credentials) (l : Login)
    → Reach (at_rest h stored) l
    → ((l.entry.ready_closed ≡ true) ↔ ((k : ℕ) × (l.entry.handler ≡ some k)))
      × ((is_some l.entry.handler ≡ false) ↔ (l.entry.ready_closed ≡ false))
Reach-ready_iff h stored l r =
    let v = (Reach-LoginInv h stored l r).0 in
    (channel_handler l.entry v, ((λ e. v ∙ e), λ e. sym v ∙ e))

-- In every state that an entry reaches from New on, StartLogin is let in exactly when no login
-- runs.
pub Reach-start_login_iff :
    (h : ℕ) (stored : Option Credentials) (l : Login)
    → Reach (at_rest h stored) l
    → ((start_login l).1 ≡ true) ↔ (l.stage ≡ none)
Reach-start_login_iff h stored l r = started l (Reach-LoginInv h stored l r).1

failing-Ends :
    (l : Login) (s : Stage)
    → l.stage ≡ some s
    → is_running s ≡ true
    → (m : Login) × Reach l m × (m.stage ≡ none) × ((start_login m).1 ≡ true)
unfolding start_login clear_login
failing-Ends l s at going = (
  record { entry = clear_login l.entry; stage = none },
  next (next here (fail s at going)) (clear refl),
  refl,
  refl,
)

-- A login that runs can come to its end from every stage, and then StartLogin is let in again.
pub login-Ends :
    (l : Login) (s : Stage)
    → l.stage ≡ some s
    → (m : Login) × Reach l m × (m.stage ≡ none) × ((start_login m).1 ≡ true)
unfolding start_login abort_login clear_login is_running
login-Ends l probing at = (abort_login l, next here (abort at), refl, refl)
login-Ends l authorizing at = failing-Ends l authorizing at refl
login-Ends l waiting at = failing-Ends l waiting at refl
login-Ends l (exchanging r) at = failing-Ends l (exchanging r) at refl
login-Ends l saved at = failing-Ends l saved at refl
login-Ends l leaving at =
    (record { entry = clear_login l.entry; stage = none }, next here (clear at), refl, refl)
