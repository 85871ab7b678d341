-- ===== src/Dashboard/Sessions.antt =====
-- Which session cookies are valid (internal/ui/ui.go).
use rusty_gateway.Common.{
  ℕ, zero, suc, ◌+◌, ◌-◌, ◌*◌, ◌/◌, ◌%◌, ◌≤◌, ◌<◌, ◌≡◌, refl, sym, ap, ◌∙◌, Bool, true, false,
  Option, none, some, [], ◌∷◌, ◌++◌, append_assoc, all, ltb→lt, ltb, ◌==◌, not, arith, Bool-cases,
  Option-cases, inl, inr,
}
use rusty_gateway.Common.Int.{ℤ, pos, int_ltb, max_int}
use rusty_gateway.Common.Text.{Text, text_eq, text_eq_sound, text_eq_refl}
use rusty_gateway.Common.Text.Search.{is_space}
use rusty_gateway.Dashboard.{
  session_ttl, decimal, session_body, new_session, split_last, is_digit, read_digits, dotted,
  unsigned, scan_expiry, valid_parts, valid_session,
}

abbrev pub has_no_dot : Text → Bool
has_no_dot s = all (λ c. not (c == b'.')) s

digit_value : (acc d : ℕ) → d < 10 → acc * 10 + (48 + d - 48) ≡ acc * 10 + d
digit_value acc d h = omega arith

is_digit_lem : (d : ℕ) → d < 10 → is_digit (48 + d) ≡ true
unfolding is_digit
is_digit_lem d h = ground arith

read_digits-step :
    (acc d : ℕ) (s : Text) → d < 10 → read_digits acc ((48 + d) ∷ s) ≡ read_digits (acc * 10 + d) s
unfolding read_digits
read_digits-step acc d s h = rw (is_digit_lem d h, digit_value acc d h) refl

read_digits-decimal :
    (fuel n : ℕ) (s : Text) → n < fuel → read_digits 0 (decimal fuel n ++ s) ≡ read_digits n s
unfolding decimal
read_digits-decimal zero n s h = absurd (omega arith)
read_digits-decimal (suc fuel) n s h = elim (Bool-cases (ltb n 10)) [
  | inl small ↦
      rw small
        (read_digits-step 0 n s (ltb→lt n 10 small) ∙ ap (λ m. read_digits m s) (omega arith))
  | inr large ↦
      rw (large, append_assoc (decimal fuel (n / 10)) ((48 + n % 10) ∷ []) s)
        (read_digits-decimal fuel (n / 10) ((48 + n % 10) ∷ s) (ground (arith, large, h))
          ∙ read_digits-step (n / 10) (n % 10) s (omega arith)
          ∙ ap (λ m. read_digits m s) (omega arith))
]

split_last-plain : (s : Text) → has_no_dot s ≡ true → split_last s ≡ none
unfolding split_last
split_last-plain [] h = refl
split_last-plain (c ∷ s) h = rw (split_last-plain s (ground (arith, h))) (ground (arith, h))

split_last-append :
    (body sig : Text) → has_no_dot sig ≡ true → split_last (body ++ b'.' ∷ sig) ≡ some (body, sig)
unfolding split_last
split_last-append [] sig h = rw (split_last-plain sig h) refl
split_last-append (c ∷ body) sig h = rw (split_last-append body sig h) refl

first_digit :
    (fuel n : ℕ) → n < fuel → (d : ℕ) × (t : Text) × (d < 10) × (decimal fuel n ≡ (48 + d) ∷ t)
unfolding decimal
first_digit zero n h = absurd (omega arith)
first_digit (suc fuel) n h = elim (Bool-cases (ltb n 10)) [
  | inl small ↦ (n, [], ltb→lt n 10 small, rw small refl)
  | inr large ↦
      let (d, t, bound, e) = first_digit fuel (n / 10) (ground (arith, large, h)) in
      (d, t ++ (48 + n % 10) ∷ [], bound, rw (large, e) refl)
]

unsigned-digit :
    (d : ℕ) (s : Text)
    → d < 10
    → unsigned false ((48 + d) ∷ s) ≡ dotted false (read_digits 0 ((48 + d) ∷ s))
unfolding unsigned
unsigned-digit d s h = rw (is_digit_lem d h) refl

digit-no_space : (d : ℕ) → d < 10 → is_space (48 + d) ≡ false
unfolding is_space
digit-no_space d h = ground arith

scan_expiry-digit :
    (d : ℕ) (s : Text) → d < 10 → scan_expiry ((48 + d) ∷ s) ≡ unsigned false ((48 + d) ∷ s)
unfolding scan_expiry
scan_expiry-digit d s h = rw (digit-no_space d h) (ground arith)

dotted-small : (n : ℕ) (s : Text) → n ≤ max_int → dotted false (n, b'.' ∷ s) ≡ some (pos n)
unfolding dotted
dotted-small n s h = ground arith

read_digits-dot : (n : ℕ) (s : Text) → read_digits n (b'.' ∷ s) ≡ (n, b'.' ∷ s)
unfolding read_digits is_digit
read_digits-dot n s = refl

-- what follows the number, whose text starts with a digit
scan_expiry-decimal :
    (n d : ℕ) (t s : Text)
    → n ≤ max_int
    → d < 10
    → decimal (suc n) n ≡ (48 + d) ∷ t
    → scan_expiry (decimal (suc n) n ++ b'.' ∷ s) ≡ some (pos n)
scan_expiry-decimal n d t s small digit e =
    ap (λ l. scan_expiry (l ++ b'.' ∷ s)) e
    ∙ scan_expiry-digit d (t ++ b'.' ∷ s) digit
    ∙ unsigned-digit d (t ++ b'.' ∷ s) digit
    ∙ ap (λ l. dotted false (read_digits 0 (l ++ b'.' ∷ s))) (sym e)
    ∙ ap (dotted false)
        (read_digits-decimal (suc n) n (b'.' ∷ s) (omega arith) ∙ read_digits-dot n s)
    ∙ dotted-small n s small

scan_expiry-session_body :
    (n : ℕ) (nonce : Text) → n ≤ max_int → scan_expiry (session_body n nonce) ≡ some (pos n)
unfolding session_body
scan_expiry-session_body n nonce small =
    let (d, t, digit, e) = first_digit (suc n) n (omega arith) in
    scan_expiry-decimal n d t nonce small digit e

-- If no signature has a dot in it, a cookie that newSession makes is valid exactly at the instants
-- before seven days later, as long as that instant fits in 63 bits.
pub valid_session-new_session :
    (sign : Text → Text) (now later : ℕ) (nonce : Text)
    → ((body : Text) → has_no_dot (sign body) ≡ true)
    → now + session_ttl ≤ max_int
    → valid_session sign later (new_session sign now nonce) ≡ ltb later (now + session_ttl)
unfolding valid_session new_session
valid_session-new_session sign now later nonce no_dot small =
    let body = session_body (now + session_ttl) nonce in
    rw
      (
        split_last-append body (sign body) (no_dot body),
        text_eq_refl (sign body),
        scan_expiry-session_body (now + session_ttl) nonce small,
      )
      (ground arith)

split_last_sound :
    (cookie body sig : Text) → split_last cookie ≡ some (body, sig) → cookie ≡ body ++ b'.' ∷ sig
unfolding split_last
split_last_sound [] body sig h = cc
split_last_sound (c ∷ s) body sig h = elim (Option-cases (split_last s)) [
  | inl missing ↦ ground (arith, h, missing)
  | inr ((b, g), found) ↦ ground (arith, h, found, split_last_sound s b g found)
]

-- The cookie is a text, a dot and the signature of the text, which starts with an instant after
-- `now`.
abbrev pub Signed : (Text → Text) → ℕ → Text → Type 0
Signed sign now cookie =
    (body : Text) × (expiry : ℤ) × (cookie ≡ body ++ b'.' ∷ sign body)
    × (scan_expiry body ≡ some expiry)
    × (int_ltb (pos now) expiry ≡ true)

valid_parts-Signed :
    (sign : Text → Text) (now : ℕ) (cookie : Text) (parts : Option (Text × Text))
    → ((body sig : Text) → parts ≡ some (body, sig) → cookie ≡ body ++ b'.' ∷ sig)
    → valid_parts sign now parts ≡ true
    → Signed sign now cookie
unfolding valid_parts
valid_parts-Signed sign now cookie none split h = cc
valid_parts-Signed sign now cookie (some (body, sig)) split h =
    elim (Bool-cases (text_eq sig (sign body))) [
      | inl same ↦ elim (Option-cases (scan_expiry body)) [
        | inl unread ↦ absurd (ground (arith, h, same, unread))
        | inr (expiry, read) ↦ (
          body,
          expiry,
          split body sig refl ∙ ap (λ g. body ++ b'.' ∷ g) (text_eq_sound sig (sign body) same),
          read,
          ground (arith, h, same, read),
        )
      ]
      | inr forged ↦ absurd (ground (arith, h, forged))
    ]

-- A valid cookie is a text with its own signature after a last dot, and the text starts with an
-- instant that has not come yet.
pub valid_session-Signed :
    (sign : Text → Text) (now : ℕ) (cookie : Text)
    → valid_session sign now cookie ≡ true
    → Signed sign now cookie
unfolding valid_session
valid_session-Signed sign now cookie h =
    valid_parts-Signed sign now cookie (split_last cookie) (split_last_sound cookie) h
