-- ===== src/Validation/Laws.antt =====
-- What the helpers of validation accept.
use mathlib.Core.List.{◌++◌}
use microsvc.Prelude.{
  ℕ, ◌+◌, ◌≤◌, String, Bool, true, false, List, [], ◌∷◌, ◌≡◌, ◌↔◌, refl, ap, ◌∙◌, arith, ◌&&◌,
  Bool-cases, inl, inr, ◌==◌,
}
use microsvc.Prelude.Lists.{length}
use microsvc.Validation.{
  local, local_more, host, host_more, top, ended, email_run, is_valid_email, is_plain, all, any,
  utf16, get_password_strength, is_lower, is_upper, is_digit, is_special,
}

-- A part of an address: not empty, without a space or an `@`.
abbrev is_part : List ℕ → Bool
is_part [] = false
is_part (c ∷ cs) = all is_plain (c ∷ cs)

-- An address: a part, an `@`, a part, a point, and a part.
pub record IsEmail (us : List ℕ) : Type 0 where
  pub user : List ℕ
  pub server : List ℕ
  pub domain : List ℕ
  pub whole : us ≡ user ++ b'@' ∷ (server ++ b'.' ∷ domain)
  pub user_part : is_part user ≡ true
  pub server_part : is_part server ≡ true
  pub domain_part : is_part domain ≡ true

run_ended : (us : List ℕ) → email_run ended us ≡ all is_plain us
run_ended [] = refl
run_ended (c ∷ cs) = ground (arith, run_ended cs)

run_top : (us : List ℕ) → email_run top us ≡ is_part us
run_top [] = refl
run_top (c ∷ cs) = ground (arith, run_ended cs)

all-append : (test : ℕ → Bool) (xs ys : List ℕ) → all test (xs ++ ys) ≡ (all test xs && all test ys)
all-append test [] ys = refl
all-append test (x ∷ xs) ys = ground (arith, all-append test xs ys)

is_part-append_point :
    (xs ys : List ℕ) → all is_plain xs ≡ true → is_part ys ≡ true → is_part (xs ++ b'.' ∷ ys) ≡ true
is_part-append_point [] [] h g = ground arith
is_part-append_point [] (y ∷ ys) h g = ground arith
is_part-append_point (x ∷ xs) [] h g = ground arith
is_part-append_point (x ∷ xs) (y ∷ ys) h g = ground (arith, all-append is_plain xs (b'.' ∷ y ∷ ys))

run_host_more_of :
    (a t : List ℕ)
    → all is_plain a ≡ true
    → is_part t ≡ true
    → email_run host_more (a ++ b'.' ∷ t) ≡ true
run_host_more_of [] t h g = ground (arith, run_top t)
run_host_more_of (c ∷ cs) t h g =
    ground (arith, run_host_more_of cs t, run_top (cs ++ b'.' ∷ t), is_part-append_point cs t)

run_host_of :
    (a t : List ℕ) → is_part a ≡ true → is_part t ≡ true → email_run host (a ++ b'.' ∷ t) ≡ true
run_host_of [] t h g = absurd (ground arith)
run_host_of (c ∷ cs) t h g = ground (arith, run_host_more_of cs t)

run_local_more_of :
    (u r : List ℕ)
    → all is_plain u ≡ true
    → email_run host r ≡ true
    → email_run local_more (u ++ b'@' ∷ r) ≡ true
run_local_more_of [] r h g = ground arith
run_local_more_of (c ∷ cs) r h g = ground (arith, run_local_more_of cs r)

run_local_of :
    (u r : List ℕ)
    → is_part u ≡ true
    → email_run host r ≡ true
    → email_run local (u ++ b'@' ∷ r) ≡ true
run_local_of [] r h g = absurd (ground arith)
run_local_of (c ∷ cs) r h g = ground (arith, run_local_more_of cs r)

-- A list that is split by a character.
record Split (c : ℕ) (us : List ℕ) (P Q : List ℕ → Bool) : Type 0 where
  left : List ℕ
  right : List ℕ
  joined : us ≡ left ++ c ∷ right
  on_left : P left ≡ true
  on_right : Q right ≡ true

Split-cons :
    {c : ℕ} {us : List ℕ} {P P' Q : List ℕ → Bool} (d : ℕ)
    → Split c us P Q
    → ((xs : List ℕ) → P xs ≡ true → P' (d ∷ xs) ≡ true)
    → Split c (d ∷ us) P' Q
Split-cons d s f = record {
  left = d ∷ s.left;
  right = s.right;
  joined = ap (λ xs. d ∷ xs) s.joined;
  on_left = f s.left s.on_left;
  on_right = s.on_right;
}

run_host_more_parts :
    (us : List ℕ) → email_run host_more us ≡ true → Split b'.' us (all is_plain) is_part
run_host_more_parts [] h = absurd (ground arith)
run_host_more_parts (c ∷ cs) h = elim (Bool-cases (c == b'.')) [
  | inl point ↦ record {
    left = [];
    right = cs;
    joined = ground arith;
    on_left = refl;
    on_right = ground (arith, run_top cs);
  }
  | inr other ↦ Split-cons c (run_host_more_parts cs (ground arith)) (λ xs h'. ground arith)
]

run_host_parts : (us : List ℕ) → email_run host us ≡ true → Split b'.' us is_part is_part
run_host_parts [] h = absurd (ground arith)
run_host_parts (c ∷ cs) h =
    Split-cons c (run_host_more_parts cs (ground arith)) (λ xs h'. ground arith)

run_local_more_parts :
    (us : List ℕ) → email_run local_more us ≡ true → Split b'@' us (all is_plain) (email_run host)
run_local_more_parts [] h = absurd (ground arith)
run_local_more_parts (c ∷ cs) h = elim (Bool-cases (c == b'@')) [
  | inl at_sign ↦ record {
    left = [];
    right = cs;
    joined = ground arith;
    on_left = refl;
    on_right = ground arith;
  }
  | inr other ↦ Split-cons c (run_local_more_parts cs (ground arith)) (λ xs h'. ground arith)
]

run_local_parts : (us : List ℕ) → email_run local us ≡ true → Split b'@' us is_part (email_run host)
run_local_parts [] h = absurd (ground arith)
run_local_parts (c ∷ cs) h =
    Split-cons c (run_local_more_parts cs (ground arith)) (λ xs h'. ground arith)

-- A text passes as an e-mail address exactly when it is a part, an `@`, a part, a point and a part,
-- where a part is not empty and has neither a space nor an `@`.
pub is_valid_email_iff : (email : String) → (is_valid_email email ≡ true) ↔ IsEmail (utf16 email)
unfolding is_valid_email
is_valid_email_iff email = (
  λ h.
      let s = run_local_parts (utf16 email) h in
      let t = run_host_parts s.right s.on_right in
      record {
        user = s.left;
        server = t.left;
        domain = t.right;
        whole = s.joined ∙ ap (λ r. s.left ++ b'@' ∷ r) t.joined;
        user_part = s.on_left;
        server_part = t.on_left;
        domain_part = t.on_right;
      },
  λ e. rw (e.whole) (
      run_local_of e.user (e.server ++ b'.' ∷ e.domain) e.user_part
        (run_host_of e.server e.domain e.server_part e.domain_part)),
)

-- The score and the remarks together number five, and there is no remark exactly when the password
-- has eight units, a lower-case and an upper-case letter, a digit and something else.
pub get_password_strength_iff :
    (password : String)
    → let s = get_password_strength password in
      let us = utf16 password in
      (s.score + length s.feedback ≡ 5)
      × ((s.feedback ≡ []) ↔ (
          (8 ≤ length us)
          × (any is_lower us ≡ true)
          × (any is_upper us ≡ true)
          × (any is_digit us ≡ true)
          × (any is_special us ≡ true)))
unfolding get_password_strength
get_password_strength_iff password = ground arith
