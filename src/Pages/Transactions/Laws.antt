-- ===== src/Pages/Transactions/Laws.antt =====
-- What the filters of the list of transactions leave, and what the page shows of it.
use microsvc.Prelude.{
  ◌≤◌, String, Bool, true, false, not, ◌||◌, ◌&&◌, Option, none, some, List, [], Json, str, obj,
  Items, nil, cons, Fields, end, field, get, find, truthy?, str_eq, eq_refl, eq_iff, ◌↔◌, ◌⊎◌, ◌⧺◌,
  ◌≡◌, inl, inr, refl, ap, ◌≢◌, sym, ◌∙◌, arith, Bool-cases, Option-cases,
}
use mathlib.Core.Path.{subst}
use microsvc.Prelude.Lists.{length}
use microsvc.Web.{Cookies}
use microsvc.Forms.{loaded}
use microsvc.TransactionsApi
use microsvc.Pages.{Display, ◌>>=◌, is_text, mapped, size, count, not_null, as_array}
use microsvc.Pages.Laws.{>>=-eq-some, length-mapped, count-le-size}
use microsvc.Pages.Transactions.{
  Page, View, Row, Summary, passes, filtered, assign, displayed, spread, account_number,
  fetch_transactions, row, notice_of, summary, listing, render,
}

-- A transaction among others.
abbrev pub Holds : Json → Items → Type 0
Holds t nil = ⊥
Holds t (cons u ts) = (t ≡ u) ⊎ Holds t ts

-- What a filter asks of a transaction: nothing, or that a property is the text of the filter.
abbrev pub IsAsked : (filter key : String) → Json → Type 0
IsAsked filter key t = (filter ≡ "ALL") ⊎ (get key t ≡ some (str filter))

is_text_iff : (s : String) (v : Option Json) → (is_text s v ≡ true) ↔ (v ≡ some (str s))
is_text_iff s none = ground arith
is_text_iff s (some (str t)) = ground (arith, eq_iff t s)
is_text_iff s (some _) = ground arith

passes-IsAsked :
    (filter key : String) (t : Json) → (passes filter (get key t) ≡ true) ↔ IsAsked filter key t
unfolding passes
passes-IsAsked filter key t = ground (arith, eq_iff filter "ALL", is_text_iff filter (get key t))

both-IsAsked :
    (type status : String) (t : Json)
    → ((passes type (get "type" t) && passes status (get "status" t)) ≡ true)
      ↔ (IsAsked type "type" t × IsAsked status "status" t)
both-IsAsked type status t =
    let (to_type, of_type') = passes-IsAsked type "type" t in
    let (to_status, of_status) = passes-IsAsked status "status" t in
    (
      λ h. (to_type (ground arith), to_status (ground arith)),
      λ (a, b). ground (arith, of_type' a, of_status b),
    )

-- The list shows a transaction exactly when the page holds it, its type is the one that is asked for
-- or all are, and its status is the one that is asked for or all are.
pub filtered_iff :
    (type status : String) (t : Json) (ts : Items)
    → Holds t (filtered type status ts)
      ↔ (Holds t ts × IsAsked type "type" t × IsAsked status "status" t)
unfolding filtered
filtered_iff type status t nil = (λ h. absurd h, λ h. absurd h.0)
filtered_iff type status t (cons u ts) =
    let (out, back) = filtered_iff type status t ts in
    elim (Bool-cases (passes type (get "type" u) && passes status (get "status" u))) [
      | inl kept ↦ rw kept (
        λ h. elim h [
          | inl is_u ↦
              let (a, b) = (both-IsAsked type status t).0 (rw is_u kept) in (inl is_u, a, b)
          | inr later ↦ let (held, a, b) = out later in (inr held, a, b)
        ],
        λ (h, a, b). elim h [ inl is_u ↦ inl is_u | inr later ↦ inr (back (later, a, b)) ],
      )
      | inr dropped ↦ rw dropped (
        λ h. let (held, a, b) = out h in (inr held, a, b),
        λ (h, a, b). elim h [
          | inl is_u ↦
              let asks : (passes type (get "type" t) && passes status (get "status" t)) ≡ false =
                rw is_u dropped in
              let takes = (both-IsAsked type status t).1 (a, b) in absurd (ground arith)
          | inr later ↦ back (later, a, b)
        ],
      )
    ]

-- Every element is an object whose account number is a text that begins with four stars.
abbrev pub AreNamed : Items → Type 0
AreNamed nil = Unit
AreNamed (cons v ts) =
    ((n : String) × (get "accountNumber" v ≡ some (str ("****" ⧺ n)))) × AreNamed ts

find-assign : (key : String) (v : Json) (fields : Fields) → find key (assign key v fields) ≡ some v
unfolding find assign
find-assign key v end = ground (arith, eq_refl key)
find-assign key v (field k w rest) = ground (arith, eq_refl key, find-assign key v rest)

some-inj {ℓ} : {A : Type ℓ} {a b : A} → some a ≡ some b → a ≡ b
some-inj e = cc

module _ {Value : Type 0} (d : Display Value) where
  displayed-AreNamed : (items : Items) {ts : Items} → displayed d items ≡ some ts → AreNamed ts
  unfolding displayed get
  displayed-AreNamed nil h = subst AreNamed (some-inj h) tt
  displayed-AreNamed (cons v items) h =
      let one = λ (t : Json) (rest : Items).
        cons (obj (assign "accountNumber" (str (account_number d t)) (spread d t))) rest in
      let (t, present, h') =
        >>=-eq-some (not_null v) (λ t. displayed d items >>= λ rest. some (one t rest)) h in
      let (rest, others, e) = >>=-eq-some (displayed d items) (λ rest. some (one t rest)) h' in
      subst AreNamed (some-inj e) (
        (_, find-assign "accountNumber" (str (account_number d t)) (spread d t)),
        displayed-AreNamed items others,
      )

  -- What is shown of the transactions `ts`, with nothing but an error, or nothing but a notice as
  -- there are none, or a row for each with a summary that counts them.
  pub data IsOne (ts : Items) (v : View) : Type 0 where
    only_error :
        (e : Json)
        → v.error ≡ some e
        → v.notice ≡ none
        → v.rows ≡ []
        → v.summary ≡ none
        → IsOne ts v
    only_notice :
        (text : String)
        → v.error ≡ none
        → v.notice ≡ some text
        → v.rows ≡ []
        → v.summary ≡ none
        → ts ≡ nil
        → IsOne ts v
    only_list :
        (s : Summary)
        → v.error ≡ none
        → v.notice ≡ none
        → v.summary ≡ some s
        → length v.rows ≡ size ts
        → s.total ≡ size ts
        → s.pending ≤ s.total
        → ts ≢ nil
        → IsOne ts v

  summary_counts :
      (ts : Items) {s : Summary}
      → summary d ts ≡ some s
      → (s.total ≡ size ts) × (s.pending ≤ s.total)
  unfolding summary
  summary_counts ts {s} h = elim (Option-cases (count "status" "PENDING" ts)) [
    | inl thrown ↦ absurd (ground arith)
    | inr (n, counted) ↦ ground (arith, count-le-size "status" "PENDING" ts counted)
  ]

  listing-IsOne :
      (is_filtered : Bool) (ts : Items) {v : View} → listing d is_filtered ts ≡ some v → IsOne ts v
  unfolding listing
  listing-IsOne is_filtered nil h =
      only_notice (notice_of is_filtered) (ground arith) (ground arith) (ground arith)
        (ground arith) refl
  listing-IsOne is_filtered (cons t ts) {v} h =
      let view = λ (rows : List Row) (s : Summary).
        let shown : View = record {
          spinner = false;
          error = none;
          notice = none;
          rows = rows;
          summary = some s;
        } in
        shown in
      let (rows, all, h') =
        >>=-eq-some (mapped (row d) (cons t ts))
          (λ rows. summary d (cons t ts) >>= λ s. some (view rows s)) h in
      let (s, counted, e) = >>=-eq-some (summary d (cons t ts)) (λ s. some (view rows s)) h' in
      let (whole, pending) = summary_counts (cons t ts) counted in
      only_list s (ground arith) (ground arith) (ground arith)
        (ap (λ (w : View). length w.rows) (sym (some-inj e))
          ∙ length-mapped (row d) (cons t ts) all)
        whole pending (λ e'. ground arith)

  -- A page that is not loading, and whose rendering does not throw, shows an error and nothing else,
  -- or a notice and nothing else where the filters leave no transaction, or a row for each
  -- transaction that they leave, with a summary that counts as many and no more of them as pending.
  pub render-IsOne :
      {Jar : Type 0} (page : Page Jar) {v : View}
      → page.is_loading ≡ false
      → render d page ≡ some v
      → IsOne (filtered page.filter_type page.filter_status page.transactions) v
  unfolding render
  render-IsOne page {v} ready h = elim (Bool-cases (truthy? page.error)) [
    | inl failed ↦ elim (Option-cases page.error) [
      | inl fine ↦ absurd (ground arith)
      | inr (e, is_e) ↦ only_error e (ground arith) (ground arith) (ground arith) (ground arith)
    ]
    | inr fine ↦
        listing-IsOne (not (str_eq page.filter_type "ALL") || not (str_eq page.filter_status "ALL"))
          (filtered page.filter_type page.filter_status page.transactions) (ground arith)
  ]

  -- Whatever the server answers, every transaction that the page holds once it has fetched them is an
  -- object with an account number, a text that begins with four stars.
  pub fetch_transactions-AreNamed :
      {Jar : Type 0} ⦃C : Cookies Jar⦄ (page : Page Jar)
      → AreNamed page.transactions
      → AreNamed (fetch_transactions d page).transactions
  unfolding fetch_transactions
  fetch_transactions-AreNamed page h =
      let r = (TransactionsApi.get_transactions page.world).0 in
      elim (Option-cases (loaded r)) [
        | inl nothing ↦ subst AreNamed (ground arith) h
        | inr (data', is_data) ↦ elim (Option-cases (as_array data' >>= displayed d)) [
          | inl thrown ↦ subst AreNamed (ground arith) h
          | inr (ts, are_ts) ↦
              let (items, is_array, shown) = >>=-eq-some (as_array data') (displayed d) are_ts in
              subst AreNamed (ground arith) (displayed-AreNamed items shown)
        ]
      ]
