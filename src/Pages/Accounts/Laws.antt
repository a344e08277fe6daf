-- ===== src/Pages/Accounts/Laws.antt =====
-- When the list of accounts can be shown, and what its summary counts.
use microsvc.Prelude.{
  ◌≤◌, String, Bool, true, false, ◌&&◌, Option, none, some, Json, null, bool, num, str, arr, obj,
  Items, nil, cons, Fields, get, or_default, is_some, truthy, ◌≡◌, refl, arith, Option-cases, inl,
  inr,
}
use microsvc.Prelude.Lists.{length}
use microsvc.Token.{Platform}
use microsvc.Pages.{Display, is_child, as_text, mapped, size, count, sum, measured}
use microsvc.Pages.Laws.{length-mapped, count-le-size}
use microsvc.Pages.Accounts.{Page, View, Row, Summary, format_currency, row, summary, render}

-- A property that React shows, or that is missing.
abbrev pub is_shown : Option Json → Bool
is_shown none = true
is_shown (some v) = is_child v

-- What the page needs of an account: it is an object, its type is a text, and React shows its number
-- and its status, which it does not if they are objects.
abbrev pub is_account : Json → Bool
is_account null = false
is_account (bool b) = false
is_account (num n) = false
is_account (str s) = false
is_account (arr items) = false
is_account (obj fields) =
    is_some (as_text (get "accountType" (obj fields)))
    && (is_shown (get "accountNumber" (obj fields)) && is_shown (get "status" (obj fields)))

abbrev pub are_accounts : Items → Bool
are_accounts nil = true
are_accounts (cons v items) = is_account v && are_accounts items

-- What the summary counts, against the rows: one row for each account, and no more active ones.
pub record IsListed (accounts : Items) (v : View) : Type 0 where
  pub summed : Summary
  pub summary : v.summary ≡ some summed
  pub total : summed.total ≡ size accounts
  pub rows : length v.rows ≡ size accounts
  pub active : summed.active ≤ summed.total

module _ {Value : Type 0} (d : Display Value)
    (dollars : (v : Value) → is_some (d.money (str "USD") v) ≡ true) where
  format_currency_total :
      (currency : Option Json) (v : Value) → is_some (format_currency d currency v) ≡ true
  unfolding format_currency
  format_currency_total currency v = ground (arith, dollars v)

  pub row_total : (v : Json) → is_account v ≡ true → is_some (row d v) ≡ true
  unfolding row is_child
  row_total null h = absurd (ground arith)
  row_total (obj fields) h = ground (
    arith,
    format_currency_total (some (or_default (get "currency" (obj fields)) (str "USD")))
        (d.value (get "balance" (obj fields))),
  )
  row_total _ h = absurd (ground arith)

  mapped_total : (items : Items) → are_accounts items ≡ true → is_some (mapped (row d) items) ≡ true
  unfolding mapped
  mapped_total nil h = refl
  mapped_total (cons v items) h = ground (arith, row_total v, mapped_total items)

  sum_total :
      (items : Items) (key : String) (total : Value)
      → are_accounts items ≡ true
      → is_some (sum d key total items) ≡ true
  unfolding sum
  sum_total nil key total h = refl
  sum_total (cons (obj fields) items) key total h = sum_total items key _ (ground arith)
  sum_total (cons _ items) key total h = absurd (ground arith)

  count_total :
      (items : Items) (key s : String)
      → are_accounts items ≡ true
      → is_some (count key s items) ≡ true
  unfolding count
  count_total nil key s h = refl
  count_total (cons (obj fields) items) key s h = ground (arith, count_total items key s)
  count_total (cons _ items) key s h = absurd (ground arith)

  summary_total : (items : Items) → are_accounts items ≡ true → is_some (summary d items) ≡ true
  unfolding summary
  summary_total items h = elim (Option-cases (sum d "balance" d.zero_value items)) [
    | inl bad ↦ absurd (ground (arith, sum_total items "balance" d.zero_value h))
    | inr (total, summed) ↦ ground (
      arith,
      format_currency_total (some (str "USD")) total,
      count_total items "status" "ACTIVE" h,
    )
  ]

  summary_counts :
      (items : Items) {s : Summary}
      → summary d items ≡ some s
      → (s.total ≡ size items) × (s.active ≤ s.total)
  unfolding summary
  summary_counts items h = elim (Option-cases (count "status" "ACTIVE" items)) [
    | inl thrown ↦ absurd (ground arith)
    | inr (n, counted) ↦ ground (arith, count-le-size "status" "ACTIVE" items counted)
  ]

  -- A list of at least one account is shown whatever the currencies are, provided that each account is
  -- an object whose type is a text and whose number and status are missing or hold no objects, and that
  -- dollars can be formatted: there is a row for each account, and a summary that counts as many and no
  -- more of them as active.
  pub render_total :
      {Jar : Type 0} (p : Platform) (page : Page Jar) (v : Json) (items : Items)
      → page.is_loading ≡ false
      → page.error ≡ none
      → page.accounts ≡ arr (cons v items)
      → are_accounts (cons v items) ≡ true
      → (view : View) × (render d p page ≡ some view) × IsListed (cons v items) view
  unfolding render measured
  render_total p page v items ready fine are h =
      elim (Option-cases (mapped (row d) (cons v items))) [
        | inl thrown ↦ absurd (ground (arith, mapped_total (cons v items) h))
        | inr (rows, all) ↦ elim (Option-cases (summary d (cons v items))) [
          | inl thrown ↦ absurd (ground (arith, summary_total (cons v items) h))
          | inr (s, summed) ↦
              let (total, active) = summary_counts (cons v items) summed in
              (
                record {
                  spinner = false;
                  error = none;
                  notice = none;
                  rows = rows;
                  summary = some s;
                },
                ground arith,
                record {
                  summed = s;
                  summary = refl;
                  total = total;
                  rows = length-mapped (row d) (cons v items) all;
                  active = active;
                },
              )
        ]
      ]

module _ {Value : Type 0} (d : Display Value) where
  -- An account that has no status is shown as active, and is not counted as active.
  pub row_without_status :
      (fields : Fields) (items : Items) {r : Row}
      → get "status" (obj fields) ≡ none
      → row d (obj fields) ≡ some r
      → (r.status ≡ some (str "ACTIVE"))
        × (count "status" "ACTIVE" (cons (obj fields) items) ≡ count "status" "ACTIVE" items)
  unfolding row count is_child
  row_without_status fields items missing h = (ground arith, ground arith)

  -- The row of an account whose own currency has no format.
  pub row_in_dollars :
      (fields : Fields) (code : Json) (text : String)
      → is_account (obj fields) ≡ true
      → get "currency" (obj fields) ≡ some code
      → truthy code ≡ true
      → d.money code (d.value (get "balance" (obj fields))) ≡ none
      → d.money (str "USD") (d.value (get "balance" (obj fields))) ≡ some text
      → (r : Row) × (row d (obj fields) ≡ some r) × (r.balance ≡ text)
  unfolding row format_currency is_child
  row_in_dollars fields code text h has_code is_code bad dollars =
      let v = obj fields in
      elim (Option-cases (row d v)) [
        | inl thrown ↦ absurd (ground arith)
        | inr (r, is_row) ↦ (r, is_row, ground arith)
      ]
