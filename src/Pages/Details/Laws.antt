-- ===== src/Pages/Details/Laws.antt =====
-- What the page of an account shows of its transactions, and where it differs from the lists.
use microsvc.Prelude.{
  truthy?, ℕ, zero, suc, ◌+◌, ◌-◌, ◌≤◌, String, true, false, Option, none, some, or_else, List,
  Json, str, arr, obj, Items, nil, cons, Fields, get, truthy, is_nonempty, if◌then◌else◌, ◌≡◌, ◌≢◌,
  inl, inr, arith, eq_iff, Bool-cases, Option-cases,
}
use microsvc.Prelude.Lists.{length}
use microsvc.Web.{Cookies, World}
use microsvc.Token.{Platform}
use microsvc.AccountsApi.Laws.{get_account-network}
use microsvc.TransactionsApi
use microsvc.Pages.{Display, is_text, mapped, size, measured}
use microsvc.Pages.Laws.{length-mapped}
use microsvc.Pages.Transactions
use microsvc.Pages.Accounts
use microsvc.Pages.Accounts.Laws.{is_account, row_in_dollars}
use microsvc.Pages.Details.{
  Page, Row, no_transactions, some_transactions, opened, fetch_account_details,
  fetch_account_transactions, load, badge_of, slice, row, recent, overview, render,
}

size-slice :
    (n : ℕ) (items : Items)
    → (size (slice n items) + (size items - n) ≡ size items) × (size (slice n items) ≤ n)
unfolding size slice
size-slice zero items = omega arith
size-slice (suc n) nil = omega arith
size-slice (suc n) (cons v items) = omega (arith, size-slice n items)

is_text-eq : (s : String) (v : Option Json) → is_text s v ≡ true → v ≡ some (str s)
is_text-eq s (some (str t)) h = ground (arith, eq_iff t s)
is_text-eq s none h = absurd (ground arith)
is_text-eq s (some _) h = absurd (ground arith)

-- The page of an account calls a status as the list of transactions does, but for one: a transaction
-- that was cancelled.
pub badge_of_lem :
    (status : Option Json)
    → badge_of status
      ≡ (if is_text "CANCELLED" status then "Unknown" else Transactions.badge_of status)
unfolding badge_of Transactions.badge_of
badge_of_lem status = elim (Bool-cases (is_text "CANCELLED" status)) [
  | inl cancelled ↦ rw (is_text-eq "CANCELLED" status cancelled)
  | inr other ↦ ground arith
]

module _ {Value : Type 0} (d : Display Value) (p : Platform) where
  -- Of a history the page shows at most five transactions, and says how many more there are: the two
  -- numbers together are the length of the history, and none are said to be left out if all are shown.
  pub recent_counts :
      (v : Json) (items : Items) {rows : List Row} {more : Option ℕ}
      → recent d p false (arr (cons v items)) ≡ some (some_transactions rows more)
      → (length rows + or_else more 0 ≡ size (cons v items)) × (length rows ≤ 5) × (more ≢ some 0)
  unfolding recent measured
  recent_counts v items h = elim (Option-cases (mapped (row d) (slice 5 (cons v items)))) [
    | inl thrown ↦ absurd (ground arith)
    | inr (rows', all) ↦
        let (whole, few) = size-slice 5 (cons v items) in
        let same = length-mapped (row d) (slice 5 (cons v items)) all in
        (ground arith, ground arith, λ e. ground arith)
  ]

  -- An account whose currency has no format makes its own page throw once it is loaded without an
  -- error, whatever else the page holds; the list of accounts shows the same account, with its balance in dollars. The
  -- account is one that the list can show, and dollars can be formatted.
  pub render_throws :
      {Jar : Type 0} (page : Page Jar) (fields : Fields) (code : Json) (text : String)
      → page.is_loading ≡ false
      → truthy? page.error ≡ false
      → page.account ≡ some (obj fields)
      → is_account (obj fields) ≡ true
      → get "currency" (obj fields) ≡ some code
      → truthy code ≡ true
      → d.money code (d.value (get "balance" (obj fields))) ≡ none
      → d.money (str "USD") (d.value (get "balance" (obj fields))) ≡ some text
      → (render d p page ≡ none)
        × (r : Accounts.Row) × (Accounts.row d (obj fields) ≡ some r)
        × (r.balance ≡ text)
  unfolding render overview
  render_throws page fields code text ready fine is_account' h has_code is_code bad dollars =
      let (r, is_row, shown) = row_in_dollars d fields code text h has_code is_code bad dollars in
      (ground arith, r, is_row, shown)

  module _ {Jar : Type 0} ⦃C : Cookies Jar⦄ (id : String) (w : World Jar) where
    -- A history that cannot be loaded is shown as the history of an account that has no transactions,
    -- without an error.
    pub failed_history :
        let account_page = fetch_account_details d (opened id w) in
        let answer =
          (TransactionsApi.get_account_transactions
            (d.parse_int id)
            (some 0)
            (some 20)
            none
            account_page.world).0 in
        let page = load d (opened id w) in
        is_nonempty id ≡ true
        → answer.success ≡ false
        → (recent d p page.transactions_loading page.transactions ≡ some no_transactions)
          × (page.error ≡ account_page.error)
    unfolding load fetch_account_details fetch_account_transactions recent measured
    failed_history h fails = (ground arith, ground arith)

pub fetch_account_details-network :
    {Value Jar : Type 0} ⦃C : Cookies Jar⦄ (d : Display Value) (page : Page Jar)
    → (fetch_account_details d page).world.network ≡ page.world.network
unfolding fetch_account_details
fetch_account_details-network d page =
    ground (arith, get_account-network (d.parse_int page.account_id) page.world)
