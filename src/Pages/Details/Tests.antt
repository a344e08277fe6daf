-- ===== src/Pages/Details/Tests.antt =====
-- The page of an account on a page of the samples.
use microsvc.Prelude.{
  ℕ, ◌+◌, ◌≤◌, or_else, Option, some, none, false, [], ◌∷◌, str, obj, nil, cons, Fields, end, field,
  find, get, ◌≡◌, ◌≢◌, refl,
}
use microsvc.Prelude.Lists.{length}
use microsvc.Pages.{size, mapped, green}
use microsvc.Pages.Transactions.{deposit_icon}
use microsvc.TransactionsApi.Laws.{get_account_transactions-refused}
use microsvc.Pages.Accounts
use microsvc.Pages.Details.{
  Page, render, Row, opened, load, fetch_account_details, recent, slice, no_transactions,
}
use microsvc.Pages.Details.Laws.{
  recent_counts, render_throws, failed_history, fetch_account_details-network,
}
use microsvc.Pages.Samples.{display, deposit}
use microsvc.Samples
use microsvc.Samples.{Jar, cookies, platform, refuse, error_of}

abbrev sample_row : Row
sample_row = record {
  key = none;
  icon = some deposit_icon;
  description = none;
  badge = "Failed";
  kind = "DEPOSIT";
  created = "today";
  color = green;
  sign = "+";
  amount = "$1.00";
}

abbrev left_out : Option ℕ
left_out = none

recent_counts_example :
    (length (sample_row ∷ []) + or_else left_out 0 ≡ size (cons deposit nil))
    × (length (sample_row ∷ []) ≤ 5)
    × (left_out ≢ some 0)
unfolding recent slice get find mapped size
recent_counts_example =
    recent_counts display platform deposit nil {rows = sample_row ∷ []} {more = left_out} refl

-- An account whose currency has no format.
abbrev fields : Fields
fields = field "accountType" (str "CHECKING") (field "currency" (str "BAD") end)

abbrev broken : Page Jar
broken = record (opened "7" (Samples.page (refuse 500))) {
  account = some (obj fields);
  is_loading = false;
}

render_throws_example :
    (render display platform broken ≡ none)
    × (r : Accounts.Row) × (Accounts.row display (obj fields) ≡ some r)
    × (r.balance ≡ "$1.00")
unfolding get find
render_throws_example =
    render_throws display platform broken fields (str "BAD") "$1.00" refl refl refl refl refl refl
      refl refl

failed_history_example :
    let account_page = fetch_account_details display (opened "7" (Samples.page (refuse 500))) in
    let page = load display (opened "7" (Samples.page (refuse 500))) in
    (recent display platform page.transactions_loading page.transactions ≡ some no_transactions)
    × (page.error ≡ account_page.error)
failed_history_example = failed_history display platform "7" (Samples.page (refuse 500)) refl (
    get_account_transactions-refused 7 (some 0) (some 20) none
      (fetch_account_details display (opened "7" (Samples.page (refuse 500)))).world
      (λ r. error_of 500 r.config)
      (fetch_account_details-network display (opened "7" (Samples.page (refuse 500)))))
