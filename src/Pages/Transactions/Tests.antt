-- ===== src/Pages/Transactions/Tests.antt =====
-- The list of transactions on a page of the samples.
use microsvc.Prelude.{none, some, false, [], arr, nil, cons, get, ◌↔◌, refl}
use microsvc.Pages.Transactions.{Page, View, opened, filtered, render, fetch_transactions}
use microsvc.Pages.Transactions.Laws.{
  AreNamed, IsOne, IsAsked, Holds, filtered_iff, render-IsOne, fetch_transactions-AreNamed,
}
use microsvc.Pages.Samples.{display, deposit}
use microsvc.Samples
use microsvc.Samples.{Jar, cookies, accept}

filtered_iff_example : Holds deposit (filtered "DEPOSIT" "PENDING" (cons deposit nil)) ↔ (
    Holds deposit (cons deposit nil)
    × IsAsked "DEPOSIT" "type" deposit
    × IsAsked "PENDING" "status" deposit)
filtered_iff_example = filtered_iff "DEPOSIT" "PENDING" deposit (cons deposit nil)

abbrev sample : Page Jar
sample = opened (Samples.page (accept (arr (cons deposit nil))))

fetch_transactions-AreNamed_example : AreNamed (fetch_transactions display sample).transactions
fetch_transactions-AreNamed_example = fetch_transactions-AreNamed display sample tt

abbrev sample_filtered : Page Jar
sample_filtered = record sample {
  transactions = cons deposit nil;
  is_loading = false;
  filter_type = "TRANSFER";
}

abbrev sample_view : View
sample_view = record {
  spinner = false;
  error = none;
  notice = some "No transactions match your current filters";
  rows = [];
  summary = none;
}

render-IsOne_example : IsOne display (filtered "TRANSFER" "ALL" (cons deposit nil)) sample_view
unfolding render filtered get
render-IsOne_example = render-IsOne display sample_filtered refl refl
