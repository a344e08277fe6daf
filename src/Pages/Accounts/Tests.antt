-- ===== src/Pages/Accounts/Tests.antt =====
-- The list of the accounts on a page of the samples.
use microsvc.Prelude.{
  some, none, false, str, arr, obj, nil, cons, Fields, end, field, find, get, ◌≡◌, refl,
}
use microsvc.Pages.Accounts.{Page, View, Row, opened, render}
use microsvc.Pages.Accounts.Laws.{IsListed, render_total}
use microsvc.Pages.Samples.{display}
use microsvc.Samples
use microsvc.Samples.{Jar, cookies, platform, accept}

-- An account whose currency has no format, and that has no status.
abbrev fields : Fields
fields = field "accountType" (str "CHECKING") (field "currency" (str "BAD") end)

abbrev sample : Page Jar
sample = record (opened (Samples.page (accept (arr nil)))) {
  accounts = arr (cons (obj fields) nil);
  is_loading = false;
}

render_total_example :
    (view : View) × (render display platform sample ≡ some view)
    × IsListed (cons (obj fields) nil) view
unfolding get find
render_total_example =
    render_total display (λ v. refl) platform sample (obj fields) nil refl refl refl refl

abbrev sample_row : Row
sample_row = record {
  key = none;
  address = "/accounts/undefined";
  kind = "CHECKING Account";
  number = none;
  balance = "$1.00";
  status = some (str "ACTIVE");
  created = "today";
  updated = "today";
}
