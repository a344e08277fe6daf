-- ===== src/Pages/Transactions.antt =====
-- frontend/src/app/transactions/page.tsx: the list of all transactions, its filters and its summary.
pub mod Laws
mod Tests
use microsvc.Prelude.{
  ℕ, String, Bool, true, false, not, ◌&&◌, ◌||◌, Option, none, some, List, [], ◌∷◌, Json, null,
  bool, num, str, arr, obj, Items, nil, cons, Fields, end, field, get, truthy?, or_default, str_eq,
  if◌then◌else◌, ◌⧺◌,
}
use microsvc.Web.{Cookies, World}
use microsvc.Client.Errors.{ApiResponse}
use microsvc.Forms.{loaded}
use microsvc.TransactionsApi
use microsvc.Pages.{
  Display, Color, ◌>>=◌, child, is_text, as_text, as_array, not_null, mapped, size, count, sum,
  color_of, sign_of,
}

pub record Page (Jar : Type 0) : Type 0 where
  pub world : World Jar
  pub transactions : Items
  pub is_loading : Bool
  pub error : Option Json
  pub filter_type : String
  pub filter_status : String

-- `useState` of a page that is opened.
abbrev pub opened : {Jar : Type 0} → World Jar → Page Jar
opened w = record {
  world = w;
  transactions = nil;
  is_loading = true;
  error = none;
  filter_type = "ALL";
  filter_status = "ALL";
}

pub data Icon : Type 0 where
  deposit_icon withdrawal_icon transfer_icon other_icon : Icon

-- `getTransactionIcon`
abbrev pub icon_of : Option Json → Icon
icon_of type =
    if is_text "DEPOSIT" type
    then deposit_icon
    else if is_text "WITHDRAWAL" type
    then withdrawal_icon
    else if is_text "TRANSFER" type
    then transfer_icon
    else other_icon

-- `getStatusBadge`
unfoldable pub badge_of : Option Json → String
badge_of status =
    if is_text "COMPLETED" status
    then "Completed"
    else if is_text "PENDING" status
    then "Pending"
    else if is_text "FAILED" status
    then "Failed"
    else if is_text "CANCELLED" status
    then "Cancelled"
    else "Unknown"

-- An assignment to a property, in place or at the end.
unfoldable pub assign : String → Json → Fields → Fields
assign key v end = field key v end
assign key v (field k w rest) =
    if str_eq k key then field key v rest else field k w (assign key v rest)

-- What is shown of one transaction.
pub record Row : Type 0 where
  pub key : Option Json
  pub icon : Icon
  pub description : Option Json
  pub badge : String
  pub kind : String
  pub account : Option Json
  pub created : String
  pub color : Color
  pub sign : String
  pub amount : String

pub record Summary : Type 0 where
  pub total : ℕ
  pub deposits : String
  pub withdrawals : String
  pub pending : ℕ

-- `notice` is the text where there is no transaction.
pub record View : Type 0 where
  pub spinner : Bool
  pub error : Option Json
  pub notice : Option String
  pub rows : List Row
  pub summary : Option Summary

-- `filter === 'ALL' || v === filter`
unfoldable pub passes : String → Option Json → Bool
passes filter v = str_eq filter "ALL" || is_text filter v

-- `transactions.filter(…)`; a state that the page has set holds objects.
unfoldable pub filtered : (type status : String) → Items → Items
unfolding passes
filtered type status nil = nil
filtered type status (cons t ts) =
    let rest = filtered type status ts in
    if passes type (get "type" t) && passes status (get "status" t) then cons t rest else rest

-- `ts.filter((t) => t.type === type)`
unfoldable pub of_type : String → Items → Items
of_type type nil = nil
of_type type (cons t ts) =
    let rest = of_type type ts in if is_text type (get "type" t) then cons t rest else rest

-- The text where no transaction is left.
abbrev pub notice_of : Bool → String
notice_of true = "No transactions match your current filters"
notice_of false = "Create your first transaction to get started"

-- `error && …`
abbrev pub shown_error : Option Json → Option Json
shown_error none = none
shown_error (some e) = if truthy? (some e) then some e else none

module _ {Value : Type 0} (d : Display Value) where
  -- The objects that a value spreads into.
  abbrev pub spread : Json → Fields
  spread null = end
  spread (bool b) = end
  spread (num n) = end
  spread (str s) = d.indexed (str s)
  spread (arr items) = d.indexed (arr items)
  spread (obj fields) = fields

  -- `****${t.fromAccountId || t.toAccountId || 'Unknown'}`
  abbrev pub account_number : Json → String
  account_number t =
      "****"
      ⧺ d.text
          (or_default (get "fromAccountId" t) (or_default (get "toAccountId" t) (str "Unknown")))

  -- `response.data.map(…)`
  pub displayed : Items → Option Items
  displayed nil = some nil
  displayed (cons v ts) = not_null v >>= λ t. displayed ts >>= λ rest.
      some (cons (obj (assign "accountNumber" (str (account_number t)) (spread t))) rest)

  -- `fetchTransactions`; the call reports its errors and throws nothing.
  pub fetch_transactions : {Jar : Type 0} ⦃C : Cookies Jar⦄ → Page Jar → Page Jar
  unfolding displayed
  fetch_transactions page =
      let (r, w) = TransactionsApi.get_transactions page.world in
      let done = record page { world = w; is_loading = false; error = none } in
      elim (loaded r) [
        | none ↦ record done {
          error = some (or_default r.message (str "Failed to load transactions"));
        }
        | some data' ↦ elim (as_array data' >>= displayed) [
          | none ↦ record done { error = some (str "Failed to load transactions") }
          | some ts ↦ record done { transactions = ts }
        ]
      ]

  pub row : Json → Option Row
  unfolding badge_of
  row t = as_text (get "type" t) >>= λ type.
      d.money (str "USD") (d.value (get "amount" t)) >>= λ amount.
      child (get "description" t) >>= λ description. some (record {
        key = get "id" t;
        icon = icon_of (get "type" t);
        description = description;
        badge = badge_of (get "status" t);
        kind = d.lower type;
        account = get "accountNumber" t;
        created = d.moment (get "createdAt" t);
        color = color_of (get "type" t);
        sign = sign_of (get "type" t);
        amount = amount;
      })

  abbrev pub total : String → Items → Option String
  total type ts = sum d "amount" d.zero_value (of_type type ts) >>= d.money (str "USD")

  pub summary : Items → Option Summary
  summary ts = total "DEPOSIT" ts >>= λ deposits. total "WITHDRAWAL" ts >>= λ withdrawals.
      count "status" "PENDING" ts >>= λ pending. some (record {
        total = size ts;
        deposits = deposits;
        withdrawals = withdrawals;
        pending = pending;
      })

  -- What the page shows of the transactions that are left: a notice, or the list and its summary.
  pub listing : (is_filtered : Bool) → Items → Option View
  unfolding row summary
  listing is_filtered nil = some (record {
    spinner = false;
    error = none;
    notice = some (notice_of is_filtered);
    rows = [];
    summary = none;
  })
  listing is_filtered (cons t ts) = mapped row (cons t ts) >>= λ rows. summary (cons t ts) >>= λ s.
      some (record { spinner = false; error = none; notice = none; rows = rows; summary = some s })

  pub render : {Jar : Type 0} → Page Jar → Option View
  unfolding listing
  render page =
      if page.is_loading || truthy? page.error
      then (child (shown_error page.error) >>= λ error. some (record {
        spinner = page.is_loading;
        error = error;
        notice = none;
        rows = [];
        summary = none;
      }))
      else listing (not (str_eq page.filter_type "ALL") || not (str_eq page.filter_status "ALL"))
          (filtered page.filter_type page.filter_status page.transactions)
