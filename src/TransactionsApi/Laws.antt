-- ===== src/TransactionsApi/Laws.antt =====
-- Which search parameters the lists and exports of transactions send, and what the movements of
-- money log.
use microsvc.Prelude.{
  ℕ, String, true, false, Option, none, some, or_else, nonempty, List, [], ◌∷◌, ◌≡◌, refl, arith,
  show, serialize, ◌⧺◌, sym, ap, ◌∙◌, ◌≢◌, false, Bool-cases, inl, inr, lookup, lookup-append, Json,
  Number, str_eq,
}
use microsvc.Web.{
  Cookies, World, json, log, transaction, LogEntry, Request, Response, Error, failed, replied,
}
use microsvc.Token.{Platform}
use microsvc.Client.Calls.{Call, run, getting, posting, request_of, request_of-log}
use microsvc.Client.Laws.{run-sent, run_success_iff}
use microsvc.Prelude.Lists.{length}
use microsvc.Client.{ApiResponse}
use microsvc.TransactionsApi.Filters.{
  TransactionFilters, ExportFormat, filtered_params, export_params, appended, id_text, amount_text,
  kind_text, state_text,
}
use microsvc.TransactionsApi.{
  amount_json, get_account_transactions, create_deposit, create_withdrawal, create_transfer,
  audited, movement, transfer_data,
}

lookup-appended_ne :
    (k key : String) (o : Option String) (m : List (String × String))
    → str_eq key k ≡ false
    → lookup k (appended key o m) ≡ lookup k m
unfolding appended
lookup-appended_ne k key none m h = refl
lookup-appended_ne k key (some v) m h = ground (arith, lookup-append k key v m)

lookup-appended_eq :
    (k key : String) (o : Option String) (m : List (String × String))
    → str_eq key k ≡ true
    → lookup k m ≡ none
    → lookup k (appended key o m) ≡ o
unfolding appended
lookup-appended_eq k key none m h new = new
lookup-appended_eq k key (some v) m h new = ground (arith, lookup-append k key v m)

ruleset appended_laws = (lookup-appended_ne, lookup-appended_eq)

-- Every filter that is set is among the search parameters under its own name with its own text,
-- and one that is not set, zero or empty is not; the page, the size and the order always are,
-- with their defaults.
pub filtered_params-lookup :
    (p : Platform) (f : TransactionFilters) (page size : Option ℕ) (sort : Option String)
    → let params = filtered_params p f page size sort in
      (lookup "accountId" params ≡ id_text f.account_id)
      × (lookup "type" params ≡ kind_text f.type)
      × (lookup "status" params ≡ state_text f.status)
      × (lookup "startDate" params ≡ nonempty f.start_date)
      × (lookup "endDate" params ≡ nonempty f.end_date)
      × (lookup "minAmount" params ≡ amount_text p f.min_amount)
      × (lookup "maxAmount" params ≡ amount_text p f.max_amount)
      × (lookup "description" params ≡ nonempty f.description)
      × (lookup "page" params ≡ some (show (or_else page 0)))
      × (lookup "size" params ≡ some (show (or_else size 10)))
      × (lookup "sort" params ≡ some (or_else sort "createdAt,desc"))
unfolding filtered_params lookup
filtered_params-lookup p f page size sort = (
  simp appended_laws,
  simp appended_laws,
  simp appended_laws,
  simp appended_laws,
  simp appended_laws,
  simp appended_laws,
  simp appended_laws,
  simp appended_laws,
  simp appended_laws,
  simp appended_laws,
  simp appended_laws,
)

-- An export knows the filters of a list but for the bounds of the amount and the description:
-- changing these does not change what an export asks for.
pub export_params-ignores :
    (format : ExportFormat) (f : TransactionFilters) (low high : Option Number)
    (text : Option String)
    → export_params format
        (some (record f { min_amount = low; max_amount = high; description = text }))
      ≡ export_params format (some f)
unfolding export_params
export_params-ignores format f low high text = refl

-- The transactions of an account are asked for without regard to the page, the size and the order
-- that the caller gives.
pub get_account_transactions-ignores :
    {Jar : Type 0} ⦃C : Cookies Jar⦄ (id : ℕ) (page size page' size' : Option ℕ)
    (sort sort' : Option String) (w : World Jar)
    → get_account_transactions id page size sort w ≡ get_account_transactions id page' size' sort' w
unfolding get_account_transactions
get_account_transactions-ignores id page size page' size' sort sort' w = refl

-- What a movement of money leaves behind in a world: one request more, and as the last line of the
-- log the movement with whether it succeeded.
pub record IsAudited {Jar : Type 0} ⦃C : Cookies Jar⦄ (kind : String) (id : ℕ)
    (amount : Option Number) (call : Call) (w : World Jar) (out : ApiResponse × World Jar)
    : Type 0 where
  pub sent : out.1.sent ≡ request_of call w ∷ w.sent
  pub entry :
      (before : List LogEntry) × (out.1.logged
        ≡ transaction kind id (amount_json amount) out.0.success ∷ before)

module _ {Jar : Type 0} ⦃C : Cookies Jar⦄ (p : Platform) where
  audited-IsAudited :
      (kind : String) (id : ℕ) (amount : Option Number) (url : String) (body : Json)
      (entry : LogEntry) (w : World Jar)
      → IsAudited kind id amount
          (posting url (json body) [])
          w
          (audited kind id amount (run (posting url (json body) []) (log entry w)))
  audited-IsAudited kind id amount url body entry w =
      let call = posting url (json body) [] in
      let sends : (run call (log entry w)).1.sent ≡ request_of call w ∷ w.sent =
        ground (arith, run-sent call (log entry w), request_of-log call entry w) in
      record { sent = sends; entry = (_, refl) }

  -- A deposit, a withdrawal and a transfer each send exactly one request, to their own address
  -- and with the accounts, the amount, the description and the currency given, and then log
  -- whether it succeeded.
  pub movements-IsAudited :
      (id target : ℕ) (amount : Option Number) (text : String) (currency : Option Json)
      (w : World Jar)
      → IsAudited "deposit" id amount
          (posting "/api/transactions/deposit" (json (movement id amount text currency)) [])
          w
          (create_deposit p id amount text currency w)
        × IsAudited "withdrawal" id amount
            (posting "/api/transactions/withdraw" (json (movement id amount text currency)) [])
            w
            (create_withdrawal p id amount text currency w)
        × IsAudited "transfer" id amount
            (posting "/api/transactions/transfer"
              (json (transfer_data id target amount text currency))
              [])
            w
            (create_transfer p id target amount text currency w)
  unfolding create_deposit create_withdrawal create_transfer
  movements-IsAudited id target amount text currency w = (
    audited-IsAudited "deposit" id amount "/api/transactions/deposit"
        (movement id amount text currency) _ w,
    audited-IsAudited "withdrawal" id amount "/api/transactions/withdraw"
        (movement id amount text currency) _ w,
    audited-IsAudited "transfer" id amount "/api/transactions/transfer"
        (transfer_data id target amount text currency) _ w,
  )

failed-ne-replied : (e : Error) (r : Response) → failed e ≢ replied r
failed-ne-replied e r h = cc

-- A server that refuses everything lists no transactions.
pub get_account_transactions-refused :
    {Jar : Type 0} ⦃C : Cookies Jar⦄ (id : ℕ) (page size : Option ℕ) (sort : Option String)
    (w : World Jar) (refusal : Request → Error)
    → w.network ≡ (λ n r. failed (refusal r))
    → (get_account_transactions id page size sort w).0.success ≡ false
unfolding get_account_transactions
get_account_transactions-refused id page size sort w refusal h =
    let call = getting ("/api/transactions?" ⧺ serialize (("accountId", show id) ∷ [])) [] in
    elim (Bool-cases (run call w).0.success) [
      | inl accepted ↦
          let (r, e) = (run_success_iff call w).0 accepted in
          absurd
            (failed-ne-replied _ r (sym (ap (λ f. f (length w.sent) (request_of call w)) h) ∙ e))
      | inr refused ↦ refused
    ]
