-- ===== src/Simulation/Client/Endpoints.antt =====
-- The operations of the client as one type, and the traffic that each of them makes.
use microsvc.Prelude.{
  ℕ, zero, suc, ◌+◌, ◌*◌, ◌≤◌, String, Option, none, List, [], ◌∷◌, ◌≡◌, refl, ap, arith, Json,
  Fields, obj, end, ◌⧺◌, truthy?, if◌then◌else◌, some, Bool-cases, inl, inr,
}
use microsvc.Prelude.Lists.{length}
use microsvc.Token.{Platform}
use microsvc.Simulation.Numbers.{Numbers}
use microsvc.Simulation.Actions.{World, Request, Action, request, wait}
use microsvc.Session.{token_text}
use microsvc.Simulation.Client.{
  ApiClient, is_retryable_error, retry_from, retry_request, called, bearer, param, payload,
  question, user_agent,
}
use microsvc.Simulation.Client
use microsvc.Simulation.Client.Retry.{is_retried}

abbrev pub repeated {ℓ} : {A : Type ℓ} → ℕ → A → List A → List A
repeated zero a xs = xs
repeated (suc n) a xs = repeated n a (a ∷ xs)

module _ {F : Type 0} (N : Numbers F) (c : ApiClient) where
  -- The waits of k rounds, from the given one on.
  abbrev pub backoffs : (retries k : ℕ) → List F → List F
  backoffs retries zero ms = ms
  backoffs retries (suc k) ms =
      backoffs (retries + 1) k (N.of_nat (c.retry_delay * (retries + 1)) ∷ ms)

  -- The traffic of one operation: the same request some times over, and a longer wait before each
  -- time but the first.
  pub record IsRepeated (left retries : ℕ) (r : Request) (w v : World F) : Type 0 where
    pub again : ℕ
    pub in_time : again ≤ left
    pub sends : v.sent ≡ repeated (suc again) r w.sent
    pub waits_between : v.waits ≡ backoffs retries again w.waits

  pub retry_from-IsRepeated :
      {A : Type 0} (fn : Action (World F) A) (r : Request)
      → ((w : World F) → (fn w).1 ≡ record w { sent = r ∷ w.sent })
      → (left retries : ℕ) (w : World F)
      → IsRepeated left retries r w (retry_from N c left retries fn w).1
  unfolding retry_from
  retry_from-IsRepeated fn r one zero retries w = record {
    again = 0;
    in_time = omega arith;
    sends = ground (arith, one w);
    waits_between = ground (arith, one w);
  }
  retry_from-IsRepeated fn r one (suc left) retries w = elim (Bool-cases (is_retried (fn w).0)) [
    | inl again ↦
        let v = wait (N.of_nat (c.retry_delay * (retries + 1))) (fn w).1 in
        let next = retry_from-IsRepeated fn r one left (retries + 1) v in
        record {
          again = suc next.again;
          in_time = omega (arith, next.in_time);
          sends = ground (arith, next.sends, one w);
          waits_between = ground (arith, next.waits_between, one w);
        }
    | inr settled ↦ record {
      again = 0;
      in_time = omega arith;
      sends = ground (arith, one w);
      waits_between = ground (arith, one w);
    }
  ]

-- The operations; the first argument of those that carry a token is the token.
pub data Operation : Type 0 where
  health_check : Operation
  register login : Json → Operation
  check_username check_email get_notifications : Option Json → Operation
  get_user_profile get_accounts get_recent_transactions : (token : Option Json) → Operation
  create_account get_transaction : (token : Option Json) → Json → Operation
  get_account_by_id get_account_balance get_account_transactions export_statement :
      (token id : Option Json) → Operation
  create_transaction deposit withdraw transfer : (token : Option Json) → Fields → Operation
  ask_ai_chat : (token : Option Json) → (message locale account_context : String) → Operation
  raw_request : (token : Option Json) → (method path : String) → Json → Operation

module _ {F : Type 0} (N : Numbers F) (c : ApiClient) (p : Platform) where
  abbrev pub perform : Operation → Action (World F) Json
  perform health_check = Client.health_check N c
  perform (register user) = Client.register N c user
  perform (login credentials) = Client.login N c credentials
  perform (check_username name) = Client.check_username N c p name
  perform (check_email email) = Client.check_email N c p email
  perform (get_notifications user) = Client.get_notifications N c p user
  perform (get_user_profile token) = Client.get_user_profile N c p token
  perform (get_accounts token) = Client.get_accounts N c p token
  perform (get_recent_transactions token) = Client.get_recent_transactions N c p token
  perform (create_account token account) = Client.create_account N c p token account
  perform (get_transaction token id) = Client.get_transaction N c p token id
  perform (get_account_by_id token id) = Client.get_account_by_id N c p token id
  perform (get_account_balance token id) = Client.get_account_balance N c p token id
  perform (get_account_transactions token id) = Client.get_account_transactions N c p token id
  perform (export_statement token id) = Client.export_statement N c p token id
  perform (create_transaction token data') = Client.create_transaction N c p token data'
  perform (deposit token data') = Client.deposit N c p token data'
  perform (withdraw token data') = Client.withdraw N c p token data'
  perform (transfer token data') = Client.transfer N c p token data'
  perform (ask_ai_chat token message locale context) =
      Client.ask_ai_chat N c p token message locale context
  perform (raw_request token method path data') = Client.raw_request N c p token method path data'

-- How often an operation may be tried again.
abbrev pub tries_of : ApiClient → Operation → ℕ
tries_of c (ask_ai_chat token message locale context) = 0
tries_of c (raw_request token method path data') = 0
tries_of c _ = c.max_retries

module _ (c : ApiClient) (p : Platform) where
  -- The one request that an operation sends, and sends again.
  abbrev pub request_of : Operation → Request
  request_of health_check = called c "GET" "/api/healthz" [] [] none
  request_of (register user) = called c "POST" "/api/users/register" [] [] (some user)
  request_of (login credentials) = called c "POST" "/api/users/login" [] [] (some credentials)
  request_of (check_username name) =
      called c "GET" "/api/users/check-username" (param p "username" name) [] none
  request_of (check_email email) =
      called c "GET" "/api/users/check-email" (param p "email" email) [] none
  request_of (get_notifications user) = record {
    through = record {
      base_url = "";
      timeout = c.client.timeout;
      headers = user_agent ∷ [];
      common = [];
    };
    method = "GET";
    url = c.notification_service_url ⧺ "/notifications/" ⧺ token_text p user;
    params = [];
    headers = [];
    body = none;
  }
  request_of (get_user_profile token) = called c "GET" "/api/users/profile" [] (bearer p token) none
  request_of (get_accounts token) = called c "GET" "/api/accounts" [] (bearer p token) none
  request_of (get_recent_transactions token) =
      called c "GET" "/api/transactions" [] (bearer p token) none
  request_of (create_account token account) =
      called c "POST" "/api/accounts" [] (bearer p token) (some account)
  request_of (get_transaction token id) =
      called c "GET" "/api/transactions" [] (bearer p token) none
  request_of (get_account_by_id token id) =
      called c "GET" ("/api/accounts/" ⧺ token_text p id) [] (bearer p token) none
  request_of (get_account_balance token id) =
      called c "GET" ("/api/accounts/" ⧺ token_text p id ⧺ "/balance") [] (bearer p token) none
  request_of (get_account_transactions token id) =
      called c "GET" "/api/transactions" (param p "accountId" id) (bearer p token) none
  request_of (export_statement token id) =
      called c "POST" ("/api/accounts/" ⧺ token_text p id ⧺ "/export-statement") [] (bearer p token)
        (some (obj end))
  request_of (create_transaction token data') =
      called c "POST" "/api/transactions/create" [] (bearer p token) (some (payload data'))
  request_of (deposit token data') =
      called c "POST" "/api/transactions/deposit" [] (bearer p token) (some (payload data'))
  request_of (withdraw token data') =
      called c "POST" "/api/transactions/withdraw" [] (bearer p token) (some (payload data'))
  request_of (transfer token data') =
      called c "POST" "/api/transactions/transfer" [] (bearer p token) (some (payload data'))
  request_of (ask_ai_chat token message locale context) =
      called c "POST" "/api/ai/chat" [] (bearer p token) (some (question message locale context))
  request_of (raw_request token method path data') =
      called c method path []
        (("Content-Type", "application/json") ∷ (if truthy? token then bearer p token else []))
        (some data')

module _ {F : Type 0} (N : Numbers F) (c : ApiClient) (p : Platform) where
  -- Every operation sends one and the same request at least once, and again at most as often as the
  -- settings allow, with a longer wait before each time; asking the assistant and the raw request
  -- are never tried again.
  pub perform-IsRepeated :
      (op : Operation) (w : World F)
      → IsRepeated N c (tries_of c op) 0 (request_of c p op) w (perform N c p op w).1
  unfolding Client.health_check Client.register Client.login Client.check_username
      Client.check_email Client.get_notifications Client.get_user_profile Client.get_accounts
      Client.get_recent_transactions Client.create_account Client.get_transaction
      Client.get_account_by_id Client.get_account_balance Client.get_account_transactions
      Client.export_statement Client.create_transaction Client.deposit Client.withdraw
      Client.transfer Client.ask_ai_chat Client.raw_request retry_request
  perform-IsRepeated (get_transaction token id) w =
      retry_from-IsRepeated N c _ _ (λ v. ground arith) c.max_retries 0 w
  perform-IsRepeated (ask_ai_chat token message locale context) w = record {
    again = 0;
    in_time = omega arith;
    sends = refl;
    waits_between = refl;
  }
  perform-IsRepeated (raw_request token method path data') w = record {
    again = 0;
    in_time = omega arith;
    sends = refl;
    waits_between = refl;
  }
  perform-IsRepeated _ w = retry_from-IsRepeated N c _ _ (λ v. refl) c.max_retries 0 w

length-repeated {ℓ} :
    {A : Type ℓ} (n : ℕ) (a : A) (xs : List A) → length (repeated n a xs) ≡ n + length xs
length-repeated zero a xs = omega arith
length-repeated (suc n) a xs = omega (arith, length-repeated n a (a ∷ xs))

-- A health check sends no more than the retries allow.
pub health_check-sent :
    {F : Type 0} (N : Numbers F) (c : ApiClient) (w : World F)
    → length (Client.health_check N c w).1.sent ≤ length w.sent + (c.max_retries + 1)
unfolding Client.health_check retry_request
health_check-sent N c w =
    let r = called c "GET" "/api/healthz" [] [] none in
    let h = retry_from-IsRepeated N c (request r) r (λ v. refl) c.max_retries 0 w in
    omega (arith, ap length h.sends, length-repeated (suc h.again) r w.sent, h.in_time)
