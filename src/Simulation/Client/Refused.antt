-- ===== src/Simulation/Client/Refused.antt =====
-- A login that the server turns down every time.
use microsvc.Prelude.{ℕ, zero, suc, ◌+◌, ◌*◌, [], ◌∷◌, some, ◌≡◌, refl, arith, Json}
use microsvc.Prelude.Lists.{length}
use microsvc.Web.{Error, failed}
use microsvc.Simulation.Numbers.{Numbers}
use microsvc.Simulation.Actions.{World, Request, thrown, request, wait}
use microsvc.Simulation.Client
use microsvc.Simulation.Client.{ApiClient, is_retryable_error, retry_from, retry_request, called}
use microsvc.Simulation.Client.Endpoints.{IsRepeated, retry_from-IsRepeated}

module _ {F : Type 0} (N : Numbers F) (c : ApiClient) where
  retry_from-thrown :
      (r : Request) (e : Error) (left retries : ℕ) (w : World F)
      → ((n : ℕ) → w.network n r ≡ failed e)
      → (retry_from N c left retries (request r) w).0 ≡ thrown e
  unfolding retry_from
  retry_from-thrown r e zero retries w h = ground (arith, h (length w.sent))
  retry_from-thrown r e (suc left) retries w h =
      let ms = N.of_nat (c.retry_delay * (retries + 1)) in
      let w' : World F = wait ms (record w { sent = r ∷ w.sent }) in
      ground (arith, h (length w.sent), retry_from-thrown r e left (retries + 1) w' h)

  abbrev pub login_request : Json → Request
  login_request credentials = called c "POST" "/api/users/login" [] [] (some credentials)

  -- The outcome of such a login, and the state that it leaves.
  pub record IsRefused (credentials : Json) (e : Error) (w : World F) : Type 0 where
    pub world : World F
    pub result : Client.login N c credentials w ≡ (thrown e, world)
    pub traffic : IsRepeated N c c.max_retries 0 (login_request credentials) w world

  pub login-IsRefused :
      (credentials : Json) (e : Error) (w : World F)
      → ((n : ℕ) → w.network n (login_request credentials) ≡ failed e)
      → IsRefused credentials e w
  unfolding Client.login retry_request
  login-IsRefused credentials e w h =
      let r = login_request credentials in
      record {
        world = (retry_from N c c.max_retries 0 (request r) w).1;
        result = ground (arith, retry_from-thrown r e c.max_retries 0 w h);
        traffic = retry_from-IsRepeated N c (request r) r (λ v. refl) c.max_retries 0 w;
      }
