-- ===== src/Forms/Tests.antt =====
-- The forms on a page of the samples.
use microsvc.Prelude.{
  ◌∷◌, refl, none, some, true, false, ◌≡◌, ◌⊎◌, dec, arr, nil, obj, field, end, int,
}
use microsvc.Client.Calls.{request_of}
use microsvc.Forms.View.Laws.{submit_deposit_twice}
use microsvc.Forms.{Language, Page, submit_deposit, submit_transfer}
use microsvc.Forms.Checks.{may_deposit, may_transfer}
use microsvc.Forms.Laws.{
  IsTurnedDown, IsSent, deposit_call, transfer_call, transferred, submit_transfer-guarded,
}
use microsvc.Samples
use microsvc.Samples.{Jar, cookies, platform, accept}

-- Every text reads as 12.5, and every identity as 7.
abbrev language : Language
language = record {
  parse_float = λ s. some (dec false 125 1);
  parse_int = λ s. 7;
  trim = λ s. s;
  text = λ v. "8";
}

abbrev page : Page Jar
page = record {
  world = Samples.page (accept (obj end));
  account_id = "7";
  account = some (obj (field "balance" (int 80) end));
  amount = "12.5";
  description = "rent";
  to_account_id = "8";
  available_accounts = arr nil;
  is_loading = false;
  is_submitting = false;
  error = none;
  success = false;
  next = none;
}

submit_transfer-guarded_example :
    let after = submit_transfer platform language page in
    ((may_transfer language page platform ≡ true)
      × IsSent page after
          (transfer_call platform language page)
          (transferred platform language page).0)
    ⊎ ((may_transfer language page platform ≡ false) × IsTurnedDown page after)
submit_transfer-guarded_example = submit_transfer-guarded platform language page

submit_deposit_twice_example :
    let once = submit_deposit platform language page in
    (may_deposit language once ≡ true)
    × (once.is_submitting ≡ false)
    × ((submit_deposit platform language once).world.sent
        ≡ request_of (deposit_call platform language once) once.world
          ∷ request_of (deposit_call platform language page) page.world
          ∷ page.world.sent)
submit_deposit_twice_example = submit_deposit_twice platform language page refl
