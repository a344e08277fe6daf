-- ===== src/SignIn/Laws.antt =====
-- What the forms of login and registration send and show.
use microsvc.Prelude.{
  String, Bool, true, false, Option, none, some, ◌∷◌, Json, obj, Fields, end, field, find, str_eq,
  ◌≡◌, refl, ap, sym, arith, ◌||◌, if◌then◌else◌, eq_iff, Bool-cases, inl, inr, ◌∙◌,
}
use microsvc.Web.{Cookies}
use microsvc.AuthApi.Laws.{request_of, register_config, register-sent}
use microsvc.Session.Laws.{register-world}
use microsvc.SignIn.{
  Page, without, is_taken_out, others, followed, registration_data, guarded, submit_registration,
}

find-without :
    (left_out : String → Bool) (key : String) (data' : Fields)
    → find key (without left_out data') ≡ (if left_out key then none else find key data')
unfolding find without
find-without left_out key end = ground arith
find-without left_out key (field k v rest) = elim (Bool-cases (str_eq k key)) [
  | inl same ↦ rw ((eq_iff k key).0 same) (ground (arith, find-without left_out key rest))
  | inr differs ↦ ground (arith, find-without left_out key rest)
]

find-followed :
    (key : String) (data' : Fields) (last : Option Json)
    → find key (followed data' last) ≡ (elim (find key data') [
      | some v ↦ some v
      | none ↦ if str_eq key "seedAccountData" then last else none
    ])
unfolding find
find-followed key end none = ground arith
find-followed key end (some v) =
    ground (arith, eq_iff key "seedAccountData", eq_iff "seedAccountData" key)
find-followed key (field k v rest) last = ground (arith, find-followed key rest last)

-- Taking two keys out and setting the second of them again takes the first one out.
set_again :
    (is_first is_second : Bool) (v last : Option Json)
    → (is_second ≡ true → (is_first ≡ false) × (v ≡ last))
    → (elim (if is_first || is_second then none else v) as (λ x. Option Json) [
      | some w ↦ some w
      | none ↦ if is_second then last else none
    ])
      ≡ (if is_first then none else v)
set_again true true v last h = absurd (ground (arith, h refl))
set_again true false v last h = refl
set_again false true v last h = sym (h refl).1
set_again false false none last h = refl
set_again false false (some w) last h = refl

find-registration_data :
    (key : String) (data' : Fields)
    → find key (registration_data data')
      ≡ (if str_eq key "confirmPassword" then none else find key data')
find-registration_data key data' =
    find-followed key (others data') (find "seedAccountData" data')
    ∙ ap
        (λ v. elim v as (λ x. Option Json) [
          | some w ↦ some w
          | none ↦ if str_eq key "seedAccountData" then find "seedAccountData" data' else none
        ])
        (find-without is_taken_out key data')
    ∙ set_again (str_eq key "confirmPassword") (str_eq key "seedAccountData") (find key data')
        (find "seedAccountData" data')
        (λ seed.
          let is_seed : key ≡ "seedAccountData" = (eq_iff key "seedAccountData").0 seed in
          (rw is_seed refl, ap (λ k. find k data') is_seed))

-- A registration that is submitted sends one request, in which every entry of the form stands as it
-- was given, under its own name, but for the repeated password, which does not stand in it.
pub submit_registration-sent :
    {Jar : Type 0} ⦃C : Cookies Jar⦄ (id : String) (data' : Fields) (page : Page Jar)
    → (body : Fields) × ((submit_registration id data' page).session.world.sent
        ≡ request_of (register_config (obj body)) page.session.world ∷ page.session.world.sent)
      × ((key : String)
          → find key body ≡ (if str_eq key "confirmPassword" then none else find key data'))
unfolding submit_registration guarded
submit_registration-sent id data' page = (
  registration_data data',
  ground (
    arith,
    register-sent (obj (registration_data data')) page.session.world,
    register-world (obj (registration_data data')) page.session,
  ),
  λ key. find-registration_data key data',
)
